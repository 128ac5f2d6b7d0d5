-- ===== src/SysArch/MboxTests.antt =====
-- The theorems on the mailboxes of sys_arch.c in several threads and over their lives.
use picoos_lwip.Prelude.{
  ℕ, ◌+◌, ◌-◌, ◌≡◌, refl, sym, ap, ◌∙◌, Bool, true, false, Option, none, some, List, [], ◌∷◌, ◌++◌,
  arith, if◌then◌else◌, ◌==◌, append-nil, append_assoc, Bool-cases, inl, inr,
}
use picoos_lwip.SysArch.Nano.{Nano, err_ok}
use picoos_lwip.SysArch.Time.{waited}
use picoos_lwip.SysArch.Handles.{sys_mbox_valid}
use picoos_lwip.SysArch.Kernel.{World, kernel, idle}
use picoos_lwip.SysArch.Mbox.Life.{
  IsCounted, Use, create, free, in_use, use_all, use_one, use_at, use_all-counted,
}
use picoos_lwip.SysArch.Mbox.Shared.{
  IsShared, Call, Reply, put_reply, get_reply, call, calls, sent_by, got_by,
}
use picoos_lwip.SysArch.Mbox.Shared.Fifo.{Passes, calls-Passes}

-- A ring: what has come out, and what is there.
record Ring : Type 0 where
  out : List ℕ
  items : List ℕ

abbrev ring : List ℕ → List ℕ → Ring
ring out items = record { out = out; items = items }

-- A ring of one item that another thread uses too: it fetches the item that a waiting put finds there,
-- and posts 9 for a waiting get.
abbrev busy_put : ℕ → ℕ → List ℕ → List ℕ → Bool × Ring
busy_put x limit out [] = (true, ring out (x ∷ []))
busy_put x limit out (y ∷ ys) =
    if limit == 0
    then (false, ring out (y ∷ ys))
    else (true, ring (out ++ (y ∷ [])) (ys ++ (x ∷ [])))

abbrev busy_get : ℕ → List ℕ → List ℕ → Option ℕ × Ring
busy_get limit out [] =
    if limit == 0 then (none, ring out []) else (some 9, ring (out ++ (9 ∷ [])) [])
busy_get limit out (x ∷ xs) = (some x, ring (out ++ (x ∷ [])) xs)

abbrev ring_of : World → Ring → World
ring_of s r = record s { fetched = r.out; items = r.items }

abbrev busy : Nano
busy = record kernel {
  ring_put = λ box x limit s.
      let (stored, r) = busy_put x limit s.fetched s.items in (stored, ring_of s r);
  ring_get = λ box limit s. let (item, r) = busy_get limit s.fetched s.items in (item, ring_of s r);
}

-- What one step of the ring adds to what has gone in, and to what has come out.
abbrev Adds : List ℕ → List ℕ → Ring → List ℕ → List ℕ → Type 0
Adds out items r posted fetched =
    (r.out ++ r.items ≡ (out ++ items) ++ posted) × (r.out ≡ out ++ fetched)

nothing-Adds : (out items : List ℕ) → Adds out items (ring out items) [] []
nothing-Adds out items = (sym (append-nil (out ++ items)), sym (append-nil out))

busy-put_stored :
    (x limit : ℕ) (out items : List ℕ)
    → (busy_put x limit out items).0 ≡ true
    → (before after fetched : List ℕ) × Adds out items
        (busy_put x limit out items).1
        (before ++ x ∷ after)
        fetched
busy-put_stored x limit out [] e =
    ([], [], [], (ap (λ (t : List ℕ). t ++ x ∷ []) (sym (append-nil out)), sym (append-nil out)))
busy-put_stored x limit out (y ∷ ys) e = elim (Bool-cases (limit == 0)) [
  | inl z ↦ absurd (ground arith)
  | inr w ↦ (
    [],
    [],
    y ∷ [],
    rw w
        (append_assoc out (y ∷ []) (ys ++ x ∷ []) ∙ sym (append_assoc out (y ∷ ys) (x ∷ [])), refl),
  )
]

busy-put_refused :
    (x limit : ℕ) (out items : List ℕ)
    → (busy_put x limit out items).0 ≡ false
    → (posted fetched : List ℕ) × Adds out items (busy_put x limit out items).1 posted fetched
busy-put_refused x limit out [] e = absurd (ground arith)
busy-put_refused x limit out (y ∷ ys) e = elim (Bool-cases (limit == 0)) [
  | inl z ↦ ([], [], rw z (nothing-Adds out (y ∷ ys)))
  | inr w ↦ absurd (ground arith)
]

busy-put_waits : (x : ℕ) (out items : List ℕ) → (busy_put x 4294967295 out items).0 ≡ true
busy-put_waits x out [] = refl
busy-put_waits x out (y ∷ ys) = refl

busy-get_item :
    (x limit : ℕ) (out items : List ℕ)
    → (busy_get limit out items).0 ≡ some x
    → (posted before after : List ℕ) × Adds out items
        (busy_get limit out items).1
        posted
        (before ++ x ∷ after)
busy-get_item x limit out [] e = elim (Bool-cases (limit == 0)) [
  | inl z ↦ absurd (ground arith)
  | inr w ↦
      let same : 9 ≡ x = ground arith in
      (
        9 ∷ [],
        [],
        [],
        rw (w, ← same)
            (
              append-nil (out ++ 9 ∷ []) ∙ ap (λ (t : List ℕ). t ++ 9 ∷ []) (sym (append-nil out)),
              refl,
            ),
      )
]
busy-get_item x limit out (y ∷ ys) e =
    let same : y ≡ x = ground arith in
    (
      [],
      [],
      [],
      rw (← same) (append_assoc out (y ∷ []) ys ∙ sym (append-nil (out ++ y ∷ ys)), refl),
    )

busy-get_nothing :
    (limit : ℕ) (out items : List ℕ)
    → (busy_get limit out items).0 ≡ none
    → (posted fetched : List ℕ) × Adds out items (busy_get limit out items).1 posted fetched
busy-get_nothing limit out [] e = elim (Bool-cases (limit == 0)) [
  | inl z ↦ ([], [], rw z (nothing-Adds out []))
  | inr w ↦ absurd (ground arith)
]
busy-get_nothing limit out (y ∷ ys) e = absurd (ground arith)

busy-IsShared : IsShared busy 3
busy-IsShared = record {
  contents = λ s. s.items;
  posts = λ s. s.fetched ++ s.items;
  fetches = λ s. s.fetched;
  in_order = λ s. refl;
  put_stored = λ x limit s e.
      let (before, after, out, (a, b)) = busy-put_stored x limit s.fetched s.items e in
      (before, after, out, a, b);
  put_refused = λ x limit s e.
      let (posted, out, (a, b)) = busy-put_refused x limit s.fetched s.items e in
      (posted, out, a, b);
  put_waits = λ x s. busy-put_waits x s.fetched s.items;
  get_item = λ x limit s e.
      let (posted, before, after, (a, b)) = busy-get_item x limit s.fetched s.items e in
      (posted, before, after, a, b);
  get_nothing = λ limit s e.
      let (posted, out, (a, b)) = busy-get_nothing limit s.fetched s.items e in (posted, out, a, b);
}

-- Of two posts the second waits, and so does the second fetch.
abbrev busy_calls : List Call
busy_calls =
    Call.post 5 ∷ Call.post 6 ∷ Call.fetch 0 ∷ Call.fetch 50 ∷ Call.tryfetch ∷ Call.trypost 7 ∷ []

calls-busy :
    calls busy (some 3) busy_calls idle
    ≡ some (
      put_reply err_ok
          ∷ put_reply err_ok
          ∷ get_reply (waited 100 32 0 7 7) (some 6)
          ∷ get_reply (waited 100 32 50 7 7) (some 9)
          ∷ get_reply 4294967295 none
          ∷ put_reply err_ok
          ∷ [],
      record { time = 7; items = 7 ∷ []; count = 0; taken = 0; fetched = 5 ∷ 6 ∷ 9 ∷ [] },
    )
unfolding calls call
calls-busy = refl

calls-Passes_example :
    (rs : List Reply) × (s' : World) × (calls busy (some 3) busy_calls idle ≡ some (rs, s'))
    × Passes busy 3 busy-IsShared idle s' (sent_by busy_calls rs) (got_by rs)
calls-Passes_example = calls-Passes busy 3 busy-IsShared busy_calls idle

-- The tick counter as the counter of mailboxes, and a ring for every request of more than one item.
abbrev counting : Nano
counting = record kernel {
  ring_create = λ size s. (if size == 1 then none else some 3, s);
  stats_inc_used = λ s. record s { time = s.time + 1 };
  stats_dec = λ s. record s { time = s.time - 1 };
}

counting-IsCounted : IsCounted counting
counting-IsCounted = record {
  used = λ s. s.time;
  used-inc = λ s. refl;
  used-dec = λ s h. omega arith;
  used-create = λ size s. refl;
  used-destroy = λ b s. refl;
}

abbrev empty : World
empty = record { time = 0; items = []; count = 0; taken = 0; fetched = [] }

-- Three are asked for, of which one cannot be made, and two calls free the first.
abbrev uses : List (Use × ℕ)
uses = (create 0, 0) ∷ (create 1, 1) ∷ (create 5, 2) ∷ (free, 0) ∷ (free, 0) ∷ []

use_all-counted_example :
    (use_all counting uses (none ∷ none ∷ none ∷ []) empty).1.time
    ≡ in_use (use_all counting uses (none ∷ none ∷ none ∷ []) empty).0
unfolding sys_mbox_valid counting-IsCounted
use_all-counted_example =
    use_all-counted counting counting-IsCounted uses (none ∷ none ∷ none ∷ []) empty refl

use_all-uses : use_all counting uses (none ∷ none ∷ none ∷ []) empty ≡ (
  none ∷ none ∷ some 3 ∷ [],
  record { time = 1; items = []; count = 0; taken = 0; fetched = [] },
)
unfolding use_all use_at use_one
use_all-uses = refl
