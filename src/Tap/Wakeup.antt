-- ===== src/Tap/Wakeup.antt =====
-- The polling thread of netif/tapif.c and the signal handler that wakes it: ioReadyContext and the
-- loop of tapThread as steps, in any order with the frames that come in.
use picoos_lwip.Prelude.{
  ℕ, suc, ◌≡◌, ◌≢◌, ◌<◌, ◌≤◌, ◌%◌, ◌^◌, subst, refl, sym, ap, Bool, true, false, not, Option, none,
  some, List, [], ◌∷◌, ◌++◌, ◌>>=◌, >>=-eq-some, some-injective, arith, Option-cases, inl, inr, ◌⊎◌,
  length,
}
use picoos_lwip.Prelude.Bytes.{Bytes, store_bytes, store_bytes-eq}
use picoos_lwip.Tap.{
  Event, link_memerr, link_drop, Turn, ReadResult, got, again, failed, EthTypes, eth_type, fill,
  low_level_input, tap_if_input,
}
use picoos_lwip.Tap.Owned.{ReadResult-cases}

-- The frames in the tap device, whether a SIGIO is to come, the count of `pollSema`, which is
-- `tapIf->sema`, and whether the thread is in nosSemaWait.
pub record Poll : Type 0 where
  pub queue : List Bytes
  pub pending : Bool
  pub sema : ℕ
  pub waiting : Bool

-- The handler of SIGIO.
unfoldable pub io_ready_context : Poll → Poll
io_ready_context p = record p { pending = false; sema = suc p.sema }

-- What a read of the device takes from it.
pub data Reads : ReadResult → List Bytes → List Bytes → Type 0 where
  frame : (f : Bytes) {q : List Bytes} → Reads (got f) (f ∷ q) q
  empty : Reads again [] []
  broken : {q : List Bytes} → Reads failed q q

-- pbuf_alloc has a buffer for every length.
abbrev pub Gives : Turn → Type 0
Gives t = (n : ℕ) → t.pbuf_alloc n ≢ none

module _ (types : EthTypes) (May : Turn → Type 0) where
  -- What can happen next, if the answers that tapIfInput meets are among those of `May`.
  pub data Step : Poll → Poll → Type 0 where
    arrives :
        (f : Bytes) (p : Poll) → Step p (record p { queue = p.queue ++ f ∷ []; pending = true })
    signalled : (p : Poll) → p.pending ≡ true → Step p (io_ready_context p)
    wakes :
        (n : ℕ) (p : Poll)
        → p.waiting ≡ true
        → p.sema ≡ suc n
        → Step p (record p { sema = n; waiting = false })
    times_out : (p : Poll) → p.waiting ≡ true → Step p (record p { waiting = false })
    polls :
        (t : Turn) (more : Bool) (ev : List Event) (q : List Bytes) (p : Poll)
        → p.waiting ≡ false
        → May t
        → Reads t.read p.queue q
        → tap_if_input types t ≡ some (more, ev)
        → Step p (record p { queue = q; waiting = not more })

  pub data Reaches (p : Poll) : Poll → Type 0 where
    start : Reaches p p
    onward : (p1 p2 : Poll) → Reaches p p1 → Step p1 p2 → Reaches p p2

-- A thread that waits while there are frames will be woken.
abbrev pub IsWakeable : Poll → Type 0
IsWakeable p = p.waiting ≡ true → p.queue ≢ [] → (p.pending ≡ true) ⊎ (0 < p.sema)

fill-some :
    (len : ℕ) (b : Bytes) (t : Turn) {r : Option (List Bytes)} {ev : List Event}
    → Gives t
    → fill len b t ≡ some (r, ev)
    → r ≢ none
unfolding fill
fill-some len b t gives e absent = elim (Option-cases (t.pbuf_alloc (len % 2 ^ 16))) [
  | inl n ↦ absurd (gives (len % 2 ^ 16) n)
  | inr (qs, f) ↦ absurd (ground arith)
]

module _ (types : EthTypes) where
  -- Where buffers are never lacking, tapIfInput returns false only if there is no frame.
  tap_if_input-again :
      (t : Turn) {ev : List Event}
      → Gives t
      → tap_if_input types t ≡ some (false, ev)
      → t.read ≡ again
  unfolding tap_if_input low_level_input
  tap_if_input-again t {ev} gives e =
      let ((r, ev1), received, rest) = >>=-eq-some (low_level_input t) _ e in
      elim (Option-cases r) [
        | inl absent ↦ elim (ReadResult-cases t.read) [
          | inl (data_in, f) ↦
              let (b, stored, filled) =
                >>=-eq-some (store_bytes 0 data_in t.eth_buf) (λ b. fill (length data_in) b t)
                  (rw (low_level_input, f) at received) in
              absurd (fill-some (length data_in) b t gives filled absent)
          | inr (inl f) ↦ f
          | inr (inr f) ↦
              absurd
                (fill-some 65535 t.eth_buf t gives (rw (low_level_input, f) at received) absent)
        ]
        | inr (p, f) ↦
            let (ty, known, k) = >>=-eq-some (eth_type p) _ (rw f at rest) in
            absurd (let z = ap (λ (x : Bool × List Event). x.0) (some-injective k) in cc)
      ]

  Reads-again : (r : ReadResult) (q q' : List Bytes) → Reads r q q' → r ≡ again → q' ≡ []
  Reads-again r q q' (frame f) e = absurd cc
  Reads-again r q q' empty e = refl
  Reads-again r q q' broken e = absurd cc

  Step-IsWakeable : (p p' : Poll) → Step types Gives p p' → IsWakeable p → IsWakeable p'
  unfolding io_ready_context
  Step-IsWakeable p p' (arrives f _) w = λ _ _. inl refl
  Step-IsWakeable p p' (signalled _ h) w = λ _ _. inr (omega arith)
  Step-IsWakeable p p' (wakes n _ h c) w = λ z. absurd cc
  Step-IsWakeable p p' (times_out _ h) w = λ z. absurd cc
  Step-IsWakeable p p' (polls t true ev q _ h gives reads e) w = λ z. absurd cc
  Step-IsWakeable p p' (polls t false ev q _ h gives reads e) w =
      λ _ full. absurd (full (Reads-again t.read p.queue q reads (tap_if_input-again t gives e)))

  Reaches-IsWakeable : (p p' : Poll) → 0 < p.sema → Reaches types Gives p p' → IsWakeable p'
  Reaches-IsWakeable p p' one start = λ _ _. inr one
  Reaches-IsWakeable p p' one (onward p1 p2 r step) =
      Step-IsWakeable p1 p2 step (Reaches-IsWakeable p p1 one r)

  -- If pbuf_alloc always has a buffer, then after every sequence of arriving frames, signals, waits
  -- and polls, from a state in which the semaphore's count is not zero, a thread that waits while
  -- the device has frames has a signal to come or a semaphore to take.
  pub tap_thread_wakes :
      (p p' : Poll)
      → 0 < p.sema
      → Reaches types Gives p p'
      → p'.waiting ≡ true
      → p'.queue ≢ []
      → (p'.pending ≡ true) ⊎ (0 < p'.sema)
  tap_thread_wakes p p' one r = Reaches-IsWakeable p p' one r

-- The thread before its first wait: tapIfInit makes the semaphore with the count 1.
abbrev pub initial : List Bytes → Poll
initial q = record { queue = q; pending = false; sema = 1; waiting = true }

module _ (types : EthTypes) where
  dropped :
      (t : Turn) (f : Bytes)
      → t.read ≡ got f
      → length f ≤ length t.eth_buf
      → t.pbuf_alloc (length f % 2 ^ 16) ≡ none
      → tap_if_input types t ≡ some (false, link_memerr ∷ link_drop ∷ [])
  unfolding tap_if_input low_level_input fill
  dropped t f is_read fits lacking =
      rw (
        low_level_input,
        is_read,
        store_bytes-eq 0 f t.eth_buf (omega (arith, fits)),
        ◌>>=◌,
        lacking,
      )

  -- Where two frames are there and pbuf_alloc has no buffer for the first, a state can come in which
  -- the thread waits, the second frame is still there, and neither a signal is to come nor a
  -- semaphore to take: tapIfInput returns false for the frame it drops, as if there was none.
  pub tap_thread_stalls :
      (t : Turn) (f f' : Bytes) (q : List Bytes)
      → t.read ≡ got f
      → length f ≤ length t.eth_buf
      → t.pbuf_alloc (length f % 2 ^ 16) ≡ none
      → (p : Poll) × Reaches types (λ _. Unit) (initial (f ∷ f' ∷ q)) p
        × (p.waiting ≡ true)
        × (p.queue ≡ f' ∷ q)
        × (p.pending ≡ false)
        × (p.sema ≡ 0)
  tap_thread_stalls t f f' q is_read fits lacking =
      let p0 = initial (f ∷ f' ∷ q) in
      let p1 : Poll = record p0 { sema = 0; waiting = false } in
      let p2 : Poll = record p1 { queue = f' ∷ q; waiting = true } in
      let takes : Reads t.read (f ∷ f' ∷ q) (f' ∷ q) =
        subst (λ (r : ReadResult). Reads r (f ∷ f' ∷ q) (f' ∷ q)) (sym is_read) (frame f) in
      (
        p2,
        onward p1 p2 (onward p0 p1 start (wakes 0 p0 refl refl))
            (polls t false _ (f' ∷ q) p1 refl _ takes (dropped t f is_read fits lacking)),
        refl,
        refl,
        refl,
        refl,
      )
