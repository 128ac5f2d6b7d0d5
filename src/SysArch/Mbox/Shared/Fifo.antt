-- ===== src/SysArch/Mbox/Shared/Fifo.antt =====
-- The order of the messages in a mailbox that other threads use too (sys_mbox_post,
-- sys_mbox_trypost, sys_arch_mbox_fetch and sys_arch_mbox_tryfetch of sys_arch.c).
use picoos_lwip.Prelude.{
  ℕ, ◌≡◌, refl, sym, subst, drop, length, ap, ap₂, ◌∙◌, true, none, some, List, [], ◌∷◌, ◌++◌,
  ◌>>=◌, Bool-cases, Option-cases, inl, inr, append_assoc, append-nil,
}
use picoos_lwip.Prelude.Bytes.{drop-append}
use picoos_lwip.SysArch.Nano.{Nano, err_ok, err_mem}
use picoos_lwip.SysArch.Sync.{ticks}
use picoos_lwip.SysArch.Time.{waited}
use picoos_lwip.SysArch.Mbox.Shared.{
  IsShared, Call, post, trypost, fetch, tryfetch, Reply, put_reply, get_reply, call, calls, sends,
  gets, sent_by, got_by, Entry, own, other, messages, mine,
}

abbrev others : List ℕ → List Entry
others [] = []
others (x ∷ xs) = other x ∷ others xs

messages-append : (xs ys : List Entry) → messages (xs ++ ys) ≡ messages xs ++ messages ys
messages-append [] ys = refl
messages-append (own x ∷ xs) ys = ap (λ (t : List ℕ). x ∷ t) (messages-append xs ys)
messages-append (other x ∷ xs) ys = ap (λ (t : List ℕ). x ∷ t) (messages-append xs ys)

mine-append : (xs ys : List Entry) → mine (xs ++ ys) ≡ mine xs ++ mine ys
mine-append [] ys = refl
mine-append (own x ∷ xs) ys = ap (λ (t : List ℕ). x ∷ t) (mine-append xs ys)
mine-append (other x ∷ xs) ys = mine-append xs ys

messages-others : (xs : List ℕ) → messages (others xs) ≡ xs
messages-others [] = refl
messages-others (x ∷ xs) = ap (λ (t : List ℕ). x ∷ t) (messages-others xs)

mine-others : (xs : List ℕ) → mine (others xs) ≡ []
mine-others [] = refl
mine-others (x ∷ xs) = mine-others xs

-- One message of this thread among those of others.
abbrev amid : List ℕ → ℕ → List ℕ → List Entry
amid xs x ys = others xs ++ own x ∷ others ys

messages-amid : (xs : List ℕ) (x : ℕ) (ys : List ℕ) → messages (amid xs x ys) ≡ xs ++ x ∷ ys
messages-amid xs x ys =
    messages-append (others xs) (own x ∷ others ys)
    ∙ ap₂ (λ (a : List ℕ) b. a ++ x ∷ b) (messages-others xs) (messages-others ys)

mine-amid : (xs : List ℕ) (x : ℕ) (ys : List ℕ) → mine (amid xs x ys) ≡ x ∷ []
mine-amid xs x ys =
    mine-append (others xs) (own x ∷ others ys)
    ∙ ap₂ (λ (a : List ℕ) b. a ++ x ∷ b) (mine-others xs) (mine-others ys)

append_cancel : (xs a b : List ℕ) → xs ++ a ≡ xs ++ b → a ≡ b
append_cancel xs a b e =
    sym (drop-append xs a) ∙ ap (λ (t : List ℕ). drop (length xs) t) e ∙ drop-append xs b

module _ (k : Nano) (box : ℕ) (ring : IsShared k box) where
  open ring use {contents, posts, fetches}

  -- What goes through the mailbox from one state to another, of which this thread has sent and got
  -- some: `posted` is what has gone in since, and `fetched` what has come out, and what was there
  -- and then what went in is what came out and then what is there.
  abbrev pub Passes : k.State → k.State → List ℕ → List ℕ → Type 0
  Passes s s' sent got =
      (posted fetched : List Entry) × (posts s' ≡ posts s ++ messages posted)
      × (fetches s' ≡ fetches s ++ messages fetched)
      × (mine posted ≡ sent)
      × (mine fetched ≡ got)
      × (contents s ++ messages posted ≡ messages fetched ++ contents s')

  -- The order follows from what went in and came out.
  contents_between :
      (s s' : k.State) (posted fetched : List ℕ)
      → posts s' ≡ posts s ++ posted
      → fetches s' ≡ fetches s ++ fetched
      → contents s ++ posted ≡ fetched ++ contents s'
  contents_between s s' posted fetched p f =
      append_cancel (fetches s) (contents s ++ posted) (fetched ++ contents s') (
        sym (append_assoc (fetches s) (contents s) posted)
        ∙ ap (λ (t : List ℕ). t ++ posted) (sym (ring.in_order s))
        ∙ sym p
        ∙ ring.in_order s'
        ∙ ap (λ (t : List ℕ). t ++ contents s') f
        ∙ append_assoc (fetches s) fetched (contents s'))

  Passes-entries :
      (s s' : k.State) (posted fetched : List Entry)
      → posts s' ≡ posts s ++ messages posted
      → fetches s' ≡ fetches s ++ messages fetched
      → Passes s s' (mine posted) (mine fetched)
  Passes-entries s s' posted fetched p f = (
    posted,
    fetched,
    p,
    f,
    refl,
    refl,
    contents_between s s' (messages posted) (messages fetched) p f,
  )

  -- Where the messages are given by their numbers.
  Passes-lists :
      (s s' : k.State) (ins outs : List Entry) (posted fetched sent got : List ℕ)
      → messages ins ≡ posted
      → messages outs ≡ fetched
      → mine ins ≡ sent
      → mine outs ≡ got
      → posts s' ≡ posts s ++ posted
      → fetches s' ≡ fetches s ++ fetched
      → Passes s s' sent got
  Passes-lists s s' ins outs posted fetched sent got a b m n p f =
      let e =
        Passes-entries s s' ins outs (p ∙ ap (λ (t : List ℕ). posts s ++ t) (sym a))
          (f ∙ ap (λ (t : List ℕ). fetches s ++ t) (sym b)) in
      subst (λ (t : List ℕ). Passes s s' sent t) n
        (subst (λ (t : List ℕ). Passes s s' t (mine outs)) m e)

  Passes-trans :
      (s s1 s2 : k.State) (xs ys ps qs : List ℕ)
      → Passes s s1 xs ps
      → Passes s1 s2 ys qs
      → Passes s s2 (xs ++ ys) (ps ++ qs)
  Passes-trans s s1 s2 xs ys ps qs (ins, outs, p, f, m, n, _) (ins', outs', p', f', m', n', _) =
      Passes-lists s s2 (ins ++ ins') (outs ++ outs') (messages ins ++ messages ins')
        (messages outs ++ messages outs') (xs ++ ys) (ps ++ qs) (messages-append ins ins')
        (messages-append outs outs') (mine-append ins ins' ∙ ap₂ (λ (a b : List ℕ). a ++ b) m m')
        (mine-append outs outs' ∙ ap₂ (λ (a b : List ℕ). a ++ b) n n')
        (p'
          ∙ ap (λ (t : List ℕ). t ++ messages ins') p
          ∙ append_assoc (posts s) (messages ins) (messages ins'))
        (f'
          ∙ ap (λ (t : List ℕ). t ++ messages outs') f
          ∙ append_assoc (fetches s) (messages outs) (messages outs'))

  Passes-others :
      (s s' : k.State) (posted fetched : List ℕ)
      → posts s' ≡ posts s ++ posted
      → fetches s' ≡ fetches s ++ fetched
      → Passes s s' [] []
  Passes-others s s' posted fetched p f =
      Passes-lists s s' (others posted) (others fetched) posted fetched [] []
        (messages-others posted) (messages-others fetched) (mine-others posted)
        (mine-others fetched) p f

  Passes-put :
      (x limit : ℕ) (s : k.State)
      → (k.ring_put box x limit s).0 ≡ true
      → Passes s (k.ring_put box x limit s).1 (x ∷ []) []
  Passes-put x limit s stored =
      let (before, after, out, p, f) = ring.put_stored x limit s stored in
      Passes-lists s (k.ring_put box x limit s).1 (amid before x after) (others out)
        (before ++ x ∷ after) out (x ∷ []) [] (messages-amid before x after) (messages-others out)
        (mine-amid before x after) (mine-others out) p f

  Passes-get :
      (x limit : ℕ) (s : k.State)
      → (k.ring_get box limit s).0 ≡ some x
      → Passes s (k.ring_get box limit s).1 [] (x ∷ [])
  Passes-get x limit s found =
      let (posted, before, after, p, f) = ring.get_item x limit s found in
      Passes-lists s (k.ring_get box limit s).1 (others posted) (amid before x after) posted
        (before ++ x ∷ after) [] (x ∷ []) (messages-others posted) (messages-amid before x after)
        (mine-others posted) (mine-amid before x after) p f

  call-Passes :
      (c : Call) (s : k.State)
      → (r : Reply) × (s' : k.State) × (call k (some box) c s ≡ some (r, s'))
        × Passes s s' (sends c r) (gets r)
  unfolding call
  call-Passes (post x) s = (_, _, refl, Passes-put x k.infinite s (ring.put_waits x s))
  call-Passes (trypost x) s = elim (Bool-cases (k.ring_put box x 0 s).0) [
    | inl e ↦ (put_reply err_ok, (k.ring_put box x 0 s).1, rw e refl, Passes-put x 0 s e)
    | inr e ↦
        let (posted, out, p, f) = ring.put_refused x 0 s e in
        (put_reply err_mem, (k.ring_put box x 0 s).1, rw e refl, Passes-others s _ posted out p f)
  ]
  call-Passes (fetch timeout) s = elim (Option-cases (k.ring_get box (ticks k timeout) s).0) [
    | inl e ↦
        let (posted, out, p, f) = ring.get_nothing (ticks k timeout) s e in
        (
          get_reply k.sys_arch_timeout none,
          (k.ring_get box (ticks k timeout) s).1,
          rw e refl,
          Passes-others s _ posted out p f,
        )
    | inr (x, e) ↦ (
      get_reply
          (waited k.hz k.jif_bits timeout (k.jiffies s)
            (k.jiffies (k.ring_get box (ticks k timeout) s).1))
          (some x),
      (k.ring_get box (ticks k timeout) s).1,
      rw e refl,
      Passes-get x (ticks k timeout) s e,
    )
  ]
  call-Passes tryfetch s = elim (Option-cases (k.ring_get box 0 s).0) [
    | inl e ↦
        let (posted, out, p, f) = ring.get_nothing 0 s e in
        (
          get_reply k.sys_mbox_empty none,
          (k.ring_get box 0 s).1,
          rw e refl,
          Passes-others s _ posted out p f,
        )
    | inr (x, e) ↦ (get_reply 0 (some x), (k.ring_get box 0 s).1, rw e refl, Passes-get x 0 s e)
  ]

  -- In a mailbox that other threads use too, no message is lost, made up, doubled or overtaken by a
  -- sequence of calls of one thread, which waits or not and meets no fault: the messages that its
  -- calls have sent are, in order, among those that have gone into the ring meanwhile, the messages
  -- that its calls have got are, in order, among those that have come out, and what was there and
  -- then all that went in is all that came out and then what is there.
  pub calls-Passes :
      (cs : List Call) (s : k.State)
      → (rs : List Reply) × (s' : k.State) × (calls k (some box) cs s ≡ some (rs, s'))
        × Passes s s' (sent_by cs rs) (got_by rs)
  unfolding calls
  calls-Passes [] s = (
    [],
    s,
    refl,
    Passes-others s s [] [] (sym (append-nil (posts s))) (sym (append-nil (fetches s))),
  )
  calls-Passes (c ∷ cs) s =
      let (r, s1, e, step) = call-Passes c s in
      let (rs, s2, e', rest) = calls-Passes cs s1 in
      (
        r ∷ rs,
        s2,
        rw (e, ◌>>=◌, e'),
        Passes-trans s s1 s2 (sends c r) (sent_by cs rs) (gets r) (got_by rs) step rest,
      )
