-- ===== src/SysArch/Mbox/Life.antt =====
-- Mailbox variables as lwIP uses them: sys_mbox_new for a variable without a mailbox, and
-- sys_mbox_free with sys_mbox_set_invalid behind it (sys_arch.c and include/arch/sys_arch.h).
use picoos_lwip.Prelude.{
  ℕ, zero, suc, ◌+◌, ◌<◌, ◌≡◌, Option, none, some, List, [], ◌∷◌, arith, if◌then◌else◌, ◌==◌,
  Option-cases, inl, inr,
}
use picoos_lwip.SysArch.Nano.{Nano}
use picoos_lwip.SysArch.Handles.{sys_mbox_valid, sys_mbox_set_invalid}
use picoos_lwip.SysArch.Mbox.{default_mbox_size, sys_mbox_new, sys_mbox_free}

-- The counter `mbox.used` of lwIP's statistics: the calls of the ring leave it.
pub record IsCounted (k : Nano) : Type 0 where
  pub used : k.State → ℕ
  pub used-inc : (s : k.State) → used (k.stats_inc_used s) ≡ used s + 1
  pub used-dec : (s : k.State) → 0 < used s → used (k.stats_dec s) + 1 ≡ used s
  pub used-create : (size : ℕ) (s : k.State) → used (k.ring_create size s).1 ≡ used s
  pub used-destroy : (b : ℕ) (s : k.State) → used (k.ring_destroy b s) ≡ used s

pub data Use : Type 0 where
  create : ℕ → Use
  free : Use

-- The variables with a mailbox.
abbrev pub in_use : List (Option ℕ) → ℕ
in_use [] = 0
in_use (v ∷ vs) = if sys_mbox_valid (some v) then suc (in_use vs) else in_use vs

module _ (k : Nano) where
  open k use {State}

  unfoldable pub use_one : Use → Option ℕ → State → Option ℕ × State
  unfolding sys_mbox_valid sys_mbox_set_invalid sys_mbox_new sys_mbox_free
  use_one (create size) v s =
      if sys_mbox_valid (some v)
      then (v, s)
      else (let (e, mb, s') = sys_mbox_new k size s in (mb, s'))
  use_one free v s = elim (sys_mbox_set_invalid (some v)) [
    | none ↦ (v, sys_mbox_free k v s)
    | some v' ↦ (v', sys_mbox_free k v s)
  ]

  -- One of the variables, if it is there.
  unfoldable pub use_at : Use → ℕ → List (Option ℕ) → State → List (Option ℕ) × State
  use_at u i [] s = ([], s)
  use_at u zero (v ∷ vs) s = let (v', s') = use_one u v s in (v' ∷ vs, s')
  use_at u (suc i) (v ∷ vs) s = let (vs', s') = use_at u i vs s in (v ∷ vs', s')

  unfoldable pub use_all : List (Use × ℕ) → List (Option ℕ) → State → List (Option ℕ) × State
  use_all [] vs s = (vs, s)
  use_all ((u, i) ∷ us) vs s = let (vs', s') = use_at u i vs s in use_all us vs' s'

  module _ (counted : IsCounted k) where
    open counted use {used}

    sys_mbox_new-counted :
        (size : ℕ) (s : State)
        → let (e, mb, s') = sys_mbox_new k size s in used s' ≡ in_use (mb ∷ []) + used s
    unfolding sys_mbox_new sys_mbox_valid
    sys_mbox_new-counted size s =
        let asked = if size == 0 then default_mbox_size else size in
        let kept = counted.used-create asked s in
        elim (Option-cases (k.ring_create asked s).0) [
          | inl failed ↦ rw (sys_mbox_new, failed) (omega (arith, kept))
          | inr (b, made) ↦
              rw (sys_mbox_new, made)
                (omega (arith, kept, counted.used-inc (k.ring_create asked s).1))
        ]

    -- The variable's share of the counter.
    use_one-counted :
        (u : Use) (v : Option ℕ) (s : State) (n : ℕ)
        → used s ≡ in_use (v ∷ []) + n
        → let (v', s') = use_one u v s in used s' ≡ in_use (v' ∷ []) + n
    unfolding use_one sys_mbox_valid sys_mbox_new sys_mbox_free
    use_one-counted (create size) (some b) s n e = e
    use_one-counted (create size) none s n e = omega (arith, sys_mbox_new-counted size s)
    use_one-counted free none s n e = e
    use_one-counted free (some b) s n e =
        let kept = counted.used-destroy b s in
        let less = counted.used-dec (k.ring_destroy b s) (omega (arith, kept)) in
        omega (arith, kept, less)

    in_use-cons :
        (v : Option ℕ) (vs : List (Option ℕ)) → in_use (v ∷ vs) ≡ in_use (v ∷ []) + in_use vs
    in_use-cons v vs = ground arith

    use_at-counted :
        (u : Use) (i : ℕ) (vs : List (Option ℕ)) (s : State) (n : ℕ)
        → used s ≡ in_use vs + n
        → let (vs', s') = use_at u i vs s in used s' ≡ in_use vs' + n
    unfolding use_at
    use_at-counted u i [] s n e = e
    use_at-counted u zero (v ∷ vs) s n e =
        let (v', s') = use_one u v s in
        let step = use_one-counted u v s (in_use vs + n) (omega (arith, in_use-cons v vs)) in
        omega (arith, step, in_use-cons v' vs)
    use_at-counted u (suc i) (v ∷ vs) s n e =
        let (vs', s') = use_at u i vs s in
        let step =
          use_at-counted u i vs s (in_use (v ∷ []) + n) (omega (arith, in_use-cons v vs)) in
        omega (arith, step, in_use-cons v vs')

    -- Through any sequence of creating and freeing mailboxes, the counter of used mailboxes is the
    -- number of variables with a mailbox, if it is at the start: sys_mbox_new counts only what it
    -- makes, and sys_mbox_free only what there is.
    pub use_all-counted :
        (us : List (Use × ℕ)) (vs : List (Option ℕ)) (s : State)
        → used s ≡ in_use vs
        → let (vs', s') = use_all us vs s in used s' ≡ in_use vs'
    unfolding use_all
    use_all-counted [] vs s e = e
    use_all-counted ((u, i) ∷ us) vs s e =
        let (vs', s') = use_at u i vs s in
        use_all-counted us vs' s' (omega (arith, use_at-counted u i vs s 0 (omega arith)))
