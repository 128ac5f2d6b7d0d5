-- ===== src/SysArch/Sync/Shared.antt =====
-- A semaphore that other threads use too: sys_sem_signal and sys_arch_sem_wait of sys_arch.c, in one
-- thread among several.
use picoos_lwip.Prelude.{
  ℕ, suc, ◌+◌, ◌<◌, ◌≤◌, ◌≡◌, ◌≢◌, ◌⊎◌, inl, inr, List, [], ◌∷◌, arith, ◌==◌, ==_iff, if◌then◌else◌,
  All, Bool-cases, true, false, ltb, ltb→lt, ltb→ge,
}
use picoos_lwip.SysArch.Nano.{Nano}
use picoos_lwip.SysArch.Sync.{ticks, sys_sem_signal, sys_arch_sem_wait}
use picoos_lwip.SysArch.Time.{waited, waited_le}

-- What a semaphore of several threads does. `signals` counts the signals of all threads, with the
-- count that the semaphore was made with, and `takes` how often this thread has taken it. Other
-- threads may signal during a wait, and no signal is taken twice. nosSemaWait returns 0 where it
-- has taken the semaphore.
pub record IsSharedSema (k : Nano) (sem : ℕ) : Type 0 where
  pub signals : k.State → ℕ
  pub takes : k.State → ℕ
  pub takes-le : (s : k.State) → takes s ≤ signals s
  pub signal_counted : (s : k.State) → signals s < signals (k.sema_signal sem s)
  pub signal_kept : (s : k.State) → takes (k.sema_signal sem s) ≡ takes s
  pub wait_counted : (limit : ℕ) (s : k.State) → signals s ≤ signals (k.sema_wait sem limit s).1
  pub wait_taken :
      (limit : ℕ) (s : k.State)
      → (k.sema_wait sem limit s).0 ≡ 0
      → takes (k.sema_wait sem limit s).1 ≡ takes s + 1
  pub wait_over :
      (limit : ℕ) (s : k.State)
      → 0 < (k.sema_wait sem limit s).0
      → takes (k.sema_wait sem limit s).1 ≡ takes s

pub data Call : Type 0 where
  signal : Call
  wait_for : ℕ → Call

-- A wait's limit is none, or below the code for its end.
abbrev pub IsBelow : ℕ → Call → Type 0
IsBelow code signal = Unit
IsBelow code (wait_for timeout) = timeout < code

module _ (k : Nano) (sem : ℕ) where
  open k use {State}

  -- The results of the waits, in order.
  unfoldable pub calls : List Call → State → List ℕ × State
  calls [] s = ([], s)
  calls (signal ∷ cs) s = calls cs (sys_sem_signal k sem s)
  calls (wait_for timeout ∷ cs) s =
      let (r, s1) = sys_arch_sem_wait k sem timeout s in let (rs, s2) = calls cs s1 in (r ∷ rs, s2)

abbrev pub signals_of : List Call → ℕ
signals_of [] = 0
signals_of (signal ∷ cs) = suc (signals_of cs)
signals_of (wait_for _ ∷ cs) = signals_of cs

-- The waits that did not end with the code.
abbrev pub taken_of : ℕ → List ℕ → ℕ
taken_of code [] = 0
taken_of code (r ∷ rs) = if r == code then taken_of code rs else suc (taken_of code rs)

==-ne : (m n : ℕ) → m ≢ n → (m == n) ≡ false
==-ne m n h = elim (Bool-cases (m == n)) [
  | inl same ↦ absurd (h ((==_iff m n).0 same))
  | inr other ↦ other
]

module _ (k : Nano) (sem : ℕ) (sema : IsSharedSema k sem) where
  open sema use {signals, takes}

  -- Whether a wait has taken the semaphore, as its result tells.
  wait-cases :
      (timeout : ℕ) (s : k.State)
      → timeout < k.sys_arch_timeout
      → let (r, s') = sys_arch_sem_wait k sem timeout s in
        ((r == k.sys_arch_timeout) ≡ true) × (takes s' ≡ takes s)
        ⊎ ((r == k.sys_arch_timeout) ≡ false) × (takes s' ≡ takes s + 1)
  wait-cases timeout s low =
      let (code, s') = k.sema_wait sem (ticks k timeout) s in
      let r = (sys_arch_sem_wait k sem timeout s).0 in
      elim (Bool-cases (ltb 0 code)) [
        | inl over ↦
            let e : r ≡ k.sys_arch_timeout = unfold sys_arch_sem_wait in rw over in
            let t = sema.wait_over (ticks k timeout) s (ltb→lt 0 code over) in
            inl ((==_iff r k.sys_arch_timeout).1 e, unfold sys_arch_sem_wait in t)
        | inr inside ↦
            let w = waited k.hz k.jif_bits timeout (k.jiffies s) (k.jiffies s') in
            let e : r ≡ w = unfold sys_arch_sem_wait in rw inside in
            let z : code ≡ 0 = omega (arith, ltb→ge 0 code inside) in
            let t = sema.wait_taken (ticks k timeout) s z in
            let le = waited_le k.hz k.jif_bits timeout (k.jiffies s) (k.jiffies s') in
            inr (==-ne r k.sys_arch_timeout (λ same. omega arith), unfold sys_arch_sem_wait in t)
      ]

  -- In a semaphore that other threads use too, a wait's result tells whether it has taken the
  -- semaphore: in a sequence of signals and waits of one thread, the waits with a result other than
  -- SYS_ARCH_TIMEOUT are as many as the times that the thread has taken it meanwhile, and every
  -- signal counts, so that they are not more than all the signals. The limits of the waits are none
  -- or below SYS_ARCH_TIMEOUT.
  pub calls_taken :
      (cs : List Call) (s : k.State)
      → All (IsBelow k.sys_arch_timeout) cs
      → let (rs, s') = calls k sem cs s in
        (takes s' ≡ takes s + taken_of k.sys_arch_timeout rs)
        × (signals s + signals_of cs ≤ signals s')
        × (takes s + taken_of k.sys_arch_timeout rs ≤ signals s')
  unfolding calls sys_sem_signal
  calls_taken [] s h = (omega arith, omega arith, omega (arith, sema.takes-le s))
  calls_taken (signal ∷ cs) s h =
      let (e, counted, enough) = calls_taken cs (k.sema_signal sem s) h.1 in
      let kept = sema.signal_kept s in
      (omega arith, omega (arith, sema.signal_counted s), omega arith)
  calls_taken (wait_for timeout ∷ cs) s h =
      let (e, counted, enough) = calls_taken cs (sys_arch_sem_wait k sem timeout s).1 h.1 in
      let more : signals s ≤ signals (sys_arch_sem_wait k sem timeout s).1 =
        unfold sys_arch_sem_wait in sema.wait_counted (ticks k timeout) s in
      elim (wait-cases timeout s h.0) [
        | inl (same, kept) ↦ rw same (omega arith, omega arith, omega arith)
        | inr (other, one) ↦ rw other (omega arith, omega arith, omega arith)
      ]
