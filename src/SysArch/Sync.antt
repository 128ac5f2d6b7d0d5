-- ===== src/SysArch/Sync.antt =====
-- Mutexes, semaphores, protection, threads and random numbers of sys_arch.c.
pub mod Shared
use picoos_lwip.Prelude.{
  ℕ, ◌%◌, ◌^◌, ◌≤◌, ◌<◌, ◌≡◌, ◌↔◌, Option, arith, ltb, ◌==◌, if◌then◌else◌, ◌⊎◌, inl, inr,
}
use picoos_lwip.SysArch.Nano.{Nano, Err, err_of_handle}
use picoos_lwip.SysArch.Time.{waited, waited_bounds}

module _ (k : Nano) where
  open k use {State}

  -- The new handle, NULL if there is no memory, is stored through the pointer argument.
  pub sys_mutex_new : State → Err × Option ℕ × State
  sys_mutex_new s = let (m, s') = k.mutex_create s in (err_of_handle m, m, s')

  pub sys_mutex_lock : ℕ → State → State
  sys_mutex_lock m s = k.mutex_lock m s

  pub sys_mutex_unlock : ℕ → State → State
  sys_mutex_unlock m s = k.mutex_unlock m s

  pub sys_mutex_free : ℕ → State → State
  sys_mutex_free m s = k.mutex_destroy m s

  pub sys_sem_new : ℕ → State → Err × Option ℕ × State
  sys_sem_new count s = let (m, s') = k.sema_create count s in (err_of_handle m, m, s')

  unfoldable pub sys_sem_signal : ℕ → State → State
  sys_sem_signal sem s = k.sema_signal sem s

  -- The limit 0 stands for no limit.
  abbrev pub ticks : ℕ → ℕ
  ticks timeout = if timeout == 0 then k.infinite else k.ms_ticks timeout

  unfoldable pub sys_arch_sem_wait : ℕ → ℕ → State → ℕ × State
  sys_arch_sem_wait sem timeout s =
      let start = k.jiffies s in
      let (r, s') = k.sema_wait sem (ticks timeout) s in
      (
        if ltb 0 r then k.sys_arch_timeout else waited k.hz k.jif_bits timeout start (k.jiffies s'),
        s',
      )

  pub sys_sem_free : ℕ → State → State
  sys_sem_free sem s = k.sema_destroy sem s

  pub sys_arch_protect : State → ℕ × State
  sys_arch_protect s = k.sched_lock s

  pub sys_arch_unprotect : ℕ → State → State
  sys_arch_unprotect flags s = k.sched_unlock flags s

  pub sys_thread_new : ℕ → ℕ → ℕ → ℕ → State → Option ℕ × State
  sys_thread_new thread arg stacksize prio s = k.task_create thread arg prio stacksize s

  pub sys_init : State → State
  sys_init s = s

  -- `seedValue` is the state; the seed is an unsigned short.
  pub sys_random_init : ℕ → ℕ
  sys_random_init seed = seed % 2 ^ 16

  unfoldable pub sys_random : ℕ → ℕ × ℕ
  sys_random seed = let (r, seed') = k.rand_r seed in (r % 2 ^ 16, seed')

  pub sem_wait-cases :
      (sem timeout : ℕ) (s : State)
      → 0 < k.hz
      → k.hz ≤ 1000
      → 0 < timeout
      → let r = (sys_arch_sem_wait sem timeout s).0 in
        let code = (k.sema_wait sem (ticks timeout) s).0 in
        ((0 < code) × (r ≡ k.sys_arch_timeout)) ⊎ ((code ≡ 0) × (0 < r) × (r ≤ timeout))
  unfolding sys_arch_sem_wait
  sem_wait-cases sem timeout s pos small limit =
      let b =
        waited_bounds k.hz k.jif_bits timeout (k.jiffies s)
          (k.jiffies (k.sema_wait sem (ticks timeout) s).1) pos small limit in
      ground arith

  -- A wait with a limit that is below SYS_ARCH_TIMEOUT returns that code exactly when the kernel's
  -- wait ran out of time, and otherwise a time from 1 to the limit. The tick is at most 1000 Hz.
  sys_arch_sem_wait_lem :
      (sem timeout : ℕ) (s : State)
      → 0 < k.hz
      → k.hz ≤ 1000
      → 0 < timeout
      → timeout < k.sys_arch_timeout
      → let r = (sys_arch_sem_wait sem timeout s).0 in
        let code = (k.sema_wait sem (ticks timeout) s).0 in
        ((r ≡ k.sys_arch_timeout) ↔ (0 < code))
        × (((0 < code) × (r ≡ k.sys_arch_timeout)) ⊎ ((code ≡ 0) × (0 < r) × (r ≤ timeout)))
  sys_arch_sem_wait_lem sem timeout s pos small limit low =
      let c = sem_wait-cases sem timeout s pos small limit in
      (elim c [ inl (p, e) ↦ ((λ x. p), (λ x. e)) | inr (z, p, q) ↦ ground arith ], c)

  -- Every random number is below 65536.
  sys_random-lt : (seed : ℕ) → (sys_random seed).0 < 2 ^ 16
  unfolding sys_random
  sys_random-lt seed = omega arith
