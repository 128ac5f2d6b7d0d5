-- ===== src/SysArch/Tests.antt =====
-- A kernel with one ring of two items and a tick counter, and the theorems on sys_arch.c at it.
use picoos_lwip.Prelude.{◌≤◌, ◌+◌, ◌^◌, ◌≡◌, refl, none, some, List, [], ◌∷◌, arith}
use picoos_lwip.SysArch.Nano.{IsRing, err_ok, err_mem}
use picoos_lwip.SysArch.Time.{waited, never_zero, waited_exact, sys_now, sys_now_period}
use picoos_lwip.SysArch.Mbox.Queue.{
  Op, post, fetch, posted, fetched, mbox_run, mbox_step, queue_run, mbox_run_refines,
}
use picoos_lwip.SysArch.Sync.{sys_sem_signal, sys_arch_sem_wait}
use picoos_lwip.SysArch.Sync.Shared.{IsSharedSema, Call, signal, wait_for, calls, calls_taken}
use picoos_lwip.SysArch.Kernel.{kernel, idle}

kernel-IsRing : IsRing kernel 3
kernel-IsRing = record {
  contents = λ s. s.items;
  room = 2;
  put_room = λ x s h. ground arith;
  put_full = λ x s h. ground arith;
  get_nil = λ s e. ground arith;
  get_cons = λ x xs s e. ground arith;
}

abbrev queue_calls : List Op
queue_calls = post 5 ∷ post 6 ∷ post 7 ∷ fetch ∷ fetch ∷ fetch ∷ []

mbox_run-queue_calls :
    mbox_run kernel (some 3) queue_calls idle
    ≡ some (
        posted err_ok
        ∷ posted err_ok
        ∷ posted err_mem
        ∷ fetched 0 (some 5)
        ∷ fetched 0 (some 6)
        ∷ fetched 4294967295 none
        ∷ [])
unfolding mbox_run mbox_step
mbox_run-queue_calls = refl

mbox_run_refines_example :
    mbox_run kernel (some 3) queue_calls idle ≡ some (queue_run 2 4294967295 queue_calls [])
unfolding kernel-IsRing
mbox_run_refines_example = mbox_run_refines kernel 3 kernel-IsRing queue_calls idle

-- A wait that starts two ticks before the counter wraps, and takes five.
waited_exact_example : waited 100 32 1000 4294967294 3 ≡ 50
waited_exact_example =
    waited_exact 100 32 1000 4294967294 5 (omega arith) (omega arith) (omega arith) (omega arith)
      (omega arith)

sys_now_period_example : sys_now 100 32 (5 + 2 ^ 29) ≡ sys_now 100 32 5
sys_now_period_example = sys_now_period 100 29 5

kernel-IsSharedSema : IsSharedSema kernel 2
kernel-IsSharedSema = record {
  signals = λ s. s.count + s.taken;
  takes = λ s. s.taken;
  takes-le = λ s. omega arith;
  signal_counted = λ s. omega arith;
  signal_kept = λ s. refl;
  wait_counted = λ limit s. ground arith;
  wait_taken = λ limit s e. ground arith;
  wait_over = λ limit s e. ground arith;
}

-- The first wait ends, the second takes the semaphore, and the third waits for another thread.
abbrev sem_calls : List Call
sem_calls = wait_for 50 ∷ signal ∷ wait_for 50 ∷ wait_for 0 ∷ []

sem_calls-results : (calls kernel 2 sem_calls idle).0 ≡ 4294967295 ∷ 30 ∷ 0 ∷ []
unfolding sys_arch_sem_wait calls sys_sem_signal waited never_zero
sem_calls-results = refl

calls_taken_example : (2 ≡ 0 + 2) × (0 + 1 ≤ 2) × (0 + 2 ≤ 2)
unfolding sys_arch_sem_wait calls sys_sem_signal waited never_zero kernel-IsSharedSema
calls_taken_example =
    calls_taken kernel 2 kernel-IsSharedSema sem_calls idle
      (omega arith, (tt, (omega arith, (omega arith, tt))))

-- At 1000 Hz a wait of 4294968 milliseconds is reported as one: 1000 times the ticks wraps.
waited_wraps : waited 1000 32 5000000 0 4294968 ≡ 1
unfolding waited never_zero
waited_wraps = refl
