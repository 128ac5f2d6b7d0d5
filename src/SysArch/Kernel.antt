-- ===== src/SysArch/Kernel.antt =====
-- A small kernel, with one ring of two items, one semaphore and a tick counter, at which the theorems on sys_arch.c
-- are tried.
use picoos_lwip.Prelude.{
  ℕ, ◌+◌, ◌-◌, ◌*◌, ◌==◌, ◌/◌, Bool, true, false, Option, none, some, List, [], ◌∷◌, ◌++◌, length,
  ltb, if◌then◌else◌,
}
use picoos_lwip.SysArch.Nano.{Nano}

pub record World : Type 0 where
  pub time : ℕ
  pub items : List ℕ
  pub count : ℕ
  pub taken : ℕ
  pub fetched : List ℕ

abbrev pub put : ℕ → ℕ → ℕ → World → Bool × World
put box x limit s =
    if ltb (length s.items) 2 then (true, record s { items = s.items ++ (x ∷ []) }) else (false, s)

abbrev pub take_first : List ℕ → Option ℕ × List ℕ
take_first [] = (none, [])
take_first (x ∷ xs) = (some x, xs)

abbrev pub get : ℕ → ℕ → World → Option ℕ × World
get box limit s = ((take_first s.items).0, record s { items = (take_first s.items).1 })

-- A wait without a limit that finds no signal gets one from another thread, and one with a limit
-- ends.
abbrev pub wait : ℕ → ℕ → ℕ → World → ℕ × World
wait unlimited sem limit s =
    if ltb 0 s.count
    then (0, record s { time = s.time + 3; count = s.count - 1; taken = s.taken + 1 })
    else if limit == unlimited
    then (0, record s { taken = s.taken + 1 })
    else (1, record s { time = s.time + limit })

abbrev pub kernel : Nano
kernel = record {
  State = World;
  hz = 100;
  jif_bits = 32;
  infinite = 4294967295;
  ms_ticks = λ x. x / 10;
  sys_arch_timeout = 4294967295;
  sys_mbox_empty = 4294967295;
  jiffies = λ s. s.time;
  mutex_create = λ s. (some 1, s);
  mutex_lock = λ m s. s;
  mutex_unlock = λ m s. s;
  mutex_destroy = λ m s. s;
  sema_create = λ n s. (some 2, s);
  sema_signal = λ m s. record s { count = s.count + 1 };
  sema_wait = wait 4294967295;
  sema_destroy = λ m s. s;
  ring_create = λ n s. (some 3, s);
  ring_put = put;
  ring_get = get;
  ring_destroy = λ m s. s;
  stats_inc_used = λ s. s;
  stats_dec = λ s. s;
  sched_lock = λ s. (0, s);
  sched_unlock = λ f s. s;
  task_create = λ f a p n s. (some 4, s);
  rand_r = λ seed. (seed * 1103515245 + 12345, seed + 1);
}

abbrev pub idle : World
idle = record { time = 7; items = []; count = 0; taken = 0; fetched = [] }
