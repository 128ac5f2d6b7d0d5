-- ===== src/SysArch/Nano.antt =====
-- The calls of Pico]OS and the constants of lwIP that sys_arch.c uses: an interface with an
-- abstract kernel state. A handle that is NULL is `none`; a number of ticks 0 means to try once.
use picoos_lwip.Prelude.{
  ℕ, ◌<◌, ◌≤◌, ◌≡◌, Bool, true, false, Option, none, some, List, [], ◌∷◌, ◌++◌, length,
}

pub record Nano : Type 1 where
  pub State : Type 0
  -- HZ, the width of JIF_t, the constant INFINITE, and (UINT_t) MS(x)
  pub hz : ℕ
  pub jif_bits : ℕ
  pub infinite : ℕ
  pub ms_ticks : ℕ → ℕ
  -- SYS_ARCH_TIMEOUT and SYS_MBOX_EMPTY of lwIP
  pub sys_arch_timeout : ℕ
  pub sys_mbox_empty : ℕ
  pub jiffies : State → ℕ
  pub mutex_create : State → Option ℕ × State
  pub mutex_lock : ℕ → State → State
  pub mutex_unlock : ℕ → State → State
  pub mutex_destroy : ℕ → State → State
  -- nosSemaWait returns 0 unless its time is over
  pub sema_create : ℕ → State → Option ℕ × State
  pub sema_signal : ℕ → State → State
  pub sema_wait : ℕ → ℕ → State → ℕ × State
  pub sema_destroy : ℕ → State → State
  -- uosRingPut says whether the item was stored; uosRingGet also gives the item
  pub ring_create : ℕ → State → Option ℕ × State
  pub ring_put : ℕ → ℕ → ℕ → State → Bool × State
  pub ring_get : ℕ → ℕ → State → Option ℕ × State
  pub ring_destroy : ℕ → State → State
  -- the counter of used mailboxes in lwIP's statistics
  pub stats_inc_used : State → State
  pub stats_dec : State → State
  pub sched_lock : State → ℕ × State
  pub sched_unlock : ℕ → State → State
  -- nosTaskCreate: the function, its argument, priority and stack size
  pub task_create : ℕ → ℕ → ℕ → ℕ → State → Option ℕ × State
  -- rand_r: the result and the new seed
  pub rand_r : ℕ → ℕ × ℕ

-- What the mailboxes rely on: a ring is a queue with room for a number of items, and a call that
-- does not wait stores behind the last item, or takes the first.
pub record IsRing (k : Nano) (box : ℕ) : Type 0 where
  pub contents : k.State → List ℕ
  pub room : ℕ
  pub put_room :
      (x : ℕ) (s : k.State)
      → length (contents s) < room
      → ((k.ring_put box x 0 s).0 ≡ true)
        × (contents (k.ring_put box x 0 s).1 ≡ contents s ++ (x ∷ []))
  pub put_full :
      (x : ℕ) (s : k.State)
      → room ≤ length (contents s)
      → ((k.ring_put box x 0 s).0 ≡ false) × (contents (k.ring_put box x 0 s).1 ≡ contents s)
  pub get_nil :
      (s : k.State)
      → contents s ≡ []
      → ((k.ring_get box 0 s).0 ≡ none) × (contents (k.ring_get box 0 s).1 ≡ [])
  pub get_cons :
      (x : ℕ) (xs : List ℕ) (s : k.State)
      → contents s ≡ x ∷ xs
      → ((k.ring_get box 0 s).0 ≡ some x) × (contents (k.ring_get box 0 s).1 ≡ xs)

-- `err_t`, as far as the port returns it.
pub data Err : Type 0 where
  err_ok err_mem err_if : Err

-- ERR_MEM for a handle that is NULL.
abbrev pub err_of_handle : Option ℕ → Err
err_of_handle none = err_mem
err_of_handle (some h) = err_ok
