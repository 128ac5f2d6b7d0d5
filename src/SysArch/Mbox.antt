-- ===== src/SysArch/Mbox.antt =====
-- Mailboxes of sys_arch.c, over rings of Pico]OS.
pub mod Life
pub mod Queue
pub mod Shared
use picoos_lwip.Prelude.{
  ◌≡◌, ◌<◌, ◌≤◌, ◌⊎◌, inl, inr, Option-cases, ℕ, Bool, true, false, Option, none, some, ◌==◌,
  if◌then◌else◌, ◌>>=◌,
}
use picoos_lwip.SysArch.Nano.{Nano, Err, err_ok, err_mem}
use picoos_lwip.SysArch.Time.{waited, waited_bounds}
use picoos_lwip.SysArch.Sync.{ticks}

abbrev pub default_mbox_size : ℕ
default_mbox_size = 10

module _ (k : Nano) where
  open k use {State}

  -- A mailbox is a ring, or NULL.
  unfoldable pub sys_mbox_new : ℕ → State → Err × Option ℕ × State
  sys_mbox_new size s =
      let (mb, s') = k.ring_create (if size == 0 then default_mbox_size else size) s in
      elim mb [ none ↦ (err_mem, none, s') | some b ↦ (err_ok, some b, k.stats_inc_used s') ]

  -- The assertion stops the program: `none`. So it does in the functions below.
  unfoldable pub sys_mbox_post : Option ℕ → ℕ → State → Option State
  sys_mbox_post mb msg s = do b ← mb; some (k.ring_put b msg k.infinite s).1

  unfoldable pub sys_mbox_trypost : Option ℕ → ℕ → State → Option (Err × State)
  sys_mbox_trypost mb msg s = do
    b ← mb
    (let (stored, s') = k.ring_put b msg 0 s in some (if stored then err_ok else err_mem, s'))

  -- The message that is stored through `msg`, and the result.
  unfoldable pub sys_arch_mbox_fetch : Option ℕ → ℕ → State → Option (ℕ × Option ℕ × State)
  sys_arch_mbox_fetch mb timeout s = do
    b ← mb
    (let start = k.jiffies s in
        let (msg, s') = k.ring_get b (ticks k timeout) s in
        elim msg [
          | none ↦ some (k.sys_arch_timeout, none, s')
          | some x ↦ some (waited k.hz k.jif_bits timeout start (k.jiffies s'), some x, s')
        ])

  unfoldable pub sys_arch_mbox_tryfetch : Option ℕ → State → Option (ℕ × Option ℕ × State)
  sys_arch_mbox_tryfetch mb s = do
    b ← mb
    (let (msg, s') = k.ring_get b 0 s in
        elim msg [ none ↦ some (k.sys_mbox_empty, none, s') | some x ↦ some (0, some x, s') ])

  unfoldable pub sys_mbox_free : Option ℕ → State → State
  sys_mbox_free none s = s
  sys_mbox_free (some b) s = k.stats_dec (k.ring_destroy b s)

  -- A fetch with a limit from a mailbox, at a tick of at most 1000 Hz: without a message in time
  -- the result is SYS_ARCH_TIMEOUT, and with one it is a time from 1 to the limit.
  sys_arch_mbox_fetch_lem :
      (b timeout : ℕ) (s : State)
      → 0 < k.hz
      → k.hz ≤ 1000
      → 0 < timeout
      → let (msg, s') = k.ring_get b (ticks k timeout) s in
        ((msg ≡ none)
          × (sys_arch_mbox_fetch (some b) timeout s ≡ some (k.sys_arch_timeout, none, s')))
        ⊎ ((x : ℕ) × (r : ℕ) × (msg ≡ some x)
            × (sys_arch_mbox_fetch (some b) timeout s ≡ some (r, some x, s'))
            × (0 < r)
            × (r ≤ timeout))
  unfolding sys_arch_mbox_fetch
  sys_arch_mbox_fetch_lem b timeout s pos small limit =
      let s' = (k.ring_get b (ticks k timeout) s).1 in
      let (lo, hi) =
        waited_bounds k.hz k.jif_bits timeout (k.jiffies s) (k.jiffies s') pos small limit in
      elim (Option-cases (k.ring_get b (ticks k timeout) s).0) [
        | inl e ↦ inl (e, rw e)
        | inr (x, e) ↦
            inr (x, waited k.hz k.jif_bits timeout (k.jiffies s) (k.jiffies s'), e, rw e, lo, hi)
      ]
