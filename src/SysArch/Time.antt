-- ===== src/SysArch/Time.antt =====
-- Times of sys_arch.c: the waited time of sys_arch_sem_wait and sys_arch_mbox_fetch, and sys_now. A
-- JIF_t is unsigned and at least as wide as an int.
use native.Mathlib.Nat.{pow-suc, add-mul-mod_self_left}
use picoos_lwip.Prelude.{
  ge→ltb, lt→ltb, ℕ, suc, ◌+◌, ◌-◌, ◌*◌, ◌/◌, ◌%◌, ◌^◌, ◌≤◌, ◌<◌, ◌≡◌, ap, arith, ltb,
  if◌then◌else◌,
}

abbrev pub u32_mod : ℕ
u32_mod = 2 ^ 32

one-le-div : (n d : ℕ) → 0 < d → d ≤ n → 1 ≤ n / d
one-le-div n d pos h = grind arith

elapsed_wraps : (m start d : ℕ) → start < m → d < m → ((start + d) % m + m - start) % m ≡ d
elapsed_wraps m start d hs hd = grind arith

module _ (hz jif_bits : ℕ) where
  -- `(u32_t) (jiffies - start)`, for a JIF_t of `jif_bits` bits
  abbrev pub elapsed : ℕ → ℕ → ℕ
  elapsed start now = (now + 2 ^ jif_bits - start) % 2 ^ jif_bits % u32_mod

  -- `w = (u32_t) (jiffies - start) * 1000; w = w / HZ`
  abbrev pub elapsed_ms : ℕ → ℕ → ℕ
  elapsed_ms start now = elapsed start now * 1000 % u32_mod / hz

  -- `if (w < (1000 / HZ)) w = (HZ < 500) ? (500 / HZ) : 1`
  unfoldable pub never_zero : ℕ → ℕ
  never_zero w = if ltb w (1000 / hz) then (if ltb hz 500 then 500 / hz else 1) else w

  -- The time that a wait reports which began at the tick `start` and ended at `now`.
  unfoldable pub waited : ℕ → ℕ → ℕ → ℕ
  waited timeout start now =
      let w = never_zero (elapsed_ms start now) in if ltb w timeout then w else timeout

  -- `jiffies * 1000 / HZ`
  unfoldable pub sys_now : ℕ → ℕ
  sys_now jiffies = jiffies * 1000 % 2 ^ jif_bits / hz % u32_mod

  -- `jiffies`
  pub sys_jiffies : ℕ → ℕ
  sys_jiffies jiffies = jiffies % u32_mod

  never_zero_pos : (w : ℕ) → 0 < hz → hz ≤ 1000 → 0 < never_zero w
  unfolding never_zero
  never_zero_pos w pos small = ground (arith, one-le-div 500 hz, one-le-div 1000 hz)

  -- A wait with a time limit never reports more than the limit, and never zero, as long as the tick
  -- is at most 1000 Hz.
  pub waited_bounds :
      (timeout start now : ℕ)
      → 0 < hz
      → hz ≤ 1000
      → 0 < timeout
      → (0 < waited timeout start now) × (waited timeout start now ≤ timeout)
  waited_bounds timeout start now pos small limit =
      let p = never_zero_pos (elapsed_ms start now) pos small in unfold waited in ground arith

  pub waited_le : (timeout start now : ℕ) → waited timeout start now ≤ timeout
  unfolding waited
  waited_le timeout start now = ground arith

  -- A wait without a limit, which is the limit 0, always reports zero.
  pub waited-zero : (start now : ℕ) → waited 0 start now ≡ 0
  unfolding waited
  waited-zero start now = ground arith

  -- Also across a wrap of the tick counter a wait reports the milliseconds that went by, when they
  -- are fewer than the limit, at least one tick, and 1000 times the ticks is below 2 ^ 32.
  pub waited_exact :
      (timeout start d : ℕ)
      → start < 2 ^ jif_bits
      → d < 2 ^ jif_bits
      → d * 1000 < u32_mod
      → 1000 / hz ≤ d * 1000 / hz
      → d * 1000 / hz < timeout
      → waited timeout start ((start + d) % 2 ^ jif_bits) ≡ d * 1000 / hz
  unfolding waited never_zero
  waited_exact timeout start d hs hd small tick limit =
      let e : elapsed start ((start + d) % 2 ^ jif_bits) ≡ d =
        rw (elapsed_wraps (2 ^ jif_bits) start d hs hd) (omega arith) in
      let f : elapsed_ms start ((start + d) % 2 ^ jif_bits) ≡ d * 1000 / hz =
        rw e (ap (λ (t : ℕ). t / hz) (omega arith)) in
      rw (f, ge→ltb _ _ tick, lt→ltb _ _ limit)

-- `sys_now` starts again from zero after an eighth of the tick counter's range: the product
-- `jiffies * 1000` wraps first, and 1000 is 8 times 125.
pub sys_now_period :
    (hz b jiffies : ℕ)
    → sys_now hz (suc (suc (suc b))) (jiffies + 2 ^ b) ≡ sys_now hz (suc (suc (suc b))) jiffies
unfolding sys_now
sys_now_period hz b jiffies =
    ap (λ (t : ℕ). t / hz % u32_mod)
      (let e : (jiffies + 2 ^ b) * 1000 ≡ jiffies * 1000 + 2 ^ suc (suc (suc b)) * 125 =
          omega (arith, pow-suc 2 (suc (suc b)), pow-suc 2 (suc b), pow-suc 2 b) in
        rw e (add-mul-mod_self_left (jiffies * 1000) (2 ^ suc (suc (suc b))) 125))
