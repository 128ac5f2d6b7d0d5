-- ===== src/Cs8900a/Start/Reset.antt =====
-- When starting of netif/cs8900a_lpc_e2129.c returns, and what it leaves in the chip's registers.
use picoos_lwip.Prelude.{
  ℕ, zero, suc, ◌≤◌, ◌<◌, ◌≡◌, refl, Bool, true, false, none, some, List, [], ◌∷◌, ◌>>=◌, arith,
  Bool-cases, inl, inr,
}
use picoos_lwip.Tap.Init.{
  init_ok, Step, set_state, set_name, set_output, set_linkoutput, set_hwaddr, set_mtu, set_flags,
  task_create,
}
use picoos_lwip.Cs8900a.Board.{Gpio, Chip, IsBoard}
use picoos_lwip.Cs8900a.Regs.{
  pp_self_ctl, pp_self_st, power_on_reset, init_done, add_port, data_port,
}
use picoos_lwip.Cs8900a.Access.{cs8900a_write, cs8900a_read}
use picoos_lwip.Cs8900a.Access.Cycles.{
  write_port, read_port, Rests, cs8900a_write-port, cs8900a_read-port,
}
use picoos_lwip.Cs8900a.Transmit.{has_any}
use picoos_lwip.Cs8900a.Start.{
  init_seq, hwaddr, reset_outputs, wait_for_reset, write_hwaddr, configure, low_level_init,
  cs8900a_if_init,
}
use picoos_lwip.Cs8900a.Start.Registers.{
  write_register, write_registers, settings, IsFloating, reset_outputs-Rests, write_register-Rests,
  write_hwaddr-Rests, configure-Rests, init_seq-fits,
}

module _ (c : Chip) where
  -- The chip when its reset is asked for and the status register is selected.
  abbrev pub resetting : c.State → c.State
  resetting x = write_port c add_port pp_self_st (write_register c pp_self_ctl power_on_reset x)

  -- The chip after `n` reads of its status, and whether read `n` finds the reset done.
  abbrev pub after_reads : ℕ → c.State → c.State
  after_reads zero x = x
  after_reads (suc n) x = after_reads n (read_port c data_port x).1

  abbrev pub done_at : ℕ → c.State → Bool
  done_at n x = has_any (read_port c data_port (after_reads n x)).0 init_done

-- The assignments and calls of a start that succeeds.
abbrev pub started_steps : ℕ → ℕ → List Step
started_steps m flags =
    set_state m
    ∷ set_name (99 ∷ 115 ∷ [])
    ∷ set_output
    ∷ set_linkoutput
    ∷ set_hwaddr (0x0 ∷ 0xbd ∷ 0x3 ∷ 0x4 ∷ 0x5 ∷ 0x7 ∷ [])
    ∷ set_mtu 1500
    ∷ set_flags flags
    ∷ task_create 1 300
    ∷ []

module _ (g : Gpio) (c : Chip) (b : IsBoard g c) where
  resetting-Rests :
      {x : c.State} {s : g.State}
      → IsFloating g c b x s
      → Rests g c b (resetting c x) (
          cs8900a_write g add_port pp_self_st (
            cs8900a_write g data_port power_on_reset
              (cs8900a_write g add_port pp_self_ctl (reset_outputs g s))))
  resetting-Rests f =
      cs8900a_write-port g c b add_port pp_self_st refl (omega arith) (omega arith) (
        write_register-Rests g c b pp_self_ctl power_on_reset (omega arith) (omega arith)
          (reset_outputs-Rests g c b f))

  -- The wait ends with the first read that finds the reset done.
  wait_for_reset-Rests :
      (n fuel : ℕ) {x : c.State} {s : g.State}
      → done_at c n x ≡ true
      → n < fuel
      → Rests g c b x s
      → (m : ℕ) × (s' : g.State) × (m ≤ n)
        × (done_at c m x ≡ true)
        × (wait_for_reset g fuel s ≡ some s')
        × Rests g c b (after_reads c (suc m) x) s'
  unfolding wait_for_reset
  wait_for_reset-Rests n zero done enough r = absurd (omega arith)
  wait_for_reset-Rests zero (suc fuel) {x} {s} done enough r =
      let (word, r1) = cs8900a_read-port g c b data_port refl (omega arith) r in
      (0, (cs8900a_read g data_port s).1, omega arith, done, rw (wait_for_reset, word, done), r1)
  wait_for_reset-Rests (suc n) (suc fuel) {x} {s} done enough r =
      let (word, r1) = cs8900a_read-port g c b data_port refl (omega arith) r in
      let (m, s', small, at, e, r2) = wait_for_reset-Rests n fuel done (omega arith) r1 in
      elim (Bool-cases (done_at c 0 x)) [
        | inl now ↦ (
          0,
          (cs8900a_read g data_port s).1,
          omega arith,
          now,
          rw (wait_for_reset, word, now),
          r1,
        )
        | inr later ↦ (suc m, s', omega arith, at, rw (wait_for_reset, word, later) e, r2)
      ]

  -- If read `n` of the chip's status finds its reset done and memory is there, cs8900aIfInit
  -- returns ERR_OK within `n + 1` reads, having written the settings to the chip, in their order,
  -- behind the first read that finds the reset done. The strobes are inputs before.
  pub cs8900a_if_init_returns :
      (made flags n fuel : ℕ) {x : c.State} {s : g.State}
      → IsFloating g c b x s
      → done_at c n (resetting c x) ≡ true
      → n < fuel
      → (m : ℕ) × (s' : g.State) × (m ≤ n)
        × (done_at c m (resetting c x) ≡ true)
        × (cs8900a_if_init g (some made) flags fuel s
            ≡ some (init_ok, started_steps made flags, s'))
        × Rests g c b (write_registers c settings (after_reads c (suc m) (resetting c x))) s'
  unfolding cs8900a_if_init low_level_init
  cs8900a_if_init_returns made flags n fuel {x} {s} f done enough =
      let (m, s3, small, at, e, r3) = wait_for_reset-Rests n fuel done enough (resetting-Rests f) in
      (
        m,
        configure g init_seq (write_hwaddr g 0 hwaddr s3),
        small,
        at,
        rw (e, ◌>>=◌),
        configure-Rests g c b init_seq init_seq-fits (write_hwaddr-Rests g c b s3 r3),
      )

  wait_for_reset-none :
      (fuel : ℕ) {x : c.State} {s : g.State}
      → ((n : ℕ) → done_at c n x ≡ false)
      → Rests g c b x s
      → wait_for_reset g fuel s ≡ none
  unfolding wait_for_reset
  wait_for_reset-none zero never r = refl
  wait_for_reset-none (suc fuel) {x} {s} never r =
      let (word, r1) = cs8900a_read-port g c b data_port refl (omega arith) r in
      rw (wait_for_reset, word, never 0) (wait_for_reset-none fuel (λ n. never (suc n)) r1)

  -- If no read of the chip's status finds its reset done, cs8900aIfInit with memory returns within
  -- no number of reads. The strobes are inputs before.
  pub cs8900a_if_init_waits :
      (made flags fuel : ℕ) {x : c.State} {s : g.State}
      → IsFloating g c b x s
      → ((n : ℕ) → done_at c n (resetting c x) ≡ false)
      → cs8900a_if_init g (some made) flags fuel s ≡ none
  unfolding cs8900a_if_init low_level_init
  cs8900a_if_init_waits made flags fuel {x} {s} f never =
      rw (wait_for_reset-none fuel never (resetting-Rests f), ◌>>=◌)
