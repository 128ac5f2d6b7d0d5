-- ===== src/Cs8900a/Access/Pulses.antt =====
-- The strobes of netif/cs8900a_lpc_e2129.c: what a pulse on IOW or IOR does.
use picoos_lwip.Prelude.{
  Bool-cases, inl, inr, ℕ, ◌+◌, ◌*◌, ◌/◌, ◌%◌, ◌^◌, ◌≡◌, ◌∙◌, true, false, if◌then◌else◌,
}
use picoos_lwip.Cs8900a.Board.{Gpio, Chip, IsBoard, bit, nibble}
use picoos_lwip.Cs8900a.Access.{ior, iow, toggle_iow, toggle_ior}
use picoos_lwip.Cs8900a.Access.Lines.{View}

module _ (g : Gpio) (c : Chip) (b : IsBoard g c) where
  level_low :
      (m i : ℕ) (s : g.State)
      → b.level (g.io_delay (g.io_clr m s)) i ≡ (if bit m i then false else b.level s i)
  level_low m i s = b.level-delay i (g.io_clr m s) ∙ b.level-clr m i s

  output_low : (m i : ℕ) (s : g.State) → b.output (g.io_delay (g.io_clr m s)) i ≡ b.output s i
  output_low m i s = b.output-delay i (g.io_clr m s) ∙ b.output-clr m i s

  chip_low : (m : ℕ) (s : g.State) → b.chip (g.io_delay (g.io_clr m s)) ≡ b.chip s
  chip_low m s = b.chip-delay (g.io_clr m s) ∙ b.chip-clr m s

  -- A pulse on IOR or IOW gives back every level, both strobes being high.
  level_pulse :
      (m i : ℕ) (s : g.State)
      → b.level (g.io_set m (g.io_delay (g.io_clr m s))) i ≡ (if bit m i then true else b.level s i)
  level_pulse m i s = elim (Bool-cases (bit m i)) [
    | inl e ↦ rw (b.level-set m i (g.io_delay (g.io_clr m s)), e)
    | inr e ↦ rw (b.level-set m i (g.io_delay (g.io_clr m s)), level_low m i s, e)
  ]

  output_pulse :
      (m i : ℕ) (s : g.State) → b.output (g.io_set m (g.io_delay (g.io_clr m s))) i ≡ b.output s i
  output_pulse m i s = b.output-set m i (g.io_delay (g.io_clr m s)) ∙ output_low m i s

  -- A pulse on IOW writes the byte to the address.
  pub toggle_iow-View :
      {a byte : ℕ} {x : c.State} {s : g.State}
      → View g c b a true byte x s
      → View g c b a true byte (c.write_byte a byte x) (toggle_iow g s)
  unfolding toggle_iow
  toggle_iow-View {a} {byte} {x} {s} v =
      let low = g.io_delay (g.io_clr iow s) in
      let at_addr : nibble (b.level low) 4 ≡ a = simp level_low v.on_addr in
      let at_data : nibble (b.level low) 16 + 16 * nibble (b.level low) 20 ≡ byte =
        simp level_low v.on_data in
      let written : b.chip (g.io_set iow low) ≡ c.write_byte a byte x =
        b.chip-set_iow low (level_low iow 13 s) (output_low iow 13 s ∙ v.iow_out)
          (simp output_low v.addr_out) (simp output_low v.data_low) (simp output_low v.data_high)
        ∙ rw (at_addr, at_data, chip_low iow s, v.chip_is) in
      record {
        ior_high = level_pulse iow 12 s ∙ v.ior_high;
        iow_high = level_pulse iow 13 s;
        ior_out = output_pulse iow 12 s ∙ v.ior_out;
        iow_out = output_pulse iow 13 s ∙ v.iow_out;
        addr_out = simp output_pulse v.addr_out;
        data_low = simp output_pulse v.data_low;
        data_high = simp output_pulse v.data_high;
        on_addr = simp level_pulse v.on_addr;
        on_data = simp level_pulse v.on_data;
        chip_is = written;
      }

  -- A pulse on IOR brings the byte that the chip drives at the address, and ends the read.
  pub toggle_ior-View :
      {a byte : ℕ} {x : c.State} {s : g.State}
      → View g c b a false byte x s
      → ((toggle_ior g s).0 / 2 ^ 16 % 256 ≡ c.read_byte a x)
        × View g c b a false byte (c.end_read a x) (toggle_ior g s).1
  unfolding toggle_ior
  toggle_ior-View {a} {byte} {x} {s} v =
      let low = g.io_delay (g.io_clr ior s) in
      let at_addr : nibble (b.level low) 4 ≡ a = simp level_low v.on_addr in
      let ended : b.chip (g.io_set ior low) ≡ c.end_read a x =
        b.chip-set_ior low (level_low ior 12 s) (output_low ior 12 s ∙ v.ior_out)
          (simp output_low v.addr_out)
        ∙ rw (at_addr, chip_low ior s, v.chip_is) in
      (
        b.io_pin_driven low (level_low ior 12 s) (output_low ior 12 s ∙ v.ior_out)
              (simp output_low v.addr_out) (simp output_low v.data_low)
              (simp output_low v.data_high)
            ∙ rw (at_addr, chip_low ior s, v.chip_is),
        record {
          ior_high = level_pulse ior 12 s;
          iow_high = level_pulse ior 13 s ∙ v.iow_high;
          ior_out = output_pulse ior 12 s ∙ v.ior_out;
          iow_out = output_pulse ior 13 s ∙ v.iow_out;
          addr_out = simp output_pulse v.addr_out;
          data_low = simp output_pulse v.data_low;
          data_high = simp output_pulse v.data_high;
          on_addr = simp level_pulse v.on_addr;
          on_data = simp level_pulse v.on_data;
          chip_is = ended;
        },
      )
