-- ===== src/Cs8900a/Access/Lines.antt =====
-- What the phases of a bus cycle do to the lines, as rules between views of the board
-- (netif/cs8900a_lpc_e2129.c).
use picoos_lwip.Prelude.{
  ◌-◌, ℕ, ◌+◌, ◌*◌, ◌/◌, ◌%◌, ◌^◌, ◌<◌, ◌≡◌, refl, ◌∙◌, Bool, true, false, if◌then◌else◌, arith,
}
use picoos_lwip.Cs8900a.Board.{Gpio, Chip, IsBoard, bit, bit_val, nibble}
use picoos_lwip.Cs8900a.Access.{data_pins, addr_pins, put_addr, put_data}

bit_val-bit : (m i : ℕ) → bit_val (bit m i) ≡ m / 2 ^ i % 2
bit_val-bit m i = ground arith

module _ (g : Gpio) (c : Chip) (b : IsBoard g c) where
  -- Both strobes are high and, with the address lines, outputs; the address is `addr`; the data
  -- lines are outputs with `byte` on them, or inputs; the chip is `x`.
  pub record View (addr : ℕ) (out : Bool) (byte : ℕ) (x : c.State) (s : g.State) : Type 0 where
    pub ior_high : b.level s 12 ≡ true
    pub iow_high : b.level s 13 ≡ true
    pub ior_out : b.output s 12 ≡ true
    pub iow_out : b.output s 13 ≡ true
    pub addr_out : nibble (b.output s) 4 ≡ 15
    pub data_low : nibble (b.output s) 16 ≡ (if out then 15 else 0)
    pub data_high : nibble (b.output s) 20 ≡ (if out then 15 else 0)
    pub on_addr : nibble (b.level s) 4 ≡ addr
    pub on_data : nibble (b.level s) 16 + 16 * nibble (b.level s) 20 ≡ byte
    pub chip_is : b.chip s ≡ x

  level_put :
      (m k i : ℕ) (s : g.State)
      → b.level (g.io_set m (g.io_clr k s)) i
        ≡ (if bit m i then true else if bit k i then false else b.level s i)
  level_put m k i s = rw (b.level-set m i (g.io_clr k s), b.level-clr k i s)

  output_put : (m k i : ℕ) (s : g.State) → b.output (g.io_set m (g.io_clr k s)) i ≡ b.output s i
  output_put m k i s = b.output-set m i (g.io_clr k s) ∙ b.output-clr k i s

  level_kept :
      (m k i : ℕ) (s : g.State)
      → bit m i ≡ false
      → bit k i ≡ false
      → b.level (g.io_set m (g.io_clr k s)) i ≡ b.level s i
  level_kept m k i s h h' = rw (level_put m k i s, h, h')

  nibble_kept :
      (m k i : ℕ) (s : g.State)
      → (bit m i ≡ false) × (bit k i ≡ false)
      → (bit m (i + 1) ≡ false) × (bit k (i + 1) ≡ false)
      → (bit m (i + 2) ≡ false) × (bit k (i + 2) ≡ false)
      → (bit m (i + 3) ≡ false) × (bit k (i + 3) ≡ false)
      → nibble (b.level (g.io_set m (g.io_clr k s))) i ≡ nibble (b.level s) i
  nibble_kept m k i s h0 h1 h2 h3 = rw (
    level_kept m k i s h0.0 h0.1,
    level_kept m k (i + 1) s h1.0 h1.1,
    level_kept m k (i + 2) s h2.0 h2.1,
    level_kept m k (i + 3) s h3.0 h3.1,
  )

  addr_put : (addr : ℕ) (s : g.State) → addr < 16 → nibble (b.level (put_addr g addr s)) 4 ≡ addr
  unfolding put_addr
  addr_put addr s small = simp level_put (ground arith)

  data_kept :
      (m k : ℕ) (s : g.State)
      → m < 2 ^ 16
      → k < 2 ^ 16
      → nibble (b.level (g.io_set m (g.io_clr k s))) 16
          + 16 * nibble (b.level (g.io_set m (g.io_clr k s))) 20
        ≡ nibble (b.level s) 16 + 16 * nibble (b.level s) 20
  data_kept m k s hm hk = rw (
    nibble_kept m k 16 s (ground arith) (ground arith) (ground arith) (ground arith),
    nibble_kept m k 20 s (ground arith) (ground arith) (ground arith) (ground arith),
  )

  byte_low : (byte : ℕ) (s : g.State) → nibble (b.level (put_data g byte s)) 16 ≡ byte % 16
  unfolding put_data
  byte_low byte s = simp level_put (ground arith)

  byte_high : (byte : ℕ) (s : g.State) → nibble (b.level (put_data g byte s)) 20 ≡ byte / 16 % 16
  unfolding put_data
  byte_high byte s = simp level_put (ground arith)

  pub put_addr-View :
      (addr : ℕ) {a byte : ℕ} {out : Bool} {x : c.State} {s : g.State}
      → addr < 16
      → View a out byte x s
      → View addr out byte x (put_addr g addr s)
  unfolding put_addr
  put_addr-View addr {s} small v = record {
    ior_high = rw (level_put (addr * 2 ^ 4) addr_pins 12 s) (ground arith);
    iow_high = rw (level_put (addr * 2 ^ 4) addr_pins 13 s) (ground arith);
    ior_out = output_put (addr * 2 ^ 4) addr_pins 12 s ∙ v.ior_out;
    iow_out = output_put (addr * 2 ^ 4) addr_pins 13 s ∙ v.iow_out;
    addr_out = simp output_put v.addr_out;
    data_low = simp output_put v.data_low;
    data_high = simp output_put v.data_high;
    on_addr = addr_put addr s small;
    on_data = data_kept (addr * 2 ^ 4) addr_pins s (omega arith) (omega arith) ∙ v.on_data;
    chip_is =
        b.chip-set (addr * 2 ^ 4) (g.io_clr addr_pins s) (b.level-clr addr_pins 12 s ∙ v.ior_high)
          (b.level-clr addr_pins 13 s ∙ v.iow_high)
        ∙ b.chip-clr addr_pins s
        ∙ v.chip_is;
  }

  pub put_data-View :
      (byte : ℕ) {a byte' : ℕ} {x : c.State} {s : g.State}
      → byte < 256
      → View a true byte' x s
      → View a true byte x (put_data g byte s)
  unfolding put_data
  put_data-View byte {s} small v = record {
    ior_high = level_kept (byte * 2 ^ 16) data_pins 12 s (ground arith) refl ∙ v.ior_high;
    iow_high = level_kept (byte * 2 ^ 16) data_pins 13 s (ground arith) refl ∙ v.iow_high;
    ior_out = output_put (byte * 2 ^ 16) data_pins 12 s ∙ v.ior_out;
    iow_out = output_put (byte * 2 ^ 16) data_pins 13 s ∙ v.iow_out;
    addr_out = simp output_put v.addr_out;
    data_low = simp output_put v.data_low;
    data_high = simp output_put v.data_high;
    on_addr =
        nibble_kept (byte * 2 ^ 16) data_pins 4 s (ground arith) (ground arith) (ground arith)
          (ground arith)
        ∙ v.on_addr;
    on_data = omega (arith, byte_low byte s, byte_high byte s);
    chip_is =
        b.chip-set (byte * 2 ^ 16) (g.io_clr data_pins s) (b.level-clr data_pins 12 s ∙ v.ior_high)
          (b.level-clr data_pins 13 s ∙ v.iow_high)
        ∙ b.chip-clr data_pins s
        ∙ v.chip_is;
  }

  -- `IOSET = 1 << 4` at an even address
  pub next_addr-View :
      {a byte : ℕ} {out : Bool} {x : c.State} {s : g.State}
      → a % 2 ≡ 0
      → View a out byte x s
      → View (a + 1) out byte x (g.io_set (2 ^ 4) s)
  next_addr-View {s} even v = record {
    ior_high = b.level-set (2 ^ 4) 12 s ∙ v.ior_high;
    iow_high = b.level-set (2 ^ 4) 13 s ∙ v.iow_high;
    ior_out = b.output-set (2 ^ 4) 12 s ∙ v.ior_out;
    iow_out = b.output-set (2 ^ 4) 13 s ∙ v.iow_out;
    addr_out = simp b.output-set v.addr_out;
    data_low = simp b.output-set v.data_low;
    data_high = simp b.output-set v.data_high;
    on_addr = simp b.level-set (ground arith);
    on_data = simp b.level-set v.on_data;
    chip_is = b.chip-set (2 ^ 4) s v.ior_high v.iow_high ∙ v.chip_is;
  }

  -- `IOCLR = 1 << 4`
  pub low_addr-View :
      (port : ℕ) {a byte : ℕ} {out : Bool} {x : c.State} {s : g.State}
      → a - a % 2 ≡ port
      → View a out byte x s
      → View port out byte x (g.io_clr (2 ^ 4) s)
  low_addr-View port {s} even v = record {
    ior_high = b.level-clr (2 ^ 4) 12 s ∙ v.ior_high;
    iow_high = b.level-clr (2 ^ 4) 13 s ∙ v.iow_high;
    ior_out = b.output-clr (2 ^ 4) 12 s ∙ v.ior_out;
    iow_out = b.output-clr (2 ^ 4) 13 s ∙ v.iow_out;
    addr_out = simp b.output-clr v.addr_out;
    data_low = simp b.output-clr v.data_low;
    data_high = simp b.output-clr v.data_high;
    on_addr = simp b.level-clr (ground arith);
    on_data = simp b.level-clr v.on_data;
    chip_is = b.chip-clr (2 ^ 4) s ∙ v.chip_is;
  }

  -- The data port becomes an output, with what its latches hold.
  pub data_out-View :
      {a byte : ℕ} {out : Bool} {x : c.State} {s : g.State}
      → View a out byte x s
      → View a true byte x (g.dir_set data_pins s)
  data_out-View {s} v = record {
    ior_high = b.level-dir_set data_pins 12 s ∙ v.ior_high;
    iow_high = b.level-dir_set data_pins 13 s ∙ v.iow_high;
    ior_out = b.output-dir_set data_pins 12 s ∙ v.ior_out;
    iow_out = b.output-dir_set data_pins 13 s ∙ v.iow_out;
    addr_out = simp b.output-dir_set v.addr_out;
    data_low = simp b.output-dir_set;
    data_high = simp b.output-dir_set;
    on_addr = simp b.level-dir_set v.on_addr;
    on_data = simp b.level-dir_set v.on_data;
    chip_is = b.chip-dir_set data_pins s v.ior_high v.iow_high ∙ v.chip_is;
  }

  pub data_in-View :
      {a byte : ℕ} {out : Bool} {x : c.State} {s : g.State}
      → View a out byte x s
      → View a false byte x (g.dir_clr data_pins s)
  data_in-View {s} v = record {
    ior_high = b.level-dir_clr data_pins 12 s ∙ v.ior_high;
    iow_high = b.level-dir_clr data_pins 13 s ∙ v.iow_high;
    ior_out = b.output-dir_clr data_pins 12 s ∙ v.ior_out;
    iow_out = b.output-dir_clr data_pins 13 s ∙ v.iow_out;
    addr_out = simp b.output-dir_clr v.addr_out;
    data_low = simp b.output-dir_clr;
    data_high = simp b.output-dir_clr;
    on_addr = simp b.level-dir_clr v.on_addr;
    on_data = simp b.level-dir_clr v.on_data;
    chip_is = b.chip-dir_clr data_pins s ∙ v.chip_is;
  }
