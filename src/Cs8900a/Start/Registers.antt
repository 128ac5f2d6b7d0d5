-- ===== src/Cs8900a/Start/Registers.antt =====
-- What the writes of lowLevelInit of netif/cs8900a_lpc_e2129.c leave in the chip's registers.
use picoos_lwip.Prelude.{
  ℕ, ◌+◌, ◌*◌, ◌^◌, ◌<◌, ◌≡◌, refl, ◌∙◌, true, false, List, [], ◌∷◌, arith, All,
}
use picoos_lwip.Cs8900a.Board.{Gpio, Chip, IsBoard, nibble}
use picoos_lwip.Cs8900a.Regs.{add_port, data_port}
use picoos_lwip.Cs8900a.Access.{ior, iow, data_pins, addr_pins, cs8900a_write}
use picoos_lwip.Cs8900a.Access.Cycles.{write_port, Rests, cs8900a_write-port}
use picoos_lwip.Cs8900a.Start.{TInitSeq, init_seq, hwaddr, reset_outputs, write_hwaddr, configure}
use Prim.Native.Nat.{bit_or}

module _ (c : Chip) where
  -- A register is written through the address port and the data port.
  abbrev pub write_register : ℕ → ℕ → c.State → c.State
  write_register reg word x = write_port c data_port word (write_port c add_port reg x)

  abbrev pub write_registers : List (ℕ × ℕ) → c.State → c.State
  write_registers [] x = x
  write_registers ((reg, word) ∷ rest) x = write_registers rest (write_register reg word x)

-- The registers of a started chip, in the order in which they are written: the address
-- 00:bd:03:04:05:07, the line on in both directions, a filter that hashes everything in, and frames
-- accepted that are intact and addressed to this station, to all or to a group.
abbrev pub settings : List (ℕ × ℕ)
settings =
    (0x158, 0xbd00)
    ∷ (0x15a, 0x0403)
    ∷ (0x15c, 0x0705)
    ∷ (0x112, 0x00c0)
    ∷ (0x150, 0xffff)
    ∷ (0x152, 0xffff)
    ∷ (0x154, 0xffff)
    ∷ (0x156, 0xffff)
    ∷ (0x104, 0x0f00)
    ∷ []

pub init_seq-fits : All (λ (t : TInitSeq). (t.addr < 2 ^ 16) × (t.word < 2 ^ 16)) init_seq
init_seq-fits = ground arith

-- A list of settings for configure, as registers and words.
abbrev pub as_pairs : List TInitSeq → List (ℕ × ℕ)
as_pairs [] = []
as_pairs (t ∷ ts) = (t.addr, t.word) ∷ as_pairs ts

module _ (g : Gpio) (c : Chip) (b : IsBoard g c) where
  -- The strobes are inputs, as after the controller's reset.
  pub record IsFloating (x : c.State) (s : g.State) : Type 0 where
    pub ior_in : b.output s 12 ≡ false
    pub iow_in : b.output s 13 ≡ false
    pub chip_is : b.chip s ≡ x

  pub reset_outputs-Rests :
      {x : c.State} {s : g.State} → IsFloating x s → Rests g c b x (reset_outputs g s)
  unfolding reset_outputs
  reset_outputs-Rests {x} {s} f =
      let strobes = bit_or ior iow in
      let pins = bit_or (bit_or (bit_or data_pins ior) iow) addr_pins in
      let s1 = g.io_set strobes s in
      let s2 = g.dir_set pins s1 in
      record {
        addr = nibble (b.level (g.io_clr data_pins s2)) 4;
        out = true;
        byte =
            nibble (b.level (g.io_clr data_pins s2)) 16
            + 16 * nibble (b.level (g.io_clr data_pins s2)) 20;
        view = record {
          ior_high =
              b.level-clr data_pins 12 s2 ∙ b.level-dir_set pins 12 s1 ∙ b.level-set strobes 12 s;
          iow_high =
              b.level-clr data_pins 13 s2 ∙ b.level-dir_set pins 13 s1 ∙ b.level-set strobes 13 s;
          ior_out = b.output-clr data_pins 12 s2 ∙ b.output-dir_set pins 12 s1;
          iow_out = b.output-clr data_pins 13 s2 ∙ b.output-dir_set pins 13 s1;
          addr_out = simp (b.output-clr, b.output-dir_set);
          data_low = simp (b.output-clr, b.output-dir_set);
          data_high = simp (b.output-clr, b.output-dir_set);
          on_addr = refl;
          on_data = refl;
          chip_is =
              b.chip-clr data_pins s2
              ∙ b.chip-dir_set pins s1 (b.level-set strobes 12 s) (b.level-set strobes 13 s)
              ∙ b.chip-set_floating strobes s f.ior_in f.iow_in
              ∙ f.chip_is;
        };
      }

  pub write_register-Rests :
      (reg word : ℕ) {x : c.State} {s : g.State}
      → reg < 2 ^ 16
      → word < 2 ^ 16
      → Rests g c b x s
      → Rests g c b
          (write_register c reg word x)
          (cs8900a_write g data_port word (cs8900a_write g add_port reg s))
  write_register-Rests reg word hr hw r =
      cs8900a_write-port g c b data_port word refl (omega arith) hw
        (cs8900a_write-port g c b add_port reg refl (omega arith) hr r)

  pub write_hwaddr-Rests :
      (s : g.State) {x : c.State}
      → Rests g c b x s
      → Rests g c b
          (write_registers c ((0x158, 0xbd00) ∷ (0x15a, 0x0403) ∷ (0x15c, 0x0705) ∷ []) x)
          (write_hwaddr g 0 hwaddr s)
  unfolding write_hwaddr
  write_hwaddr-Rests s r = write_register-Rests 0x15c 0x0705 (omega arith) (omega arith) (
      write_register-Rests 0x15a 0x0403 (omega arith) (omega arith)
        (write_register-Rests 0x158 0xbd00 (omega arith) (omega arith) r))

  pub configure-Rests :
      (ts : List TInitSeq) {x : c.State} {s : g.State}
      → All (λ (t : TInitSeq). (t.addr < 2 ^ 16) × (t.word < 2 ^ 16)) ts
      → Rests g c b x s
      → Rests g c b (write_registers c (as_pairs ts) x) (configure g ts s)
  unfolding configure
  configure-Rests [] fits r = r
  configure-Rests (t ∷ ts) fits r =
      configure-Rests ts fits.1 (write_register-Rests t.addr t.word fits.0.0 fits.0.1 r)
