-- ===== src/Cs8900a/ScriptBoard.antt =====
-- A small board for the tests on netif/cs8900a_lpc_e2129.c: a chip that keeps what is written to it
-- and drives the bytes of a script.
use picoos_lwip.Prelude.{
  ℕ, ◌+◌, ◌*◌, ◌/◌, ◌%◌, ◌^◌, ◌<◌, ◌≡◌, refl, Bool, true, false, not, ◌&&◌, ◌||◌, List, [], ◌∷◌,
  ◌==◌, arith, if◌then◌else◌,
}
use picoos_lwip.Prelude.Bytes.{Bytes}
use picoos_lwip.Cs8900a.Board.{Gpio, Chip, IsBoard, bit, nibble}
use picoos_lwip.Cs8900a.Access.Cycles.{Rests}
use picoos_lwip.Cs8900a.Start.Registers.{IsFloating}

-- What was written, the last first, and the bytes that the chip drives next.
pub record Script : Type 0 where
  pub log : List (ℕ × ℕ)
  pub bytes : Bytes

abbrev pub next_byte : Bytes → ℕ
next_byte [] = 0
next_byte (v ∷ vs) = v % 256

abbrev pub later_bytes : Bytes → Bytes
later_bytes [] = []
later_bytes (v ∷ vs) = vs

abbrev pub chip : Chip
chip = record {
  State = Script;
  write_byte = λ addr v x. record x { log = (addr, v) ∷ x.log };
  read_byte = λ addr x. next_byte x.bytes;
  end_read = λ addr x. record x { bytes = later_bytes x.bytes };
}

pub record Pins : Type 0 where
  pub level : ℕ → Bool
  pub output : ℕ → Bool
  pub script : Script

abbrev pub bus_byte : Pins → ℕ
bus_byte s = nibble s.level 16 + 16 * nibble s.level 20

-- What the chip is after strobes go up.
abbrev pub strobed : ℕ → Pins → Script
strobed m s =
    if bit m 13 && not (s.level 13) && s.output 13
    then chip.write_byte (nibble s.level 4) (bus_byte s) s.script
    else if bit m 12 && not (s.level 12) && s.output 12
    then chip.end_read (nibble s.level 4) s.script
    else s.script

abbrev pub gpio : Gpio
gpio = record {
  State = Pins;
  io_set = λ m s. record {
    level = λ i. if bit m i then true else s.level i;
    output = s.output;
    script = strobed m s;
  };
  io_clr = λ m s. record s { level = λ i. if bit m i then false else s.level i };
  dir_set = λ m s. record s { output = λ i. if bit m i then true else s.output i };
  dir_clr = λ m s. record s { output = λ i. if bit m i then false else s.output i };
  io_pin = λ s. chip.read_byte (nibble s.level 4) s.script * 2 ^ 16;
  io_delay = λ s. s;
}

pub next_byte-lt : (bytes : Bytes) → next_byte bytes < 256
next_byte-lt [] = omega arith
next_byte-lt (v ∷ vs) = omega arith

pub strobed_high :
    (m : ℕ) (s : Pins) → s.level 12 ≡ true → s.level 13 ≡ true → strobed m s ≡ s.script
strobed_high m s h h' = ground arith

pub strobed_floating :
    (m : ℕ) (s : Pins) → s.output 12 ≡ false → s.output 13 ≡ false → strobed m s ≡ s.script
strobed_floating m s h h' = ground arith

abbrev pub board : IsBoard gpio chip
board = record {
  level = λ s. s.level;
  output = λ s. s.output;
  chip = λ s. s.script;
  level-set = λ m i s. refl;
  level-clr = λ m i s. refl;
  level-dir_set = λ m i s. refl;
  level-dir_clr = λ m i s. refl;
  level-delay = λ i s. refl;
  output-set = λ m i s. refl;
  output-clr = λ m i s. refl;
  output-dir_set = λ m i s. refl;
  output-dir_clr = λ m i s. refl;
  output-delay = λ i s. refl;
  chip-clr = λ m s. refl;
  chip-dir_clr = λ m s. refl;
  chip-delay = λ s. refl;
  chip-dir_set = λ m s h h'. refl;
  chip-set = strobed_high;
  chip-set_floating = strobed_floating;
  chip-set_iow = λ s low out h4 h16 h20. rw (low, out);
  chip-set_ior = λ s low out h4. rw (low, out);
  io_pin_driven = λ s low out h4 h16 h20. omega (arith, next_byte-lt s.script.bytes);
}

abbrev pub script : Bytes → Script
script bytes = record { log = []; bytes = bytes }

-- At rest: the strobes high, and only the data lines inputs.
abbrev pub idle : Bytes → Pins
idle bytes = record {
  level = λ i. (i == 12) || (i == 13);
  output = λ i. (i == 12) || (i == 13) || (i / 4 == 1);
  script = script bytes;
}

pub idle-Rests : (bytes : Bytes) → Rests gpio chip board (script bytes) (idle bytes)
idle-Rests bytes = record {
  addr = 0;
  out = false;
  byte = 0;
  view = record {
    ior_high = refl;
    iow_high = refl;
    ior_out = refl;
    iow_out = refl;
    addr_out = refl;
    data_low = refl;
    data_high = refl;
    on_addr = refl;
    on_data = refl;
    chip_is = refl;
  };
}

-- The controller's reset: every pin is an input, and no latch is set.
abbrev pub floating : Bytes → Pins
floating bytes = record { level = λ i. false; output = λ i. false; script = script bytes }

pub floating-IsFloating :
    (bytes : Bytes) → IsFloating gpio chip board (script bytes) (floating bytes)
floating-IsFloating bytes = record { ior_in = refl; iow_in = refl; chip_is = refl }
