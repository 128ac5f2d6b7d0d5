-- ===== src/Cs8900a/Board.antt =====
-- What netif/cs8900a_lpc_e2129.c uses of the microcontroller and of the chip: an interface to the
-- pins of port 0, and the bus cycles by which the chip answers to them.
use picoos_lwip.Prelude.{ℕ, ◌+◌, ◌*◌, ◌/◌, ◌%◌, ◌^◌, ◌≡◌, Bool, true, false, ◌==◌, if◌then◌else◌}

-- IOSET, IOCLR and IODIR are written with masks of pins, and IOPIN is read. `dir_set` is
-- `IODIR |= m` and `dir_clr` is `IODIR &= ~m`.
pub record Gpio : Type 1 where
  pub State : Type 0
  pub io_set : ℕ → State → State
  pub io_clr : ℕ → State → State
  pub dir_set : ℕ → State → State
  pub dir_clr : ℕ → State → State
  pub io_pin : State → ℕ
  pub io_delay : State → State

-- The chip sees bytes: a write cycle at an address of four bits, and a read cycle, in which it
-- first drives a byte and then ends.
pub record Chip : Type 1 where
  pub State : Type 0
  pub write_byte : ℕ → ℕ → State → State
  pub read_byte : ℕ → State → ℕ
  pub end_read : ℕ → State → State

-- Pin `i` of a mask.
abbrev pub bit : ℕ → ℕ → Bool
bit m i = m / 2 ^ i % 2 == 1

abbrev pub bit_val : Bool → ℕ
bit_val b = if b then 1 else 0

-- Four and eight pins as a number.
abbrev pub nibble : (ℕ → Bool) → ℕ → ℕ
nibble p i =
    bit_val (p i) + 2 * bit_val (p (i + 1)) + 4 * bit_val (p (i + 2)) + 8 * bit_val (p (i + 3))

-- How the pins and the chip answer: documented behaviour of the port and of the chip's bus. Pins 4
-- to 7 are the address lines, 12 and 13 the strobes IOR and IOW, which are active low, and 16 to 23
-- the data lines. A write cycle ends where IOW goes high, and a read cycle where IOR does.
pub record IsBoard (g : Gpio) (c : Chip) : Type 0 where
  pub level : g.State → ℕ → Bool
  pub output : g.State → ℕ → Bool
  pub chip : g.State → c.State
  pub level-set :
      (m i : ℕ) (s : g.State) → level (g.io_set m s) i ≡ (if bit m i then true else level s i)
  pub level-clr :
      (m i : ℕ) (s : g.State) → level (g.io_clr m s) i ≡ (if bit m i then false else level s i)
  pub level-dir_set : (m i : ℕ) (s : g.State) → level (g.dir_set m s) i ≡ level s i
  pub level-dir_clr : (m i : ℕ) (s : g.State) → level (g.dir_clr m s) i ≡ level s i
  pub level-delay : (i : ℕ) (s : g.State) → level (g.io_delay s) i ≡ level s i
  pub output-set : (m i : ℕ) (s : g.State) → output (g.io_set m s) i ≡ output s i
  pub output-clr : (m i : ℕ) (s : g.State) → output (g.io_clr m s) i ≡ output s i
  pub output-dir_set :
      (m i : ℕ) (s : g.State) → output (g.dir_set m s) i ≡ (if bit m i then true else output s i)
  pub output-dir_clr :
      (m i : ℕ) (s : g.State) → output (g.dir_clr m s) i ≡ (if bit m i then false else output s i)
  pub output-delay : (i : ℕ) (s : g.State) → output (g.io_delay s) i ≡ output s i
  pub chip-clr : (m : ℕ) (s : g.State) → chip (g.io_clr m s) ≡ chip s
  pub chip-dir_clr : (m : ℕ) (s : g.State) → chip (g.dir_clr m s) ≡ chip s
  pub chip-delay : (s : g.State) → chip (g.io_delay s) ≡ chip s
  -- strobes that stay high start no cycle
  pub chip-dir_set :
      (m : ℕ) (s : g.State) → level s 12 ≡ true → level s 13 ≡ true → chip (g.dir_set m s) ≡ chip s
  pub chip-set :
      (m : ℕ) (s : g.State) → level s 12 ≡ true → level s 13 ≡ true → chip (g.io_set m s) ≡ chip s
  -- nor do latches that are set while the strobes are inputs
  pub chip-set_floating :
      (m : ℕ) (s : g.State)
      → output s 12 ≡ false
      → output s 13 ≡ false
      → chip (g.io_set m s) ≡ chip s
  pub chip-set_iow :
      (s : g.State)
      → level s 13 ≡ false
      → output s 13 ≡ true
      → nibble (output s) 4 ≡ 15
      → nibble (output s) 16 ≡ 15
      → nibble (output s) 20 ≡ 15
      → chip (g.io_set (2 ^ 13) s)
        ≡ c.write_byte
            (nibble (level s) 4)
            (nibble (level s) 16 + 16 * nibble (level s) 20)
            (chip s)
  pub chip-set_ior :
      (s : g.State)
      → level s 12 ≡ false
      → output s 12 ≡ true
      → nibble (output s) 4 ≡ 15
      → chip (g.io_set (2 ^ 12) s) ≡ c.end_read (nibble (level s) 4) (chip s)
  -- while IOR is low the chip drives the data lines, if they are inputs
  pub io_pin_driven :
      (s : g.State)
      → level s 12 ≡ false
      → output s 12 ≡ true
      → nibble (output s) 4 ≡ 15
      → nibble (output s) 16 ≡ 0
      → nibble (output s) 20 ≡ 0
      → g.io_pin s / 2 ^ 16 % 256 ≡ c.read_byte (nibble (level s) 4) (chip s)
