-- ===== src/Cs8900a/Access.antt =====
-- Bus cycles of netif/cs8900a_lpc_e2129.c: cs8900aWrite to cs8900aReadRxBuf, over the pins.
pub mod Lines
pub mod Pulses
pub mod Cycles
use picoos_lwip.Prelude.{ℕ, ◌+◌, ◌*◌, ◌/◌, ◌%◌, ◌^◌}
use picoos_lwip.Cs8900a.Board.{Gpio}
use Prim.Native.Nat.{bit_or}

abbrev pub ior : ℕ
ior = 2 ^ 12

abbrev pub iow : ℕ
iow = 2 ^ 13

-- `0xff << 16`
abbrev pub data_pins : ℕ
data_pins = 0xff * 2 ^ 16

-- `0xf << 4`
abbrev pub addr_pins : ℕ
addr_pins = 0xf * 2 ^ 4

module _ (g : Gpio) where
  open g use {State}

  -- "Put address on bus"
  unfoldable pub put_addr : ℕ → State → State
  put_addr addr s = g.io_set (addr * 2 ^ 4) (g.io_clr addr_pins s)

  -- "Write byte to data bus"
  unfoldable pub put_data : ℕ → State → State
  put_data byte s = g.io_set (byte * 2 ^ 16) (g.io_clr data_pins s)

  -- "Toggle IOW-signal"
  unfoldable pub toggle_iow : State → State
  toggle_iow s = g.io_set iow (g.io_delay (g.io_clr iow s))

  -- The IOR-signal goes low, IOPIN is read, and the signal goes high.
  unfoldable pub toggle_ior : State → ℕ × State
  toggle_ior s = let s' = g.io_delay (g.io_clr ior s) in (g.io_pin s', g.io_set ior s')

  unfoldable pub cs8900a_write : ℕ → ℕ → State → State
  unfolding put_addr put_data toggle_iow
  cs8900a_write addr data_word s =
      let s1 = put_addr addr (g.dir_set data_pins s) in
      let s2 = toggle_iow (put_data (data_word % 2 ^ 8) s1) in
      let s3 = g.io_set (2 ^ 4) s2 in toggle_iow (put_data (data_word / 2 ^ 8) s3)

  unfoldable pub cs8900a_read : ℕ → State → ℕ × State
  unfolding put_addr toggle_ior
  cs8900a_read addr s =
      let s1 = put_addr addr (g.dir_clr data_pins s) in
      let (pin, s2) = toggle_ior s1 in
      let (pin', s3) = toggle_ior (g.io_set (2 ^ 4) s2) in
      (bit_or (pin / 2 ^ 16 % 2 ^ 8) (pin' / 2 ^ 16 % 2 ^ 8 * 2 ^ 8), s3)

  unfoldable pub cs8900a_read_addr_high_first : ℕ → State → ℕ × State
  unfolding put_addr toggle_ior
  cs8900a_read_addr_high_first addr s =
      let s1 = put_addr (addr + 1) (g.dir_clr data_pins s) in
      let (pin, s2) = toggle_ior s1 in
      let (pin', s3) = toggle_ior (g.io_clr (2 ^ 4) s2) in
      (bit_or (pin / 2 ^ 16 % 2 ^ 8 * 2 ^ 8) (pin' / 2 ^ 16 % 2 ^ 8), s3)

  -- The two bytes at `bytes`.
  unfoldable pub cs8900a_write_tx_buf : ℕ → ℕ → State → State
  unfolding put_data toggle_iow
  cs8900a_write_tx_buf byte0 byte1 s =
      let s1 = toggle_iow (put_data byte0 (g.io_clr (2 ^ 4) s)) in
      toggle_iow (put_data byte1 (g.io_set (2 ^ 4) s1))

  unfoldable pub cs8900a_read_rx_buf : State → ℕ × ℕ × State
  unfolding toggle_ior
  cs8900a_read_rx_buf s =
      let (pin, s1) = toggle_ior (g.io_clr (2 ^ 4) s) in
      let (pin', s2) = toggle_ior (g.io_set (2 ^ 4) s1) in
      (pin / 2 ^ 16 % 2 ^ 8, pin' / 2 ^ 16 % 2 ^ 8, s2)
