-- ===== src/Cs8900a/Access/Cycles.antt =====
-- The bus functions of netif/cs8900a_lpc_e2129.c as reads and writes of the chip's ports.
use picoos_lwip.Prelude.{ℕ, ◌+◌, ◌-◌, ◌*◌, ◌/◌, ◌%◌, ◌^◌, ◌<◌, ◌≡◌, ◌∙◌, Bool, true, false, arith}
use picoos_lwip.Prelude.Bits.{bit_or-shift, shift-bit_or}
use picoos_lwip.Cs8900a.Board.{Gpio, Chip, IsBoard}
use picoos_lwip.Cs8900a.Access.{
  data_pins, put_addr, toggle_ior, cs8900a_write, cs8900a_read, cs8900a_read_addr_high_first,
  cs8900a_write_tx_buf, cs8900a_read_rx_buf,
}
use picoos_lwip.Cs8900a.Access.Lines.{
  View, put_addr-View, put_data-View, next_addr-View, low_addr-View, data_out-View, data_in-View,
}
use picoos_lwip.Cs8900a.Access.Pulses.{toggle_iow-View, toggle_ior-View}

-- A port of the chip is two addresses, an even one with the low byte and the next with the high one.
module _ (c : Chip) where
  abbrev pub write_port : ℕ → ℕ → c.State → c.State
  write_port port word x =
      c.write_byte (port + 1) (word / 2 ^ 8) (c.write_byte port (word % 2 ^ 8) x)

  -- A read of both bytes, the low one first.
  abbrev pub read_port : ℕ → c.State → ℕ × c.State
  read_port port x =
      let x' = c.end_read port x in
      (c.read_byte port x + c.read_byte (port + 1) x' * 2 ^ 8, c.end_read (port + 1) x')

  -- The high byte first.
  abbrev pub read_port_high_first : ℕ → c.State → ℕ × c.State
  read_port_high_first port x =
      let x' = c.end_read (port + 1) x in
      (c.read_byte port x' + c.read_byte (port + 1) x * 2 ^ 8, c.end_read port x')

  -- The bytes of a port one after the other.
  abbrev pub write_pair : ℕ → ℕ → ℕ → c.State → c.State
  write_pair port byte0 byte1 x = c.write_byte (port + 1) byte1 (c.write_byte port byte0 x)

module _ (g : Gpio) (c : Chip) (b : IsBoard g c) where
  -- Between the driver's calls: no strobe is low, and the chip is `x`.
  pub record Rests (x : c.State) (s : g.State) : Type 0 where
    pub addr : ℕ
    pub out : Bool
    pub byte : ℕ
    pub view : View g c b addr out byte x s

  -- Between the calls that fill or empty a frame: the address is that of the port or the next, and
  -- the data lines are outputs or not.
  pub record Streams (port : ℕ) (out : Bool) (x : c.State) (s : g.State) : Type 0 where
    pub addr : ℕ
    pub at_port : addr - addr % 2 ≡ port
    pub byte : ℕ
    pub view : View g c b addr out byte x s

  -- cs8900aWrite writes the port: the low byte at the even address, then the high byte at the next.
  pub cs8900a_write-port :
      (port word : ℕ) {x : c.State} {s : g.State}
      → port % 2 ≡ 0
      → port < 16
      → word < 2 ^ 16
      → Rests x s
      → Rests (write_port c port word x) (cs8900a_write g port word s)
  unfolding cs8900a_write
  cs8900a_write-port port word even small fits r =
      let v1 = put_addr-View g c b port small (data_out-View g c b r.view) in
      let v2 = toggle_iow-View g c b (put_data-View g c b (word % 2 ^ 8) (omega arith) v1) in
      let v3 = next_addr-View g c b even v2 in
      let v4 = toggle_iow-View g c b (put_data-View g c b (word / 2 ^ 8) (omega arith) v3) in
      record { addr = port + 1; out = true; byte = word / 2 ^ 8; view = v4 }

  -- cs8900aRead gives the port's word, read low byte first.
  pub cs8900a_read-port :
      (port : ℕ) {x : c.State} {s : g.State}
      → port % 2 ≡ 0
      → port < 16
      → Rests x s
      → ((cs8900a_read g port s).0 ≡ (read_port c port x).0)
        × Rests (read_port c port x).1 (cs8900a_read g port s).1
  unfolding cs8900a_read
  cs8900a_read-port port {x} {s} even small r =
      let v1 = put_addr-View g c b port small (data_in-View g c b r.view) in
      let (low, v2) = toggle_ior-View g c b v1 in
      let (high, v3) = toggle_ior-View g c b (next_addr-View g c b even v2) in
      (
        bit_or-shift 8 _ _ (omega arith) ∙ rw (low, high),
        record { addr = port + 1; out = false; byte = r.byte; view = v3 },
      )

  -- cs8900aReadAddrHighFirst gives the port's word, read high byte first.
  pub cs8900a_read_addr_high_first-port :
      (port : ℕ) {x : c.State} {s : g.State}
      → port % 2 ≡ 0
      → port < 16
      → Rests x s
      → ((cs8900a_read_addr_high_first g port s).0 ≡ (read_port_high_first c port x).0)
        × Rests (read_port_high_first c port x).1 (cs8900a_read_addr_high_first g port s).1
  unfolding cs8900a_read_addr_high_first
  cs8900a_read_addr_high_first-port port {x} {s} even small r =
      let v1 = put_addr-View g c b (port + 1) (omega arith) (data_in-View g c b r.view) in
      let (high, v2) = toggle_ior-View g c b v1 in
      let (low, v3) = toggle_ior-View g c b (low_addr-View g c b port (omega arith) v2) in
      (
        shift-bit_or 8 _ _ (omega arith) ∙ rw (low, high),
        record { addr = port; out = false; byte = r.byte; view = v3 },
      )

  -- cs8900aWriteTxBuf writes two bytes to the port that is on the bus.
  pub cs8900a_write_tx_buf-port :
      (port byte0 byte1 : ℕ) {x : c.State} {s : g.State}
      → byte0 < 256
      → byte1 < 256
      → Streams port true x s
      → Streams port true (write_pair c port byte0 byte1 x) (cs8900a_write_tx_buf g byte0 byte1 s)
  unfolding cs8900a_write_tx_buf
  cs8900a_write_tx_buf-port port byte0 byte1 {x} {s} h0 h1 r =
      let v0 = low_addr-View g c b port r.at_port r.view in
      let v1 = toggle_iow-View g c b (put_data-View g c b byte0 h0 v0) in
      let even : port % 2 ≡ 0 = omega (arith, r.at_port) in
      let v2 = next_addr-View g c b even v1 in
      let v3 = toggle_iow-View g c b (put_data-View g c b byte1 h1 v2) in
      record { addr = port + 1; at_port = omega arith; byte = byte1; view = v3 }

  -- cs8900aReadRxBuf gives two bytes of the port that is on the bus.
  pub cs8900a_read_rx_buf-port :
      (port : ℕ) {x : c.State} {s : g.State}
      → Streams port false x s
      → ((cs8900a_read_rx_buf g s).0 ≡ c.read_byte port x)
        × ((cs8900a_read_rx_buf g s).1 ≡ c.read_byte (port + 1) (c.end_read port x))
        × Streams port false (c.end_read (port + 1) (c.end_read port x)) (cs8900a_read_rx_buf g s).2
  unfolding cs8900a_read_rx_buf
  cs8900a_read_rx_buf-port port {x} {s} r =
      let v0 = low_addr-View g c b port r.at_port r.view in
      let (first, v1) = toggle_ior-View g c b v0 in
      let even : port % 2 ≡ 0 = omega (arith, r.at_port) in
      let (second, v2) = toggle_ior-View g c b (next_addr-View g c b even v1) in
      (first, second, record { addr = port + 1; at_port = omega arith; byte = r.byte; view = v2 })

-- The word that cs8900aRead gives is one of 16 bits.
pub cs8900a_read-lt : (g : Gpio) (port : ℕ) (s : g.State) → (cs8900a_read g port s).0 < 2 ^ 16
unfolding cs8900a_read
cs8900a_read-lt g port s =
    let s1 = put_addr g port (g.dir_clr data_pins s) in
    let low = (toggle_ior g s1).0 / 2 ^ 16 % 2 ^ 8 in
    let high = (toggle_ior g (g.io_set (2 ^ 4) (toggle_ior g s1).1)).0 / 2 ^ 16 % 2 ^ 8 in
    omega (arith, bit_or-shift 8 low high (omega arith))
