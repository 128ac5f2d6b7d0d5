-- ===== src/Cs8900a/Receive/Spec.antt =====
-- What lowLevelInput of netif/cs8900a_lpc_e2129.c is to do to the chip and to the buffers: a
-- specification by reads and writes of the chip's ports.
use picoos_lwip.Prelude.{
  ℕ, zero, suc, ◌+◌, ◌*◌, ◌/◌, ◌≤◌, ◌<◌, ◌≡◌, refl, Bool, true, false, Option, none, some, List, [],
  ◌∷◌, ◌++◌, arith, length, drop,
}
use picoos_lwip.Prelude.Bytes.{Bytes}
use picoos_lwip.Tap.{Event, link_recv, link_memerr, link_drop, alloc_pbuf}
use picoos_lwip.Cs8900a.Board.{Chip}
use picoos_lwip.Cs8900a.Regs.{pp_rx_event, rx_frame_port, add_port, data_port}
use picoos_lwip.Cs8900a.Access.Cycles.{write_port, read_port, read_port_high_first}
use picoos_lwip.Cs8900a.Transmit.{Buffer, has_any}
use picoos_lwip.Cs8900a.Transmit.Spec.{even_up, skip_frame}

-- A buffer is filled in pairs of bytes.
abbrev pub pairs : ℕ → ℕ
pairs n = (n + 1) / 2

abbrev pub HasRoom : Buffer → Type 0
HasRoom q = even_up q.len ≤ length q.mem

-- A count of 16 bits by twos gets past the buffer's end.
abbrev pub IsShort : Buffer → Type 0
IsShort q = q.len < 65535

module _ (c : Chip) where
  -- The next bytes of the frame, in pairs.
  unfoldable pub drive : ℕ → c.State → Bytes × c.State
  drive zero x = ([], x)
  drive (suc n) x =
      let x1 = c.end_read rx_frame_port x in
      let (bytes, x2) = drive n (c.end_read (rx_frame_port + 1) x1) in
      (c.read_byte rx_frame_port x ∷ c.read_byte (rx_frame_port + 1) x1 ∷ bytes, x2)

  unfoldable pub fill_buffers : List Buffer → c.State → List Buffer × c.State
  unfolding drive
  fill_buffers [] x = ([], x)
  fill_buffers (q ∷ qs) x =
      let (bytes, x1) = drive (pairs q.len) x in
      let (ps, x2) = fill_buffers qs x1 in
      (record q { mem = bytes ++ drop (even_up q.len) q.mem } ∷ ps, x2)

  -- The frame in the buffers that were given, or no frame and the chip told to skip it.
  unfoldable pub fill_given :
      Option (List Buffer) → c.State → Option (List Buffer) × List Event × c.State
  unfolding fill_buffers
  fill_given none x = (none, link_memerr ∷ link_drop ∷ [], skip_frame c x)
  fill_given (some qs) x =
      (some (fill_buffers qs x).0, alloc_pbuf ∷ link_recv ∷ [], (fill_buffers qs x).1)

  -- Whether a frame is there, the chip then, the frame's length, and the chip before its bytes.
  abbrev pub arrived : c.State → Bool × c.State
  arrived x =
      let (word, x1) = read_port c data_port (write_port c add_port pp_rx_event x) in
      (has_any word 0xd00, x1)

  abbrev pub frame_length : c.State → ℕ × c.State
  frame_length x1 = read_port_high_first c rx_frame_port (read_port_high_first c rx_frame_port x1).1

  -- Nothing, if no frame is there, and else the frame in the buffers that `alloc` gives for its length.
  unfoldable pub receive :
      (ℕ → Option (List Buffer)) → c.State → Option (List Buffer) × List Event × c.State
  unfolding fill_given
  receive alloc x =
      let (there, x1) = arrived x in
      let (len, x2) = frame_length x1 in
      elim there [ false ↦ (none, [], x1) | true ↦ fill_given (alloc len) x2 ]

  pub length-drive : (n : ℕ) (x : c.State) → length (drive n x).0 ≡ 2 * n
  unfolding drive
  length-drive zero x = refl
  length-drive (suc n) x =
      omega (arith, length-drive n (c.end_read (rx_frame_port + 1) (c.end_read rx_frame_port x)))
