-- ===== src/Cs8900a/Transmit/Spec.antt =====
-- What lowLevelOutput of netif/cs8900a_lpc_e2129.c is to do to the chip: a specification by reads
-- and writes of its ports.
use picoos_lwip.Prelude.{
  ℕ, zero, suc, ◌+◌, ◌%◌, ◌≤◌, ◌<◌, ◌≡◌, refl, Bool, true, false, List, [], ◌∷◌, ◌++◌, arith,
  length, take, All,
}
use picoos_lwip.Prelude.Bytes.{Bytes}
use picoos_lwip.Tap.{LinkErr, link_ok, err_if, Event, link_xmit}
use picoos_lwip.Cs8900a.Board.{Chip}
use picoos_lwip.Cs8900a.Regs.{
  pp_rx_cfg, pp_bus_st, skip_1, ready_for_tx_now, tx_start_all_bytes, tx_frame_port, tx_cmd_port,
  tx_len_port, add_port, data_port,
}
use picoos_lwip.Cs8900a.Access.Cycles.{write_port, read_port, write_pair}
use picoos_lwip.Cs8900a.Transmit.{Buffer, Chain, has_any}
use Prim.Native.Nat.{bit_or}

-- A buffer goes out in pairs of bytes, so that one byte from behind it follows an odd length.
abbrev pub even_up : ℕ → ℕ
even_up n = n + n % 2

abbrev pub frame_bytes : List Buffer → Bytes
frame_bytes [] = []
frame_bytes (q ∷ qs) = take (even_up q.len) q.mem ++ frame_bytes qs

-- The memory of a buffer is bytes, and holds the pairs.
pub record IsSendable (q : Buffer) : Type 0 where
  pub in_bytes : All (λ (v : ℕ). v < 256) q.mem
  pub room : even_up q.len ≤ length q.mem

-- What is counted.
abbrev pub reports : LinkErr → List Event
reports link_ok = link_xmit ∷ []
reports err_if = []

module _ (c : Chip) where
  abbrev pub skip_frame : c.State → c.State
  skip_frame x =
      let (word, x') = read_port c data_port (write_port c add_port pp_rx_cfg x) in
      write_port c data_port (bit_or word skip_1) x'

  abbrev pub poll_space : c.State → Bool × c.State
  poll_space x =
      let (word, x') = read_port c data_port (write_port c add_port pp_bus_st x) in
      (has_any word ready_for_tx_now, x')

  unfoldable pub await_space : ℕ → c.State → Bool × c.State
  await_space zero x = poll_space x
  await_space (suc u) x = elim ((poll_space x).0) [
    | true ↦ (true, (poll_space x).1)
    | false ↦ await_space u (skip_frame (poll_space x).1)
  ]

  unfoldable pub write_frame : Bytes → c.State → c.State
  write_frame (byte0 ∷ byte1 ∷ bytes) x =
      write_frame bytes (write_pair c tx_frame_port byte0 byte1 x)
  write_frame (byte0 ∷ []) x = x
  write_frame [] x = x

  -- The command and the length, then the frame, if one of nine polls finds space.
  unfoldable pub transmit : Chain → c.State → LinkErr × c.State
  unfolding await_space write_frame
  transmit p x =
      let x1 = write_port c tx_cmd_port tx_start_all_bytes x in
      let (ready, x2) = await_space 8 (write_port c tx_len_port p.tot_len x1) in
      elim ready [ true ↦ (link_ok, write_frame (frame_bytes p.buffers) x2) | false ↦ (err_if, x2) ]

  pub write_frame-append :
      (a b : Bytes) (x : c.State)
      → length a % 2 ≡ 0
      → write_frame (a ++ b) x ≡ write_frame b (write_frame a x)
  unfolding write_frame
  write_frame-append [] b x even = refl
  write_frame-append (byte0 ∷ []) b x even = absurd (omega arith)
  write_frame-append (byte0 ∷ byte1 ∷ a) b x even =
      write_frame-append a b (write_pair c tx_frame_port byte0 byte1 x) (omega arith)
