-- ===== src/Cs8900a/Receive.antt =====
-- Receiving of netif/cs8900a_lpc_e2129.c, with ETH_PAD_SIZE 0: lowLevelInput.
pub mod Spec
pub mod Refine
pub mod Outcomes
pub mod Endless
use picoos_lwip.Prelude.{
  ℕ, zero, suc, ◌+◌, ◌/◌, ◌%◌, ◌^◌, ltb, Bool, true, false, Option, none, some, List, [], ◌∷◌,
  ◌>>=◌,
}
use picoos_lwip.Prelude.Bytes.{Bytes, store_bytes}
use picoos_lwip.Tap.{Event, link_recv, link_memerr, link_drop, alloc_pbuf}
use picoos_lwip.Cs8900a.Board.{Gpio}
use picoos_lwip.Cs8900a.Regs.{pp_rx_event, rx_frame_port, add_port, data_port}
use picoos_lwip.Cs8900a.Access.{
  data_pins, put_addr, cs8900a_write, cs8900a_read, cs8900a_read_addr_high_first,
  cs8900a_read_rx_buf,
}
use picoos_lwip.Cs8900a.Transmit.{Buffer, has_any, cs8900a_skip_frame}

module _ (g : Gpio) where
  open g use {State}

  -- `while (u < q->len)` on fuel, where `u` has 16 bits, and a write behind the block is a fault. The
  -- result is the block with the bytes in it.
  unfoldable pub receive_pairs : ℕ → ℕ → ℕ → Bytes → State → Option (Bytes × State)
  receive_pairs zero u len mem s = none
  receive_pairs (suc fuel) u len mem s = elim (ltb u len) [
    | false ↦ some (mem, s)
    | true ↦
        let (byte0, byte1, s1) = cs8900a_read_rx_buf g s in
        (do
          mem' ← store_bytes u (byte0 ∷ byte1 ∷ []) mem
          receive_pairs fuel ((u + 2) % 2 ^ 16) len mem' s1)
  ]

  unfoldable pub receive_chain : List Buffer → State → Option (List Buffer × State)
  unfolding receive_pairs
  receive_chain [] s = some ([], s)
  receive_chain (q ∷ qs) s = do
    (mem, s1) ← receive_pairs ((q.len + 1) / 2 + 1) 0 q.len q.mem s
    (ps, s2) ← receive_chain qs s1
    some (record q { mem = mem } ∷ ps, s2)

  -- From pbuf_alloc on, which gives the buffers for a length, or none.
  unfoldable pub fill_pbuf :
      Option (List Buffer) → State → Option (Option (List Buffer) × List Event × State)
  unfolding receive_chain
  fill_pbuf none s = some (none, link_memerr ∷ link_drop ∷ [], cs8900a_skip_frame g s)
  fill_pbuf (some qs) s = do
    (ps, s') ← receive_chain qs (put_addr g rx_frame_port (g.dir_clr data_pins s))
    some (some ps, alloc_pbuf ∷ link_recv ∷ [], s')

  unfoldable pub low_level_input :
      (ℕ → Option (List Buffer)) → State → Option (Option (List Buffer) × List Event × State)
  unfolding fill_pbuf
  low_level_input pbuf_alloc s =
      let (word, s1) = cs8900a_read g data_port (cs8900a_write g add_port pp_rx_event s) in
      let (status, s2) = cs8900a_read_addr_high_first g rx_frame_port s1 in
      let (len, s3) = cs8900a_read_addr_high_first g rx_frame_port s2 in
      elim (has_any word 0xd00) [
        | false ↦ some (none, [], s1)
        | true ↦ fill_pbuf (pbuf_alloc len) s3
      ]
