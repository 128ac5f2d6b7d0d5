-- ===== src/Cs8900a/Padded.antt =====
-- netif/cs8900a_lpc_e2129.c with ETH_PAD_SIZE other than 0: lowLevelOutput, lowLevelInput and
-- cs8900aIfInput, of packets that start with that many bytes of padding.
pub mod Sent
pub mod Received
use picoos_lwip.Prelude.{
  ℕ, ◌+◌, ◌%◌, ◌^◌, Bool, true, false, Option, none, some, List, [], ◌∷◌, ◌++◌, map, ◌>>=◌,
}
use picoos_lwip.Prelude.Bytes.{Bytes}
use picoos_lwip.Padding.{Packets, Measures}
use picoos_lwip.Tap.{
  LinkErr, link_ok, err_if, Event, link_xmit, link_recv, link_memerr, link_drop, alloc_pbuf,
  EthTypes, dispatch,
}
use picoos_lwip.Tap.Padded.{eth_type_padded}
use picoos_lwip.Cs8900a.Board.{Gpio}
use picoos_lwip.Cs8900a.Regs.{
  pp_rx_event, rx_frame_port, tx_start_all_bytes, tx_cmd_port, tx_len_port, add_port, data_port,
}
use picoos_lwip.Cs8900a.Access.{
  data_pins, put_addr, cs8900a_write, cs8900a_read, cs8900a_read_addr_high_first,
}
use picoos_lwip.Cs8900a.Transmit.{
  Buffer, Chain, payloads, has_any, cs8900a_skip_frame, wait_for_tx, send_chain,
}
use picoos_lwip.Cs8900a.Receive.{receive_chain}
use picoos_lwip.Cs8900a.Poll.{memories, contents}

abbrev pub head_len : List Buffer → ℕ
head_len [] = 0
head_len (q ∷ qs) = q.len

abbrev pub chain_measures : Measures Chain
chain_measures = record {
  bytes = λ p. payloads p.buffers;
  first_len = λ p. head_len p.buffers;
  tot_len = λ p. p.tot_len;
}

-- `pad` is ETH_PAD_SIZE, and `put` has the buffers of a packet hold what is written to them.
module _ (lwip : Packets Chain) (pad : ℕ) (g : Gpio) where
  open lwip use {Packet, view, hide, reveal}
  open g use {State}

  -- The packet is the caller's afterwards.
  unfoldable pub low_level_output_padded :
      Packet → State → Option (LinkErr × List Event × Packet × State)
  unfolding wait_for_tx send_chain
  low_level_output_padded p s =
      let p1 = hide pad p in
      let s1 = cs8900a_write g tx_cmd_port tx_start_all_bytes s in
      let s2 = cs8900a_write g tx_len_port (view p1).tot_len s1 in
      let (ready, s3) = wait_for_tx g 8 s2 in
      elim ready [
        | false ↦ some (err_if, [], p1, s3)
        | true ↦ (do
          s4 ← send_chain g (view p1).buffers s3
          some (link_ok, link_xmit ∷ [], reveal pad p1, s4))
      ]

  module _ (put : List Buffer → Packet → Packet) where
    -- From pbuf_alloc on, which gives a packet, or none.
    unfoldable pub fill_pbuf_padded :
        Option Packet → State → Option (Option Packet × List Event × State)
    unfolding receive_chain
    fill_pbuf_padded none s = some (none, link_memerr ∷ link_drop ∷ [], cs8900a_skip_frame g s)
    fill_pbuf_padded (some p) s = do
      (ps, s') ←
          receive_chain g (view (hide pad p)).buffers
            (put_addr g rx_frame_port (g.dir_clr data_pins s))
      some (some (reveal pad (put ps (hide pad p))), alloc_pbuf ∷ link_recv ∷ [], s')

    -- `len` has 16 bits.
    unfoldable pub low_level_input_padded :
        (ℕ → Option Packet) → State → Option (Option Packet × List Event × State)
    unfolding fill_pbuf_padded
    low_level_input_padded pbuf_alloc s =
        let (word, s1) = cs8900a_read g data_port (cs8900a_write g add_port pp_rx_event s) in
        let (status, s2) = cs8900a_read_addr_high_first g rx_frame_port s1 in
        let (len, s3) = cs8900a_read_addr_high_first g rx_frame_port s2 in
        elim (has_any word 0xd00) [
          | false ↦ some (none, [], s1)
          | true ↦ fill_pbuf_padded (pbuf_alloc ((len + pad) % 2 ^ 16)) s3
        ]

    unfoldable pub cs8900a_if_input_padded :
        EthTypes → (ℕ → Option Packet) → Bool → State → Option (Bool × List Event × State)
    unfolding low_level_input_padded eth_type_padded dispatch
    cs8900a_if_input_padded types pbuf_alloc accepts s = do
      (r, ev, s') ← low_level_input_padded pbuf_alloc s
      elim r [
        | none ↦ some (false, ev, s')
        | some p ↦ (do
          ty ← eth_type_padded pad (memories (view p).buffers)
          some (true, ev ++ dispatch types accepts (contents (view p).buffers) ty, s'))
      ]
