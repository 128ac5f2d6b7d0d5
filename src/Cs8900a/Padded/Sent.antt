-- ===== src/Cs8900a/Padded/Sent.antt =====
-- What lowLevelOutput of netif/cs8900a_lpc_e2129.c does with a packet with padding.
use picoos_lwip.Prelude.{ℕ, ◌^◌, ◌≤◌, ◌<◌, ◌≡◌, refl, some, arith, All, Bool-cases, inl, inr}
use picoos_lwip.Padding.{Packets, IsPackets}
use picoos_lwip.Tap.{LinkErr, link_ok, err_if}
use picoos_lwip.Cs8900a.Board.{Gpio, Chip, IsBoard}
use picoos_lwip.Cs8900a.Regs.{tx_start_all_bytes, tx_cmd_port, tx_len_port}
use picoos_lwip.Cs8900a.Access.{cs8900a_write}
use picoos_lwip.Cs8900a.Access.Cycles.{write_port, cs8900a_write-port, Rests}
use picoos_lwip.Cs8900a.Transmit.{Chain, wait_for_tx}
use picoos_lwip.Cs8900a.Transmit.Spec.{reports, IsSendable, await_space, transmit}
use picoos_lwip.Cs8900a.Transmit.Refine.{wait_for_tx-Rests, send_chain-Rests}
use picoos_lwip.Cs8900a.Padded.{head_len, chain_measures, low_level_output_padded}

module _ (lwip : Packets Chain) (ok : IsPackets lwip chain_measures) (pad : ℕ) where
  open lwip use {Packet, view, hide, reveal}

  -- What the caller has of its packet.
  abbrev pub left_of : Packet → LinkErr → Packet
  left_of p link_ok = p
  left_of p err_if = hide pad p

  -- Of a packet whose first buffer holds the padding, lowLevelOutput sends what is behind the
  -- padding as it is to do, and meets no fault: it gives the same result, and leaves the board at
  -- rest. With ERR_OK the packet is as it was, and with ERR_IF it has lost its padding. The buffers
  -- behind the padding hold the pairs that go out, the packet's length has 16 bits, and the board is
  -- at rest.
  pub low_level_output_padded-transmit :
      (g : Gpio) (c : Chip) (b : IsBoard g c) (p : Packet) {x : c.State} {s : g.State}
      → pad ≤ head_len (view p).buffers
      → All IsSendable (view (hide pad p)).buffers
      → (view p).tot_len < 2 ^ 16
      → Rests g c b x s
      → (s' : g.State) × (low_level_output_padded lwip pad g p s
          ≡ (let r = (transmit c (view (hide pad p)) x).0 in some (r, reports r, left_of p r, s')))
        × Rests g c b (transmit c (view (hide pad p)) x).1 s'
  unfolding low_level_output_padded transmit
  low_level_output_padded-transmit g c b p {x} {s} room sendable fits r =
      let p1 = view (hide pad p) in
      let r1 =
        cs8900a_write-port g c b tx_cmd_port tx_start_all_bytes refl (omega arith) (omega arith)
          r in
      let small : p1.tot_len < 2 ^ 16 = omega (arith, ok.tot_len-hide pad p room) in
      let r2 = cs8900a_write-port g c b tx_len_port p1.tot_len refl (omega arith) small r1 in
      let x2 =
        write_port c tx_len_port p1.tot_len (write_port c tx_cmd_port tx_start_all_bytes x) in
      let (same, r3) = wait_for_tx-Rests g c b 8 r2 in
      elim (Bool-cases (await_space c 8 x2).0) [
        | inl ready ↦
            let (s4, e, r4) = send_chain-Rests g c b p1.buffers sendable r3 in
            (
              s4,
              rw (low_level_output_padded, transmit, same, ready, e, ok.reveal-hide pad p room),
              rw (transmit, ready) r4,
            )
        | inr busy ↦ (
          (wait_for_tx g 8 (
              cs8900a_write g tx_len_port p1.tot_len
                (cs8900a_write g tx_cmd_port tx_start_all_bytes s))).1,
          rw (low_level_output_padded, transmit, same, busy),
          rw (transmit, busy) r3,
        )
      ]
