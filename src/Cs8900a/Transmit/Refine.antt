-- ===== src/Cs8900a/Transmit/Refine.antt =====
-- lowLevelOutput of netif/cs8900a_lpc_e2129.c, over the pins, against its specification.
use picoos_lwip.Prelude.{
  ℕ, zero, suc, ◌-◌, ◌%◌, ◌^◌, ◌≤◌, ◌<◌, ◌≡◌, refl, ap, true, some, List, [], ◌∷◌, arith, length,
  length-take, take, All, ◌>>=◌, Bool-cases, inl, inr,
}
use picoos_lwip.Prelude.Bytes.{Bytes}
use picoos_lwip.Prelude.Bits.{bit_or-lt}
use picoos_lwip.Cs8900a.Board.{Gpio, Chip, IsBoard}
use picoos_lwip.Cs8900a.Regs.{
  pp_rx_cfg, pp_bus_st, skip_1, ready_for_tx_now, tx_start_all_bytes, tx_frame_port, tx_cmd_port,
  tx_len_port, add_port, data_port,
}
use picoos_lwip.Cs8900a.Access.{data_pins, put_addr, cs8900a_write}
use picoos_lwip.Cs8900a.Access.Lines.{put_addr-View, data_out-View}
use picoos_lwip.Cs8900a.Access.Cycles.{
  write_port, Rests, Streams, cs8900a_write-port, cs8900a_read-port, cs8900a_read-lt,
  cs8900a_write_tx_buf-port,
}
use picoos_lwip.Cs8900a.Transmit.{
  Buffer, Chain, has_any, cs8900a_skip_frame, poll_bus_st, wait_for_tx, send_pairs, send_chain,
  low_level_output,
}
use picoos_lwip.Cs8900a.Transmit.Spec.{
  reports, even_up, frame_bytes, IsSendable, skip_frame, poll_space, await_space, write_frame,
  transmit, write_frame-append,
}

module _ (g : Gpio) (c : Chip) (b : IsBoard g c) where
  pub cs8900a_skip_frame-Rests :
      {x : c.State} {s : g.State}
      → Rests g c b x s
      → Rests g c b (skip_frame c x) (cs8900a_skip_frame g s)
  unfolding cs8900a_skip_frame
  cs8900a_skip_frame-Rests {x} {s} r =
      let r1 = cs8900a_write-port g c b add_port pp_rx_cfg refl (omega arith) (omega arith) r in
      let (word, r2) = cs8900a_read-port g c b data_port refl (omega arith) r1 in
      let small = cs8900a_read-lt g data_port (cs8900a_write g add_port pp_rx_cfg s) in
      rw (← word) (
        cs8900a_write-port g c b data_port _ refl (omega arith)
          (bit_or-lt 16 _ skip_1 small (omega arith)) r2)

  poll_bus_st-Rests :
      {x : c.State} {s : g.State}
      → Rests g c b x s
      → ((poll_bus_st g s).0 ≡ (poll_space c x).0)
        × Rests g c b (poll_space c x).1 (poll_bus_st g s).1
  unfolding poll_bus_st
  poll_bus_st-Rests {x} {s} r =
      let r1 = cs8900a_write-port g c b add_port pp_bus_st refl (omega arith) (omega arith) r in
      let (word, r2) = cs8900a_read-port g c b data_port refl (omega arith) r1 in
      (ap (λ (w : ℕ). has_any w ready_for_tx_now) word, r2)

  pub wait_for_tx-Rests :
      (u : ℕ) {x : c.State} {s : g.State}
      → Rests g c b x s
      → ((wait_for_tx g u s).0 ≡ (await_space c u x).0)
        × Rests g c b (await_space c u x).1 (wait_for_tx g u s).1
  unfolding wait_for_tx await_space
  wait_for_tx-Rests zero r = poll_bus_st-Rests r
  wait_for_tx-Rests (suc u) {x} {s} r =
      let (same, r1) = poll_bus_st-Rests r in
      elim (Bool-cases (poll_space c x).0) [
        | inl ready ↦ rw (wait_for_tx, await_space, same, ready) (refl, r1)
        | inr busy ↦
            rw (wait_for_tx, await_space, same, busy)
              (wait_for_tx-Rests u (cs8900a_skip_frame-Rests r1))
      ]

  send_pairs-Streams :
      (left : ℕ) (mem : Bytes) {x : c.State} {s : g.State}
      → All (λ (v : ℕ). v < 256) mem
      → even_up left ≤ length mem
      → Streams g c b tx_frame_port true x s
      → (s' : g.State) × (send_pairs g left mem s ≡ some s')
        × Streams g c b tx_frame_port true (write_frame c (take (even_up left) mem) x) s'
  unfolding send_pairs write_frame
  send_pairs-Streams zero mem {s} bytes room r = (s, refl, r)
  send_pairs-Streams (suc left) [] bytes room r = absurd (omega arith)
  send_pairs-Streams (suc left) (byte0 ∷ []) bytes room r = absurd (omega arith)
  send_pairs-Streams (suc left) (byte0 ∷ byte1 ∷ mem) {x} {s} bytes room r =
      let two : even_up (suc left) ≡ suc (suc (even_up (left - 1))) = omega arith in
      let r' = cs8900a_write_tx_buf-port g c b tx_frame_port byte0 byte1 bytes.0 bytes.1.0 r in
      let (s', e, r'') = send_pairs-Streams (left - 1) mem bytes.1.1 (omega arith) r' in
      (s', e, rw two r'')

  Rests-Streams :
      {x : c.State} {s : g.State}
      → Rests g c b x s
      → Streams g c b tx_frame_port true x (put_addr g tx_frame_port (g.dir_set data_pins s))
  Rests-Streams r = record {
    addr = tx_frame_port;
    at_port = refl;
    byte = r.byte;
    view = put_addr-View g c b tx_frame_port (omega arith) (data_out-View g c b r.view);
  }

  pub send_chain-Rests :
      (qs : List Buffer) {x : c.State} {s : g.State}
      → All IsSendable qs
      → Rests g c b x s
      → (s' : g.State) × (send_chain g qs s ≡ some s')
        × Rests g c b (write_frame c (frame_bytes qs) x) s'
  unfolding send_chain write_frame
  send_chain-Rests [] {s} ok r = (s, refl, r)
  send_chain-Rests (q ∷ qs) {x} {s} ok r =
      let (s1, e1, r1) = send_pairs-Streams q.len q.mem ok.0.in_bytes ok.0.room (Rests-Streams r) in
      let rest : Rests g c b (write_frame c (take (even_up q.len) q.mem) x) s1 = record {
        addr = r1.addr;
        out = true;
        byte = r1.byte;
        view = r1.view;
      } in
      let (s2, e2, r2) = send_chain-Rests qs ok.1 rest in
      let even : length (take (even_up q.len) q.mem) % 2 ≡ 0 =
        omega (arith, length-take (even_up q.len) q.mem, ok.0.room) in
      (
        s2,
        rw (e1, ◌>>=◌, e2),
        rw (write_frame-append c (take (even_up q.len) q.mem) (frame_bytes qs) x even) r2,
      )

  -- lowLevelOutput does to the chip what it is to do, for a chain whose buffers hold the pairs that
  -- go out, and meets no fault: it gives the same result, and leaves the strobes at rest.
  pub low_level_output-transmit :
      (p : Chain) {x : c.State} {s : g.State}
      → All IsSendable p.buffers
      → p.tot_len < 2 ^ 16
      → Rests g c b x s
      → (s' : g.State) × (low_level_output g p s
          ≡ some ((transmit c p x).0, reports (transmit c p x).0, s'))
        × Rests g c b (transmit c p x).1 s'
  unfolding low_level_output transmit
  low_level_output-transmit p {x} {s} ok fits r =
      let r1 =
        cs8900a_write-port g c b tx_cmd_port tx_start_all_bytes refl (omega arith) (omega arith)
          r in
      let r2 = cs8900a_write-port g c b tx_len_port p.tot_len refl (omega arith) fits r1 in
      let x2 = write_port c tx_len_port p.tot_len (write_port c tx_cmd_port tx_start_all_bytes x) in
      let (same, r3) = wait_for_tx-Rests 8 r2 in
      elim (Bool-cases (await_space c 8 x2).0) [
        | inl ready ↦
            let (s4, e, r4) = send_chain-Rests p.buffers ok r3 in
            (s4, rw (low_level_output, transmit, same, ready, e), rw (transmit, ready) r4)
        | inr busy ↦ (
          (wait_for_tx g 8 (
              cs8900a_write g tx_len_port p.tot_len
                (cs8900a_write g tx_cmd_port tx_start_all_bytes s))).1,
          rw (low_level_output, transmit, same, busy),
          rw (transmit, busy) r3,
        )
      ]
