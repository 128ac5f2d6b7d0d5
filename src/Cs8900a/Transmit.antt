-- ===== src/Cs8900a/Transmit.antt =====
-- Sending of netif/cs8900a_lpc_e2129.c, with ETH_PAD_SIZE 0: cs8900aSkipFrame and lowLevelOutput.
pub mod Spec
pub mod Refine
pub mod Outcomes
use picoos_lwip.Prelude.{
  take, ◌++◌, ℕ, zero, suc, ◌+◌, ◌-◌, Bool, true, false, not, Option, none, some, List, [], ◌∷◌,
  ◌==◌, ◌>>=◌,
}
use picoos_lwip.Prelude.Bytes.{Bytes}
use picoos_lwip.Tap.{LinkErr, link_ok, err_if, Event, link_xmit}
use picoos_lwip.Cs8900a.Board.{Gpio}
use picoos_lwip.Cs8900a.Regs.{
  pp_rx_cfg, pp_bus_st, skip_1, ready_for_tx_now, tx_start_all_bytes, tx_frame_port, tx_cmd_port,
  tx_len_port, add_port, data_port,
}
use picoos_lwip.Cs8900a.Access.{
  data_pins, put_addr, cs8900a_write, cs8900a_read, cs8900a_write_tx_buf,
}
use Prim.Native.Nat.{bit_and, bit_or}

-- A buffer of a packet: the bytes of memory from `payload` to the end of its block, and `len`.
pub record Buffer : Type 0 where
  pub mem : Bytes
  pub len : ℕ

-- A chain of buffers, with `tot_len` of the first.
pub record Chain : Type 0 where
  pub buffers : List Buffer
  pub tot_len : ℕ

-- The bytes of a buffer, and of the buffers of a packet.
abbrev pub payload : Buffer → Bytes
payload q = take q.len q.mem

abbrev pub payloads : List Buffer → Bytes
payloads [] = []
payloads (q ∷ qs) = payload q ++ payloads qs

-- `word & mask`, as a test
abbrev pub has_any : ℕ → ℕ → Bool
has_any word mask = not (bit_and word mask == 0)

module _ (g : Gpio) where
  open g use {State}

  unfoldable pub cs8900a_skip_frame : State → State
  cs8900a_skip_frame s =
      let s1 = cs8900a_write g add_port pp_rx_cfg s in
      let (word, s2) = cs8900a_read g data_port s1 in
      cs8900a_write g data_port (bit_or word skip_1) s2

  -- "Check for available buffer space"
  unfoldable pub poll_bus_st : State → Bool × State
  poll_bus_st s =
      let (word, s') = cs8900a_read g data_port (cs8900a_write g add_port pp_bus_st s) in
      (has_any word ready_for_tx_now, s')

  -- The loop for buffer space, which `u` retries are left to: whether it ended by `break`.
  unfoldable pub wait_for_tx : ℕ → State → Bool × State
  unfolding cs8900a_skip_frame poll_bus_st
  wait_for_tx zero s = poll_bus_st s
  wait_for_tx (suc u) s =
      let (ready, s') = poll_bus_st s in
      elim ready [ true ↦ (true, s') | false ↦ wait_for_tx u (cs8900a_skip_frame s') ]

  -- `for (u = 0; u < q->len; u += 2)`: `left` is what is left of `len` and `mem` of the memory. A
  -- read behind the block is a fault.
  unfoldable pub send_pairs : ℕ → Bytes → State → Option State
  send_pairs zero mem s = some s
  send_pairs (suc left) (byte0 ∷ byte1 ∷ mem) s =
      send_pairs (left - 1) mem (cs8900a_write_tx_buf g byte0 byte1 s)
  send_pairs (suc left) (byte0 ∷ []) s = none
  send_pairs (suc left) [] s = none

  unfoldable pub send_chain : List Buffer → State → Option State
  unfolding send_pairs
  send_chain [] s = some s
  send_chain (q ∷ qs) s = do
    s' ← send_pairs q.len q.mem (put_addr g tx_frame_port (g.dir_set data_pins s))
    send_chain qs s'

  unfoldable pub low_level_output : Chain → State → Option (LinkErr × List Event × State)
  unfolding wait_for_tx send_chain
  low_level_output p s =
      let s1 = cs8900a_write g tx_cmd_port tx_start_all_bytes s in
      let s2 = cs8900a_write g tx_len_port p.tot_len s1 in
      let (ready, s3) = wait_for_tx 8 s2 in
      elim ready [
        | false ↦ some (err_if, [], s3)
        | true ↦ (do s4 ← send_chain p.buffers s3; some (link_ok, link_xmit ∷ [], s4))
      ]
