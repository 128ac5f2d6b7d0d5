-- ===== src/Cs8900a/Start.antt =====
-- Starting of netif/cs8900a_lpc_e2129.c, without LWIP_IPV6 and LWIP_NETIF_HOSTNAME: InitSeq,
-- lowLevelInit and cs8900aIfInit. The wait for the chip's reset is on fuel.
pub mod Registers
pub mod Reset
use picoos_lwip.Prelude.{
  ℕ, zero, suc, ◌+◌, ◌*◌, ◌^◌, Bool, true, false, Option, none, some, List, [], ◌∷◌, ◌++◌, ◌>>=◌,
}
use picoos_lwip.Prelude.Bytes.{Bytes}
use picoos_lwip.Tap.Init.{
  InitErr, init_ok, init_mem, Step, set_state, set_name, set_output, set_linkoutput, set_hwaddr,
  set_mtu, set_flags, task_create,
}
use picoos_lwip.Cs8900a.Board.{Gpio}
use picoos_lwip.Cs8900a.Regs.{
  pp_rx_ctl, pp_line_ctl, pp_self_ctl, pp_self_st, pp_laf, pp_ia, rx_ok_accept, rx_multcast_accept,
  rx_ia_accept, rx_broadcast_accept, serial_rx_on, serial_tx_on, power_on_reset, init_done,
  add_port, data_port,
}
use picoos_lwip.Cs8900a.Access.{ior, iow, data_pins, addr_pins, cs8900a_write, cs8900a_read}
use picoos_lwip.Cs8900a.Transmit.{has_any}
use Prim.Native.Nat.{bit_or}

pub record TInitSeq : Type 0 where
  pub addr : ℕ
  pub word : ℕ

abbrev pub init_seq : List TInitSeq
init_seq =
    record { addr = pp_line_ctl; word = bit_or serial_rx_on serial_tx_on }
    ∷ record { addr = pp_laf + 0; word = 0xffff }
    ∷ record { addr = pp_laf + 2; word = 0xffff }
    ∷ record { addr = pp_laf + 4; word = 0xffff }
    ∷ record { addr = pp_laf + 6; word = 0xffff }
    ∷ record {
      addr = pp_rx_ctl;
      word =
          bit_or (bit_or (bit_or rx_ok_accept rx_ia_accept) rx_broadcast_accept) rx_multcast_accept;
    }
    ∷ []

-- `netif->hwaddr`
abbrev pub hwaddr : Bytes
hwaddr = 0x0 ∷ 0xbd ∷ 0x3 ∷ 0x4 ∷ 0x5 ∷ 0x7 ∷ []

module _ (g : Gpio) where
  open g use {State}

  -- From "Reset outputs, control lines high" on.
  unfoldable pub reset_outputs : State → State
  reset_outputs s =
      let s1 = g.io_set (bit_or ior iow) s in
      g.io_clr data_pins (g.dir_set (bit_or (bit_or (bit_or data_pins ior) iow) addr_pins) s1)

  -- "Wait until chip-reset is done"
  unfoldable pub wait_for_reset : ℕ → State → Option State
  wait_for_reset zero s = none
  wait_for_reset (suc fuel) s =
      let (word, s') = cs8900a_read g data_port s in
      elim (has_any word init_done) [ true ↦ some s' | false ↦ wait_for_reset fuel s' ]

  -- "Set ethernet address."
  unfoldable pub write_hwaddr : ℕ → Bytes → State → State
  write_hwaddr i (low ∷ high ∷ octets) s =
      let s1 = cs8900a_write g add_port (pp_ia + i) s in
      write_hwaddr (i + 2) octets (cs8900a_write g data_port (low + high * 2 ^ 8) s1)
  write_hwaddr i (low ∷ []) s = s
  write_hwaddr i [] s = s

  -- "Configure the CS8900A"
  unfoldable pub configure : List TInitSeq → State → State
  configure [] s = s
  configure (t ∷ ts) s =
      configure ts (cs8900a_write g data_port t.word (cs8900a_write g add_port t.addr s))

  -- `flags` is NETIF_FLAG_BROADCAST and the two others.
  unfoldable pub low_level_init : ℕ → ℕ → State → Option (List Step × State)
  unfolding reset_outputs wait_for_reset write_hwaddr configure
  low_level_init flags fuel s = do
    let s1 = cs8900a_write g add_port pp_self_ctl (reset_outputs s)
    let s2 = cs8900a_write g data_port power_on_reset s1
    s3 ← wait_for_reset fuel (cs8900a_write g add_port pp_self_st s2)
    some (
      set_hwaddr hwaddr ∷ set_mtu 1500 ∷ set_flags flags ∷ [],
      configure init_seq (write_hwaddr 0 hwaddr s3),
    )

  -- `made` is what mem_malloc returned.
  unfoldable pub cs8900a_if_init : Option ℕ → ℕ → ℕ → State → Option (InitErr × List Step × State)
  unfolding low_level_init
  cs8900a_if_init none flags fuel s = some (init_mem, [], s)
  cs8900a_if_init (some m) flags fuel s = do
    (steps, s') ← low_level_init flags fuel s
    some (
      init_ok,
      set_state m
          ∷ set_name (99 ∷ 115 ∷ [])
          ∷ set_output
          ∷ set_linkoutput
          ∷ (steps ++ task_create 1 300 ∷ []),
      s',
    )
