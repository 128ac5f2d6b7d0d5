-- ===== src/Cs8900a/Regs.antt =====
-- The registers, bits and ports of the CS8900A that the driver uses: include/netif/cs8900a_regs.h.
use picoos_lwip.Prelude.{ℕ}

abbrev pub pp_rx_cfg : ℕ
pp_rx_cfg = 0x0102

abbrev pub pp_rx_ctl : ℕ
pp_rx_ctl = 0x0104

abbrev pub pp_line_ctl : ℕ
pp_line_ctl = 0x0112

abbrev pub pp_self_ctl : ℕ
pp_self_ctl = 0x0114

abbrev pub pp_rx_event : ℕ
pp_rx_event = 0x0124

abbrev pub pp_self_st : ℕ
pp_self_st = 0x0136

abbrev pub pp_bus_st : ℕ
pp_bus_st = 0x0138

abbrev pub pp_laf : ℕ
pp_laf = 0x0150

abbrev pub pp_ia : ℕ
pp_ia = 0x0158

abbrev pub skip_1 : ℕ
skip_1 = 0x0040

abbrev pub rx_ok_accept : ℕ
rx_ok_accept = 0x0100

abbrev pub rx_multcast_accept : ℕ
rx_multcast_accept = 0x0200

abbrev pub rx_ia_accept : ℕ
rx_ia_accept = 0x0400

abbrev pub rx_broadcast_accept : ℕ
rx_broadcast_accept = 0x0800

abbrev pub tx_start_all_bytes : ℕ
tx_start_all_bytes = 0x00c0

abbrev pub serial_rx_on : ℕ
serial_rx_on = 0x0040

abbrev pub serial_tx_on : ℕ
serial_tx_on = 0x0080

abbrev pub power_on_reset : ℕ
power_on_reset = 0x0040

abbrev pub init_done : ℕ
init_done = 0x0080

abbrev pub ready_for_tx_now : ℕ
ready_for_tx_now = 0x0100

abbrev pub rx_frame_port : ℕ
rx_frame_port = 0x0000

abbrev pub tx_frame_port : ℕ
tx_frame_port = 0x0000

abbrev pub tx_cmd_port : ℕ
tx_cmd_port = 0x0004

abbrev pub tx_len_port : ℕ
tx_len_port = 0x0006

abbrev pub add_port : ℕ
add_port = 0x000a

abbrev pub data_port : ℕ
data_port = 0x000c
