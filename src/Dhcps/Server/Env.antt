-- ===== src/Dhcps/Server/Env.antt =====
-- What the DHCP server of apps/dhcps/dhcps.c uses of lwIP, its state, and the calls that it makes.
use picoos_lwip.Prelude.{ℕ, ◌+◌, ◌%◌, ◌≤◌, ◌≡◌, Option, length}
use picoos_lwip.Prelude.Bytes.{Bytes}
use picoos_lwip.Dhcps.Types.{Ip4}
use picoos_lwip.Dhcps.Leases.{Leases}

-- Offsets in `struct dhcp_msg` (lwip/prot/dhcp.h) of the fields that the server touches.
pub record Layout : Type 0 where
  pub op : ℕ
  pub yiaddr : ℕ
  pub chaddr : ℕ
  pub cookie : ℕ
  pub options : ℕ
  pub options_len : ℕ
  pub size : ℕ

-- The order of those fields, none of which overlaps another, and their room: `chaddr` has sixteen
-- bytes, and the options at least the 68 of DHCP_MIN_OPTIONS_LEN.
pub record IsLayout (l : Layout) : Type 0 where
  pub op_first : l.op + 1 ≤ l.yiaddr
  pub yiaddr_room : l.yiaddr + 4 ≤ l.chaddr
  pub chaddr_room : l.chaddr + 16 ≤ l.cookie
  pub cookie_room : l.cookie + 4 ≤ l.options
  pub options_room : 68 ≤ l.options_len
  pub options_last : l.options + l.options_len ≤ l.size

-- Constants and macros of lwIP: DHCP_MAGIC_COOKIE in network order, the two ports, IP4_ADDR and
-- ip4_addr1 to ip4_addr4.
pub record Lwip : Type 0 where
  pub layout : Layout
  pub magic_cookie : Bytes
  pub client_port : ℕ
  pub server_port : ℕ
  pub ip4_make : ℕ → ℕ → ℕ → ℕ → Ip4
  pub ip4_addr1 : Ip4 → ℕ
  pub ip4_addr2 : Ip4 → ℕ
  pub ip4_addr3 : Ip4 → ℕ
  pub ip4_addr4 : Ip4 → ℕ

-- What the server relies on: the layout, a cookie of four bytes, and that IP4_ADDR keeps the low
-- eight bits of its last argument as the address's last octet.
pub record IsLwip (w : Lwip) : Type 0 where
  pub is_layout : IsLayout w.layout
  pub cookie_length : length w.magic_cookie ≡ 4
  pub last_octet : (a b c d : ℕ) → w.ip4_addr4 (w.ip4_make a b c d) ≡ d % 256

-- The addresses of the interface that the server serves.
pub record Netif : Type 0 where
  pub ip_addr : Ip4
  pub netmask : Ip4

pub data Dest : Type 0 where
  broadcast : Dest
  unicast : Ip4 → Dest

-- The calls with an effect outside the server, in order. `log_resp` is a printf whose arguments
-- read the response.
pub data Event : Type 0 where
  alloc_resp free_resp free_req log_resp : Event
  send : Option ℕ → Bytes → Dest → ℕ → Event
  static_arp : Ip4 → Bytes → Event
  new_pcb set_broadcast recv_on : ℕ → Event
  bind_port : ℕ → ℕ → Event
  remove_pcb : Option ℕ → Event

-- The static variables `leases` and `dhcpPcb`.
pub record Server : Type 0 where
  pub leases : Leases
  pub pcb : Option ℕ

-- A request, with what pbuf_alloc will return for its response.
pub record Message : Type 0 where
  pub payload : Bytes
  pub fresh : Option Bytes
