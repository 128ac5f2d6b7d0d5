-- ===== src/Dhcps/SmallServer.antt =====
-- A small server at which the theorems on apps/dhcps/dhcps.c are tried. The layout is that of lwIP's
-- `struct dhcp_msg`, with its long unused fields left out.
use picoos_lwip.Prelude.{
  ℕ, ◌%◌, ◌≢◌, refl, Option, none, some, List, [], ◌∷◌, ◌++◌, arith, replicate,
}
use picoos_lwip.Prelude.Bytes.{Bytes}
use picoos_lwip.Dhcps.Types.{Ip4, free_mac}
use picoos_lwip.Dhcps.Options.{
  scan_request, note_option, put, add_option_byte, add_option_ip, add_option_time,
}
use picoos_lwip.Dhcps.Leases.{find_lease, claim_lease, allocate_addr}
use picoos_lwip.Dhcps.Server.{
  new_resp, send_offer, send_ack, send_nak, handle_discover, answer_request, handle_request,
  dhcp_recv, run, fresh_leases, dhcp_server_start_raw,
}
use picoos_lwip.Dhcps.Server.Env.{Layout, Lwip, IsLwip, Netif, Event, Server, Message, send}

abbrev pub layout : Layout
layout = record {
  op = 0;
  yiaddr = 1;
  chaddr = 5;
  cookie = 21;
  options = 25;
  options_len = 68;
  size = 93;
}

abbrev pub ip : ℕ → ℕ → ℕ → ℕ → Ip4
ip a b c d = record { b0 = a % 256; b1 = b % 256; b2 = c % 256; b3 = d % 256 }

abbrev pub lwip : Lwip
lwip = record {
  layout = layout;
  magic_cookie = 99 ∷ 130 ∷ 83 ∷ 99 ∷ [];
  client_port = 68;
  server_port = 67;
  ip4_make = ip;
  ip4_addr1 = λ a. a.b0;
  ip4_addr2 = λ a. a.b1;
  ip4_addr3 = λ a. a.b2;
  ip4_addr4 = λ a. a.b3;
}

pub lwip-IsLwip : IsLwip lwip
lwip-IsLwip = record { is_layout = omega arith; cookie_length = refl; last_octet = λ a b c d. refl }

abbrev pub netif : Netif
netif = record { ip_addr = ip 192 168 0 250; netmask = ip 255 255 255 0 }

abbrev pub started : Server
started = (dhcp_server_start_raw lwip netif (some 7)).0

abbrev pub client : ℕ → Bytes
client n = 2 ∷ 0 ∷ 0 ∷ 0 ∷ 0 ∷ n ∷ []

-- A request of one client with the given options.
abbrev pub request : Bytes → Bytes → Bytes
request mac os = 1 ∷ 0 ∷ 0 ∷ 0 ∷ 0 ∷ (mac ++ replicate 10 0 ++ 99 ∷ 130 ∷ 83 ∷ 99 ∷ [] ++ os)

abbrev pub message : Bytes → Bytes → Message
message mac os = record { payload = request mac os; fresh = some (replicate 93 7) }

abbrev pub discover : Message
discover = message (client 1) (53 ∷ 1 ∷ 1 ∷ 255 ∷ [])

abbrev pub ask : ℕ → ℕ → Message
ask n octet = message (client n) (53 ∷ 1 ∷ 3 ∷ 50 ∷ 4 ∷ 192 ∷ 168 ∷ 0 ∷ octet ∷ 255 ∷ [])

-- Opens all that a run calls.
unfoldable pub serve : List Message → Server → Option (Server × List Event)
unfolding run dhcp_recv handle_discover handle_request answer_request new_resp send_offer send_ack
    send_nak put add_option_byte add_option_ip add_option_time scan_request note_option find_lease
    claim_lease allocate_addr dhcp_server_start_raw fresh_leases
serve = run lwip netif

pub client-ne-free : (n : ℕ) → client n ≢ free_mac
client-ne-free n = λ e. ground arith

-- The run of one message and what it leaves.
abbrev pub after : Message → Server × List Event
after m = elim (dhcp_recv lwip netif m started) [ some r ↦ r | none ↦ (started, []) ]

-- Client 1 has the first address, and client 2 asks for the second.
abbrev pub held : Server
held = record {
  leases =
      record { mac = client 1; ip = ip 192 168 0 4 }
      ∷ record { mac = free_mac; ip = ip 192 168 0 5 }
      ∷ [];
  pcb = some 7;
}

abbrev pub first_payload : List Event → Bytes
first_payload [] = []
first_payload (send _ out _ _ ∷ ev) = out
first_payload (_ ∷ ev) = first_payload ev
