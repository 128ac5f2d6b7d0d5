-- ===== src/Dhcps/Server/Handshake.antt =====
-- A client that asks for the address it was offered (handleDiscover and handleRequest of
-- apps/dhcps/dhcps.c, with messages of any client between them).
use picoos_lwip.Prelude.{
  ℕ, ◌+◌, ◌≡◌, ◌≢◌, refl, sym, ap, ap₂, ◌∙◌, Option, some, List, [], ◌∷◌, ◌++◌, arith, All, length,
  ◌>>=◌,
}
use picoos_lwip.Prelude.Bytes.{Bytes, load_bytes, bytes_eq_refl}
use picoos_lwip.Dhcps.Types.{Ip4, ip_zero, free_mac, load_ip}
use picoos_lwip.Dhcps.Options.{found, opt_end, scan_request}
use picoos_lwip.Dhcps.Options.Scan.{Tlv, encode, requested, scan_request-encode}
use picoos_lwip.Dhcps.Leases.{find_lease, allocate_addr}
use picoos_lwip.Dhcps.Leases.Table.{find_lease-allocate_addr}
use picoos_lwip.Dhcps.Server.{dhcp_recv, run, dhcp_discover, dhcp_request}
use picoos_lwip.Dhcps.Server.Outcomes.{Buffer, HasKind}
use picoos_lwip.Dhcps.Server.Replies.{prepared, with_options, with_address, ack_options}
use picoos_lwip.Dhcps.Server.Steps.{request_acknowledges}
use picoos_lwip.Dhcps.Server.Received.{get_elem?-lt}
use picoos_lwip.Dhcps.Server.Effects.{Occurs}
use picoos_lwip.Dhcps.Server.Runs.{run_kept}
use picoos_lwip.Dhcps.Server.Replied.{offered-IsReply}
use picoos_lwip.Dhcps.Server.Env.{
  Lwip, IsLwip, Netif, Dest, unicast, Event, alloc_resp, free_resp, log_resp, free_req, send,
  static_arp, Server, Message,
}

-- A request for an address: well-formed options, of which the last requested address is that one.
pub record Asks (w : Lwip) (m : Message) (ip : Ip4) : Type 0 where
  pub kind : HasKind w m dhcp_request
  pub options : List Tlv
  pub before : Bytes
  pub behind : Bytes
  pub offset : length before ≡ w.layout.options
  pub encoded : m.payload ≡ before ++ (encode options ++ opt_end ∷ behind)
  pub codes : All (λ o. o.code ≢ opt_end) options
  pub asked : requested options ip_zero ≡ ip

-- The message is answered by a static ARP entry and an acknowledgement of the address, to that
-- address, and the server's state stays as it is.
abbrev pub IsAcknowledged : Lwip → Netif → Message → Bytes → Bytes → Ip4 → Server → Type 0
IsAcknowledged w netif m mac rp ip s =
    dhcp_recv w netif m s
    ≡ some (
      s,
      alloc_resp
          ∷ static_arp ip mac
          ∷ send s.pcb
              (with_options w (ack_options netif) (with_address w ip (prepared w rp m.payload)))
              (unicast ip) w.client_port
          ∷ free_resp
          ∷ log_resp
          ∷ free_req
          ∷ [],
    )

module _ (w : Lwip) (netif : Netif) (lw : IsLwip w) where
  -- A client with an address that asks for it gets it.
  held-IsAcknowledged :
      (m : Message) (s : Server) (mac rp : Bytes) (ip : Ip4)
      → load_bytes w.layout.chaddr 6 m.payload ≡ some mac
      → find_lease mac s.leases ≡ some ip
      → Asks w m ip
      → Buffer w m rp
      → IsAcknowledged w netif m mac rp ip s
  unfolding dhcp_recv
  held-IsAcknowledged m s mac rp ip client held asks buffer =
      let asked : scan_request m.payload w.layout.options ≡ found ip =
        ap₂ scan_request asks.encoded (sym asks.offset)
        ∙ scan_request-encode asks.before asks.options asks.behind asks.codes
        ∙ ap found asks.asked in
      let given : allocate_addr mac s.leases ≡ some (ip, s.leases) =
        unfold allocate_addr in ground arith in
      let long = get_elem?-lt m.payload (w.layout.options + 2) asks.kind in
      let answers =
        request_acknowledges w netif lw m s long mac client ip s.leases given rp buffer.made
          buffer.room asked in
      rw (asks.kind, ◌>>=◌, answers)

  -- An offer is kept. Where the handling of a client's discover message has sent something with
  -- the address `ip` in it, and then messages of any clients are handled, all without a fault, a
  -- request of that client for `ip`, with well-formed options and a buffer of the size of a message,
  -- is answered by the static ARP entry and the acknowledgement of `ip`. The client's hardware
  -- address is not zero.
  pub offer_kept :
      (s : Server) (m m' : Message) (between : List Message) (mac rp : Bytes) (ip : Ip4)
      (pcb : Option ℕ) (out : Bytes) (dest : Dest) (port : ℕ) {s1 s2 : Server} {ev ev' : List Event}
      → HasKind w m dhcp_discover
      → load_bytes w.layout.chaddr 6 m.payload ≡ some mac
      → mac ≢ free_mac
      → dhcp_recv w netif m s ≡ some (s1, ev)
      → Occurs (send pcb out dest port) ev
      → load_ip w.layout.yiaddr out ≡ some ip
      → run w netif between s1 ≡ some (s2, ev')
      → load_bytes w.layout.chaddr 6 m'.payload ≡ some mac
      → Asks w m' ip
      → Buffer w m' rp
      → IsAcknowledged w netif m' mac rp ip s2
  offer_kept s m m' between mac rp ip pcb out dest port {s1} {s2} kind client real received sent
        address ran client' asks buffer =
      let (ip', mac', _, _, _, a, r) =
        offered-IsReply w netif lw m s received pcb out dest port kind sent in
      let same_ip : ip' ≡ ip = ground (arith, r.address, address) in
      let same_mac : mac' ≡ mac = ground (arith, a.client, client) in
      let given : allocate_addr mac s.leases ≡ some (ip, s1.leases) =
        rw (← same_ip, ← same_mac) a.given in
      let held : find_lease mac s1.leases ≡ some ip =
        find_lease-allocate_addr mac mac s.leases ip s1.leases real given
        ∙ rw (bytes_eq_refl mac) refl in
      held-IsAcknowledged m' s2 mac rp ip client'
        (run_kept w netif lw between s1 mac ip ran real held) asks buffer
