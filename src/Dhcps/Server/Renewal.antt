-- ===== src/Dhcps/Server/Renewal.antt =====
-- A client that renews its address (handleRequest of apps/dhcps/dhcps.c): RFC 2131 has it put the
-- address into `ciaddr` and leave the requested-address option out.
use picoos_lwip.Prelude.{
  ◌+◌, ◌≡◌, ◌≢◌, refl, sym, ap, ap₂, ◌∙◌, false, some, List, [], ◌∷◌, ◌++◌, arith, All, ◌==◌,
  ==_iff, ◌>>=◌, length, Bool-cases, inl, inr,
}
use picoos_lwip.Prelude.Bytes.{Bytes, load_bytes}
use picoos_lwip.Dhcps.Types.{Ip4, ip_zero, ip_eq, ip_eq→≡}
use picoos_lwip.Dhcps.Options.{found, opt_end, opt_req_ip, scan_request}
use picoos_lwip.Dhcps.Options.Scan.{Tlv, encode, requested, scan_request-encode}
use picoos_lwip.Dhcps.Leases.{find_lease, allocate_addr}
use picoos_lwip.Dhcps.Server.{dhcp_recv, dhcp_request}
use picoos_lwip.Dhcps.Server.Outcomes.{Buffer, HasKind}
use picoos_lwip.Dhcps.Server.Replies.{prepared, with_options, nak_options}
use picoos_lwip.Dhcps.Server.Steps.{request_refuses}
use picoos_lwip.Dhcps.Server.Received.{get_elem?-lt}
use picoos_lwip.Dhcps.Server.Env.{
  Lwip, IsLwip, Netif, alloc_resp, free_resp, free_req, send, broadcast, Server, Message,
}

requested_none :
    (os : List Tlv) (req : Ip4) → All (λ o. o.code ≢ opt_req_ip) os → requested os req ≡ req
requested_none [] req h = refl
requested_none (o ∷ os) req (ne, h) = elim (Bool-cases (o.code == opt_req_ip)) [
  | inl same ↦ absurd (ne ((==_iff o.code 50).0 same))
  | inr other ↦ rw (other, requested_none os req h) refl
]

ip_eq_not_zero : (ip : Ip4) → ip ≢ ip_zero → ip_eq ip_zero ip ≡ false
ip_eq_not_zero ip h = elim (Bool-cases (ip_eq ip_zero ip)) [
  | inl same ↦ absurd (h (sym (ip_eq→≡ ip_zero ip same)))
  | inr other ↦ other
]

-- A client that has an address, and asks for it without the requested-address option, is refused:
-- a request with well-formed options, the option 50 not among them, and a buffer of the size of a
-- message are answered by a broadcast NAK, and nothing of the state has changed. The client's
-- address is not 0.0.0.0.
pub renewal_refused :
    (w : Lwip) (netif : Netif) (lw : IsLwip w) (m : Message) (s : Server) (mac : Bytes) (ip : Ip4)
    (os : List Tlv) (pre post rp : Bytes)
    → HasKind w m dhcp_request
    → load_bytes w.layout.chaddr 6 m.payload ≡ some mac
    → find_lease mac s.leases ≡ some ip
    → ip ≢ ip_zero
    → length pre ≡ w.layout.options
    → m.payload ≡ pre ++ (encode os ++ opt_end ∷ post)
    → All (λ o. o.code ≢ opt_end) os
    → All (λ o. o.code ≢ opt_req_ip) os
    → Buffer w m rp
    → dhcp_recv w netif m s
      ≡ some (
        s,
        alloc_resp
            ∷ send s.pcb
                (with_options w (nak_options netif) (prepared w rp m.payload))
                broadcast
                w.client_port
            ∷ free_resp
            ∷ free_req
            ∷ [],
      )
unfolding dhcp_recv
renewal_refused w netif lw m s mac ip os pre post rp kind client held real len here ends asks
      buffer =
    let asked : scan_request m.payload w.layout.options ≡ found ip_zero =
      ap₂ scan_request here (sym len)
      ∙ scan_request-encode pre os post ends
      ∙ ap found (requested_none os ip_zero asks) in
    let given : allocate_addr mac s.leases ≡ some (ip, s.leases) =
      unfold allocate_addr in ground arith in
    let long = get_elem?-lt m.payload (w.layout.options + 2) kind in
    let refuses =
      request_refuses w netif lw m s long mac client ip s.leases given rp buffer.made buffer.room
        ip_zero asked (ip_eq_not_zero ip real) in
    rw (kind, ◌>>=◌, refuses)
