-- ===== src/Dhcps/Server/Steps.antt =====
-- What the two handlers of apps/dhcps/dhcps.c do where there is an address and a buffer.
pub mod Totals
use picoos_lwip.Prelude.{
  ◌+◌, ◌≤◌, ◌<◌, ◌≡◌, refl, ap, ◌∙◌, ◌⊎◌, inl, inr, true, false, none, some, [], ◌∷◌, arith, length,
  ltb, ltb→ge, ltb→lt, ◌>>=◌, Bool-cases, Option-cases, length-drop,
}
use picoos_lwip.Prelude.Bytes.{Bytes, load_bytes, take_exact_total}
use picoos_lwip.Dhcps.Types.{Ip4, ip_eq, ip_eq→≡, ip_eq→≢, ip_eq_refl}
use picoos_lwip.Dhcps.Options.{found, overrun, scan_request}
use picoos_lwip.Dhcps.Options.Scan.{scan_request-ne-exhausted, ScanResult-split}
use picoos_lwip.Dhcps.Leases.{Leases, allocate_addr}
use picoos_lwip.Dhcps.Server.{
  new_resp, handle_discover, answer_request, handle_request, dhcp_discover, dhcp_request,
}
use picoos_lwip.Dhcps.Server.Replies.{
  prepared, new_resp-prepared, length-prepared, prepared_kept, with_options, with_address,
  offer_options, ack_options, nak_options,
}
use picoos_lwip.Dhcps.Server.Outcomes.{
  Allocated, Buffer, HasKind, silent, unanswered, offered, acknowledged, refused, Gives,
}
use picoos_lwip.Dhcps.Server.Sent.{send_offer-sent, send_ack-sent, send_nak-sent}
use picoos_lwip.Dhcps.Server.Env.{
  Lwip, IsLwip, Netif, alloc_resp, free_resp, send, static_arp, log_resp, broadcast, unicast,
  Server, Message,
}

module _ (w : Lwip) (netif : Netif) (lw : IsLwip w) (m : Message) (s : Server)
    (long : w.layout.options + 2 < length m.payload) where
  open w use {layout}
  open lw.is_layout use {
    op_first, yiaddr_room, chaddr_room, cookie_room, options_room, options_last,
  }

  -- The hardware address of a message that is long enough to have a type is there.
  pub chaddr_total : (mac : Bytes) × (load_bytes layout.chaddr 6 m.payload ≡ some mac)
  chaddr_total = take_exact_total 6 _ (omega (arith, length-drop layout.chaddr m.payload))

  module _ (mac : Bytes) (client : load_bytes layout.chaddr 6 m.payload ≡ some mac) (ip : Ip4)
      (ls : Leases) (given : allocate_addr mac s.leases ≡ some (ip, ls)) where
    abbrev pub after : Server
    after = record s { leases = ls }

    pub allocated : Allocated w m s after mac ip
    allocated = record { client = client; given = given; same_pcb = refl }

    module _ (rp : Bytes) (made : m.fresh ≡ some rp) (room : layout.size ≤ length rp) where
      buffer : Buffer w m rp
      buffer = record { made = made; room = room }

      prepared_room : layout.size ≤ length (prepared w rp m.payload)
      prepared_room = omega (arith, length-prepared w lw rp m.payload room)

      prepared_client : load_bytes layout.chaddr 6 (prepared w rp m.payload) ≡ some mac
      prepared_client =
          prepared_kept w lw rp m.payload room layout.chaddr 6 (omega arith) (omega arith)
            (omega arith)
          ∙ client

      -- What handleDiscover does where it has an address to give and a buffer for the response.
      pub discover_sends :
          handle_discover w netif m s
          ≡ some (
            after,
            alloc_resp
                ∷ send s.pcb
                    (with_options w
                      (offer_options netif)
                      (with_address w ip (prepared w rp m.payload)))
                    broadcast
                    w.client_port
                ∷ free_resp
                ∷ log_resp
                ∷ [],
          )
      unfolding handle_discover
      discover_sends = rw (
        client,
        ◌>>=◌,
        given,
        made,
        new_resp-prepared w lw rp m.payload room,
        send_offer-sent w netif lw s.pcb (prepared w rp m.payload) prepared_room ip,
      )

      pub discover_answered :
          HasKind w m dhcp_discover → Gives w netif m s (handle_discover w netif m s)
      discover_answered kind =
          (after, _, discover_sends, offered mac ip rp kind allocated buffer refl)

      -- What handleRequest does where the requested address is not the client's.
      pub request_refuses :
          (req : Ip4)
          → scan_request m.payload layout.options ≡ found req
          → ip_eq req ip ≡ false
          → handle_request w netif m s
            ≡ some (
              after,
              alloc_resp
                  ∷ send s.pcb
                      (with_options w (nak_options netif) (prepared w rp m.payload))
                      broadcast
                      w.client_port
                  ∷ free_resp
                  ∷ [],
            )
      unfolding handle_request answer_request
      request_refuses req asked other = rw (
        client,
        ◌>>=◌,
        given,
        made,
        new_resp-prepared w lw rp m.payload room,
        asked,
        other,
        send_nak-sent w netif lw s.pcb (prepared w rp m.payload) prepared_room,
      )

      -- What handleRequest does where it is.
      pub request_acknowledges :
          scan_request m.payload layout.options ≡ found ip
          → handle_request w netif m s
            ≡ some (
              after,
              alloc_resp
                  ∷ static_arp ip mac
                  ∷ send s.pcb
                      (with_options w
                        (ack_options netif)
                        (with_address w ip (prepared w rp m.payload)))
                      (unicast ip)
                      w.client_port
                  ∷ free_resp
                  ∷ log_resp
                  ∷ [],
            )
      unfolding handle_request answer_request
      request_acknowledges asked = rw (
        client,
        ◌>>=◌,
        given,
        made,
        new_resp-prepared w lw rp m.payload room,
        asked,
        ip_eq_refl ip,
        send_ack-sent w netif lw s.pcb (prepared w rp m.payload) prepared_room ip prepared_client,
      )

      pub request_answered :
          HasKind w m dhcp_request
          → (req : Ip4) → scan_request m.payload layout.options ≡ found req
          → Gives w netif m s (handle_request w netif m s)
      request_answered kind req asked = elim (Bool-cases (ip_eq req ip)) [
        | inl same ↦
            let here = asked ∙ ap found (ip_eq→≡ req ip same) in
            (
              after,
              _,
              request_acknowledges here,
              acknowledged mac ip rp kind allocated buffer here refl,
            )
        | inr other ↦ (
          after,
          _,
          request_refuses req asked other,
          refused mac ip req rp kind allocated buffer asked (ip_eq→≢ req ip other) refl,
        )
      ]
