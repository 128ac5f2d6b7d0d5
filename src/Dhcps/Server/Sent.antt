-- ===== src/Dhcps/Server/Sent.antt =====
-- The replies that handleDiscover and handleRequest send (apps/dhcps/dhcps.c), as lists of
-- options.
use picoos_lwip.Prelude.{
  ℕ, ◌+◌, ◌≤◌, ◌≡◌, ap, ◌∙◌, Option, some, [], ◌∷◌, ◌++◌, arith, length, ◌>>=◌,
}
use picoos_lwip.Prelude.Bytes.{
  Bytes, load_bytes, splice, store_bytes-eq, length-splice, load_bytes-splice_self,
  load_bytes-splice_before, load_bytes-splice_after,
}
use picoos_lwip.Dhcps.Types.{Ip4, octets, load_ip, ip_of_bytes}
use picoos_lwip.Dhcps.Options.Emit.{
  add_option_byte_lem, put_behind, add_option_time_behind, add_option_ip_behind, big_endian,
}
use picoos_lwip.Dhcps.Server.{options_at, send_offer, send_ack, send_nak}
use picoos_lwip.Dhcps.Server.Replies.{
  with_options, with_address, offer_options, ack_options, nak_options,
}
use picoos_lwip.Dhcps.Server.Env.{
  Lwip, IsLwip, Netif, free_resp, send, static_arp, log_resp, broadcast, unicast,
}

module _ (w : Lwip) (netif : Netif) (lw : IsLwip w) (pcb : Option ℕ) (resp : Bytes)
    (h : w.layout.size ≤ length resp) where
  open w use {layout}
  open lw.is_layout use {
    op_first, yiaddr_room, chaddr_room, cookie_room, options_room, options_last,
  }

  -- A refusal: message type 6 and the server's address, to everybody.
  pub send_nak-sent :
      send_nak w netif pcb resp
      ≡ some (
          send pcb (with_options w (nak_options netif) resp) broadcast w.client_port
          ∷ free_resp
          ∷ [])
  unfolding send_nak
  send_nak-sent =
      let c = options_at w resp in
      rw (
        add_option_byte_lem 53 6 c (omega arith),
        add_option_ip_behind (53 ∷ 1 ∷ 6 ∷ []) c 54 netif.ip_addr (omega arith),
        put_behind (53 ∷ 1 ∷ 6 ∷ 54 ∷ 4 ∷ octets netif.ip_addr) c 255 (omega arith),
      )

  module _ (addr : Ip4) where
    abbrev addressed : Bytes
    addressed = with_address w addr resp

    addressed_fits : layout.yiaddr + length (octets addr) ≤ length resp
    addressed_fits = omega arith

    length-addressed : length addressed ≡ length resp
    length-addressed = length-splice layout.yiaddr (octets addr) resp addressed_fits

    -- An offer: message type 2, the netmask and the server's address, to everybody.
    pub send_offer-sent :
        send_offer w netif addr pcb resp
        ≡ some (
            send pcb
              (with_options w (offer_options netif) (with_address w addr resp))
              broadcast
              w.client_port
            ∷ free_resp
            ∷ log_resp
            ∷ [])
    unfolding send_offer
    send_offer-sent =
        let c = options_at w addressed in
        let l = length-addressed in
        let us1 = 53 ∷ 1 ∷ 2 ∷ [] in
        let us2 = us1 ++ (1 ∷ 4 ∷ octets netif.netmask) in
        let us3 = us2 ++ (54 ∷ 4 ∷ octets netif.ip_addr) in
        rw (
          store_bytes-eq layout.yiaddr (octets addr) resp addressed_fits,
          add_option_byte_lem 53 2 c (omega arith),
          add_option_ip_behind us1 c 1 netif.netmask (omega arith),
          add_option_ip_behind us2 c 54 netif.ip_addr (omega arith),
          put_behind us3 c 255 (omega arith),
        )

    address-in-reply :
        (bytes : Bytes)
        → layout.options + length bytes ≤ length resp
        → load_ip layout.yiaddr (splice layout.options bytes addressed) ≡ some addr
    address-in-reply bytes fits = ap (λ m. m >>= ip_of_bytes) loaded
      where
        loaded :
            load_bytes layout.yiaddr 4 (splice layout.options bytes addressed) ≡ some (octets addr)
        loaded =
            load_bytes-splice_before layout.yiaddr 4 layout.options bytes addressed (omega arith)
            ∙ load_bytes-splice_self layout.yiaddr (octets addr) resp (omega arith)

    chaddr-in-reply :
        (bytes : Bytes)
        → layout.options + length bytes ≤ length resp
        → load_bytes layout.chaddr 6 (splice layout.options bytes addressed)
          ≡ load_bytes layout.chaddr 6 resp
    chaddr-in-reply bytes fits =
        load_bytes-splice_before layout.chaddr 6 layout.options bytes addressed (omega arith)
        ∙ load_bytes-splice_after layout.chaddr 6 layout.yiaddr (octets addr) resp (omega arith)
            addressed_fits

    -- An acknowledgement: message type 5, the three times, the netmask and the server's address,
    -- to the client's address, after the static ARP entry.
    pub send_ack-sent :
        {mac : Bytes}
        → load_bytes layout.chaddr 6 resp ≡ some mac
        → send_ack w netif addr pcb resp
          ≡ some (
              static_arp addr mac
              ∷ send pcb
                  (with_options w (ack_options netif) (with_address w addr resp))
                  (unicast addr)
                  w.client_port
              ∷ free_resp
              ∷ log_resp
              ∷ [])
    unfolding send_ack
    send_ack-sent {mac} client =
        let c = options_at w addressed in
        let l = length-addressed in
        let us1 = 53 ∷ 1 ∷ 5 ∷ [] in
        let us2 = us1 ++ (58 ∷ 4 ∷ big_endian 1800) in
        let us3 = us2 ++ (59 ∷ 4 ∷ big_endian 3000) in
        let us4 = us3 ++ (51 ∷ 4 ∷ big_endian 3600) in
        let us5 = us4 ++ (1 ∷ 4 ∷ octets netif.netmask) in
        let us6 = us5 ++ (54 ∷ 4 ∷ octets netif.ip_addr) in
        let bytes = us6 ++ (255 ∷ []) in
        rw (
          store_bytes-eq layout.yiaddr (octets addr) resp addressed_fits,
          add_option_byte_lem 53 5 c (omega arith),
          add_option_time_behind us1 c 58 1800 (omega arith) (omega arith) (omega arith),
          add_option_time_behind us2 c 59 3000 (omega arith) (omega arith) (omega arith),
          add_option_time_behind us3 c 51 3600 (omega arith) (omega arith) (omega arith),
          add_option_ip_behind us4 c 1 netif.netmask (omega arith),
          add_option_ip_behind us5 c 54 netif.ip_addr (omega arith),
          put_behind us6 c 255 (omega arith),
          address-in-reply bytes (omega arith),
          chaddr-in-reply bytes (omega arith),
          client,
        )
