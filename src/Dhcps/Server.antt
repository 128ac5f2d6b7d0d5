-- ===== src/Dhcps/Server.antt =====
-- The message handlers and the life of the server: newResp to dhcpServerStop of
-- apps/dhcps/dhcps.c. The names of lwIP that the server uses are the record `Lwip`.
pub mod Env
pub mod Replies
pub mod Sent
pub mod Outcomes
pub mod Steps
pub mod Received
pub mod Effects
pub mod Fields
pub mod Replied
pub mod Runs
pub mod Full
pub mod Taken
pub mod Renewal
pub mod Protocol
pub mod Refine
pub mod Capacity
pub mod Life
pub mod Started
pub mod Served
pub mod Handshake
use picoos_lwip.Prelude.{
  ℕ, zero, suc, ◌+◌, ◌*◌, Bool, true, false, Option, none, some, List, [], ◌∷◌, ◌++◌, ◌==◌,
  if◌then◌else◌, ltb, get_elem?, length, replicate, take, min, ◌>>=◌,
}
use picoos_lwip.Prelude.Bytes.{Bytes, load_bytes, store_bytes}
use picoos_lwip.Dhcps.Types.{Ip4, octets, ip_zero, ip_eq, load_ip, free_mac}
use picoos_lwip.Dhcps.Options.{
  Cursor, put, add_option_byte, add_option_ip, add_option_time, scan_request, found, overrun,
  exhausted, ScanResult, opt_netmask, opt_serverid, opt_msgtype, opt_renew_time, opt_rebind_time,
  opt_lease_time, opt_end,
}
use picoos_lwip.Dhcps.Leases.{Lease, Leases, allocate_addr, max_leases}
use Env.{
  Lwip, Netif, Dest, broadcast, unicast, Event, alloc_resp, free_resp, free_req, send, static_arp,
  log_resp, new_pcb, set_broadcast, bind_port, recv_on, remove_pcb, Server, Message,
}

abbrev pub dhcp_discover : ℕ
dhcp_discover = 1

abbrev pub dhcp_offer : ℕ
dhcp_offer = 2

abbrev pub dhcp_request : ℕ
dhcp_request = 3

abbrev pub dhcp_ack : ℕ
dhcp_ack = 5

abbrev pub dhcp_nak : ℕ
dhcp_nak = 6

module _ (w : Lwip) where
  open w use {layout}

  -- `fresh` is what pbuf_alloc returned: no buffer, or a buffer with any content. The result is
  -- the payload of the response, or NULL.
  unfoldable pub new_resp : Option Bytes → Bytes → Option (Option Bytes × List Event)
  new_resp none p = some (none, [])
  new_resp (some rp) p =
      if ltb (length rp) layout.size then some (none, alloc_resp ∷ free_resp ∷ []) else (do
        r1 ← store_bytes 0 (take (min (length p) (length rp)) p) rp
        r2 ← store_bytes layout.options (replicate layout.options_len 0) r1
        r3 ← store_bytes layout.op (2 ∷ []) r2
        r4 ← store_bytes layout.cookie w.magic_cookie r3
        some (some r4, alloc_resp ∷ []))

  -- The option pointer at the start of the response's options.
  abbrev pub options_at : Bytes → Cursor
  options_at resp = record { bytes = resp; at = layout.options }

  module _ (netif : Netif) where
    -- handleDiscover from its `resp` on. The printf that reads the response comes after its
    -- pbuf_free.
    unfoldable pub send_offer : Ip4 → Option ℕ → Bytes → Option (List Event)
    send_offer addr pcb resp = do
      resp' ← store_bytes layout.yiaddr (octets addr) resp
      c1 ← add_option_byte opt_msgtype dhcp_offer (options_at resp')
      c2 ← add_option_ip opt_netmask netif.netmask c1
      c3 ← add_option_ip opt_serverid netif.ip_addr c2
      c4 ← put opt_end c3
      some (send pcb c4.bytes broadcast w.client_port ∷ free_resp ∷ log_resp ∷ [])

    -- handleRequest where the requested address is the client's.
    unfoldable pub send_ack : Ip4 → Option ℕ → Bytes → Option (List Event)
    send_ack addr pcb resp = do
      resp' ← store_bytes layout.yiaddr (octets addr) resp
      c1 ← add_option_byte opt_msgtype dhcp_ack (options_at resp')
      c2 ← add_option_time opt_renew_time (30 * 60) c1
      c3 ← add_option_time opt_rebind_time (50 * 60) c2
      c4 ← add_option_time opt_lease_time (60 * 60) c3
      c5 ← add_option_ip opt_netmask netif.netmask c4
      c6 ← add_option_ip opt_serverid netif.ip_addr c5
      c7 ← put opt_end c6
      dest ← load_ip layout.yiaddr c7.bytes
      mac ← load_bytes layout.chaddr 6 c7.bytes
      some (
          static_arp dest mac
          ∷ send pcb c7.bytes (unicast dest) w.client_port
          ∷ free_resp
          ∷ log_resp
          ∷ [])

    -- handleRequest where it is another.
    unfoldable pub send_nak : Option ℕ → Bytes → Option (List Event)
    send_nak pcb resp = do
      c1 ← add_option_byte opt_msgtype dhcp_nak (options_at resp)
      c2 ← add_option_ip opt_serverid netif.ip_addr c1
      c3 ← put opt_end c2
      some (send pcb c3.bytes broadcast w.client_port ∷ free_resp ∷ [])

    -- The part of a handler below `newResp`, if that gave a response.
    abbrev reply :
        (Bytes → Option (List Event))
        → Server
        → Option Bytes × List Event
        → Option (Server × List Event)
    reply answer s (none, ev) = some (s, ev)
    reply answer s (some resp, ev) = do ev' ← answer resp; some (s, ev ++ ev')

    unfoldable pub handle_discover : Message → Server → Option (Server × List Event)
    handle_discover m s = do
      mac ← load_bytes layout.chaddr 6 m.payload
      elim (allocate_addr mac s.leases) [
        | none ↦ some (s, [])
        | some (addr, leases') ↦ (do
          r ← new_resp m.fresh m.payload
          reply (send_offer addr s.pcb) (record s { leases = leases' }) r)
      ]

    -- The comparison of handleRequest. A loop that read past the message is a fault.
    unfoldable pub answer_request : Ip4 → Option ℕ → ScanResult → Bytes → Option (List Event)
    answer_request addr pcb (found req) resp =
        if ip_eq req addr then send_ack req pcb resp else send_nak pcb resp
    answer_request addr pcb overrun resp = none
    answer_request addr pcb exhausted resp = none

    unfoldable pub handle_request : Message → Server → Option (Server × List Event)
    handle_request m s = do
      mac ← load_bytes layout.chaddr 6 m.payload
      elim (allocate_addr mac s.leases) [
        | none ↦ some (s, [])
        | some (addr, leases') ↦ (do
          r ← new_resp m.fresh m.payload
          reply (answer_request addr s.pcb (scan_request m.payload layout.options))
              (record s { leases = leases' }) r)
      ]

    unfoldable pub dhcp_recv : Message → Server → Option (Server × List Event)
    dhcp_recv m s = do
      kind ← get_elem? m.payload (layout.options + 2)
      (s', ev) ←
          (if kind == dhcp_discover
            then handle_discover m s
            else if kind == dhcp_request
            then handle_request m s
            else some (s, []))
      some (s', ev ++ (free_req ∷ []))

    -- The messages of a run, one after the other.
    unfoldable pub run : List Message → Server → Option (Server × List Event)
    run [] s = some (s, [])
    run (m ∷ ms) s = do (s1, ev1) ← dhcp_recv m s; (s2, ev2) ← run ms s1; some (s2, ev1 ++ ev2)

  -- The loop of dhcpServerStartRaw, after the memset: entry `i` gets the address that ends `i + 10`
  -- above the interface's own.
  unfoldable pub fresh_leases : Ip4 → ℕ → ℕ → Leases
  fresh_leases base zero i = []
  fresh_leases base (suc n) i =
      record {
        mac = free_mac;
        ip =
            w.ip4_make (w.ip4_addr1 base) (w.ip4_addr2 base) (w.ip4_addr3 base)
              (w.ip4_addr4 base + i + 10);
      }
      ∷ fresh_leases base n (i + 1)

  -- `made` is what udp_new returned.
  unfoldable pub dhcp_server_start_raw : Netif → Option ℕ → Server × List Event
  unfolding fresh_leases
  dhcp_server_start_raw netif none =
      (record { leases = fresh_leases netif.ip_addr max_leases 0; pcb = none }, [])
  dhcp_server_start_raw netif (some h) = (
    record { leases = fresh_leases netif.ip_addr max_leases 0; pcb = some h },
    new_pcb h ∷ set_broadcast h ∷ bind_port h w.server_port ∷ recv_on h ∷ [],
  )

unfoldable pub dhcp_server_stop_raw : Server → Server × List Event
dhcp_server_stop_raw s = (record s { pcb = none }, remove_pcb s.pcb ∷ [])

-- What is queued for the thread of lwIP; the queue and its errors are tcpip_callback's.
pub data Job : Type 0 where
  start_raw : Netif → Job
  stop_raw : Netif → Job

module _ {Q E : Type 0} (tcpip_callback : Job → Q → E × Q) where
  pub dhcp_server_start : Netif → Q → E × Q
  dhcp_server_start netif = tcpip_callback (start_raw netif)

  pub dhcp_server_stop : Netif → Q → E × Q
  dhcp_server_stop netif = tcpip_callback (stop_raw netif)
