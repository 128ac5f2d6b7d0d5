-- ===== src/Dhcps/Server/Outcomes.antt =====
-- The outcomes that a message to the DHCP server can have: a specification of dhcpRecv
-- (apps/dhcps/dhcps.c) by cases.
use picoos_lwip.Prelude.{
  ℕ, ◌+◌, ◌≤◌, ◌<◌, ◌≡◌, ◌≢◌, ◌⊎◌, Option, none, some, List, [], ◌∷◌, length, get_elem?,
}
use picoos_lwip.Prelude.Bytes.{Bytes, load_bytes}
use picoos_lwip.Dhcps.Types.{Ip4}
use picoos_lwip.Dhcps.Options.{found, scan_request}
use picoos_lwip.Dhcps.Leases.{allocate_addr}
use picoos_lwip.Dhcps.Server.{dhcp_discover, dhcp_request}
use picoos_lwip.Dhcps.Server.Replies.{
  prepared, with_options, with_address, offer_options, ack_options, nak_options,
}
use picoos_lwip.Dhcps.Server.Env.{
  Lwip, Netif, Event, alloc_resp, free_resp, send, static_arp, log_resp, broadcast, unicast, Server,
  Message,
}

-- The client of a message has been given an address, and nothing else of the state has changed.
pub record Allocated (w : Lwip) (m : Message) (s s' : Server) (mac : Bytes) (ip : Ip4)
    : Type 0 where
  pub client : load_bytes w.layout.chaddr 6 m.payload ≡ some mac
  pub given : allocate_addr mac s.leases ≡ some (ip, s'.leases)
  pub same_pcb : s'.pcb ≡ s.pcb

-- pbuf_alloc has given a buffer of the size of a message.
pub record Buffer (w : Lwip) (m : Message) (rp : Bytes) : Type 0 where
  pub made : m.fresh ≡ some rp
  pub room : w.layout.size ≤ length rp

abbrev pub HasKind : Lwip → Message → ℕ → Type 0
HasKind w m kind = get_elem? m.payload (w.layout.options + 2) ≡ some kind

-- Why a message is ignored: it is of another kind, or there is no address for its client.
abbrev pub Ignores : Lwip → Message → Server → Type 0
Ignores w m s =
    ((kind : ℕ) × HasKind w m kind × (kind ≢ dhcp_discover) × (kind ≢ dhcp_request))
    ⊎ ((mac : Bytes) × (load_bytes w.layout.chaddr 6 m.payload ≡ some mac)
        × (allocate_addr mac s.leases ≡ none))

-- Why nothing is sent for an address that is given: there is no buffer, or it is too small.
abbrev pub NoBuffer : Lwip → Message → List Event → Type 0
NoBuffer w m ev =
    (m.fresh ≡ none) × (ev ≡ [])
    ⊎ ((rp : Bytes) × (m.fresh ≡ some rp)
        × (length rp < w.layout.size)
        × (ev ≡ alloc_resp ∷ free_resp ∷ []))

-- The outcomes of a message, as the protocol has them: the new state, and the calls before the
-- request is freed.
pub data Handled (w : Lwip) (netif : Netif) (m : Message) (s s' : Server) (ev : List Event)
    : Type 0 where
  silent : s' ≡ s → ev ≡ [] → Ignores w m s → Handled w netif m s s' ev
  unanswered :
      (mac : Bytes) (ip : Ip4)
      → Allocated w m s s' mac ip
      → NoBuffer w m ev
      → Handled w netif m s s' ev
  offered :
      (mac : Bytes) (ip : Ip4) (rp : Bytes)
      → HasKind w m dhcp_discover
      → Allocated w m s s' mac ip
      → Buffer w m rp
      → ev
        ≡ alloc_resp
          ∷ send s.pcb
              (with_options w (offer_options netif) (with_address w ip (prepared w rp m.payload)))
              broadcast
              w.client_port
          ∷ free_resp
          ∷ log_resp
          ∷ []
      → Handled w netif m s s' ev
  acknowledged :
      (mac : Bytes) (ip : Ip4) (rp : Bytes)
      → HasKind w m dhcp_request
      → Allocated w m s s' mac ip
      → Buffer w m rp
      → scan_request m.payload w.layout.options ≡ found ip
      → ev
        ≡ alloc_resp
          ∷ static_arp ip mac
          ∷ send s.pcb
              (with_options w (ack_options netif) (with_address w ip (prepared w rp m.payload)))
              (unicast ip)
              w.client_port
          ∷ free_resp
          ∷ log_resp
          ∷ []
      → Handled w netif m s s' ev
  refused :
      (mac : Bytes) (ip req : Ip4) (rp : Bytes)
      → HasKind w m dhcp_request
      → Allocated w m s s' mac ip
      → Buffer w m rp
      → scan_request m.payload w.layout.options ≡ found req
      → req ≢ ip
      → ev
        ≡ alloc_resp
          ∷ send s.pcb
              (with_options w (nak_options netif) (prepared w rp m.payload))
              broadcast
              w.client_port
          ∷ free_resp
          ∷ []
      → Handled w netif m s s' ev

abbrev pub Gives : Lwip → Netif → Message → Server → Option (Server × List Event) → Type 0
Gives w netif m s result =
    (s' : Server) × (ev : List Event) × (result ≡ some (s', ev)) × Handled w netif m s s' ev
