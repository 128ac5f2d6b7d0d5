-- ===== src/Dhcps/Server/Protocol.antt =====
-- What the DHCP server is to do for its clients, whatever table it keeps: an abstract
-- specification of dhcpRecv (apps/dhcps/dhcps.c) over who holds which address of a pool.
use picoos_lwip.Prelude.{ℕ, ◌<◌, ◌≡◌, ◌≢◌, ◌⊎◌, none, some, List, [], ◌∷◌, ◌++◌, length}
use picoos_lwip.Prelude.Bytes.{Bytes, load_bytes}
use picoos_lwip.Dhcps.Types.{Ip4}
use picoos_lwip.Dhcps.Options.{found, scan_request}
use picoos_lwip.Dhcps.Leases.Grants.{Holds, Gets, IsExhausted}
use picoos_lwip.Dhcps.Server.{dhcp_discover, dhcp_request}
use picoos_lwip.Dhcps.Server.Outcomes.{HasKind}
use picoos_lwip.Dhcps.Server.Fields.{IsReply}
use picoos_lwip.Dhcps.Server.Replies.{
  prepared, with_options, offer_options, ack_options, nak_options,
}
use picoos_lwip.Dhcps.Server.Env.{Lwip, Netif, Dest, broadcast, unicast, Event, send, Message}

pub data Reply : Type 0 where
  no_reply nak : Reply
  offer ack : Ip4 → Reply

-- The packets that are sent, and where to.
abbrev pub sent : List Event → List (Bytes × Dest)
sent [] = []
sent (send pcb out dest port ∷ ev) = (out, dest) ∷ sent ev
sent (_ ∷ ev) = sent ev

module _ (w : Lwip) where
  open w use {layout}

  abbrev pub IsClient : Message → Bytes → Type 0
  IsClient m mac = load_bytes layout.chaddr 6 m.payload ≡ some mac

  abbrev pub LacksBuffer : Message → Type 0
  LacksBuffer m =
      (m.fresh ≡ none) ⊎ ((rp : Bytes) × (m.fresh ≡ some rp) × (length rp < layout.size))

module _ (w : Lwip) (netif : Netif) where
  open w use {layout}

  -- The packets of a reply.
  abbrev pub Says : Message → Reply → List (Bytes × Dest) → Type 0
  Says m no_reply xs = xs ≡ []
  Says m (offer ip) xs =
      (out : Bytes) × (xs ≡ (out, broadcast) ∷ [])
      × IsReply w m.payload ip (offer_options netif) out
  Says m (ack ip) xs =
      (out : Bytes) × (xs ≡ (out, unicast ip) ∷ []) × IsReply w m.payload ip (ack_options netif) out
  Says m nak xs =
      (rp : Bytes) × (xs
        ≡ (with_options w (nak_options netif) (prepared w rp m.payload), broadcast) ∷ [])

  module _ (pool : List Ip4) where
    -- A message is ignored if it is of another kind, or if its client has no address and all are
    -- given away. Any other gets its client an address, and is answered if there is a buffer: a
    -- discovery by an offer of it, and a request by an acknowledgement or, if it asks for another
    -- address, by a refusal.
    pub data Serves (g g' : Holds) (m : Message) : Reply → Type 0 where
      ignores :
          (kind : ℕ)
          → HasKind w m kind
          → kind ≢ dhcp_discover
          → kind ≢ dhcp_request
          → g' ≡ g
          → Serves g g' m no_reply
      has_none :
          (mac : Bytes)
          → IsClient w m mac
          → g mac ≡ none
          → IsExhausted pool g
          → g' ≡ g
          → Serves g g' m no_reply
      cannot_reply :
          (mac : Bytes) (ip : Ip4)
          → IsClient w m mac
          → Gets pool g g' mac ip
          → LacksBuffer w m
          → Serves g g' m no_reply
      offers :
          (mac : Bytes) (ip : Ip4)
          → HasKind w m dhcp_discover
          → IsClient w m mac
          → Gets pool g g' mac ip
          → Serves g g' m (offer ip)
      acknowledges :
          (mac : Bytes) (ip : Ip4)
          → HasKind w m dhcp_request
          → IsClient w m mac
          → Gets pool g g' mac ip
          → scan_request m.payload layout.options ≡ found ip
          → Serves g g' m (ack ip)
      refuses :
          (mac : Bytes) (ip req : Ip4)
          → HasKind w m dhcp_request
          → IsClient w m mac
          → Gets pool g g' mac ip
          → scan_request m.payload layout.options ≡ found req
          → req ≢ ip
          → Serves g g' m nak

    -- The messages of a run, one after the other, and what is sent.
    pub data ServesAll : Holds → List Message → List (Bytes × Dest) → Holds → Type 0 where
      done : (g : Holds) → ServesAll g [] [] g
      next :
          (m : Message) (ms : List Message) (g g1 g' : Holds) (r : Reply)
          (xs ys : List (Bytes × Dest))
          → Serves g g1 m r
          → Says m r xs
          → ServesAll g1 ms ys g'
          → ServesAll g (m ∷ ms) (xs ++ ys) g'
