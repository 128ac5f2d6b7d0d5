-- ===== src/Dhcps/Server/Served.antt =====
-- Which clients a run leaves room for (dhcpRecv of apps/dhcps/dhcps.c over a run).
use picoos_lwip.Prelude.{
  ℕ, ◌+◌, ◌≤◌, ◌≡◌, refl, ◌∙◌, inl, inr, Option, some, List, [], ◌∷◌, arith, length, All, ◌>>=◌,
  subst, sym,
}
use picoos_lwip.Prelude.Bytes.{Bytes, bytes_eq_refl, load_bytes}
use picoos_lwip.Dhcps.Types.{Ip4}
use picoos_lwip.Dhcps.Leases.{find_lease}
use picoos_lwip.Dhcps.Leases.Table.{find_lease-allocate_addr}
use picoos_lwip.Dhcps.Server.{dhcp_recv, run, dhcp_server_start_raw, dhcp_discover}
use picoos_lwip.Dhcps.Server.Outcomes.{Buffer, HasKind, Handled}
use picoos_lwip.Dhcps.Server.Replies.{prepared, with_options, with_address, offer_options}
use picoos_lwip.Dhcps.Server.Steps.{discover_sends}
use picoos_lwip.Dhcps.Server.Received.{get_elem?-lt}
use picoos_lwip.Dhcps.Server.Effects.{Handled-state}
use picoos_lwip.Dhcps.Server.Runs.{run-cons}
use picoos_lwip.Dhcps.Server.Started.{started_table}
use picoos_lwip.Dhcps.Server.Capacity.{
  Member, IsCrew, HasRoom, Member-ne, unserved-le, allocate_addr-HasRoom, allocate_addr_total,
}
use picoos_lwip.Dhcps.Server.Env.{
  Lwip, IsLwip, Netif, Event, alloc_resp, free_resp, free_req, log_resp, send, broadcast, Server,
  Message,
}

module _ (w : Lwip) (netif : Netif) where
  open w use {layout}

  -- A message with the hardware address of one of the clients.
  abbrev pub IsFrom : List Bytes → Message → Type 0
  IsFrom cs m = (mac : Bytes) × (load_bytes layout.chaddr 6 m.payload ≡ some mac) × Member mac cs

  -- The message is answered by a broadcast offer of the address that the client then has.
  abbrev pub IsOffered : Message → Bytes → Bytes → Server → Type 0
  IsOffered m mac rp s =
      (ip : Ip4) × (s' : Server) × (dhcp_recv w netif m s
        ≡ some (
          s',
          alloc_resp
              ∷ send s.pcb
                  (with_options w (offer_options netif)
                    (with_address w ip (prepared w rp m.payload)))
                  broadcast w.client_port
              ∷ free_resp
              ∷ log_resp
              ∷ free_req
              ∷ [],
        ))
      × (find_lease mac s'.leases ≡ some ip)

  module _ (lw : IsLwip w) where
    module _ (cs : List Bytes) (crew : IsCrew cs) where
      Handled-HasRoom :
          (m : Message) (s s' : Server) (ev : List Event)
          → Handled w netif m s s' ev
          → IsFrom cs m
          → HasRoom cs s.leases
          → HasRoom cs s'.leases
      Handled-HasRoom m s s' ev h (mac, sent, member) room = elim (Handled-state h) [
        | inl e ↦ subst (λ (t : Server). HasRoom cs t.leases) (sym e) room
        | inr (mac', ip, a) ↦
            let same : mac ≡ mac' = ground (arith, a.client) in
            allocate_addr-HasRoom cs mac' s.leases s'.leases ip crew
              (subst (λ (x : Bytes). Member x cs) same member) a.given room
      ]

      run-HasRoom :
          (ms : List Message) (s : Server) {s' : Server} {ev : List Event}
          → run w netif ms s ≡ some (s', ev)
          → All (IsFrom cs) ms
          → HasRoom cs s.leases
          → HasRoom cs s'.leases
      run-HasRoom [] s {s'} e from room =
          let same : s ≡ s' = unfold run in ground arith in
          subst (λ (t : Server). HasRoom cs t.leases) same room
      run-HasRoom (m ∷ ms) s e from room =
          let (s1, ev1, ev2, h, ran, _) = run-cons w netif lw m ms s e in
          run-HasRoom ms s1 ran from.1 (Handled-HasRoom m s s1 ev1 h from.0 room)

      -- A discover message of a client among them is answered where there is room for all of them.
      HasRoom-IsOffered :
          (m : Message) (s : Server) (mac rp : Bytes)
          → HasKind w m dhcp_discover
          → load_bytes layout.chaddr 6 m.payload ≡ some mac
          → Member mac cs
          → Buffer w m rp
          → HasRoom cs s.leases
          → IsOffered m mac rp s
      HasRoom-IsOffered m s mac rp kind client member buffer room =
          let (ip, ls, given) = allocate_addr_total cs mac s.leases member room in
          let long = get_elem?-lt m.payload (layout.options + 2) kind in
          let sends =
            discover_sends w netif lw m s long mac client ip ls given rp buffer.made buffer.room in
          (
            ip,
            record s { leases = ls },
            unfold dhcp_recv in rw (kind, ◌>>=◌, sends),
            find_lease-allocate_addr mac mac s.leases ip ls (Member-ne mac cs crew member) given
                ∙ rw (bytes_eq_refl mac) refl,
          )

    -- Up to three clients, with different hardware addresses that are not zero, are always served:
    -- after any run without a fault of their messages from the start, a discover message of any of
    -- them for which pbuf_alloc gives a buffer of the size of a message is answered by a broadcast
    -- offer, and the client then has the offered address.
    pub started_offers :
        (made : Option ℕ) (cs : List Bytes) (ms : List Message) (m : Message) (mac rp : Bytes)
        {s : Server} {ev : List Event}
        → IsCrew cs
        → length cs ≤ 3
        → All (IsFrom cs) ms
        → run w netif ms (dhcp_server_start_raw w netif made).0 ≡ some (s, ev)
        → HasKind w m dhcp_discover
        → load_bytes layout.chaddr 6 m.payload ≡ some mac
        → Member mac cs
        → Buffer w m rp
        → IsOffered m mac rp s
    started_offers made cs ms m mac rp {s} crew few from ran kind client member buffer =
        HasRoom-IsOffered cs crew m s mac rp kind client member buffer
          (run-HasRoom cs crew ms (dhcp_server_start_raw w netif made).0 ran from enough)
      where
        enough : HasRoom cs (dhcp_server_start_raw w netif made).0.leases
        enough = omega (
          arith,
          unserved-le cs (dhcp_server_start_raw w netif made).0.leases,
          (started_table w netif lw made).0,
        )
