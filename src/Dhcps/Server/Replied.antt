-- ===== src/Dhcps/Server/Replied.antt =====
-- Which replies a message gets (dhcpRecv of apps/dhcps/dhcps.c).
use picoos_lwip.Prelude.{
  ℕ, ◌+◌, ◌≤◌, ◌≡◌, ◌≢◌, refl, sym, subst, inl, inr, Bool, true, false, Option, some, List, [], ◌∷◌,
  ◌++◌, arith, length, if◌then◌else◌,
}
use picoos_lwip.Prelude.Bytes.{Bytes}
use picoos_lwip.Dhcps.Types.{Ip4}
use picoos_lwip.Dhcps.Options.{found, scan_request}
use picoos_lwip.Dhcps.Server.{dhcp_recv, dhcp_discover}
use picoos_lwip.Dhcps.Server.Replies.{
  offer_options, ack_options, with_options, with_address, prepared,
}
use picoos_lwip.Dhcps.Server.Outcomes.{
  Allocated, HasKind, Handled, silent, unanswered, offered, acknowledged, refused,
}
use picoos_lwip.Dhcps.Server.Received.{dhcp_recv_outcome, kind_total, get_elem?-lt}
use picoos_lwip.Dhcps.Server.Effects.{Occurs, Occurs-append, Occurs-left}
use picoos_lwip.Dhcps.Server.Fields.{IsReply, with_options-IsReply}
use picoos_lwip.Dhcps.Server.Env.{
  Lwip, IsLwip, Netif, Dest, broadcast, unicast, Event, alloc_resp, free_resp, log_resp, free_req,
  send, static_arp, Server, Message,
}

-- Some printf of the calls reads a response that has been freed; the flag says that one has.
abbrev pub reads_freed : Bool → List Event → Bool
reads_freed gone [] = false
reads_freed gone (e ∷ es) = elim e [
  | alloc_resp ↦ reads_freed false es
  | free_resp ↦ reads_freed true es
  | log_resp ↦ if gone then true else reads_freed gone es
  | _ ↦ reads_freed gone es
]

module _ (w : Lwip) (netif : Netif) (lw : IsLwip w) (m : Message) (s : Server) {s' : Server}
    {ev' : List Event} (received : dhcp_recv w netif m s ≡ some (s', ev')) where
  cookie_inside : w.layout.cookie ≤ length m.payload
  cookie_inside =
      let (kind, here) = kind_total w netif lw m s received in
      omega (arith, get_elem?-lt m.payload (w.layout.options + 2) here)

  -- The calls of each outcome, read off its list.
  acknowledged_of :
      {ev : List Event} (ip : Ip4) (mac : Bytes)
      → Handled w netif m s s' ev
      → Occurs (static_arp ip mac) ev
      → (out : Bytes) × Occurs (send s.pcb out (unicast ip) w.client_port) ev
        × IsReply w m.payload ip (ack_options netif) out
        × Allocated w m s s' mac ip
        × (scan_request m.payload w.layout.options ≡ found ip)
  acknowledged_of ip mac (silent _ e _) here = absurd (ground arith)
  acknowledged_of ip mac (unanswered _ _ _ e) here = absurd (ground arith)
  acknowledged_of ip mac (offered _ _ _ _ _ _ e) here = absurd (ground arith)
  acknowledged_of ip mac (refused _ _ _ _ _ _ _ _ _ e) here = absurd (ground arith)
  acknowledged_of ip mac (acknowledged mac' ip' rp _ a b asked e) here =
      let same_ip : ip' ≡ ip = ground arith in
      let same_mac : mac' ≡ mac = ground arith in
      rw (e, ← same_ip, ← same_mac)
        (
          _,
          inr (inr (inl refl)),
          with_options-IsReply w lw rp m.payload ip' (ack_options netif) b.room cookie_inside
              (omega arith),
          a,
          asked,
        )

  offered_of :
      {ev : List Event} (pcb : Option ℕ) (out : Bytes) (dest : Dest) (port : ℕ)
      → HasKind w m dhcp_discover
      → Handled w netif m s s' ev
      → Occurs (send pcb out dest port) ev
      → (ip : Ip4) × (mac : Bytes) × (pcb ≡ s.pcb)
        × (dest ≡ broadcast)
        × (port ≡ w.client_port)
        × Allocated w m s s' mac ip
        × IsReply w m.payload ip (offer_options netif) out
  offered_of pcb out dest port kind (silent _ e _) here = absurd (ground arith)
  offered_of pcb out dest port kind (unanswered _ _ _ e) here = absurd (ground arith)
  offered_of pcb out dest port kind (acknowledged _ _ _ k _ _ _ _) here = absurd (ground arith)
  offered_of pcb out dest port kind (refused _ _ _ _ k _ _ _ _ _) here = absurd (ground arith)
  offered_of pcb out dest port kind (offered mac ip rp _ a b e) here =
      let sent : send pcb out dest port
          ≡ send s.pcb
              (with_options w (offer_options netif) (with_address w ip (prepared w rp m.payload)))
              broadcast w.client_port =
        ground arith in
      (
        ip,
        mac,
        cc,
        cc,
        cc,
        a,
        subst (IsReply w m.payload ip (offer_options netif)) (cc) (
            with_options-IsReply w lw rp m.payload ip (offer_options netif) b.room cookie_inside
              (omega arith)),
      )

  log_of :
      {ev : List Event}
      → Handled w netif m s s' ev
      → Occurs log_resp ev
      → reads_freed false (ev ++ free_req ∷ []) ≡ true
  log_of (silent _ e _) here = absurd (ground arith)
  log_of (unanswered _ _ _ e) here = absurd (ground arith)
  log_of (refused _ _ _ _ _ _ _ _ _ e) here = absurd (ground arith)
  log_of (offered _ _ _ _ _ _ e) here = rw e
  log_of (acknowledged _ _ _ _ _ _ _ e) here = rw e

  -- What stands before the freeing of the request stands in the outcome.
  before_free :
      (x : Event) (ev : List Event)
      → x ≢ free_req
      → ev' ≡ ev ++ free_req ∷ []
      → Occurs x ev'
      → Occurs x ev
  before_free x ev ne split here =
      elim (Occurs-append x ev (free_req ∷ []) (subst (Occurs x) split here)) [
        | inl made ↦ made
        | inr other ↦ absurd (ground arith)
      ]

  -- In the handling of a message without a fault, whoever gets a static ARP entry also gets, at that address, an acknowledgement which carries
  -- it, and which answers a request for it.
  pub acknowledged-IsReply :
      (ip : Ip4) (mac : Bytes)
      → Occurs (static_arp ip mac) ev'
      → (out : Bytes) × Occurs (send s.pcb out (unicast ip) w.client_port) ev'
        × IsReply w m.payload ip (ack_options netif) out
        × Allocated w m s s' mac ip
        × (scan_request m.payload w.layout.options ≡ found ip)
  acknowledged-IsReply ip mac here =
      let (ev, split, h) = dhcp_recv_outcome w netif lw m s received in
      let (out, sent, r, a, asked) =
        acknowledged_of ip mac h (before_free (static_arp ip mac) ev (λ e. cc) split here) in
      (
        out,
        subst (Occurs (send s.pcb out (unicast ip) w.client_port)) (sym split)
            (Occurs-left _ ev (free_req ∷ []) sent),
        r,
        a,
        asked,
      )

  -- All that is sent in the handling of a discovery, if that meets no fault, is an offer, broadcast
  -- to the client port, of the address that the client has got.
  pub offered-IsReply :
      (pcb : Option ℕ) (out : Bytes) (dest : Dest) (port : ℕ)
      → HasKind w m dhcp_discover
      → Occurs (send pcb out dest port) ev'
      → (ip : Ip4) × (mac : Bytes) × (pcb ≡ s.pcb)
        × (dest ≡ broadcast)
        × (port ≡ w.client_port)
        × Allocated w m s s' mac ip
        × IsReply w m.payload ip (offer_options netif) out
  offered-IsReply pcb out dest port kind here =
      let (ev, split, h) = dhcp_recv_outcome w netif lw m s received in
      offered_of pcb out dest port kind h
        (before_free (send pcb out dest port) ev (λ e. cc) split here)

  -- Where the server prints a line about a response in the handling of a message, it reads the
  -- response after freeing it.
  pub log_reads_freed : Occurs log_resp ev' → reads_freed false ev' ≡ true
  log_reads_freed here =
      let (ev, split, h) = dhcp_recv_outcome w netif lw m s received in
      rw split (log_of h (before_free log_resp ev (λ e. cc) split here))
