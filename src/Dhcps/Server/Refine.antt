-- ===== src/Dhcps/Server/Refine.antt =====
-- The DHCP server, dhcpRecv over its lease table (apps/dhcps/dhcps.c), against its specification
-- in Protocol.
use picoos_lwip.Prelude.{
  ℕ, ◌+◌, ◌≤◌, ◌≡◌, ◌≢◌, refl, sym, ap, ◌∙◌, subst, inl, inr, Option, none, some, List, [], ◌∷◌,
  ◌++◌, arith, length, All, append-nil,
}
use picoos_lwip.Prelude.Bytes.{Bytes}
use picoos_lwip.Dhcps.Types.{Ip4, free_mac}
use picoos_lwip.Dhcps.Leases.{find_lease}
use picoos_lwip.Dhcps.Leases.Table.{addresses, bytes_eq-ne}
use picoos_lwip.Dhcps.Leases.Grants.{
  Gets, IsTable, holds, allocate_addr-Gets, allocate_addr-IsTable, allocate_addr-IsExhausted,
}
use picoos_lwip.Dhcps.Server.{run, dhcp_server_start_raw, fresh_leases}
use picoos_lwip.Dhcps.Server.Outcomes.{
  Allocated, HasKind, Handled, silent, unanswered, offered, acknowledged, refused,
}
use picoos_lwip.Dhcps.Server.Fields.{with_options-IsReply}
use picoos_lwip.Dhcps.Server.Replies.{offer_options, ack_options}
use picoos_lwip.Dhcps.Server.Received.{get_elem?-lt}
use picoos_lwip.Dhcps.Server.Runs.{run-cons}
use picoos_lwip.Dhcps.Server.Effects.{Handled-state, Handled-addresses}
use picoos_lwip.Dhcps.Server.Started.{started_leases, started_table}
use picoos_lwip.Dhcps.Server.Protocol.{
  Reply, no_reply, nak, offer, ack, sent, Says, IsClient, Serves, ignores, has_none, cannot_reply,
  offers, acknowledges, refuses, ServesAll, done, next,
}
use picoos_lwip.Dhcps.Server.Env.{Lwip, IsLwip, Netif, Dest, Event, free_req, Server, Message}

sent-append : (xs ys : List Event) → sent (xs ++ ys) ≡ sent xs ++ sent ys
sent-append [] ys = refl
sent-append (x ∷ xs) ys = ground (arith, sent-append xs ys)

pub sent-step : (xs ys : List Event) → sent ((xs ++ free_req ∷ []) ++ ys) ≡ sent xs ++ sent ys
sent-step xs ys =
    sent-append (xs ++ free_req ∷ []) ys
    ∙ ap (λ (t : List (Bytes × Dest)). t ++ sent ys)
        (sent-append xs (free_req ∷ []) ∙ append-nil (sent xs))

module _ (w : Lwip) (netif : Netif) where
  -- The message's client, if it is long enough to have one, has a hardware address that is not zero.
  abbrev pub IsReal : Message → Type 0
  IsReal m = (mac : Bytes) → IsClient w m mac → mac ≢ free_mac

  module _ (lw : IsLwip w) where
    open lw.is_layout use {yiaddr_room, options_room}

    cookie_inside : (m : Message) (kind : ℕ) → HasKind w m kind → w.layout.cookie ≤ length m.payload
    cookie_inside m kind here =
        let room = lw.is_layout.cookie_room in
        omega (arith, get_elem?-lt m.payload (w.layout.options + 2) here)

    Allocated-Gets :
        (m : Message) (s s' : Server) (mac : Bytes) (ip : Ip4)
        → IsReal m
        → IsTable s.leases
        → Allocated w m s s' mac ip
        → Gets (addresses s.leases) (holds s.leases) (holds s'.leases) mac ip
    Allocated-Gets m s s' mac ip real table a =
        allocate_addr-Gets mac s.leases (real mac a.client) ip s'.leases a.given table

    -- Each outcome is one that the specification has.
    Handled-Serves :
        (m : Message) (s s' : Server) (ev : List Event)
        → IsReal m
        → IsTable s.leases
        → Handled w netif m s s' ev
        → (r : Reply) × Serves w netif (addresses s.leases) (holds s.leases) (holds s'.leases) m r
          × Says w netif m r (sent ev)
    Handled-Serves m s s' ev real table (silent e none_sent (inl (kind, here, nd, nr))) = (
      no_reply,
      ignores kind here nd nr (ap (λ (t : Server). holds t.leases) e),
      ap sent none_sent,
    )
    Handled-Serves m s s' ev real table (silent e none_sent (inr (mac, client, full))) =
        let (new, all_held) = allocate_addr-IsExhausted mac s.leases (real mac client) table full in
        (
          no_reply,
          has_none mac client new all_held (ap (λ (t : Server). holds t.leases) e),
          ap sent none_sent,
        )
    Handled-Serves m s s' ev real table (unanswered mac ip a (inl (lacks, e))) = (
      no_reply,
      cannot_reply mac ip a.client (Allocated-Gets m s s' mac ip real table a) (inl lacks),
      ap sent e,
    )
    Handled-Serves m s s' ev real table (unanswered mac ip a (inr (rp, made, small, e))) = (
      no_reply,
      cannot_reply mac ip a.client (Allocated-Gets m s s' mac ip real table a)
          (inr (rp, made, small)),
      ap sent e,
    )
    Handled-Serves m s s' ev real table (offered mac ip rp kind a b e) = (
      offer ip,
      offers mac ip kind a.client (Allocated-Gets m s s' mac ip real table a),
      (
        _,
        ap sent e,
        with_options-IsReply w lw rp m.payload ip (offer_options netif) b.room
            (cookie_inside m _ kind) (omega arith),
      ),
    )
    Handled-Serves m s s' ev real table (acknowledged mac ip rp kind a b asked e) = (
      ack ip,
      acknowledges mac ip kind a.client (Allocated-Gets m s s' mac ip real table a) asked,
      (
        _,
        ap sent e,
        with_options-IsReply w lw rp m.payload ip (ack_options netif) b.room
            (cookie_inside m _ kind) (omega arith),
      ),
    )
    Handled-Serves m s s' ev real table (refused mac ip req rp kind a b asked ne e) = (
      nak,
      refuses mac ip req kind a.client (Allocated-Gets m s s' mac ip real table a) asked ne,
      (rp, ap sent e),
    )

    Handled-IsTable :
        (m : Message) (s s' : Server) (ev : List Event)
        → IsReal m
        → Handled w netif m s s' ev
        → IsTable s.leases
        → IsTable s'.leases
    Handled-IsTable m s s' ev real h table = elim (Handled-state h) [
      | inl e ↦ subst (λ (t : Server). IsTable t.leases) (sym e) table
      | inr (mac, ip, a) ↦
          allocate_addr-IsTable mac s.leases (real mac a.client) ip s'.leases a.given table
    ]

    run-ServesAll :
        (ms : List Message) (s : Server) (pool : List Ip4) {s' : Server} {ev : List Event}
        → run w netif ms s ≡ some (s', ev)
        → All IsReal ms
        → addresses s.leases ≡ pool
        → IsTable s.leases
        → ServesAll w netif pool (holds s.leases) ms (sent ev) (holds s'.leases)
    run-ServesAll [] s pool {s'} {ev} e real own table =
        let same : s ≡ s' = unfold run in ground arith in
        let quiet : [] ≡ ev = unfold run in ground arith in
        subst
          (λ (t : Server). ServesAll w netif pool (holds s.leases) [] (sent ev) (holds t.leases))
          same
          (subst
            (λ (x : List Event).
              ServesAll w netif pool (holds s.leases) [] (sent x) (holds s.leases))
            quiet (done (holds s.leases)))
    run-ServesAll (m ∷ ms) s pool {s'} {ev} e real own table =
        let (s1, ev1, ev2, h, ran, split) = run-cons w netif lw m ms s e in
        let (r, serves, says) = Handled-Serves m s s1 ev1 real.0 table h in
        let rest =
          run-ServesAll ms s1 pool ran real.1 (Handled-addresses h ∙ own)
            (Handled-IsTable m s s1 ev1 real.0 h table) in
        subst
          (λ (x : List (Bytes × Dest)).
            ServesAll w netif pool (holds s.leases) (m ∷ ms) x (holds s'.leases))
          (sym (ap sent split ∙ sent-step ev1 ev2))
          (next m ms (holds s.leases) (holds s1.leases) (holds s'.leases) r (sent ev1) (sent ev2)
            (subst (λ (p : List Ip4). Serves w netif p (holds s.leases) (holds s1.leases) m r) own
              serves)
            says rest)

    -- The server refines its specification: what is sent in a run without a fault, from the start, is
    -- what the specification has for its messages, in order, from a state in which no client has an
    -- address, with the pool of the table's three addresses. No message has the zero hardware
    -- address.
    pub started-ServesAll :
        (made : Option ℕ) (ms : List Message) {s' : Server} {ev : List Event}
        → run w netif ms (dhcp_server_start_raw w netif made).0 ≡ some (s', ev)
        → All IsReal ms
        → let s = (dhcp_server_start_raw w netif made).0 in
          ((m : Bytes) → m ≢ free_mac → holds s.leases m ≡ none)
          × ServesAll w netif (addresses s.leases) (holds s.leases) ms (sent ev) (holds s'.leases)
    started-ServesAll made ms e real = (
      λ m hm.
          rw (started_leases w netif lw made)
            (unfold fresh_leases find_lease in rw (bytes_eq-ne m free_mac hm) refl),
      run-ServesAll ms (dhcp_server_start_raw w netif made).0 _ e real refl (
        (started_table w netif lw made).1,
        rw (started_leases w netif lw made)
            (unfold fresh_leases in (inl refl, (inl refl, (inl refl, tt)))),
      ),
    )
