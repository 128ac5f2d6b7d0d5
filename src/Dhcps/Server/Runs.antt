-- ===== src/Dhcps/Server/Runs.antt =====
-- What sequences of messages leave (dhcpRecv of apps/dhcps/dhcps.c over a run).
use picoos_lwip.Prelude.{
  ◌+◌, ◌<◌, ◌≡◌, ◌≢◌, refl, sym, ◌∙◌, subst, inl, inr, some, List, [], ◌∷◌, ◌++◌, arith, length,
  ◌>>=◌, >>=-eq-some, All,
}
use picoos_lwip.Prelude.Bytes.{Bytes}
use picoos_lwip.Dhcps.Types.{Ip4, free_mac}
use picoos_lwip.Dhcps.Options.{overrun, scan_request}
use picoos_lwip.Dhcps.Leases.{find_lease}
use picoos_lwip.Dhcps.Leases.Table.{Distinct, addresses, find_lease-injective}
use picoos_lwip.Dhcps.Server.{dhcp_recv, run}
use picoos_lwip.Dhcps.Server.Outcomes.{Handled}
use picoos_lwip.Dhcps.Server.Received.{dhcp_recv_outcome, dhcp_recv_total}
use picoos_lwip.Dhcps.Server.Effects.{
  Occurs, Occurs-append, allocs, frees, requests_freed, Handled-addresses, Handled-kept,
  Handled-granted, Handled-balanced, allocs-append, frees-append, requests_freed-append,
}
use picoos_lwip.Dhcps.Server.Env.{Lwip, IsLwip, Netif, Event, free_req, static_arp, Server, Message}

module _ (w : Lwip) (netif : Netif) (lw : IsLwip w) where
  -- The first message of a run, and the rest of it.
  pub run-cons :
      (m : Message) (ms : List Message) (s : Server) {s' : Server} {ev : List Event}
      → run w netif (m ∷ ms) s ≡ some (s', ev)
      → (s1 : Server) × (ev1 : List Event) × (ev2 : List Event) × Handled w netif m s s1 ev1
        × (run w netif ms s1 ≡ some (s', ev2))
        × (ev ≡ (ev1 ++ free_req ∷ []) ++ ev2)
  unfolding run
  run-cons m ms s {s'} {ev} e =
      let ((s1, evm), received, rest) = >>=-eq-some (dhcp_recv w netif m s) _ e in
      let ((s2, ev2), ran, k) = >>=-eq-some (run w netif ms s1) _ rest in
      let (ev1, split, handled) = dhcp_recv_outcome w netif lw m s received in
      (s1, ev1, ev2, handled, ran ∙ ground arith, ground arith)

  -- In a run no address of the table is added, dropped or changed.
  pub run-addresses :
      (ms : List Message) (s : Server) {s' : Server} {ev : List Event}
      → run w netif ms s ≡ some (s', ev)
      → addresses s'.leases ≡ addresses s.leases
  run-addresses [] s e = unfold run in ground arith
  run-addresses (m ∷ ms) s e =
      let (s1, ev1, ev2, h, ran, _) = run-cons m ms s e in
      run-addresses ms s1 ran ∙ Handled-addresses h

  -- A client that has an address keeps it through every run without a fault; its hardware address is
  -- not zero.
  pub run_kept :
      (ms : List Message) (s : Server) {s' : Server} {ev : List Event} (m : Bytes) (ip : Ip4)
      → run w netif ms s ≡ some (s', ev)
      → m ≢ free_mac
      → find_lease m s.leases ≡ some ip
      → find_lease m s'.leases ≡ some ip
  run_kept [] s m ip e hm held = unfold run in ground arith
  run_kept (msg ∷ ms) s m ip e hm held =
      let (s1, ev1, ev2, h, ran, _) = run-cons msg ms s e in
      run_kept ms s1 m ip ran hm (Handled-kept h m ip hm held)

  -- Whoever has got a static ARP entry in a run holds that address at its end.
  pub run_granted :
      (ms : List Message) (s : Server) {s' : Server} {ev : List Event} (m : Bytes) (ip : Ip4)
      → run w netif ms s ≡ some (s', ev)
      → m ≢ free_mac
      → Occurs (static_arp ip m) ev
      → find_lease m s'.leases ≡ some ip
  run_granted [] s m ip e hm h = absurd (unfold run in ground arith)
  run_granted (msg ∷ ms) s m ip e hm here =
      let (s1, ev1, ev2, h, ran, split) = run-cons msg ms s e in
      elim (Occurs-append (static_arp ip m) (ev1 ++ free_req ∷ []) ev2
        (subst (Occurs (static_arp ip m)) split here)) [
          | inr later ↦ run_granted ms s1 m ip ran hm later
          | inl now ↦ elim (Occurs-append (static_arp ip m) ev1 (free_req ∷ []) now) [
            | inl made ↦ run_kept ms s1 m ip ran hm (Handled-granted h m ip hm made)
            | inr other ↦ absurd (ground arith)
          ]
        ]

  -- Two clients that get the same address in a run are one: from a table without a repeated
  -- address, no run acknowledges an address to two hardware addresses, both not zero.
  pub run_unique :
      (ms : List Message) (s : Server) {s' : Server} {ev : List Event} (m n : Bytes) (ip : Ip4)
      → Distinct (addresses s.leases)
      → run w netif ms s ≡ some (s', ev)
      → m ≢ free_mac
      → n ≢ free_mac
      → Occurs (static_arp ip m) ev
      → Occurs (static_arp ip n) ev
      → m ≡ n
  run_unique ms s {s'} m n ip d e hm hn am an =
      find_lease-injective m n s'.leases ip (subst Distinct (sym (run-addresses ms s e)) d)
        (run_granted ms s m ip e hm am) (run_granted ms s n ip e hn an)

  -- A run without a fault frees as many responses as it allocates, and one request for each message.
  pub run_balanced :
      (ms : List Message) (s : Server) {s' : Server} {ev : List Event}
      → run w netif ms s ≡ some (s', ev)
      → (allocs ev ≡ frees ev) × (requests_freed ev ≡ length ms)
  run_balanced [] s e = unfold run in ground arith
  run_balanced (m ∷ ms) s e =
      let (s1, ev1, ev2, h, ran, split) = run-cons m ms s e in
      let whole = allocs-append (ev1 ++ free_req ∷ []) ev2 in
      let part = allocs-append ev1 (free_req ∷ []) in
      let whole_freed = frees-append (ev1 ++ free_req ∷ []) ev2 in
      let part_freed = frees-append ev1 (free_req ∷ []) in
      let whole_requests = requests_freed-append (ev1 ++ free_req ∷ []) ev2 in
      let part_requests = requests_freed-append ev1 (free_req ∷ []) in
      let step = Handled-balanced h in
      let rest = run_balanced ms s1 ran in rw split (omega arith, omega arith)

  -- A message that is long enough to have a type, and whose options end inside it.
  abbrev pub IsReadable : Message → Type 0
  IsReadable m =
      (w.layout.options + 2 < length m.payload)
      × (scan_request m.payload w.layout.options ≢ overrun)

  -- A run over readable messages gives a result from every state: nothing is read or written
  -- outside a buffer, whatever pbuf_alloc gives.
  pub run_total :
      (ms : List Message) (s : Server)
      → All IsReadable ms
      → (s' : Server) × (ev : List Event) × (run w netif ms s ≡ some (s', ev))
  unfolding run
  run_total [] s r = (s, [], refl)
  run_total (m ∷ ms) s r =
      let (s1, ev1, received, h) = dhcp_recv_total w netif lw m s r.0.0 r.0.1 in
      let (s2, ev2, ran) = run_total ms s1 r.1 in
      (s2, (ev1 ++ free_req ∷ []) ++ ev2, rw (received, ◌>>=◌, ran))
