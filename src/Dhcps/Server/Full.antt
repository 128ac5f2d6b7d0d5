-- ===== src/Dhcps/Server/Full.antt =====
-- What a server without free entries does (dhcpRecv of apps/dhcps/dhcps.c over a run).
use picoos_lwip.Prelude.{◌≡◌, ◌≢◌, sym, ◌∙◌, ap, inl, inr, none, some, List, [], ◌∷◌, arith}
use picoos_lwip.Prelude.Bytes.{Bytes}
use picoos_lwip.Dhcps.Types.{Ip4, free_mac}
use picoos_lwip.Dhcps.Leases.{find_lease}
use picoos_lwip.Dhcps.Leases.Table.{free_entries, allocate_addr-full}
use picoos_lwip.Dhcps.Server.{run}
use picoos_lwip.Dhcps.Server.Outcomes.{Handled}
use picoos_lwip.Dhcps.Server.Effects.{Occurs, Handled-state}
use picoos_lwip.Dhcps.Server.Runs.{run-cons, run_granted}
use picoos_lwip.Dhcps.Server.Env.{Lwip, IsLwip, Netif, Event, static_arp, Server, Message}

module _ (w : Lwip) (netif : Netif) (lw : IsLwip w) where
  Handled-full :
      (m : Message) (s s' : Server) (ev : List Event)
      → Handled w netif m s s' ev
      → free_entries s.leases ≡ 0
      → s'.leases ≡ s.leases
  Handled-full m s s' ev h full = elim (Handled-state h) [
    | inl e ↦ ap (λ (t : Server). t.leases) e
    | inr (mac, ip, a) ↦ allocate_addr-full mac s.leases ip s'.leases full a.given
  ]

  run-full :
      (ms : List Message) (s : Server) {s' : Server} {ev : List Event}
      → run w netif ms s ≡ some (s', ev)
      → free_entries s.leases ≡ 0
      → s'.leases ≡ s.leases
  run-full [] s e full = unfold run in ground arith
  run-full (m ∷ ms) s e full =
      let (s1, ev1, ev2, h, ran, _) = run-cons w netif lw m ms s e in
      let same = Handled-full m s s1 ev1 h full in
      run-full ms s1 ran (ap free_entries same ∙ full) ∙ same

  -- No lease ends: where no entry is free, a client that is not in the table and whose hardware
  -- address is not zero is acknowledged no address in any run.
  pub run_never_frees :
      (ms : List Message) (s : Server) {s' : Server} {ev : List Event} (m : Bytes) (ip : Ip4)
      → run w netif ms s ≡ some (s', ev)
      → free_entries s.leases ≡ 0
      → m ≢ free_mac
      → find_lease m s.leases ≡ none
      → ¬ Occurs (static_arp ip m) ev
  run_never_frees ms s m ip e full hm new acked =
      let held = run_granted w netif lw ms s m ip e hm acked in
      let lost = sym (ap (find_lease m) (run-full ms s e full)) ∙ held in
      let z = sym new ∙ lost in cc
