-- ===== src/Dhcps/Server/Taken.antt =====
-- What an answer costs: the entry that the handlers allocate before they compare the requested
-- address (handleRequest of apps/dhcps/dhcps.c).
use picoos_lwip.Prelude.{
  ℕ, ◌+◌, ◌≡◌, ◌≢◌, refl, ◌∙◌, inl, inr, Option, none, some, List, [], ◌∷◌, arith, subst,
}
use picoos_lwip.Prelude.Bytes.{Bytes, bytes_eq_refl, load_bytes}
use picoos_lwip.Dhcps.Types.{Ip4, free_mac}
use picoos_lwip.Dhcps.Leases.{find_lease, allocate_addr}
use picoos_lwip.Dhcps.Leases.Table.{
  free_entries, find_lease-allocate_addr, free_entries-allocate_addr,
}
use picoos_lwip.Dhcps.Server.{dhcp_recv}
use picoos_lwip.Dhcps.Server.Outcomes.{
  Allocated, Handled, silent, unanswered, offered, acknowledged, refused,
}
use picoos_lwip.Dhcps.Server.Received.{dhcp_recv_outcome}
use picoos_lwip.Dhcps.Server.Effects.{Occurs, Occurs-append}
use picoos_lwip.Dhcps.Server.Env.{Lwip, IsLwip, Netif, Event, Dest, send, free_req, Server, Message}

Handled-Allocated :
    {w : Lwip} {netif : Netif} {m : Message} {s s' : Server} {ev : List Event}
    → Handled w netif m s s' ev
    → (pcb : Option ℕ) (out : Bytes) (dest : Dest) (port : ℕ) → Occurs (send pcb out dest port) ev
    → (mac : Bytes) × (ip : Ip4) × Allocated w m s s' mac ip
Handled-Allocated (silent _ e _) pcb out dest port h = absurd (ground arith)
Handled-Allocated (unanswered mac ip a e) pcb out dest port h = absurd (ground arith)
Handled-Allocated (offered mac ip _ _ a _ _) pcb out dest port h = (mac, ip, a)
Handled-Allocated (acknowledged mac ip _ _ a _ _ _) pcb out dest port h = (mac, ip, a)
Handled-Allocated (refused mac ip _ _ _ a _ _ _ _) pcb out dest port h = (mac, ip, a)

-- Whatever a new client is sent, a refusal too, costs an entry: if its message is handled without a
-- fault and something is sent for it, and its hardware address is not zero and not in the table, it
-- has an entry from then on, and one entry fewer is free.
pub answered_takes :
    (w : Lwip) (netif : Netif) (lw : IsLwip w) (m : Message) (s : Server) (mac : Bytes)
    (pcb : Option ℕ) (out : Bytes) (dest : Dest) (port : ℕ) {s' : Server} {ev : List Event}
    → dhcp_recv w netif m s ≡ some (s', ev)
    → load_bytes w.layout.chaddr 6 m.payload ≡ some mac
    → mac ≢ free_mac
    → find_lease mac s.leases ≡ none
    → Occurs (send pcb out dest port) ev
    → (ip : Ip4) × (find_lease mac s'.leases ≡ some ip)
      × (free_entries s.leases ≡ free_entries s'.leases + 1)
answered_takes w netif lw m s mac pcb out dest port {s'} {ev} e client real new here =
    let (ev1, split, handled) = dhcp_recv_outcome w netif lw m s e in
    elim (Occurs-append (send pcb out dest port) ev1 (free_req ∷ [])
      (subst (Occurs (send pcb out dest port)) split here)) [
        | inr other ↦ absurd (ground arith)
        | inl sent ↦
            let (mac', ip, a) = Handled-Allocated handled pcb out dest port sent in
            let same : mac' ≡ mac = ground (arith, a.client) in
            let given =
              subst (λ (x : Bytes). allocate_addr x s.leases ≡ some (ip, s'.leases)) same a.given in
            (
              ip,
              find_lease-allocate_addr mac mac s.leases ip s'.leases real given
                  ∙ rw (bytes_eq_refl mac) refl,
              elim (free_entries-allocate_addr mac s.leases ip s'.leases real given) [
                | inl (_, took) ↦ omega (arith, took)
                | inr (old, _) ↦ absurd (ground arith)
              ],
            )
      ]
