-- ===== src/Dhcps/Server/Effects.antt =====
-- What the outcomes of a message do to the lease table, and which calls they make (dhcpRecv of
-- apps/dhcps/dhcps.c).
use picoos_lwip.Prelude.{
  ℕ, ◌+◌, ◌≡◌, ◌≢◌, refl, sym, ap, ◌∙◌, subst, ◌⊎◌, inl, inr, true, some, List, [], ◌∷◌, ◌++◌,
  arith,
}
use picoos_lwip.Prelude.Bytes.{Bytes, bytes_eq, bytes_eq→≡, bytes_eq_refl}
use picoos_lwip.Dhcps.Types.{Ip4, free_mac}
use picoos_lwip.Dhcps.Leases.{Leases, find_lease, allocate_addr}
use picoos_lwip.Dhcps.Leases.Table.{addresses, find_lease-allocate_addr, addresses-allocate_addr}
use picoos_lwip.Dhcps.Server.Outcomes.{
  Allocated, Handled, silent, unanswered, offered, acknowledged, refused,
}
use picoos_lwip.Dhcps.Server.Env.{
  Lwip, Netif, Event, alloc_resp, free_resp, free_req, static_arp, Server, Message,
}

-- A call is among those of a run.
abbrev pub Occurs : Event → List Event → Type 0
Occurs e [] = ⊥
Occurs e (x ∷ xs) = (x ≡ e) ⊎ Occurs e xs

pub Occurs-append :
    (e : Event) (xs ys : List Event) → Occurs e (xs ++ ys) → Occurs e xs ⊎ Occurs e ys
Occurs-append e [] ys h = inr h
Occurs-append e (x ∷ xs) ys (inl h) = inl (inl h)
Occurs-append e (x ∷ xs) ys (inr h) = elim (Occurs-append e xs ys h) [
  | inl left ↦ inl (inr left)
  | inr right ↦ inr right
]

pub Occurs-left : (e : Event) (xs ys : List Event) → Occurs e xs → Occurs e (xs ++ ys)
Occurs-left e [] ys h = elim h [ ]
Occurs-left e (x ∷ xs) ys (inl h) = inl h
Occurs-left e (x ∷ xs) ys (inr h) = inr (Occurs-left e xs ys h)

-- A client that has an address keeps it whoever asks.
find_lease_kept :
    (m mac : Bytes) (ls ls' : Leases) (ip ip' : Ip4)
    → m ≢ free_mac
    → allocate_addr mac ls ≡ some (ip', ls')
    → find_lease m ls ≡ some ip
    → find_lease m ls' ≡ some ip
find_lease_kept m mac ls ls' ip ip' hm given held =
    ground (arith, find_lease-allocate_addr m mac ls ip' ls' hm given, same)
  where
    same : bytes_eq m mac ≡ true → ip' ≡ ip
    same e =
        let held' : find_lease mac ls ≡ some ip =
          subst (λ x. find_lease x ls ≡ some ip) (bytes_eq→≡ m mac e) held in
        unfold allocate_addr in ground arith

abbrev pub allocs : List Event → ℕ
allocs [] = 0
allocs (e ∷ es) = elim e [ alloc_resp ↦ 1 + allocs es | _ ↦ allocs es ]

abbrev pub frees : List Event → ℕ
frees [] = 0
frees (e ∷ es) = elim e [ free_resp ↦ 1 + frees es | _ ↦ frees es ]

abbrev pub requests_freed : List Event → ℕ
requests_freed [] = 0
requests_freed (e ∷ es) = elim e [ free_req ↦ 1 + requests_freed es | _ ↦ requests_freed es ]

module _ {w : Lwip} {netif : Netif} {msg : Message} {s s' : Server} {ev : List Event} where
  -- A message changes nothing of the state, or it allocates an address.
  pub Handled-state :
      Handled w netif msg s s' ev
      → (s' ≡ s) ⊎ ((mac : Bytes) × (ip : Ip4) × Allocated w msg s s' mac ip)
  Handled-state (silent e _ _) = inl e
  Handled-state (unanswered mac ip a _) = inr (mac, ip, a)
  Handled-state (offered mac ip rp _ a _ _) = inr (mac, ip, a)
  Handled-state (acknowledged mac ip rp _ a _ _ _) = inr (mac, ip, a)
  Handled-state (refused mac ip req rp _ a _ _ _ _) = inr (mac, ip, a)

  pub Handled-addresses : Handled w netif msg s s' ev → addresses s'.leases ≡ addresses s.leases
  Handled-addresses h = elim (Handled-state h) [
    | inl e ↦ ap (λ (t : Server). addresses t.leases) e
    | inr (mac, ip, a) ↦ addresses-allocate_addr mac s.leases ip s'.leases a.given
  ]

  pub Handled-kept :
      Handled w netif msg s s' ev
      → (m : Bytes) (ip : Ip4) → m ≢ free_mac
      → find_lease m s.leases ≡ some ip
      → find_lease m s'.leases ≡ some ip
  Handled-kept h m ip hm held = elim (Handled-state h) [
    | inl e ↦ subst (λ (t : Server). find_lease m t.leases ≡ some ip) (sym e) held
    | inr (mac, ip', a) ↦ find_lease_kept m mac s.leases s'.leases ip ip' hm a.given held
  ]

  -- A static ARP entry is made for a client that the table has with that address.
  pub Handled-granted :
      Handled w netif msg s s' ev
      → (m : Bytes) (ip : Ip4) → m ≢ free_mac
      → Occurs (static_arp ip m) ev
      → find_lease m s'.leases ≡ some ip
  Handled-granted (silent _ e _) m ip hm h = absurd (ground arith)
  Handled-granted (unanswered mac ip' a e) m ip hm h = absurd (ground arith)
  Handled-granted (offered mac ip' rp _ a _ e) m ip hm h = absurd (ground arith)
  Handled-granted (acknowledged mac ip' rp _ a _ _ e) m ip hm h =
      let same_mac : m ≡ mac = ground arith in
      let same_ip : ip' ≡ ip = ground arith in
      find_lease-allocate_addr m mac s.leases ip' s'.leases hm a.given
      ∙ rw (same_mac, bytes_eq_refl mac) (ap some same_ip)
  Handled-granted (refused mac ip' req rp _ a _ _ _ e) m ip hm h = absurd (ground arith)

  -- Each response that a message allocates is freed with it, and the request is not freed before.
  pub Handled-balanced :
      Handled w netif msg s s' ev → (allocs ev ≡ frees ev) × (requests_freed ev ≡ 0)
  Handled-balanced (silent _ e _) = rw e (refl, refl)
  Handled-balanced (unanswered mac ip a (inl (_, e))) = rw e (refl, refl)
  Handled-balanced (unanswered mac ip a (inr (_, _, _, e))) = rw e (refl, refl)
  Handled-balanced (offered mac ip rp _ a _ e) = rw e (refl, refl)
  Handled-balanced (acknowledged mac ip rp _ a _ _ e) = rw e (refl, refl)
  Handled-balanced (refused mac ip req rp _ a _ _ _ e) = rw e (refl, refl)

pub allocs-append : (xs ys : List Event) → allocs (xs ++ ys) ≡ allocs xs + allocs ys
allocs-append [] ys = omega arith
allocs-append (x ∷ xs) ys = ground (arith, allocs-append xs ys)

pub frees-append : (xs ys : List Event) → frees (xs ++ ys) ≡ frees xs + frees ys
frees-append [] ys = omega arith
frees-append (x ∷ xs) ys = ground (arith, frees-append xs ys)

pub requests_freed-append :
    (xs ys : List Event) → requests_freed (xs ++ ys) ≡ requests_freed xs + requests_freed ys
requests_freed-append [] ys = omega arith
requests_freed-append (x ∷ xs) ys = ground (arith, requests_freed-append xs ys)
