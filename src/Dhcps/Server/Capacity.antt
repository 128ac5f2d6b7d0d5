-- ===== src/Dhcps/Server/Capacity.antt =====
-- The room in the lease table for a number of clients (allocateAddr of apps/dhcps/dhcps.c).
use picoos_lwip.Prelude.{
  ℕ, ◌+◌, ◌≤◌, ◌<◌, ◌≡◌, ◌≢◌, refl, sym, subst, ◌⊎◌, inl, inr, true, none, some, List, [], ◌∷◌,
  arith, length, All, Option-cases, Bool-cases,
}
use picoos_lwip.Prelude.Bytes.{Bytes, bytes_eq, bytes_eq→≡, bytes_eq_refl}
use picoos_lwip.Dhcps.Types.{Ip4, free_mac}
use picoos_lwip.Dhcps.Leases.{Leases, find_lease, allocate_addr}
use picoos_lwip.Dhcps.Leases.Table.{
  bytes_eq-ne, free_entries, free_entries-allocate_addr, find_lease-allocate_addr,
  allocate_addr-none_iff,
}

abbrev pub Member : Bytes → List Bytes → Type 0
Member m [] = ⊥
Member m (c ∷ cs) = (c ≡ m) ⊎ Member m cs

-- Hardware addresses of different clients, none of them zero.
abbrev pub IsCrew : List Bytes → Type 0
IsCrew [] = Unit
IsCrew (c ∷ cs) = (c ≢ free_mac) × All (λ d. d ≢ c) cs × IsCrew cs

-- How many of the clients have no entry.
abbrev pub unserved : List Bytes → Leases → ℕ
unserved [] ls = 0
unserved (c ∷ cs) ls = elim (find_lease c ls) [ none ↦ 1 | some _ ↦ 0 ] + unserved cs ls

pub Member-ne : (m : Bytes) (cs : List Bytes) → IsCrew cs → Member m cs → m ≢ free_mac
Member-ne m [] k h = elim h [ ]
Member-ne m (c ∷ cs) k (inl e) = subst (λ (x : Bytes). x ≢ free_mac) e k.0
Member-ne m (c ∷ cs) k (inr h) = Member-ne m cs k.2 h

All-Member : (P : Bytes → Type 0) (m : Bytes) (cs : List Bytes) → All P cs → Member m cs → P m
All-Member P m [] a h = elim h [ ]
All-Member P m (c ∷ cs) a (inl e) = subst P e a.0
All-Member P m (c ∷ cs) a (inr h) = All-Member P m cs a.1 h

pub unserved-le : (cs : List Bytes) (ls : Leases) → unserved cs ls ≤ length cs
unserved-le [] ls = omega arith
unserved-le (c ∷ cs) ls = ground (arith, unserved-le cs ls)

-- An allocation for a client that is not among them changes nothing for them.
unserved-others :
    (cs : List Bytes) (mac : Bytes) (ls ls' : Leases) (ip : Ip4)
    → IsCrew cs
    → All (λ d. d ≢ mac) cs
    → allocate_addr mac ls ≡ some (ip, ls')
    → unserved cs ls' ≡ unserved cs ls
unserved-others [] mac ls ls' ip k others given = refl
unserved-others (c ∷ cs) mac ls ls' ip k others given =
    let e = find_lease-allocate_addr c mac ls ip ls' k.0 given in
    let ne = bytes_eq-ne c mac others.0 in
    rw (e, ne, unserved-others cs mac ls ls' ip k.2 others.1 given)

-- One for a new client among them serves that client.
unserved-new :
    (cs : List Bytes) (mac : Bytes) (ls ls' : Leases) (ip : Ip4)
    → IsCrew cs
    → Member mac cs
    → find_lease mac ls ≡ none
    → allocate_addr mac ls ≡ some (ip, ls')
    → unserved cs ls' + 1 ≡ unserved cs ls
unserved-new [] mac ls ls' ip k h new given = elim h [ ]
unserved-new (c ∷ cs) mac ls ls' ip k (inl e) new given =
    let others = subst (λ (x : Bytes). All (λ d. d ≢ x) cs) e k.1 in
    let rest = unserved-others cs mac ls ls' ip k.2 others given in
    let served = find_lease-allocate_addr c mac ls ip ls' k.0 given in
    let same : bytes_eq c mac ≡ true = rw e (bytes_eq_refl mac) in
    let was : find_lease c ls ≡ none = rw e new in rw (served, same, was) (omega (arith, rest))
unserved-new (c ∷ cs) mac ls ls' ip k (inr h) new given = elim (Bool-cases (bytes_eq c mac)) [
  | inl e ↦ absurd (All-Member (λ d. d ≢ c) mac cs k.1 h (sym (bytes_eq→≡ c mac e)))
  | inr e ↦
      let kept = find_lease-allocate_addr c mac ls ip ls' k.0 given in
      rw (kept, e) (omega (arith, unserved-new cs mac ls ls' ip k.2 h new given))
]

-- There are entries for all that have none.
abbrev pub HasRoom : List Bytes → Leases → Type 0
HasRoom cs ls = unserved cs ls ≤ free_entries ls

pub allocate_addr-HasRoom :
    (cs : List Bytes) (mac : Bytes) (ls ls' : Leases) (ip : Ip4)
    → IsCrew cs
    → Member mac cs
    → allocate_addr mac ls ≡ some (ip, ls')
    → HasRoom cs ls
    → HasRoom cs ls'
allocate_addr-HasRoom cs mac ls ls' ip k h given room =
    elim (free_entries-allocate_addr mac ls ip ls' (Member-ne mac cs k h) given) [
      | inl (new, took) ↦ omega (arith, unserved-new cs mac ls ls' ip k h new given)
      | inr (_, same) ↦ rw same room
    ]

unserved_pos :
    (cs : List Bytes) (mac : Bytes) (ls : Leases)
    → Member mac cs
    → find_lease mac ls ≡ none
    → 0 < unserved cs ls
unserved_pos [] mac ls h new = elim h [ ]
unserved_pos (c ∷ cs) mac ls (inl e) new =
    let z : find_lease c ls ≡ none = rw e new in rw z (omega arith)
unserved_pos (c ∷ cs) mac ls (inr h) new = omega (arith, unserved_pos cs mac ls h new)

pub allocate_addr_total :
    (cs : List Bytes) (mac : Bytes) (ls : Leases)
    → Member mac cs
    → HasRoom cs ls
    → (ip : Ip4) × (ls' : Leases) × (allocate_addr mac ls ≡ some (ip, ls'))
allocate_addr_total cs mac ls h room = elim (Option-cases (allocate_addr mac ls)) [
  | inl e ↦
      let (new, full) = (allocate_addr-none_iff mac ls).0 e in
      absurd (omega (arith, unserved_pos cs mac ls h new))
  | inr ((ip, ls'), e) ↦ (ip, ls', e)
]
