-- ===== src/Dhcps/Leases/Grants.antt =====
-- The lease table without its entries: who holds which address of a pool, and what allocateAddr of
-- apps/dhcps/dhcps.c does to that.
use picoos_lwip.Prelude.{
  ◌≡◌, ◌≢◌, refl, sym, subst, ap, ◌∙◌, ◌⊎◌, inl, inr, true, false, Option, none, some, List, [],
  ◌∷◌, arith, All, All-map, Bool-cases, Option-cases,
}
use picoos_lwip.Prelude.Bytes.{Bytes, bytes_eq, bytes_eq_refl, bytes_eq→≡}
use picoos_lwip.Dhcps.Types.{Ip4, free_mac}
use picoos_lwip.Dhcps.Leases.{Lease, Leases, find_lease, claim_lease, allocate_addr}
use picoos_lwip.Dhcps.Leases.Table.{
  Distinct, addresses, free_entries, bytes_eq-ne, claim_lease-cons_taken, find_lease-allocate_addr,
  addresses-allocate_addr, find_lease-injective, allocate_addr-none_iff, free_entries-allocate_addr,
}

abbrev pub In : Ip4 → List Ip4 → Type 0
In ip [] = ⊥
In ip (x ∷ xs) = (x ≡ ip) ⊎ In ip xs

-- The address of each client; that of the zero hardware address has no meaning.
abbrev pub Holds : Type 0
Holds = Bytes → Option Ip4

-- A client has or gets an address: it keeps the one that it has, or it gets one of the pool that no
-- client has. For all others nothing changes.
pub data Gets (pool : List Ip4) (g g' : Holds) (mac : Bytes) (ip : Ip4) : Type 0 where
  again : g mac ≡ some ip → ((m : Bytes) → m ≢ free_mac → g' m ≡ g m) → Gets pool g g' mac ip
  anew :
      g mac ≡ none
      → In ip pool
      → ((m : Bytes) → m ≢ free_mac → g m ≢ some ip)
      → g' mac ≡ some ip
      → ((m : Bytes) → m ≢ free_mac → m ≢ mac → g' m ≡ g m)
      → Gets pool g g' mac ip

-- Every address of the pool has a client.
abbrev pub IsExhausted : List Ip4 → Holds → Type 0
IsExhausted pool g = (ip : Ip4) → In ip pool → (m : Bytes) × (m ≢ free_mac) × (g m ≡ some ip)

abbrev pub holds : Leases → Holds
holds ls m = find_lease m ls

-- An entry is free, or its client is found with its address.
abbrev IsHeld : Leases → Lease → Type 0
IsHeld ls l = (l.mac ≡ free_mac) ⊎ (find_lease l.mac ls ≡ some l.ip)

abbrev pub IsTable : Leases → Type 0
IsTable ls = Distinct (addresses ls) × All (IsHeld ls) ls

find_lease-In :
    (m : Bytes) (ls : Leases) (ip : Ip4) → find_lease m ls ≡ some ip → In ip (addresses ls)
unfolding find_lease
find_lease-In m [] ip e = cc
find_lease-In m (l ∷ ls) ip e = elim (Bool-cases (bytes_eq m l.mac)) [
  | inl here ↦ inl (ground arith)
  | inr there ↦ inr (find_lease-In m ls ip (ground arith))
]

claim_lease-In :
    (mac : Bytes) (ls : Leases) (ip : Ip4) (ls' : Leases)
    → claim_lease mac ls ≡ some (ip, ls')
    → In ip (addresses ls)
claim_lease-In mac [] ip ls' e = unfold claim_lease in cc
claim_lease-In mac (l ∷ ls) ip ls' e = elim (Bool-cases (bytes_eq l.mac free_mac)) [
  | inl free ↦ inl (unfold claim_lease in ground arith)
  | inr taken ↦
      let (t, k, out) = claim_lease-cons_taken mac l ls ip ls' taken e in
      inr (claim_lease-In mac ls ip t k)
]

-- Only addresses of the table are given.
pub allocate_addr-In :
    (mac : Bytes) (ls : Leases) (ip : Ip4) (ls' : Leases)
    → allocate_addr mac ls ≡ some (ip, ls')
    → In ip (addresses ls)
unfolding allocate_addr
allocate_addr-In mac ls ip ls' e = elim (Option-cases (find_lease mac ls)) [
  | inl new ↦ claim_lease-In mac ls ip ls' (ground arith)
  | inr (ip', old) ↦ find_lease-In mac ls ip (ground arith)
]

bytes_eq→≢ : (a b : Bytes) → bytes_eq a b ≡ false → a ≢ b
bytes_eq→≢ a b h e = let z : bytes_eq a b ≡ true = rw e (bytes_eq_refl b) in cc

IsHeld-IsExhausted :
    (ls xs : Leases)
    → All (IsHeld ls) xs
    → free_entries xs ≡ 0
    → IsExhausted (addresses xs) (holds ls)
IsHeld-IsExhausted ls [] held full ip h = elim h [ ]
IsHeld-IsExhausted ls (x ∷ xs) (held, rest) full ip (inr h) =
    IsHeld-IsExhausted ls xs rest (omega arith) ip h
IsHeld-IsExhausted ls (x ∷ xs) (held, rest) full ip (inl e) = elim held [
  | inl z ↦ absurd (let b : bytes_eq x.mac free_mac ≡ true = rw z refl in ground arith)
  | inr found ↦ elim (Bool-cases (bytes_eq x.mac free_mac)) [
    | inl free ↦ absurd (ground arith)
    | inr taken ↦ (x.mac, bytes_eq→≢ x.mac free_mac taken, found ∙ ap some e)
  ]
]

claim_lease-All :
    (P : Lease → Type 0) (mac : Bytes) (ls : Leases) (ip : Ip4) (ls' : Leases)
    → All P ls
    → P (record { mac = mac; ip = ip })
    → claim_lease mac ls ≡ some (ip, ls')
    → All P ls'
unfolding claim_lease
claim_lease-All P mac [] ip ls' h new e = cc
claim_lease-All P mac (l ∷ ls) ip ls' (h, rest) new e =
    elim (Bool-cases (bytes_eq l.mac free_mac)) [
      | inl free ↦
          let same : l.ip ≡ ip = ground arith in
          let out : ls' ≡ record { mac = mac; ip = l.ip } ∷ ls = ground arith in
          subst (All P) (sym out)
            (subst (λ (i : Ip4). P (record { mac = mac; ip = i })) (sym same) new, rest)
      | inr taken ↦
          let (t, k, out) = claim_lease-cons_taken mac l ls ip ls' taken e in
          subst (All P) (sym out) (h, claim_lease-All P mac ls ip t rest new k)
    ]

module _ (mac : Bytes) (ls : Leases) (real : mac ≢ free_mac) where
  pub allocate_addr-IsExhausted :
      IsTable ls
      → allocate_addr mac ls ≡ none
      → (find_lease mac ls ≡ none) × IsExhausted (addresses ls) (holds ls)
  allocate_addr-IsExhausted (_, held) e =
      let (new, full) = (allocate_addr-none_iff mac ls).0 e in
      (new, IsHeld-IsExhausted ls ls held full)

  module _ (ip : Ip4) (ls' : Leases) (given : allocate_addr mac ls ≡ some (ip, ls')) where
    given_found : find_lease mac ls' ≡ some ip
    given_found =
        find_lease-allocate_addr mac mac ls ip ls' real given ∙ rw (bytes_eq_refl mac) refl

    others_kept : (m : Bytes) → m ≢ free_mac → m ≢ mac → find_lease m ls' ≡ find_lease m ls
    others_kept m hm ne =
        find_lease-allocate_addr m mac ls ip ls' hm given ∙ rw (bytes_eq-ne m mac ne) refl

    unheld :
        Distinct (addresses ls)
        → find_lease mac ls ≡ none
        → (m : Bytes) → m ≢ free_mac
        → find_lease m ls ≢ some ip
    unheld distinct new m hm theirs = elim (Bool-cases (bytes_eq m mac)) [
      | inl e ↦
          let own = ap (λ (x : Bytes). find_lease x ls) (bytes_eq→≡ m mac e) in
          let z = sym theirs ∙ own ∙ new in cc
      | inr ne ↦
          let other = bytes_eq→≢ m mac ne in
          other (
            find_lease-injective m mac ls' ip
              (subst Distinct (sym (addresses-allocate_addr mac ls ip ls' given)) distinct)
              (others_kept m hm other ∙ theirs) given_found)
    ]

    allocate_addr-IsHeld : find_lease mac ls ≡ none → (l : Lease) → IsHeld ls l → IsHeld ls' l
    allocate_addr-IsHeld new l (inl z) = inl z
    allocate_addr-IsHeld new l (inr e) = elim (Bool-cases (bytes_eq l.mac free_mac)) [
      | inl free ↦ inl (bytes_eq→≡ l.mac free_mac free)
      | inr taken ↦ elim (Bool-cases (bytes_eq l.mac mac)) [
        | inl own ↦
            let z = sym e ∙ ap (λ (x : Bytes). find_lease x ls) (bytes_eq→≡ l.mac mac own) ∙ new in
            absurd (ground arith)
        | inr ne ↦
            inr (others_kept l.mac (bytes_eq→≢ l.mac free_mac taken) (bytes_eq→≢ l.mac mac ne) ∙ e)
      ]
    ]

    pub allocate_addr-Gets : IsTable ls → Gets (addresses ls) (holds ls) (holds ls') mac ip
    allocate_addr-Gets (distinct, held) =
        elim (free_entries-allocate_addr mac ls ip ls' real given) [
          | inr (old, same) ↦ again old (λ m hm. ap (find_lease m) same)
          | inl (new, _) ↦
              let as_before = addresses-allocate_addr mac ls ip ls' given in
              anew new (subst (In ip) as_before (find_lease-In mac ls' ip given_found))
                (unheld distinct new) given_found others_kept
        ]

    pub allocate_addr-IsTable : IsTable ls → IsTable ls'
    allocate_addr-IsTable (distinct, held) = (
      subst Distinct (sym (addresses-allocate_addr mac ls ip ls' given)) distinct,
      elim (free_entries-allocate_addr mac ls ip ls' real given) [
        | inr (old, same) ↦ subst (λ (t : Leases). All (IsHeld t) t) (sym same) held
        | inl (new, _) ↦
            claim_lease-All (IsHeld ls') mac ls ip ls' (All-map (allocate_addr-IsHeld new) ls held)
              (inr given_found) (unfold allocate_addr in ground arith)
      ],
    )
