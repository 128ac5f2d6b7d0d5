-- ===== src/Dhcps/Leases/Table.antt =====
-- The lease table as a map from hardware addresses to addresses (allocateAddr of
-- apps/dhcps/dhcps.c).
use picoos_lwip.Prelude.{
  ℕ, ◌+◌, ◌≡◌, ◌≢◌, refl, subst, ap, ◌↔◌, ◌⊎◌, inl, inr, true, false, none, some, List, [], ◌∷◌,
  map, arith, if◌then◌else◌, >>=-eq-some, All, Bool-cases, Option-cases,
}
use picoos_lwip.Prelude.Bytes.{Bytes, bytes_eq, bytes_eq_refl, bytes_eq→≡}
use picoos_lwip.Dhcps.Types.{Ip4, free_mac}
use picoos_lwip.Dhcps.Leases.{Lease, Leases, find_lease, claim_lease, allocate_addr}

-- No address stands twice.
abbrev pub Distinct : List Ip4 → Type 0
Distinct [] = Unit
Distinct (x ∷ xs) = All (λ y. y ≢ x) xs × Distinct xs

abbrev pub addresses : Leases → List Ip4
addresses ls = map (λ (l : Lease). l.ip) ls

-- The entries that no client holds.
abbrev pub free_entries : Leases → ℕ
free_entries [] = 0
free_entries (l ∷ ls) = (if bytes_eq l.mac free_mac then 1 else 0) + free_entries ls

pub bytes_eq-ne : (a b : Bytes) → a ≢ b → bytes_eq a b ≡ false
bytes_eq-ne a b h = elim (Bool-cases (bytes_eq a b)) [
  | inl e ↦ absurd (h (bytes_eq→≡ a b e))
  | inr e ↦ e
]

pub claim_lease-cons_taken :
    (mac : Bytes) (l : Lease) (ls : Leases) (ip : Ip4) (ls' : Leases)
    → bytes_eq l.mac free_mac ≡ false
    → claim_lease mac (l ∷ ls) ≡ some (ip, ls')
    → (t : Leases) × (claim_lease mac ls ≡ some (ip, t)) × (ls' ≡ l ∷ t)
unfolding claim_lease
claim_lease-cons_taken mac l ls ip ls' taken h =
    let ((ip', t), e, k) = >>=-eq-some (claim_lease mac ls) _ (rw taken at h) in
    (t, ground arith, ground arith)

-- What a claim leaves: the entry that it took, in terms of the lookups.
find_lease-claim_lease :
    (m mac : Bytes) (ls : Leases) (ip : Ip4) (ls' : Leases)
    → m ≢ free_mac
    → find_lease mac ls ≡ none
    → claim_lease mac ls ≡ some (ip, ls')
    → find_lease m ls' ≡ (if bytes_eq m mac then some ip else find_lease m ls)
unfolding find_lease
find_lease-claim_lease m mac [] ip ls' hm hf h = unfold claim_lease in cc
find_lease-claim_lease m mac (l ∷ ls) ip ls' hm hf h = elim (Bool-cases (bytes_eq l.mac free_mac)) [
  | inl free ↦
      let e : bytes_eq m l.mac ≡ false =
        rw (bytes_eq→≡ l.mac free_mac free) (bytes_eq-ne m free_mac hm) in
      unfold claim_lease in ground arith
  | inr taken ↦
      let (t, k, e) = claim_lease-cons_taken mac l ls ip ls' taken h in
      ground (
        arith,
        find_lease-claim_lease m mac ls ip t hm,
        bytes_eq→≡ m mac,
        bytes_eq→≡ m l.mac,
        bytes_eq_refl m,
      )
]

-- The table after a client has got an address: the client is found with that address, and every
-- other client as before. The client that is looked up does not have the zero address, which marks
-- free entries.
pub find_lease-allocate_addr :
    (m mac : Bytes) (ls : Leases) (ip : Ip4) (ls' : Leases)
    → m ≢ free_mac
    → allocate_addr mac ls ≡ some (ip, ls')
    → find_lease m ls' ≡ (if bytes_eq m mac then some ip else find_lease m ls)
unfolding allocate_addr
find_lease-allocate_addr m mac ls ip ls' hm h = elim (Option-cases (find_lease mac ls)) [
  | inl new ↦ find_lease-claim_lease m mac ls ip ls' hm new (ground arith)
  | inr (ip', old) ↦ ground (arith, bytes_eq→≡ m mac)
]

addresses-claim_lease :
    (mac : Bytes) (ls : Leases) (ip : Ip4) (ls' : Leases)
    → claim_lease mac ls ≡ some (ip, ls')
    → addresses ls' ≡ addresses ls
addresses-claim_lease mac [] ip ls' h = unfold claim_lease in cc
addresses-claim_lease mac (l ∷ ls) ip ls' h = elim (Bool-cases (bytes_eq l.mac free_mac)) [
  | inl free ↦ unfold claim_lease in ground arith
  | inr taken ↦
      let (t, k, e) = claim_lease-cons_taken mac l ls ip ls' taken h in
      rw e (ap (λ xs. l.ip ∷ xs) (addresses-claim_lease mac ls ip t k))
]

-- No allocation adds, drops or changes an address of the table.
pub addresses-allocate_addr :
    (mac : Bytes) (ls : Leases) (ip : Ip4) (ls' : Leases)
    → allocate_addr mac ls ≡ some (ip, ls')
    → addresses ls' ≡ addresses ls
unfolding allocate_addr
addresses-allocate_addr mac ls ip ls' h = elim (Option-cases (find_lease mac ls)) [
  | inl new ↦ addresses-claim_lease mac ls ip ls' (ground arith)
  | inr (ip', old) ↦ ground arith
]

pub find_lease-ne :
    (m : Bytes) (ls : Leases) (ip : Ip4)
    → All (λ y. y ≢ ip) (addresses ls)
    → find_lease m ls ≢ some ip
unfolding find_lease
find_lease-ne m [] ip h = λ e. cc
find_lease-ne m (l ∷ ls) ip h = ground (arith, find_lease-ne m ls ip h.1)

-- Where no address stands twice in the table, an address is held by one client at most.
pub find_lease-injective :
    (m n : Bytes) (ls : Leases) (ip : Ip4)
    → Distinct (addresses ls)
    → find_lease m ls ≡ some ip
    → find_lease n ls ≡ some ip
    → m ≡ n
unfolding find_lease
find_lease-injective m n [] ip d hm hn = cc
find_lease-injective m n (l ∷ ls) ip d hm hn = ground (
  arith,
  bytes_eq→≡ m l.mac,
  bytes_eq→≡ n l.mac,
  find_lease-ne m ls l.ip d.0,
  find_lease-ne n ls l.ip d.0,
  find_lease-injective m n ls ip d.1,
)

claim_lease-none_iff :
    (mac : Bytes) (ls : Leases) → (claim_lease mac ls ≡ none) ↔ (free_entries ls ≡ 0)
unfolding claim_lease
claim_lease-none_iff mac [] = (λ h. refl, λ h. refl)
claim_lease-none_iff mac (l ∷ ls) =
    ground (arith, claim_lease-none_iff mac ls, Option-cases (claim_lease mac ls))

-- An allocation is refused exactly when the client is not in the table and no entry is free.
pub allocate_addr-none_iff :
    (mac : Bytes) (ls : Leases)
    → (allocate_addr mac ls ≡ none) ↔ ((find_lease mac ls ≡ none) × (free_entries ls ≡ 0))
unfolding allocate_addr
allocate_addr-none_iff mac ls =
    ground (arith, claim_lease-none_iff mac ls, Option-cases (find_lease mac ls))

-- Where no entry is free, an allocation leaves the table as it is.
pub allocate_addr-full :
    (mac : Bytes) (ls : Leases) (ip : Ip4) (ls' : Leases)
    → free_entries ls ≡ 0
    → allocate_addr mac ls ≡ some (ip, ls')
    → ls' ≡ ls
unfolding allocate_addr
allocate_addr-full mac ls ip ls' full h = elim (Option-cases (find_lease mac ls)) [
  | inl new ↦ absurd (ground (arith, allocate_addr-none_iff mac ls))
  | inr (ip', old) ↦ ground arith
]

free_entries-claim_lease :
    (mac : Bytes) (ls : Leases) (ip : Ip4) (ls' : Leases)
    → mac ≢ free_mac
    → claim_lease mac ls ≡ some (ip, ls')
    → free_entries ls' + 1 ≡ free_entries ls
free_entries-claim_lease mac [] ip ls' hm h = unfold claim_lease in cc
free_entries-claim_lease mac (l ∷ ls) ip ls' hm h = elim (Bool-cases (bytes_eq l.mac free_mac)) [
  | inl free ↦ unfold claim_lease in ground (arith, bytes_eq-ne mac free_mac hm)
  | inr taken ↦
      let (t, k, e) = claim_lease-cons_taken mac l ls ip ls' taken h in
      ground (arith, free_entries-claim_lease mac ls ip t hm k)
]

-- A new client takes one free entry, and a client that is in the table changes nothing; the
-- client's hardware address is not zero.
pub free_entries-allocate_addr :
    (mac : Bytes) (ls : Leases) (ip : Ip4) (ls' : Leases)
    → mac ≢ free_mac
    → allocate_addr mac ls ≡ some (ip, ls')
    → (find_lease mac ls ≡ none) × (free_entries ls' + 1 ≡ free_entries ls)
      ⊎ (find_lease mac ls ≡ some ip) × (ls' ≡ ls)
unfolding allocate_addr
free_entries-allocate_addr mac ls ip ls' hm h = elim (Option-cases (find_lease mac ls)) [
  | inl new ↦ inl (new, free_entries-claim_lease mac ls ip ls' hm (ground arith))
  | inr (ip', old) ↦ inr (ground arith)
]

find_lease-free_mac :
    (mac : Bytes) (ls : Leases) (ip ip' : Ip4) (ls' : Leases)
    → find_lease free_mac ls ≡ some ip
    → claim_lease mac ls ≡ some (ip', ls')
    → ip' ≡ ip
find_lease-free_mac mac [] ip ip' ls' hf h = unfold claim_lease in cc
find_lease-free_mac mac (l ∷ ls) ip ip' ls' hf h = elim (Bool-cases (bytes_eq l.mac free_mac)) [
  | inl free ↦
      unfold find_lease claim_lease in
      let e : bytes_eq free_mac l.mac ≡ true = rw (bytes_eq→≡ l.mac free_mac free) in ground arith
  | inr taken ↦
      let ne : free_mac ≢ l.mac = λ e.
        let same : bytes_eq l.mac free_mac ≡ true =
          subst (λ x. bytes_eq x free_mac ≡ true) e (bytes_eq_refl free_mac) in
        cc in
      let (t, k, e) = claim_lease-cons_taken mac l ls ip' ls' taken h in
      find_lease-free_mac mac ls ip ip' t
        (unfold find_lease in rw (bytes_eq-ne free_mac l.mac ne) at hf) k
]

-- With a free entry left, a client whose hardware address is zero gets the address of the first free entry and leaves the
-- table as it is, so the next new client gets the same address.
pub allocate_addr-free_mac :
    (mac : Bytes) (ls : Leases) (ip ip' : Ip4) (ls' : Leases)
    → find_lease free_mac ls ≡ some ip
    → find_lease mac ls ≡ none
    → allocate_addr mac ls ≡ some (ip', ls')
    → (allocate_addr free_mac ls ≡ some (ip, ls)) × (ip' ≡ ip)
unfolding allocate_addr
allocate_addr-free_mac mac ls ip ip' ls' zero_free new h =
    (rw (zero_free, allocate_addr), find_lease-free_mac mac ls ip ip' ls' zero_free (ground arith))
