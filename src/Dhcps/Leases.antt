-- ===== src/Dhcps/Leases.antt =====
-- The lease table: `leases` and allocateAddr of apps/dhcps/dhcps.c.
pub mod Table
pub mod Grants
use picoos_lwip.Prelude.{Option, none, some, List, [], ◌∷◌, if◌then◌else◌, ◌>>=◌, ℕ}
use picoos_lwip.Prelude.Bytes.{Bytes, bytes_eq}
use picoos_lwip.Dhcps.Types.{Ip4, free_mac}

abbrev pub max_leases : ℕ
max_leases = 3

pub record Lease : Type 0 where
  pub mac : Bytes
  pub ip : Ip4

abbrev pub Leases : Type 0
Leases = List Lease

-- The first loop: the address that the client has.
unfoldable pub find_lease : Bytes → Leases → Option Ip4
find_lease mac [] = none
find_lease mac (l ∷ ls) = if bytes_eq mac l.mac then some l.ip else find_lease mac ls

-- The second loop: the first free entry is given to the client.
unfoldable pub claim_lease : Bytes → Leases → Option (Ip4 × Leases)
claim_lease mac [] = none
claim_lease mac (l ∷ ls) =
    if bytes_eq l.mac free_mac
    then some (l.ip, record l { mac = mac } ∷ ls)
    else (do (ip, ls') ← claim_lease mac ls; some (ip, l ∷ ls'))

-- `none` is the result -1.
unfoldable pub allocate_addr : Bytes → Leases → Option (Ip4 × Leases)
unfolding find_lease claim_lease
allocate_addr mac ls = elim (find_lease mac ls) [
  | some ip ↦ some (ip, ls)
  | none ↦ claim_lease mac ls
]
