-- ===== src/Dhcps/PartTests.antt =====
-- The theorems on the options and the lease table of apps/dhcps/dhcps.c at small inputs.
use picoos_lwip.Prelude.{
  ℕ, zero, suc, ◌≤◌, ◌≡◌, ◌≢◌, refl, Option, some, List, [], ◌∷◌, ◌++◌, arith, get_elem?,
}
use picoos_lwip.Prelude.Bytes.{Bytes}
use picoos_lwip.Dhcps.Types.{Ip4, free_mac, ip_zero, octets}
use picoos_lwip.Dhcps.Options.{found, overrun, scan_request, note_option, opt_end}
use picoos_lwip.Dhcps.Options.Scan.{
  Tlv, encode, requested, scan_request-encode, scan_request_overrun,
}
use picoos_lwip.Dhcps.Leases.{Leases, find_lease, claim_lease, allocate_addr}
use picoos_lwip.Dhcps.Leases.Table.{Distinct, addresses}

abbrev ip : ℕ → Ip4
ip n = record { b0 = 10; b1 = 0; b2 = 0; b3 = n }

abbrev client : ℕ → Bytes
client n = 2 ∷ 0 ∷ 0 ∷ 0 ∷ 0 ∷ n ∷ []

client-ne-free : (n : ℕ) → client n ≢ free_mac
client-ne-free n = λ e. ground arith

abbrev table : Leases
table =
    record { mac = client 1; ip = ip 11 }
    ∷ record { mac = free_mac; ip = ip 12 }
    ∷ record { mac = free_mac; ip = ip 13 }
    ∷ []

abbrev table' : Leases
table' =
    record { mac = client 1; ip = ip 11 }
    ∷ record { mac = client 2; ip = ip 12 }
    ∷ record { mac = free_mac; ip = ip 13 }
    ∷ []

-- Opens all that an allocation calls.
allocate : Bytes → Leases → Option (Ip4 × Leases)
unfolding allocate_addr find_lease claim_lease
allocate = allocate_addr

allocate_three :
    (allocate_addr (client 2) table ≡ some (ip 12, table'))
    × (allocate_addr (client 1) table ≡ some (ip 11, table))
    × (allocate_addr free_mac table ≡ some (ip 12, table))
unfolding allocate
allocate_three = (refl, refl, refl)

table-Distinct : Distinct (addresses table)
table-Distinct = ground arith

-- A list of options with the client's wish, and three bytes in front of it.
abbrev wishes : List Tlv
wishes =
    record { code = 53; content = 3 ∷ [] } ∷ record { code = 50; content = octets (ip 12) } ∷ []

scan_request-encode_example :
    scan_request ((7 ∷ 7 ∷ 7 ∷ []) ++ (encode wishes ++ opt_end ∷ [])) 3
    ≡ found (requested wishes ip_zero)
scan_request-encode_example = scan_request-encode (7 ∷ 7 ∷ 7 ∷ []) wishes [] (omega arith)

scan_runs : scan_request (53 ∷ 1 ∷ 3 ∷ 50 ∷ 4 ∷ 10 ∷ 0 ∷ 0 ∷ 12 ∷ 255 ∷ []) 0 ≡ found (ip 12)
unfolding scan_request note_option
scan_runs = refl

abbrev endless : Bytes
endless = 53 ∷ 1 ∷ 3 ∷ []

no_end : (i : ℕ) → 0 ≤ i → get_elem? endless i ≢ some 255
no_end zero h = λ e. ground arith
no_end (suc zero) h = λ e. ground arith
no_end (suc (suc zero)) h = λ e. ground arith
no_end (suc (suc (suc i))) h = λ e. cc

scan_request_overrun_example : scan_request endless 0 ≡ overrun
scan_request_overrun_example = scan_request_overrun endless 0 no_end
