-- ===== src/Dhcps/Server/Started.antt =====
-- The server after dhcpServerStartRaw (apps/dhcps/dhcps.c), and its runs.
use picoos_lwip.Prelude.{
  ℕ, ◌+◌, ◌%◌, ◌<◌, ◌≡◌, ◌≢◌, refl, ap, ◌∙◌, Option, none, some, List, arith, All,
}
use picoos_lwip.Prelude.Bytes.{Bytes}
use picoos_lwip.Dhcps.Types.{Ip4, free_mac}
use picoos_lwip.Dhcps.Leases.{max_leases}
use picoos_lwip.Dhcps.Leases.Table.{Distinct, addresses, free_entries, find_lease-ne}
use picoos_lwip.Dhcps.Server.{run, fresh_leases, dhcp_server_start_raw}
use picoos_lwip.Dhcps.Server.Effects.{Occurs}
use picoos_lwip.Dhcps.Server.Runs.{run_unique, run_granted, run-addresses}
use picoos_lwip.Dhcps.Server.Env.{Lwip, IsLwip, Netif, Event, static_arp, Server, Message}

module _ (w : Lwip) (netif : Netif) (lw : IsLwip w) where
  abbrev entry : ℕ → Ip4
  entry i =
      w.ip4_make (w.ip4_addr1 netif.ip_addr) (w.ip4_addr2 netif.ip_addr) (w.ip4_addr3 netif.ip_addr)
        (w.ip4_addr4 netif.ip_addr + i + 10)

  entry_octet : (i : ℕ) → w.ip4_addr4 (entry i) ≡ (w.ip4_addr4 netif.ip_addr + i + 10) % 256
  entry_octet i = lw.last_octet _ _ _ _

  entry-ne : (i j : ℕ) → i < 3 → j < i → entry i ≢ entry j
  entry-ne i j hi hj e = absurd (omega (arith, entry_octet i, entry_octet j, ap w.ip4_addr4 e))

  fresh_leases-Distinct : Distinct (addresses (fresh_leases w netif.ip_addr max_leases 0))
  unfolding fresh_leases
  fresh_leases-Distinct = (
    (entry-ne 1 0 (omega arith) (omega arith), (entry-ne 2 0 (omega arith) (omega arith), tt)),
    ((entry-ne 2 1 (omega arith) (omega arith), tt), (tt, tt)),
  )

  entry_not_own : w.ip4_addr4 netif.ip_addr < 256 → (i : ℕ) → i < 3 → entry i ≢ netif.ip_addr
  entry_not_own octet i hi e = absurd (omega (arith, entry_octet i, ap w.ip4_addr4 e))

  fresh_leases_not_own :
      w.ip4_addr4 netif.ip_addr < 256
      → All (λ y. y ≢ netif.ip_addr) (addresses (fresh_leases w netif.ip_addr max_leases 0))
  unfolding fresh_leases
  fresh_leases_not_own octet = (
    entry_not_own octet 0 (omega arith),
    (entry_not_own octet 1 (omega arith), (entry_not_own octet 2 (omega arith), tt)),
  )

  pub started_leases :
      (made : Option ℕ)
      → (dhcp_server_start_raw w netif made).0.leases ≡ fresh_leases w netif.ip_addr max_leases 0
  unfolding dhcp_server_start_raw
  started_leases none = refl
  started_leases (some h) = refl

  -- A started server has three entries, all free, with three different addresses.
  pub started_table :
      (made : Option ℕ)
      → let ls = (dhcp_server_start_raw w netif made).0.leases in
        (free_entries ls ≡ 3) × Distinct (addresses ls)
  started_table made = rw (started_leases made) (unfold fresh_leases in refl, fresh_leases-Distinct)

  -- From a started server no run without a fault acknowledges one address to two different clients,
  -- both with hardware addresses that are not zero.
  pub started_unique :
      (made : Option ℕ) (ms : List Message) {s' : Server} {ev : List Event} (m n : Bytes) (ip : Ip4)
      → run w netif ms (dhcp_server_start_raw w netif made).0 ≡ some (s', ev)
      → m ≢ free_mac
      → n ≢ free_mac
      → Occurs (static_arp ip m) ev
      → Occurs (static_arp ip n) ev
      → m ≡ n
  started_unique made ms m n ip e hm hn am an =
      run_unique w netif lw ms (dhcp_server_start_raw w netif made).0 m n ip (started_table made).1
        e hm hn am an

  -- From a started server no run without a fault acknowledges the interface's own address, whose
  -- last octet is a byte, to a client with a hardware address that is not zero.
  pub started_not_own :
      (made : Option ℕ) (ms : List Message) {s' : Server} {ev : List Event} (m : Bytes) (ip : Ip4)
      → w.ip4_addr4 netif.ip_addr < 256
      → run w netif ms (dhcp_server_start_raw w netif made).0 ≡ some (s', ev)
      → m ≢ free_mac
      → Occurs (static_arp ip m) ev
      → ip ≢ netif.ip_addr
  started_not_own made ms {s'} m ip octet e hm am own =
      find_lease-ne m s'.leases netif.ip_addr others (
        run_granted w netif lw ms (dhcp_server_start_raw w netif made).0 m ip e hm am ∙ ap some own)
    where
      others : All (λ y. y ≢ netif.ip_addr) (addresses s'.leases)
      others =
          rw
            (
              run-addresses w netif lw ms (dhcp_server_start_raw w netif made).0 e,
              started_leases made,
            )
            (fresh_leases_not_own octet)
