-- ===== src/Dhcps/LeaseTests.antt =====
-- Which clients the DHCP server of apps/dhcps/dhcps.c serves and refuses: the theorems at small runs.
use picoos_lwip.Prelude.{
  ◌++◌, ℕ, ◌+◌, ◌≡◌, ◌≢◌, refl, ◌∙◌, inl, inr, none, some, List, [], ◌∷◌, arith, replicate,
}
use picoos_lwip.Prelude.Bytes.{Bytes}
use picoos_lwip.Dhcps.Types.{Ip4, free_mac}
use picoos_lwip.Dhcps.Leases.{find_lease}
use picoos_lwip.Dhcps.Leases.Table.{free_entries, addresses}
use picoos_lwip.Dhcps.Server.{dhcp_recv, run, dhcp_server_start_raw, dhcp_server_stop_raw}
use picoos_lwip.Dhcps.Server.Renewal.{renewal_refused}
use picoos_lwip.Dhcps.Server.Protocol.{ServesAll, sent}
use picoos_lwip.Dhcps.Server.Refine.{started-ServesAll}
use picoos_lwip.Dhcps.Leases.Grants.{holds}
use picoos_lwip.Dhcps.Server.Life.{
  Input, starts, stops, receives, opened, closed, current, step, life, life_closes,
}
use picoos_lwip.Dhcps.Server.Taken.{answered_takes}
use picoos_lwip.Dhcps.Server.Served.{IsOffered, started_offers}
use picoos_lwip.Dhcps.Server.Env.{
  Event, Server, Message, send, alloc_resp, free_resp, free_req, broadcast,
}
use picoos_lwip.Dhcps.SmallServer.{
  ip, lwip, lwip-IsLwip, netif, started, client, request, message, discover, ask, serve,
  client-ne-free, after, held, first_payload,
}

clients-ne : (n k : ℕ) → n ≢ k → client n ≢ client k
clients-ne n k ne = λ e. ground arith

-- What three clients' messages leave.
abbrev served : Server
served = elim (run lwip netif (ask 2 5 ∷ ask 3 7 ∷ []) started) [ some r ↦ r.0 | none ↦ started ]

started_offers_example : IsOffered lwip netif discover (client 1) (replicate 93 7) served
unfolding serve
started_offers_example =
    started_offers lwip netif lwip-IsLwip (some 7) (client 1 ∷ client 2 ∷ client 3 ∷ [])
      (ask 2 5 ∷ ask 3 7 ∷ []) discover (client 1) (replicate 93 7)
      (
        client-ne-free 1,
        (clients-ne 2 1 (omega arith), (clients-ne 3 1 (omega arith), tt)),
        (client-ne-free 2, (clients-ne 3 2 (omega arith), tt), (client-ne-free 3, tt, tt)),
      )
      (omega arith) ((client 2, refl, inr (inl refl)), ((client 3, refl, inr (inr (inl refl))), tt))
      refl refl refl (inl refl) (record { made = refl; room = omega arith })

-- Client 3 asks for an address that is not the one it gets.
answered_takes_example :
    (i : Ip4) × (find_lease (client 3) (after (ask 3 7)).0.leases ≡ some i)
    × (free_entries started.leases ≡ free_entries (after (ask 3 7)).0.leases + 1)
unfolding serve
answered_takes_example =
    answered_takes lwip netif lwip-IsLwip (ask 3 7) started (client 3) (some 7)
      (first_payload (after (ask 3 7)).1) broadcast 68 refl refl (client-ne-free 3) refl
      (inr (inl refl))

-- The calls for a message where client 1 has an address.
abbrev refusal : Message → List Event
refusal m = elim (dhcp_recv lwip netif m held) [ some r ↦ r.1 | none ↦ [] ]

-- Client 1, which has the address that ends in 4, renews it.
abbrev renewal : Message
renewal = message (client 1) (53 ∷ 1 ∷ 3 ∷ 255 ∷ [])

renewal_refused_example :
    dhcp_recv lwip netif renewal held
    ≡ some (
      held,
      alloc_resp
          ∷ send (some 7) (first_payload (refusal renewal)) broadcast 68
          ∷ free_resp
          ∷ free_req
          ∷ [],
    )
unfolding serve
renewal_refused_example =
    renewal_refused lwip netif lwip-IsLwip renewal held (client 1) (ip 192 168 0 4)
      (record { code = 53; content = 3 ∷ [] } ∷ []) (request (client 1) []) [] (replicate 93 7) refl
      refl refl (λ e. ground arith) refl refl ((λ e. ground arith), tt) ((λ e. ground arith), tt)
      (record { made = refl; room = omega arith })

real_client : (n : ℕ) (mac : Bytes) → some (client n) ≡ some mac → mac ≢ free_mac
real_client n mac e z =
    let own : client n ≡ mac = ground arith in absurd (client-ne-free n (own ∙ z))

abbrev served_events : List Event
served_events = elim (run lwip netif (ask 2 5 ∷ ask 3 7 ∷ []) started) [ some r ↦ r.1 | none ↦ [] ]

started-ServesAll_example :
    ((m : Bytes) → m ≢ free_mac → holds started.leases m ≡ none)
    × ServesAll lwip netif
        (addresses started.leases)
        (holds started.leases)
        (ask 2 5 ∷ ask 3 7 ∷ [])
        (sent served_events)
        (holds served.leases)
unfolding serve
started-ServesAll_example =
    started-ServesAll lwip netif lwip-IsLwip (some 7) (ask 2 5 ∷ ask 3 7 ∷ []) refl
      (real_client 2, (real_client 3, tt))

-- The server before its first start.
abbrev stopped : Server
stopped = record { leases = []; pcb = none }

-- A start, a message, a stop and another start.
abbrev inputs : List Input
inputs = starts (some 7) ∷ receives (ask 2 5) ∷ stops ∷ starts (some 8) ∷ []

abbrev lived : Server × List Event
lived = elim (life lwip netif inputs stopped) [ some r ↦ r | none ↦ (stopped, []) ]

life_closes_example : opened lived.1 ≡ closed lived.1 ++ current lived.0.pcb
unfolding serve life step dhcp_server_start_raw
life_closes_example =
    life_closes lwip netif lwip-IsLwip inputs stopped (refl, (refl, (refl, tt))) refl refl

lived_blocks : (opened lived.1 ≡ 7 ∷ 8 ∷ []) × (closed lived.1 ≡ 7 ∷ [])
unfolding serve life step dhcp_server_start_raw dhcp_server_stop_raw
lived_blocks = (refl, refl)
