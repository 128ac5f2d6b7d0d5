-- ===== src/Dhcps/Tests.antt =====
-- Runs of the DHCP server of apps/dhcps/dhcps.c on small messages, and the theorems at them.
use picoos_lwip.Prelude.{
  ℕ, ◌≡◌, ◌≢◌, refl, inl, inr, true, false, Option, none, some, List, [], ◌∷◌, arith,
}
use picoos_lwip.Prelude.Bytes.{Bytes}
use picoos_lwip.Dhcps.Types.{Ip4}
use picoos_lwip.Dhcps.Options.{found, overrun, scan_request}
use picoos_lwip.Dhcps.Server.{dhcp_recv, run}
use picoos_lwip.Dhcps.Server.Started.{started_unique}
use picoos_lwip.Dhcps.Server.Received.{Receives, dhcp_recv_total}
use picoos_lwip.Dhcps.Server.Replied.{
  acknowledged-IsReply, offered-IsReply, log_reads_freed, reads_freed,
}
use picoos_lwip.Dhcps.Server.Runs.{run_balanced, run_total}
use picoos_lwip.Dhcps.Server.Full.{run_never_frees}
use picoos_lwip.Dhcps.Server.Outcomes.{Allocated}
use picoos_lwip.Dhcps.Server.Effects.{Occurs, allocs, frees, requests_freed}
use picoos_lwip.Dhcps.Server.Fields.{IsReply}
use picoos_lwip.Dhcps.Server.Replies.{offer_options, ack_options}
use picoos_lwip.Dhcps.Server.Env.{
  Event, Server, send, static_arp, alloc_resp, free_resp, free_req, log_resp, broadcast, unicast,
}
use picoos_lwip.Dhcps.SmallServer.{
  ip, lwip, lwip-IsLwip, netif, started, client, message, discover, ask, serve, client-ne-free,
  after, first_payload,
}

abbrev kinds : Option (Server × List Event) → List ℕ
kinds none = 99 ∷ []
kinds (some (s, ev)) = go ev
  where
    go : List Event → List ℕ
    go [] = []
    go (alloc_resp ∷ ev) = 1 ∷ go ev
    go (free_resp ∷ ev) = 2 ∷ go ev
    go (free_req ∷ ev) = 3 ∷ go ev
    go (log_resp ∷ ev) = 4 ∷ go ev
    go (send _ _ broadcast _ ∷ ev) = 5 ∷ go ev
    go (send _ _ (unicast _) _ ∷ ev) = 6 ∷ go ev
    go (static_arp i m ∷ ev) = 7 ∷ i.b3 ∷ go ev
    go (_ ∷ ev) = 9 ∷ go ev

-- An offer, two acknowledgements and a refusal; each response is freed before it is printed.
kinds-run :
    kinds (run lwip netif (discover ∷ ask 1 4 ∷ ask 2 5 ∷ ask 3 7 ∷ []) started)
    ≡ 1 ∷ 5 ∷ 2 ∷ 4 ∷ 3 ∷ 1 ∷ 7 ∷ 4 ∷ 6 ∷ 2 ∷ 4 ∷ 3 ∷ 1 ∷ 7 ∷ 5 ∷ 6 ∷ 2 ∷ 4 ∷ 3 ∷ 1 ∷ 5 ∷ 2 ∷ 3 ∷ []
unfolding serve
kinds-run = refl

-- A request with no end option makes the server read past it.
unterminated : dhcp_recv lwip netif (message (client 1) (53 ∷ 1 ∷ 3 ∷ [])) started ≡ none
unfolding serve
unterminated = refl

started_unique_example : client 1 ≡ client 1
unfolding serve
started_unique_example =
    started_unique lwip netif lwip-IsLwip (some 7) (ask 1 4 ∷ []) (client 1) (client 1)
      (ip 192 168 0 4) refl (client-ne-free 1) (client-ne-free 1) (inr (inl refl)) (inr (inl refl))

-- The options of `discover` end.
discover_ends : scan_request discover.payload 25 ≢ overrun
unfolding serve
discover_ends = λ e. cc

dhcp_recv_total_example :
    Receives lwip netif discover started (dhcp_recv lwip netif discover started)
dhcp_recv_total_example =
    dhcp_recv_total lwip netif lwip-IsLwip discover started (omega arith) discover_ends

abbrev Acknowledgement : Bytes → Type 0
Acknowledgement out = IsReply lwip (ask 1 4).payload (ip 192 168 0 4) (ack_options netif) out

acknowledged-IsReply_example :
    (out : Bytes) × Occurs (send started.pcb out (unicast (ip 192 168 0 4)) 68) (after (ask 1 4)).1
    × Acknowledgement out
    × Allocated lwip (ask 1 4) started (after (ask 1 4)).0 (client 1) (ip 192 168 0 4)
    × (scan_request (ask 1 4).payload 25 ≡ found (ip 192 168 0 4))
unfolding serve
acknowledged-IsReply_example =
    acknowledged-IsReply lwip netif lwip-IsLwip (ask 1 4) started refl (ip 192 168 0 4) (client 1)
      (inr (inl refl))

run_balanced_example :
    (allocs (after discover).1 ≡ frees (after discover).1) × (requests_freed (after discover).1 ≡ 1)
unfolding serve
run_balanced_example = run_balanced lwip netif lwip-IsLwip (discover ∷ []) started refl

offered-IsReply_example :
    (i : Ip4) × (mac : Bytes) × (started.pcb ≡ started.pcb)
    × (broadcast ≡ broadcast)
    × (lwip.client_port ≡ lwip.client_port)
    × Allocated lwip discover started (after discover).0 mac i
    × IsReply lwip discover.payload i (offer_options netif) (first_payload (after discover).1)
unfolding serve
offered-IsReply_example =
    offered-IsReply lwip netif lwip-IsLwip discover started refl started.pcb
      (first_payload (after discover).1) broadcast lwip.client_port refl (inr (inl refl))

log_reads_freed_example : reads_freed false (after discover).1 ≡ true
unfolding serve
log_reads_freed_example =
    log_reads_freed lwip netif lwip-IsLwip discover started refl (inr (inr (inr (inl refl))))

-- The options of `ask 1 4` end.
ask_ends : scan_request (ask 1 4).payload 25 ≢ overrun
unfolding serve
ask_ends = λ e. cc

run_total_example :
    (s' : Server) × (ev : List Event) × (run lwip netif (discover ∷ ask 1 4 ∷ []) started
      ≡ some (s', ev))
run_total_example =
    run_total lwip netif lwip-IsLwip (discover ∷ ask 1 4 ∷ []) started
      ((omega arith, discover_ends), ((omega arith, ask_ends), tt))

-- Three clients have every entry.
abbrev full : Server
full = record started {
  leases =
      record { mac = client 1; ip = ip 192 168 0 4 }
      ∷ record { mac = client 2; ip = ip 192 168 0 5 }
      ∷ record { mac = client 3; ip = ip 192 168 0 6 }
      ∷ [];
}

run_never_frees_example : ¬ Occurs (static_arp (ip 192 168 0 4) (client 4)) (free_req ∷ [])
unfolding serve
run_never_frees_example =
    run_never_frees lwip netif lwip-IsLwip (ask 4 4 ∷ []) full (client 4) (ip 192 168 0 4) refl refl
      (client-ne-free 4) refl
