-- ===== src/Dhcps/HandshakeTests.antt =====
-- A client of the DHCP server of apps/dhcps/dhcps.c that asks for the address it was offered.
use picoos_lwip.Prelude.{refl, some, none, [], ◌∷◌, arith, inl, inr, replicate}
use picoos_lwip.Dhcps.Server.{run}
use picoos_lwip.Dhcps.Server.Handshake.{Asks, IsAcknowledged, offer_kept}
use picoos_lwip.Dhcps.Server.Env.{Server, broadcast}
use picoos_lwip.Dhcps.SmallServer.{
  ip, lwip, lwip-IsLwip, netif, started, client, request, discover, ask, serve, client-ne-free,
  after, first_payload,
}

-- What a message of client 2 leaves, behind the discover message of client 1.
abbrev later : Server
later = elim (run lwip netif (ask 2 5 ∷ []) (after discover).0) [ some r ↦ r.0 | none ↦ started ]

ask-Asks : Asks lwip (ask 1 4) (ip 192 168 0 4)
ask-Asks = record {
  kind = refl;
  options =
      record { code = 53; content = 3 ∷ [] }
      ∷ record { code = 50; content = 192 ∷ 168 ∷ 0 ∷ 4 ∷ [] }
      ∷ [];
  before = request (client 1) [];
  behind = [];
  offset = refl;
  encoded = refl;
  codes = ((λ e. ground arith), ((λ e. ground arith), tt));
  asked = refl;
}

offer_kept_example :
    IsAcknowledged lwip netif (ask 1 4) (client 1) (replicate 93 7) (ip 192 168 0 4) later
unfolding serve
offer_kept_example =
    offer_kept lwip netif lwip-IsLwip started discover (ask 1 4) (ask 2 5 ∷ []) (client 1)
      (replicate 93 7) (ip 192 168 0 4) (some 7) (first_payload (after discover).1) broadcast 68
      refl refl (client-ne-free 1) refl (inr (inl refl)) refl refl refl ask-Asks
      (record { made = refl; room = omega arith })
