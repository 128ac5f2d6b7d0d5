-- ===== src/Dhcps/Server/Steps/Totals.antt =====
-- The outcomes of handleDiscover and handleRequest of apps/dhcps/dhcps.c, for every message.
use picoos_lwip.Prelude.{
  ◌+◌, ◌≤◌, ◌<◌, ◌≡◌, refl, ◌⊎◌, inl, inr, true, none, some, [], ◌∷◌, length, ltb, ltb→ge, ltb→lt,
  ◌>>=◌, Bool-cases, Option-cases,
}
use picoos_lwip.Prelude.Bytes.{Bytes, load_bytes}
use picoos_lwip.Dhcps.Types.{Ip4}
use picoos_lwip.Dhcps.Options.{overrun, scan_request}
use picoos_lwip.Dhcps.Options.Scan.{scan_request-ne-exhausted, ScanResult-split}
use picoos_lwip.Dhcps.Leases.{Leases, allocate_addr}
use picoos_lwip.Dhcps.Server.{
  new_resp, handle_discover, answer_request, handle_request, dhcp_discover, dhcp_request,
}
use picoos_lwip.Dhcps.Server.Replies.{new_resp-prepared}
use picoos_lwip.Dhcps.Server.Outcomes.{HasKind, silent, unanswered, Gives}
use picoos_lwip.Dhcps.Server.Steps.{
  chaddr_total, after, allocated, discover_answered, request_answered,
}
use picoos_lwip.Dhcps.Server.Env.{Lwip, IsLwip, Netif, alloc_resp, free_resp, Server, Message}

new_resp_small :
    (w : Lwip) (rp p : Bytes)
    → ltb (length rp) w.layout.size ≡ true
    → new_resp w (some rp) p ≡ some (none, alloc_resp ∷ free_resp ∷ [])
unfolding new_resp
new_resp_small w rp p h = rw h

module _ (w : Lwip) (netif : Netif) (lw : IsLwip w) (m : Message) (s : Server)
    (long : w.layout.options + 2 < length m.payload) where
  open w use {layout}

  -- handleDiscover always ends, in one of its outcomes.
  pub handle_discover_total :
      HasKind w m dhcp_discover → Gives w netif m s (handle_discover w netif m s)
  handle_discover_total kind =
      let (mac, client) = chaddr_total w netif lw m s long in
      elim (Option-cases (allocate_addr mac s.leases)) [
        | inl full ↦ (
          s,
          [],
          unfold handle_discover in rw (client, ◌>>=◌, full),
          silent refl refl (inr (mac, client, full)),
        )
        | inr ((ip, ls), given) ↦ elim (Option-cases m.fresh) [
          | inl out_of_memory ↦ (
            after w netif lw m s long mac client ip ls given,
            [],
            unfold handle_discover new_resp in rw (client, ◌>>=◌, given, out_of_memory),
            unanswered mac ip (allocated w netif lw m s long mac client ip ls given)
                (inl (out_of_memory, refl)),
          )
          | inr (rp, made) ↦ elim (Bool-cases (ltb (length rp) layout.size)) [
            | inl small ↦ (
              after w netif lw m s long mac client ip ls given,
              alloc_resp ∷ free_resp ∷ [],
              unfold handle_discover in
                  rw (client, ◌>>=◌, given, made, new_resp_small w rp m.payload small),
              unanswered mac ip (allocated w netif lw m s long mac client ip ls given)
                  (inr (rp, made, ltb→lt (length rp) layout.size small, refl)),
            )
            | inr fits ↦
                discover_answered w netif lw m s long mac client ip ls given rp made
                  (ltb→ge (length rp) layout.size fits) kind
          ]
        ]
      ]

  -- A handler stopped at a read past the message, in the loop over its options.
  abbrev pub Overruns : Type 0
  Overruns =
      HasKind w m dhcp_request
      × (scan_request m.payload layout.options ≡ overrun)
      × (handle_request w netif m s ≡ none)

  request_ready :
      (mac : Bytes) (client : load_bytes layout.chaddr 6 m.payload ≡ some mac)
      → (ip : Ip4) (ls : Leases) (given : allocate_addr mac s.leases ≡ some (ip, ls))
      → (rp : Bytes) (made : m.fresh ≡ some rp) (room : layout.size ≤ length rp)
      → HasKind w m dhcp_request
      → Gives w netif m s (handle_request w netif m s) ⊎ Overruns
  request_ready mac client ip ls given rp made room kind =
      elim (ScanResult-split (scan_request m.payload layout.options)) [
        | inl (req, asked) ↦ inl (
            request_answered w netif lw m s long mac client ip ls given rp made room kind req asked)
        | inr (inl past) ↦ inr (
          kind,
          past,
          unfold handle_request answer_request in
              rw (client, ◌>>=◌, given, made, new_resp-prepared w lw rp m.payload room, past),
        )
        | inr (inr spent) ↦ absurd (scan_request-ne-exhausted m.payload layout.options spent)
      ]

  -- handleRequest ends in one of its outcomes, or reads past the message.
  pub handle_request_total :
      HasKind w m dhcp_request → Gives w netif m s (handle_request w netif m s) ⊎ Overruns
  handle_request_total kind =
      let (mac, client) = chaddr_total w netif lw m s long in
      elim (Option-cases (allocate_addr mac s.leases)) [
        | inl full ↦ inl (
          s,
          [],
          unfold handle_request in rw (client, ◌>>=◌, full),
          silent refl refl (inr (mac, client, full)),
        )
        | inr ((ip, ls), given) ↦ elim (Option-cases m.fresh) [
          | inl out_of_memory ↦ inl (
            after w netif lw m s long mac client ip ls given,
            [],
            unfold handle_request new_resp in rw (client, ◌>>=◌, given, out_of_memory),
            unanswered mac ip (allocated w netif lw m s long mac client ip ls given)
                (inl (out_of_memory, refl)),
          )
          | inr (rp, made) ↦ elim (Bool-cases (ltb (length rp) layout.size)) [
            | inl small ↦ inl (
              after w netif lw m s long mac client ip ls given,
              alloc_resp ∷ free_resp ∷ [],
              unfold handle_request in
                  rw (client, ◌>>=◌, given, made, new_resp_small w rp m.payload small),
              unanswered mac ip (allocated w netif lw m s long mac client ip ls given)
                  (inr (rp, made, ltb→lt (length rp) layout.size small, refl)),
            )
            | inr fits ↦
                request_ready mac client ip ls given rp made (ltb→ge (length rp) layout.size fits)
                  kind
          ]
        ]
      ]
