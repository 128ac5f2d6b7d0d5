-- ===== src/Dhcps/Server/Received.antt =====
-- What dhcpRecv does with any message (apps/dhcps/dhcps.c).
use picoos_lwip.Prelude.{
  ℕ, ◌+◌, ◌<◌, ◌≡◌, ◌≢◌, refl, ap, ◌∙◌, ◌⊎◌, inl, inr, false, Option, none, some, List, [], ◌∷◌,
  ◌++◌, arith, length, ltb, ltb→lt, ltb→ge, ◌>>=◌, >>=-eq-some, Bool-cases, Option-cases, ◌==◌,
  ==_iff, get_elem?, get_elem?_beyond, get_elem?-ne-none, subst,
}
use picoos_lwip.Dhcps.Options.{overrun, scan_request}
use picoos_lwip.Dhcps.Server.{dhcp_recv, dhcp_discover, dhcp_request}
use picoos_lwip.Dhcps.Server.Outcomes.{HasKind, Handled, silent}
use picoos_lwip.Dhcps.Server.Steps.Totals.{handle_discover_total, handle_request_total}
use picoos_lwip.Dhcps.Server.Env.{Lwip, IsLwip, Netif, Event, free_req, Server, Message}

-- One of the outcomes, and then the request is freed.
abbrev pub Receives : Lwip → Netif → Message → Server → Option (Server × List Event) → Type 0
Receives w netif m s result =
    (s' : Server) × (ev : List Event) × (result ≡ some (s', ev ++ free_req ∷ []))
    × Handled w netif m s s' ev

pub get_elem?-lt : (xs : List ℕ) (i : ℕ) {x : ℕ} → get_elem? xs i ≡ some x → i < length xs
get_elem?-lt xs i h = elim (Bool-cases (ltb i (length xs))) [
  | inl inside ↦ ltb→lt i (length xs) inside
  | inr outside ↦ let e = get_elem?_beyond xs i (ltb→ge i (length xs) outside) in cc
]

get_elem?_inside : (xs : List ℕ) (i : ℕ) → i < length xs → (x : ℕ) × (get_elem? xs i ≡ some x)
get_elem?_inside xs i h = elim (Option-cases (get_elem? xs i)) [
  | inl beyond ↦ absurd (get_elem?-ne-none xs i h beyond)
  | inr found ↦ found
]

==-ne : (i j : ℕ) → (i == j) ≡ false → i ≢ j
==-ne i j h e = let z = (==_iff i j).1 e in cc

module _ (w : Lwip) (netif : Netif) (lw : IsLwip w) (m : Message) (s : Server) where
  open w use {layout}

  dhcp_recv_cases :
      (kind : ℕ)
      → HasKind w m kind
      → Receives w netif m s (dhcp_recv w netif m s)
        ⊎ (kind ≡ dhcp_request)
          × (scan_request m.payload layout.options ≡ overrun)
          × (dhcp_recv w netif m s ≡ none)
  dhcp_recv_cases kind here =
      let long = get_elem?-lt m.payload (layout.options + 2) here in
      elim (Bool-cases (kind == dhcp_discover)) [
        | inl discover ↦
            let (s', ev, e, h) =
              handle_discover_total w netif lw m s long
                (here ∙ ap some ((==_iff kind dhcp_discover).0 discover)) in
            inl (s', ev, unfold dhcp_recv in rw (here, ◌>>=◌, discover, e), h)
        | inr other ↦ elim (Bool-cases (kind == dhcp_request)) [
          | inl request ↦
              let k : kind ≡ dhcp_request = (==_iff kind dhcp_request).0 request in
              elim (handle_request_total w netif lw m s long (here ∙ ap some k)) [
                | inl (s', ev, e, h) ↦
                    inl (s', ev, unfold dhcp_recv in rw (here, ◌>>=◌, other, request, e), h)
                | inr (_, past, e) ↦
                    inr (k, past, unfold dhcp_recv in rw (here, ◌>>=◌, other, request, e))
              ]
          | inr unknown ↦ inl (
            s,
            [],
            unfold dhcp_recv in rw (here, ◌>>=◌, other, unknown),
            silent refl refl
                (inl (kind, here, ==-ne kind dhcp_discover other, ==-ne kind dhcp_request unknown)),
          )
        ]
      ]

  -- Every message that has a type, at the third option byte, is handled to one of the outcomes and
  -- then freed: no write leaves its buffer and no read the message, provided that the loop over the
  -- options meets an end option.
  pub dhcp_recv_total :
      layout.options + 2 < length m.payload
      → scan_request m.payload layout.options ≢ overrun
      → Receives w netif m s (dhcp_recv w netif m s)
  dhcp_recv_total long ends =
      let (kind, here) = get_elem?_inside m.payload (layout.options + 2) long in
      elim (dhcp_recv_cases kind here) [ inl r ↦ r | inr (_, past, _) ↦ absurd (ends past) ]

  pub kind_total :
      {r : Server × List Event} → dhcp_recv w netif m s ≡ some r → (kind : ℕ) × HasKind w m kind
  unfolding dhcp_recv
  kind_total e =
      let (kind, here, _) = >>=-eq-some (get_elem? m.payload (layout.options + 2)) _ e in
      (kind, here)

  -- A message that is handled without a fault has one of the outcomes, and is freed.
  pub dhcp_recv_outcome :
      {s' : Server} {ev' : List Event}
      → dhcp_recv w netif m s ≡ some (s', ev')
      → (ev : List Event) × (ev' ≡ ev ++ free_req ∷ []) × Handled w netif m s s' ev
  dhcp_recv_outcome {s'} {ev'} e =
      let (kind, here) = kind_total e in
      elim (dhcp_recv_cases kind here) [
        | inl (s1, ev, r, h) ↦
            let same : s1 ≡ s' = ground arith in
            (ev, ground arith, subst (λ t. Handled w netif m s t ev) same h)
        | inr (_, _, stuck) ↦ cc
      ]
