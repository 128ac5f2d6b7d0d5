-- ===== src/Tap/Dispatched.antt =====
-- What is to happen to a received packet, by the type of its frame (the `switch` of tapIfInput in
-- netif/tapif.c and of cs8900aIfInput in netif/cs8900a_lpc_e2129.c).
use picoos_lwip.Prelude.{ℕ, ◌≡◌, ◌⊎◌, inl, inr, Bool, true, false, List, [], ◌∷◌, Bool-cases, arith}
use picoos_lwip.Prelude.Bytes.{Bytes}
use picoos_lwip.Tap.{Event, EthTypes, netif_input, free_pbuf, is_known, dispatch}

-- IP, IPv6 or ARP, or with PPPoE one of its two.
abbrev pub Known : EthTypes → ℕ → Type 0
Known e ty =
    (ty ≡ e.ip)
    ⊎ ((ty ≡ e.ipv6)
        ⊎ ((ty ≡ e.arp) ⊎ ((e.pppoe_support ≡ true) × ((ty ≡ e.pppoedisc) ⊎ (ty ≡ e.pppoe)))))

-- A packet of a known type is lwIP's, unless lwIP refuses it, and every other is freed.
pub data Handed (e : EthTypes) (accepts : Bool) (p : List Bytes) (ty : ℕ) (ev : List Event)
    : Type 0 where
  taken : Known e ty → accepts ≡ true → ev ≡ netif_input p true ∷ [] → Handed e accepts p ty ev
  returned :
      Known e ty
      → accepts ≡ false
      → ev ≡ netif_input p false ∷ free_pbuf p ∷ []
      → Handed e accepts p ty ev
  dropped : (Known e ty → ⊥) → ev ≡ free_pbuf p ∷ [] → Handed e accepts p ty ev

is_known-Known : (e : EthTypes) (ty : ℕ) → is_known e ty ≡ true → Known e ty
unfolding is_known
is_known-Known e ty h = ground arith

Known-is_known : (e : EthTypes) (ty : ℕ) → Known e ty → is_known e ty ≡ true
unfolding is_known
Known-is_known e ty h = ground arith

pub dispatch-Handed :
    (e : EthTypes) (accepts : Bool) (p : List Bytes) (ty : ℕ)
    → Handed e accepts p ty (dispatch e accepts p ty)
unfolding dispatch
dispatch-Handed e accepts p ty = elim (Bool-cases (is_known e ty)) [
  | inr other ↦ dropped (λ k. let z = Known-is_known e ty k in cc) (rw other)
  | inl known ↦ elim (Bool-cases accepts) [
    | inl yes_taken ↦ taken (is_known-Known e ty known) yes_taken (rw (known, yes_taken))
    | inr refused ↦ returned (is_known-Known e ty known) refused (rw (known, refused))
  ]
]
