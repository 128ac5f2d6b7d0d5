-- ===== src/Tap/Owned.antt =====
-- Who owns a received packet (tapIfInput and tapThread of netif/tapif.c).
use picoos_lwip.Prelude.{
  ℕ, ◌+◌, ◌≡◌, refl, sym, ap, ◌∙◌, Bool, Option, none, some, List, [], ◌∷◌, ◌++◌, arith,
  >>=-eq-some, if◌then◌else◌, ◌⊎◌, inl, inr, length, Option-cases, Bool-cases,
}
use picoos_lwip.Prelude.Bytes.{Bytes, store_bytes}
use picoos_lwip.Tap.{
  Event, alloc_pbuf, netif_input, free_pbuf, fill, low_level_input, Turn, got, again, failed,
  EthTypes, eth_type, dispatch, tap_if_input, tap_thread, ReadResult,
}

-- The packets that were made, and those that lwIP took or that were freed.
abbrev pub made : List Event → ℕ
made [] = 0
made (e ∷ es) = elim e [ alloc_pbuf ↦ 1 + made es | _ ↦ made es ]

abbrev pub settled : List Event → ℕ
settled [] = 0
settled (e ∷ es) = elim e [
  | netif_input _ ok ↦ (if ok then 1 + settled es else settled es)
  | free_pbuf _ ↦ 1 + settled es
  | _ ↦ settled es
]

pub made-append : (xs ys : List Event) → made (xs ++ ys) ≡ made xs + made ys
made-append [] ys = omega arith
made-append (x ∷ xs) ys = ground (arith, made-append xs ys)

pub settled-append : (xs ys : List Event) → settled (xs ++ ys) ≡ settled xs + settled ys
settled-append [] ys = omega arith
settled-append (x ∷ xs) ys = ground (arith, settled-append xs ys)

-- What receiving leaves for its caller.
abbrev pending : Option (List Bytes) → ℕ
pending none = 0
pending (some _) = 1

fill-pending :
    (len : ℕ) (b : Bytes) (t : Turn) {r : Option (List Bytes)} {ev : List Event}
    → fill len b t ≡ some (r, ev)
    → (made ev ≡ pending r) × (settled ev ≡ 0)
unfolding fill
fill-pending len b t e = ground arith

pub ReadResult-cases :
    (r : ReadResult) → ((frame : Bytes) × (r ≡ got frame)) ⊎ ((r ≡ again) ⊎ (r ≡ failed))
ReadResult-cases (got frame) = inl (frame, refl)
ReadResult-cases again = inr (inl refl)
ReadResult-cases failed = inr (inr refl)

low_level_input-pending :
    (t : Turn) {r : Option (List Bytes)} {ev : List Event}
    → low_level_input t ≡ some (r, ev)
    → (made ev ≡ pending r) × (settled ev ≡ 0)
unfolding low_level_input
low_level_input-pending t {r} {ev} e = elim (ReadResult-cases t.read) [
  | inl (frame, f) ↦
      let (b, stored, filled) =
        >>=-eq-some (store_bytes 0 frame t.eth_buf) (λ b. fill (length frame) b t) (rw f at e) in
      fill-pending (length frame) b t filled
  | inr (inl f) ↦ ground arith
  | inr (inr f) ↦ fill-pending 65535 t.eth_buf t (rw f at e)
]

module _ (types : EthTypes) where
  pub dispatch_settles :
      (ok : Bool) (p : List Bytes) (ty : ℕ)
      → (made (dispatch types ok p ty) ≡ 0) × (settled (dispatch types ok p ty) ≡ 1)
  unfolding dispatch
  dispatch_settles ok p ty = ground arith

  tap_if_input_balanced :
      (t : Turn) {more : Bool} {ev : List Event}
      → tap_if_input types t ≡ some (more, ev)
      → made ev ≡ settled ev
  unfolding tap_if_input
  tap_if_input_balanced t {more} {ev} e =
      let ((r, ev1), received, rest) = >>=-eq-some (low_level_input t) _ e in
      let (m, n) = low_level_input-pending t received in
      elim (Option-cases r) [
        | inl f ↦
            let z : made ev1 ≡ 0 = m ∙ ap pending f in
            let same : ev1 ≡ ev = ground arith in rw (← same) (z ∙ sym n)
        | inr (p, f) ↦
            let o : made ev1 ≡ 1 = m ∙ ap pending f in
            let (ty, known, k) = >>=-eq-some (eth_type p) _ (rw f at rest) in
            let same : ev1 ++ dispatch types t.accepts p ty ≡ ev = ground arith in
            let (a, b) = dispatch_settles t.accepts p ty in
            rw (← same) (
              omega (
                arith,
                made-append ev1 (dispatch types t.accepts p ty),
                settled-append ev1 (dispatch types t.accepts p ty),
              ))
      ]

  -- In a round of the polling thread that meets no fault, every packet that is made is settled
  -- once: lwIP takes it, or it is freed.
  pub tap_thread_balanced :
      (ts : List Turn) {ev : List Event} → tap_thread types ts ≡ some ev → made ev ≡ settled ev
  unfolding tap_thread
  tap_thread_balanced [] {ev} e = ground arith
  tap_thread_balanced (t ∷ ts) {ev} e =
      let ((more, ev1), received, rest) = >>=-eq-some (tap_if_input types t) _ e in
      let first = tap_if_input_balanced t received in
      elim (Bool-cases more) [
        | inl go ↦
            let (evs, ran, k) =
              >>=-eq-some (tap_thread types ts) (λ evs. some (ev1 ++ evs)) (rw go at rest) in
            let same : ev1 ++ evs ≡ ev = ground arith in
            rw (← same) (
              omega
                (arith, made-append ev1 evs, settled-append ev1 evs, tap_thread_balanced ts ran))
        | inr stop ↦
            let same : ev1 ++ [] ≡ ev = ground arith in
            rw (← same) (omega (arith, made-append ev1 [], settled-append ev1 []))
      ]
