-- ===== src/Dhcps/Options/Scan.antt =====
-- What the loop of handleRequest over the request's options finds (apps/dhcps/dhcps.c).
use picoos_lwip.Prelude.{
  ℕ, zero, suc, ◌+◌, ◌≤◌, ◌<◌, ◌≡◌, ◌≢◌, refl, ap, ◌∙◌, none, some, List, [], ◌∷◌, ◌++◌, arith,
  length, length-append, ◌==◌, ==_iff, ◌⊎◌, if◌then◌else◌, All, Bool-cases, get_elem?,
  get_elem?_beyond, drop, get_elem?-drop, drop-drop, append_assoc, inl, inr, Option-cases,
}
use picoos_lwip.Prelude.Bytes.{Bytes, take_exact, take_exact-append, drop-append}
use picoos_lwip.Dhcps.Types.{Ip4, ip_of_bytes, ip_zero}
use picoos_lwip.Dhcps.Options.{
  ScanResult, found, overrun, exhausted, scan_options, opt_end, opt_req_ip, note_option,
  scan_request,
}

-- An option as the protocol has it, and the bytes that stand for a list of them.
pub record Tlv : Type 0 where
  pub code : ℕ
  pub content : Bytes

abbrev pub encode : List Tlv → Bytes
encode [] = []
encode (o ∷ os) = o.code ∷ length o.content ∷ (o.content ++ encode os)

-- The last requested address, if one of four bytes is given, else `req`.
abbrev pub requested : List Tlv → Ip4 → Ip4
requested [] req = req
requested (o ∷ os) req = requested os (
    if o.code == opt_req_ip
    then (elim (ip_of_bytes o.content) [ some ip ↦ ip | none ↦ req ])
    else req)

-- One round of the loop: it stops, or it passes one option.
scan_round :
    (fuel : ℕ) (p : Bytes) (at : ℕ) (req : Ip4)
    → (scan_options (suc fuel) p at req ≡ overrun)
      ⊎ ((get_elem? p at ≡ some opt_end) × (scan_options (suc fuel) p at req ≡ found req)
          ⊎ ((len : ℕ) × (req' : Ip4) × (get_elem? p at ≢ none)
              × (scan_options (suc fuel) p at req ≡ scan_options fuel p (at + len + 2) req')))
unfolding scan_options
scan_round fuel p at req = elim (Option-cases (get_elem? p at)) [
  | inl e ↦ inl (ground arith)
  | inr (code, e) ↦ elim (Bool-cases (code == opt_end)) [
    | inl stop ↦ inr (inl (e ∙ ap some ((==_iff code 255).0 stop), ground arith))
    | inr more ↦ elim (Option-cases (get_elem? p (at + 1))) [
      | inl k ↦ inl (ground arith)
      | inr (len, k) ↦ elim (Option-cases (note_option p at code len req)) [
        | inl n ↦ inl (ground arith)
        | inr (req', n) ↦ inr (inr (len, req', (λ z. cc), ground arith))
      ]
    ]
  ]
]

-- The loop always ends: the fuel is more than the bytes that are left.
pub scan_options-ne-exhausted :
    (fuel : ℕ) (p : Bytes) (at : ℕ) (req : Ip4)
    → length p < at + suc fuel
    → scan_options (suc fuel) p at req ≢ exhausted
scan_options-ne-exhausted zero p at req h = elim (scan_round 0 p at req) [
  | inl e ↦ λ z. cc
  | inr (inl (_, e)) ↦ λ z. cc
  | inr (inr (len, req', inside, e)) ↦ absurd (inside (get_elem?_beyond p at (omega arith)))
]
scan_options-ne-exhausted (suc fuel) p at req h = elim (scan_round (suc fuel) p at req) [
  | inl e ↦ λ z. cc
  | inr (inl (_, e)) ↦ λ z. cc
  | inr (inr (len, req', inside, e)) ↦
      rw e (scan_options-ne-exhausted fuel p (at + len + 2) req' (omega arith))
]

-- With no end option in the message the loop finds nothing.
scan_options-ne-found :
    (fuel : ℕ) (p : Bytes) (at : ℕ) (req r : Ip4)
    → ((i : ℕ) → at ≤ i → get_elem? p i ≢ some opt_end)
    → scan_options fuel p at req ≢ found r
scan_options-ne-found zero p at req r h = unfold scan_options in λ z. cc
scan_options-ne-found (suc fuel) p at req r h = elim (scan_round fuel p at req) [
  | inl e ↦ λ z. cc
  | inr (inl (stop, _)) ↦ absurd (h at (omega arith) stop)
  | inr (inr (len, req', inside, e)) ↦
      rw e (scan_options-ne-found fuel p (at + len + 2) req' r (λ i k. h i (omega arith)))
]

-- The loop over a request's options ends for every message: at the end option, or by a read
-- outside the message.
pub scan_request-ne-exhausted : (p : Bytes) (options : ℕ) → scan_request p options ≢ exhausted
unfolding scan_request
scan_request-ne-exhausted p options =
    scan_options-ne-exhausted (length p) p options ip_zero (omega arith)

ScanResult-cases : (r : ScanResult) → ((ip : Ip4) → r ≢ found ip) → r ≢ exhausted → r ≡ overrun
ScanResult-cases (found ip) h k = absurd (h ip refl)
ScanResult-cases overrun h k = refl
ScanResult-cases exhausted h k = absurd (k refl)

-- A message with no byte 255 from the start of its options on makes the loop read past its end.
pub scan_request_overrun :
    (p : Bytes) (options : ℕ)
    → ((i : ℕ) → options ≤ i → get_elem? p i ≢ some opt_end)
    → scan_request p options ≡ overrun
scan_request_overrun p options h =
    ScanResult-cases (scan_request p options)
      (λ ip. unfold scan_request in scan_options-ne-found (suc (length p)) p options ip_zero ip h)
      (scan_request-ne-exhausted p options)

-- The option pointer at the start of an encoded list, and one option further.
module _ (p : Bytes) (at : ℕ) (o : Tlv) (rest : Bytes)
    (here : drop at p ≡ o.code ∷ length o.content ∷ (o.content ++ rest)) where
  code_here : get_elem? p at ≡ some o.code
  code_here = get_elem?-drop at 0 at p (omega arith) ∙ ap (λ r. get_elem? r 0) here

  len_here : get_elem? p (at + 1) ≡ some (length o.content)
  len_here = get_elem?-drop at 1 (at + 1) p refl ∙ ap (λ r. get_elem? r 1) here

  content_here : drop (at + 2) p ≡ o.content ++ rest
  content_here = drop-drop at 2 (at + 2) p refl ∙ ap (drop 2) here

  rest_here : drop (at + length o.content + 2) p ≡ rest
  rest_here =
      drop-drop (at + 2) (length o.content) (at + length o.content + 2) p (omega arith)
      ∙ ap (drop (length o.content)) content_here
      ∙ drop-append o.content rest

ip_of_bytes-none : (b : Bytes) → length b ≢ 4 → ip_of_bytes b ≡ none
ip_of_bytes-none [] h = refl
ip_of_bytes-none (a ∷ []) h = refl
ip_of_bytes-none (a ∷ b ∷ []) h = refl
ip_of_bytes-none (a ∷ b ∷ c ∷ []) h = refl
ip_of_bytes-none (a ∷ b ∷ c ∷ d ∷ []) h = absurd (h refl)
ip_of_bytes-none (a ∷ b ∷ c ∷ d ∷ e ∷ r) h = refl

ip_of_bytes_four : (b : Bytes) → length b ≡ 4 → (ip : Ip4) × (ip_of_bytes b ≡ some ip)
ip_of_bytes_four [] h = absurd (omega arith)
ip_of_bytes_four (a ∷ []) h = absurd (omega arith)
ip_of_bytes_four (a ∷ b ∷ []) h = absurd (omega arith)
ip_of_bytes_four (a ∷ b ∷ c ∷ []) h = absurd (omega arith)
ip_of_bytes_four (a ∷ b ∷ c ∷ d ∷ []) h = (record { b0 = a; b1 = b; b2 = c; b3 = d }, refl)
ip_of_bytes_four (a ∷ b ∷ c ∷ d ∷ e ∷ r) h = absurd (omega arith)

-- What the `switch` takes from an option.
abbrev chosen : Tlv → Ip4 → Ip4
chosen o req =
    if o.code == opt_req_ip
    then (elim (ip_of_bytes o.content) [ some ip ↦ ip | none ↦ req ])
    else req

note_option_here :
    (p : Bytes) (at : ℕ) (o : Tlv) (rest : Bytes) (req : Ip4)
    → drop at p ≡ o.code ∷ length o.content ∷ (o.content ++ rest)
    → note_option p at o.code (length o.content) req ≡ some (chosen o req)
unfolding note_option
note_option_here p at o rest req here = elim (Bool-cases (length o.content == 4)) [
  | inl four ↦
      let e : length o.content ≡ 4 = (==_iff (length o.content) 4).0 four in
      let (ip, k) = ip_of_bytes_four o.content e in
      ground (
        arith,
        content_here p at o rest here,
        take_exact-append o.content rest,
        ap (λ (n : ℕ). take_exact n (o.content ++ rest)) e,
      )
  | inr other ↦ ground (arith, ip_of_bytes-none o.content (λ e. ground arith))
]

scan_options_end :
    (fuel : ℕ) (p : Bytes) (at : ℕ) (req : Ip4)
    → get_elem? p at ≡ some opt_end
    → scan_options (suc fuel) p at req ≡ found req
unfolding scan_options
scan_options_end fuel p at req e = ground arith

scan_options_next :
    (fuel : ℕ) (p : Bytes) (at code len : ℕ) (req req' : Ip4)
    → get_elem? p at ≡ some code
    → code ≢ opt_end
    → get_elem? p (at + 1) ≡ some len
    → note_option p at code len req ≡ some req'
    → scan_options (suc fuel) p at req ≡ scan_options fuel p (at + len + 2) req'
unfolding scan_options
scan_options_next fuel p at code len req req' e ne k n = ground arith

scan_options-encode :
    (os : List Tlv) (fuel : ℕ) (p : Bytes) (at : ℕ) (req : Ip4) (post : Bytes)
    → length os < fuel
    → All (λ o. o.code ≢ opt_end) os
    → drop at p ≡ encode os ++ opt_end ∷ post
    → scan_options fuel p at req ≡ found (requested os req)
scan_options-encode os zero p at req post h codes here = elim h [ ]
scan_options-encode [] (suc fuel) p at req post h codes here =
    scan_options_end fuel p at req
      (get_elem?-drop at 0 at p (omega arith) ∙ ap (λ r. get_elem? r 0) here)
scan_options-encode (o ∷ os) (suc fuel) p at req post h codes here =
    let rest = encode os ++ opt_end ∷ post in
    let here' : drop at p ≡ o.code ∷ length o.content ∷ (o.content ++ rest) =
      here ∙ ap (λ t. o.code ∷ length o.content ∷ t) (append_assoc o.content (encode os) _) in
    scan_options_next fuel p at o.code (length o.content) req (chosen o req)
      (code_here p at o rest here') codes.0 (len_here p at o rest here')
      (note_option_here p at o rest req here')
    ∙ scan_options-encode os fuel p (at + length o.content + 2) (chosen o req) post (omega arith)
        codes.1 (rest_here p at o rest here')

length-le-encode : (os : List Tlv) → length os ≤ length (encode os)
length-le-encode [] = omega arith
length-le-encode (o ∷ os) =
    omega (arith, length-le-encode os, length-append {0} o.content (encode os))

-- From an encoded list of options with an end option the loop takes the last option 50 of four
-- bytes, and the address 0.0.0.0 if there is none; no option has the code 255.
pub scan_request-encode :
    (pre : Bytes) (os : List Tlv) (post : Bytes)
    → All (λ o. o.code ≢ opt_end) os
    → scan_request (pre ++ (encode os ++ opt_end ∷ post)) (length pre)
      ≡ found (requested os ip_zero)
unfolding scan_request
scan_request-encode pre os post codes =
    scan_options-encode os (suc (length (pre ++ (encode os ++ opt_end ∷ post)))) _ (length pre)
      ip_zero post enough codes (drop-append pre (encode os ++ opt_end ∷ post))
  where
    enough : length os < suc (length (pre ++ (encode os ++ opt_end ∷ post)))
    enough = omega (
      arith,
      length-le-encode os,
      length-append {0} pre (encode os ++ opt_end ∷ post),
      length-append {0} (encode os) (opt_end ∷ post),
    )

pub ScanResult-split :
    (r : ScanResult) → ((ip : Ip4) × (r ≡ found ip)) ⊎ ((r ≡ overrun) ⊎ (r ≡ exhausted))
ScanResult-split (found ip) = inl (ip, refl)
ScanResult-split overrun = inr (inl refl)
ScanResult-split exhausted = inr (inr refl)
