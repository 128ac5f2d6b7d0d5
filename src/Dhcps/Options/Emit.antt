-- ===== src/Dhcps/Options/Emit.antt =====
-- What the writers of options leave in the buffer (addOptionTime, addOptionIP and addOptionByte of
-- apps/dhcps/dhcps.c).
use picoos_lwip.Prelude.{
  ℕ, ◌+◌, ◌*◌, ◌/◌, ◌%◌, ◌^◌, ◌≤◌, ◌<◌, ◌≡◌, refl, ap, ◌∙◌, Option, some, [], ◌∷◌, ◌++◌, map, arith,
  length, length-append, ◌>>=◌, >>=-some,
}
use picoos_lwip.Prelude.Bytes.{
  Bytes, splice, store_bytes-eq, length-splice, splice-splice, splice-nil,
}
use picoos_lwip.Dhcps.Types.{Ip4, octets}
use picoos_lwip.Dhcps.Options.{Cursor, put, add_option_byte, add_option_ip, add_option_time}

-- The cursor after `vs` has been written.
abbrev pub advance : Bytes → Cursor → Cursor
advance vs c = record { bytes = splice c.at vs c.bytes; at = c.at + length vs }

abbrev pub Fits : ℕ → Cursor → Type 0
Fits n c = c.at + n ≤ length c.bytes

advance-nil : (c : Cursor) → advance [] c ≡ c
advance-nil c = λ i. record { bytes = splice-nil c.at c.bytes i; at = sums i }
  where
    sums : c.at + 0 ≡ c.at
    sums = omega arith

pub advance-advance :
    (vs ws : Bytes) (c : Cursor) → advance ws (advance vs c) ≡ advance (vs ++ ws) c
advance-advance vs ws c =
    λ i. record { bytes = splice-splice c.at (c.at + length vs) vs ws c.bytes refl i; at = sums i }
  where
    sums : c.at + length vs + length ws ≡ c.at + length (vs ++ ws)
    sums = omega (arith, length-append vs ws)

pub Fits-advance :
    (n : ℕ) (vs : Bytes) (c : Cursor) → Fits (length vs + n) c → Fits n (advance vs c)
Fits-advance n vs c h = omega (arith, length-splice c.at vs c.bytes (omega arith))

pub put_lem : (v : ℕ) (c : Cursor) → Fits 1 c → put v c ≡ some (advance (v % 256 ∷ []) c)
unfolding put
put_lem v c h = rw (store_bytes-eq c.at (v % 256 ∷ []) c.bytes h)

abbrev u8 : ℕ → ℕ
u8 v = v % 256

-- Single bytes, one after the other.
emit : Bytes → Cursor → Option Cursor
emit [] c = some c
emit (v ∷ vs) c = put v c >>= emit vs

emit_lem : (vs : Bytes) (c : Cursor) → Fits (length vs) c → emit vs c ≡ some (advance (map u8 vs) c)
unfolding emit
emit_lem [] c h = rw (advance-nil c)
emit_lem (v ∷ vs) c h = rw (put_lem v c (omega arith)) (
    emit_lem vs (advance (v % 256 ∷ []) c) (Fits-advance (length vs) (v % 256 ∷ []) c (omega arith))
    ∙ ap some (advance-advance (v % 256 ∷ []) (map u8 vs) c))

-- addOptionByte writes code, length 1 and value.
pub add_option_byte_lem :
    (opt val : ℕ) (c : Cursor)
    → Fits 3 c
    → add_option_byte opt val c ≡ some (advance (opt % 256 ∷ 1 ∷ val % 256 ∷ []) c)
add_option_byte_lem opt val c h = (bound ∙ emit_lem (opt ∷ 1 ∷ val ∷ []) c h)
  where
    bound : add_option_byte opt val c ≡ emit (opt ∷ 1 ∷ val ∷ []) c
    bound = unfold add_option_byte emit in simp >>=-some

-- The four bytes of a `uint32_t`, the highest first.
abbrev pub big_endian : ℕ → Bytes
big_endian t = t / 2 ^ 24 ∷ t / 2 ^ 16 % 256 ∷ t / 2 ^ 8 % 256 ∷ t % 256 ∷ []

-- addOptionTime writes the code, the length 4 and the time's four bytes, the highest first, and
-- moves the pointer by six, for a code that is a byte, a time below 2 ^ 32 and six bytes of room.
add_option_time_lem :
    (opt t : ℕ) (c : Cursor)
    → opt < 256
    → t < 2 ^ 32
    → Fits 6 c
    → add_option_time opt t c ≡ some (advance (opt ∷ 4 ∷ big_endian t) c)
add_option_time_lem opt t c ho ht h =
    bound ∙ emit_lem written c h ∙ ap (λ vs. some (advance vs c)) same
  where
    written : Bytes
    written =
        opt
        ∷ 4
        ∷ t / (256 * 256 * 256)
        ∷ t % (256 * 256 * 256) / (256 * 256)
        ∷ t % (256 * 256 * 256) % (256 * 256) / 256
        ∷ t % (256 * 256 * 256) % (256 * 256) % 256
        ∷ []

    bound : add_option_time opt t c ≡ emit written c
    bound = unfold add_option_time emit in simp >>=-some

    same : map u8 written ≡ opt ∷ 4 ∷ big_endian t
    same = ground arith

-- addOptionIP writes code, length 4 and the address as it stands in memory.
pub add_option_ip_lem :
    (opt : ℕ) (ip : Ip4) (c : Cursor)
    → Fits 6 c
    → add_option_ip opt ip c ≡ some (advance (opt % 256 ∷ 4 ∷ octets ip) c)
unfolding add_option_ip
add_option_ip_lem opt ip c h =
    let one = advance (opt % 256 ∷ []) c in
    let two = advance (4 ∷ []) one in
    let one_fits : Fits 5 one = Fits-advance 5 (opt % 256 ∷ []) c (omega arith) in
    let two_fits : Fits 4 two = Fits-advance 4 (4 ∷ []) one (omega arith) in
    rw
      (
        put_lem opt c (omega arith),
        put_lem 4 one (omega arith),
        store_bytes-eq two.at (octets ip) two.bytes two_fits,
      )
      (ap (λ t. some (advance (octets ip) t)) (advance-advance (opt % 256 ∷ []) (4 ∷ []) c)
        ∙ ap some (advance-advance (opt % 256 ∷ 4 ∷ []) (octets ip) c))

-- The writers behind bytes that are written already: how a chain of them is followed.
module _ (us : Bytes) (c : Cursor) where
  pub put_behind :
      (v : ℕ)
      → Fits (length us + 1) c
      → put v (advance us c) ≡ some (advance (us ++ (v % 256 ∷ [])) c)
  put_behind v h =
      put_lem v (advance us c) (Fits-advance 1 us c h)
      ∙ ap some (advance-advance us (v % 256 ∷ []) c)

  pub add_option_time_behind :
      (opt t : ℕ)
      → opt < 256
      → t < 2 ^ 32
      → Fits (length us + 6) c
      → add_option_time opt t (advance us c) ≡ some (advance (us ++ (opt ∷ 4 ∷ big_endian t)) c)
  add_option_time_behind opt t ho ht h =
      add_option_time_lem opt t (advance us c) ho ht (Fits-advance 6 us c h)
      ∙ ap some (advance-advance us (opt ∷ 4 ∷ big_endian t) c)

  pub add_option_ip_behind :
      (opt : ℕ) (ip : Ip4)
      → Fits (length us + 6) c
      → add_option_ip opt ip (advance us c) ≡ some (advance (us ++ (opt % 256 ∷ 4 ∷ octets ip)) c)
  add_option_ip_behind opt ip h =
      add_option_ip_lem opt ip (advance us c) (Fits-advance 6 us c h)
      ∙ ap some (advance-advance us (opt % 256 ∷ 4 ∷ octets ip) c)
