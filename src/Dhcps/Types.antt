-- ===== src/Dhcps/Types.antt =====
-- Addresses of apps/dhcps/dhcps.c. An `ip4_addr_t` is four bytes in memory, which the server copies and
-- compares with `memcpy` and `memcmp`; a hardware address is six.
use picoos_lwip.Prelude.{
  ℕ, ◌≡◌, ◌≢◌, subst, Bool, true, false, Option, none, some, [], ◌∷◌, arith, ◌>>=◌,
}
use picoos_lwip.Prelude.Bytes.{Bytes, bytes_eq, bytes_eq_refl, load_bytes}

pub record Ip4 : Type 0 where
  pub b0 : ℕ
  pub b1 : ℕ
  pub b2 : ℕ
  pub b3 : ℕ

-- the bytes of the object, as they stand in memory
abbrev pub octets : Ip4 → Bytes
octets a = a.b0 ∷ a.b1 ∷ a.b2 ∷ a.b3 ∷ []

abbrev pub ip_zero : Ip4
ip_zero = record { b0 = 0; b1 = 0; b2 = 0; b3 = 0 }

-- an address from the bytes that `memcpy` brings
abbrev pub ip_of_bytes : Bytes → Option Ip4
ip_of_bytes (a ∷ b ∷ c ∷ d ∷ []) = some (record { b0 = a; b1 = b; b2 = c; b3 = d })
ip_of_bytes _ = none

-- `memcpy(&ip, ptr, 4)`
abbrev pub load_ip : ℕ → Bytes → Option Ip4
load_ip at p = do b ← load_bytes at 4 p; ip_of_bytes b

-- `memcmp(&a, &b, 4) == 0`
abbrev pub ip_eq : Ip4 → Ip4 → Bool
ip_eq a b = bytes_eq (octets a) (octets b)

abbrev pub free_mac : Bytes
free_mac = 0 ∷ 0 ∷ 0 ∷ 0 ∷ 0 ∷ 0 ∷ []

pub ip_eq→≡ : (a b : Ip4) → ip_eq a b ≡ true → a ≡ b
ip_eq→≡ a b h = ground arith

pub ip_eq_refl : (a : Ip4) → ip_eq a a ≡ true
ip_eq_refl a = bytes_eq_refl (octets a)

pub ip_eq→≢ : (a b : Ip4) → ip_eq a b ≡ false → a ≢ b
ip_eq→≢ a b h e = let same : ip_eq a b ≡ true = subst (λ x. ip_eq a x ≡ true) e (ip_eq_refl a) in cc
