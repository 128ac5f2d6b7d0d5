-- ===== src/Prelude/Bytes.antt =====
-- Byte buffers: the memory that a C pointer may reach, with reads and writes that fault outside.
use Prim.Native.Nat.{ℕ, zero, suc, ◌+◌, ◌≤◌}
use mathlib.Core.Path.{◌≡◌, refl, sym, ap, ◌∙◌}
use mathlib.Core.Bool.{Bool, true, false, ◌&&◌}
use mathlib.Core.List.{List, [], ◌∷◌, ◌++◌, append_assoc}
use mathlib.Core.Option.{Option, none, some}
use native.Mathlib.Omega.{arith}
use picoos_lwip.Prelude.Tests.{◌==◌}
use picoos_lwip.Prelude.Lists.{length, take, drop, length-append, length-drop, length-take}
use picoos_lwip.Prelude.Fault.{◌>>=◌, >>=-eq-some}

abbrev pub Bytes : Type 0
Bytes = List ℕ

-- `memcmp(a, b, n) == 0` for two objects of one size.
abbrev pub bytes_eq : Bytes → Bytes → Bool
bytes_eq [] [] = true
bytes_eq (x ∷ xs) (y ∷ ys) = (x == y) && bytes_eq xs ys
bytes_eq _ _ = false

-- The `n` bytes at the start of a buffer.
abbrev pub take_exact : ℕ → Bytes → Option Bytes
take_exact zero b = some []
take_exact (suc n) [] = none
take_exact (suc n) (x ∷ xs) = do r ← take_exact n xs; some (x ∷ r)

-- The `n` bytes at offset `i`.
abbrev pub load_bytes : ℕ → ℕ → Bytes → Option Bytes
load_bytes i n b = take_exact n (drop i b)

abbrev pub overwrite : Bytes → Bytes → Option Bytes
overwrite [] b = some b
overwrite (v ∷ vs) [] = none
overwrite (v ∷ vs) (x ∷ xs) = do r ← overwrite vs xs; some (v ∷ r)

-- Writes `vs` at offset `i`.
abbrev pub store_bytes : ℕ → Bytes → Bytes → Option Bytes
store_bytes zero vs b = overwrite vs b
store_bytes (suc i) vs [] = none
store_bytes (suc i) vs (x ∷ xs) = do r ← store_bytes i vs xs; some (x ∷ r)

-- The buffer after such a write.
abbrev pub splice : ℕ → Bytes → Bytes → Bytes
splice zero vs b = vs ++ drop (length vs) b
splice (suc i) vs [] = []
splice (suc i) vs (x ∷ xs) = x ∷ splice i vs xs

pub bytes_eq_refl : (a : Bytes) → bytes_eq a a ≡ true
bytes_eq_refl [] = refl
bytes_eq_refl (x ∷ xs) = ground (arith, bytes_eq_refl xs)

pub bytes_eq→≡ : (a b : Bytes) → bytes_eq a b ≡ true → a ≡ b
bytes_eq→≡ [] [] h = refl
bytes_eq→≡ [] (y ∷ ys) h = cc
bytes_eq→≡ (x ∷ xs) [] h = cc
bytes_eq→≡ (x ∷ xs) (y ∷ ys) h = ground (arith, bytes_eq→≡ xs ys)

pub take_exact-append : (vs r : Bytes) → take_exact (length vs) (vs ++ r) ≡ some vs
take_exact-append [] r = refl
take_exact-append (x ∷ vs) r = rw (take_exact-append vs r)

pub length-take_exact : (n : ℕ) (b : Bytes) {vs : Bytes} → take_exact n b ≡ some vs → length vs ≡ n
length-take_exact zero b h = ground arith
length-take_exact (suc n) [] h = cc
length-take_exact (suc n) (x ∷ xs) h =
    let (r, e, k) = >>=-eq-some (take_exact n xs) _ h in ground (arith, length-take_exact n xs e)

-- A load inside the buffer succeeds.
pub take_exact_total :
    (n : ℕ) (b : Bytes) → n ≤ length b → (vs : Bytes) × (take_exact n b ≡ some vs)
take_exact_total zero b h = ([], refl)
take_exact_total (suc n) [] h = absurd (omega arith)
take_exact_total (suc n) (x ∷ xs) h =
    let (r, e) = take_exact_total n xs (omega arith) in (x ∷ r, rw e)

overwrite-eq :
    (vs b : Bytes) → length vs ≤ length b → overwrite vs b ≡ some (vs ++ drop (length vs) b)
overwrite-eq [] b h = refl
overwrite-eq (v ∷ vs) [] h = absurd (omega arith)
overwrite-eq (v ∷ vs) (x ∷ xs) h = rw (overwrite-eq vs xs (omega arith))

-- A write inside the buffer succeeds, with `splice`.
pub store_bytes-eq :
    (i : ℕ) (vs b : Bytes) → i + length vs ≤ length b → store_bytes i vs b ≡ some (splice i vs b)
store_bytes-eq zero vs b h = overwrite-eq vs b (omega arith)
store_bytes-eq (suc i) vs [] h = absurd (omega arith)
store_bytes-eq (suc i) vs (x ∷ xs) h = rw (store_bytes-eq i vs xs (omega arith))

pub length-splice :
    (i : ℕ) (vs b : Bytes) → i + length vs ≤ length b → length (splice i vs b) ≡ length b
length-splice zero vs b h =
    omega (arith, length-append vs (drop (length vs) b), length-drop (length vs) b)
length-splice (suc i) vs [] h = refl
length-splice (suc i) vs (x ∷ xs) h = omega (arith, length-splice i vs xs (omega arith))

pub drop-append : (vs r : Bytes) → drop (length vs) (vs ++ r) ≡ r
drop-append [] r = refl
drop-append (x ∷ vs) r = drop-append vs r

drop-nil : (n : ℕ) → drop {A = ℕ} n [] ≡ []
drop-nil zero = refl
drop-nil (suc n) = refl

drop-length-append :
    (vs ws b : Bytes) → drop (length (vs ++ ws)) b ≡ drop (length ws) (drop (length vs) b)
drop-length-append [] ws b = refl
drop-length-append (v ∷ vs) ws [] = sym (drop-nil (length ws))
drop-length-append (v ∷ vs) ws (x ∷ xs) = drop-length-append vs ws xs

pub splice-append :
    (vs ws r : Bytes) → splice (length vs) ws (vs ++ r) ≡ vs ++ (ws ++ drop (length ws) r)
splice-append [] ws r = refl
splice-append (v ∷ vs) ws r = ap (λ t. v ∷ t) (splice-append vs ws r)

-- Two adjacent writes are one.
pub splice-splice :
    (i j : ℕ) (vs ws b : Bytes)
    → j ≡ i + length vs
    → splice j ws (splice i vs b) ≡ splice i (vs ++ ws) b
splice-splice zero j vs ws b e =
    rw (the_end, splice-append vs ws (drop (length vs) b), drop-length-append vs ws b, append_assoc)
  where
    the_end : j ≡ length vs
    the_end = omega arith
splice-splice (suc i) zero vs ws b e = absurd (omega arith)
splice-splice (suc i) (suc j) vs ws [] e = refl
splice-splice (suc i) (suc j) vs ws (x ∷ xs) e =
    ap (λ t. x ∷ t) (splice-splice i j vs ws xs (omega arith))

pub drop-splice :
    (i : ℕ) (vs b : Bytes)
    → i ≤ length b
    → drop i (splice i vs b) ≡ vs ++ drop (length vs) (drop i b)
drop-splice zero vs b h = refl
drop-splice (suc i) vs [] h = absurd (omega arith)
drop-splice (suc i) vs (x ∷ xs) h = drop-splice i vs xs (omega arith)

-- What was written is read back.
pub load_bytes-splice_self :
    (i : ℕ) (vs b : Bytes) → i ≤ length b → load_bytes i (length vs) (splice i vs b) ≡ some vs
load_bytes-splice_self i vs b h =
    rw (drop-splice i vs b h) (take_exact-append vs (drop (length vs) (drop i b)))

take_exact-splice : (n j : ℕ) (vs b : Bytes) → n ≤ j → take_exact n (splice j vs b) ≡ take_exact n b
take_exact-splice zero j vs b h = refl
take_exact-splice (suc n) zero vs b h = absurd (omega arith)
take_exact-splice (suc n) (suc j) vs [] h = refl
take_exact-splice (suc n) (suc j) vs (x ∷ xs) h = rw (take_exact-splice n j vs xs (omega arith))

-- A write leaves what stands before it.
pub load_bytes-splice_before :
    (i n j : ℕ) (vs b : Bytes) → i + n ≤ j → load_bytes i n (splice j vs b) ≡ load_bytes i n b
load_bytes-splice_before zero n j vs b h = take_exact-splice n j vs b (omega arith)
load_bytes-splice_before (suc i) n zero vs b h = absurd (omega arith)
load_bytes-splice_before (suc i) n (suc j) vs [] h = refl
load_bytes-splice_before (suc i) n (suc j) vs (x ∷ xs) h =
    load_bytes-splice_before i n j vs xs (omega arith)

drop-append_drop :
    (i : ℕ) (vs b : Bytes)
    → length vs ≤ i
    → length vs ≤ length b
    → drop i (vs ++ drop (length vs) b) ≡ drop i b
drop-append_drop i [] b h k = refl
drop-append_drop zero (v ∷ vs) b h k = absurd (omega arith)
drop-append_drop (suc i) (v ∷ vs) [] h k = absurd (omega arith)
drop-append_drop (suc i) (v ∷ vs) (x ∷ xs) h k =
    drop-append_drop i vs xs (omega arith) (omega arith)

drop-splice_after :
    (i j : ℕ) (vs b : Bytes)
    → j + length vs ≤ i
    → j + length vs ≤ length b
    → drop i (splice j vs b) ≡ drop i b
drop-splice_after i zero vs b h k = drop-append_drop i vs b (omega arith) (omega arith)
drop-splice_after zero (suc j) vs b h k = absurd (omega arith)
drop-splice_after (suc i) (suc j) vs [] h k = refl
drop-splice_after (suc i) (suc j) vs (x ∷ xs) h k =
    drop-splice_after i j vs xs (omega arith) (omega arith)

-- A write leaves what stands behind it.
pub load_bytes-splice_after :
    (i n j : ℕ) (vs b : Bytes)
    → j + length vs ≤ i
    → j + length vs ≤ length b
    → load_bytes i n (splice j vs b) ≡ load_bytes i n b
load_bytes-splice_after i n j vs b h k = ap (take_exact n) (drop-splice_after i j vs b h k)

pub splice-nil : (i : ℕ) (b : Bytes) → splice i [] b ≡ b
splice-nil zero b = refl
splice-nil (suc i) [] = refl
splice-nil (suc i) (x ∷ xs) = ap (λ t. x ∷ t) (splice-nil i xs)

take_exact-append_left :
    (n : ℕ) (vs r : Bytes) → n ≤ length vs → take_exact n (vs ++ r) ≡ take_exact n vs
take_exact-append_left zero vs r h = refl
take_exact-append_left (suc n) [] r h = absurd (omega arith)
take_exact-append_left (suc n) (x ∷ vs) r h = rw (take_exact-append_left n vs r (omega arith))

take_exact-take : (n k : ℕ) (b : Bytes) → n ≤ k → take_exact n (take k b) ≡ take_exact n b
take_exact-take zero k b h = refl
take_exact-take (suc n) zero b h = absurd (omega arith)
take_exact-take (suc n) (suc k) [] h = refl
take_exact-take (suc n) (suc k) (x ∷ xs) h = rw (take_exact-take n k xs (omega arith))

-- A load from a copied part is a load from the original.
pub load_bytes-append_take :
    (i n k : ℕ) (b r : Bytes)
    → i + n ≤ k
    → k ≤ length b
    → load_bytes i n (take k b ++ r) ≡ load_bytes i n b
load_bytes-append_take zero n k b r h l =
    take_exact-append_left n (take k b) r (omega (arith, length-take k b))
    ∙ take_exact-take n k b (omega arith)
load_bytes-append_take (suc i) n zero b r h l = absurd (omega arith)
load_bytes-append_take (suc i) n (suc k) [] r h l = absurd (omega arith)
load_bytes-append_take (suc i) n (suc k) (x ∷ xs) r h l =
    load_bytes-append_take i n k xs r (omega arith) (omega arith)
