-- ===== src/Padding/SmallPackets.antt =====
-- Packets in lists, as an instance of what the drivers use of lwIP's.
use picoos_lwip.Prelude.{
  ℕ, zero, suc, ◌+◌, ◌≤◌, ◌≡◌, refl, ap, ◌∙◌, List, [], ◌∷◌, ◌++◌, arith, length, drop,
}
use picoos_lwip.Prelude.Bytes.{Bytes}

-- The first buffer of a packet: the bytes before its payload, the nearest first, the payload and the
-- bytes behind it; and the other buffers.
pub record SmallPacket (R : Type 0) : Type 0 where
  pub front : Bytes
  pub body : Bytes
  pub tail : Bytes
  pub rest : List R

-- The first `n` of `a` go to `b`.
abbrev pub moved : ℕ → Bytes → Bytes → Bytes × Bytes
moved zero a b = (a, b)
moved (suc n) [] b = ([], b)
moved (suc n) (v ∷ a) b = moved n a (v ∷ b)

module _ {R : Type 0} where
  abbrev pub hide_front : ℕ → SmallPacket R → SmallPacket R
  hide_front n p = record p {
    body = (moved n p.body p.front).0;
    front = (moved n p.body p.front).1;
  }

  abbrev pub reveal_front : ℕ → SmallPacket R → SmallPacket R
  reveal_front n p = record p {
    front = (moved n p.front p.body).0;
    body = (moved n p.front p.body).1;
  }

pub moved-drop : (n : ℕ) (a b : Bytes) → (moved n a b).0 ≡ drop n a
moved-drop zero a b = refl
moved-drop (suc n) [] b = refl
moved-drop (suc n) (v ∷ a) b = moved-drop n a (v ∷ b)

pub length-moved : (n : ℕ) (a b : Bytes) → n ≤ length a → length (moved n a b).1 ≡ n + length b
length-moved zero a b h = omega arith
length-moved (suc n) [] b h = absurd (omega arith)
length-moved (suc n) (v ∷ a) b h = omega (arith, length-moved n a (v ∷ b))

moved-suc : (n : ℕ) (a b : Bytes) → moved (suc n) a b ≡ moved 1 (moved n a b).0 (moved n a b).1
moved-suc zero a b = refl
moved-suc (suc n) [] b = refl
moved-suc (suc n) (v ∷ a) b = moved-suc n a (v ∷ b)

pub moved-moved :
    (n : ℕ) (a b : Bytes) → n ≤ length a → moved n (moved n a b).1 (moved n a b).0 ≡ (b, a)
moved-moved zero a b h = refl
moved-moved (suc n) [] b h = absurd (omega arith)
moved-moved (suc n) (v ∷ a) b h =
    moved-suc n (moved n a (v ∷ b)).1 (moved n a (v ∷ b)).0
    ∙ ap (λ (t : Bytes × Bytes). moved 1 t.0 t.1) (moved-moved n a (v ∷ b) (omega arith))

pub drop_left : (n : ℕ) (xs ys : Bytes) → n ≤ length xs → drop n (xs ++ ys) ≡ drop n xs ++ ys
drop_left zero xs ys h = refl
drop_left (suc n) [] ys h = absurd (omega arith)
drop_left (suc n) (x ∷ xs) ys h = drop_left n xs ys (omega arith)

module _ {R : Type 0} where
  pub reveal_front-hide_front :
      (n : ℕ) (p : SmallPacket R) → n ≤ length p.body → reveal_front n (hide_front n p) ≡ p
  reveal_front-hide_front n p h =
      ap (λ (t : Bytes × Bytes). record p { front = t.0; body = t.1 })
        (moved-moved n p.body p.front h)

  pub hide_front-reveal_front :
      (n : ℕ) (p : SmallPacket R) → n ≤ length p.front → hide_front n (reveal_front n p) ≡ p
  hide_front-reveal_front n p h =
      ap (λ (t : Bytes × Bytes). record p { body = t.0; front = t.1 })
        (moved-moved n p.front p.body h)
