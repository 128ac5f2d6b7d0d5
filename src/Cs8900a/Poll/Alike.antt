-- ===== src/Cs8900a/Poll/Alike.antt =====
-- The two Ethernet drivers side by side: cs8900aIfInput of netif/cs8900a_lpc_e2129.c and
-- tapIfInput of netif/tapif.c.
use picoos_lwip.Prelude.{
  ℕ, ◌+◌, ◌*◌, ◌≤◌, ◌≡◌, refl, sym, ap, ap₂, ◌∙◌, Bool, true, some, List, [], ◌∷◌, ◌++◌, arith,
  length, length-append, map, get_elem?, take, drop, All,
}
use picoos_lwip.Prelude.Bytes.{Bytes, drop-append}
use picoos_lwip.Tap.{
  eth_buf_size, alloc_pbuf, link_recv, Turn, got, EthTypes, dispatch, tap_if_input,
}
use picoos_lwip.Tap.Frames.{joined}
use picoos_lwip.Tap.Handed.{tap_if_input-dispatch}
use picoos_lwip.Cs8900a.Board.{Gpio, Chip, IsBoard}
use picoos_lwip.Cs8900a.Access.Cycles.{Rests}
use picoos_lwip.Cs8900a.Transmit.{Buffer}
use picoos_lwip.Cs8900a.Transmit.Outcomes.{IsPaired}
use picoos_lwip.Cs8900a.Receive.Spec.{HasRoom, arrived, frame_length}
use picoos_lwip.Cs8900a.Receive.Outcomes.{
  total, total-IsShort, frame_in, length-frame_in, after_frame,
}
use picoos_lwip.Cs8900a.Poll.{Answers, cs8900a_if_input}
use picoos_lwip.Cs8900a.Poll.Handed.{cs8900a_if_input-dispatch}

pub take-append : (xs ys : Bytes) → take (length xs) (xs ++ ys) ≡ xs
take-append [] ys = refl
take-append (x ∷ xs) ys = rw (take-append xs ys)

-- A chain is given by its bytes and the lengths of its buffers.
joined-injective : (p r : List Bytes) → map length p ≡ map length r → joined p ≡ joined r → p ≡ r
joined-injective [] [] m e = refl
joined-injective [] (y ∷ r) m e = absurd (ground arith)
joined-injective (x ∷ p) [] m e = absurd (ground arith)
joined-injective (x ∷ p) (y ∷ r) m e =
    let len : length x ≡ length y = ground arith in
    let first : x ≡ y =
      sym (take-append x (joined p))
      ∙ ap₂ (λ (n : ℕ) (b : Bytes). take n b) len e
      ∙ take-append y (joined r) in
    let rest : joined p ≡ joined r =
      sym (drop-append x (joined p))
      ∙ ap₂ (λ (n : ℕ) (b : Bytes). drop n b) len e
      ∙ drop-append y (joined r) in
    ap₂ (λ (z : Bytes) zs. z ∷ zs) first (joined-injective p r (ground arith) rest)

length-joined :
    (p r : List Bytes) → map length p ≡ map length r → length (joined p) ≡ length (joined r)
length-joined [] [] m = refl
length-joined [] (y ∷ r) m = absurd (ground arith)
length-joined (x ∷ p) [] m = absurd (ground arith)
length-joined (x ∷ p) (y ∷ r) m =
    let rest = length-joined p r (ground arith) in
    let len : length x ≡ length y = ground arith in
    omega (arith, length-append x (joined p), length-append y (joined r))

module _ (types : EthTypes) (g : Gpio) (c : Chip) (b : IsBoard g c) where
  -- For the same frame of at most 1514 bytes, cs8900aIfInput and tapIfInput make the same calls of
  -- lwIP with the same packet, which holds the frame, and have the thread go on, provided that
  -- pbuf_alloc gives both buffers of the same lengths, that lwIP answers both alike, and that the
  -- conditions of each hold: the buffers' lengths are even but the last and add up to the frame's,
  -- the first is for the Ethernet header, and those for the chip hold the pairs that come in; the
  -- board is at rest, and its chip reports the frame that `read` gives.
  pub cs8900a_if_input-tap_if_input :
      (t : Answers) (u : Turn) (frame : Bytes) (q : Buffer) (qs : List Buffer) (r : Bytes)
      (rs : List Bytes) (hi lo : ℕ) {x : c.State} {s : g.State}
      → ((n : ℕ) (qs : List Buffer) → t.pbuf_alloc n ≡ some qs → All HasRoom qs)
      → Rests g c b x s
      → (arrived c x).0 ≡ true
      → t.pbuf_alloc (total (q ∷ qs)) ≡ some (q ∷ qs)
      → (frame_length c (arrived c x).1).0 ≡ total (q ∷ qs)
      → IsPaired (q ∷ qs)
      → frame_in c (total (q ∷ qs)) x ≡ frame
      → u.read ≡ got frame
      → length u.eth_buf ≡ eth_buf_size
      → length frame ≤ eth_buf_size
      → u.pbuf_alloc (length frame) ≡ some (r ∷ rs)
      → map length (r ∷ rs) ≡ map (λ (q : Buffer). q.len) (q ∷ qs)
      → u.accepts ≡ t.accepts
      → 14 ≤ q.len
      → get_elem? frame 12 ≡ some hi
      → get_elem? frame 13 ≡ some lo
      → (s' : g.State) × (p : List Bytes) × (joined p ≡ frame)
        × (cs8900a_if_input types g t s
            ≡ some (true, alloc_pbuf ∷ link_recv ∷ dispatch types t.accepts p (hi * 256 + lo), s'))
        × (tap_if_input types u
            ≡ some (true, alloc_pbuf ∷ link_recv ∷ dispatch types t.accepts p (hi * 256 + lo)))
        × Rests g c b (after_frame c (q ∷ qs) x) s'
  cs8900a_if_input-tap_if_input t u frame q qs r rs hi lo {x} room rests there given len paired same
        is_read size fits given' lens alike long h l =
      let n = total (q ∷ qs) in
      let whole_len : n ≡ length frame = sym (length-frame_in c n x) ∙ ap length same in
      let short = total-IsShort (q ∷ qs) (omega arith) in
      let (s', p, whole, plens, e, again) =
        cs8900a_if_input-dispatch types g c b t q qs hi lo room short rests there given len paired
          long (ap (λ (b : Bytes). get_elem? b 12) same ∙ h)
          (ap (λ (b : Bytes). get_elem? b 13) same ∙ l) in
      let held : joined p ≡ frame = whole ∙ same in
      let enough = length-joined (r ∷ rs) p (lens ∙ sym plens) ∙ ap length held in
      let wide : length r ≡ q.len = ground (arith, lens) in
      let (p', whole', plens', e') =
        tap_if_input-dispatch types u frame r rs hi lo is_read size fits given' enough (omega arith)
          h l in
      let one : p' ≡ p = joined-injective p' p (plens' ∙ lens ∙ sym plens) (whole' ∙ sym held) in
      (
        s',
        p,
        held,
        e,
        e'
            ∙ ap₂
                (λ (a : Bool) (z : List Bytes).
                  some (true, alloc_pbuf ∷ link_recv ∷ dispatch types a z (hi * 256 + lo)))
                alike one,
        again,
      )
