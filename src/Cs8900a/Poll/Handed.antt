-- ===== src/Cs8900a/Poll/Handed.antt =====
-- Which packets lwIP gets (cs8900aIfInput of netif/cs8900a_lpc_e2129.c).
use picoos_lwip.Prelude.{
  ℕ, zero, suc, ◌+◌, ◌*◌, ◌≤◌, ◌<◌, ◌≡◌, refl, sym, ap, ap₂, ◌∙◌, true, some, List, [], ◌∷◌, ◌++◌,
  arith, length, length-take, map, get_elem?, take, All, ◌>>=◌,
}
use picoos_lwip.Prelude.Bytes.{Bytes}
use picoos_lwip.Tap.{alloc_pbuf, link_recv, EthTypes, eth_type, dispatch}
use picoos_lwip.Tap.Frames.{joined}
use picoos_lwip.Tap.Handed.{get_elem?-append_left}
use picoos_lwip.Cs8900a.Board.{Gpio, Chip, IsBoard}
use picoos_lwip.Cs8900a.Access.Cycles.{Rests}
use picoos_lwip.Cs8900a.Transmit.{Buffer, payload, payloads}
use picoos_lwip.Cs8900a.Transmit.Outcomes.{IsPaired}
use picoos_lwip.Cs8900a.Receive.Spec.{HasRoom, IsShort, arrived, frame_length}
use picoos_lwip.Cs8900a.Receive.Outcomes.{total, frame_in, after_frame, low_level_input-payloads}
use picoos_lwip.Cs8900a.Poll.{Answers, memories, contents, cs8900a_if_input}

get_elem?-take : (i n : ℕ) (xs : Bytes) → i < n → get_elem? (take n xs) i ≡ get_elem? xs i
get_elem?-take i zero xs h = absurd (omega arith)
get_elem?-take i (suc n) [] h = refl
get_elem?-take zero (suc n) (x ∷ xs) h = refl
get_elem?-take (suc i) (suc n) (x ∷ xs) h = get_elem?-take i n xs (omega arith)

pub joined-contents : (ps : List Buffer) → joined (contents ps) ≡ payloads ps
joined-contents [] = refl
joined-contents (p ∷ ps) = ap (λ (t : Bytes). payload p ++ t) (joined-contents ps)

pub get_elem?-payloads :
    (i v : ℕ) (q : Buffer) (qs : List Buffer)
    → q.len ≤ length q.mem
    → i < q.len
    → get_elem? (payloads (q ∷ qs)) i ≡ some v
    → get_elem? q.mem i ≡ some v
get_elem?-payloads i v q qs room h e =
    let long : i < length (payload q) = omega (arith, length-take q.len q.mem) in
    sym (get_elem?-take i q.len q.mem h)
    ∙ sym (get_elem?-append_left i (payload q) (payloads qs) long)
    ∙ e

-- The type is read from the frame if the first buffer is for the Ethernet header.
pub eth_type-payloads :
    (ps : List Buffer) (n : ℕ) (ns : List ℕ) (hi lo : ℕ)
    → map (λ (q : Buffer). q.len) ps ≡ n ∷ ns
    → All HasRoom ps
    → 14 ≤ n
    → get_elem? (payloads ps) 12 ≡ some hi
    → get_elem? (payloads ps) 13 ≡ some lo
    → eth_type (memories ps) ≡ some (hi * 256 + lo)
unfolding eth_type
eth_type-payloads [] n ns hi lo m room long h l = absurd (ground arith)
eth_type-payloads (q ∷ qs) n ns hi lo m room long h l =
    let len : q.len ≡ n = ground arith in
    rw (
      get_elem?-payloads 12 hi q qs (omega (arith, room.0)) (omega arith) h,
      ◌>>=◌,
      get_elem?-payloads 13 lo q qs (omega (arith, room.0)) (omega arith) l,
    )

pub length-contents :
    (ps : List Buffer) → All HasRoom ps → map length (contents ps) ≡ map (λ (q : Buffer). q.len) ps
length-contents [] room = refl
length-contents (p ∷ ps) room =
    ap₂ (λ (n : ℕ) ns. n ∷ ns) (omega (arith, room.0, length-take p.len p.mem))
      (length-contents ps room.1)

module _ (types : EthTypes) (g : Gpio) (c : Chip) (b : IsBoard g c) where
  -- Where the chip reports a frame with the type bytes `hi` and `lo`, and pbuf_alloc gives buffers
  -- for its length, whose lengths add up to it, all even but the last, and of which the first is for
  -- the Ethernet header, cs8900aIfInput has the frame's bytes in a packet with buffers of those
  -- lengths, treats it by that type, and the thread goes on. Buffers that pbuf_alloc gives hold the
  -- pairs that come in, these have fewer than 65535 bytes each, and the board is at rest, as it is
  -- again afterwards.
  pub cs8900a_if_input-dispatch :
      (t : Answers) (q : Buffer) (qs : List Buffer) (hi lo : ℕ) {x : c.State} {s : g.State}
      → ((n : ℕ) (qs : List Buffer) → t.pbuf_alloc n ≡ some qs → All HasRoom qs)
      → All IsShort (q ∷ qs)
      → Rests g c b x s
      → (arrived c x).0 ≡ true
      → t.pbuf_alloc (total (q ∷ qs)) ≡ some (q ∷ qs)
      → (frame_length c (arrived c x).1).0 ≡ total (q ∷ qs)
      → IsPaired (q ∷ qs)
      → 14 ≤ q.len
      → get_elem? (frame_in c (total (q ∷ qs)) x) 12 ≡ some hi
      → get_elem? (frame_in c (total (q ∷ qs)) x) 13 ≡ some lo
      → (s' : g.State) × (p : List Bytes) × (joined p ≡ frame_in c (total (q ∷ qs)) x)
        × (map length p ≡ map (λ (q : Buffer). q.len) (q ∷ qs))
        × (cs8900a_if_input types g t s
            ≡ some (true, alloc_pbuf ∷ link_recv ∷ dispatch types t.accepts p (hi * 256 + lo), s'))
        × Rests g c b (after_frame c (q ∷ qs) x) s'
  unfolding cs8900a_if_input
  cs8900a_if_input-dispatch t q qs hi lo room short r there given len paired long h l =
      let (s', ps, e, whole, lens, roomy, rests) =
        low_level_input-payloads g c b t.pbuf_alloc (q ∷ qs) (room _ _ given) short r there given
          len paired in
      let ty =
        eth_type-payloads ps q.len (map (λ (q : Buffer). q.len) qs) hi lo lens roomy long
          (ap (λ (b : Bytes). get_elem? b 12) whole ∙ h)
          (ap (λ (b : Bytes). get_elem? b 13) whole ∙ l) in
      (
        s',
        contents ps,
        joined-contents ps ∙ whole,
        length-contents ps roomy ∙ lens,
        rw (e, ◌>>=◌, ty),
        rests,
      )
