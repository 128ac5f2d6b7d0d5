-- ===== src/Cs8900a/Receive/Outcomes.antt =====
-- Which bytes lowLevelInput of netif/cs8900a_lpc_e2129.c puts into a packet, and when it writes
-- behind one.
use picoos_lwip.Prelude.{
  ℕ, zero, suc, ◌+◌, ◌≤◌, ◌<◌, ◌≡◌, refl, sym, subst, ◌∙◌, ap, true, Option, some, List, [], ◌∷◌,
  ◌++◌, arith, length, length-append, length-take, take, drop, All, map, append-nil,
}
use picoos_lwip.Prelude.Bytes.{Bytes}
use picoos_lwip.Tap.{Event, link_recv, alloc_pbuf}
use picoos_lwip.Cs8900a.Board.{Gpio, Chip, IsBoard}
use picoos_lwip.Cs8900a.Regs.{rx_frame_port}
use picoos_lwip.Cs8900a.Access.Cycles.{Rests}
use picoos_lwip.Cs8900a.Transmit.{Buffer, payload, payloads}
use picoos_lwip.Cs8900a.Transmit.Spec.{even_up}
use picoos_lwip.Cs8900a.Transmit.Outcomes.{IsPaired}
use picoos_lwip.Cs8900a.Receive.{low_level_input}
use picoos_lwip.Cs8900a.Receive.Spec.{
  pairs, HasRoom, IsShort, drive, length-drive, fill_buffers, fill_given, arrived, frame_length,
  receive,
}
use picoos_lwip.Cs8900a.Receive.Refine.{low_level_input-receive}

-- The bytes that buffers are for.
abbrev pub total : List Buffer → ℕ
total [] = 0
total (q ∷ qs) = q.len + total qs

pub total-IsShort : (qs : List Buffer) → total qs < 65535 → All IsShort qs
total-IsShort [] h = _
total-IsShort (q ∷ qs) h = (omega arith, total-IsShort qs (omega arith))

take_left : (n : ℕ) (xs ys : Bytes) → n ≤ length xs → take n (xs ++ ys) ≡ take n xs
take_left zero xs ys h = refl
take_left (suc n) [] ys h = absurd (omega arith)
take_left (suc n) (x ∷ xs) ys h = ap (λ (t : Bytes). x ∷ t) (take_left n xs ys (omega arith))

take_same : (m : ℕ) (xs ys : Bytes) → length xs ≡ m → take m (xs ++ ys) ≡ xs
take_same zero [] ys h = refl
take_same (suc m) [] ys h = absurd (omega arith)
take_same zero (x ∷ xs) ys h = absurd (omega arith)
take_same (suc m) (x ∷ xs) ys h = ap (λ (t : Bytes). x ∷ t) (take_same m xs ys (omega arith))

take-append : (m n : ℕ) (xs ys : Bytes) → length xs ≡ m → take (m + n) (xs ++ ys) ≡ xs ++ take n ys
take-append zero n [] ys h = let e : 0 + n ≡ n = omega arith in rw e
take-append (suc m) n [] ys h = absurd (omega arith)
take-append zero n (x ∷ xs) ys h = absurd (omega arith)
take-append (suc m) n (x ∷ xs) ys h =
    let e : suc m + n ≡ suc (m + n) = omega arith in
    rw e (ap (λ (t : Bytes). x ∷ t) (take-append m n xs ys (omega arith)))

module _ (c : Chip) where
  drive-append :
      (m n : ℕ) (x : c.State)
      → drive c (m + n) x
        ≡ ((drive c m x).0 ++ (drive c n (drive c m x).1).0, (drive c n (drive c m x).1).1)
  unfolding drive
  drive-append zero n x = let e : 0 + n ≡ n = omega arith in rw e
  drive-append (suc m) n x =
      let e : suc m + n ≡ suc (m + n) = omega arith in
      rw (e, drive-append m n (c.end_read (rx_frame_port + 1) (c.end_read rx_frame_port x)))

  pub fill_buffers-payloads :
      (qs : List Buffer) (x : c.State)
      → IsPaired qs
      → payloads (fill_buffers c qs x).0 ≡ take (total qs) (drive c (pairs (total qs)) x).0
  unfolding fill_buffers
  fill_buffers-payloads [] x h = refl
  fill_buffers-payloads (q ∷ []) x h =
      let e : q.len + 0 ≡ q.len = omega arith in
      let bytes = (drive c (pairs q.len) x).0 in
      rw e (
        append-nil (payload (record { mem = bytes ++ drop (even_up q.len) q.mem; len = q.len }))
        ∙ take_left q.len bytes (drop (even_up q.len) q.mem)
            (omega (arith, length-drive c (pairs q.len) x)))
  fill_buffers-payloads (q ∷ q' ∷ qs) x h =
      let bytes = (drive c (pairs q.len) x).0 in
      let x1 = (drive c (pairs q.len) x).1 in
      let n = total (q' ∷ qs) in
      let even : length bytes ≡ q.len = omega (arith, length-drive c (pairs q.len) x, h.0) in
      let sum : pairs (q.len + n) ≡ pairs q.len + pairs n = omega (arith, h.0) in
      ap (λ (t : Bytes). t ++ payloads (fill_buffers c (q' ∷ qs) x1).0)
        (take_same q.len bytes (drop (even_up q.len) q.mem) even)
      ∙ ap (λ (t : Bytes). bytes ++ t) (fill_buffers-payloads (q' ∷ qs) x1 h.1)
      ∙ sym (take-append q.len n bytes (drive c (pairs n) x1).0 even)
      ∙ rw (sum, drive-append (pairs q.len) (pairs n) x)

  pub fill_buffers-lens :
      (qs : List Buffer) (x : c.State)
      → map (λ (q : Buffer). q.len) (fill_buffers c qs x).0 ≡ map (λ (q : Buffer). q.len) qs
  unfolding fill_buffers
  fill_buffers-lens [] x = refl
  fill_buffers-lens (q ∷ qs) x =
      ap (λ (ns : List ℕ). q.len ∷ ns) (fill_buffers-lens qs (drive c (pairs q.len) x).1)

  pub fill_buffers-HasRoom : (qs : List Buffer) (x : c.State) → All HasRoom (fill_buffers c qs x).0
  unfolding fill_buffers
  fill_buffers-HasRoom [] x = _
  fill_buffers-HasRoom (q ∷ qs) x =
      let (bytes, x1) = drive c (pairs q.len) x in
      let rest = drop (even_up q.len) q.mem in
      (
        omega (arith, length-append {0} bytes rest, length-drive c (pairs q.len) x),
        fill_buffers-HasRoom qs x1,
      )

  -- The first `n` bytes of the frame that the chip drives.
  abbrev pub frame_in : ℕ → c.State → Bytes
  frame_in n x = take n (drive c (pairs n) (frame_length c (arrived c x).1).1).0

  pub length-frame_in : (n : ℕ) (x : c.State) → length (frame_in n x) ≡ n
  length-frame_in n x =
      let x2 = (frame_length c (arrived c x).1).1 in
      omega (arith, length-take n (drive c (pairs n) x2).0, length-drive c (pairs n) x2)

  -- The chip behind the frame.
  abbrev pub after_frame : List Buffer → c.State → c.State
  after_frame qs x = (fill_buffers c qs (frame_length c (arrived c x).1).1).1

module _ (g : Gpio) (c : Chip) (b : IsBoard g c) where
  -- Where the chip reports a frame and pbuf_alloc gives buffers for its length, whose lengths add
  -- up to it, all even but the last, lowLevelInput gives buffers of those lengths with the frame's
  -- bytes in them, as the chip drives them, in order. The buffers hold the pairs that come in and
  -- have fewer than 65535 bytes each, and the board is at rest, as it is again afterwards.
  pub low_level_input-payloads :
      (alloc : ℕ → Option (List Buffer)) (qs : List Buffer) {x : c.State} {s : g.State}
      → All HasRoom qs
      → All IsShort qs
      → Rests g c b x s
      → (arrived c x).0 ≡ true
      → alloc (total qs) ≡ some qs
      → (frame_length c (arrived c x).1).0 ≡ total qs
      → IsPaired qs
      → (s' : g.State) × (ps : List Buffer) × (low_level_input g alloc s
          ≡ some (some ps, alloc_pbuf ∷ link_recv ∷ [], s'))
        × (payloads ps ≡ frame_in c (total qs) x)
        × (map (λ (q : Buffer). q.len) ps ≡ map (λ (q : Buffer). q.len) qs)
        × All HasRoom ps
        × Rests g c b (after_frame c qs x) s'
  unfolding receive fill_given
  low_level_input-payloads alloc qs {x} {s} room short r there given len paired =
      let fit : (ps : List Buffer)
          → alloc (frame_length c (arrived c x).1).0 ≡ some ps
          → All HasRoom ps × All IsShort ps =
        λ ps e.
          let same : qs ≡ ps = cc in
          subst (λ (t : List Buffer). All HasRoom t × All IsShort t) same (room, short) in
      let (s', e, again) = low_level_input-receive g c b alloc (λ ps _. fit ps) r in
      let x2 = (frame_length c (arrived c x).1).1 in
      let out : receive c alloc x
          ≡ (some (fill_buffers c qs x2).0, alloc_pbuf ∷ link_recv ∷ [], (fill_buffers c qs x2).1) =
        rw (receive, there, len, given) in
      (
        s',
        (fill_buffers c qs x2).0,
        e ∙ ap (λ (t : Option (List Buffer) × List Event × c.State). some (t.0, t.1, s')) out,
        fill_buffers-payloads c qs x2 paired,
        fill_buffers-lens c qs x2,
        fill_buffers-HasRoom c qs x2,
        subst (λ (t : Option (List Buffer) × List Event × c.State). Rests g c b t.2 s') out again,
      )
