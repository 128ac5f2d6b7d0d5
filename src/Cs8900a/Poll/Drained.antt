-- ===== src/Cs8900a/Poll/Drained.antt =====
-- A round of the polling thread over all frames that the chip has (cs8900aThread of
-- netif/cs8900a_lpc_e2129.c).
use picoos_lwip.Prelude.{
  ℕ, ◌+◌, ◌*◌, ◌≤◌, ◌<◌, ◌≡◌, refl, subst, ap, ap₂, ◌∙◌, true, false, Option, none, some, List, [],
  ◌∷◌, ◌++◌, length, map, get_elem?, All, ◌>>=◌,
}
use picoos_lwip.Prelude.Bytes.{Bytes}
use picoos_lwip.Tap.{Event, alloc_pbuf, link_recv, EthTypes, dispatch}
use picoos_lwip.Tap.Frames.{joined}
use picoos_lwip.Tap.Dispatched.{Handed, dispatch-Handed}
use picoos_lwip.Cs8900a.Board.{Gpio, Chip, IsBoard}
use picoos_lwip.Cs8900a.Access.Cycles.{Rests}
use picoos_lwip.Cs8900a.Transmit.{Buffer}
use picoos_lwip.Cs8900a.Transmit.Outcomes.{IsPaired}
use picoos_lwip.Cs8900a.Receive.Spec.{HasRoom, arrived, frame_length, receive}
use picoos_lwip.Cs8900a.Receive.{low_level_input}
use picoos_lwip.Cs8900a.Receive.Refine.{low_level_input-receive}
use picoos_lwip.Cs8900a.Receive.Outcomes.{total, total-IsShort, frame_in, after_frame}
use picoos_lwip.Cs8900a.Poll.{Answers, cs8900a_if_input, cs8900a_thread}
use picoos_lwip.Cs8900a.Poll.Handed.{cs8900a_if_input-dispatch}

-- lwIP's answers for a frame, the buffers that it gives, and the frame's type bytes.
pub record Arrival : Type 0 where
  pub answers : Answers
  pub first : Buffer
  pub rest : List Buffer
  pub hi : ℕ
  pub lo : ℕ

abbrev pub buffers : Arrival → List Buffer
buffers a = a.first ∷ a.rest

abbrev pub lens : List Buffer → List ℕ
lens qs = map (λ (q : Buffer). q.len) qs

-- Buffers that pbuf_alloc gives hold the pairs that come in.
abbrev pub RoomyAnswers : Answers → Type 0
RoomyAnswers t = (n : ℕ) (qs : List Buffer) → t.pbuf_alloc n ≡ some qs → All HasRoom qs

-- What a round does with the packets: one is made of each frame, and handed on by its type.
unfoldable pub Calls : EthTypes → List Arrival → List (List Bytes) → List Event → Type 0
Calls types [] [] evs = evs ≡ []
Calls types (a ∷ arrivals) (p ∷ packets) evs =
    (ev : List Event) × (later : List Event) × (evs ≡ alloc_pbuf ∷ link_recv ∷ (ev ++ later))
    × Handed types a.answers.accepts p (a.hi * 256 + a.lo) ev
    × Calls types arrivals packets later
Calls types _ _ evs = ⊥

-- Each frame has fewer than 65535 bytes.
abbrev pub AreShort : List Arrival → Type 0
AreShort arrivals = All (λ (a : Arrival). total (buffers a) < 65535) arrivals

module _ (c : Chip) where
  abbrev pub frame_of : Arrival → c.State → Bytes
  frame_of a x = frame_in c (total (buffers a)) x

  -- The chip reports a frame for the arrival's buffers.
  pub record Comes (x : c.State) (a : Arrival) : Type 0 where
    pub room : RoomyAnswers a.answers
    pub there : (arrived c x).0 ≡ true
    pub given : a.answers.pbuf_alloc (total (buffers a)) ≡ some (buffers a)
    pub len : (frame_length c (arrived c x).1).0 ≡ total (buffers a)
    pub paired : IsPaired (buffers a)
    pub long : 14 ≤ a.first.len
    pub type_hi : get_elem? (frame_of a x) 12 ≡ some a.hi
    pub type_lo : get_elem? (frame_of a x) 13 ≡ some a.lo

  -- The frames that the chip has, and then it has none.
  unfoldable pub Waiting : c.State → List Arrival → Type 0
  Waiting x [] = (arrived c x).0 ≡ false
  Waiting x (a ∷ arrivals) = Comes x a × Waiting (after_frame c (buffers a) x) arrivals

  abbrev pub frames : c.State → List Arrival → List Bytes
  frames x [] = []
  frames x (a ∷ arrivals) = frame_of a x ∷ frames (after_frame c (buffers a) x) arrivals

  -- The chip when it has been asked for another frame in vain.
  abbrev pub drained : c.State → List Arrival → c.State
  drained x [] = (arrived c x).1
  drained x (a ∷ arrivals) = drained (after_frame c (buffers a) x) arrivals

module _ (types : EthTypes) (g : Gpio) (c : Chip) (b : IsBoard g c) where
  pub cs8900a_if_input-no_frame :
      (t : Answers) {x : c.State} {s : g.State}
      → Rests g c b x s
      → (arrived c x).0 ≡ false
      → (s' : g.State) × (cs8900a_if_input types g t s ≡ some (false, [], s'))
        × Rests g c b (arrived c x).1 s'
  unfolding cs8900a_if_input receive
  cs8900a_if_input-no_frame t {x} {s} r nothing =
      let (s', e, again) =
        low_level_input-receive g c b t.pbuf_alloc (λ qs there e. absurd (let z = nothing in cc))
          r in
      let out : receive c t.pbuf_alloc x ≡ (none, [], (arrived c x).1) = rw (receive, nothing) in
      let e' : low_level_input g t.pbuf_alloc s ≡ some (none, [], s') =
        e ∙ ap (λ (t : Option (List Buffer) × List Event × c.State). some (t.0, t.1, s')) out in
      (
        s',
        rw (e', ◌>>=◌),
        subst (λ (t : Option (List Buffer) × List Event × c.State). Rests g c b t.2 s') out again,
      )

  -- A round of the polling thread takes every frame that the chip has: if the chip reports frames one
  -- after the other and then none, if for each pbuf_alloc gives buffers that hold the pairs that come
  -- in, whose lengths, even but the last, add up to the frame's, of fewer than 65535 bytes, the
  -- first for the Ethernet header, and if the board is at rest, then the round ends without a fault
  -- with the call for which no frame is there, and has made a packet of each frame, in order, with
  -- the frame's bytes in buffers of those lengths. A packet whose type is IP, IPv6, ARP or, with
  -- PPPoE, one of its two is given to lwIP, and freed if lwIP refuses it, and every other packet is
  -- freed. The board is left at rest.
  pub cs8900a_thread_drains :
      (arrivals : List Arrival) (last : Answers) (more : List Answers) {x : c.State} {s : g.State}
      → Waiting c x arrivals
      → AreShort arrivals
      → Rests g c b x s
      → (s' : g.State) × (packets : List (List Bytes)) × (evs : List Event) × (map joined packets
          ≡ frames c x arrivals)
        × (map (map length) packets ≡ map (λ (a : Arrival). lens (buffers a)) arrivals)
        × (cs8900a_thread types g (map (λ (a : Arrival). a.answers) arrivals ++ last ∷ more) s
            ≡ some (evs, s'))
        × Calls types arrivals packets evs
        × Rests g c b (drained c x arrivals) s'
  unfolding cs8900a_thread Waiting Calls
  cs8900a_thread_drains [] last more w short r =
      let (s', e, again) = cs8900a_if_input-no_frame last r w in
      (s', [], [], refl, refl, rw (e, ◌>>=◌), refl, again)
  cs8900a_thread_drains (a ∷ arrivals) last more {x} (h, w) short r =
      let (s1, p, whole, sizes, e, r1) =
        cs8900a_if_input-dispatch types g c b a.answers a.first a.rest a.hi a.lo h.room
          (total-IsShort (buffers a) short.0) r h.there h.given h.len h.paired h.long h.type_hi
          h.type_lo in
      let (s', packets, evs, wholes, all_sizes, es, calls, again) =
        cs8900a_thread_drains arrivals last more w short.1 r1 in
      (
        s',
        p ∷ packets,
        alloc_pbuf ∷ link_recv ∷ (dispatch types a.answers.accepts p (a.hi * 256 + a.lo) ++ evs),
        ap₂ (λ (f : Bytes) fs. f ∷ fs) whole wholes,
        ap₂ (λ (n : List ℕ) ns. n ∷ ns) sizes all_sizes,
        rw (e, ◌>>=◌, es),
        (_, evs, refl, dispatch-Handed types a.answers.accepts p (a.hi * 256 + a.lo), calls),
        again,
      )
