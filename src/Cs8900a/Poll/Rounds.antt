-- ===== src/Cs8900a/Poll/Rounds.antt =====
-- A round of the polling threads of both Ethernet drivers side by side: cs8900aThread of
-- netif/cs8900a_lpc_e2129.c and tapThread of netif/tapif.c.
use picoos_lwip.Prelude.{
  ◌+◌, ◌*◌, ◌≤◌, ◌≡◌, refl, ap₂, false, some, List, [], ◌∷◌, ◌++◌, length, map, ◌>>=◌,
}
use picoos_lwip.Prelude.Bytes.{Bytes}
use picoos_lwip.Tap.{
  eth_buf_size, Turn, got, again, EthTypes, low_level_input, tap_if_input, tap_thread, dispatch,
  Event, alloc_pbuf, link_recv,
}
use picoos_lwip.Tap.Frames.{joined}
use picoos_lwip.Cs8900a.Board.{Gpio, Chip, IsBoard}
use picoos_lwip.Cs8900a.Access.Cycles.{Rests}
use picoos_lwip.Cs8900a.Receive.Spec.{arrived}
use picoos_lwip.Cs8900a.Receive.Outcomes.{after_frame}
use picoos_lwip.Cs8900a.Poll.{Answers, cs8900a_thread}
use picoos_lwip.Cs8900a.Poll.Alike.{cs8900a_if_input-tap_if_input}
use picoos_lwip.Cs8900a.Poll.Drained.{
  Arrival, buffers, lens, frame_of, Comes, frames, cs8900a_if_input-no_frame,
}

-- The same frame at both drivers.
pub record Pair : Type 0 where
  pub arrival : Arrival
  pub turn : Turn

abbrev pub answers_of : List Pair → List Answers
answers_of ps = map (λ (p : Pair). p.arrival.answers) ps

abbrev pub turns_of : List Pair → List Turn
turns_of ps = map (λ (p : Pair). p.turn) ps

abbrev pub arrivals_of : List Pair → List Arrival
arrivals_of ps = map (λ (p : Pair). p.arrival) ps

-- What a round does with the packets.
abbrev pub calls_for : EthTypes → List Arrival → List (List Bytes) → List Event
calls_for types (a ∷ arrivals) (p ∷ packets) =
    (alloc_pbuf ∷ link_recv ∷ dispatch types a.answers.accepts p (a.hi * 256 + a.lo))
    ++ calls_for types arrivals packets
calls_for types _ _ = []

module _ (c : Chip) where
  -- `read` gives the frame that the chip has, and lwIP answers alike.
  pub record SameTurn (x : c.State) (a : Arrival) (u : Turn) : Type 0 where
    pub is_read : u.read ≡ got (frame_of c a x)
    pub size : length u.eth_buf ≡ eth_buf_size
    pub fits : length (frame_of c a x) ≤ eth_buf_size
    pub first : Bytes
    pub rest : List Bytes
    pub given : u.pbuf_alloc (length (frame_of c a x)) ≡ some (first ∷ rest)
    pub same_lens : map length (first ∷ rest) ≡ lens (buffers a)
    pub alike : u.accepts ≡ a.answers.accepts

  unfoldable pub BothWaiting : c.State → List Pair → Type 0
  BothWaiting x [] = (arrived c x).0 ≡ false
  BothWaiting x (p ∷ ps) =
      Comes c x p.arrival
      × SameTurn x p.arrival p.turn
      × BothWaiting (after_frame c (buffers p.arrival) x) ps

tap_if_input-again :
    (types : EthTypes) (u : Turn) → u.read ≡ again → tap_if_input types u ≡ some (false, [])
unfolding tap_if_input low_level_input
tap_if_input-again types u h = rw (low_level_input, h, ◌>>=◌)

module _ (types : EthTypes) (g : Gpio) (c : Chip) (b : IsBoard g c) where
  -- If the two drivers have the same frames, each of at most 1514 bytes, and then none, their threads
  -- make in a round the same calls of lwIP with the same packets, which hold the frames in order,
  -- provided that for each frame pbuf_alloc gives both buffers of the same lengths, that lwIP
  -- answers both alike, and that the conditions of the chip's driver hold: even lengths but the last,
  -- which add up to the frame's, a first buffer for the Ethernet header, room for the pairs that come
  -- in, and a board at rest.
  pub cs8900a_thread-tap_thread :
      (ps : List Pair) (last : Answers) (more : List Answers) (end : Turn) (later : List Turn)
      {x : c.State} {s : g.State}
      → BothWaiting c x ps
      → end.read ≡ again
      → Rests g c b x s
      → (s' : g.State) × (packets : List (List Bytes)) × (map joined packets
          ≡ frames c x (arrivals_of ps))
        × (cs8900a_thread types g (answers_of ps ++ last ∷ more) s
            ≡ some (calls_for types (arrivals_of ps) packets, s'))
        × (tap_thread types (turns_of ps ++ end ∷ later)
            ≡ some (calls_for types (arrivals_of ps) packets))
  unfolding cs8900a_thread tap_thread BothWaiting
  cs8900a_thread-tap_thread [] last more end later w none_there r =
      let (s', e, _) = cs8900a_if_input-no_frame types g c b last r w in
      (s', [], refl, rw (e, ◌>>=◌), rw (tap_if_input-again types end none_there, ◌>>=◌))
  cs8900a_thread-tap_thread (p ∷ ps) last more end later {x} (h, u, w) none_there r =
      let a = p.arrival in
      let (s1, packet, whole, e, e', r1) =
        cs8900a_if_input-tap_if_input types g c b a.answers p.turn (frame_of c a x) a.first a.rest
          u.first u.rest a.hi a.lo h.room r h.there h.given h.len h.paired refl u.is_read u.size
          u.fits u.given u.same_lens u.alike h.long h.type_hi h.type_lo in
      let (s', packets, wholes, es, es') =
        cs8900a_thread-tap_thread ps last more end later w none_there r1 in
      (
        s',
        packet ∷ packets,
        ap₂ (λ (f : Bytes) fs. f ∷ fs) whole wholes,
        rw (e, ◌>>=◌, es),
        rw (e', ◌>>=◌, es'),
      )
