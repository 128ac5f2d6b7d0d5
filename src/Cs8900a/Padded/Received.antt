-- ===== src/Cs8900a/Padded/Received.antt =====
-- Which packets with padding lwIP gets (lowLevelInput and cs8900aIfInput of
-- netif/cs8900a_lpc_e2129.c).
use picoos_lwip.Prelude.{
  ℕ, ◌+◌, ◌*◌, ◌%◌, ◌^◌, ◌≤◌, ◌<◌, ◌≡◌, sym, ap, ◌∙◌, Bool, true, false, Option, some, List, [],
  ◌∷◌, arith, length, drop, map, get_elem?, All, ◌>>=◌,
}
use picoos_lwip.Prelude.Bytes.{Bytes}
use picoos_lwip.Padding.{Packets, IsPackets}
use picoos_lwip.Tap.{alloc_pbuf, link_recv, EthTypes, dispatch}
use picoos_lwip.Tap.Frames.{joined}
use picoos_lwip.Tap.Padded.{eth_type_padded}
use picoos_lwip.Tap.Padded.Received.{get_elem?-drop}
use picoos_lwip.Cs8900a.Board.{Gpio, Chip, IsBoard}
use picoos_lwip.Cs8900a.Access.Cycles.{Rests}
use picoos_lwip.Cs8900a.Transmit.{Buffer, Chain, payloads}
use picoos_lwip.Cs8900a.Transmit.Outcomes.{IsPaired}
use picoos_lwip.Cs8900a.Receive.Spec.{HasRoom, IsShort, fill_buffers, arrived, frame_length}
use picoos_lwip.Cs8900a.Receive.Refine.{frame_word-Rests, receive_chain-Streams, Rests-Streams}
use picoos_lwip.Cs8900a.Receive.Outcomes.{
  total, frame_in, after_frame, fill_buffers-payloads, fill_buffers-lens, fill_buffers-HasRoom,
}
use picoos_lwip.Cs8900a.Poll.{memories, contents}
use picoos_lwip.Cs8900a.Poll.Handed.{joined-contents, get_elem?-payloads}
use picoos_lwip.Cs8900a.Padded.{
  head_len, chain_measures, fill_pbuf_padded, low_level_input_padded, cs8900a_if_input_padded,
}

abbrev pub lens : List Buffer → List ℕ
lens qs = map (λ (q : Buffer). q.len) qs

-- A buffer's block has its bytes.
abbrev pub Holds : Buffer → Type 0
Holds q = q.len ≤ length q.mem

-- What is written behind the padding is there, and the first buffer has the padding and holds its
-- bytes, once the padding is reclaimed.
pub record IsPut (lwip : Packets Chain) (put : List Buffer → lwip.Packet → lwip.Packet)
    : Type 0 where
  pub filled :
      (n : ℕ) (w : List Buffer) (p : lwip.Packet)
      → n ≤ head_len (lwip.view p).buffers
      → lens w ≡ lens (lwip.view (lwip.hide n p)).buffers
      → All Holds w
      → (lwip.view (lwip.hide n (lwip.reveal n (put w (lwip.hide n p))))).buffers ≡ w
  pub head_len-filled :
      (n : ℕ) (w : List Buffer) (p : lwip.Packet)
      → n ≤ head_len (lwip.view p).buffers
      → lens w ≡ lens (lwip.view (lwip.hide n p)).buffers
      → head_len (lwip.view (lwip.reveal n (put w (lwip.hide n p)))).buffers
        ≡ head_len (lwip.view p).buffers
  pub filled-Holds :
      (n : ℕ) (w : List Buffer) (p : lwip.Packet)
      → n ≤ head_len (lwip.view p).buffers
      → lens w ≡ lens (lwip.view (lwip.hide n p)).buffers
      → All Holds w
      → All Holds (lwip.view (lwip.reveal n (put w (lwip.hide n p)))).buffers

roomy-Holds : (qs : List Buffer) → All HasRoom qs → All Holds qs
roomy-Holds [] h = _
roomy-Holds (q ∷ qs) h = (omega (arith, h.0), roomy-Holds qs h.1)

-- The frame's type is read behind the padding.
eth_type_padded-memories :
    (pad : ℕ) (qs : List Buffer) (hi lo : ℕ)
    → All Holds qs
    → pad + 14 ≤ head_len qs
    → get_elem? (drop pad (payloads qs)) 12 ≡ some hi
    → get_elem? (drop pad (payloads qs)) 13 ≡ some lo
    → eth_type_padded pad (memories qs) ≡ some (hi * 256 + lo)
unfolding eth_type_padded
eth_type_padded-memories pad [] hi lo room long h l = absurd (omega arith)
eth_type_padded-memories pad (q ∷ qs) hi lo room long h l = rw (
  get_elem?-payloads (pad + 12) hi q qs room.0 (omega arith)
      (sym (get_elem?-drop pad 12 (payloads (q ∷ qs))) ∙ h),
  ◌>>=◌,
  get_elem?-payloads (pad + 13) lo q qs room.0 (omega arith)
      (sym (get_elem?-drop pad 13 (payloads (q ∷ qs))) ∙ l),
)

module _ (lwip : Packets Chain) (ok : IsPackets lwip chain_measures) (pad : ℕ)
    (put : List Buffer → lwip.Packet → lwip.Packet) (puts : IsPut lwip put) (g : Gpio) (c : Chip)
    (b : IsBoard g c) where
  open lwip use {Packet, view, hide, reveal}

  abbrev behind : Packet → List Buffer
  behind p = (view (hide pad p)).buffers

  low_level_input_padded-payloads :
      (alloc : ℕ → Option Packet) (p : Packet) {x : c.State} {s : g.State}
      → Rests g c b x s
      → (arrived c x).0 ≡ true
      → alloc (total (behind p) + pad) ≡ some p
      → total (behind p) + pad < 2 ^ 16
      → (frame_length c (arrived c x).1).0 ≡ total (behind p)
      → pad ≤ head_len (view p).buffers
      → All HasRoom (behind p)
      → All IsShort (behind p)
      → IsPaired (behind p)
      → (s' : g.State) × (q : Packet) × (low_level_input_padded lwip pad g put alloc s
          ≡ some (some q, alloc_pbuf ∷ link_recv ∷ [], s'))
        × (drop pad (payloads (view q).buffers) ≡ frame_in c (total (behind p)) x)
        × (head_len (view q).buffers ≡ head_len (view p).buffers)
        × All Holds (view q).buffers
        × Rests g c b (after_frame c (behind p) x) s'
  unfolding low_level_input_padded fill_pbuf_padded
  low_level_input_padded-payloads alloc p {x} {s} r there given small len room roomy short paired =
      let (same, r1, is_len, r3) = frame_word-Rests g c b r in
      let (s', e, r4) =
        receive_chain-Streams g c b (behind p) roomy short (Rests-Streams g c b r3) in
      let x2 = (frame_length c (arrived c x).1).1 in
      let w = (fill_buffers c (behind p) x2).0 in
      let q = reveal pad (put w (hide pad p)) in
      let holds = roomy-Holds w (fill_buffers-HasRoom c (behind p) x2) in
      let filled = puts.filled pad w p room (fill_buffers-lens c (behind p) x2) holds in
      let head = puts.head_len-filled pad w p room (fill_buffers-lens c (behind p) x2) in
      let given' : alloc ((total (behind p) + pad) % 2 ^ 16) ≡ some p =
        ap alloc {x = (total (behind p) + pad) % 2 ^ 16} {y = total (behind p) + pad} (omega arith)
        ∙ given in
      (
        s',
        q,
        rw (low_level_input_padded, same, there, is_len, len, given', e),
        sym (ok.bytes-hide pad q (omega arith))
            ∙ ap payloads filled
            ∙ fill_buffers-payloads c (behind p) x2 paired,
        head,
        puts.filled-Holds pad w p room (fill_buffers-lens c (behind p) x2) holds,
        record { addr = r4.addr; out = false; byte = r4.byte; view = r4.view },
      )

  -- Where the chip reports a frame with the type bytes `hi` and `lo`, and pbuf_alloc gives for its
  -- length and the padding's, of less than 65536 bytes, a packet whose first buffer has room for
  -- the padding and the Ethernet header, and whose buffers behind the padding hold the pairs that
  -- come in, have fewer than 65535 bytes each and have lengths that add up to the frame's, all even
  -- but the last, cs8900aIfInput has the frame's bytes behind the padding of a packet, treats it by
  -- the frame's type, and the thread goes on. The board is at rest, as it is again afterwards.
  pub cs8900a_if_input_padded-dispatch :
      (types : EthTypes) (alloc : ℕ → Option Packet) (accepts : Bool) (p : Packet) (hi lo : ℕ)
      {x : c.State} {s : g.State}
      → Rests g c b x s
      → (arrived c x).0 ≡ true
      → alloc (total (behind p) + pad) ≡ some p
      → total (behind p) + pad < 2 ^ 16
      → (frame_length c (arrived c x).1).0 ≡ total (behind p)
      → pad + 14 ≤ head_len (view p).buffers
      → All HasRoom (behind p)
      → All IsShort (behind p)
      → IsPaired (behind p)
      → get_elem? (frame_in c (total (behind p)) x) 12 ≡ some hi
      → get_elem? (frame_in c (total (behind p)) x) 13 ≡ some lo
      → (s' : g.State) × (q : List Bytes) × (drop pad (joined q) ≡ frame_in c (total (behind p)) x)
        × (cs8900a_if_input_padded lwip pad g put types alloc accepts s
            ≡ some (true, alloc_pbuf ∷ link_recv ∷ dispatch types accepts q (hi * 256 + lo), s'))
        × Rests g c b (after_frame c (behind p) x) s'
  unfolding cs8900a_if_input_padded
  cs8900a_if_input_padded-dispatch types alloc accepts p hi lo r there given small len long roomy
        short paired h l =
      let (s', q, e, whole, head, holds, rests) =
        low_level_input_padded-payloads alloc p r there given small len (omega arith) roomy short
          paired in
      let ty =
        eth_type_padded-memories pad (view q).buffers hi lo holds (omega arith)
          (ap (λ (b : Bytes). get_elem? b 12) whole ∙ h)
          (ap (λ (b : Bytes). get_elem? b 13) whole ∙ l) in
      (
        s',
        contents (view q).buffers,
        ap (drop pad) (joined-contents (view q).buffers) ∙ whole,
        rw (e, ◌>>=◌, ty),
        rests,
      )
