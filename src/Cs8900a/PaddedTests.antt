-- ===== src/Cs8900a/PaddedTests.antt =====
-- The theorems on netif/cs8900a_lpc_e2129.c with ETH_PAD_SIZE 2 at a small packet.
use picoos_lwip.Prelude.{
  ℕ, ◌+◌, ◌-◌, ◌≡◌, sym, ap, ◌∙◌, some, [], ◌∷◌, ◌++◌, arith, length, drop, length-drop,
}
use picoos_lwip.Prelude.Bytes.{Bytes}
use picoos_lwip.Padding.{Packets, IsPackets}
use picoos_lwip.Padding.SmallPackets.{
  SmallPacket, hide_front, reveal_front, moved-drop, drop_left, reveal_front-hide_front,
}
use picoos_lwip.Tap.{link_ok, link_xmit}
use picoos_lwip.Cs8900a.Access.Cycles.{Rests}
use picoos_lwip.Cs8900a.Transmit.{Buffer, Chain, payloads}
use picoos_lwip.Cs8900a.Transmit.Spec.{transmit}
use picoos_lwip.Cs8900a.Receive.Outcomes.{total}
use picoos_lwip.Cs8900a.Poll.Alike.{take-append}
use picoos_lwip.Cs8900a.Padded.{chain_measures, low_level_output_padded}
use picoos_lwip.Cs8900a.Padded.Sent.{low_level_output_padded-transmit}
use picoos_lwip.Cs8900a.ScriptBoard.{Pins, chip, gpio, board, script, idle, idle-Rests}
use picoos_lwip.Cs8900a.Tests.{two_buffers, two_buffers-IsSendable, space}

abbrev view_of : SmallPacket Buffer → Chain
view_of p = record {
  buffers = record { mem = p.body ++ p.tail; len = length p.body } ∷ p.rest;
  tot_len = length p.body + total p.rest;
}

abbrev packets : Packets Chain
packets = record {
  Packet = SmallPacket Buffer;
  view = view_of;
  hide = hide_front;
  reveal = reveal_front;
}

payloads-view_of :
    (p : SmallPacket Buffer) → payloads (view_of p).buffers ≡ p.body ++ payloads p.rest
payloads-view_of p = ap (λ (t : Bytes). t ++ payloads p.rest) (take-append p.body p.tail)

len_hidden : (n : ℕ) (p : SmallPacket Buffer) → length (hide_front n p).body ≡ length p.body - n
len_hidden n p = ap length (moved-drop n p.body p.front) ∙ length-drop n p.body

packets-IsPackets : IsPackets packets chain_measures
packets-IsPackets = record {
  bytes-hide = λ n p h.
      payloads-view_of (hide_front n p)
      ∙ ap (λ (t : Bytes). t ++ payloads p.rest) (moved-drop n p.body p.front)
      ∙ sym (drop_left n p.body (payloads p.rest) h)
      ∙ ap (drop n) (sym (payloads-view_of p));
  first_len-hide = λ n p h. len_hidden n p;
  tot_len-hide = λ n p h. omega (arith, len_hidden n p, h);
  reveal-hide = λ n p h. reveal_front-hide_front n p h;
}

-- Two bytes of padding in front of the frame of `two_buffers`.
abbrev packet : SmallPacket Buffer
packet = record {
  front = [];
  body = 0 ∷ 0 ∷ 1 ∷ 2 ∷ [];
  tail = 9 ∷ [];
  rest = record { mem = 3 ∷ 4 ∷ []; len = 1 } ∷ [];
}

low_level_output_padded-transmit_example :
    (s' : Pins) × (low_level_output_padded packets 2 gpio packet (idle space)
      ≡ some (link_ok, link_xmit ∷ [], packet, s'))
    × Rests gpio chip board
        (transmit chip (record { buffers = two_buffers; tot_len = 3 }) (script space)).1
        s'
unfolding transmit
low_level_output_padded-transmit_example =
    low_level_output_padded-transmit packets packets-IsPackets 2 gpio chip board packet
      (omega arith) two_buffers-IsSendable (omega arith) (idle-Rests space)
