-- ===== src/Tap/PaddedTests.antt =====
-- The theorems on netif/tapif.c with ETH_PAD_SIZE 2 at small packets.
use picoos_lwip.Prelude.{
  ℕ, ◌≤◌, ◌≡◌, refl, sym, ap, ◌∙◌, true, false, some, List, [], ◌∷◌, ◌++◌, arith, length, drop,
  length-drop, map, replicate, length-replicate,
}
use picoos_lwip.Prelude.Bytes.{Bytes}
use picoos_lwip.Padding.{Packets, IsPackets}
use picoos_lwip.Padding.SmallPackets.{
  SmallPacket, moved, hide_front, reveal_front, moved-drop, length-moved, drop_left,
  reveal_front-hide_front, hide_front-reveal_front,
}
use picoos_lwip.Tap.{
  Pbuf, link_ok, err_if, tap_write, link_xmit, link_recv, alloc_pbuf, netif_input, got, EthTypes,
  dispatch,
}
use picoos_lwip.Tap.Frames.{joined}
use picoos_lwip.Tap.Padded.{pbuf_measures, PaddedTurn, low_level_output_padded, tap_if_input_padded}
use picoos_lwip.Tap.Padded.Sent.{
  IsPadded, low_level_output_padded-content, low_level_output_padded_again,
}
use picoos_lwip.Tap.Padded.Received.{IsPut, tap_if_input_padded-dispatch}

abbrev view_of : SmallPacket Bytes → Pbuf
view_of p = record { payloads = p.body ∷ p.rest; tot_len = length (p.body ++ joined p.rest) }

abbrev packets : Packets Pbuf
packets = record {
  Packet = SmallPacket Bytes;
  view = view_of;
  hide = hide_front;
  reveal = reveal_front;
}

bytes_hidden :
    (n : ℕ) (p : SmallPacket Bytes)
    → n ≤ length p.body
    → joined (view_of (hide_front n p)).payloads ≡ drop n (p.body ++ joined p.rest)
bytes_hidden n p h =
    ap (λ (t : Bytes). t ++ joined p.rest) (moved-drop n p.body p.front)
    ∙ sym (drop_left n p.body (joined p.rest) h)

packets-IsPackets : IsPackets packets pbuf_measures
packets-IsPackets = record {
  bytes-hide = bytes_hidden;
  first_len-hide = λ n p h. ap length (moved-drop n p.body p.front) ∙ length-drop n p.body;
  tot_len-hide = λ n p h. ap length (bytes_hidden n p h) ∙ length-drop n (p.body ++ joined p.rest);
  reveal-hide = λ n p h. reveal_front-hide_front n p h;
}

abbrev put : List Bytes → SmallPacket Bytes → SmallPacket Bytes
put [] p = p
put (w ∷ ws) p = record p { body = w; rest = ws }

put-filled :
    (n : ℕ) (w : List Bytes) (p : SmallPacket Bytes)
    → n ≤ length p.body
    → map length w ≡ map length (view_of (hide_front n p)).payloads
    → (view_of (hide_front n (reveal_front n (put w (hide_front n p))))).payloads ≡ w
put-filled n [] p h e = absurd (ground arith)
put-filled n (w ∷ ws) p h e =
    ap (λ (t : SmallPacket Bytes). t.body ∷ t.rest)
      (hide_front-reveal_front n (put (w ∷ ws) (hide_front n p))
        (omega (arith, length-moved n p.body p.front h)))

put-head_len :
    (n : ℕ) (w : List Bytes) (p : SmallPacket Bytes)
    → n ≤ length p.body
    → map length w ≡ map length (view_of (hide_front n p)).payloads
    → length (reveal_front n (put w (hide_front n p))).body ≡ length p.body
put-head_len n [] p h e = absurd (ground arith)
put-head_len n (w ∷ ws) p h e =
    let len : length w ≡ length (moved n p.body p.front).0 = ground arith in
    let front = (moved n p.body p.front).1 in
    omega (
      arith,
      length-moved n front w (omega (arith, length-moved n p.body p.front h)),
      ap length (moved-drop n p.body p.front),
      length-drop n p.body,
    )

put-IsPut : IsPut packets put
put-IsPut = record { filled = put-filled; head_len-filled = put-head_len }

-- Two bytes of padding and a frame of three bytes.
abbrev packet : SmallPacket Bytes
packet = record { front = []; body = 0 ∷ 0 ∷ 1 ∷ 2 ∷ []; tail = []; rest = (3 ∷ []) ∷ [] }

packet-IsPadded : IsPadded packets packets-IsPackets 2 packet
packet-IsPadded = record { room = omega arith; total = refl; fits = omega arith }

abbrev buffer : Bytes
buffer = replicate 1514 7

low_level_output_padded-content_example :
    low_level_output_padded packets 2 packet buffer true
    ≡ some (link_ok, tap_write (1 ∷ 2 ∷ 3 ∷ []) ∷ link_xmit ∷ [], packet)
low_level_output_padded-content_example =
    low_level_output_padded-content packets packets-IsPackets 2 packet buffer true
      (length-replicate {A = ℕ} 1514 7) packet-IsPadded

low_level_output_padded_again_example :
    (p' : SmallPacket Bytes) × (frame : Bytes) × (frame ≡ 1 ∷ 2 ∷ 3 ∷ [])
    × (low_level_output_padded packets 2 packet buffer false
        ≡ some (err_if, tap_write frame ∷ [], p'))
    × (low_level_output_padded packets 2 p' buffer true
        ≡ some (link_ok, tap_write (drop 2 frame) ∷ link_xmit ∷ [], p'))
low_level_output_padded_again_example =
    low_level_output_padded_again packets packets-IsPackets 2 packet buffer buffer
      (length-replicate {A = ℕ} 1514 7) (length-replicate {A = ℕ} 1514 7) packet-IsPadded
      (omega arith)

abbrev arp_frame : Bytes
arp_frame = 255 ∷ 255 ∷ 255 ∷ 255 ∷ 255 ∷ 255 ∷ 0 ∷ 1 ∷ 2 ∷ 3 ∷ 4 ∷ 5 ∷ 8 ∷ 6 ∷ 77 ∷ []

abbrev empty_packet : SmallPacket Bytes
empty_packet = record { front = []; body = replicate 16 0; tail = []; rest = (0 ∷ []) ∷ [] }

abbrev turn : PaddedTurn packets 2
turn = record {
  read = got arp_frame;
  eth_buf = buffer;
  pbuf_alloc = λ n. some empty_packet;
  accepts = true;
}

abbrev types : EthTypes
types = record {
  ip = 0x0800;
  ipv6 = 0x86dd;
  arp = 0x0806;
  pppoe_support = false;
  pppoedisc = 0x8863;
  pppoe = 0x8864;
}

tap_if_input_padded-dispatch_example :
    (q : List Bytes) × (drop 2 (joined q) ≡ arp_frame)
    × (tap_if_input_padded packets 2 put types turn
        ≡ some (true, alloc_pbuf ∷ link_recv ∷ netif_input q true ∷ []))
unfolding dispatch
tap_if_input_padded-dispatch_example =
    tap_if_input_padded-dispatch packets packets-IsPackets 2 put put-IsPut types turn arp_frame
      empty_packet 8 6 refl (length-replicate {A = ℕ} 1514 7) (omega arith) (omega arith) refl refl
      (omega arith) refl refl
