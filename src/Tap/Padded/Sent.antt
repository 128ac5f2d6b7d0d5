-- ===== src/Tap/Padded/Sent.antt =====
-- Which bytes lowLevelOutput of netif/tapif.c sends of a packet with padding, and what it leaves.
use picoos_lwip.Prelude.{
  ℕ, ◌+◌, ◌≤◌, ◌≡◌, refl, ap, Bool, true, false, some, [], ◌∷◌, if◌then◌else◌, arith, length, drop,
  length-drop, ◌>>=◌,
}
use picoos_lwip.Prelude.Bytes.{Bytes, load_bytes-splice_self}
use picoos_lwip.Padding.{Packets, IsPackets}
use picoos_lwip.Tap.{Pbuf, eth_buf_size, link_ok, err_if, tap_write, link_xmit}
use picoos_lwip.Tap.Frames.{joined, copy_out-splice}
use picoos_lwip.Tap.Padded.{head_len, pbuf_measures, low_level_output_padded}

-- The packet's bytes.
module _ (lwip : Packets Pbuf) (ok : IsPackets lwip pbuf_measures) (pad : ℕ) where
  open lwip use {Packet, view, hide, reveal}

  abbrev pub content : Packet → Bytes
  content p = joined (view p).payloads

  -- A packet with the padding in its first buffer, and a frame of at most 1514 bytes behind it.
  pub record IsPadded (p : Packet) : Type 0 where
    pub room : pad ≤ head_len (view p).payloads
    pub total : (view p).tot_len ≡ length (content p)
    pub fits : (view p).tot_len ≤ eth_buf_size + pad

  total-hide :
      (p : Packet) → IsPadded p → (view (hide pad p)).tot_len ≡ length (content (hide pad p))
  total-hide p h = omega (
    arith,
    ok.tot_len-hide pad p h.room,
    ap length (ok.bytes-hide pad p h.room),
    length-drop pad (content p),
    h.total,
  )

  -- Of a packet with padding and a frame of at most 1514 bytes behind it, lowLevelOutput writes the
  -- frame, whatever the frame buffer held. Where the write succeeds, the packet is as it was, and
  -- where it fails, it has lost its padding.
  pub low_level_output_padded-content :
      (p : Packet) (eth_buf : Bytes) (written : Bool)
      → length eth_buf ≡ eth_buf_size
      → IsPadded p
      → low_level_output_padded lwip pad p eth_buf written
        ≡ some (
            if written
            then (link_ok, tap_write (drop pad (content p)) ∷ link_xmit ∷ [], p)
            else (err_if, tap_write (drop pad (content p)) ∷ [], hide pad p))
  unfolding low_level_output_padded
  low_level_output_padded-content p eth_buf written size h =
      let p1 = hide pad p in
      let fits : 0 + length (content p1) ≤ length eth_buf =
        omega (arith, ok.tot_len-hide pad p h.room, h.fits, total-hide p h) in
      rw (
        copy_out-splice (view p1).payloads 0 eth_buf fits,
        ◌>>=◌,
        total-hide p h,
        load_bytes-splice_self 0 (content p1) eth_buf (omega arith),
        ok.bytes-hide pad p h.room,
        ok.reveal-hide pad p h.room,
      )

  hide-IsPadded :
      (p : Packet) → IsPadded p → pad + pad ≤ head_len (view p).payloads → IsPadded (hide pad p)
  hide-IsPadded p h twice = record {
    room = omega (arith, ok.first_len-hide pad p h.room);
    total = total-hide p h;
    fits = omega (arith, ok.tot_len-hide pad p h.room, h.fits);
  }

  -- Where the write of a packet fails and the packet is sent again, its padding is dropped a second
  -- time: the frame that goes out, with the result ERR_OK, is the first one without as many bytes at
  -- its start as the padding has. The first buffer holds twice as many bytes, and the frame is of
  -- at most 1514.
  pub low_level_output_padded_again :
      (p : Packet) (eth_buf eth_buf' : Bytes)
      → length eth_buf ≡ eth_buf_size
      → length eth_buf' ≡ eth_buf_size
      → IsPadded p
      → pad + pad ≤ head_len (view p).payloads
      → (p' : Packet) × (frame : Bytes) × (frame ≡ drop pad (content p))
        × (low_level_output_padded lwip pad p eth_buf false
            ≡ some (err_if, tap_write frame ∷ [], p'))
        × (low_level_output_padded lwip pad p' eth_buf' true
            ≡ some (link_ok, tap_write (drop pad frame) ∷ link_xmit ∷ [], p'))
  low_level_output_padded_again p eth_buf eth_buf' size size' h twice =
      let sent =
        low_level_output_padded-content (hide pad p) eth_buf' true size'
          (hide-IsPadded p h twice) in
      (
        hide pad p,
        drop pad (content p),
        refl,
        low_level_output_padded-content p eth_buf false size h,
        rw (← ok.bytes-hide pad p h.room) sent,
      )
