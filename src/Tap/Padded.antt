-- ===== src/Tap/Padded.antt =====
-- The tap interface driver, netif/tapif.c, with ETH_PAD_SIZE other than 0: each packet starts with
-- that many bytes of padding, which no frame has.
pub mod Sent
pub mod Received
use picoos_lwip.Prelude.{
  ℕ, ◌+◌, ◌-◌, ◌*◌, ◌%◌, ◌^◌, Bool, true, false, Option, none, some, List, [], ◌∷◌, ◌++◌,
  if◌then◌else◌, get_elem?, length, ◌>>=◌,
}
use picoos_lwip.Prelude.Bytes.{Bytes, load_bytes, store_bytes}
use picoos_lwip.Padding.{Packets, Measures}
use picoos_lwip.Tap.{
  Pbuf, LinkErr, link_ok, err_if, Event, tap_write, link_xmit, link_recv, link_memerr, link_drop,
  alloc_pbuf, ReadResult, got, again, failed, EthTypes, dispatch, copy_out, copy_in,
}
use picoos_lwip.Tap.Frames.{joined}

abbrev pub head_len : List Bytes → ℕ
head_len [] = 0
head_len (q ∷ qs) = length q

abbrev pub pbuf_measures : Measures Pbuf
pbuf_measures = record {
  bytes = λ p. joined p.payloads;
  first_len = λ p. head_len p.payloads;
  tot_len = λ p. p.tot_len;
}

-- `htons(ethhdr->type)`, with ETH_PAD_SIZE `pad`: `struct eth_hdr` starts with the padding.
unfoldable pub eth_type_padded : ℕ → List Bytes → Option ℕ
eth_type_padded pad [] = none
eth_type_padded pad (q ∷ qs) = do
  hi ← get_elem? q (pad + 12)
  lo ← get_elem? q (pad + 13)
  some (hi * 256 + lo)

-- `pad` is ETH_PAD_SIZE, and `put` writes bytes to the buffers of a packet.
module _ (lwip : Packets Pbuf) (pad : ℕ) where
  open lwip use {Packet, view, hide, reveal}

  -- The packet is the caller's afterwards.
  unfoldable pub low_level_output_padded :
      Packet → Bytes → Bool → Option (LinkErr × List Event × Packet)
  unfolding copy_out
  low_level_output_padded p eth_buf written =
      let p1 = hide pad p in
      (do
        b ← copy_out (view p1).payloads 0 eth_buf
        out ← load_bytes 0 (view p1).tot_len b
        some (
            if written
            then (link_ok, tap_write out ∷ link_xmit ∷ [], reveal pad p1)
            else (err_if, tap_write out ∷ [], p1)))

  -- As Turn, where pbuf_alloc gives a packet.
  pub record PaddedTurn : Type 0 where
    pub read : ReadResult
    pub eth_buf : Bytes
    pub pbuf_alloc : ℕ → Option Packet
    pub accepts : Bool

  module _ (put : List Bytes → Packet → Packet) where
    -- lowLevelInput from pbuf_alloc on, whose length is a u16_t.
    unfoldable pub fill_padded : ℕ → Bytes → PaddedTurn → Option (Option Packet × List Event)
    unfolding copy_in
    fill_padded len b t = elim (t.pbuf_alloc (len % 2 ^ 16)) [
      | none ↦ some (none, link_memerr ∷ link_drop ∷ [])
      | some p ↦ (do
        r ← copy_in (view (hide pad p)).payloads 0 b
        some (some (reveal pad (put r (hide pad p))), alloc_pbuf ∷ link_recv ∷ []))
    ]

    -- The length -1 of an error other than EAGAIN goes on as a length.
    unfoldable pub low_level_input_padded : PaddedTurn → Option (Option Packet × List Event)
    unfolding fill_padded
    low_level_input_padded t = elim t.read [
      | got frame ↦ (do b ← store_bytes 0 frame t.eth_buf; fill_padded (length frame + pad) b t)
      | again ↦ some (none, [])
      | failed ↦ fill_padded (2 ^ 16 - 1 + pad) t.eth_buf t
    ]

    unfoldable pub tap_if_input_padded : EthTypes → PaddedTurn → Option (Bool × List Event)
    unfolding low_level_input_padded eth_type_padded dispatch
    tap_if_input_padded types t = do
      (r, ev) ← low_level_input_padded t
      elim r [
        | none ↦ some (false, ev)
        | some p ↦ (do
          ty ← eth_type_padded pad (view p).payloads
          some (true, ev ++ dispatch types t.accepts (view p).payloads ty))
      ]
