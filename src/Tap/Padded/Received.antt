-- ===== src/Tap/Padded/Received.antt =====
-- Which packets with padding lwIP gets (tapIfInput of netif/tapif.c).
use picoos_lwip.Prelude.{
  ℕ, zero, suc, ◌+◌, ◌*◌, ◌%◌, ◌^◌, ◌≤◌, ◌<◌, ◌≡◌, refl, sym, ap, ◌∙◌, true, some, List, [], ◌∷◌,
  ◌++◌, arith, length, drop, length-drop, map, get_elem?, ◌>>=◌,
}
use picoos_lwip.Prelude.Bytes.{Bytes, store_bytes-eq}
use picoos_lwip.Padding.{Packets, IsPackets}
use picoos_lwip.Tap.{Pbuf, eth_buf_size, alloc_pbuf, link_recv, got, EthTypes, dispatch}
use picoos_lwip.Tap.Frames.{joined, copy_in-frame}
use picoos_lwip.Tap.Handed.{get_elem?-append_left}
use picoos_lwip.Tap.Padded.{
  head_len, pbuf_measures, PaddedTurn, low_level_input_padded, fill_padded, eth_type_padded,
  tap_if_input_padded,
}

-- Bytes that are written behind the padding are there, and the padding is in the first buffer, once
-- it is reclaimed.
pub record IsPut (lwip : Packets Pbuf) (put : List Bytes → lwip.Packet → lwip.Packet) : Type 0 where
  pub filled :
      (n : ℕ) (w : List Bytes) (p : lwip.Packet)
      → n ≤ head_len (lwip.view p).payloads
      → map length w ≡ map length (lwip.view (lwip.hide n p)).payloads
      → (lwip.view (lwip.hide n (lwip.reveal n (put w (lwip.hide n p))))).payloads ≡ w
  pub head_len-filled :
      (n : ℕ) (w : List Bytes) (p : lwip.Packet)
      → n ≤ head_len (lwip.view p).payloads
      → map length w ≡ map length (lwip.view (lwip.hide n p)).payloads
      → head_len (lwip.view (lwip.reveal n (put w (lwip.hide n p)))).payloads
        ≡ head_len (lwip.view p).payloads

pub get_elem?-drop : (n i : ℕ) (xs : Bytes) → get_elem? (drop n xs) i ≡ get_elem? xs (n + i)
get_elem?-drop zero i xs = ap (get_elem? xs) {x = i} {y = 0 + i} (omega arith)
get_elem?-drop (suc n) i [] = refl
get_elem?-drop (suc n) i (x ∷ xs) =
    let e : suc n + i ≡ suc (n + i) = omega arith in rw e (get_elem?-drop n i xs)

-- The type is read behind the padding if the first buffer has the Ethernet header there.
pub eth_type_padded-joined :
    (pad : ℕ) (p : List Bytes) (hi lo : ℕ)
    → pad + 14 ≤ head_len p
    → get_elem? (drop pad (joined p)) 12 ≡ some hi
    → get_elem? (drop pad (joined p)) 13 ≡ some lo
    → eth_type_padded pad p ≡ some (hi * 256 + lo)
unfolding eth_type_padded
eth_type_padded-joined pad [] hi lo long h l = absurd (omega arith)
eth_type_padded-joined pad (q ∷ qs) hi lo long h l =
    let h' : get_elem? q (pad + 12) ≡ some hi =
      sym (get_elem?-append_left (pad + 12) q (joined qs) (omega arith))
      ∙ sym (get_elem?-drop pad 12 (q ++ joined qs))
      ∙ h in
    let l' : get_elem? q (pad + 13) ≡ some lo =
      sym (get_elem?-append_left (pad + 13) q (joined qs) (omega arith))
      ∙ sym (get_elem?-drop pad 13 (q ++ joined qs))
      ∙ l in
    rw (h', ◌>>=◌, l')

module _ (lwip : Packets Pbuf) (ok : IsPackets lwip pbuf_measures) (pad : ℕ)
    (put : List Bytes → lwip.Packet → lwip.Packet) (puts : IsPut lwip put) where
  open lwip use {Packet, view, hide, reveal}

  low_level_input_padded-frame :
      (t : PaddedTurn lwip pad) (frame : Bytes) (p : Packet)
      → t.read ≡ got frame
      → length t.eth_buf ≡ eth_buf_size
      → length frame ≤ eth_buf_size
      → length frame + pad < 2 ^ 16
      → t.pbuf_alloc (length frame + pad) ≡ some p
      → length (joined (view p).payloads) ≡ length frame + pad
      → pad ≤ head_len (view p).payloads
      → (q : Packet) × (low_level_input_padded lwip pad put t
          ≡ some (some q, alloc_pbuf ∷ link_recv ∷ []))
        × (drop pad (joined (view q).payloads) ≡ frame)
        × (head_len (view q).payloads ≡ head_len (view p).payloads)
  unfolding low_level_input_padded fill_padded
  low_level_input_padded-frame t frame p is_read size fits small given total room =
      let bytes = ok.bytes-hide pad p room in
      let held : length (joined (view (hide pad p)).payloads) ≡ length frame =
        omega (arith, ap length bytes, length-drop pad (joined (view p).payloads)) in
      let (r, e, whole, lens) =
        copy_in-frame frame t.eth_buf (view (hide pad p)).payloads (omega arith) held in
      let given' : t.pbuf_alloc ((length frame + pad) % 2 ^ 16) ≡ some p =
        ap t.pbuf_alloc {x = (length frame + pad) % 2 ^ 16} {y = length frame + pad} (omega arith)
        ∙ given in
      let q = reveal pad (put r (hide pad p)) in
      let head = puts.head_len-filled pad r p room lens in
      (
        q,
        rw (is_read, store_bytes-eq 0 frame t.eth_buf (omega arith), ◌>>=◌, given', e),
        sym (ok.bytes-hide pad q (omega arith)) ∙ ap joined (puts.filled pad r p room lens) ∙ whole,
        head,
      )

  -- A frame of at most 1514 bytes with the type bytes `hi` and `lo`, for which pbuf_alloc gives a
  -- packet of the frame's length and the padding's, of less than 65536 bytes, whose first buffer has
  -- room for the padding and the Ethernet header, is put behind the padding of the packet, and that
  -- is treated by the frame's type, and the thread goes on.
  pub tap_if_input_padded-dispatch :
      (types : EthTypes) (t : PaddedTurn lwip pad) (frame : Bytes) (p : Packet) (hi lo : ℕ)
      → t.read ≡ got frame
      → length t.eth_buf ≡ eth_buf_size
      → length frame ≤ eth_buf_size
      → length frame + pad < 2 ^ 16
      → t.pbuf_alloc (length frame + pad) ≡ some p
      → length (joined (view p).payloads) ≡ length frame + pad
      → pad + 14 ≤ head_len (view p).payloads
      → get_elem? frame 12 ≡ some hi
      → get_elem? frame 13 ≡ some lo
      → (q : List Bytes) × (drop pad (joined q) ≡ frame)
        × (tap_if_input_padded lwip pad put types t
            ≡ some (true, alloc_pbuf ∷ link_recv ∷ dispatch types t.accepts q (hi * 256 + lo)))
  unfolding tap_if_input_padded
  tap_if_input_padded-dispatch types t frame p hi lo is_read size fits small given total long h l =
      let (q, e, whole, head) =
        low_level_input_padded-frame t frame p is_read size fits small given total (omega arith) in
      let ty =
        eth_type_padded-joined pad (view q).payloads hi lo (omega arith)
          (ap (λ (b : Bytes). get_elem? b 12) whole ∙ h)
          (ap (λ (b : Bytes). get_elem? b 13) whole ∙ l) in
      ((view q).payloads, whole, rw (e, ◌>>=◌, ty))
