-- ===== src/Tap/Handed.antt =====
-- Which packets lwIP gets (tapIfInput of netif/tapif.c).
use picoos_lwip.Prelude.{
  ℕ, zero, suc, ◌+◌, ◌*◌, ◌≤◌, ◌<◌, ◌≡◌, refl, sym, ap, ◌∙◌, true, some, List, [], ◌∷◌, ◌++◌, arith,
  length, map, get_elem?, ◌>>=◌,
}
use picoos_lwip.Prelude.Bytes.{Bytes}
use picoos_lwip.Tap.{
  eth_buf_size, alloc_pbuf, link_recv, Turn, got, EthTypes, eth_type, dispatch, tap_if_input,
}
use picoos_lwip.Tap.Frames.{joined, low_level_input-joined}

pub get_elem?-append_left :
    (i : ℕ) (xs ys : Bytes) → i < length xs → get_elem? (xs ++ ys) i ≡ get_elem? xs i
get_elem?-append_left i [] ys h = absurd (omega arith)
get_elem?-append_left zero (x ∷ xs) ys h = refl
get_elem?-append_left (suc i) (x ∷ xs) ys h = get_elem?-append_left i xs ys (omega arith)

-- The type is read from the frame if the first buffer has the Ethernet header.
eth_type-joined :
    (p : List Bytes) (n : ℕ) (ns : List ℕ) (hi lo : ℕ)
    → map length p ≡ n ∷ ns
    → 14 ≤ n
    → get_elem? (joined p) 12 ≡ some hi
    → get_elem? (joined p) 13 ≡ some lo
    → eth_type p ≡ some (hi * 256 + lo)
unfolding eth_type
eth_type-joined [] n ns hi lo m long h l = absurd (ground arith)
eth_type-joined (q ∷ qs) n ns hi lo m long h l =
    let len : length q ≡ n = ground arith in
    let h' : get_elem? q 12 ≡ some hi =
      sym (get_elem?-append_left 12 q (joined qs) (omega arith)) ∙ h in
    let l' : get_elem? q 13 ≡ some lo =
      sym (get_elem?-append_left 13 q (joined qs) (omega arith)) ∙ l in
    rw (h', ◌>>=◌, l')

-- A frame of at most 1514 bytes with the type bytes `hi` and `lo`, for which pbuf_alloc gives a chain
-- of its length whose first buffer has room for the Ethernet header, is received whole, each buffer
-- filled, and treated by that type, and the thread goes on.
pub tap_if_input-dispatch :
    (types : EthTypes) (t : Turn) (frame q : Bytes) (qs : List Bytes) (hi lo : ℕ)
    → t.read ≡ got frame
    → length t.eth_buf ≡ eth_buf_size
    → length frame ≤ eth_buf_size
    → t.pbuf_alloc (length frame) ≡ some (q ∷ qs)
    → length (joined (q ∷ qs)) ≡ length frame
    → 14 ≤ length q
    → get_elem? frame 12 ≡ some hi
    → get_elem? frame 13 ≡ some lo
    → (p : List Bytes) × (joined p ≡ frame)
      × (map length p ≡ map length (q ∷ qs))
      × (tap_if_input types t
          ≡ some (true, alloc_pbuf ∷ link_recv ∷ dispatch types t.accepts p (hi * 256 + lo)))
unfolding tap_if_input
tap_if_input-dispatch types t frame q qs hi lo is_read size fits given total long h l =
    let (p, e, whole, m) = low_level_input-joined t frame (q ∷ qs) is_read size fits given total in
    let ty =
      eth_type-joined p (length q) (map length qs) hi lo m long
        (ap (λ (b : Bytes). get_elem? b 12) whole ∙ h)
        (ap (λ (b : Bytes). get_elem? b 13) whole ∙ l) in
    (p, whole, m, rw (e, ◌>>=◌, ty))
