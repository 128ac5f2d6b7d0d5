-- ===== src/Tap/Frames.antt =====
-- Frames out and in: lowLevelOutput and lowLevelInput of netif/tapif.c.
use picoos_lwip.Prelude.{
  ltb, ltb→lt, ltb→ge, Bool-cases, length-drop, drop-drop, ap₂, ℕ, zero, suc, ◌+◌, ◌%◌, ◌^◌, ◌≤◌,
  ◌<◌, ◌≡◌, refl, sym, ap, ◌∙◌, Bool, none, some, List, [], ◌∷◌, ◌++◌, arith, length, length-append,
  drop, ◌>>=◌, >>=-eq-some, inl, inr, if◌then◌else◌, map,
}
use picoos_lwip.Prelude.Bytes.{
  Bytes, load_bytes, store_bytes, splice, store_bytes-eq, length-splice, splice-splice, splice-nil,
  load_bytes-splice_self, take_exact, length-take_exact, take_exact_total,
}
use picoos_lwip.Tap.{
  eth_buf_size, Pbuf, link_ok, err_if, tap_write, link_xmit, link_recv, alloc_pbuf, copy_out,
  low_level_output, copy_in, fill, low_level_input, Turn, got, failed,
}

-- The bytes of a chain, one after the other.
abbrev pub joined : List Bytes → Bytes
joined [] = []
joined (q ∷ qs) = q ++ joined qs

pub copy_out-splice :
    (qs : List Bytes) (at : ℕ) (b : Bytes)
    → at + length (joined qs) ≤ length b
    → copy_out qs at b ≡ some (splice at (joined qs) b)
unfolding copy_out
copy_out-splice [] at b h = ap some (sym (splice-nil at b))
copy_out-splice (q ∷ qs) at b h =
    let l = length-append {0} q (joined qs) in
    rw (
      store_bytes-eq at q b (omega arith),
      ◌>>=◌,
      copy_out-splice qs (at + length q) (splice at q b)
          (omega (arith, length-splice at q b (omega arith))),
      splice-splice at (at + length q) q (joined qs) b refl,
    )

-- A chain of at most 1514 bytes is written to the tap device as one frame, its bytes in order,
-- whatever the frame buffer held. The result is ERR_IF exactly if the write fails.
pub low_level_output-joined :
    (p : Pbuf) (eth_buf : Bytes) (written : Bool)
    → length eth_buf ≡ eth_buf_size
    → p.tot_len ≡ length (joined p.payloads)
    → p.tot_len ≤ eth_buf_size
    → low_level_output p eth_buf written
      ≡ some (
          if written
          then (link_ok, tap_write (joined p.payloads) ∷ link_xmit ∷ [])
          else (err_if, tap_write (joined p.payloads) ∷ []))
unfolding low_level_output
low_level_output-joined p eth_buf written size total fits = rw (
  copy_out-splice p.payloads 0 eth_buf (omega arith),
  ◌>>=◌,
  total,
  load_bytes-splice_self 0 (joined p.payloads) eth_buf (omega arith),
)

overwrite_beyond : (vs b : Bytes) → length b < length vs → store_bytes 0 vs b ≡ none
overwrite_beyond [] b h = absurd (omega arith)
overwrite_beyond (v ∷ vs) [] h = refl
overwrite_beyond (v ∷ vs) (x ∷ xs) h = rw (overwrite_beyond vs xs (omega arith))

store_bytes_beyond :
    (i : ℕ) (vs b : Bytes) → i ≤ length b → length b < i + length vs → store_bytes i vs b ≡ none
store_bytes_beyond zero vs b h k = overwrite_beyond vs b (omega arith)
store_bytes_beyond (suc i) vs [] h k = absurd (omega arith)
store_bytes_beyond (suc i) vs (x ∷ xs) h k =
    rw (store_bytes_beyond i vs xs (omega arith) (omega arith))

copy_out_beyond :
    (qs : List Bytes) (at : ℕ) (b : Bytes)
    → at ≤ length b
    → length b < at + length (joined qs)
    → copy_out qs at b ≡ none
unfolding copy_out
copy_out_beyond [] at b h k = absurd (omega arith)
copy_out_beyond (q ∷ qs) at b h k =
    let l = length-append {0} q (joined qs) in
    elim (Bool-cases (ltb (length b) (at + length q))) [
      | inr here ↦
          let fits = ltb→ge _ _ here in
          let e = length-splice at q b fits in
          rw (
            store_bytes-eq at q b fits,
            ◌>>=◌,
            copy_out_beyond qs (at + length q) (splice at q b) (omega (arith, e))
                (omega (arith, e)),
          )
      | inl past ↦ rw (store_bytes_beyond at q b h (ltb→lt _ _ past))
    ]

-- A chain of more than 1514 bytes makes the copy leave the frame buffer.
pub low_level_output_beyond :
    (p : Pbuf) (eth_buf : Bytes) (written : Bool)
    → length eth_buf ≡ eth_buf_size
    → eth_buf_size < length (joined p.payloads)
    → low_level_output p eth_buf written ≡ none
unfolding low_level_output
low_level_output_beyond p eth_buf written size big =
    rw (copy_out_beyond p.payloads 0 eth_buf (omega arith) (omega arith))

take_exact-join :
    (n m k : ℕ) (b r r' : Bytes)
    → k ≡ n + m
    → take_exact n b ≡ some r
    → take_exact m (drop n b) ≡ some r'
    → take_exact k b ≡ some (r ++ r')
take_exact-join zero m k b [] r' s h e =
    ap (λ (j : ℕ). take_exact j b) {x = k} {y = m} (omega arith) ∙ e
take_exact-join zero m k b (x ∷ r) r' s h e = cc
take_exact-join (suc n) m zero b r r' s h e = absurd (omega arith)
take_exact-join (suc n) m (suc k) [] r r' s h e = cc
take_exact-join (suc n) m (suc k) (x ∷ xs) r r' s h e =
    let (t, f, u) = >>=-eq-some (take_exact n xs) _ h in
    rw (take_exact-join n m k xs t r' (omega arith) f e) (ground arith)

-- Filling a chain reads the buffer from one end to the other.
copy_in-joined :
    (qs : List Bytes) (at : ℕ) (b : Bytes)
    → at + length (joined qs) ≤ length b
    → (rs : List Bytes) × (copy_in qs at b ≡ some rs)
      × (load_bytes at (length (joined qs)) b ≡ some (joined rs))
      × (map length rs ≡ map length qs)
unfolding copy_in
copy_in-joined [] at b h = ([], refl, refl, refl)
copy_in-joined (q ∷ qs) at b h =
    let l = length-append {0} q (joined qs) in
    let (r, e) = take_exact_total (length q) (drop at b) (omega (arith, length-drop at b)) in
    let (rs, f, g, m) = copy_in-joined qs (at + length q) b (omega arith) in
    (
      r ∷ rs,
      rw (e, ◌>>=◌, f),
      take_exact-join (length q) (length (joined qs)) (length (q ++ joined qs)) (drop at b) r
          (joined rs) l e
          (ap (take_exact (length (joined qs)))
              (sym (drop-drop at (length q) (at + length q) b refl))
            ∙ g),
      ap₂ (λ (n : ℕ) ns. n ∷ ns) (length-take_exact (length q) (drop at b) e) m,
    )

-- A chain of a frame's length gets the frame from the frame buffer.
pub copy_in-frame :
    (frame eth_buf : Bytes) (qs : List Bytes)
    → length frame ≤ length eth_buf
    → length (joined qs) ≡ length frame
    → (p : List Bytes) × (copy_in qs 0 (splice 0 frame eth_buf) ≡ some p)
      × (joined p ≡ frame)
      × (map length p ≡ map length qs)
copy_in-frame frame eth_buf qs fits total =
    let b = splice 0 frame eth_buf in
    let lb = length-splice 0 frame eth_buf (omega arith) in
    let (p, e, f, m) = copy_in-joined qs 0 b (omega arith) in
    let same : load_bytes 0 (length frame) b ≡ some (joined p) =
      ap (λ (n : ℕ). load_bytes 0 n b) {x = length frame} {y = length (joined qs)} (omega arith)
      ∙ f in
    let whole = load_bytes-splice_self 0 frame eth_buf (omega arith) in (p, e, cc, m)

-- A frame of at most 1514 bytes for which pbuf_alloc gives a chain of its length is received whole:
-- the bytes of the chain are the frame's, in order, and each buffer is filled.
pub low_level_input-joined :
    (t : Turn) (frame : Bytes) (qs : List Bytes)
    → t.read ≡ got frame
    → length t.eth_buf ≡ eth_buf_size
    → length frame ≤ eth_buf_size
    → t.pbuf_alloc (length frame) ≡ some qs
    → length (joined qs) ≡ length frame
    → (p : List Bytes) × (low_level_input t ≡ some (some p, alloc_pbuf ∷ link_recv ∷ []))
      × (joined p ≡ frame)
      × (map length p ≡ map length qs)
unfolding low_level_input fill
low_level_input-joined t frame qs is_read size fits given total =
    let (p, e, whole, m) = copy_in-frame frame t.eth_buf qs (omega arith) total in
    let given' : t.pbuf_alloc (length frame % 2 ^ 16) ≡ some qs =
      ap t.pbuf_alloc {x = length frame % 2 ^ 16} {y = length frame} (omega arith) ∙ given in
    (p, rw (is_read, store_bytes-eq 0 frame t.eth_buf (omega arith), ◌>>=◌, given', e), whole, m)

take_exact_beyond : (n : ℕ) (b : Bytes) → length b < n → take_exact n b ≡ none
take_exact_beyond zero b h = absurd (omega arith)
take_exact_beyond (suc n) [] h = refl
take_exact_beyond (suc n) (x ∷ xs) h = rw (take_exact_beyond n xs (omega arith))

copy_in_beyond :
    (qs : List Bytes) (at : ℕ) (b : Bytes)
    → at ≤ length b
    → length b < at + length (joined qs)
    → copy_in qs at b ≡ none
unfolding copy_in
copy_in_beyond [] at b h k = absurd (omega arith)
copy_in_beyond (q ∷ qs) at b h k =
    let l = length-append {0} q (joined qs) in
    let d = length-drop at b in
    elim (Bool-cases (ltb (length b) (at + length q))) [
      | inr here ↦
          let fits = ltb→ge _ _ here in
          let (r, e) = take_exact_total (length q) (drop at b) (omega arith) in
          rw (e, ◌>>=◌, copy_in_beyond qs (at + length q) b (omega arith) (omega arith))
      | inl past ↦
          let far = ltb→lt _ _ past in rw (take_exact_beyond (length q) (drop at b) (omega arith))
    ]

-- After a read error other than EAGAIN the driver asks for a packet of 65535 bytes, and if
-- pbuf_alloc gives one, filling it reads past the frame buffer.
pub low_level_input_failed :
    (t : Turn) (qs : List Bytes)
    → t.read ≡ failed
    → length t.eth_buf ≡ eth_buf_size
    → t.pbuf_alloc 65535 ≡ some qs
    → length (joined qs) ≡ 65535
    → low_level_input t ≡ none
unfolding low_level_input fill
low_level_input_failed t qs is_read size given total =
    rw (is_read, given, copy_in_beyond qs 0 t.eth_buf (omega arith) (omega arith))
