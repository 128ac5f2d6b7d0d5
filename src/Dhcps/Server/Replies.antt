-- ===== src/Dhcps/Server/Replies.antt =====
-- The bytes of the server's replies (newResp and the option writing of handleDiscover and
-- handleRequest in apps/dhcps/dhcps.c).
use picoos_lwip.Prelude.{
  ℕ, ◌+◌, ◌≤◌, ◌≡◌, sym, ap, ◌∙◌, some, List, [], ◌∷◌, ◌++◌, arith, ge→ltb, length, length-take,
  length-replicate, replicate, take, drop, min,
}
use picoos_lwip.Prelude.Bytes.{
  Bytes, load_bytes, splice, load_bytes-append_take, store_bytes-eq, length-splice,
  load_bytes-splice_self, load_bytes-splice_before, load_bytes-splice_after,
}
use picoos_lwip.Dhcps.Types.{Ip4, octets}
use picoos_lwip.Dhcps.Options.Scan.{Tlv, encode}
use picoos_lwip.Dhcps.Options.Emit.{big_endian}
use picoos_lwip.Dhcps.Server.{new_resp}
use picoos_lwip.Dhcps.Server.Env.{Lwip, IsLwip, Netif, alloc_resp}

abbrev option : ℕ → Bytes → Tlv
option code content = record { code = code; content = content }

module _ (netif : Netif) where
  abbrev pub offer_options : List Tlv
  offer_options =
      option 53 (2 ∷ []) ∷ option 1 (octets netif.netmask) ∷ option 54 (octets netif.ip_addr) ∷ []

  abbrev pub ack_options : List Tlv
  ack_options =
      option 53 (5 ∷ [])
      ∷ option 58 (big_endian 1800)
      ∷ option 59 (big_endian 3000)
      ∷ option 51 (big_endian 3600)
      ∷ option 1 (octets netif.netmask)
      ∷ option 54 (octets netif.ip_addr)
      ∷ []

  abbrev pub nak_options : List Tlv
  nak_options = option 53 (6 ∷ []) ∷ option 54 (octets netif.ip_addr) ∷ []

module _ (w : Lwip) where
  open w use {layout}

  -- The response that newResp prepares in the buffer `rp` for the request `p`.
  abbrev pub prepared : Bytes → Bytes → Bytes
  prepared rp p = splice layout.cookie w.magic_cookie (
      splice layout.op (2 ∷ []) (
        splice layout.options (replicate layout.options_len 0)
          (splice 0 (take (min (length p) (length rp)) p) rp)))

  -- A reply's options, with the end option behind them.
  abbrev pub with_options : List Tlv → Bytes → Bytes
  with_options os resp = splice layout.options (encode os ++ 255 ∷ []) resp

  abbrev pub with_address : Ip4 → Bytes → Bytes
  with_address ip resp = splice layout.yiaddr (octets ip) resp

  module _ (lw : IsLwip w) where
    open lw.is_layout use {
      op_first, yiaddr_room, chaddr_room, cookie_room, options_room, options_last,
    }

    -- The four writes of newResp stay inside a buffer of the size of a message.
    module _ (rp p : Bytes) (h : layout.size ≤ length rp) where
      copied : Bytes
      copied = take (min (length p) (length rp)) p

      copied_fits : 0 + length copied ≤ length rp
      unfolding copied
      copied_fits = omega (arith, length-take (min (length p) (length rp)) p)

      cleared : Bytes
      unfolding copied
      cleared = splice layout.options (replicate layout.options_len 0) (splice 0 copied rp)

      length-zeros : length (replicate {A = ℕ} layout.options_len 0) ≡ layout.options_len
      length-zeros = length-replicate layout.options_len 0

      length-copied : length (splice 0 copied rp) ≡ length rp
      length-copied = length-splice 0 copied rp copied_fits

      length-cleared : length cleared ≡ length rp
      unfolding cleared
      length-cleared =
          length-splice layout.options (replicate layout.options_len 0) (splice 0 copied rp)
            (omega (arith, length-zeros, length-copied))
          ∙ length-copied

      length-op : length (splice layout.op (2 ∷ []) cleared) ≡ length rp
      length-op =
          length-splice layout.op (2 ∷ []) cleared (omega (arith, length-cleared)) ∙ length-cleared

      pub length-prepared : length (prepared rp p) ≡ length rp
      unfolding cleared
      length-prepared =
          length-splice layout.cookie w.magic_cookie (splice layout.op (2 ∷ []) cleared)
            (omega (arith, length-op, lw.cookie_length))
          ∙ length-op

      -- With a buffer of the size of a message newResp prepares it.
      pub new_resp-prepared : new_resp w (some rp) p ≡ some (some (prepared rp p), alloc_resp ∷ [])
      unfolding new_resp cleared
      new_resp-prepared = rw (
        ge→ltb (length rp) layout.size h,
        store_bytes-eq 0 copied rp copied_fits,
        store_bytes-eq layout.options (replicate layout.options_len 0) (splice 0 copied rp)
            (omega (arith, length-zeros, length-copied)),
        store_bytes-eq layout.op (2 ∷ []) cleared (omega (arith, length-cleared)),
        store_bytes-eq layout.cookie w.magic_cookie (splice layout.op (2 ∷ []) cleared)
            (omega (arith, length-op, lw.cookie_length)),
      )

      -- Between the op byte and the cookie the prepared response is the request.
      pub prepared_kept :
          (i n : ℕ)
          → layout.op + 1 ≤ i
          → i + n ≤ layout.cookie
          → layout.cookie ≤ length p
          → load_bytes i n (prepared rp p) ≡ load_bytes i n p
      unfolding cleared
      prepared_kept i n after_op below long =
          load_bytes-splice_before i n layout.cookie w.magic_cookie
            (splice layout.op (2 ∷ []) cleared) below
          ∙ load_bytes-splice_after i n layout.op (2 ∷ []) cleared after_op
              (omega (arith, length-cleared))
          ∙ load_bytes-splice_before i n layout.options (replicate layout.options_len 0)
              (splice 0 copied rp) (omega arith)
          ∙ load_bytes-append_take i n (min (length p) (length rp)) p (drop (length copied) rp)
              (omega arith) (omega arith)

      pub prepared_op : load_bytes layout.op 1 (prepared rp p) ≡ some (2 ∷ [])
      unfolding cleared
      prepared_op =
          load_bytes-splice_before layout.op 1 layout.cookie w.magic_cookie
            (splice layout.op (2 ∷ []) cleared) (omega arith)
          ∙ load_bytes-splice_self layout.op (2 ∷ []) cleared (omega (arith, length-cleared))

      pub prepared_cookie : load_bytes layout.cookie 4 (prepared rp p) ≡ some w.magic_cookie
      unfolding cleared
      prepared_cookie =
          ap (λ (n : ℕ). load_bytes layout.cookie n (prepared rp p)) (sym lw.cookie_length)
          ∙ load_bytes-splice_self layout.cookie w.magic_cookie (splice layout.op (2 ∷ []) cleared)
              (omega (arith, length-op))
