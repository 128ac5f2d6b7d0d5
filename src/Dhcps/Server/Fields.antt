-- ===== src/Dhcps/Server/Fields.antt =====
-- What a client reads in a reply that carries an address (handleDiscover and handleRequest of
-- apps/dhcps/dhcps.c), and when the server reads a response that it has freed.
use picoos_lwip.Prelude.{
  ℕ, ◌+◌, ◌-◌, ◌≤◌, ◌<◌, ◌≡◌, ap, ◌∙◌, some, List, [], ◌∷◌, ◌++◌, arith, length, drop, ◌>>=◌,
  append_assoc,
}
use picoos_lwip.Prelude.Bytes.{
  Bytes, load_bytes, length-splice, load_bytes-splice_self, load_bytes-splice_before,
  load_bytes-splice_after, drop-splice,
}
use picoos_lwip.Dhcps.Types.{Ip4, octets, load_ip, ip_of_bytes}
use picoos_lwip.Dhcps.Options.Scan.{Tlv, encode}
use picoos_lwip.Dhcps.Server.Replies.{
  prepared, with_options, with_address, length-prepared, prepared_kept, prepared_op,
  prepared_cookie,
}
use picoos_lwip.Dhcps.Server.Env.{Lwip, IsLwip}

-- The reply `out` to the request `p`: a BOOTREPLY with the cookie, the client's address `ip`, the
-- options `os` with the end option behind them, and all other fields as in the request.
pub record IsReply (w : Lwip) (p : Bytes) (ip : Ip4) (os : List Tlv) (out : Bytes) : Type 0 where
  pub op : load_bytes w.layout.op 1 out ≡ some (2 ∷ [])
  pub cookie : load_bytes w.layout.cookie 4 out ≡ some w.magic_cookie
  pub address : load_ip w.layout.yiaddr out ≡ some ip
  pub head :
      let start = w.layout.op + 1 in
      load_bytes start (w.layout.yiaddr - start) out ≡ load_bytes start (w.layout.yiaddr - start) p
  pub tail :
      let start = w.layout.yiaddr + 4 in
      load_bytes start (w.layout.cookie - start) out ≡ load_bytes start (w.layout.cookie - start) p
  pub rest : Bytes
  pub options : drop w.layout.options out ≡ encode os ++ 255 ∷ rest

module _ (w : Lwip) (lw : IsLwip w) (rp p : Bytes) (ip : Ip4) (os : List Tlv)
    (room : w.layout.size ≤ length rp) (long : w.layout.cookie ≤ length p)
    (fits : length (encode os) < w.layout.options_len) where
  open w use {layout}
  open lw.is_layout use {
    op_first, yiaddr_room, chaddr_room, cookie_room, options_room, options_last,
  }

  abbrev resp : Bytes
  resp = prepared w rp p

  abbrev bytes : Bytes
  bytes = encode os ++ 255 ∷ []

  abbrev addressed : Bytes
  addressed = with_address w ip resp

  length-resp : length resp ≡ length rp
  length-resp = length-prepared w lw rp p room

  length-addressed : length addressed ≡ length rp
  length-addressed =
      length-splice layout.yiaddr (octets ip) resp (omega (arith, length-resp)) ∙ length-resp

  -- A load that ends before the options and misses the address is one from the response.
  missed_before :
      (i n : ℕ)
      → i + n ≤ layout.yiaddr
      → load_bytes i n (with_options w os addressed) ≡ load_bytes i n resp
  missed_before i n h =
      load_bytes-splice_before i n layout.options bytes addressed (omega arith)
      ∙ load_bytes-splice_before i n layout.yiaddr (octets ip) resp h

  missed_behind :
      (i n : ℕ)
      → layout.yiaddr + 4 ≤ i
      → i + n ≤ layout.options
      → load_bytes i n (with_options w os addressed) ≡ load_bytes i n resp
  missed_behind i n h k =
      load_bytes-splice_before i n layout.options bytes addressed k
      ∙ load_bytes-splice_after i n layout.yiaddr (octets ip) resp h (omega (arith, length-resp))

  address_read : load_ip layout.yiaddr (with_options w os addressed) ≡ some ip
  address_read =
      ap (λ m. m >>= ip_of_bytes)
        (load_bytes-splice_before layout.yiaddr 4 layout.options bytes addressed (omega arith)
          ∙ load_bytes-splice_self layout.yiaddr (octets ip) resp (omega (arith, length-resp)))

  -- With a buffer of the size of a message, a request that reaches the cookie and options that
  -- leave room for the end option, the reply is one that the client can read.
  pub with_options-IsReply :
      IsReply w p ip os (with_options w os (with_address w ip (prepared w rp p)))
  with_options-IsReply = record {
    op = missed_before layout.op 1 (omega arith) ∙ prepared_op w lw rp p room;
    cookie =
        missed_behind layout.cookie 4 (omega arith) (omega arith) ∙ prepared_cookie w lw rp p room;
    address = address_read;
    head =
        let start = layout.op + 1 in
        missed_before start (layout.yiaddr - start) (omega arith)
        ∙ prepared_kept w lw rp p room start (layout.yiaddr - start) (omega arith) (omega arith)
            long;
    tail =
        let start = layout.yiaddr + 4 in
        missed_behind start (layout.cookie - start) (omega arith) (omega arith)
        ∙ prepared_kept w lw rp p room start (layout.cookie - start) (omega arith) (omega arith)
            long;
    rest = drop (length bytes) (drop layout.options addressed);
    options =
        drop-splice layout.options bytes addressed (omega (arith, length-addressed))
        ∙ append_assoc (encode os) (255 ∷ []) _;
  }
