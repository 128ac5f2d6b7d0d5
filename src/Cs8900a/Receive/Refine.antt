-- ===== src/Cs8900a/Receive/Refine.antt =====
-- lowLevelInput of netif/cs8900a_lpc_e2129.c, over the pins, against its specification.
use picoos_lwip.Prelude.{
  ℕ, zero, suc, ◌+◌, ◌-◌, ◌%◌, ◌^◌, ◌≤◌, ◌<◌, ◌≡◌, ltb, refl, sym, ◌∙◌, ap, subst, true, false,
  Option, none, some, List, [], ◌∷◌, ◌++◌, arith, length, length-append, append_assoc, drop, All,
  ◌>>=◌, Bool-cases, inl, inr,
}
use picoos_lwip.Prelude.Bytes.{Bytes, store_bytes, store_bytes-eq, splice-append}
use picoos_lwip.Tap.{Event}
use picoos_lwip.Cs8900a.Board.{Gpio, Chip, IsBoard}
use picoos_lwip.Cs8900a.Regs.{pp_rx_event, rx_frame_port, add_port, data_port}
use picoos_lwip.Cs8900a.Access.{
  cs8900a_read_addr_high_first, data_pins, put_addr, cs8900a_write, cs8900a_read,
  cs8900a_read_rx_buf,
}
use picoos_lwip.Cs8900a.Access.Lines.{put_addr-View, data_in-View}
use picoos_lwip.Cs8900a.Access.Cycles.{
  Rests, Streams, cs8900a_write-port, cs8900a_read-port, cs8900a_read_addr_high_first-port,
  cs8900a_read_rx_buf-port,
}
use picoos_lwip.Cs8900a.Transmit.{Buffer, has_any, cs8900a_skip_frame}
use picoos_lwip.Cs8900a.Transmit.Spec.{even_up}
use picoos_lwip.Cs8900a.Transmit.Refine.{cs8900a_skip_frame-Rests}
use picoos_lwip.Cs8900a.Receive.{receive_pairs, receive_chain, fill_pbuf, low_level_input}
use picoos_lwip.Cs8900a.Receive.Spec.{
  pairs, HasRoom, IsShort, drive, fill_buffers, fill_given, arrived, frame_length, receive,
}

module _ (g : Gpio) (c : Chip) (b : IsBoard g c) where
  -- A pair is stored behind those that are there.
  store_pair :
      (pre mem : Bytes) (v v' byte0 byte1 : ℕ)
      → store_bytes (length pre) (byte0 ∷ byte1 ∷ []) (pre ++ v ∷ v' ∷ mem)
        ≡ some ((pre ++ byte0 ∷ byte1 ∷ []) ++ mem)
  store_pair pre mem v v' byte0 byte1 =
      store_bytes-eq (length pre) (byte0 ∷ byte1 ∷ []) (pre ++ v ∷ v' ∷ mem)
        (omega (arith, length-append {0} pre (v ∷ v' ∷ mem)))
      ∙ ap some (
          splice-append pre (byte0 ∷ byte1 ∷ []) (v ∷ v' ∷ mem)
          ∙ sym (append_assoc pre (byte0 ∷ byte1 ∷ []) mem))

  -- One round of the loop: two bytes, then the rest.
  receive_pairs-suc :
      (fuel u len byte0 byte1 v v' : ℕ) (pre mem : Bytes) (s : g.State)
      (result : Option (Bytes × g.State))
      → length pre ≡ u
      → u < len
      → len < 65535
      → (cs8900a_read_rx_buf g s).0 ≡ byte0
      → (cs8900a_read_rx_buf g s).1 ≡ byte1
      → receive_pairs g fuel
          (u + 2)
          len
          ((pre ++ byte0 ∷ byte1 ∷ []) ++ mem)
          (cs8900a_read_rx_buf g s).2
        ≡ result
      → receive_pairs g (suc fuel) u len (pre ++ v ∷ v' ∷ mem) s ≡ result
  unfolding receive_pairs
  receive_pairs-suc fuel u len byte0 byte1 v v' pre mem s result at less short first second e =
      let lt : ltb u len ≡ true = ground arith in
      let next : (u + 2) % 2 ^ 16 ≡ u + 2 = omega arith in
      rw
        (
          receive_pairs,
          lt,
          first,
          second,
          ← at,
          store_pair pre mem v v' byte0 byte1,
          ◌>>=◌,
          at,
          next,
        )
        e

  -- The bytes that come in behind those that are there.
  drive_pair :
      (n m k j v v' : ℕ) (pre mem : Bytes) (x : c.State)
      → n ≡ suc m
      → k ≡ suc (suc j)
      → (pre
            ++ c.read_byte rx_frame_port x
              ∷ c.read_byte (rx_frame_port + 1) (c.end_read rx_frame_port x)
              ∷ [])
          ++ ((drive c m (c.end_read (rx_frame_port + 1) (c.end_read rx_frame_port x))).0
              ++ drop j mem)
        ≡ pre ++ ((drive c n x).0 ++ drop k (v ∷ v' ∷ mem))
  unfolding drive
  drive_pair n m k j v v' pre mem x one two = rw (one, two) (append_assoc pre _ _)

  receive_pairs-Streams :
      (fuel u len left : ℕ) (pre mem : Bytes) {x : c.State} {s : g.State}
      → length pre ≡ u
      → len - u ≡ left
      → pairs left < fuel
      → even_up left ≤ length mem
      → len < 65535
      → Streams g c b rx_frame_port false x s
      → (s' : g.State) × (receive_pairs g fuel u len (pre ++ mem) s
          ≡ some (pre ++ ((drive c (pairs left) x).0 ++ drop (even_up left) mem), s'))
        × Streams g c b rx_frame_port false (drive c (pairs left) x).1 s'
  unfolding receive_pairs drive
  receive_pairs-Streams zero u len left pre mem at gap enough room short r = absurd (omega arith)
  receive_pairs-Streams (suc fuel) u len zero pre mem {s} at gap enough room short r =
      let over : ltb u len ≡ false = ground arith in (s, rw (receive_pairs, over), r)
  receive_pairs-Streams (suc fuel) u len (suc left) pre [] at gap enough room short r =
      absurd (omega arith)
  receive_pairs-Streams (suc fuel) u len (suc left) pre (_ ∷ []) at gap enough room short r =
      absurd (omega arith)
  receive_pairs-Streams (suc fuel) u len (suc left) pre (v ∷ v' ∷ mem) {x} {s} at gap enough room
        short r =
      let two : even_up (suc left) ≡ suc (suc (even_up (left - 1))) = omega arith in
      let one : pairs (suc left) ≡ suc (pairs (left - 1)) = omega arith in
      let (first, second, r1) = cs8900a_read_rx_buf-port g c b rx_frame_port r in
      let byte0 = c.read_byte rx_frame_port x in
      let byte1 = c.read_byte (rx_frame_port + 1) (c.end_read rx_frame_port x) in
      let pre' = pre ++ byte0 ∷ byte1 ∷ [] in
      let (s', e, r2) =
        receive_pairs-Streams fuel (u + 2) len (left - 1) pre' mem
          (omega (arith, length-append {0} pre (byte0 ∷ byte1 ∷ []))) (omega arith) (omega arith)
          (omega arith) short r1 in
      let f =
        receive_pairs-suc fuel u len byte0 byte1 v v' pre mem s _ at (omega arith) short first
          second e in
      (
        s',
        f
            ∙ ap (λ (z : Bytes). some (z, s'))
                (drive_pair (pairs (suc left)) (pairs (left - 1)) (even_up (suc left))
                  (even_up (left - 1)) v v' pre mem x one two),
        subst (λ (n : ℕ). Streams g c b rx_frame_port false (drive c n x).1 s') (sym one) r2,
      )

  pub receive_chain-Streams :
      (qs : List Buffer) {x : c.State} {s : g.State}
      → All HasRoom qs
      → All IsShort qs
      → Streams g c b rx_frame_port false x s
      → (s' : g.State) × (receive_chain g qs s ≡ some ((fill_buffers c qs x).0, s'))
        × Streams g c b rx_frame_port false (fill_buffers c qs x).1 s'
  unfolding receive_chain fill_buffers
  receive_chain-Streams [] {s} room short r = (s, refl, r)
  receive_chain-Streams (q ∷ qs) room short r =
      let (s1, e1, r1) =
        receive_pairs-Streams (pairs q.len + 1) 0 q.len q.len [] q.mem refl (omega arith)
          (omega arith) room.0 short.0 r in
      let (s2, e2, r2) = receive_chain-Streams qs room.1 short.1 r1 in (s2, rw (e1, ◌>>=◌, e2), r2)

  pub Rests-Streams :
      {x : c.State} {s : g.State}
      → Rests g c b x s
      → Streams g c b rx_frame_port false x (put_addr g rx_frame_port (g.dir_clr data_pins s))
  Rests-Streams r = record {
    addr = rx_frame_port;
    at_port = refl;
    byte = r.byte;
    view = put_addr-View g c b rx_frame_port (omega arith) (data_in-View g c b r.view);
  }

  fill_pbuf-Rests :
      (given : Option (List Buffer)) {x : c.State} {s : g.State}
      → ((qs : List Buffer) → given ≡ some qs → All HasRoom qs × All IsShort qs)
      → Rests g c b x s
      → (s' : g.State) × (fill_pbuf g given s
          ≡ some ((fill_given c given x).0, (fill_given c given x).1, s'))
        × Rests g c b (fill_given c given x).2 s'
  unfolding fill_pbuf fill_given
  fill_pbuf-Rests none {s} room r = (cs8900a_skip_frame g s, refl, cs8900a_skip_frame-Rests g c b r)
  fill_pbuf-Rests (some qs) room r =
      let (s', e, r') =
        receive_chain-Streams qs (room qs refl).0 (room qs refl).1 (Rests-Streams r) in
      (s', rw (e, ◌>>=◌), record { addr = r'.addr; out = false; byte = r'.byte; view = r'.view })

  -- The frame's length, as it is read.
  abbrev pub frame_word : g.State → ℕ × g.State
  frame_word s =
      cs8900a_read_addr_high_first g rx_frame_port
        (cs8900a_read_addr_high_first g rx_frame_port
          (cs8900a_read g data_port (cs8900a_write g add_port pp_rx_event s)).1).1

  -- They are the chip's.
  pub frame_word-Rests :
      {x : c.State} {s : g.State}
      → Rests g c b x s
      → (has_any (cs8900a_read g data_port (cs8900a_write g add_port pp_rx_event s)).0 0xd00
          ≡ (arrived c x).0)
        × Rests g c b
            (arrived c x).1
            (cs8900a_read g data_port (cs8900a_write g add_port pp_rx_event s)).1
        × ((frame_word s).0 ≡ (frame_length c (arrived c x).1).0)
        × Rests g c b (frame_length c (arrived c x).1).1 (frame_word s).1
  frame_word-Rests r =
      let r0 = cs8900a_write-port g c b add_port pp_rx_event refl (omega arith) (omega arith) r in
      let (word, r1) = cs8900a_read-port g c b data_port refl (omega arith) r0 in
      let (status, r2) =
        cs8900a_read_addr_high_first-port g c b rx_frame_port refl (omega arith) r1 in
      let (len, r3) = cs8900a_read_addr_high_first-port g c b rx_frame_port refl (omega arith) r2 in
      (ap (λ (w : ℕ). has_any w 0xd00) word, r1, len, r3)

  -- The two ways of lowLevelInput.
  low_level_input-nothing :
      (alloc : ℕ → Option (List Buffer)) (s : g.State)
      → has_any (cs8900a_read g data_port (cs8900a_write g add_port pp_rx_event s)).0 0xd00 ≡ false
      → low_level_input g alloc s
        ≡ some (none, [], (cs8900a_read g data_port (cs8900a_write g add_port pp_rx_event s)).1)
  unfolding low_level_input
  low_level_input-nothing alloc s h = rw (low_level_input, h)

  low_level_input-there :
      (alloc : ℕ → Option (List Buffer)) (s : g.State) (n : ℕ)
      (result : Option (List Buffer) × List Event × g.State)
      → has_any (cs8900a_read g data_port (cs8900a_write g add_port pp_rx_event s)).0 0xd00 ≡ true
      → (frame_word s).0 ≡ n
      → fill_pbuf g (alloc n) (frame_word s).1 ≡ some result
      → low_level_input g alloc s ≡ some result
  unfolding low_level_input
  low_level_input-there alloc s n result h len e = rw (low_level_input, h, len) e

  -- lowLevelInput does what it is to do, if the buffers that pbuf_alloc gives for an arrived frame's
  -- length hold the pairs that come in and have fewer than 65535 bytes each. It ends, meets no fault,
  -- gives the same packet and counts, and leaves the board at rest.
  pub low_level_input-receive :
      (alloc : ℕ → Option (List Buffer)) {x : c.State} {s : g.State}
      → ((qs : List Buffer)
          → (arrived c x).0 ≡ true
          → alloc (frame_length c (arrived c x).1).0 ≡ some qs
          → All HasRoom qs × All IsShort qs)
      → Rests g c b x s
      → (s' : g.State) × (low_level_input g alloc s
          ≡ some ((receive c alloc x).0, (receive c alloc x).1, s'))
        × Rests g c b (receive c alloc x).2 s'
  unfolding receive
  low_level_input-receive alloc {x} {s} room r =
      let (same, r1, len, r3) = frame_word-Rests r in
      let n = (frame_length c (arrived c x).1).0 in
      elim (Bool-cases (arrived c x).0) [
        | inr nothing ↦ (
          (cs8900a_read g data_port (cs8900a_write g add_port pp_rx_event s)).1,
          low_level_input-nothing alloc s (same ∙ nothing) ∙ rw (receive, nothing),
          rw (receive, nothing) r1,
        )
        | inl there ↦
            let (s', e, r4) = fill_pbuf-Rests (alloc n) (λ qs e. room qs there e) r3 in
            (
              s',
              low_level_input-there alloc s n _ (same ∙ there) len e ∙ rw (receive, there),
              rw (receive, there) r4,
            )
      ]
