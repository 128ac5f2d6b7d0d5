-- ===== src/Cs8900a/Transmit/Outcomes.antt =====
-- When lowLevelOutput of netif/cs8900a_lpc_e2129.c gives up, which bytes go out, and when it reads
-- behind a packet.
use picoos_lwip.Prelude.{
  append_assoc, append-nil, ℕ, zero, suc, ◌-◌, ◌%◌, ◌^◌, ◌≤◌, ◌<◌, ◌≡◌, ◌↔◌, length-append,
  length-take, refl, sym, ◌∙◌, ap, Bool, true, false, Option, none, some, List, [], ◌∷◌, ◌++◌, ◌==◌,
  arith, length, take, All, ◌>>=◌, Bool-cases, Option-cases, inl, inr,
}
use picoos_lwip.Prelude.Bytes.{Bytes}
use picoos_lwip.Tap.{LinkErr, link_ok, err_if, Event, link_xmit}
use picoos_lwip.Cs8900a.Board.{Gpio, Chip, IsBoard}
use picoos_lwip.Cs8900a.Regs.{tx_start_all_bytes, tx_frame_port, tx_cmd_port, tx_len_port}
use picoos_lwip.Cs8900a.Access.{data_pins, put_addr, cs8900a_write, cs8900a_write_tx_buf}
use picoos_lwip.Cs8900a.Access.Cycles.{write_port, Rests}
use picoos_lwip.Cs8900a.Transmit.{
  payloads, Buffer, Chain, wait_for_tx, send_pairs, send_chain, low_level_output,
}
use picoos_lwip.Cs8900a.Transmit.Spec.{
  reports, even_up, frame_bytes, IsSendable, skip_frame, poll_space, await_space, write_frame,
  transmit,
}
use picoos_lwip.Cs8900a.Transmit.Refine.{low_level_output-transmit}

-- The result of lowLevelOutput, if there is no fault.
abbrev pub result_of {ℓ} : {S : Type ℓ} → Option (LinkErr × List Event × S) → Option LinkErr
result_of none = none
result_of (some (e, _, _)) = some e

take-suc : (n : ℕ) (xs : Bytes) → n < length xs → (v : ℕ) × (take (suc n) xs ≡ take n xs ++ v ∷ [])
take-suc n [] h = absurd (omega arith)
take-suc zero (x ∷ xs) h = (x, refl)
take-suc (suc n) (x ∷ xs) h =
    let (v, e) = take-suc n xs (omega arith) in (v, ap (λ (t : Bytes). x ∷ t) e)

-- All buffers but the last have even lengths.
abbrev pub IsPaired : List Buffer → Type 0
IsPaired [] = Unit
IsPaired (q ∷ []) = Unit
IsPaired (q ∷ q' ∷ qs) = (q.len % 2 ≡ 0) × IsPaired (q' ∷ qs)

length-payload : (q : Buffer) → IsSendable q → length (take q.len q.mem) ≡ q.len
length-payload q ok = omega (arith, length-take q.len q.mem, ok.room)

-- What goes out is the packet's bytes, and one more if their number is odd.
frame_bytes-payloads :
    (qs : List Buffer)
    → All IsSendable qs
    → IsPaired qs
    → (extra : Bytes) × (frame_bytes qs ≡ payloads qs ++ extra)
      × (length extra ≡ length (payloads qs) % 2)
frame_bytes-payloads [] ok h = ([], refl, omega arith)
frame_bytes-payloads (q ∷ []) ok h =
    let whole : length (payloads (q ∷ [])) ≡ q.len =
      ap length (append-nil (take q.len q.mem)) ∙ length-payload q ok.0 in
    elim (Bool-cases (q.len % 2 == 0)) [
      | inl even ↦
          let e : even_up q.len ≡ q.len = ground arith in
          let z : q.len % 2 ≡ 0 = ground arith in ([], rw e (simp append-nil), omega arith)
      | inr odd ↦
          let e : even_up q.len ≡ suc q.len = ground arith in
          let (v, f) = take-suc q.len q.mem (omega (arith, ok.0.room)) in
          (v ∷ [], rw (e, f) (simp append-nil), omega arith)
    ]
frame_bytes-payloads (q ∷ q' ∷ qs) ok h =
    let e : even_up q.len ≡ q.len = omega (arith, h.0) in
    let (extra, f, parity) = frame_bytes-payloads (q' ∷ qs) ok.1 h.1 in
    let sum = length-append {0} (take q.len q.mem) (payloads (q' ∷ qs)) in
    (
      extra,
      rw e (
          ap (λ (t : Bytes). take q.len q.mem ++ t) f
          ∙ sym (append_assoc (take q.len q.mem) (payloads (q' ∷ qs)) extra)),
      omega (arith, length-payload q ok.0, h.0),
    )

module _ (c : Chip) where
  -- Whether poll `n` finds space, the earlier ones finding none.
  abbrev pub space_at : ℕ → c.State → Bool
  space_at zero x = (poll_space c x).0
  space_at (suc n) x = space_at n (skip_frame c (poll_space c x).1)

  -- The chip once the command and the length are written.
  abbrev pub commanded : Chain → c.State → c.State
  commanded p x = write_port c tx_len_port p.tot_len (write_port c tx_cmd_port tx_start_all_bytes x)

  await_space-false :
      (u : ℕ) (x : c.State)
      → ((await_space c u x).0 ≡ false) ↔ ((n : ℕ) → n ≤ u → space_at n x ≡ false)
  unfolding await_space
  await_space-false zero x = (never, λ h. h 0 (omega arith))
    where
      never : (poll_space c x).0 ≡ false → (n : ℕ) → n ≤ 0 → space_at n x ≡ false
      never e zero h = e
      never e (suc n) h = absurd (omega arith)
  await_space-false (suc u) x = elim (Bool-cases (poll_space c x).0) [
    | inl ready ↦ (
      λ e n h. let z : true ≡ false = sym (rw (await_space, ready) refl) ∙ e in cc,
      λ h. let z = h 0 (omega arith) in cc,
    )
    | inr busy ↦
        let ih = await_space-false u (skip_frame c (poll_space c x).1) in
        let step : (await_space c (suc u) x).0
            ≡ (await_space c u (skip_frame c (poll_space c x).1)).0 =
          rw (await_space, busy) in
        (
          λ e n h. later busy (ih.0 (sym step ∙ e)) n h,
          λ h. step ∙ ih.1 (λ n k. h (suc n) (omega arith)),
        )
  ]
    where
      later :
          (poll_space c x).0 ≡ false
          → ((n : ℕ) → n ≤ u → space_at n (skip_frame c (poll_space c x).1) ≡ false)
          → (n : ℕ) → n ≤ suc u
          → space_at n x ≡ false
      later busy ih zero h = busy
      later busy ih (suc n) h = ih n (omega arith)

module _ (g : Gpio) (c : Chip) (b : IsBoard g c) where
  -- lowLevelOutput gives ERR_IF exactly if none of nine polls for buffer space finds any. The packet's
  -- buffers hold the pairs that go out, its length has 16 bits, and the board is at rest.
  pub low_level_output-err_if :
      (p : Chain) {x : c.State} {s : g.State}
      → All IsSendable p.buffers
      → p.tot_len < 2 ^ 16
      → Rests g c b x s
      → (result_of (low_level_output g p s) ≡ some err_if)
        ↔ ((n : ℕ) → n ≤ 8 → space_at c n (commanded c p x) ≡ false)
  low_level_output-err_if p {x} {s} ok fits r =
      let (s', e, _) = low_level_output-transmit g c b p ok fits r in
      let iff = await_space-false c 8 (commanded c p x) in
      elim (Bool-cases (await_space c 8 (commanded c p x)).0) [
        | inl ready ↦
            let out : (transmit c p x).0 ≡ link_ok = unfold transmit in rw (transmit, ready) in
            (λ h. let z = sym (ap result_of e ∙ ap some out) ∙ h in cc, λ h. let z = iff.1 h in cc)
        | inr busy ↦
            let out : (transmit c p x).0 ≡ err_if = unfold transmit in rw (transmit, busy) in
            (λ h. iff.0 busy, λ h. ap result_of e ∙ ap some out)
      ]

  -- Where one of nine polls finds space and all buffers but the last have even lengths,
  -- lowLevelOutput gives ERR_OK and writes the packet's bytes to the chip, in order, behind the
  -- command and the length, and one byte more exactly if their number is odd. The buffers hold the
  -- pairs that go out, the packet's length has 16 bits, and the board is at rest.
  pub low_level_output-payloads :
      (p : Chain) {x : c.State} {s : g.State}
      → All IsSendable p.buffers
      → IsPaired p.buffers
      → p.tot_len < 2 ^ 16
      → Rests g c b x s
      → (await_space c 8 (commanded c p x)).0 ≡ true
      → (s' : g.State) × (extra : Bytes) × (low_level_output g p s
          ≡ some (link_ok, link_xmit ∷ [], s'))
        × (b.chip s'
            ≡ write_frame c (payloads p.buffers ++ extra) (await_space c 8 (commanded c p x)).1)
        × (length extra ≡ length (payloads p.buffers) % 2)
  unfolding transmit
  low_level_output-payloads p {x} {s} ok paired fits r ready =
      let (s', e, rest) = low_level_output-transmit g c b p ok fits r in
      let (extra, f, parity) = frame_bytes-payloads p.buffers ok paired in
      let out : transmit c p x ≡ (
        link_ok,
        write_frame c (payloads p.buffers ++ extra) (await_space c 8 (commanded c p x)).1,
      ) =
        rw (transmit, ready, f) in
      (
        s',
        extra,
        e ∙ ap (λ (t : LinkErr × c.State). some (t.0, reports t.0, s')) out,
        rest.view.chip_is ∙ ap (λ (t : LinkErr × c.State). t.1) out,
        parity,
      )

-- A buffer whose odd length reaches the end of its block.
abbrev pub Overhangs : Buffer → Type 0
Overhangs q = (q.len % 2 ≡ 1) × (length q.mem ≡ q.len)

module _ (g : Gpio) where
  send_pairs-past :
      (left : ℕ) (mem : Bytes) (s : g.State)
      → left % 2 ≡ 1
      → length mem ≡ left
      → send_pairs g left mem s ≡ none
  unfolding send_pairs
  send_pairs-past zero mem s odd e = absurd (omega arith)
  send_pairs-past (suc left) [] s odd e = refl
  send_pairs-past (suc left) (byte0 ∷ []) s odd e = refl
  send_pairs-past (suc left) (byte0 ∷ byte1 ∷ mem) s odd e =
      send_pairs-past (left - 1) mem (cs8900a_write_tx_buf g byte0 byte1 s) (omega arith)
        (omega arith)

  send_chain-past :
      (qs : List Buffer) (q : Buffer) (rest : List Buffer) (s : g.State)
      → Overhangs q
      → send_chain g (qs ++ q ∷ rest) s ≡ none
  unfolding send_chain
  send_chain-past [] q rest s odd =
      rw
        (send_pairs-past q.len q.mem (put_addr g tx_frame_port (g.dir_set data_pins s)) odd.0 odd.1)
  send_chain-past (q' ∷ qs) q rest s odd =
      let s1 = put_addr g tx_frame_port (g.dir_set data_pins s) in
      elim (Option-cases (send_pairs g q'.len q'.mem s1)) [
        | inl fault ↦ rw fault
        | inr (s', e) ↦ rw (e, ◌>>=◌, send_chain-past qs q rest s' odd)
      ]

  -- Where a poll finds space and some buffer has an odd length that reaches the end of its block,
  -- lowLevelOutput reads behind the block.
  pub low_level_output_past :
      (qs : List Buffer) (q : Buffer) (rest : List Buffer) (len : ℕ) (s : g.State)
      → Overhangs q
      → (wait_for_tx g 8
          (cs8900a_write g tx_len_port len (cs8900a_write g tx_cmd_port tx_start_all_bytes s))).0
        ≡ true
      → low_level_output g (record { buffers = qs ++ q ∷ rest; tot_len = len }) s ≡ none
  unfolding low_level_output
  low_level_output_past qs q rest len s odd ready =
      rw (low_level_output, ready, send_chain-past qs q rest _ odd)
