-- ===== src/Cs8900a/Poll/Owned.antt =====
-- Who owns a received packet (cs8900aIfInput and cs8900aThread of netif/cs8900a_lpc_e2129.c).
use picoos_lwip.Prelude.{
  ℕ, ◌≡◌, sym, ap, ◌∙◌, Bool, Option, none, some, List, [], ◌∷◌, ◌++◌, arith, >>=-eq-some, inl, inr,
  Option-cases, Bool-cases,
}
use picoos_lwip.Tap.{Event, EthTypes, eth_type, dispatch}
use picoos_lwip.Tap.Owned.{made, settled, made-append, settled-append, dispatch_settles}
use picoos_lwip.Cs8900a.Board.{Gpio}
use picoos_lwip.Cs8900a.Regs.{pp_rx_event, rx_frame_port, add_port, data_port}
use picoos_lwip.Cs8900a.Access.{cs8900a_write, cs8900a_read, cs8900a_read_addr_high_first}
use picoos_lwip.Cs8900a.Transmit.{Buffer, has_any}
use picoos_lwip.Cs8900a.Receive.{fill_pbuf, low_level_input}
use picoos_lwip.Cs8900a.Poll.{Answers, memories, contents, cs8900a_if_input, cs8900a_thread}

-- What receiving leaves for its caller.
abbrev pending : Option (List Buffer) → ℕ
pending none = 0
pending (some _) = 1

module _ (g : Gpio) where
  fill_pbuf-pending :
      (given : Option (List Buffer)) (s : g.State) {r : Option (List Buffer)} {ev : List Event}
      {s' : g.State}
      → fill_pbuf g given s ≡ some (r, ev, s')
      → (made ev ≡ pending r) × (settled ev ≡ 0)
  unfolding fill_pbuf
  fill_pbuf-pending given s e = ground arith

  low_level_input-pending :
      (alloc : ℕ → Option (List Buffer)) (s : g.State) {r : Option (List Buffer)} {ev : List Event}
      {s' : g.State}
      → low_level_input g alloc s ≡ some (r, ev, s')
      → (made ev ≡ pending r) × (settled ev ≡ 0)
  unfolding low_level_input
  low_level_input-pending alloc s {r} {ev} {s'} e =
      let s0 = cs8900a_write g add_port pp_rx_event s in
      let (word, s1) = cs8900a_read g data_port s0 in
      let s2 = (cs8900a_read_addr_high_first g rx_frame_port s1).1 in
      elim (Bool-cases (has_any (cs8900a_read g data_port s0).0 0xd00)) [
        | inl there ↦
            fill_pbuf-pending (alloc (cs8900a_read_addr_high_first g rx_frame_port s2).0)
              (cs8900a_read_addr_high_first g rx_frame_port s2).1 (rw (low_level_input, there) at e)
        | inr nothing ↦
            let none_given : Option (List Buffer) × List Event × g.State = (none, [], s1) in
            let f : some none_given ≡ some (r, ev, s') = rw (low_level_input, nothing) at e in
            ground arith
      ]

module _ (types : EthTypes) (g : Gpio) where
  cs8900a_if_input_balanced :
      (t : Answers) (s : g.State) {more : Bool} {ev : List Event} {s' : g.State}
      → cs8900a_if_input types g t s ≡ some (more, ev, s')
      → made ev ≡ settled ev
  unfolding cs8900a_if_input
  cs8900a_if_input_balanced t s {more} {ev} {s'} e =
      let ((r, ev1, s1), received, rest) = >>=-eq-some (low_level_input g t.pbuf_alloc s) _ e in
      let (m, n) = low_level_input-pending g t.pbuf_alloc s received in
      elim (Option-cases r) [
        | inl f ↦
            let z : made ev1 ≡ 0 = m ∙ ap pending f in
            let same : ev1 ≡ ev = ground arith in rw (← same) (z ∙ sym n)
        | inr (p, f) ↦
            let o : made ev1 ≡ 1 = m ∙ ap pending f in
            let (ty, known, k) = >>=-eq-some (eth_type (memories p)) _ (rw f at rest) in
            let given = dispatch types t.accepts (contents p) ty in
            let same : ev1 ++ given ≡ ev = ground arith in
            let (a, b) = dispatch_settles types t.accepts (contents p) ty in
            rw (← same) (omega (arith, made-append ev1 given, settled-append ev1 given))
      ]

  -- In a round of the polling thread that meets no fault, every packet that is made is settled
  -- once: lwIP takes it, or it is freed.
  cs8900a_thread_balanced :
      (ts : List Answers) (s : g.State) {ev : List Event} {s' : g.State}
      → cs8900a_thread types g ts s ≡ some (ev, s')
      → made ev ≡ settled ev
  unfolding cs8900a_thread
  cs8900a_thread_balanced [] s e = ground arith
  cs8900a_thread_balanced (t ∷ ts) s {ev} {s'} e =
      let ((more, ev1, s1), received, rest) = >>=-eq-some (cs8900a_if_input types g t s) _ e in
      let first = cs8900a_if_input_balanced t s received in
      elim (Bool-cases more) [
        | inl go ↦
            let ((evs, s2), ran, k) =
              >>=-eq-some (cs8900a_thread types g ts s1) _ (rw go at rest) in
            let same : ev1 ++ evs ≡ ev = ground arith in
            rw (← same) (
              omega (
                arith,
                made-append ev1 evs,
                settled-append ev1 evs,
                cs8900a_thread_balanced ts s1 ran,
              ))
        | inr stop ↦
            let same : ev1 ++ [] ≡ ev = ground arith in
            rw (← same) (omega (arith, made-append ev1 [], settled-append ev1 []))
      ]
