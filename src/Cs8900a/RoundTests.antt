-- ===== src/Cs8900a/RoundTests.antt =====
-- Rounds of the polling threads of netif/cs8900a_lpc_e2129.c and netif/tapif.c over two frames.
use picoos_lwip.Prelude.{
  ℕ, ◌≡◌, refl, true, replicate, length-replicate, some, List, [], ◌∷◌, ◌++◌, arith, length, map,
}
use picoos_lwip.Prelude.Bytes.{Bytes}
use picoos_lwip.Tap.{Event, Turn, got, again, tap_thread}
use picoos_lwip.Tap.Frames.{joined}
use picoos_lwip.Cs8900a.Access.Cycles.{Rests}
use picoos_lwip.Cs8900a.Receive.Spec.{drive, fill_buffers}
use picoos_lwip.Cs8900a.Receive.Outcomes.{after_frame}
use picoos_lwip.Cs8900a.Poll.{cs8900a_thread}
use picoos_lwip.Cs8900a.Poll.Drained.{
  Arrival, buffers, Calls, Comes, Waiting, drained, cs8900a_thread_drains,
}
use picoos_lwip.Cs8900a.Poll.Rounds.{
  Pair, calls_for, SameTurn, BothWaiting, cs8900a_thread-tap_thread,
}
use picoos_lwip.Cs8900a.ScriptBoard.{Pins, chip, gpio, board, script, idle, idle-Rests}
use picoos_lwip.Cs8900a.Tests.{arp_frame, arrival, header_buffer, alloc-HasRoom, types, answers}

-- Two frames, and then nothing.
abbrev two_frames : Bytes
two_frames = arrival ++ arrival

abbrev comes : Arrival
comes = record {
  answers = answers;
  first = header_buffer;
  rest = record { mem = 0 ∷ 0 ∷ []; len = 1 } ∷ [];
  hi = 8;
  lo = 6;
}

first-Comes : Comes chip (script two_frames) comes
unfolding drive
first-Comes = record {
  room = alloc-HasRoom;
  there = refl;
  given = refl;
  len = refl;
  paired = (refl, _);
  long = omega arith;
  type_hi = refl;
  type_lo = refl;
}

second-Comes : Comes chip (after_frame chip (buffers comes) (script two_frames)) comes
unfolding drive fill_buffers
second-Comes = record {
  room = alloc-HasRoom;
  there = refl;
  given = refl;
  len = refl;
  paired = (refl, _);
  long = omega arith;
  type_hi = refl;
  type_lo = refl;
}

two_frames-Waiting : Waiting chip (script two_frames) (comes ∷ comes ∷ [])
unfolding Waiting fill_buffers drive
two_frames-Waiting = (first-Comes, (second-Comes, refl))

cs8900a_thread_drains_example :
    (s' : Pins) × (packets : List (List Bytes)) × (evs : List Event) × (map joined packets
      ≡ arp_frame ∷ arp_frame ∷ [])
    × (map (map length) packets ≡ (14 ∷ 1 ∷ []) ∷ (14 ∷ 1 ∷ []) ∷ [])
    × (cs8900a_thread types gpio (answers ∷ answers ∷ answers ∷ []) (idle two_frames)
        ≡ some (evs, s'))
    × Calls types (comes ∷ comes ∷ []) packets evs
    × Rests gpio chip board (drained chip (script two_frames) (comes ∷ comes ∷ [])) s'
unfolding drive fill_buffers
cs8900a_thread_drains_example =
    cs8900a_thread_drains types gpio chip board (comes ∷ comes ∷ []) answers [] two_frames-Waiting
      (omega arith, (omega arith, _)) (idle-Rests two_frames)

-- The same frames at the tap device.
abbrev tap_turn : Turn
tap_turn = record {
  read = got arp_frame;
  eth_buf = replicate 1514 7;
  pbuf_alloc = λ n. some (replicate 14 0 ∷ (0 ∷ []) ∷ []);
  accepts = true;
}

abbrev no_frame : Turn
no_frame = record tap_turn { read = again }

abbrev pair : Pair
pair = record { arrival = comes; turn = tap_turn }

first-SameTurn : SameTurn chip (script two_frames) comes tap_turn
unfolding drive
first-SameTurn = record {
  is_read = refl;
  size = length-replicate {A = ℕ} 1514 7;
  fits = omega arith;
  first = replicate 14 0;
  rest = (0 ∷ []) ∷ [];
  given = refl;
  same_lens = refl;
  alike = refl;
}

second-SameTurn :
    SameTurn chip (after_frame chip (buffers comes) (script two_frames)) comes tap_turn
unfolding drive fill_buffers
second-SameTurn = record {
  is_read = refl;
  size = length-replicate {A = ℕ} 1514 7;
  fits = omega arith;
  first = replicate 14 0;
  rest = (0 ∷ []) ∷ [];
  given = refl;
  same_lens = refl;
  alike = refl;
}

two_frames-BothWaiting : BothWaiting chip (script two_frames) (pair ∷ pair ∷ [])
unfolding BothWaiting fill_buffers drive
two_frames-BothWaiting = (first-Comes, first-SameTurn, (second-Comes, second-SameTurn, refl))

cs8900a_thread-tap_thread_example :
    (s' : Pins) × (packets : List (List Bytes)) × (map joined packets ≡ arp_frame ∷ arp_frame ∷ [])
    × (cs8900a_thread types gpio (answers ∷ answers ∷ answers ∷ []) (idle two_frames)
        ≡ some (calls_for types (comes ∷ comes ∷ []) packets, s'))
    × (tap_thread types (tap_turn ∷ tap_turn ∷ no_frame ∷ [])
        ≡ some (calls_for types (comes ∷ comes ∷ []) packets))
unfolding drive fill_buffers
cs8900a_thread-tap_thread_example =
    cs8900a_thread-tap_thread types gpio chip board (pair ∷ pair ∷ []) answers [] no_frame []
      two_frames-BothWaiting refl (idle-Rests two_frames)
