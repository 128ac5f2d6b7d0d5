-- ===== src/Cs8900a/Tests.antt =====
-- The theorems on netif/cs8900a_lpc_e2129.c at a small board.
use picoos_lwip.Prelude.{
  ℕ, suc, ◌^◌, ◌≤◌, ◌≡◌, refl, true, false, All, map, replicate, length-replicate, Option, none,
  some, List, [], ◌∷◌, ◌++◌, ◌==◌, arith, length, if◌then◌else◌, Bool-cases, inl, inr,
}
use picoos_lwip.Prelude.Bytes.{Bytes}
use picoos_lwip.Tap.{link_ok, link_xmit, link_recv, alloc_pbuf, EthTypes}
use picoos_lwip.Tap.Init.{init_ok}
use picoos_lwip.Cs8900a.Access.Cycles.{Rests}
use picoos_lwip.Cs8900a.Transmit.{Buffer, Chain, payloads, low_level_output}
use picoos_lwip.Cs8900a.Transmit.Spec.{IsSendable, await_space, write_frame, transmit}
use picoos_lwip.Cs8900a.Transmit.Refine.{low_level_output-transmit}
use picoos_lwip.Cs8900a.Transmit.Outcomes.{commanded, low_level_output-payloads}
use picoos_lwip.Cs8900a.Receive.{low_level_input}
use picoos_lwip.Cs8900a.Receive.Spec.{HasRoom, IsShort, drive, arrived, frame_length, receive}
use picoos_lwip.Cs8900a.Receive.Refine.{low_level_input-receive}
use picoos_lwip.Cs8900a.Receive.Outcomes.{after_frame, low_level_input-payloads}
use picoos_lwip.Cs8900a.Poll.{Answers}
use picoos_lwip.Cs8900a.Start.{cs8900a_if_init}
use picoos_lwip.Cs8900a.Start.Registers.{settings, write_registers}
use picoos_lwip.Cs8900a.Start.Reset.{
  resetting, after_reads, done_at, started_steps, cs8900a_if_init_returns,
}
use picoos_lwip.Cs8900a.ScriptBoard.{
  Script, Pins, chip, gpio, board, script, idle, idle-Rests, floating, floating-IsFloating,
}

abbrev pub two_buffers : List Buffer
two_buffers = record { mem = 1 ∷ 2 ∷ 9 ∷ []; len = 2 } ∷ record { mem = 3 ∷ 4 ∷ []; len = 1 } ∷ []

abbrev packet : Chain
packet = record { buffers = two_buffers; tot_len = 3 }

pub two_buffers-IsSendable : All IsSendable two_buffers
two_buffers-IsSendable = (
  record { in_bytes = (omega arith, (omega arith, (omega arith, _))); room = omega arith },
  (record { in_bytes = (omega arith, (omega arith, _)); room = omega arith }, _),
)

-- Space at the first poll.
abbrev pub space : Bytes
space = 0 ∷ 1 ∷ []

low_level_output-transmit_example :
    (s' : Pins) × (low_level_output gpio packet (idle space) ≡ some (link_ok, link_xmit ∷ [], s'))
    × Rests gpio chip board (transmit chip packet (script space)).1 s'
unfolding transmit
low_level_output-transmit_example =
    low_level_output-transmit gpio chip board packet two_buffers-IsSendable (omega arith)
      (idle-Rests space)

abbrev frame_start : Script
frame_start = (await_space chip 8 (commanded chip packet (script space))).1

low_level_output-payloads_example :
    (s' : Pins) × (extra : Bytes) × (low_level_output gpio packet (idle space)
      ≡ some (link_ok, link_xmit ∷ [], s'))
    × (s'.script ≡ write_frame chip ((1 ∷ 2 ∷ 3 ∷ []) ++ extra) frame_start)
    × (length extra ≡ 1)
unfolding await_space
low_level_output-payloads_example =
    low_level_output-payloads gpio chip board packet two_buffers-IsSendable (refl, _) (omega arith)
      (idle-Rests space) refl

-- A frame of 15 bytes with the type 0x0806, in buffers of 14 bytes and of one.
abbrev pub arp_frame : Bytes
arp_frame = 255 ∷ 255 ∷ 255 ∷ 255 ∷ 255 ∷ 255 ∷ 0 ∷ 1 ∷ 2 ∷ 3 ∷ 4 ∷ 5 ∷ 8 ∷ 6 ∷ 77 ∷ []

-- The event, the status and the length, then the frame and what fills its last pair.
abbrev pub arrival : Bytes
arrival = 0 ∷ 1 ∷ 0 ∷ 0 ∷ 0 ∷ 15 ∷ (arp_frame ++ 0 ∷ [])

abbrev pub header_buffer : Buffer
header_buffer = record { mem = replicate 14 0; len = 14 }

abbrev given : List Buffer
given = header_buffer ∷ record { mem = 0 ∷ 0 ∷ []; len = 1 } ∷ []

-- pbuf_alloc has buffers for that length.
abbrev pub alloc : ℕ → Option (List Buffer)
alloc n = if n == 15 then some given else none

given-HasRoom : All HasRoom given
given-HasRoom = (omega (arith, length-replicate {A = ℕ} 14 0), (omega arith, _))

given-IsShort : All IsShort given
given-IsShort = (omega arith, (omega arith, _))

pub alloc-HasRoom : (n : ℕ) (qs : List Buffer) → alloc n ≡ some qs → All HasRoom qs
alloc-HasRoom n qs h = elim (Bool-cases (n == 15)) [
  | inl e ↦ let f : given ≡ qs = ground arith in rw (← f) given-HasRoom
  | inr e ↦ absurd (ground arith)
]

alloc-Fits :
    (qs : List Buffer)
    → (arrived chip (script arrival)).0 ≡ true
    → alloc (frame_length chip (arrived chip (script arrival)).1).0 ≡ some qs
    → All HasRoom qs × All IsShort qs
alloc-Fits qs there h = let f : given ≡ qs = ground arith in rw (← f) (given-HasRoom, given-IsShort)

low_level_input-receive_example :
    (s' : Pins) × (low_level_input gpio alloc (idle arrival)
      ≡ some ((receive chip alloc (script arrival)).0, (receive chip alloc (script arrival)).1, s'))
    × Rests gpio chip board (receive chip alloc (script arrival)).2 s'
low_level_input-receive_example =
    low_level_input-receive gpio chip board alloc alloc-Fits (idle-Rests arrival)

low_level_input-payloads_example :
    (s' : Pins) × (ps : List Buffer) × (low_level_input gpio alloc (idle arrival)
      ≡ some (some ps, alloc_pbuf ∷ link_recv ∷ [], s'))
    × (payloads ps ≡ arp_frame)
    × (map (λ (q : Buffer). q.len) ps ≡ 14 ∷ 1 ∷ [])
    × All HasRoom ps
    × Rests gpio chip board (after_frame chip given (script arrival)) s'
unfolding drive
low_level_input-payloads_example =
    low_level_input-payloads gpio chip board alloc given given-HasRoom given-IsShort
      (idle-Rests arrival) refl refl refl (refl, _)

-- Three rounds at a buffer of 65535 bytes.
abbrev long_block : Bytes
long_block = replicate (2 ^ 16) 0

abbrev pub types : EthTypes
types = record {
  ip = 0x0800;
  ipv6 = 0x86dd;
  arp = 0x0806;
  pppoe_support = false;
  pppoedisc = 0x8863;
  pppoe = 0x8864;
}

abbrev pub answers : Answers
answers = record { pbuf_alloc = alloc; accepts = true }

-- The second read of the status finds the reset done.
abbrev slow_reset : Bytes
slow_reset = 0 ∷ 0 ∷ 128 ∷ 0 ∷ []

cs8900a_if_init_returns_example :
    (m : ℕ) × (s' : Pins) × (m ≤ 1)
    × (done_at chip m (resetting chip (script slow_reset)) ≡ true)
    × (cs8900a_if_init gpio (some 5) 14 2 (floating slow_reset)
        ≡ some (init_ok, started_steps 5 14, s'))
    × Rests gpio chip board
        (write_registers chip settings
          (after_reads chip (suc m) (resetting chip (script slow_reset))))
        s'
cs8900a_if_init_returns_example =
    cs8900a_if_init_returns gpio chip board 5 14 1 2 (floating-IsFloating slow_reset) refl
      (omega arith)
