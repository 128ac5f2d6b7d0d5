-- ===== src/Tap/Tests.antt =====
-- The theorems on netif/tapif.c at small frames.
use picoos_lwip.Prelude.{
  ℕ, ◌≡◌, ◌⊎◌, ◌<◌, refl, Bool, true, false, Option, none, some, List, [], ◌∷◌, ◌++◌, arith,
  replicate, length-replicate, length-append,
}
use picoos_lwip.Prelude.Bytes.{Bytes}
use picoos_lwip.Tap.{
  Pbuf, low_level_output, low_level_input, link_ok, tap_write, link_xmit, Turn, got, again, failed,
  EthTypes, tap_thread, tap_if_input, eth_type, dispatch, is_known, fill, copy_in, Event,
}
use picoos_lwip.Tap.Frames.{low_level_output-joined, low_level_input_failed}
use picoos_lwip.Tap.Owned.{made, settled, tap_thread_balanced}
use picoos_lwip.Tap.Wakeup.{
  Poll, Gives, Reaches, initial, start, onward, wakes, polls, arrives, empty, tap_thread_wakes,
  tap_thread_stalls,
}

abbrev buffer : Bytes
buffer = replicate 1514 7

abbrev packet : Pbuf
packet = record { payloads = (1 ∷ 2 ∷ []) ∷ (3 ∷ []) ∷ []; tot_len = 3 }

low_level_output-joined_example :
    low_level_output packet buffer true
    ≡ some (link_ok, tap_write (1 ∷ 2 ∷ 3 ∷ []) ∷ link_xmit ∷ [])
low_level_output-joined_example =
    low_level_output-joined packet buffer true (length-replicate {A = ℕ} 1514 7) refl (omega arith)

-- A frame of two buffers.
abbrev arrival : Turn
arrival = record {
  read = got (1 ∷ 2 ∷ 3 ∷ []);
  eth_buf = buffer;
  pbuf_alloc = λ n. some ((0 ∷ 0 ∷ []) ∷ (0 ∷ []) ∷ []);
  accepts = true;
}

abbrev device_gone : Turn
device_gone = record {
  read = failed;
  eth_buf = buffer;
  pbuf_alloc = λ n. some (replicate n 0 ∷ []);
  accepts = true;
}

low_level_input_failed_example : low_level_input device_gone ≡ none
low_level_input_failed_example =
    low_level_input_failed device_gone (replicate 65535 0 ∷ []) refl
      (length-replicate {A = ℕ} 1514 7) refl
      (omega
        (arith, length-replicate {A = ℕ} 65535 0, length-append {A = ℕ} (replicate 65535 0) []))

abbrev types : EthTypes
types = record {
  ip = 2048;
  ipv6 = 34525;
  arp = 2054;
  pppoe_support = false;
  pppoedisc = 34915;
  pppoe = 34916;
}

-- A frame with the given type, which lwIP takes or does not.
abbrev turn : ℕ → Bool → Turn
turn low ok = record {
  read = got (replicate 12 0 ++ 8 ∷ low ∷ []);
  eth_buf = replicate 14 0;
  pbuf_alloc = λ n. some (replicate 14 0 ∷ []);
  accepts = ok;
}

abbrev quiet : Turn
quiet = record { read = again; eth_buf = []; pbuf_alloc = λ n. none; accepts = true }

abbrev turns : List Turn
turns = turn 0 true ∷ turn 6 false ∷ turn 9 true ∷ quiet ∷ turn 0 true ∷ []

-- Opens all that a round of the thread calls.
poll : EthTypes → List Turn → Option (List Event)
unfolding tap_thread tap_if_input low_level_input fill copy_in eth_type dispatch is_known
poll = tap_thread

abbrev events : Option (List Event) → List Event
events none = []
events (some ev) = ev

made-events : made (events (tap_thread types turns)) ≡ 3
unfolding poll
made-events = refl

tap_thread_balanced_example :
    made (events (tap_thread types turns)) ≡ settled (events (tap_thread types turns))
unfolding poll
tap_thread_balanced_example = tap_thread_balanced types turns refl

-- A poll that finds no frame.
abbrev nothing : Turn
nothing = record arrival { read = again }

nothing-Gives : Gives nothing
nothing-Gives n e = cc

-- The thread takes the semaphore, finds nothing and waits; then a frame comes in.
abbrev polled : Poll
polled = record { queue = []; pending = false; sema = 0; waiting = true }

abbrev alarmed : Poll
alarmed = record { queue = (1 ∷ []) ∷ []; pending = true; sema = 0; waiting = true }

abbrev woken : Poll
woken = record { queue = []; pending = false; sema = 0; waiting = false }

alarmed-Reaches : (e : EthTypes) → Reaches e Gives (initial []) alarmed
unfolding tap_if_input
alarmed-Reaches e =
    onward polled alarmed
      (onward woken polled (onward (initial []) woken start (wakes 0 (initial []) refl refl))
        (polls nothing false [] [] woken refl nothing-Gives empty refl))
      (arrives (1 ∷ []) polled)

tap_thread_wakes_example : (alarmed.pending ≡ true) ⊎ (0 < alarmed.sema)
tap_thread_wakes_example =
    tap_thread_wakes types (initial []) alarmed (omega arith) (alarmed-Reaches types) refl (λ e. cc)

-- No buffers are left.
abbrev no_buffers : Turn
no_buffers = record arrival { pbuf_alloc = λ n. none }

tap_thread_stalls_example :
    (p : Poll) × Reaches types (λ _. Unit) (initial ((1 ∷ 2 ∷ 3 ∷ []) ∷ (4 ∷ []) ∷ [])) p
    × (p.waiting ≡ true)
    × (p.queue ≡ (4 ∷ []) ∷ [])
    × (p.pending ≡ false)
    × (p.sema ≡ 0)
tap_thread_stalls_example =
    tap_thread_stalls types no_buffers (1 ∷ 2 ∷ 3 ∷ []) (4 ∷ []) [] refl
      (omega (arith, length-replicate {A = ℕ} 1514 7)) refl
