-- ===== src/Cs8900a/Poll.antt =====
-- Polling of netif/cs8900a_lpc_e2129.c: cs8900aIfInput and a round of cs8900aThread. The answers of
-- lwIP are arguments.
pub mod Owned
pub mod Handed
pub mod Alike
pub mod Drained
pub mod Rounds
use picoos_lwip.Prelude.{ℕ, Bool, true, false, Option, none, some, List, [], ◌∷◌, ◌++◌, map, ◌>>=◌}
use picoos_lwip.Prelude.Bytes.{Bytes}
use picoos_lwip.Tap.{Event, EthTypes, eth_type, dispatch}
use picoos_lwip.Cs8900a.Board.{Gpio}
use picoos_lwip.Cs8900a.Transmit.{Buffer, payload}
use picoos_lwip.Cs8900a.Receive.{low_level_input}

-- lwIP's answers during one call of cs8900aIfInput: the buffers for a length, and whether
-- `netif->input` returns ERR_OK.
pub record Answers : Type 0 where
  pub pbuf_alloc : ℕ → Option (List Buffer)
  pub accepts : Bool

-- The memory that `p->payload` points to.
abbrev pub memories : List Buffer → List Bytes
memories p = map (λ (q : Buffer). q.mem) p

abbrev pub contents : List Buffer → List Bytes
contents p = map payload p

module _ (types : EthTypes) (g : Gpio) where
  open g use {State}

  unfoldable pub cs8900a_if_input : Answers → State → Option (Bool × List Event × State)
  unfolding low_level_input eth_type dispatch
  cs8900a_if_input t s = do
    (r, ev, s') ← low_level_input g t.pbuf_alloc s
    elim r [
      | none ↦ some (false, ev, s')
      | some p ↦ (do
        ty ← eth_type (memories p)
        some (true, ev ++ dispatch types t.accepts (contents p) ty, s'))
    ]

  -- `while (cs8900aIfInput(netif));`, over the answers to come.
  unfoldable pub cs8900a_thread : List Answers → State → Option (List Event × State)
  unfolding cs8900a_if_input
  cs8900a_thread [] s = some ([], s)
  cs8900a_thread (t ∷ ts) s = do
    (more, ev, s1) ← cs8900a_if_input t s
    (evs, s2) ← elim more [ true ↦ cs8900a_thread ts s1 | false ↦ some ([], s1) ]
    some (ev ++ evs, s2)
