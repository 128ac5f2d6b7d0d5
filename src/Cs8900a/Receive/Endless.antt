-- ===== src/Cs8900a/Receive/Endless.antt =====
-- The loop of lowLevelInput of netif/cs8900a_lpc_e2129.c at a buffer of 65535 bytes.
use picoos_lwip.Prelude.{ℕ, [], ◌∷◌}
use picoos_lwip.Prelude.Bytes.{Bytes, splice}
use picoos_lwip.Cs8900a.Board.{Gpio}
use picoos_lwip.Cs8900a.Access.{cs8900a_read_rx_buf}

module _ (g : Gpio) where
  -- The block after a round.
  abbrev stored : ℕ → Bytes → g.State → Bytes
  stored u mem s = splice u ((cs8900a_read_rx_buf g s).0 ∷ (cs8900a_read_rx_buf g s).1 ∷ []) mem
