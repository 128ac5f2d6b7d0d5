-- ===== src/Padding.antt =====
-- The packets of lwIP as the Ethernet drivers use them where ETH_PAD_SIZE is not 0: `struct pbuf`
-- and pbuf_header.
pub mod SmallPackets
use picoos_lwip.Prelude.{ℕ, ◌-◌, ◌≤◌, ◌≡◌, drop}
use picoos_lwip.Prelude.Bytes.{Bytes}

-- `view` is what a driver reads of a packet's buffers. `hide n p` is `p` after pbuf_header(p, -n),
-- and `reveal n p` after pbuf_header(p, n).
pub record Packets (V : Type 0) : Type 1 where
  pub Packet : Type 0
  pub view : Packet → V
  pub hide : ℕ → Packet → Packet
  pub reveal : ℕ → Packet → Packet

-- The bytes of a chain, those of its first buffer, and `tot_len`.
pub record Measures (V : Type 0) : Type 0 where
  pub bytes : V → Bytes
  pub first_len : V → ℕ
  pub tot_len : V → ℕ

-- pbuf_header as lwIP documents it: it moves the start of the first buffer, which has to have
-- the bytes, and a move back undoes that.
pub record IsPackets {V : Type 0} (lwip : Packets V) (m : Measures V) : Type 0 where
  pub bytes-hide :
      (n : ℕ) (p : lwip.Packet)
      → n ≤ m.first_len (lwip.view p)
      → m.bytes (lwip.view (lwip.hide n p)) ≡ drop n (m.bytes (lwip.view p))
  pub first_len-hide :
      (n : ℕ) (p : lwip.Packet)
      → n ≤ m.first_len (lwip.view p)
      → m.first_len (lwip.view (lwip.hide n p)) ≡ m.first_len (lwip.view p) - n
  pub tot_len-hide :
      (n : ℕ) (p : lwip.Packet)
      → n ≤ m.first_len (lwip.view p)
      → m.tot_len (lwip.view (lwip.hide n p)) ≡ m.tot_len (lwip.view p) - n
  pub reveal-hide :
      (n : ℕ) (p : lwip.Packet) → n ≤ m.first_len (lwip.view p) → lwip.reveal n (lwip.hide n p) ≡ p
