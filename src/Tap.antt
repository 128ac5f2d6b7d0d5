-- ===== src/Tap.antt =====
-- The tap interface driver, netif/tapif.c, with ETH_PAD_SIZE 0: sending and receiving frames. The
-- answers of the system and of lwIP are arguments, and the calls are events, in order.
pub mod Frames
pub mod Owned
pub mod Handed
pub mod Dispatched
pub mod Init
pub mod Padded
pub mod Wakeup
mod Tests
mod PaddedTests
use picoos_lwip.Prelude.{
  ℕ, ◌+◌, ◌*◌, ◌-◌, ◌%◌, ◌^◌, Bool, true, false, ◌&&◌, ◌||◌, Option, none, some, List, [], ◌∷◌,
  ◌++◌, ◌==◌, if◌then◌else◌, get_elem?, length, ◌>>=◌,
}
use picoos_lwip.Prelude.Bytes.{Bytes, load_bytes, store_bytes}

-- `sizeof(ethBuf)`
abbrev pub eth_buf_size : ℕ
eth_buf_size = 1514

-- A chain of buffers: the bytes of each, and `tot_len` of the first.
pub record Pbuf : Type 0 where
  pub payloads : List Bytes
  pub tot_len : ℕ

pub data LinkErr : Type 0 where
  link_ok err_if : LinkErr

-- `netif_input` has the packet, and whether `netif->input` returned ERR_OK.
pub data Event : Type 0 where
  tap_write : Bytes → Event
  link_xmit link_recv link_memerr link_drop alloc_pbuf : Event
  netif_input : List Bytes → Bool → Event
  free_pbuf : List Bytes → Event

-- The loop of lowLevelOutput: `at` is `bufPtr`.
unfoldable pub copy_out : List Bytes → ℕ → Bytes → Option Bytes
copy_out [] at b = some b
copy_out (q ∷ qs) at b = do b' ← store_bytes at q b; copy_out qs (at + length q) b'

-- `eth_buf` is what the frame buffer holds at the start; `written` is false if write returned -1.
unfoldable pub low_level_output : Pbuf → Bytes → Bool → Option (LinkErr × List Event)
unfolding copy_out
low_level_output p eth_buf written = do
  b ← copy_out p.payloads 0 eth_buf
  out ← load_bytes 0 p.tot_len b
  some (if written then (link_ok, tap_write out ∷ link_xmit ∷ []) else (err_if, tap_write out ∷ []))

-- What `read` did: a frame, -1 with EAGAIN, or -1 with another error.
pub data ReadResult : Type 0 where
  got : Bytes → ReadResult
  again failed : ReadResult

-- The outside's answers during one call of tapIfInput. What pbuf_alloc returns for a length is the
-- lengths of the buffers, with any content.
pub record Turn : Type 0 where
  pub read : ReadResult
  pub eth_buf : Bytes
  pub pbuf_alloc : ℕ → Option (List Bytes)
  pub accepts : Bool

-- The loop of lowLevelInput: the bytes that each buffer gets.
unfoldable pub copy_in : List Bytes → ℕ → Bytes → Option (List Bytes)
copy_in [] at b = some []
copy_in (q ∷ qs) at b = do
  r ← load_bytes at (length q) b
  rs ← copy_in qs (at + length q) b
  some (r ∷ rs)

-- lowLevelInput from pbuf_alloc on, whose length is a u16_t.
unfoldable pub fill : ℕ → Bytes → Turn → Option (Option (List Bytes) × List Event)
unfolding copy_in
fill len b t = elim (t.pbuf_alloc (len % 2 ^ 16)) [
  | none ↦ some (none, link_memerr ∷ link_drop ∷ [])
  | some qs ↦ (do p ← copy_in qs 0 b; some (some p, alloc_pbuf ∷ link_recv ∷ []))
]

-- The length -1 of an error other than EAGAIN goes on as a length.
unfoldable pub low_level_input : Turn → Option (Option (List Bytes) × List Event)
unfolding fill
low_level_input t = elim t.read [
  | got frame ↦ (do b ← store_bytes 0 frame t.eth_buf; fill (length frame) b t)
  | again ↦ some (none, [])
  | failed ↦ fill (2 ^ 16 - 1) t.eth_buf t
]

-- ETHTYPE_IP and the other types of lwIP, and PPPOE_SUPPORT.
pub record EthTypes : Type 0 where
  pub ip : ℕ
  pub ipv6 : ℕ
  pub arp : ℕ
  pub pppoe_support : Bool
  pub pppoedisc : ℕ
  pub pppoe : ℕ

-- `htons(ethhdr->type)`: the fields at 12 and 13 of the first buffer.
unfoldable pub eth_type : List Bytes → Option ℕ
eth_type [] = none
eth_type (q ∷ qs) = do hi ← get_elem? q 12; lo ← get_elem? q 13; some (hi * 256 + lo)

module _ (e : EthTypes) where
  -- The cases of the `switch`.
  unfoldable pub is_known : ℕ → Bool
  is_known ty =
      (ty == e.ip)
      || (ty == e.ipv6)
      || (ty == e.arp)
      || e.pppoe_support && ((ty == e.pppoedisc) || (ty == e.pppoe))

  unfoldable pub dispatch : Bool → List Bytes → ℕ → List Event
  unfolding is_known
  dispatch accepts p ty =
      if is_known ty
      then netif_input p accepts ∷ (if accepts then [] else free_pbuf p ∷ [])
      else free_pbuf p ∷ []

  unfoldable pub tap_if_input : Turn → Option (Bool × List Event)
  unfolding low_level_input eth_type dispatch
  tap_if_input t = do
    (r, ev) ← low_level_input t
    elim r [
      | none ↦ some (false, ev)
      | some p ↦ (do ty ← eth_type p; some (true, ev ++ dispatch t.accepts p ty))
    ]

  -- One round of tapThread after its wait: `while (tapIfInput(netif));`, over the answers to come.
  unfoldable pub tap_thread : List Turn → Option (List Event)
  unfolding tap_if_input
  tap_thread [] = some []
  tap_thread (t ∷ ts) = do
    (more, ev) ← tap_if_input t
    evs ← elim more [ true ↦ tap_thread ts | false ↦ some [] ]
    some (ev ++ evs)
