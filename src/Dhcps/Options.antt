-- ===== src/Dhcps/Options.antt =====
-- The option bytes of a DHCP message: the functions getOption to addOptionByte of
-- apps/dhcps/dhcps.c, and the loop of handleRequest that looks for the requested address.
pub mod Scan
pub mod Emit
use picoos_lwip.Prelude.{
  ℕ, zero, suc, ◌+◌, ◌*◌, ◌/◌, ◌%◌, Bool, true, false, Option, none, some, List, [], ◌∷◌, ◌==◌,
  if◌then◌else◌, get_elem?, ◌>>=◌, length,
}
use picoos_lwip.Prelude.Bytes.{Bytes, store_bytes}
use picoos_lwip.Dhcps.Types.{Ip4, octets, load_ip, ip_zero}

abbrev pub opt_netmask : ℕ
opt_netmask = 1

abbrev pub opt_req_ip : ℕ
opt_req_ip = 50

abbrev pub opt_lease_time : ℕ
opt_lease_time = 51

abbrev pub opt_msgtype : ℕ
opt_msgtype = 53

abbrev pub opt_serverid : ℕ
opt_serverid = 54

abbrev pub opt_renew_time : ℕ
opt_renew_time = 58

abbrev pub opt_rebind_time : ℕ
opt_rebind_time = 59

abbrev pub opt_end : ℕ
opt_end = 255

-- An option pointer: an offset into a buffer. A read outside the buffer is a fault.
pub get_option : Bytes → ℕ → Option ℕ
get_option p at = get_elem? p at

pub get_option_len : Bytes → ℕ → Option ℕ
get_option_len p at = get_elem? p (at + 1)

pub get_option_data : ℕ → ℕ
get_option_data at = at + 2

pub next_option : Bytes → ℕ → Option ℕ
unfolding get_option_len
next_option p at = do len ← get_option_len p at; some (at + len + 2)

-- How the loop over the request's options ends.
pub data ScanResult : Type 0 where
  found : Ip4 → ScanResult
  overrun exhausted : ScanResult

abbrev or_overrun : {A : Type 0} → Option A → (A → ScanResult) → ScanResult
or_overrun none k = overrun
or_overrun (some a) k = k a

-- The body of the `switch`: the address seen so far, after the option at `at`.
unfoldable pub note_option : Bytes → ℕ → ℕ → ℕ → Ip4 → Option Ip4
unfolding get_option_data
note_option p at code len req =
    if code == opt_req_ip
    then if len == 4 then load_ip (get_option_data at) p else some req
    else some req

-- The loop, on fuel; `overrun` is a read outside the message.
unfoldable pub scan_options : ℕ → Bytes → ℕ → Ip4 → ScanResult
unfolding get_option get_option_len next_option
scan_options zero p at req = exhausted
scan_options (suc fuel) p at req = or_overrun (get_option p at) λ code. elim (code == opt_end) [
  | true ↦ found req
  | false ↦ or_overrun (get_option_len p at) λ len.
      or_overrun (note_option p at code len req)
        λ req'. or_overrun (next_option p at) λ at'. scan_options fuel p at' req'
]

-- The address that the request asks for: the loop from its start. Every round passes two bytes or
-- more, so the length of the message is fuel enough.
unfoldable pub scan_request : Bytes → ℕ → ScanResult
unfolding scan_options
scan_request p options = scan_options (suc (length p)) p options ip_zero

-- A buffer with the pointer at which the next option is written.
pub record Cursor : Type 0 where
  pub bytes : Bytes
  pub at : ℕ

-- `*optPtr++ = v`, with the conversion to `uint8_t`
unfoldable pub put : ℕ → Cursor → Option Cursor
put v c = do b ← store_bytes c.at (v % 256 ∷ []) c.bytes; some (record { bytes = b; at = c.at + 1 })

-- `t` is a `uint32_t`
unfoldable pub add_option_time : ℕ → ℕ → Cursor → Option Cursor
add_option_time opt t c0 = do
  c1 ← put opt c0
  c2 ← put 4 c1
  c3 ← put (t / (256 * 256 * 256)) c2
  let t1 = t % (256 * 256 * 256)
  c4 ← put (t1 / (256 * 256)) c3
  let t2 = t1 % (256 * 256)
  c5 ← put (t2 / 256) c4
  let t3 = t2 % 256
  put t3 c5

unfoldable pub add_option_ip : ℕ → Ip4 → Cursor → Option Cursor
add_option_ip opt ip c0 = do
  c1 ← put opt c0
  c2 ← put 4 c1
  b ← store_bytes c2.at (octets ip) c2.bytes
  some (record { bytes = b; at = c2.at + 4 })

unfoldable pub add_option_byte : ℕ → ℕ → Cursor → Option Cursor
add_option_byte opt val c0 = do c1 ← put opt c0; c2 ← put 1 c1; put val c2
