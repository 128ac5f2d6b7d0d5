-- ===== src/Tap/Init.antt =====
-- Starting the tap interface: lowLevelInit and tapIfInit of netif/tapif.c, without LWIP_IPV6 and
-- LWIP_NETIF_HOSTNAME.
use picoos_lwip.Prelude.{
  ℕ, ◌≤◌, ◌<◌, ◌≡◌, ap, ◌∙◌, Option, none, some, List, [], ◌∷◌, ◌++◌, arith, ◌>>=◌, length,
  length-append, append_assoc, drop,
}
use picoos_lwip.Prelude.Bytes.{
  Bytes, store_bytes, store_bytes-eq, splice, splice-append, length-splice,
}

-- The octets of an address, as ip4_addr1 to ip4_addr4 give them.
pub record Octets : Type 0 where
  pub o1 : ℕ
  pub o2 : ℕ
  pub o3 : ℕ
  pub o4 : ℕ

abbrev pub IsOctets : Octets → Type 0
IsOctets a = (a.o1 < 256) × (a.o2 < 256) × (a.o3 < 256) × (a.o4 < 256)

pub data InitErr : Type 0 where
  init_ok init_mem : InitErr

-- The assignments and calls, in order.
pub data Step : Type 0 where
  set_state set_tap : ℕ → Step
  set_name set_hwaddr : Bytes → Step
  set_output set_linkoutput : Step
  set_mtu set_flags : ℕ → Step
  system_call : Bytes → Step
  on_sigio : Step
  set_owner set_async : ℕ → Step
  sema_create : ℕ → Step
  task_create : ℕ → ℕ → Step
  set_poll_sema : Step

-- `sprintf` of `%d`.
module _ (print_d : ℕ → Bytes) where
  abbrev pub dotted : Octets → Bytes
  dotted a = print_d a.o1 ++ 46 ∷ (print_d a.o2 ++ 46 ∷ (print_d a.o3 ++ 46 ∷ print_d a.o4))

  -- "ifconfig tap0 %d.%d.%d.%d "
  abbrev pub gw_text : Octets → Bytes
  gw_text gw =
      105
      ∷ 102
      ∷ 99
      ∷ 111
      ∷ 110
      ∷ 102
      ∷ 105
      ∷ 103
      ∷ 32
      ∷ 116
      ∷ 97
      ∷ 112
      ∷ 48
      ∷ 32
      ∷ (dotted gw ++ 32 ∷ [])

  -- "netmask %d.%d.%d.%d up"
  abbrev pub netmask_text : Octets → Bytes
  netmask_text mask =
      110 ∷ 101 ∷ 116 ∷ 109 ∷ 97 ∷ 115 ∷ 107 ∷ 32 ∷ (dotted mask ++ 32 ∷ 117 ∷ 112 ∷ [])

  -- The two calls of sprintf, which end their text with a zero; `buf` is what `ifconfig` held.
  unfoldable pub format_ifconfig : Octets → Octets → Bytes → Option Bytes
  format_ifconfig gw mask buf = do
    b ← store_bytes 0 (gw_text gw ++ 0 ∷ []) buf
    store_bytes (length (gw_text gw)) (netmask_text mask ++ 0 ∷ []) b

  -- `flags` is NETIF_FLAG_BROADCAST and the two others; `opened` is what open returned.
  unfoldable pub low_level_init : ℕ → Option ℕ → Octets → Octets → Bytes → Option (List Step)
  low_level_init flags opened gw mask buf = do
    tap ← opened
    command ← format_ifconfig gw mask buf
    some (
        set_hwaddr (0 ∷ 189 ∷ 3 ∷ 4 ∷ 5 ∷ 6 ∷ [])
        ∷ set_mtu 1500
        ∷ set_flags flags
        ∷ set_tap tap
        ∷ system_call command
        ∷ on_sigio
        ∷ set_owner tap
        ∷ set_async tap
        ∷ [])

  -- `made` is what mem_malloc returned.
  unfoldable pub tap_if_init :
      Option ℕ → ℕ → Option ℕ → Octets → Octets → Bytes → Option (InitErr × List Step)
  unfolding low_level_init
  tap_if_init none flags opened gw mask buf = some (init_mem, [])
  tap_if_init (some m) flags opened gw mask buf = do
    steps ← low_level_init flags opened gw mask buf
    some (
      init_ok,
      set_state m
          ∷ set_name (116 ∷ 97 ∷ [])
          ∷ set_output
          ∷ set_linkoutput
          ∷ (steps ++ sema_create 1 ∷ task_create 10 300 ∷ set_poll_sema ∷ []),
    )

  module _ (short : (n : ℕ) → n < 256 → length (print_d n) ≤ 3) where
    length-dotted : (a : Octets) → IsOctets a → length (dotted a) ≤ 15
    length-dotted a (h1, h2, h3, h4) = omega (
      arith,
      short a.o1 h1,
      short a.o2 h2,
      short a.o3 h3,
      short a.o4 h4,
      length-append {0} (print_d a.o1)
          (46 ∷ (print_d a.o2 ++ 46 ∷ (print_d a.o3 ++ 46 ∷ print_d a.o4))),
      length-append {0} (print_d a.o2) (46 ∷ (print_d a.o3 ++ 46 ∷ print_d a.o4)),
      length-append {0} (print_d a.o3) (46 ∷ print_d a.o4),
    )

    -- For addresses of four octets, and %d printing an octet with three digits at most, the command
    -- fits the 80 bytes of its buffer, and the buffer holds it whole with the zero behind it.
    pub format_ifconfig_lem :
        (gw mask : Octets) (buf : Bytes)
        → IsOctets gw
        → IsOctets mask
        → length buf ≡ 80
        → (rest : Bytes) × (format_ifconfig gw mask buf
            ≡ some (gw_text gw ++ ((netmask_text mask ++ 0 ∷ []) ++ rest)))
    unfolding format_ifconfig
    format_ifconfig_lem gw mask buf hg hm size =
        let g = gw_text gw in
        let n = netmask_text mask ++ 0 ∷ [] in
        let lg = length-append {0} (dotted gw) (32 ∷ []) in
        let lm = length-append {0} (dotted mask) (32 ∷ 117 ∷ 112 ∷ []) in
        let bg = length-dotted gw hg in
        let bm = length-dotted mask hm in
        let lz = length-append {0} g (0 ∷ []) in
        let ln = length-append {0} (netmask_text mask) (0 ∷ []) in
        let r = 0 ∷ drop (length (g ++ 0 ∷ [])) buf in
        (
          drop (length n) r,
          rw
              (
                store_bytes-eq 0 (g ++ 0 ∷ []) buf (omega arith),
                ◌>>=◌,
                store_bytes-eq (length g) n (splice 0 (g ++ 0 ∷ []) buf)
                    (omega (arith, length-splice 0 (g ++ 0 ∷ []) buf (omega arith))),
              )
              (ap some
                (ap (splice (length g) n) (append_assoc g (0 ∷ []) _) ∙ splice-append g n r)),
        )
