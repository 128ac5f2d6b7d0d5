-- ===== src/SysArch/Handles.antt =====
-- Handles of include/arch/sys_arch.h, and LWIP_RAND of include/arch/cc.h. The argument of a macro is
-- a pointer: NULL, or to a variable with a handle, which may be NULL itself.
use picoos_lwip.Prelude.{ℕ, Bool, true, false, Option, none, some}
use picoos_lwip.SysArch.Nano.{Nano}
use picoos_lwip.SysArch.Sync.{sys_random}

abbrev pub Pointer : Type 0
Pointer = Option (Option ℕ)

pub sys_sem_valid : Pointer → Bool
sys_sem_valid (some (some sem)) = true
sys_sem_valid _ = false

-- The pointer's target afterwards.
pub sys_sem_set_invalid : Pointer → Pointer
sys_sem_set_invalid none = none
sys_sem_set_invalid (some _) = some none

pub sys_mutex_valid : Pointer → Bool
sys_mutex_valid (some (some mutex)) = true
sys_mutex_valid _ = false

pub sys_mutex_set_invalid : Pointer → Pointer
sys_mutex_set_invalid none = none
sys_mutex_set_invalid (some _) = some none

unfoldable pub sys_mbox_valid : Pointer → Bool
sys_mbox_valid (some (some mbox)) = true
sys_mbox_valid _ = false

unfoldable pub sys_mbox_set_invalid : Pointer → Pointer
sys_mbox_set_invalid none = none
sys_mbox_set_invalid (some _) = some none

pub lwip_rand : Nano → ℕ → ℕ × ℕ
lwip_rand k seed = sys_random k seed
