-- ===== src/Sockets.antt =====
-- Sockets as files of Pico]OS micro: sockets.c, and closesocket of include/picoos-lwip.h, whose other
-- macros are in Calls.
pub mod Env
pub mod Laws
pub mod Slots
pub mod Calls
mod Tests
use picoos_lwip.Prelude.{ℕ, Bool, true, false, Option, none, some, ◌>>=◌, List, [], ◌∷◌}
use picoos_lwip.Prelude.Bytes.{Bytes}
use Env.{
  Uos, File, FsRef, null_fs, sock_fs, other_fs, FileConf, sock_conf, FileSystem, sock_fs_conf,
}

-- `P_ASSERT(file->fs->cf == &sockFSConf)`: the socket number of a file, and a stop otherwise.
unfoldable pub socket_of : File → Option ℕ
socket_of f = elim f.fs [ sock_fs ↦ some f.fs_priv_fd | _ ↦ none ]

-- `UosFileInfo` as sockFStat fills it.
pub record FileInfo : Type 0 where
  pub is_dir : Bool
  pub is_socket : Bool
  pub size : ℕ

-- "/socket"
abbrev socket_dir : Bytes
socket_dir = 47 ∷ 115 ∷ 111 ∷ 99 ∷ 107 ∷ 101 ∷ 116 ∷ []

-- `uos_mount` is uosMount, with the state of the file layer.
pub net_init : {S : Type 0} → (FileSystem → S → S) → S → S
net_init uos_mount s = uos_mount (record { mount_point = socket_dir; cf = sock_fs_conf }) s

-- The `init` of the file system.
pub sock_init : FileSystem → ℕ
sock_init fs = 0

module _ (u : Uos) where
  open u use {State}

  -- The lwIP socket of a slot, -1 if the slot has no file. The outer `none` is a failed assertion.
  unfoldable pub net_lwip_fd : ℕ → State → Option (Option ℕ)
  unfolding socket_of
  net_lwip_fd n s = elim (u.slot2file n s) [
    | none ↦ some none
    | some f ↦ (do fd ← socket_of (u.read_file f s); some (some fd))
  ]

  -- The end of `socket` and `accept`: the file is freed again, or made a socket.
  unfoldable pub finish : ℕ → Option ℕ × State → Option ℕ × State
  finish f (none, s) = (none, u.file_free f s)
  finish f (some sock, s) = (
    some (u.file2slot f),
    u.write_file f (record { fs = sock_fs; cf = sock_conf; fs_priv_fd = sock }) s,
  )

  unfoldable pub socket : ℕ → ℕ → ℕ → State → Option ℕ × State
  unfolding finish
  socket domain type protocol s = elim (u.file_alloc s) [
    | none ↦ (none, s)
    | some (f, s1) ↦ finish f (u.lwip_socket domain type protocol s1)
  ]

  -- The file is allocated before the slot of the listening socket is looked up.
  unfoldable pub accept : ℕ → State → Option (Option ℕ × State)
  unfolding finish net_lwip_fd
  accept n s = elim (u.file_alloc s) [
    | none ↦ some (none, s)
    | some (f, s1) ↦ (do fd ← net_lwip_fd n s1; some (finish f (u.lwip_accept fd s1)))
  ]

  unfoldable pub sock_close : ℕ → State → Option State
  unfolding socket_of
  sock_close f s = do
    sock ← socket_of (u.read_file f s)
    some (u.file_free f (u.lwip_close (some sock) s))

  pub sock_read : ℕ → ℕ → State → Option (Option Bytes × State)
  unfolding socket_of
  sock_read f max s = do sock ← socket_of (u.read_file f s); some (u.lwip_read sock max s)

  pub sock_write : ℕ → Bytes → State → Option (Option ℕ × State)
  unfolding socket_of
  sock_write f buf s = do sock ← socket_of (u.read_file f s); some (u.lwip_write sock buf s)

  pub sock_fstat : ℕ → State → FileInfo
  sock_fstat f s = record { is_dir = false; is_socket = true; size = 0 }

  -- `lwip_close(netLwIP_FD(s))`
  unfoldable pub closesocket : ℕ → State → Option State
  unfolding net_lwip_fd
  closesocket n s = do fd ← net_lwip_fd n s; some (u.lwip_close fd s)
