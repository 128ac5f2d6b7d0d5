-- ===== src/Sockets/Env.antt =====
-- What sockets.c uses of the file layer of Pico]OS micro and of lwIP's sockets: an interface with an
-- abstract state. A result -1 is `none`.
use picoos_lwip.Prelude.{ℕ, ◌≡◌, ◌≢◌, Option, none, some}
use picoos_lwip.Prelude.Bytes.{Bytes}

-- The field `fs` of a file: NULL, `sockFS.base`, or another file system.
pub data FsRef : Type 0 where
  null_fs sock_fs : FsRef
  other_fs : ℕ → FsRef

-- The field `cf`: the calls of a socket, or others.
pub data FileConf : Type 0 where
  sock_conf : FileConf
  other_conf : ℕ → FileConf

-- The calls of a file system: those of sockets.
pub data FsConf : Type 0 where
  sock_fs_conf : FsConf

-- The fields of `UosFS` that sockets.c writes.
pub record FileSystem : Type 0 where
  pub mount_point : Bytes
  pub cf : FsConf

-- The fields of `UosFile` that sockets.c writes.
pub record File : Type 0 where
  pub fs : FsRef
  pub cf : FileConf
  pub fs_priv_fd : ℕ

-- A file is known by a pointer, here a number, and by its slot.
pub record Uos : Type 1 where
  pub State : Type 0
  pub file_alloc : State → Option (ℕ × State)
  pub file_free : ℕ → State → State
  pub slot2file : ℕ → State → Option ℕ
  pub file2slot : ℕ → ℕ
  pub read_file : ℕ → State → File
  pub write_file : ℕ → File → State → State
  pub lwip_socket : ℕ → ℕ → ℕ → State → Option ℕ × State
  -- the socket may be -1
  pub lwip_accept : Option ℕ → State → Option ℕ × State
  pub lwip_close : Option ℕ → State → State
  pub lwip_read : ℕ → ℕ → State → Option Bytes × State
  pub lwip_write : ℕ → Bytes → State → Option ℕ × State

-- What sockets.c relies on: an allocated file is found by its slot, which was free, and a freed one
-- is not; each file has a slot of its own; a file keeps what is written to it; a call on one file
-- leaves the others as they are; and lwIP's sockets know nothing of files.
pub record IsUos (u : Uos) : Type 0 where
  pub slot_of_alloc :
      (f : ℕ) (s s' : u.State)
      → u.file_alloc s ≡ some (f, s')
      → u.slot2file (u.file2slot f) s' ≡ some f
  pub slot-free : (f : ℕ) (s : u.State) → u.slot2file (u.file2slot f) (u.file_free f s) ≡ none
  pub slot-write :
      (n f : ℕ) (x : File) (s : u.State) → u.slot2file n (u.write_file f x s) ≡ u.slot2file n s
  pub read-write : (f : ℕ) (x : File) (s : u.State) → u.read_file f (u.write_file f x s) ≡ x
  pub slot-socket :
      (n d t p : ℕ) (s : u.State) → u.slot2file n (u.lwip_socket d t p s).1 ≡ u.slot2file n s
  pub slot-accept :
      (n : ℕ) (fd : Option ℕ) (s : u.State) → u.slot2file n (u.lwip_accept fd s).1 ≡ u.slot2file n s
  pub slot-close :
      (n : ℕ) (fd : Option ℕ) (s : u.State) → u.slot2file n (u.lwip_close fd s) ≡ u.slot2file n s
  pub read-close :
      (f : ℕ) (fd : Option ℕ) (s : u.State) → u.read_file f (u.lwip_close fd s) ≡ u.read_file f s
  pub slot-file : (n f : ℕ) (s : u.State) → u.slot2file n s ≡ some f → u.file2slot f ≡ n
  pub alloc_free :
      (f : ℕ) (s s' : u.State)
      → u.file_alloc s ≡ some (f, s')
      → u.slot2file (u.file2slot f) s ≡ none
  pub alloc_others :
      (n f : ℕ) (s s' : u.State)
      → u.file_alloc s ≡ some (f, s')
      → n ≢ u.file2slot f
      → u.slot2file n s' ≡ u.slot2file n s
  pub alloc_keeps :
      (g f : ℕ) (s s' : u.State)
      → u.file_alloc s ≡ some (f, s')
      → g ≢ f
      → u.read_file g s' ≡ u.read_file g s
  pub free_others :
      (n f : ℕ) (s : u.State)
      → n ≢ u.file2slot f
      → u.slot2file n (u.file_free f s) ≡ u.slot2file n s
  pub free_keeps :
      (g f : ℕ) (s : u.State) → g ≢ f → u.read_file g (u.file_free f s) ≡ u.read_file g s
  pub write_keeps :
      (g f : ℕ) (x : File) (s : u.State)
      → g ≢ f
      → u.read_file g (u.write_file f x s) ≡ u.read_file g s
  pub read-socket :
      (f d t p : ℕ) (s : u.State) → u.read_file f (u.lwip_socket d t p s).1 ≡ u.read_file f s
  pub read-accept :
      (f : ℕ) (fd : Option ℕ) (s : u.State) → u.read_file f (u.lwip_accept fd s).1 ≡ u.read_file f s

-- lwIP's sockets apart from the files: a state of their own, what the calls of lwIP answer and do
-- to it, and that the file layer leaves it as it is.
pub record Net (u : Uos) : Type 1 where
  pub Lwip : Type 0
  pub lwip : u.State → Lwip
  pub socket : ℕ → ℕ → ℕ → Lwip → Option ℕ × Lwip
  pub accept : Option ℕ → Lwip → Option ℕ × Lwip
  pub close : Option ℕ → Lwip → Lwip
  pub socket_answer :
      (d t p : ℕ) (s : u.State) → (u.lwip_socket d t p s).0 ≡ (socket d t p (lwip s)).0
  pub socket_state :
      (d t p : ℕ) (s : u.State) → lwip (u.lwip_socket d t p s).1 ≡ (socket d t p (lwip s)).1
  pub accept_answer :
      (fd : Option ℕ) (s : u.State) → (u.lwip_accept fd s).0 ≡ (accept fd (lwip s)).0
  pub accept_state :
      (fd : Option ℕ) (s : u.State) → lwip (u.lwip_accept fd s).1 ≡ (accept fd (lwip s)).1
  pub close_state : (fd : Option ℕ) (s : u.State) → lwip (u.lwip_close fd s) ≡ close fd (lwip s)
  pub lwip-alloc : (f : ℕ) (s s' : u.State) → u.file_alloc s ≡ some (f, s') → lwip s' ≡ lwip s
  pub lwip-free : (f : ℕ) (s : u.State) → lwip (u.file_free f s) ≡ lwip s
  pub lwip-write : (f : ℕ) (x : File) (s : u.State) → lwip (u.write_file f x s) ≡ lwip s
