-- ===== src/Sockets/Tests.antt =====
-- A file layer with one slot, an lwIP that makes socket 42, and the theorems on sockets.c at them.
use picoos_lwip.Prelude.{
  arith, ℕ, ◌≡◌, ◌≢◌, ◌∙◌, sym, ap, Option, List, Bool-cases, inl, inr, some-injective, ◌∷◌, refl,
  Bool, true, false, none, some, [], ◌==◌, if◌then◌else◌,
}
use picoos_lwip.Sockets.Env.{Uos, IsUos, Net, File, sock_fs, null_fs, sock_conf, other_conf}
use picoos_lwip.Sockets.{socket_of, net_lwip_fd, sock_close, closesocket}
use picoos_lwip.Sockets.Calls.{LwipCalls, send, bind}
use picoos_lwip.Sockets.Slots.{
  Call, socket_call, accept_call, close_call, serve, serve_all, Served, ServedAll,
}
use picoos_lwip.Sockets.Slots.Refine.{serve_all-ServedAll, serve_total}
use picoos_lwip.Sockets.Laws.{net_lwip_fd-sock_close}

-- What every file number holds, whether its slot is in use, and the lwIP sockets that were closed.
record World : Type 0 where
  file : ℕ → File
  in_use : ℕ → Bool
  shut : List (Option ℕ)

abbrev no_file : File
no_file = record { fs = null_fs; cf = other_conf 0; fs_priv_fd = 0 }

abbrev files : Uos
files = record {
  State = World;
  file_alloc = λ s.
      if s.in_use 0
      then none
      else some (0, record s { in_use = λ n. if n == 0 then true else s.in_use n });
  file_free = λ f s. record s { in_use = λ n. if n == f then false else s.in_use n };
  slot2file = λ n s. if s.in_use n then some n else none;
  file2slot = λ f. f;
  read_file = λ f s. s.file f;
  write_file = λ f x s. record s { file = λ g. if g == f then x else s.file g };
  lwip_socket = λ d t p s. (if d == 2 then some 42 else none, s);
  lwip_accept = λ fd s. (fd, s);
  lwip_close = λ fd s. record s { shut = fd ∷ s.shut };
  lwip_read = λ fd n s. (some [], s);
  lwip_write = λ fd b s. (some 0, s);
}

eq-same : (n : ℕ) → (n == n) ≡ true
eq-same n = ground arith

alloc_slot :
    (f : ℕ) (s s' : World) → files.file_alloc s ≡ some (f, s') → files.slot2file f s' ≡ some f
alloc_slot f s s' e = ground arith

slot_in_use : (n f : ℕ) (s : World) → files.slot2file n s ≡ some f → f ≡ n
slot_in_use n f s e = ground arith

alloc_free : (f : ℕ) (s s' : World) → files.file_alloc s ≡ some (f, s') → files.slot2file f s ≡ none
alloc_free f s s' e = ground arith

alloc_others :
    (n f : ℕ) (s s' : World)
    → files.file_alloc s ≡ some (f, s')
    → n ≢ f
    → files.slot2file n s' ≡ files.slot2file n s
alloc_others n f s s' e other = elim (Bool-cases (s.in_use 0)) [
  | inl used ↦ let z : none ≡ some (f, s') = rw used at e in cc
  | inr unused_0 ↦
      let pair = some-injective (rw unused_0 at e) in
      let at_zero : 0 ≡ f = ap (λ (x : ℕ × World). x.0) pair in
      let kept : (if n == 0 then true else s.in_use n) ≡ s'.in_use n =
        ap (λ (x : ℕ × World). x.1.in_use n) pair in
      let no : (n == 0) ≡ false = ground arith in
      let same : s'.in_use n ≡ s.in_use n = sym kept ∙ rw no in
      ap (λ (v : Bool). if v then some n else none) same
]

alloc_keeps : (g f : ℕ) (s s' : World) → files.file_alloc s ≡ some (f, s') → s'.file g ≡ s.file g
alloc_keeps g f s s' e = ground arith

alloc_shut : (f : ℕ) (s s' : World) → files.file_alloc s ≡ some (f, s') → s'.shut ≡ s.shut
alloc_shut f s s' e = ground arith

free_others :
    (n f : ℕ) (s : World) → n ≢ f → files.slot2file n (files.file_free f s) ≡ files.slot2file n s
free_others n f s other = ground arith

write_keeps : (g f : ℕ) (x : File) (s : World) → g ≢ f → (files.write_file f x s).file g ≡ s.file g
write_keeps g f x s other = ground arith

files-IsUos : IsUos files
files-IsUos = record {
  slot_of_alloc = alloc_slot;
  slot-free = λ f s. rw (eq-same f);
  slot-write = λ n f x s. refl;
  read-write = λ f x s. rw (eq-same f);
  slot-socket = λ n d t p s. refl;
  slot-accept = λ n fd s. refl;
  slot-close = λ n fd s. refl;
  read-close = λ f fd s. refl;
  slot-file = slot_in_use;
  alloc_free = alloc_free;
  alloc_others = alloc_others;
  alloc_keeps = λ g f s s' e other. alloc_keeps g f s s' e;
  free_others = free_others;
  free_keeps = λ g f s other. refl;
  write_keeps = write_keeps;
  read-socket = λ f d t p s. refl;
  read-accept = λ f fd s. refl;
}

files-Net : Net files
files-Net = record {
  Lwip = List (Option ℕ);
  lwip = λ s. s.shut;
  socket = λ d t p l. (if d == 2 then some 42 else none, l);
  accept = λ fd l. (fd, l);
  close = λ fd l. fd ∷ l;
  socket_answer = λ d t p s. refl;
  socket_state = λ d t p s. refl;
  accept_answer = λ fd s. refl;
  accept_state = λ fd s. refl;
  close_state = λ fd s. refl;
  lwip-alloc = alloc_shut;
  lwip-free = λ f s. refl;
  lwip-write = λ f x s. refl;
}

abbrev unused : World
unused = record { file = λ n. no_file; in_use = λ n. false; shut = [] }

abbrev allocated : World
allocated = record unused { in_use = λ n. if n == 0 then true else false }

abbrev open_socket : World
open_socket =
    files.write_file 0 (record { fs = sock_fs; cf = sock_conf; fs_priv_fd = 42 }) allocated

net_lwip_fd-sock_close_example :
    (s1 : World) × (s2 : World) × (sock_close files 0 open_socket ≡ some s1)
    × (net_lwip_fd files 0 s1 ≡ some none)
    × (closesocket files 0 open_socket ≡ some s2)
    × (net_lwip_fd files 0 s2 ≡ some (some 42))
net_lwip_fd-sock_close_example = net_lwip_fd-sock_close files files-IsUos 0 42 open_socket refl refl

-- The only slot is free, and the listening slot 5 stands for socket 42.
abbrev listening : World
listening = record {
  file = λ f. record { fs = sock_fs; cf = sock_conf; fs_priv_fd = 42 };
  in_use = λ n. n == 5;
  shut = [];
}

abbrev listening_allocated : World
listening_allocated = record listening { in_use = λ n. if n == 0 then true else n == 5 }

-- Two sockets are made, the second of which finds no file, and the first is closed.
abbrev session : List Call
session = socket_call 2 1 0 ∷ socket_call 2 1 0 ∷ close_call 0 ∷ []

abbrev session_end : World
session_end = record (files.file_free 0 open_socket) { shut = some 42 ∷ [] }

serve_all-ServedAll_example :
    ServedAll files files-Net session (some 0 ∷ none ∷ some 0 ∷ []) unused session_end
unfolding serve_all socket_of
serve_all-ServedAll_example =
    serve_all-ServedAll files files-IsUos files-Net session unused (some 0 ∷ none ∷ some 0 ∷ [])
      session_end refl

serve_total_example :
    (r : Option ℕ) × (s' : World) × (serve files (accept_call 5) listening ≡ some (r, s'))
    × Served files files-Net (accept_call 5) r listening s'
unfolding socket_of
serve_total_example = serve_total files files-IsUos files-Net (accept_call 5) listening (42, refl)

-- The macros on a slot go to lwIP with its socket.
abbrev echo_calls : LwipCalls World
echo_calls = record {
  lwip_bind = λ fd a b s. (fd, s);
  lwip_shutdown = λ fd a s. (fd, s);
  lwip_getpeername = λ fd a b s. (fd, s);
  lwip_getsockname = λ fd a b s. (fd, s);
  lwip_setsockopt = λ fd a b c d s. (fd, s);
  lwip_connect = λ fd a b s. (fd, s);
  lwip_listen = λ fd a s. (fd, s);
  lwip_recv = λ fd a b c s. (fd, s);
  lwip_recvfrom = λ fd a b c d e s. (fd, s);
  lwip_send = λ fd a b c s. (some b, s);
  lwip_sendmsg = λ fd a b s. (fd, s);
  lwip_sendto = λ fd a b c d e s. (some b, s);
  lwip_writev = λ fd a b s. (fd, s);
}

send_all : send files echo_calls 5 0 100 0 listening ≡ some (some 100, listening)
unfolding send net_lwip_fd
send_all = refl

bind_closed : bind files echo_calls 3 0 16 listening ≡ some (none, listening)
unfolding bind net_lwip_fd
bind_closed = refl
