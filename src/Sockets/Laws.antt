-- ===== src/Sockets/Laws.antt =====
-- Slots and lwIP sockets: socket, accept and sockClose of sockets.c, and closesocket of
-- include/picoos-lwip.h.
use picoos_lwip.Prelude.{Option, ◌>>=◌, ℕ, ◌≡◌, refl, sym, ◌∙◌, ap, none, some}
use picoos_lwip.Sockets.Env.{Uos, IsUos, File, sock_fs, sock_conf}
use picoos_lwip.Sockets.{accept, socket_of, net_lwip_fd, finish, socket, sock_close, closesocket}

-- The file that `socket` and `accept` write.
abbrev pub socket_file : ℕ → File
socket_file sock = record { fs = sock_fs; cf = sock_conf; fs_priv_fd = sock }

module _ (u : Uos) (lu : IsUos u) where
  open u use {State}

  net_lwip_fd-none : (n : ℕ) (s : State) → u.slot2file n s ≡ none → net_lwip_fd u n s ≡ some none
  unfolding net_lwip_fd
  net_lwip_fd-none n s h = rw (net_lwip_fd, h)

  net_lwip_fd-some :
      (n f sock : ℕ) (s : State)
      → u.slot2file n s ≡ some f
      → u.read_file f s ≡ socket_file sock
      → net_lwip_fd u n s ≡ some (some sock)
  unfolding net_lwip_fd socket_of
  net_lwip_fd-some n f sock s h r = rw (net_lwip_fd, h, r)

  finish_slot :
      (f sock : ℕ) (s : State)
      → u.slot2file (u.file2slot f) s ≡ some f
      → net_lwip_fd u (u.file2slot f) (u.write_file f (socket_file sock) s) ≡ some (some sock)
  finish_slot f sock s here =
      net_lwip_fd-some (u.file2slot f) f sock (u.write_file f (socket_file sock) s)
        (lu.slot-write (u.file2slot f) f (socket_file sock) s ∙ here)
        (lu.read-write f (socket_file sock) s)

  -- `socket` has a file and a socket of lwIP: the slot it returns stands for that socket.
  pub net_lwip_fd-socket :
      (d t p f sock : ℕ) (s s1 s2 : State)
      → u.file_alloc s ≡ some (f, s1)
      → u.lwip_socket d t p s1 ≡ (some sock, s2)
      → ((socket u d t p s).0 ≡ some (u.file2slot f))
        × (net_lwip_fd u (u.file2slot f) (socket u d t p s).1 ≡ some (some sock))
  unfolding socket finish
  net_lwip_fd-socket d t p f sock s s1 s2 a l =
      rw (socket, a, l)
        (
          refl,
          finish_slot f sock s2 (
              rw (sym (ap (λ x. x.1) l), lu.slot-socket (u.file2slot f) d t p s1)
                (lu.slot_of_alloc f s s1 a)),
        )

  -- `socket` has a file and lwIP refuses the socket: the result is -1 and the file is freed, so that
  -- its slot stands for nothing.
  pub net_lwip_fd-socket_refused :
      (d t p f : ℕ) (s s1 s2 : State)
      → u.file_alloc s ≡ some (f, s1)
      → u.lwip_socket d t p s1 ≡ (none, s2)
      → ((socket u d t p s).0 ≡ none)
        × (net_lwip_fd u (u.file2slot f) (socket u d t p s).1 ≡ some none)
  unfolding socket finish
  net_lwip_fd-socket_refused d t p f s s1 s2 a l =
      rw (socket, a, l)
        (refl, net_lwip_fd-none (u.file2slot f) (u.file_free f s2) (lu.slot-free f s2))

  -- Closing a socket's file with `sockClose` passes the assertion and frees the slot. `closesocket`
  -- on its slot closes the same lwIP socket, and the slot goes on standing for the closed socket.
  pub net_lwip_fd-sock_close :
      (f sock : ℕ) (s : State)
      → u.slot2file (u.file2slot f) s ≡ some f
      → u.read_file f s ≡ socket_file sock
      → (s1 : State) × (s2 : State) × (sock_close u f s ≡ some s1)
        × (net_lwip_fd u (u.file2slot f) s1 ≡ some none)
        × (closesocket u (u.file2slot f) s ≡ some s2)
        × (net_lwip_fd u (u.file2slot f) s2 ≡ some (some sock))
  unfolding sock_close closesocket socket_of
  net_lwip_fd-sock_close f sock s h r =
      let closed : State = u.lwip_close (some sock) s in
      (
        u.file_free f closed,
        closed,
        rw (sock_close, r),
        net_lwip_fd-none (u.file2slot f) (u.file_free f closed) (lu.slot-free f closed),
        rw (closesocket, net_lwip_fd-some (u.file2slot f) f sock s h r),
        net_lwip_fd-some (u.file2slot f) f sock closed
            (lu.slot-close (u.file2slot f) (some sock) s ∙ h) (lu.read-close f (some sock) s ∙ r),
      )

  -- `accept` on a slot that stands for the lwIP socket `fd`, or for none, has a file and lwIP
  -- accepts a connection: the slot it returns stands for the connection's socket.
  pub net_lwip_fd-accept :
      (n f sock : ℕ) (fd : Option ℕ) (s s1 s2 : State)
      → u.file_alloc s ≡ some (f, s1)
      → net_lwip_fd u n s1 ≡ some fd
      → u.lwip_accept fd s1 ≡ (some sock, s2)
      → (s' : State) × (accept u n s ≡ some (some (u.file2slot f), s'))
        × (net_lwip_fd u (u.file2slot f) s' ≡ some (some sock))
  unfolding accept finish
  net_lwip_fd-accept n f sock fd s s1 s2 a l c =
      let here : u.slot2file (u.file2slot f) s2 ≡ some f =
        rw (sym (ap (λ x. x.1) c), lu.slot-accept (u.file2slot f) fd s1)
          (lu.slot_of_alloc f s s1 a) in
      (
        u.write_file f (socket_file sock) s2,
        rw (accept, a, l, ◌>>=◌, c),
        finish_slot f sock s2 here,
      )
