-- ===== src/Sockets/Slots/Refine.antt =====
-- socket, accept and sockClose of sockets.c against what they are to do to the table of slots.
use picoos_lwip.Prelude.{
  ℕ, ◌≡◌, ◌≢◌, refl, sym, ◌∙◌, ap, subst, Option, none, some, List, [], ◌∷◌, ◌==◌, ◌>>=◌,
  if◌then◌else◌, Bool-cases, Option-cases, inl, inr, arith, >>=-eq-some, some-injective,
}
use picoos_lwip.Sockets.Env.{Uos, IsUos, Net, File, sock_fs}
use picoos_lwip.Sockets.{socket_of, net_lwip_fd, finish, socket, accept, sock_close}
use picoos_lwip.Sockets.Laws.{socket_file}
use picoos_lwip.Sockets.Slots.{
  Call, socket_call, accept_call, close_call, table, serve, serve_all, Served, made, refused,
  no_file, closed, ServedAll, done, next, Allowed, Answers,
}
use picoos_lwip.Sockets.Slots.Tables.{
  at_slot-Updated, table_kept, alloc_table, free_table, write_table, free_slot, allocated_fd,
}

socket_of-some :
    (f : File) (sock : ℕ) → socket_of f ≡ some sock → (f.fs ≡ sock_fs) × (f.fs_priv_fd ≡ sock)
unfolding socket_of
socket_of-some f sock e = ground arith

module _ (u : Uos) (net : Net u) where
  -- What the file layer does does not touch lwIP's answer.
  Answers_kept :
      (c : Call) (answer : Option ℕ) (s s1 s2 : u.State)
      → net.lwip s2 ≡ net.lwip s1
      → Answers u net c s answer s1
      → Answers u net c s answer s2
  Answers_kept (socket_call d t p) answer s s1 s2 same asked = rw same asked
  Answers_kept (accept_call n) answer s s1 s2 same (fd, of_slot, asked) =
      (fd, of_slot, rw same asked)
  Answers_kept (close_call f) answer s s1 s2 same asked = absurd asked

module _ (u : Uos) (lu : IsUos u) (net : Net u) where
  open u use {State}
  open net use {lwip}

  -- lwIP's answer for a new file: a socket or -1.
  finish-Served :
      (c : Call) (f : ℕ) (answer : Option ℕ) (s s1 s2 : State)
      → Answers u net c s answer s2
      → u.file_alloc s ≡ some (f, s1)
      → ((n : ℕ) → u.slot2file n s2 ≡ u.slot2file n s1)
      → ((g : ℕ) → u.read_file g s2 ≡ u.read_file g s1)
      → Served u net c (finish u f (answer, s2)).0 s (finish u f (answer, s2)).1
  unfolding finish socket_of
  finish-Served c f none s s1 s2 asked a slots files =
      refused c (Answers_kept u net c none s s2 (u.file_free f s2) (net.lwip-free f s2) asked) (λ k.
        elim (Bool-cases (k == u.file2slot f)) [
          | inl e ↦
              let same : k ≡ u.file2slot f = ground arith in
              rw (same, lu.slot-free f s2) (sym (free_slot u lu f s s1 a))
          | inr e ↦
              let other : k ≢ u.file2slot f = ground arith in
              rw (free_table u lu f s2 k, e)
                (table_kept u lu k s1 s2 (slots k) (λ g _. files g)
                  ∙ alloc_table u lu f s s1 k a other)
        ])
  finish-Served c f (some sock) s s1 s2 asked a slots files =
      let here : u.slot2file (u.file2slot f) s2 ≡ some f =
        slots (u.file2slot f) ∙ lu.slot_of_alloc f s s1 a in
      let w = u.write_file f (socket_file sock) s2 in
      made c (u.file2slot f) sock
        (Answers_kept u net c (some sock) s s2 w (net.lwip-write f (socket_file sock) s2) asked)
        (free_slot u lu f s s1 a)
        (at_slot-Updated (u.file2slot f) (some sock) (table u s) (table u w)
          (rw (
            lu.slot-write (u.file2slot f) f (socket_file sock) s2,
            here,
            ◌>>=◌,
            lu.read-write f (socket_file sock) s2,
          ))
          (λ k other.
            write_table u lu f sock k s2 other
            ∙ table_kept u lu k s1 s2 (slots k) (λ g _. files g)
            ∙ alloc_table u lu f s s1 k a other))

  socket-Served :
      (d t p : ℕ) (s : State)
      → Served u net (socket_call d t p) (socket u d t p s).0 s (socket u d t p s).1
  unfolding socket
  socket-Served d t p s = elim (Option-cases (u.file_alloc s)) [
    | inl e ↦ rw (socket, e) (no_file (socket_call d t p) refl e refl (λ k. refl))
    | inr ((f, s1), e) ↦
        let same = net.lwip-alloc f s s1 e in
        let asked : net.socket d t p (lwip s)
            ≡ ((u.lwip_socket d t p s1).0, lwip (u.lwip_socket d t p s1).1) =
          rw (net.socket_answer d t p s1, net.socket_state d t p s1, same) in
        rw (socket, e)
          (finish-Served (socket_call d t p) f (u.lwip_socket d t p s1).0 s s1
            (u.lwip_socket d t p s1).1 asked e (λ n. lu.slot-socket n d t p s1)
            (λ g. lu.read-socket g d t p s1))
  ]

  accept-Served :
      (n : ℕ) (s : State) (x : Option ℕ × State)
      → accept u n s ≡ some x
      → Served u net (accept_call n) x.0 s x.1
  unfolding accept
  accept-Served n s x e = elim (Option-cases (u.file_alloc s)) [
    | inl e' ↦
        let stays : Option ℕ × State = (none, s) in
        let same : stays ≡ x = some-injective (rw (accept, e') at e) in
        subst (λ (y : Option ℕ × State). Served u net (accept_call n) y.0 s y.1) same
          (no_file (accept_call n) refl e' refl (λ k. refl))
    | inr ((f, s1), a) ↦
        let (fd, known, rest) = >>=-eq-some (net_lwip_fd u n s1) _ (rw (accept, a) at e) in
        let (answer, s2) = u.lwip_accept fd s1 in
        let asked : net.accept fd (lwip s)
            ≡ ((u.lwip_accept fd s1).0, lwip (u.lwip_accept fd s1).1) =
          rw (net.accept_answer fd s1, net.accept_state fd s1, net.lwip-alloc f s s1 a) in
        let of_slot : (sock : ℕ) → table u s n ≡ some sock → fd ≡ some sock =
          λ sock here. some-injective (sym known ∙ allocated_fd u lu n sock f s s1 here a) in
        subst (λ (y : Option ℕ × State). Served u net (accept_call n) y.0 s y.1)
          (some-injective rest)
          (finish-Served (accept_call n) f answer s s1 s2 (fd, of_slot, asked) a
            (λ k. lu.slot-accept k fd s1) (λ g. lu.read-accept g fd s1))
  ]

  close-Served :
      (f : ℕ) (s s' : State)
      → sock_close u f s ≡ some s'
      → Served u net (close_call f) (some 0) s s'
  unfolding sock_close
  close-Served f s s' e =
      let (sock, known, rest) = >>=-eq-some (socket_of (u.read_file f s)) _ e in
      let shut = u.lwip_close (some sock) s in
      let (is_sock, fd) = socket_of-some (u.read_file f s) sock known in
      closed f sock is_sock fd
        (rw (← some-injective rest) (net.lwip-free f shut ∙ net.close_state (some sock) s))
        (λ k. rw (← some-injective rest) (
          free_table u lu f shut k
          ∙ ap (λ (v : Option ℕ). if k == u.file2slot f then none else v)
              (table_kept u lu k s shut (lu.slot-close k (some sock) s)
                (λ g _. lu.read-close g (some sock) s))))

  serve-Served :
      (c : Call) (s : State) (r : Option ℕ) (s' : State)
      → serve u c s ≡ some (r, s')
      → Served u net c r s s'
  unfolding serve
  serve-Served (socket_call d t p) s r s' e =
      subst (λ (y : Option ℕ × State). Served u net (socket_call d t p) y.0 s y.1)
        (some-injective e) (socket-Served d t p s)
  serve-Served (accept_call n) s r s' e = accept-Served n s (r, s') e
  serve-Served (close_call f) s r s' e =
      let (s1, shut, rest) = >>=-eq-some (sock_close u f s) _ e in
      subst (λ (y : Option ℕ × State). Served u net (close_call f) y.0 s y.1) (some-injective rest)
        (close-Served f s s1 shut)

  -- A sequence of socket, accept and sockClose that meets no fault does what the calls are to do, one
  -- after the other: lwIP's socket is put into a free slot, which is returned, or -1 is returned,
  -- where lwIP refuses or no file is there, or the lwIP socket of a file is closed and its slot
  -- freed, and no other slot changes.
  pub serve_all-ServedAll :
      (cs : List Call) (s : State) (rs : List (Option ℕ)) (s' : State)
      → serve_all u cs s ≡ some (rs, s')
      → ServedAll u net cs rs s s'
  unfolding serve_all
  serve_all-ServedAll [] s rs s' e =
      subst (λ (y : List (Option ℕ) × State). ServedAll u net [] y.0 s y.1) (some-injective e) done
  serve_all-ServedAll (c ∷ cs) s rs s' e =
      let ((r, s1), first, rest) = >>=-eq-some (serve u c s) _ e in
      let ((rs', s2), later, end) = >>=-eq-some (serve_all u cs s1) _ rest in
      subst (λ (y : List (Option ℕ) × State). ServedAll u net (c ∷ cs) y.0 s y.1)
        (some-injective end)
        (next c cs r rs' (serve-Served c s r s1 first) (serve_all-ServedAll cs s1 rs' s2 later))

  serve_returns :
      (c : Call) (s : State)
      → Allowed u c s
      → (r : Option ℕ) × (s' : State) × (serve u c s ≡ some (r, s'))
  unfolding serve accept sock_close
  serve_returns (socket_call d t p) s allowed = ((socket u d t p s).0, (socket u d t p s).1, refl)
  serve_returns (accept_call n) s (sock, e) = elim (Option-cases (u.file_alloc s)) [
    | inl a ↦ (none, s, rw (accept, a))
    | inr ((f, s1), a) ↦
        let answer = finish u f (u.lwip_accept (some sock) s1) in
        (answer.0, answer.1, rw (accept, a, allocated_fd u lu n sock f s s1 e a, ◌>>=◌))
  ]
  serve_returns (close_call f) s (here, (sock, e)) =
      let file : socket_of (u.read_file f s) ≡ some sock = rw (here, ◌>>=◌) at e in
      (some 0, u.file_free f (u.lwip_close (some sock) s), rw (sock_close, file, ◌>>=◌))

  -- socket meets no fault, nor does accept for a slot that is a socket or sockClose for the file of
  -- such a slot, and each does what it is to do.
  pub serve_total :
      (c : Call) (s : State)
      → Allowed u c s
      → (r : Option ℕ) × (s' : State) × (serve u c s ≡ some (r, s')) × Served u net c r s s'
  serve_total c s allowed =
      let (r, s', e) = serve_returns c s allowed in (r, s', e, serve-Served c s r s' e)
