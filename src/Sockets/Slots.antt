-- ===== src/Sockets/Slots.antt =====
-- The slots as a table of lwIP sockets: what a sequence of socket, accept and sockClose of sockets.c
-- is to do to it.
pub mod Tables
pub mod Refine
use picoos_lwip.Prelude.{
  ℕ, ◌≡◌, ◌≢◌, refl, sym, ◌∙◌, ap, subst, Bool, true, false, Option, none, some, List, [], ◌∷◌,
  ◌==◌, ◌>>=◌, if◌then◌else◌, Bool-cases, Option-cases, inl, inr, ◌⊎◌, arith, >>=-eq-some,
  some-injective,
}
use picoos_lwip.Sockets.Env.{Uos, Net, sock_fs}
use picoos_lwip.Sockets.{socket_of, net_lwip_fd, finish, socket, accept, sock_close}
use picoos_lwip.Sockets.Laws.{socket_file}

-- The socket of each slot.
abbrev pub Table : Type 0
Table = ℕ → Option ℕ

abbrev pub Same : Table → Table → Type 0
Same t t' = (k : ℕ) → t' k ≡ t k

-- Slot `n` changes, and no other does.
abbrev pub Updated : ℕ → Option ℕ → Table → Table → Type 0
Updated n v t t' = (k : ℕ) → t' k ≡ (if k == n then v else t k)

-- The calls of a program, and of the file layer when it closes a file.
pub data Call : Type 0 where
  socket_call : ℕ → ℕ → ℕ → Call
  accept_call close_call : ℕ → Call

abbrev pub makes : Call → Bool
makes (close_call f) = false
makes _ = true

module _ (u : Uos) where
  open u use {State}

  -- The socket of a slot, if the slot has a file that is a socket.
  abbrev pub table : State → Table
  table s n = do f ← u.slot2file n s; socket_of (u.read_file f s)

  unfoldable pub serve : Call → State → Option (Option ℕ × State)
  unfolding socket accept sock_close
  serve (socket_call d t p) s = some (socket u d t p s)
  serve (accept_call n) s = accept u n s
  serve (close_call f) s = do s' ← sock_close u f s; some (some 0, s')

  unfoldable pub serve_all : List Call → State → Option (List (Option ℕ) × State)
  unfolding serve
  serve_all [] s = some ([], s)
  serve_all (c ∷ cs) s = do (r, s1) ← serve c s; (rs, s2) ← serve_all cs s1; some (r ∷ rs, s2)

module _ (u : Uos) (net : Net u) where
  open u use {State}
  open net use {lwip}

  -- lwIP has given a call's answer. accept has asked for the socket of its slot, if the slot has one.
  abbrev pub Answers : Call → State → Option ℕ → State → Type 0
  Answers (socket_call d t p) s answer s' = net.socket d t p (lwip s) ≡ (answer, lwip s')
  Answers (accept_call n) s answer s' =
      (fd : Option ℕ) × ((sock : ℕ) → table u s n ≡ some sock → fd ≡ some sock)
      × (net.accept fd (lwip s) ≡ (answer, lwip s'))
  Answers (close_call f) s answer s' = ⊥

  -- What a call is to do: it returns the free slot that the socket of lwIP's answer is put into, or
  -- it returns -1 and changes no slot, which is where lwIP refuses or, lwIP not being asked, where
  -- there is no file; or it closes the lwIP socket of a file and frees the file's slot.
  pub data Served : Call → Option ℕ → State → State → Type 0 where
    made :
        (c : Call) (n sock : ℕ) {s s' : State}
        → Answers c s (some sock) s'
        → table u s n ≡ none
        → Updated n (some sock) (table u s) (table u s')
        → Served c (some n) s s'
    refused :
        (c : Call) {s s' : State}
        → Answers c s none s'
        → Same (table u s) (table u s')
        → Served c none s s'
    no_file :
        (c : Call) {s s' : State}
        → makes c ≡ true
        → u.file_alloc s ≡ none
        → lwip s' ≡ lwip s
        → Same (table u s) (table u s')
        → Served c none s s'
    closed :
        (f sock : ℕ) {s s' : State}
        → (u.read_file f s).fs ≡ sock_fs
        → (u.read_file f s).fs_priv_fd ≡ sock
        → lwip s' ≡ net.close (some sock) (lwip s)
        → Updated (u.file2slot f) none (table u s) (table u s')
        → Served (close_call f) (some 0) s s'

  pub data ServedAll : List Call → List (Option ℕ) → State → State → Type 0 where
    done : {s : State} → ServedAll [] [] s s
    next :
        (c : Call) (cs : List Call) (r : Option ℕ) (rs : List (Option ℕ)) {s s1 s2 : State}
        → Served c r s s1
        → ServedAll cs rs s1 s2
        → ServedAll (c ∷ cs) (r ∷ rs) s s2

-- accept is asked for a slot that is a socket, and sockClose for the file of such a slot.
module _ (u : Uos) where
  open u use {State}

  abbrev pub Allowed : Call → State → Type 0
  Allowed (socket_call d t p) s = Unit
  Allowed (accept_call n) s = (sock : ℕ) × (table u s n ≡ some sock)
  Allowed (close_call f) s =
      (u.slot2file (u.file2slot f) s ≡ some f)
      × ((sock : ℕ) × (table u s (u.file2slot f) ≡ some sock))
