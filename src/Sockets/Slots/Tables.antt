-- ===== src/Sockets/Slots/Tables.antt =====
-- What the calls of the file layer do to the table of slots that sockets.c keeps.
use picoos_lwip.Prelude.{
  ℕ, ◌≡◌, ◌≢◌, sym, ◌∙◌, ap, Option, none, some, ◌==◌, ◌>>=◌, Bool-cases, Option-cases, inl, inr,
  arith, >>=-eq-some,
}
use picoos_lwip.Sockets.Env.{Uos, IsUos}
use picoos_lwip.Sockets.{net_lwip_fd}
use picoos_lwip.Sockets.Laws.{socket_file}
use picoos_lwip.Sockets.Slots.{Table, Updated, table}

pub at_slot-Updated :
    (n : ℕ) (v : Option ℕ) (t t' : Table)
    → t' n ≡ v
    → ((k : ℕ) → k ≢ n → t' k ≡ t k)
    → Updated n v t t'
at_slot-Updated n v t t' here others k = elim (Bool-cases (k == n)) [
  | inl e ↦ let same : k ≡ n = ground arith in rw (e, same, here)
  | inr e ↦ let other : k ≢ n = ground arith in rw (e, others k other)
]

module _ (u : Uos) (lu : IsUos u) where
  open u use {State}

  -- A slot other than a file's keeps its socket where the file is changed.
  pub table_kept :
      (n : ℕ) (s s' : State)
      → u.slot2file n s' ≡ u.slot2file n s
      → ((g : ℕ) → u.slot2file n s ≡ some g → u.read_file g s' ≡ u.read_file g s)
      → table u s' n ≡ table u s n
  table_kept n s s' same keeps = elim (Option-cases (u.slot2file n s)) [
    | inl e ↦ rw (same, e)
    | inr (g, e) ↦ rw (same, e, ◌>>=◌, keeps g e)
  ]

  -- A file that is found at another slot is another file.
  other_file : (n g f : ℕ) (s : State) → u.slot2file n s ≡ some g → n ≢ u.file2slot f → g ≢ f
  other_file n g f s e other same = other (sym (lu.slot-file n g s e) ∙ ap u.file2slot same)

  pub alloc_table :
      (f : ℕ) (s s1 : State) (k : ℕ)
      → u.file_alloc s ≡ some (f, s1)
      → k ≢ u.file2slot f
      → table u s1 k ≡ table u s k
  alloc_table f s s1 k a other =
      table_kept k s s1 (lu.alloc_others k f s s1 a other)
        (λ g e. lu.alloc_keeps g f s s1 a (other_file k g f s e other))

  pub free_table :
      (f : ℕ) (s : State) → Updated (u.file2slot f) none (table u s) (table u (u.file_free f s))
  free_table f s =
      at_slot-Updated (u.file2slot f) none (table u s) (table u (u.file_free f s))
        (rw (lu.slot-free f s))
        (λ k other.
          table_kept k s (u.file_free f s) (lu.free_others k f s other)
            (λ g e. lu.free_keeps g f s (other_file k g f s e other)))

  pub write_table :
      (f sock k : ℕ) (s : State)
      → k ≢ u.file2slot f
      → table u (u.write_file f (socket_file sock) s) k ≡ table u s k
  write_table f sock k s other =
      table_kept k s (u.write_file f (socket_file sock) s) (lu.slot-write k f (socket_file sock) s)
        (λ g e. lu.write_keeps g f (socket_file sock) s (other_file k g f s e other))

  pub free_slot :
      (f : ℕ) (s s1 : State) → u.file_alloc s ≡ some (f, s1) → table u s (u.file2slot f) ≡ none
  free_slot f s s1 a = rw (lu.alloc_free f s s1 a)

  pub net_lwip_fd-table :
      (n sock : ℕ) (s : State) → table u s n ≡ some sock → net_lwip_fd u n s ≡ some (some sock)
  unfolding net_lwip_fd
  net_lwip_fd-table n sock s e =
      let (f, here, file) = >>=-eq-some (u.slot2file n s) _ e in rw (net_lwip_fd, here, file, ◌>>=◌)

  -- The file that accept makes takes no slot that is a socket.
  pub allocated_fd :
      (n sock f : ℕ) (s s1 : State)
      → table u s n ≡ some sock
      → u.file_alloc s ≡ some (f, s1)
      → net_lwip_fd u n s1 ≡ some (some sock)
  allocated_fd n sock f s s1 e a =
      let other : n ≢ u.file2slot f = λ same.
        absurd
          (let taken : some sock ≡ none = sym e ∙ ap (table u s) same ∙ free_slot f s s1 a in cc) in
      net_lwip_fd-table n sock s1 (alloc_table f s s1 n a other ∙ e)
