-- ===== src/SysArch/Mbox/Shared.antt =====
-- A mailbox that other threads use too: sys_mbox_post, sys_mbox_trypost, sys_arch_mbox_fetch and
-- sys_arch_mbox_tryfetch of sys_arch.c, in one thread among several.
pub mod Fifo
use picoos_lwip.Prelude.{ℕ, ◌≡◌, Bool, true, false, Option, none, some, List, [], ◌∷◌, ◌++◌, ◌>>=◌}
use picoos_lwip.SysArch.Nano.{Nano, Err, err_ok}
use picoos_lwip.SysArch.Mbox.{
  sys_mbox_post, sys_mbox_trypost, sys_arch_mbox_fetch, sys_arch_mbox_tryfetch,
}

-- What a ring of several threads does. `posts` and `fetches` are all the messages that have ever
-- gone into the ring and out of it, in order. The other threads' posts and fetches come before,
-- between and after what a call itself does, and a ring gives out the messages in the order in
-- which they went in. A put without a limit has stored the item when it returns.
pub record IsShared (k : Nano) (box : ℕ) : Type 0 where
  pub contents : k.State → List ℕ
  pub posts : k.State → List ℕ
  pub fetches : k.State → List ℕ
  pub in_order : (s : k.State) → posts s ≡ fetches s ++ contents s
  pub put_stored :
      (x limit : ℕ) (s : k.State)
      → (k.ring_put box x limit s).0 ≡ true
      → (before after fetched : List ℕ) × (posts (k.ring_put box x limit s).1
          ≡ posts s ++ (before ++ x ∷ after))
        × (fetches (k.ring_put box x limit s).1 ≡ fetches s ++ fetched)
  pub put_refused :
      (x limit : ℕ) (s : k.State)
      → (k.ring_put box x limit s).0 ≡ false
      → (posted fetched : List ℕ) × (posts (k.ring_put box x limit s).1 ≡ posts s ++ posted)
        × (fetches (k.ring_put box x limit s).1 ≡ fetches s ++ fetched)
  pub put_waits : (x : ℕ) (s : k.State) → (k.ring_put box x k.infinite s).0 ≡ true
  pub get_item :
      (x limit : ℕ) (s : k.State)
      → (k.ring_get box limit s).0 ≡ some x
      → (posted before after : List ℕ) × (posts (k.ring_get box limit s).1 ≡ posts s ++ posted)
        × (fetches (k.ring_get box limit s).1 ≡ fetches s ++ (before ++ x ∷ after))
  pub get_nothing :
      (limit : ℕ) (s : k.State)
      → (k.ring_get box limit s).0 ≡ none
      → (posted fetched : List ℕ) × (posts (k.ring_get box limit s).1 ≡ posts s ++ posted)
        × (fetches (k.ring_get box limit s).1 ≡ fetches s ++ fetched)

pub data Call : Type 0 where
  post trypost : ℕ → Call
  fetch : ℕ → Call
  tryfetch : Call

-- What the caller sees.
pub data Reply : Type 0 where
  put_reply : Err → Reply
  get_reply : ℕ → Option ℕ → Reply

module _ (k : Nano) (mb : Option ℕ) where
  open k use {State}

  unfoldable pub call : Call → State → Option (Reply × State)
  unfolding sys_mbox_post sys_mbox_trypost sys_arch_mbox_fetch sys_arch_mbox_tryfetch
  call (post x) s = do s' ← sys_mbox_post k mb x s; some (put_reply err_ok, s')
  call (trypost x) s = do (e, s') ← sys_mbox_trypost k mb x s; some (put_reply e, s')
  call (fetch timeout) s = do
    (r, m, s') ← sys_arch_mbox_fetch k mb timeout s
    some (get_reply r m, s')
  call tryfetch s = do (r, m, s') ← sys_arch_mbox_tryfetch k mb s; some (get_reply r m, s')

  unfoldable pub calls : List Call → State → Option (List Reply × State)
  calls [] s = some ([], s)
  calls (c ∷ cs) s = do (r, s1) ← call c s; (rs, s2) ← calls cs s1; some (r ∷ rs, s2)

-- The messages that a call has put into the mailbox, by its reply: a post always has.
abbrev pub sends : Call → Reply → List ℕ
sends (post x) r = x ∷ []
sends (trypost x) (put_reply err_ok) = x ∷ []
sends _ _ = []

abbrev pub gets : Reply → List ℕ
gets (get_reply _ (some x)) = x ∷ []
gets _ = []

abbrev pub sent_by : List Call → List Reply → List ℕ
sent_by (c ∷ cs) (r ∷ rs) = sends c r ++ sent_by cs rs
sent_by _ _ = []

abbrev pub got_by : List Reply → List ℕ
got_by [] = []
got_by (r ∷ rs) = gets r ++ got_by rs

-- A message that goes through the mailbox, by this thread's call or by another's.
pub data Entry : Type 0 where
  own other : ℕ → Entry

abbrev pub messages : List Entry → List ℕ
messages [] = []
messages (own x ∷ es) = x ∷ messages es
messages (other x ∷ es) = x ∷ messages es

abbrev pub mine : List Entry → List ℕ
mine [] = []
mine (own x ∷ es) = x ∷ mine es
mine (other x ∷ es) = mine es
