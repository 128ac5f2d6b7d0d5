-- ===== src/SysArch/Mbox/Queue.antt =====
-- A mailbox and a queue with a limited number of messages (sys_mbox_trypost and
-- sys_arch_mbox_tryfetch of sys_arch.c).
use picoos_lwip.Prelude.{
  ℕ, ◌≡◌, refl, Option, none, some, List, [], ◌∷◌, ◌++◌, length, ltb, ltb→lt, ltb→ge, if◌then◌else◌,
  ◌>>=◌, Bool-cases, inl, inr, List-cases,
}
use picoos_lwip.SysArch.Nano.{Nano, IsRing, Err, err_ok, err_mem}
use picoos_lwip.SysArch.Mbox.{sys_mbox_trypost, sys_arch_mbox_tryfetch}

-- A call that does not wait, and what its caller sees.
pub data Op : Type 0 where
  post : ℕ → Op
  fetch : Op

pub data Reply : Type 0 where
  posted : Err → Reply
  fetched : ℕ → Option ℕ → Reply

-- The queue of the messages, the oldest first.
module _ (room empty : ℕ) where
  unfoldable pub queue_step : Op → List ℕ → Reply × List ℕ
  queue_step (post x) q =
      if ltb (length q) room then (posted err_ok, q ++ (x ∷ [])) else (posted err_mem, q)
  queue_step fetch [] = (fetched empty none, [])
  queue_step fetch (x ∷ q) = (fetched 0 (some x), q)

  unfoldable pub queue_run : List Op → List ℕ → List Reply
  queue_run [] q = []
  queue_run (op ∷ ops) q = let (r, q') = queue_step op q in r ∷ queue_run ops q'

module _ (k : Nano) (mb : Option ℕ) where
  open k use {State}

  unfoldable pub mbox_step : Op → State → Option (Reply × State)
  unfolding sys_mbox_trypost sys_arch_mbox_tryfetch
  mbox_step (post x) s = do (e, s') ← sys_mbox_trypost k mb x s; some (posted e, s')
  mbox_step fetch s = do (r, m, s') ← sys_arch_mbox_tryfetch k mb s; some (fetched r m, s')

  unfoldable pub mbox_run : List Op → State → Option (List Reply)
  mbox_run [] s = some []
  mbox_run (op ∷ ops) s = do (r, s') ← mbox_step op s; rs ← mbox_run ops s'; some (r ∷ rs)

module _ (k : Nano) (box : ℕ) (ring : IsRing k box) where
  open ring use {contents, room}

  abbrev step_q : Op → k.State → Reply × List ℕ
  step_q op s = queue_step room k.sys_mbox_empty op (contents s)

  -- One call does what it does on the queue of the contents.
  mbox_step_refines :
      (op : Op) (s : k.State)
      → (s' : k.State) × (mbox_step k (some box) op s ≡ some ((step_q op s).0, s'))
        × (contents s' ≡ (step_q op s).1)
  unfolding mbox_step queue_step
  mbox_step_refines (post x) s = elim (Bool-cases (ltb (length (contents s)) room)) [
    | inl fits ↦
        let (e, c) = ring.put_room x s (ltb→lt _ _ fits) in
        ((k.ring_put box x 0 s).1, rw (fits, e), rw fits c)
    | inr full ↦
        let (e, c) = ring.put_full x s (ltb→ge _ _ full) in
        ((k.ring_put box x 0 s).1, rw (full, e), rw full c)
  ]
  mbox_step_refines fetch s = elim (List-cases (contents s)) [
    | inl e ↦ let (g, c) = ring.get_nil s e in ((k.ring_get box 0 s).1, rw (e, g), rw e c)
    | inr (x, xs, e) ↦
        let (g, c) = ring.get_cons x xs s e in ((k.ring_get box 0 s).1, rw (e, g), rw e c)
  ]

  -- No sequence of calls that do not wait tells a mailbox from the queue of its messages: a post is
  -- refused with ERR_MEM exactly when the queue is full, a fetch finds SYS_MBOX_EMPTY exactly when it
  -- is empty, and messages come in the order in which they were posted.
  pub mbox_run_refines :
      (ops : List Op) (s : k.State)
      → mbox_run k (some box) ops s ≡ some (queue_run room k.sys_mbox_empty ops (contents s))
  unfolding mbox_run queue_run
  mbox_run_refines [] s = refl
  mbox_run_refines (op ∷ ops) s =
      let (s', e, c) = mbox_step_refines op s in rw (e, mbox_run_refines ops s', c)
