-- ===== src/Dhcps/Server/Life.antt =====
-- The life of the DHCP server: starts, stops and messages in any order on lwIP's thread
-- (dhcpServerStartRaw, dhcpServerStopRaw and dhcpRecv of apps/dhcps/dhcps.c).
use picoos_lwip.Prelude.{
  ℕ, ◌≡◌, refl, sym, ap, subst, ◌∙◌, Bool, true, false, Option, none, some, List, [], ◌∷◌, ◌++◌,
  arith, ◌>>=◌, >>=-eq-some, some-injective, append_assoc, append-nil, inl, inr, Option-cases,
}
use picoos_lwip.Dhcps.Server.{dhcp_recv, dhcp_server_start_raw, dhcp_server_stop_raw}
use picoos_lwip.Dhcps.Server.Outcomes.{Handled, silent, unanswered, offered, acknowledged, refused}
use picoos_lwip.Dhcps.Server.Received.{dhcp_recv_outcome}
use picoos_lwip.Dhcps.Server.Env.{
  Lwip, IsLwip, Netif, Event, new_pcb, remove_pcb, free_req, Server, Message,
}

-- What the thread does next: a queued start, with what udp_new returns, a queued stop, or a message,
-- which lwIP hands to the server while it has a control block.
pub data Input : Type 0 where
  starts : Option ℕ → Input
  stops : Input
  receives : Message → Input

-- Starts and stops in turn; the flag says that a start was the last of them.
abbrev pub Alternates : Bool → List Input → Type 0
Alternates running [] = Unit
Alternates running (starts made ∷ is) = (running ≡ false) × Alternates true is
Alternates running (stops ∷ is) = (running ≡ true) × Alternates false is
Alternates running (receives m ∷ is) = Alternates running is

-- The control blocks that are made and removed.
abbrev pub opened : List Event → List ℕ
opened [] = []
opened (new_pcb h ∷ ev) = h ∷ opened ev
opened (_ ∷ ev) = opened ev

abbrev pub closed : List Event → List ℕ
closed [] = []
closed (remove_pcb (some h) ∷ ev) = h ∷ closed ev
closed (_ ∷ ev) = closed ev

abbrev pub current : Option ℕ → List ℕ
current none = []
current (some h) = h ∷ []

module _ (w : Lwip) (netif : Netif) where
  unfoldable pub step : Input → Server → Option (Server × List Event)
  step (starts made) s = some (dhcp_server_start_raw w netif made)
  step stops s = some (dhcp_server_stop_raw s)
  step (receives m) s = elim s.pcb [ none ↦ some (s, []) | some _ ↦ dhcp_recv w netif m s ]

  unfoldable pub life : List Input → Server → Option (Server × List Event)
  life [] s = some (s, [])
  life (i ∷ is) s = do (s1, ev1) ← step i s; (s2, ev2) ← life is s1; some (s2, ev1 ++ ev2)

opened-append : (xs ys : List Event) → opened (xs ++ ys) ≡ opened xs ++ opened ys
opened-append [] ys = refl
opened-append (x ∷ xs) ys = ground (arith, opened-append xs ys)

closed-append : (xs ys : List Event) → closed (xs ++ ys) ≡ closed xs ++ closed ys
closed-append [] ys = refl
closed-append (x ∷ xs) ys = ground (arith, closed-append xs ys)

module _ (w : Lwip) (netif : Netif) (lw : IsLwip w) where
  -- A message makes and removes no control block.
  Handled-pcb :
      {m : Message} {s s' : Server} {ev : List Event}
      → Handled w netif m s s' ev
      → (opened (ev ++ free_req ∷ []) ≡ []) × (closed (ev ++ free_req ∷ []) ≡ []) × (s'.pcb ≡ s.pcb)
  Handled-pcb (silent same e _) = rw e (refl, refl, ap (λ (t : Server). t.pcb) same)
  Handled-pcb (unanswered mac ip a (inl (_, e))) = rw e (refl, refl, a.same_pcb)
  Handled-pcb (unanswered mac ip a (inr (_, _, _, e))) = rw e (refl, refl, a.same_pcb)
  Handled-pcb (offered mac ip rp _ a _ e) = rw e (refl, refl, a.same_pcb)
  Handled-pcb (acknowledged mac ip rp _ a _ _ e) = rw e (refl, refl, a.same_pcb)
  Handled-pcb (refused mac ip req rp _ a _ _ _ e) = rw e (refl, refl, a.same_pcb)

  step-idle : (m : Message) (s : Server) → s.pcb ≡ none → step w netif (receives m) s ≡ some (s, [])
  unfolding step
  step-idle m s idle = rw idle refl

  step-running :
      (m : Message) (s : Server) (h : ℕ)
      → s.pcb ≡ some h
      → step w netif (receives m) s ≡ dhcp_recv w netif m s
  unfolding step
  step-running m s h runs = rw runs refl

  receives-pcb :
      (m : Message) (s : Server) {s' : Server} {ev : List Event}
      → step w netif (receives m) s ≡ some (s', ev)
      → (opened ev ≡ []) × (closed ev ≡ []) × (s'.pcb ≡ s.pcb)
  receives-pcb m s {s'} {ev} e = elim (Option-cases s.pcb) [
    | inl idle ↦
        let stays = sym (step-idle m s idle) ∙ e in
        let same : s ≡ s' = ground arith in
        let quiet : ev ≡ [] = ground arith in
        (ap opened quiet, ap closed quiet, ap (λ (t : Server). t.pcb) (sym same))
    | inr (h, runs) ↦
        let received = sym (step-running m s h runs) ∙ e in
        let (ev1, split, handled) = dhcp_recv_outcome w netif lw m s received in
        rw split (Handled-pcb handled)
  ]

  -- The list of what a step makes, and was there, is that of what it removes, and is there.
  abbrev Accounts : Server → Server → List Event → Type 0
  Accounts s s' ev = current s.pcb ++ opened ev ≡ closed ev ++ current s'.pcb

  Accounts-append :
      (s s1 s2 : Server) (ev1 ev2 : List Event)
      → Accounts s s1 ev1
      → Accounts s1 s2 ev2
      → Accounts s s2 (ev1 ++ ev2)
  Accounts-append s s1 s2 ev1 ev2 e1 e2 =
      ap (λ (t : List ℕ). current s.pcb ++ t) (opened-append ev1 ev2)
      ∙ sym (append_assoc (current s.pcb) (opened ev1) (opened ev2))
      ∙ ap (λ (t : List ℕ). t ++ opened ev2) e1
      ∙ append_assoc (closed ev1) (current s1.pcb) (opened ev2)
      ∙ ap (λ (t : List ℕ). closed ev1 ++ t) e2
      ∙ sym (append_assoc (closed ev1) (closed ev2) (current s2.pcb))
      ∙ ap (λ (t : List ℕ). t ++ current s2.pcb) (sym (closed-append ev1 ev2))

  starts-Accounts :
      (made : Option ℕ) (s : Server) {s' : Server} {ev : List Event}
      → s.pcb ≡ none
      → step w netif (starts made) s ≡ some (s', ev)
      → Accounts s s' ev
  unfolding step dhcp_server_start_raw
  starts-Accounts none s idle e =
      subst (λ (r : Server × List Event). Accounts s r.0 r.1) (some-injective e) (rw idle refl)
  starts-Accounts (some h) s idle e =
      subst (λ (r : Server × List Event). Accounts s r.0 r.1) (some-injective e) (rw idle refl)

  stops-step :
      (s : Server) {s' : Server} {ev : List Event}
      → step w netif stops s ≡ some (s', ev)
      → Accounts s s' ev × (s'.pcb ≡ none)
  unfolding step dhcp_server_stop_raw
  stops-step s e =
      subst (λ (r : Server × List Event). Accounts s r.0 r.1 × (r.0.pcb ≡ none)) (some-injective e)
        (removed s.pcb, refl)
    where
      removed : (p : Option ℕ) → current p ++ [] ≡ closed (remove_pcb p ∷ []) ++ []
      removed none = refl
      removed (some h) = refl

  receives-Accounts :
      (m : Message) (s : Server) {s' : Server} {ev : List Event}
      → step w netif (receives m) s ≡ some (s', ev)
      → Accounts s s' ev
  receives-Accounts m s e =
      let (o, c, same) = receives-pcb m s e in rw (o, c, same) (append-nil (current s.pcb))

  life-nil :
      (s : Server) {s' : Server} {ev : List Event}
      → life w netif [] s ≡ some (s', ev)
      → ◌≡◌ {A = Server × List Event} (s, []) (s', ev)
  unfolding life
  life-nil s e = some-injective e

  life-cons :
      (i : Input) (is : List Input) (s : Server) {s' : Server} {ev : List Event}
      → life w netif (i ∷ is) s ≡ some (s', ev)
      → (s1 : Server) × (ev1 : List Event) × (ev2 : List Event) × (step w netif i s
          ≡ some (s1, ev1))
        × (life w netif is s1 ≡ some (s', ev2))
        × (ev ≡ ev1 ++ ev2)
  unfolding life
  life-cons i is s e =
      let ((s1, ev1), first, rest) = >>=-eq-some (step w netif i s) _ e in
      let ((s2, ev2), later, k) = >>=-eq-some (life w netif is s1) _ rest in
      (s1, ev1, ev2, first, later ∙ ground arith, ground arith)

  -- With starts and stops in turn, the lists stay in step.
  life-Accounts :
      (is : List Input) (running : Bool) (s : Server) {s' : Server} {ev : List Event}
      → Alternates running is
      → (running ≡ false → s.pcb ≡ none)
      → life w netif is s ≡ some (s', ev)
      → Accounts s s' ev
  life-Accounts [] running s {s'} {ev} turns idle e =
      subst (λ (r : Server × List Event). Accounts s r.0 r.1) (life-nil s e)
        (append-nil (current s.pcb))
  life-Accounts (starts made ∷ is) running s {s'} (off, turns) idle e =
      let (s1, ev1, ev2, first, later, split) = life-cons (starts made) is s e in
      rw split (
        Accounts-append s s1 s' ev1 ev2 (starts-Accounts made s (idle off) first)
          (life-Accounts is true s1 turns (λ z. absurd (ground arith)) later))
  life-Accounts (stops ∷ is) running s {s'} (on, turns) idle e =
      let (s1, ev1, ev2, first, later, split) = life-cons stops is s e in
      let (removed, none_left) = stops-step s first in
      rw split (
        Accounts-append s s1 s' ev1 ev2 removed
          (life-Accounts is false s1 turns (λ z. none_left) later))
  life-Accounts (receives m ∷ is) running s {s'} turns idle e =
      let (s1, ev1, ev2, first, later, split) = life-cons (receives m) is s e in
      let (o, c, same) = receives-pcb m s first in
      rw split (
        Accounts-append s s1 s' ev1 ev2 (receives-Accounts m s first)
          (life-Accounts is running s1 turns (λ z. same ∙ idle z) later))

  -- If starts and stops come in turn, the first of them a start, from a server without a control
  -- block and with any messages between them, then without a fault the control blocks that udp_new
  -- made are, in order, those that were removed and then the one that the server has.
  pub life_closes :
      (is : List Input) (s : Server) {s' : Server} {ev : List Event}
      → Alternates false is
      → s.pcb ≡ none
      → life w netif is s ≡ some (s', ev)
      → opened ev ≡ closed ev ++ current s'.pcb
  life_closes is s {s'} {ev} turns idle e =
      ap (λ (p : Option ℕ). current p ++ opened ev) (sym idle)
      ∙ life-Accounts is false s turns (λ z. idle) e
