-- ===== src/Sessions/Founded.antt =====
-- What set_special_pids does to the groups and the sessions of the tasks.
use sistemas_operativos.Prelude.{
  ℕ, ◌≡◌, refl, ap, ◌∙◌, Bool, true, ◌==◌, ==_iff, if◌then◌else◌, Bool-cases, inl, inr,
}
use mathlib.Core.Path.{subst}
use sistemas_operativos.Sessions.{
  SessionKernel, enter_session, change_group, set_special_pids, become_leader,
}
use sistemas_operativos.Sessions.Documented.{Documented, Same, Placed}

-- A field that has the value already reads as if it was set.
set_already :
    (field : ℕ → ℕ) (shared : Bool) (p i q : ℕ)
    → (field p == i) ≡ true
    → (shared ≡ true → field q ≡ field p)
    → field q ≡ (if shared then i else field q)
set_already field shared p i q e alike = elim (Bool-cases shared) [
  | inl same ↦ rw same (alike same ∙ (==_iff (field p) i).0 e)
  | inr other ↦ rw other refl
]

module _ (K : SessionKernel) (live : ℕ → Bool) (doc : Documented K live) where
  -- The state after the threads of a process entered the session and the group of this number.
  pub record Founded (p i : ℕ) (w w' : K.World) : Type 0 where
    pub pgrp : (q : ℕ) → K.task_pgrp q w' ≡ (if doc.shares q p then i else K.task_pgrp q w)
    pub session : (q : ℕ) → K.task_session q w' ≡ (if doc.shares q p then i else K.task_session q w)
    pub pid : (q : ℕ) → K.task_pid q w' ≡ K.task_pid q w

  record Entered (p i : ℕ) (w w' : K.World) : Type 0 where
    pgrp : (q : ℕ) → K.task_pgrp q w' ≡ K.task_pgrp q w
    session : (q : ℕ) → K.task_session q w' ≡ (if doc.shares q p then i else K.task_session q w)
    pid : (q : ℕ) → K.task_pid q w' ≡ K.task_pid q w

  enter_session-Entered : (p i : ℕ) (w : K.World) → Entered p i w (enter_session K p i w)
  unfolding enter_session
  enter_session-Entered p i w = elim (Bool-cases (K.task_session p w == i)) [
    | inl already ↦ rw already (record {
      pgrp = λ q. refl;
      session = λ q.
          set_already (λ q. K.task_session q w) (doc.shares q p) p i q already
            (doc.shares-session q p w);
      pid = λ q. refl;
    })
    | inr other ↦ rw other (record {
      pgrp = λ q. doc.change_session-pgrp p i q w;
      session = λ q. doc.change_session-session p i q w;
      pid = λ q. doc.change_session-pid p i q w;
    })
  ]

  change_group-Founded :
      (p i : ℕ) (w w' : K.World) → Entered p i w w' → Founded p i w (change_group K p i w')
  unfolding change_group
  change_group-Founded p i w w' entered = elim (Bool-cases (K.task_pgrp p w' == i)) [
    | inl already ↦ rw already (record {
      pgrp = λ q.
          set_already (λ q. K.task_pgrp q w') (doc.shares q p) p i q already
            (doc.shares-pgrp q p w')
          ∙ same_else q;
      session = entered.session;
      pid = entered.pid;
    })
    | inr other ↦ rw other (record {
      pgrp = λ q. doc.change_pgrp-pgrp p i q w' ∙ same_else q;
      session = λ q. doc.change_pgrp-session p i q w' ∙ entered.session q;
      pid = λ q. doc.change_pgrp-pid p i q w' ∙ entered.pid q;
    })
  ]
    where
      same_else :
          (q : ℕ)
          → (if doc.shares q p then i else K.task_pgrp q w')
            ≡ (if doc.shares q p then i else K.task_pgrp q w)
      same_else q = ap (λ n. if doc.shares q p then i else n) (entered.pgrp q)

  set_special_pids-Founded :
      (i : ℕ) (w : K.World) → Founded (K.group_leader w) i w (set_special_pids K i w)
  unfolding set_special_pids
  set_special_pids-Founded i w =
      change_group-Founded (K.group_leader w) i w (enter_session K (K.group_leader w) i w)
        (enter_session-Entered (K.group_leader w) i w)

  -- What changes nothing before leaves it so, and so does what comes after.
  before-Founded :
      (p i : ℕ) (w w1 w2 : K.World) → Same K w w1 → Founded p i w1 w2 → Founded p i w w2
  before-Founded p i w w1 w2 before founded = record {
    pgrp = λ q. founded.pgrp q ∙ ap (λ n. if doc.shares q p then i else n) (before.placed.pgrp q);
    session = λ q.
        founded.session q ∙ ap (λ n. if doc.shares q p then i else n) (before.placed.session q);
    pid = λ q. founded.pid q ∙ before.placed.pid q;
  }

  pub after-Founded :
      (p i : ℕ) (w w1 w2 : K.World) → Founded p i w w1 → Placed K w1 w2 → Founded p i w w2
  after-Founded p i w w1 w2 founded after = record {
    pgrp = λ q. after.pgrp q ∙ founded.pgrp q;
    session = λ q. after.session q ∙ founded.session q;
    pid = λ q. after.pid q ∙ founded.pid q;
  }

  pub become_leader-Founded :
      (i : ℕ) (w : K.World)
      → Founded (K.group_leader w) i w (become_leader K (K.group_leader w) i w)
  unfolding become_leader
  become_leader-Founded i w =
      let p = K.group_leader w in
      let w1 = K.set_session_leader p w in
      let same = doc.leader-Same p w in
      after-Founded p i w (set_special_pids K i w1) _
        (before-Founded p i w w1 (set_special_pids K i w1) same (
          subst (λ q. Founded q i w1 (set_special_pids K i w1)) same.leader
            (set_special_pids-Founded i w1)))
        (doc.tty-Same p (set_special_pids K i w1)).placed
