-- ===== src/Sessions/Documented.antt =====
-- What is assumed of the kernel: which fields of the tasks its functions change, and that the first
-- task of a group is found if and only if the group has a task.
use sistemas_operativos.Prelude.{
  ℕ, ◌≡◌, ◌≢◌, refl, sym, ap, ◌∙◌, Bool, true, false, ◌==◌, ==_iff, if◌then◌else◌, Bool-cases, inl,
  inr, none, some, arith,
}
use sistemas_operativos.Prelude.Int.{ℤ}
use sistemas_operativos.Sessions.{SessionKernel}

-- The same groups, sessions and numbers.
pub record Placed (K : SessionKernel) (w w' : K.World) : Type 0 where
  pub pgrp : (q : ℕ) → K.task_pgrp q w' ≡ K.task_pgrp q w
  pub session : (q : ℕ) → K.task_session q w' ≡ K.task_session q w
  pub pid : (q : ℕ) → K.task_pid q w' ≡ K.task_pid q w

-- The same current process too.
pub record Same (K : SessionKernel) (w w' : K.World) : Type 0 where
  pub leader : K.group_leader w' ≡ K.group_leader w
  pub placed : Placed K w w'

-- `live` are the leaders of the thread groups that exist. Two tasks are threads of one process if
-- they share `signal`, and with it the group and the session.
pub record Documented (K : SessionKernel) (live : ℕ → Bool) : Type 0 where
  pub shares : ℕ → ℕ → Bool
  pub shares_refl : (p : ℕ) → shares p p ≡ true
  pub shares-live : (q p : ℕ) → live q ≡ true → live p ≡ true → shares q p ≡ true → q ≡ p
  pub shares-pgrp : (q p : ℕ) (w : K.World) → shares q p ≡ true → K.task_pgrp q w ≡ K.task_pgrp p w
  pub shares-session :
      (q p : ℕ) (w : K.World) → shares q p ≡ true → K.task_session q w ≡ K.task_session p w
  pub leader-live : (w : K.World) → live (K.group_leader w) ≡ true
  pub found-live :
      (n : ℤ) (p : ℕ) (w : K.World)
      → K.find_task_by_vpid n w ≡ some p
      → K.thread_group_leader p w ≡ true
      → live p ≡ true
  pub pid-injective :
      (p q : ℕ) (w : K.World)
      → live p ≡ true
      → live q ≡ true
      → K.task_pid p w ≡ K.task_pid q w
      → p ≡ q
  pub member :
      (i g : ℕ) (w : K.World) → K.group_task i w ≡ some g → (live g ≡ true) × (K.task_pgrp g w ≡ i)
  pub no_member :
      (i g : ℕ) (w : K.World) → K.group_task i w ≡ none → live g ≡ true → K.task_pgrp g w ≢ i
  pub change_pgrp-leader :
      (p i : ℕ) (w : K.World) → K.group_leader (K.change_pgrp p i w) ≡ K.group_leader w
  pub change_pgrp-pgrp :
      (p i q : ℕ) (w : K.World)
      → K.task_pgrp q (K.change_pgrp p i w) ≡ (if shares q p then i else K.task_pgrp q w)
  pub change_pgrp-session :
      (p i q : ℕ) (w : K.World) → K.task_session q (K.change_pgrp p i w) ≡ K.task_session q w
  pub change_pgrp-pid :
      (p i q : ℕ) (w : K.World) → K.task_pid q (K.change_pgrp p i w) ≡ K.task_pid q w
  pub change_session-leader :
      (p i : ℕ) (w : K.World) → K.group_leader (K.change_session p i w) ≡ K.group_leader w
  pub change_session-pgrp :
      (p i q : ℕ) (w : K.World) → K.task_pgrp q (K.change_session p i w) ≡ K.task_pgrp q w
  pub change_session-session :
      (p i q : ℕ) (w : K.World)
      → K.task_session q (K.change_session p i w) ≡ (if shares q p then i else K.task_session q w)
  pub change_session-pid :
      (p i q : ℕ) (w : K.World) → K.task_pid q (K.change_session p i w) ≡ K.task_pid q w
  pub setpgid-Same : (p : ℕ) (n : ℤ) (w : K.World) → Same K w (K.security_task_setpgid p n w).1
  pub getpgid-Same : (p : ℕ) (w : K.World) → Same K w (K.security_task_getpgid p w).1
  pub getsid-Same : (p : ℕ) (w : K.World) → Same K w (K.security_task_getsid p w).1
  pub leader-Same : (p : ℕ) (w : K.World) → Same K w (K.set_session_leader p w)
  pub tty-Same : (p : ℕ) (w : K.World) → Same K w (K.proc_clear_tty p w)
  pub connector-Same : (p : ℕ) (w : K.World) → Same K w (K.proc_sid_connector p w)
  pub autogroup-Same : (p : ℕ) (w : K.World) → Same K w (K.sched_autogroup_create_attach p w)

true_ne_false : true ≡ false → ⊥
true_ne_false e = ground arith

-- Among the leaders a process is its own leader alone.
pub if-shares :
    (K : SessionKernel) (live : ℕ → Bool) (doc : Documented K live) (q p : ℕ) (m n : ℕ)
    → live q ≡ true
    → live p ≡ true
    → (if doc.shares q p then m else n) ≡ (if q == p then m else n)
if-shares K live doc q p m n lq lp = elim (Bool-cases (doc.shares q p)) [
  | inl same ↦ rw (same, (==_iff q p).1 (doc.shares-live q p lq lp same)) refl
  | inr other ↦ elim (Bool-cases (q == p)) [
    | inr differs ↦ rw (other, differs) refl
    | inl equal ↦ absurd (
        true_ne_false
          (sym (doc.shares_refl p) ∙ ap (λ r. doc.shares r p) (sym ((==_iff q p).0 equal)) ∙ other))
  ]
]
