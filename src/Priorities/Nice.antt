-- ===== src/Priorities/Nice.antt =====
-- What setpriority does to the nice values of the tasks that it visits.
use sistemas_operativos.Prelude.{
  ℕ, ◌≡◌, refl, ap, ◌∙◌, Bool, true, false, ◌⊎◌, ◌==◌, if◌then◌else◌, Bool-cases, inl, inr, Option,
  none, some, List,
}
use sistemas_operativos.Prelude.Int.{ℤ, pos}
use sistemas_operativos.Kernel.Errno.{minus_esrch}
use sistemas_operativos.Kernel.Machine.{Machine, Resource}
use sistemas_operativos.Creds.{is_zero}
use sistemas_operativos.Sessions.{same_ℤ}
use sistemas_operativos.Priorities.{
  PrioKernel, less, same_user, set_one_prio_perm, set_if, set_unless_refused, or_can_nice, may_nice,
  or_privileged, set_if_permitted, set_one_prio,
}
use sistemas_operativos.Priorities.Select.{
  in_range, Same, Documented, Same-refl, Same-trans, Visited,
}

module _ (K : PrioKernel) (n : ℤ) where
  -- A visit of setpriority: the task has the value, or the error is one that stays.
  abbrev pub Sets : ℕ → ℤ → K.World → ℤ → K.World → Type 0
  Sets p e w r w' =
      ((r ≡ (if same_ℤ e minus_esrch then pos 0 else e))
        × ((q : ℕ) → K.task_nice q w' ≡ (if q == p then n else K.task_nice q w)))
      ⊎ ((is_zero r ≡ false)
          × (same_ℤ r minus_esrch ≡ false)
          × ((q : ℕ) → K.task_nice q w' ≡ K.task_nice q w))

  module _ (doc : Documented K) (proper : in_range n ≡ true) where
    V : ℕ → ℤ → K.World → List Resource → Option (ℤ × Machine K.World) → Type 0
    V = Visited K Sets

    set_if-Visited :
        (p : ℕ) (e no_nice : ℤ) (w : K.World) (s : Machine K.World)
        → same_ℤ no_nice minus_esrch ≡ false
        → Same K w s.world
        → V p e w s.held (set_if K p n e no_nice s)
    unfolding V set_if
    set_if-Visited p e no_nice w s stays same = elim (Bool-cases (is_zero no_nice)) [
      | inl zero_ ↦ rw zero_ (
        refl,
        inl (
          refl,
          λ q.
              doc.set_user_nice-nice p n s.world q proper
              ∙ ap (λ m. if q == p then n else m) (same.nice q),
        ),
        doc.set_user_nice-table p n s.world ∙ same.table,
      )
      | inr error ↦ rw error (refl, inr (error, stays, same.nice), same.table)
    ]

    set_unless_refused-Visited :
        (p : ℕ) (e : ℤ) (allowed : Bool) (w : K.World) (s : Machine K.World)
        → Same K w s.world
        → V p e w s.held (set_unless_refused K p n e allowed s)
    unfolding V set_unless_refused
    set_unless_refused-Visited p e false w s same = (refl, inr (refl, refl, same.nice), same.table)
    set_unless_refused-Visited p e true w s same =
        let asked = K.security_task_setnice p n s.world in
        set_if-Visited p e asked.0 w (record s { world = asked.1 }) (doc.setnice-answer p n s.world)
          (Same-trans K w s.world asked.1 same (doc.setnice-Same p n s.world))

    or_can_nice-Visited :
        (p : ℕ) (e : ℤ) (lower : Bool) (w : K.World) (s : Machine K.World)
        → Same K w s.world
        → V p e w s.held (elim (or_can_nice K p n lower s) [
          | none ↦ none
          | some (allowed, s') ↦ set_unless_refused K p n e allowed s'
        ])
    unfolding or_can_nice
    or_can_nice-Visited p e false w s same = set_unless_refused-Visited p e true w s same
    or_can_nice-Visited p e true w s same =
        let asked = K.can_nice p n s.world in
        set_unless_refused-Visited p e asked.0 w (record s { world = asked.1 })
          (Same-trans K w s.world asked.1 same (doc.can_nice-Same p n s.world))

    set_if_permitted-Visited :
        (p : ℕ) (e : ℤ) (permitted : Bool) (w : K.World) (s : Machine K.World)
        → Same K w s.world
        → V p e w s.held (set_if_permitted K p n e permitted s)
    unfolding V set_if_permitted may_nice
    set_if_permitted-Visited p e false w s same = (refl, inr (refl, refl, same.nice), same.table)
    set_if_permitted-Visited p e true w s same =
        or_can_nice-Visited p e (less n (K.task_nice p s.world)) w s same

    or_privileged-Visited :
        (p : ℕ) (e : ℤ) (same : Bool) (s : Machine K.World)
        → V p e s.world s.held (elim (or_privileged K p same s) [
          | none ↦ none
          | some (permitted, s') ↦ set_if_permitted K p n e permitted s'
        ])
    unfolding or_privileged
    or_privileged-Visited p e true s =
        set_if_permitted-Visited p e true s.world s (Same-refl K s.world)
    or_privileged-Visited p e false s =
        let asked = K.ns_capable p s.world in
        set_if_permitted-Visited p e asked.0 s.world (record s { world = asked.1 })
          (doc.ns_capable-Same p s.world)

    pub set_one_prio-Visited :
        (p : ℕ) (e : ℤ) (s : Machine K.World)
        → Visited K Sets p e s.world s.held (set_one_prio K p n e s)
    unfolding set_one_prio set_one_prio_perm V
    set_one_prio-Visited p e s = or_privileged-Visited p e (same_user K p (K.table s.world)) s
