-- ===== src/Priorities/Select.antt =====
-- Which tasks the two calls visit, and that they do it one after the other under the locks.
use sistemas_operativos.Prelude.{
  ℕ, ◌+◌, ◌-◌, ◌≡◌, refl, ◌∙◌, Bool, true, false, ltb, ◌||◌, ◌==◌, if◌then◌else◌, Option, none,
  some, List, [], ◌∷◌,
}
use sistemas_operativos.Prelude.Int.{ℤ, pos, negsuc}
use sistemas_operativos.Kernel.Machine.{Machine, Resource}
use sistemas_operativos.Kernel.Errno.{minus_esrch}
use sistemas_operativos.Sessions.{same_ℤ}
use sistemas_operativos.Priorities.{
  PrioKernel, prio_process, prio_pgrp, belongs, task_of, pgrp_of, user_of,
}

-- The nice values that tasks have, and the figure of each for getpriority: 20 less the value.
abbrev pub in_range : ℤ → Bool
in_range (pos n) = ltb n 20
in_range (negsuc n) = ltb n 20

abbrev pub priority_figure : ℤ → ℤ
priority_figure (pos n) = pos (20 - n)
priority_figure (negsuc n) = pos (21 + n)

-- The nice value that is nearest to a number.
abbrev pub nearest : ℤ → ℤ
nearest (pos n) = if ltb n 20 then pos n else pos 19
nearest (negsuc n) = if ltb n 20 then negsuc n else negsuc 19

-- The same tasks with the same nice values.
pub record Same (K : PrioKernel) (w w' : K.World) : Type 0 where
  pub table : K.table w' ≡ K.table w
  pub nice : (p : ℕ) → K.task_nice p w' ≡ K.task_nice p w

-- What is assumed of the kernel.
pub record Documented (K : PrioKernel) : Type 0 where
  pub user_exists : ℕ → K.Table → Bool
  pub found : (uid : ℕ) (w : K.World) → (K.find_user uid w).0 ≡ user_exists uid (K.table w)
  pub find_user-Same : (uid : ℕ) (w : K.World) → Same K w (K.find_user uid w).1
  pub free_uid-Same : (w : K.World) → Same K w (K.free_uid w)
  pub ns_capable-Same : (p : ℕ) (w : K.World) → Same K w (K.ns_capable p w).1
  pub can_nice-Same : (p : ℕ) (n : ℤ) (w : K.World) → Same K w (K.can_nice p n w).1
  pub setnice-Same : (p : ℕ) (n : ℤ) (w : K.World) → Same K w (K.security_task_setnice p n w).1
  -- No security module answers -ESRCH.
  pub setnice-answer :
      (p : ℕ) (n : ℤ) (w : K.World) → same_ℤ (K.security_task_setnice p n w).0 minus_esrch ≡ false
  pub task_nice_range : (p : ℕ) (w : K.World) → in_range (K.task_nice p w) ≡ true
  pub nice_to_rlimit-figure : (n : ℤ) → in_range n ≡ true → K.nice_to_rlimit n ≡ priority_figure n
  pub set_user_nice-table :
      (p : ℕ) (n : ℤ) (w : K.World) → K.table (K.set_user_nice p n w) ≡ K.table w
  -- A value that no task can have is not set.
  pub set_user_nice-nice :
      (p : ℕ) (n : ℤ) (w : K.World) (q : ℕ)
      → in_range n ≡ true
      → K.task_nice q (K.set_user_nice p n w) ≡ (if q == p then n else K.task_nice q w)

abbrev pub Same-refl : (K : PrioKernel) (w : K.World) → Same K w w
Same-refl K w = record { table = refl; nice = λ p. refl }

pub Same-trans : (K : PrioKernel) (w w1 w2 : K.World) → Same K w w1 → Same K w1 w2 → Same K w w2
Same-trans K w w1 w2 a b = record { table = b.table ∙ a.table; nice = λ p. b.nice p ∙ a.nice p }

-- Visits of tasks in a row, each related by R: the error before, the world before, and both after.
pub data Steps (K : PrioKernel) (R : ℕ → ℤ → K.World → ℤ → K.World → Type 0)
    : List ℕ → ℤ → K.World → ℤ → K.World → Type 0 where
  done : {e : ℤ} {w w' : K.World} → Same K w w' → Steps K R [] e w e w'
  skip :
      {ps : List ℕ} {e r : ℤ} {w w1 w2 : K.World}
      → Same K w w1
      → Steps K R ps e w1 r w2
      → Steps K R ps e w r w2
  next :
      {p : ℕ} {ps : List ℕ} {e r r' : ℤ} {w w1 w2 : K.World}
      → R p e w r w1
      → K.table w1 ≡ K.table w
      → Steps K R ps r w1 r' w2
      → Steps K R (p ∷ ps) e w r' w2

abbrev pub belonging : (K : PrioKernel) → ℕ → List ℕ → K.Table → List ℕ
belonging K uid [] t = []
belonging K uid (p ∷ ps) t =
    let rest = belonging K uid ps t in if belongs K uid p t then p ∷ rest else rest

abbrev pub to_list : Option ℕ → List ℕ
to_list none = []
to_list (some p) = p ∷ []

-- The tasks that the arguments stand for.
unfoldable pub selected : (K : PrioKernel) → Documented K → (which who : ℤ) → K.Table → List ℕ
selected K doc which who t =
    let uid = user_of K who t in
    if same_ℤ which prio_process
    then to_list (task_of K who t)
    else if same_ℤ which prio_pgrp
    then K.group_threads (pgrp_of K who t) t
    else if uid == K.cred_uid t || doc.user_exists uid t
    then belonging K uid (K.process_threads t) t
    else []

module _ (K : PrioKernel) (R : ℕ → ℤ → K.World → ℤ → K.World → Type 0) where
  pub snoc_Steps :
      {ps : List ℕ} {e r : ℤ} {w w1 w2 : K.World}
      → Steps K R ps e w r w1
      → Same K w1 w2
      → Steps K R ps e w r w2
  snoc_Steps (done same) same' = done (Same-trans K _ _ _ same same')
  snoc_Steps (skip same steps) same' = skip same (snoc_Steps steps same')
  snoc_Steps (next r kept steps) same' = next r kept (snoc_Steps steps same')

  pub Steps-table :
      {ps : List ℕ} {e r : ℤ} {w w' : K.World} → Steps K R ps e w r w' → K.table w' ≡ K.table w
  Steps-table (done same) = same.table
  Steps-table (skip same steps) = Steps-table steps ∙ same.table
  Steps-table (next r kept steps) = Steps-table steps ∙ kept

  -- A run that visited these tasks and left what is held as given.
  abbrev pub Ran : List ℕ → ℤ → K.World → List Resource → Option (ℤ × Machine K.World) → Type 0
  Ran ps e w held none = ⊥
  Ran ps e w held (some (r, s)) = (s.held ≡ held) × Steps K R ps e w r s.world

  -- One visit.
  abbrev pub Visited : ℕ → ℤ → K.World → List Resource → Option (ℤ × Machine K.World) → Type 0
  Visited p e w held none = ⊥
  Visited p e w held (some (r, s)) =
      (s.held ≡ held) × R p e w r s.world × (K.table s.world ≡ K.table w)
