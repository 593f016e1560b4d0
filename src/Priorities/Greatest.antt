-- ===== src/Priorities/Greatest.antt =====
-- getpriority finds the greatest figure of the tasks that it visits.
use sistemas_operativos.Prelude.{
  ℕ, ◌≡◌, refl, sym, ap, ◌∙◌, true, false, ◌||◌, ◌⊎◌, if◌then◌else◌, Bool-cases, inl, inr, Option,
  none, some, List, [], ◌∷◌, arith,
}
use mathlib.Core.Path.{subst}
use mathlib.Core.List.{Memᴰ}
use sistemas_operativos.Prelude.Int.{ℤ, pos, negsuc}
use sistemas_operativos.Kernel.Errno.{minus_esrch}
use sistemas_operativos.Kernel.Machine.{Machine}
use sistemas_operativos.Priorities.{
  PrioKernel, prio_process, prio_user, less, greater_prio, getpriority,
}
use sistemas_operativos.Priorities.Select.{
  priority_figure, Same, Documented, Same-trans, Steps, done, skip, next, selected, Ran, Visited,
}
use sistemas_operativos.Priorities.Visits.{visit_locked-Ran}

less_trans : (a b c : ℤ) → less b a ≡ false → less c b ≡ false → less c a ≡ false
less_trans (pos a) (pos b) (pos c) e f = ground arith
less_trans (pos a) (pos b) (negsuc c) e f = ground arith
less_trans (pos a) (negsuc b) (pos c) e f = ground arith
less_trans (pos a) (negsuc b) (negsuc c) e f = ground arith
less_trans (negsuc a) (pos b) (pos c) e f = refl
less_trans (negsuc a) (pos b) (negsuc c) e f = ground arith
less_trans (negsuc a) (negsuc b) (pos c) e f = refl
less_trans (negsuc a) (negsuc b) (negsuc c) e f = ground arith

less_asym : (a b : ℤ) → less a b ≡ true → less b a ≡ false
less_asym (pos a) (pos b) e = ground arith
less_asym (pos a) (negsuc b) e = ground arith
less_asym (negsuc a) (pos b) e = refl
less_asym (negsuc a) (negsuc b) e = ground arith

less_irrefl : (a : ℤ) → less a a ≡ false
less_irrefl (pos a) = ground arith
less_irrefl (negsuc a) = ground arith

-- The greater of two, as both calls compute it.
abbrev greater : ℤ → ℤ → ℤ
greater e x = if less e x then x else e

greater-left : (e x : ℤ) → less (greater e x) e ≡ false
greater-left e x = elim (Bool-cases (less e x)) [
  | inl lower ↦ rw lower (less_asym e x lower)
  | inr other ↦ rw other (less_irrefl e)
]

greater-right : (e x : ℤ) → less (greater e x) x ≡ false
greater-right e x = elim (Bool-cases (less e x)) [
  | inl lower ↦ rw lower (less_irrefl x)
  | inr other ↦ rw other other
]

module _ (x : ℕ → ℤ) where
  abbrev best : List ℕ → ℤ → ℤ
  best [] e = e
  best (p ∷ ps) e = best ps (greater e (x p))

  -- None of these figures is greater.
  abbrev pub AtMost : ℤ → List ℕ → Type 0
  AtMost r [] = Unit
  AtMost r (p ∷ ps) = (less r (x p) ≡ false) × AtMost r ps

  best-left : (ps : List ℕ) (e : ℤ) → less (best ps e) e ≡ false
  best-left [] e = less_irrefl e
  best-left (p ∷ ps) e =
      less_trans e (greater e (x p)) (best ps (greater e (x p))) (greater-left e (x p))
        (best-left ps (greater e (x p)))

  best-AtMost : (ps : List ℕ) (e : ℤ) → AtMost (best ps e) ps
  best-AtMost [] e = tt
  best-AtMost (p ∷ ps) e = (
    less_trans (x p) (greater e (x p)) (best ps (greater e (x p))) (greater-right e (x p))
        (best-left ps (greater e (x p))),
    best-AtMost ps (greater e (x p)),
  )

  best-cases : (ps : List ℕ) (e : ℤ) → (best ps e ≡ e) ⊎ ((p : ℕ) × Memᴰ p ps × (best ps e ≡ x p))
  best-cases [] e = inl refl
  best-cases (p ∷ ps) e = elim (best-cases ps (greater e (x p))) [
    | inr (q, m, same) ↦ inr (q, Memᴰ.tail m, same)
    | inl same ↦ elim (Bool-cases (less e (x p))) [
      | inl lower ↦ inr (p, Memᴰ.head refl, same ∙ rw lower refl)
      | inr other ↦ inl (same ∙ rw other refl)
    ]
  ]

  best-greatest :
      (ps : List ℕ) (e : ℤ)
      → ((p : ℕ) → less e (x p) ≡ true)
      → ((ps ≡ []) × (best ps e ≡ e))
        ⊎ ((p : ℕ) × Memᴰ p ps × (best ps e ≡ x p) × AtMost (best ps e) ps)
  best-greatest [] e above = inl (refl, refl)
  best-greatest (p ∷ ps) e above = elim (best-cases ps (greater e (x p))) [
    | inr (q, m, same) ↦ inr (q, Memᴰ.tail m, same, best-AtMost (p ∷ ps) e)
    | inl same ↦ inr (p, Memᴰ.head refl, same ∙ rw (above p) refl, best-AtMost (p ∷ ps) e)
  ]

figure_above : (n : ℤ) → less minus_esrch (priority_figure n) ≡ true
figure_above (pos n) = refl
figure_above (negsuc n) = refl

module _ (K : PrioKernel) where
  abbrev pub figure : K.World → ℕ → ℤ
  figure w p = priority_figure (K.task_nice p w)

  -- A visit of getpriority.
  abbrev Looks : ℕ → ℤ → K.World → ℤ → K.World → Type 0
  Looks p e w r w' = (w' ≡ w) × (r ≡ greater e (figure w p))

  greater_prio-Visited :
      Documented K
      → (p : ℕ) (e : ℤ) (s : Machine K.World)
      → Visited K Looks p e s.world s.held (greater_prio K p e s)
  unfolding greater_prio
  greater_prio-Visited doc p e s =
      let n = K.task_nice p s.world in
      (
        refl,
        (refl, ap (greater e) (doc.nice_to_rlimit-figure n (doc.task_nice_range p s.world))),
        refl,
      )

  Steps-Same : (ps : List ℕ) (e r : ℤ) (w w' : K.World) → Steps K Looks ps e w r w' → Same K w w'
  Steps-Same ps e r w w' (done same) = same
  Steps-Same ps e r w w' (skip {w1 = w1} same steps) =
      Same-trans K w w1 w' same (Steps-Same ps e r w1 w' steps)
  Steps-Same ps e r w w' (next {ps = ps'} {r = r'} {w1 = w1} (at, said) kept steps) =
      subst (λ v. Same K v w') at (Steps-Same ps' r' r w1 w' steps)

  Steps-best :
      (x : ℕ → ℤ) (ps : List ℕ) (e r : ℤ) (w w' : K.World)
      → ((p : ℕ) → figure w p ≡ x p)
      → Steps K Looks ps e w r w'
      → r ≡ best x ps e
  Steps-best x ps e r w w' seen (done same) = refl
  Steps-best x ps e r w w' seen (skip {w1 = w1} same steps) =
      Steps-best x ps e r w1 w' (λ p. ap priority_figure (same.nice p) ∙ seen p) steps
  Steps-best x ps e r w w' seen (next {p = p} {ps = ps'} {r = r'} {w1 = w1} (at, said) kept steps) =
      Steps-best x ps' r' r w1 w' (λ q. ap (λ v. figure v q) at ∙ seen q) steps
      ∙ ap (best x ps') (said ∙ ap (greater e) (seen p))

  abbrev pub Found : List ℕ → Machine K.World → Option (ℤ × Machine K.World) → Type 0
  Found ps s none = ⊥
  Found ps s (some (r, s')) =
      (s'.held ≡ s.held)
      × Same K s.world s'.world
      × (((ps ≡ []) × (r ≡ minus_esrch))
          ⊎ ((p : ℕ) × Memᴰ p ps × (r ≡ figure s.world p) × AtMost (figure s.world) r ps))

  -- getpriority of a valid kind ends without a fault, with the locks and references, the tasks and
  -- their nice values as before. It returns -ESRCH if its arguments select no task, and otherwise
  -- the figure, 20 less the nice value, of a selected task, and no selected task has a greater one.
  pub getpriority-Found :
      (doc : Documented K) (which who : ℤ) (s : Machine K.World)
      → (less prio_user which || less which prio_process) ≡ false
      → Found (selected K doc which who (K.table s.world)) s (getpriority K which who s)
  unfolding getpriority
  getpriority-Found doc which who s valid =
      go (getpriority K which who s)
        (visit_locked-Ran K Looks (greater_prio K) (greater_prio-Visited doc) doc which who s valid)
    where
      ps : List ℕ
      ps = selected K doc which who (K.table s.world)

      above : (p : ℕ) → less minus_esrch (figure s.world p) ≡ true
      above p = figure_above (K.task_nice p s.world)

      go :
          (o : Option (ℤ × Machine K.World))
          → Ran K Looks ps minus_esrch s.world s.held o
          → Found ps s o
      go none ran = ran
      go (some (r, s')) (held, steps) = (
        held,
        Steps-Same ps minus_esrch r s.world s'.world steps,
        subst
            (λ r.
              ((ps ≡ []) × (r ≡ minus_esrch))
              ⊎ ((p : ℕ) × Memᴰ p ps × (r ≡ figure s.world p) × AtMost (figure s.world) r ps))
            (sym (Steps-best (figure s.world) ps minus_esrch r s.world s'.world (λ p. refl) steps))
            (best-greatest (figure s.world) ps minus_esrch above),
      )
