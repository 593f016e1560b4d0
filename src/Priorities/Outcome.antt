-- ===== src/Priorities/Outcome.antt =====
-- How setpriority ends, and that getpriority then gives the value that was set.
use sistemas_operativos.Prelude.{
  ℕ, ◌≡◌, refl, sym, ap, ◌∙◌, true, false, ◌||◌, ◌⊎◌, ◌==◌, ==_iff, if◌then◌else◌, Bool-cases, inl,
  inr, Option, none, some, List, [], ◌∷◌, arith,
}
use mathlib.Core.Path.{subst}
use mathlib.Core.List.{Memᴰ}
use sistemas_operativos.Prelude.Int.{ℤ, pos, negsuc}
use sistemas_operativos.Kernel.Errno.{minus_esrch}
use sistemas_operativos.Kernel.Machine.{Machine}
use sistemas_operativos.Creds.{is_zero}
use sistemas_operativos.Sessions.{same_ℤ}
use sistemas_operativos.Priorities.{
  PrioKernel, prio_process, prio_user, less, clamp, set_one_prio, setpriority,
}
use sistemas_operativos.Priorities.Select.{
  in_range, nearest, Documented, Steps, done, skip, next, selected, Steps-table, Ran,
}
use sistemas_operativos.Priorities.Visits.{visit_locked-Ran}
use sistemas_operativos.Priorities.Nice.{Sets, set_one_prio-Visited}

same_ℤ-eq : (m n : ℤ) → same_ℤ m n ≡ true → m ≡ n
same_ℤ-eq (pos m) (pos n) e = ap pos ((==_iff m n).0 e)
same_ℤ-eq (negsuc m) (negsuc n) e = ap negsuc ((==_iff m n).0 e)
same_ℤ-eq (pos m) (negsuc n) e = ground arith
same_ℤ-eq (negsuc m) (pos n) e = ground arith

is_zero-eq : (r : ℤ) → is_zero r ≡ true → r ≡ pos 0
is_zero-eq (pos m) e = ap pos ((==_iff m 0).0 e)
is_zero-eq (negsuc m) e = ground arith

-- The tests of setpriority bring a value to the nearest nice value.
pub clamp-nearest : (n : ℤ) → clamp n ≡ nearest n
unfolding clamp
clamp-nearest (pos n) = ground arith
clamp-nearest (negsuc n) = ground arith

in_range-nearest : (n : ℤ) → in_range (nearest n) ≡ true
in_range-nearest (pos n) = ground arith
in_range-nearest (negsuc n) = ground arith

in_range-clamp : (n : ℤ) → in_range (clamp n) ≡ true
in_range-clamp n = ap in_range (clamp-nearest n) ∙ in_range-nearest n

pub absurd_Bool : true ≡ false → ⊥
absurd_Bool e = ground arith

module _ (K : PrioKernel) (n : ℤ) where
  -- Every task has the value.
  abbrev pub AllNice : List ℕ → K.World → Type 0
  AllNice [] w = Unit
  AllNice (p ∷ ps) w = (K.task_nice p w ≡ n) × AllNice ps w

  -- A task keeps its value or is one of these and gets the new one.
  abbrev pub Framed : List ℕ → K.World → K.World → Type 0
  Framed ps w w' =
      (q : ℕ) → (K.task_nice q w' ≡ K.task_nice q w) ⊎ (Memᴰ q ps × (K.task_nice q w' ≡ n))

  first_Framed :
      (p : ℕ) (ps : List ℕ) (e r : ℤ) (w w1 w' : K.World) (q : ℕ)
      → Sets K n p e w r w1
      → (K.task_nice q w' ≡ K.task_nice q w1) ⊎ (Memᴰ q ps × (K.task_nice q w' ≡ n))
      → (K.task_nice q w' ≡ K.task_nice q w) ⊎ (Memᴰ q (p ∷ ps) × (K.task_nice q w' ≡ n))
  first_Framed p ps e r w w1 w' q step (inr (m, set)) = inr (Memᴰ.tail m, set)
  first_Framed p ps e r w w1 w' q (inr (error, stays, kept)) (inl same) = inl (same ∙ kept q)
  first_Framed p ps e r w w1 w' q (inl (cleared, set)) (inl same) = elim (Bool-cases (q == p)) [
    | inl at ↦ inr (Memᴰ.head ((==_iff q p).0 at), same ∙ set q ∙ rw at refl)
    | inr other ↦ inl (same ∙ set q ∙ rw other refl)
  ]

  Steps-Framed :
      (ps : List ℕ) (e r : ℤ) (w w' : K.World) → Steps K (Sets K n) ps e w r w' → Framed ps w w'
  Steps-Framed ps e r w w' (done same) q = inl (same.nice q)
  Steps-Framed ps e r w w' (skip {w1 = w1} same steps) q =
      elim (Steps-Framed ps e r w1 w' steps q) [
        | inl kept ↦ inl (kept ∙ same.nice q)
        | inr set ↦ inr set
      ]
  Steps-Framed ps e r w w' (next {p = p} {ps = ps'} {r = r'} {w1 = w1} step kept steps) q =
      first_Framed p ps' e r' w w1 w' q step (Steps-Framed ps' r' r w1 w' steps q)

  AllNice-Framed : (qs ps : List ℕ) (w w' : K.World) → Framed ps w w' → AllNice qs w → AllNice qs w'
  AllNice-Framed [] ps w w' framed all = tt
  AllNice-Framed (q ∷ qs) ps w w' framed (at, all) =
      (still (framed q), AllNice-Framed qs ps w w' framed all)
    where
      still :
          (K.task_nice q w' ≡ K.task_nice q w) ⊎ (Memᴰ q ps × (K.task_nice q w' ≡ n))
          → K.task_nice q w' ≡ n
      still (inl kept) = kept ∙ at
      still (inr (m, set)) = set

  -- The result 0 stands for values set throughout, after an error that a success clears.
  Cleared : List ℕ → ℤ → K.World → Type 0
  Cleared ps e w' = ((e ≡ pos 0) ⊎ (e ≡ minus_esrch)) × AllNice ps w'

  -- The error that a step which set the value started from.
  before_Cleared :
      (ps : List ℕ) (e r : ℤ) (w' : K.World)
      → r ≡ (if same_ℤ e minus_esrch then pos 0 else e)
      → Cleared ps r w'
      → (e ≡ pos 0) ⊎ (e ≡ minus_esrch)
  unfolding Cleared
  before_Cleared ps e r w' kept (cleared, all) = elim (Bool-cases (same_ℤ e minus_esrch)) [
    | inl none_yet ↦ inr (same_ℤ-eq e minus_esrch none_yet)
    | inr other ↦ subst (λ x. (x ≡ pos 0) ⊎ (x ≡ minus_esrch)) (kept ∙ rw other refl) cleared
  ]

  not_Cleared :
      (ps : List ℕ) (r : ℤ) (w' : K.World)
      → is_zero r ≡ false
      → same_ℤ r minus_esrch ≡ false
      → Cleared ps r w'
      → ⊥
  unfolding Cleared
  not_Cleared ps r w' error stays (inl e, all) = absurd_Bool (sym (ap is_zero e) ∙ error)
  not_Cleared ps r w' error stays (inr e, all) =
      absurd_Bool (sym (ap (λ x. same_ℤ x minus_esrch) e) ∙ stays)

  first_Cleared :
      (p : ℕ) (ps : List ℕ) (e r : ℤ) (w w1 w' : K.World)
      → Sets K n p e w r w1
      → Framed ps w1 w'
      → Cleared ps r w'
      → Cleared (p ∷ ps) e w'
  unfolding Cleared
  first_Cleared p ps e r w w1 w' (inr (error, stays, same)) framed cleared =
      absurd (not_Cleared ps r w' error stays cleared)
  first_Cleared p ps e r w w1 w' (inl (kept, set)) framed cleared = (
    before_Cleared ps e r w' kept cleared,
    (
      (AllNice-Framed (p ∷ []) ps w1 w' framed (set p ∙ rw ((==_iff p p).1 refl) refl, tt)).0,
      cleared.1,
    ),
  )

  Steps-Cleared :
      (ps : List ℕ) (e r : ℤ) (w w' : K.World)
      → r ≡ pos 0
      → Steps K (Sets K n) ps e w r w'
      → Cleared ps e w'
  unfolding Cleared
  Steps-Cleared ps e r w w' zero_ (done same) = (inl zero_, tt)
  Steps-Cleared ps e r w w' zero_ (skip {w1 = w1} same steps) =
      Steps-Cleared ps e r w1 w' zero_ steps
  Steps-Cleared ps e r w w' zero_ (next {p = p} {ps = ps'} {r = r'} {w1 = w1} step kept steps) =
      first_Cleared p ps' e r' w w1 w' step (Steps-Framed ps' r' r w1 w' steps)
        (Steps-Cleared ps' r' r w1 w' zero_ steps)

  -- The result 0: some task was there, and every one has the value now. Otherwise an error.
  abbrev pub Ends : List ℕ → ℤ → K.World → Type 0
  Ends ps r w' = ((r ≡ pos 0) × ((p : ℕ) × Memᴰ p ps) × AllNice ps w') ⊎ (is_zero r ≡ false)

  nil_Steps : (e r : ℤ) (w w' : K.World) → Steps K (Sets K n) [] e w r w' → r ≡ e
  nil_Steps e r w w' (done same) = refl
  nil_Steps e r w w' (skip {w1 = w1} same steps) = nil_Steps e r w1 w' steps

  Steps-Ends :
      (ps : List ℕ) (r : ℤ) (w w' : K.World)
      → Steps K (Sets K n) ps minus_esrch w r w'
      → Ends ps r w'
  unfolding Cleared
  Steps-Ends ps r w w' steps = elim (Bool-cases (is_zero r)) [
    | inr error ↦ inr error
    | inl zero_ ↦
        let none_left = is_zero-eq r zero_ in
        inl (
          none_left,
          some_task ps r w w' none_left steps,
          (Steps-Cleared ps minus_esrch r w w' none_left steps).1,
        )
  ]
    where
      some_task :
          (ps : List ℕ) (r : ℤ) (w w' : K.World)
          → r ≡ pos 0
          → Steps K (Sets K n) ps minus_esrch w r w'
          → (p : ℕ) × Memᴰ p ps
      some_task (p ∷ ps) r w w' e steps = (p, Memᴰ.head refl)
      some_task [] r w w' e steps =
          absurd
            (absurd_Bool (sym (ap is_zero e) ∙ ap is_zero (nil_Steps minus_esrch r w w' steps)))

  abbrev pub Set : List ℕ → Machine K.World → Option (ℤ × Machine K.World) → Type 0
  Set ps s none = ⊥
  Set ps s (some (r, s')) =
      (s'.held ≡ s.held)
      × (K.table s'.world ≡ K.table s.world)
      × Framed ps s.world s'.world
      × Ends ps r s'.world

module _ (K : PrioKernel) (doc : Documented K) where
  -- If no security module answers -ESRCH, setpriority of a valid kind ends without a fault, with the
  -- locks and references as before, and changes only nice values: of tasks that its arguments
  -- select, to the value between -20 and 19 that is nearest to the given one. It returns 0 only if some task was selected
  -- and all that were have this value.
  pub setpriority-Set :
      (which who niceval : ℤ) (s : Machine K.World)
      → (less prio_user which || less which prio_process) ≡ false
      → Set K
          (nearest niceval)
          (selected K doc which who (K.table s.world))
          s
          (setpriority K which who niceval s)
  unfolding setpriority
  setpriority-Set which who niceval s valid =
      subst (λ m. Set K m ps s (setpriority K which who niceval s)) (clamp-nearest niceval)
        (go (setpriority K which who niceval s) (
          visit_locked-Ran K (Sets K n) (λ p error. set_one_prio K p n error)
            (set_one_prio-Visited K n doc (in_range-clamp niceval)) doc which who s valid))
    where
      n : ℤ
      n = clamp niceval

      ps : List ℕ
      ps = selected K doc which who (K.table s.world)

      go :
          (o : Option (ℤ × Machine K.World))
          → Ran K (Sets K n) ps minus_esrch s.world s.held o
          → Set K n ps s o
      go none ran = ran
      go (some (r, s')) (held, steps) = (
        held,
        Steps-table K (Sets K n) steps,
        Steps-Framed K n ps minus_esrch r s.world s'.world steps,
        Steps-Ends K n ps r s.world s'.world steps,
      )
