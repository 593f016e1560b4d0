-- ===== src/Priorities/RoundTrip.antt =====
-- getpriority gives what setpriority has set.
use sistemas_operativos.Prelude.{
  ℕ, ◌≡◌, refl, sym, ap, ◌∙◌, false, ◌||◌, Bool-cases, inl, inr, Option, none, some, List, [], ◌∷◌,
}
use mathlib.Core.Path.{subst}
use mathlib.Core.Option.{some-injective}
use mathlib.Core.List.{Memᴰ}
use sistemas_operativos.Prelude.Int.{ℤ, pos}
use sistemas_operativos.Kernel.Errno.{minus_einval}
use sistemas_operativos.Kernel.Machine.{Machine}
use sistemas_operativos.Creds.{is_zero}
use sistemas_operativos.Priorities.{
  PrioKernel, prio_process, prio_user, less, setpriority, getpriority, visit_locked,
}
use sistemas_operativos.Priorities.Select.{priority_figure, nearest, Documented, selected}
use sistemas_operativos.Priorities.Greatest.{Found, getpriority-Found}
use sistemas_operativos.Priorities.Outcome.{AllNice, Set, setpriority-Set, absurd_Bool}

module _ (K : PrioKernel) (doc : Documented K) where
  AllNice-mem :
      (n : ℤ) (ps : List ℕ) (w : K.World) (p : ℕ)
      → AllNice K n ps w
      → Memᴰ p ps
      → K.task_nice p w ≡ n
  AllNice-mem n [] w p all m = elim m [ ]
  AllNice-mem n (q ∷ ps) w p (at, all) (Memᴰ.head e) = ap (λ p. K.task_nice p w) e ∙ at
  AllNice-mem n (q ∷ ps) w p (at, all) (Memᴰ.tail m) = AllNice-mem n ps w p all m

  valid_if_zero :
      (which who niceval : ℤ) (s s' : Machine K.World)
      → setpriority K which who niceval s ≡ some (pos 0, s')
      → (less prio_user which || less which prio_process) ≡ false
  unfolding setpriority visit_locked
  valid_if_zero which who niceval s s' e =
      elim (Bool-cases (less prio_user which || less which prio_process)) [
        | inr valid ↦ valid
        | inl invalid ↦
            let refused : setpriority K which who niceval s ≡ some (minus_einval, s) =
              rw invalid refl in
            let same = some-injective (minus_einval, s) (pos 0, s') (sym refused ∙ e) in
            absurd (absurd_Bool (sym (ap (λ x. is_zero x.0) same)))
      ]

  go_Found :
      (n : ℤ) (ps : List ℕ) (s' : Machine K.World) (p : ℕ)
      → Memᴰ p ps
      → AllNice K n ps s'.world
      → (o : Option (ℤ × Machine K.World)) → Found K ps s' o
      → (s'' : Machine K.World) × (o ≡ some (priority_figure n, s''))
  go_Found n ps s' p m all none found = absurd found
  go_Found n ps s' p m all (some (r, s'')) (held, same, inl (empty, e)) =
      elim (subst (λ qs. Memᴰ p qs) empty m) [ ]
  go_Found n ps s' p m all (some (r, s'')) (held, same, inr (q, mq, e, most)) =
      (s'', ap (λ r. some (r, s'')) (e ∙ ap priority_figure (AllNice-mem n ps s'.world q all mq)))

  -- If setpriority returns 0, then getpriority with the same arguments, of a process, a group or a
  -- user, returns 20 less the value between -20 and 19 that is nearest to the given one.
  pub setpriority-getpriority :
      (which who niceval : ℤ) (s s' : Machine K.World)
      → setpriority K which who niceval s ≡ some (pos 0, s')
      → (s'' : Machine K.World) × (getpriority K which who s'
          ≡ some (priority_figure (nearest niceval), s''))
  setpriority-getpriority which who niceval s s' e =
      let valid = valid_if_zero which who niceval s s' e in
      let (held, table, framed, ends) =
        subst (Set K (nearest niceval) (selected K doc which who (K.table s.world)) s) e
          (setpriority-Set K doc which who niceval s valid) in
      let found =
        subst (λ t. Found K (selected K doc which who t) s' (getpriority K which who s')) table
          (getpriority-Found K doc which who s' valid) in
      elim ends [
        | inl (zero_, (p, m), all) ↦
            go_Found (nearest niceval) (selected K doc which who (K.table s.world)) s' p m all
              (getpriority K which who s') found
        | inr bad ↦ absurd (absurd_Bool bad)
      ]
