-- ===== src/Limits/Confined.antt =====
-- The calls on limits keep the limits in order, and the hard limits of who is not privileged.
use sistemas_operativos.Prelude.{
  ℕ, ◌≤◌, ◌≡◌, refl, sym, ap, ◌∙◌, Bool, true, false, not, ◌&&◌, ◌==◌, ==_iff, ltb, leb,
  if◌then◌else◌, Bool-cases, inl, inr, ◌⊎◌, Option, none, some, List, ◌∷◌, arith,
}
use mathlib.Core.Path.{subst}
use sistemas_operativos.Prelude.Int.{ℤ}
use sistemas_operativos.Kernel.Machine.{Machine, Resource, task_lock}
use sistemas_operativos.Kernel.Keeps.{Kept, Keeps, pure-Keeps, if-Keeps, held-Kept}
use sistemas_operativos.Creds.{is_zero}
use sistemas_operativos.Limits.{
  Rlimit, RlimKernel, rlim_nlimits, rlimit_cpu, rlim_infinity, refuse_new, or_resource,
  ask_security, check_new, arm_timer, store_new, unless_refused, change_limit, do_prlimit,
}

-- The same limits.
abbrev pub Same : (K : RlimKernel) → K.World → K.World → Type 0
Same K w w' = (t r : ℕ) → K.rlim t r w' ≡ K.rlim t r w

-- What is assumed of the kernel. The threads of a process share their limits.
pub record Documented (K : RlimKernel) : Type 0 where
  pub privileged : Bool
  pub answer : (w : K.World) → (K.capable w).0 ≡ privileged
  pub shares : ℕ → ℕ → Bool
  pub shared : (t p r : ℕ) (w : K.World) → shares t p ≡ true → K.rlim t r w ≡ K.rlim p r w
  pub stored :
      (p q : ℕ) (new : Rlimit) (w : K.World) (t r : ℕ)
      → K.rlim t r (K.set_rlim p q new w) ≡ (if shares t p && (r == q) then new else K.rlim t r w)
  pub capable-Same : (w : K.World) → Same K w (K.capable w).1
  pub ns_capable-Same : (t : ℕ) (w : K.World) → Same K w (K.ns_capable t w).1
  pub setrlimit-Same :
      (t r : ℕ) (new : Rlimit) (w : K.World) → Same K w (K.security_task_setrlimit t r new w).1
  pub prlimit-Same :
      (t : ℕ) (a b : Bool) (w : K.World) → Same K w (K.security_task_prlimit t a b w).1
  pub cpu-Same : (t n : ℕ) (w : K.World) → Same K w (K.update_rlimit_cpu t n w)
  pub from-Same : (p : K.UserPtr) (w : K.World) → Same K w (K.copy_from_user p w).1
  pub to-Same : (p : K.UserPtr) (l : Rlimit) (w : K.World) → Same K w (K.copy_to_user p l w).1

module _ (K : RlimKernel) (doc : Documented K) (start : K.World) where
  -- No limit is above its hard limit, and no hard limit has grown unless the caller is privileged.
  abbrev pub Confined : K.World → Type 0
  Confined w =
      (t r : ℕ)
      → ((K.rlim t r w).rlim_cur ≤ (K.rlim t r w).rlim_max)
        × ((doc.privileged ≡ true) ⊎ ((K.rlim t r w).rlim_max ≤ (K.rlim t r start).rlim_max))

  pub Same-Confined : (w w' : K.World) → Same K w w' → Confined w → Confined w'
  Same-Confined w w' same c t r =
      subst
        (λ l.
          (l.rlim_cur ≤ l.rlim_max)
          × ((doc.privileged ≡ true) ⊎ (l.rlim_max ≤ (K.rlim t r start).rlim_max)))
        (sym (same t r)) (c t r)

  -- A new limit that may be stored.
  abbrev Fits : ℕ → ℕ → Rlimit → K.World → Type 0
  Fits p q new w =
      (new.rlim_cur ≤ new.rlim_max)
      × ((doc.privileged ≡ true) ⊎ (new.rlim_max ≤ (K.rlim p q w).rlim_max))

  set_rlim-Confined :
      (p q : ℕ) (new : Rlimit) (w : K.World)
      → Fits p q new w
      → Confined w
      → Confined (K.set_rlim p q new w)
  set_rlim-Confined p q new w fits c t r = elim (Bool-cases (doc.shares t p && (r == q))) [
    | inr other ↦ subst Bounded (sym (doc.stored p q new w t r ∙ rw other refl)) (c t r)
    | inl here ↦
        subst Bounded (sym (doc.stored p q new w t r ∙ rw here refl))
          (fits.0, bound fits.1 (c t r).1 (at_p here))
  ]
    where
      Bounded : Rlimit → Type 0
      Bounded l =
          (l.rlim_cur ≤ l.rlim_max)
          × ((doc.privileged ≡ true) ⊎ (l.rlim_max ≤ (K.rlim t r start).rlim_max))

      at_p : (doc.shares t p && (r == q)) ≡ true → K.rlim t r w ≡ K.rlim p q w
      at_p here =
          doc.shared t p r w (ground arith) ∙ ap (λ r. K.rlim p r w) ((==_iff r q).0 (ground arith))

      bound :
          ((doc.privileged ≡ true) ⊎ (new.rlim_max ≤ (K.rlim p q w).rlim_max))
          → ((doc.privileged ≡ true) ⊎ ((K.rlim t r w).rlim_max ≤ (K.rlim t r start).rlim_max))
          → K.rlim t r w ≡ K.rlim p q w
          → (doc.privileged ≡ true) ⊎ (new.rlim_max ≤ (K.rlim t r start).rlim_max)
      bound (inl root) b e = inl root
      bound (inr small) (inl root) e = inl root
      bound (inr small) (inr b) e =
          inr (omega (arith, small, subst (λ l. l.rlim_max ≤ (K.rlim t r start).rlim_max) e b))

  Same-Fits :
      (p q : ℕ) (new : Rlimit) (w w' : K.World) → Same K w w' → Fits p q new w → Fits p q new w'
  Same-Fits p q new w w' same fits = (
    fits.0,
    subst (λ l. (doc.privileged ≡ true) ⊎ (new.rlim_max ≤ l.rlim_max)) (sym (same p q)) fits.1,
  )

  -- The checks on a new limit end with an error or with a limit that may be stored.
  Checked : ℕ → ℕ → Rlimit → List Resource → Option (ℤ × Machine K.World) → Type 0
  Checked p q new held none = ⊥
  Checked p q new held (some (ret, s)) =
      (s.held ≡ held) × Confined s.world × ((is_zero ret ≡ false) ⊎ Fits p q new s.world)

  ask_security-Checked :
      (p q : ℕ) (new : Rlimit) (allowed : Bool) (s : Machine K.World)
      → ((allowed ≡ false) ⊎ Fits p q new s.world)
      → Confined s.world
      → Checked p q new s.held (ask_security K p q new allowed s)
  unfolding Checked ask_security
  ask_security-Checked p q new false s fits c = (refl, c, inl refl)
  ask_security-Checked p q new true s (inl bad) c = absurd (ground arith)
  ask_security-Checked p q new true s (inr fits) c =
      let asked = K.security_task_setrlimit p q new s.world in
      let same = doc.setrlimit-Same p q new s.world in
      (
        refl,
        Same-Confined s.world asked.1 same c,
        inr (Same-Fits p q new s.world asked.1 same fits),
      )

  or_resource-Checked :
      (p q : ℕ) (new : Rlimit) (raises : Bool) (s : Machine K.World)
      → new.rlim_cur ≤ new.rlim_max
      → ltb (K.rlim p q s.world).rlim_max new.rlim_max ≡ raises
      → Confined s.world
      → Checked p q new s.held (elim (or_resource K raises s) [
        | none ↦ none
        | some (allowed, s') ↦ ask_security K p q new allowed s'
      ])
  unfolding or_resource
  or_resource-Checked p q new false s order kept c =
      ask_security-Checked p q new true s (inr (order, inr (ground arith))) c
  or_resource-Checked p q new true s order raised c =
      let asked = K.capable s.world in
      ask_security-Checked p q new asked.0 (record s { world = asked.1 })
        (allowed (Bool-cases doc.privileged))
        (Same-Confined s.world asked.1 (doc.capable-Same s.world) c)
    where
      allowed :
          (doc.privileged ≡ true) ⊎ (doc.privileged ≡ false)
          → ((K.capable s.world).0 ≡ false) ⊎ Fits p q new (K.capable s.world).1
      allowed (inl root) = inr (order, inl root)
      allowed (inr plain) = inl (doc.answer s.world ∙ plain)

  arm_timer-Confined :
      (p q : ℕ) (new : Rlimit) (w : K.World) → Confined w → Confined (arm_timer K p q new w)
  unfolding arm_timer
  arm_timer-Confined p q new w c =
      elim (Bool-cases
        ((q == rlimit_cpu) && (not (new.rlim_cur == rlim_infinity) && K.posix_timers))) [
          | inl arms ↦ rw arms (Same-Confined w _ (doc.cpu-Same p new.rlim_cur w) c)
          | inr other ↦ rw other c
        ]

  store_new-Kept :
      (p q : ℕ) (new : Rlimit) (ret : ℤ) (s : Machine K.World) (held : List Resource)
      → s.held ≡ task_lock ∷ held
      → ((is_zero ret ≡ false) ⊎ Fits p q new s.world)
      → Confined s.world
      → Kept Confined held (store_new K p q new ret s)
  unfolding store_new Kept
  store_new-Kept p q new ret s held e fits c =
      held-Kept Confined (store_new K p q new ret) s (task_lock ∷ held) held e (stored fits)
    where
      stored :
          ((is_zero ret ≡ false) ⊎ Fits p q new s.world)
          → Kept Confined held
              (store_new K p q new ret (record { world = s.world; held = task_lock ∷ held }))
      stored (inl error) = rw error (refl, c)
      stored (inr fits) = elim (Bool-cases (is_zero ret)) [
        | inr error ↦ rw error (refl, c)
        | inl success ↦ rw success (
          refl,
          arm_timer-Confined p q new (K.set_rlim p q new s.world)
              (set_rlim-Confined p q new s.world fits c),
        )
      ]

  Checked-Kept :
      (p q : ℕ) (new : Rlimit) (held : List Resource) (o : Option (ℤ × Machine K.World))
      → Checked p q new (task_lock ∷ held) o
      → Kept Confined held (elim o [ none ↦ none | some (ret, s) ↦ store_new K p q new ret s ])
  unfolding Checked
  Checked-Kept p q new held none checked = elim checked [ ]
  Checked-Kept p q new held (some (ret, s)) (e, c, fits) =
      store_new-Kept p q new ret s held e fits c

  unless_refused-Keeps :
      (p q : ℕ) (new : Rlimit) (s : Machine K.World)
      → new.rlim_cur ≤ new.rlim_max
      → Confined s.world
      → Kept Confined s.held (unless_refused K p q new none s)
  unfolding unless_refused check_new
  unless_refused-Keeps p q new s order c =
      let s' : Machine K.World = record s { held = task_lock ∷ s.held } in
      Checked-Kept p q new s.held (check_new K p q new s') (
        or_resource-Checked p q new (ltb (K.rlim p q s.world).rlim_max new.rlim_max) s' order refl
          c)

  refuse_new-order :
      (q : ℕ) (new : Rlimit) (w : K.World)
      → refuse_new K q new w ≡ none
      → new.rlim_cur ≤ new.rlim_max
  unfolding refuse_new
  refuse_new-order q new w e = ground arith

  change_limit-Keeps : (p q : ℕ) (new : Option Rlimit) → Keeps Confined (change_limit K p q new)
  unfolding change_limit Keeps Kept
  change_limit-Keeps p q none s c = (refl, c)
  change_limit-Keeps p q (some new) s c = go (refuse_new K q new s.world) refl
    where
      go :
          (o : Option ℤ)
          → refuse_new K q new s.world ≡ o
          → Kept Confined s.held (unless_refused K p q new o s)
      go (some err) e = (refl, c)
      go none e = unless_refused-Keeps p q new s (refuse_new-order q new s.world e) c

  pub do_prlimit-Keeps : (p q : ℕ) (new : Option Rlimit) → Keeps Confined (do_prlimit K p q new)
  unfolding do_prlimit
  do_prlimit-Keeps p q new =
      if-Keeps Confined (leb rlim_nlimits q) _ (change_limit K p q new) (pure-Keeps Confined _)
        (change_limit-Keeps p q new)
