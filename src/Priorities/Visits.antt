-- ===== src/Priorities/Visits.antt =====
-- Both calls visit the tasks they select, one after the other, and give back the locks.
use sistemas_operativos.Prelude.{
  ℕ, ◌≡◌, refl, sym, ◌∙◌, Bool, true, false, ◌||◌, ◌==◌, if◌then◌else◌, Bool-cases, inl, inr,
  Option, none, some, List, [], ◌∷◌,
}
use mathlib.Core.Path.{subst}
use sistemas_operativos.Prelude.Int.{ℤ}
use sistemas_operativos.Kernel.Errno.{minus_esrch}
use sistemas_operativos.Kernel.Machine.{
  Machine, Resource, M, rcu_lock, tasklist_lock, user_reference,
}
use sistemas_operativos.Sessions.{same_ℤ}
use sistemas_operativos.Priorities.{
  PrioKernel, prio_process, prio_pgrp, prio_user, less, belongs, task_of, pgrp_of, user_of,
  unlock_tasks, put_user_reference, unlock_visits, visit_found, visit_all, visit_group, visit_if,
  visit_user, visit_processes, visit_if_found, visit_own_or_found, visit_which, visit_locked,
}
use sistemas_operativos.Priorities.Select.{
  Same, Documented, Same-refl, Steps, done, skip, next, belonging, to_list, selected, snoc_Steps,
  Ran, Visited,
}

module _ (K : PrioKernel) (R : ℕ → ℤ → K.World → ℤ → K.World → Type 0) where
  map_Ran :
      (ps ps' : List ℕ) (e e' : ℤ) (w w' : K.World) (held held' : List Resource)
      (o : Option (ℤ × Machine K.World))
      → held' ≡ held
      → ((r : ℤ) (w2 : K.World) → Steps K R ps' e' w' r w2 → Steps K R ps e w r w2)
      → Ran K R ps' e' w' held' o
      → Ran K R ps e w held o
  map_Ran ps ps' e e' w w' held held' none same more ran = ran
  map_Ran ps ps' e e' w w' held held' (some (r, s)) same more (held_, steps) =
      (held_ ∙ same, more r s.world steps)

  -- A visit, and what follows it.
  next_Ran :
      (p : ℕ) (ps : List ℕ) (e : ℤ) (w : K.World) (held : List Resource)
      (o : Option (ℤ × Machine K.World)) (k : ℤ → M K.World ℤ)
      → Visited K R p e w held o
      → ((r : ℤ) (s : Machine K.World)
          → K.table s.world ≡ K.table w
          → Ran K R ps r s.world s.held (k r s))
      → Ran K R (p ∷ ps) e w held (elim o [ none ↦ none | some (r, s) ↦ k r s ])
  next_Ran p ps e w held none k v rest = elim v [ ]
  next_Ran p ps e w held (some (r, s)) k (same, step, kept) rest =
      map_Ran (p ∷ ps) ps e r w s.world held s.held (k r s) same
        (λ r' w2 steps. next step kept steps) (rest r s kept)

  -- The release of a lock, or of the reference to the user, after the visits.
  Releases : Resource → (ℤ → M K.World ℤ) → Type 0
  Releases lock k =
      (r : ℤ) (w : K.World) (held : List Resource)
      → (w' : K.World) × (k r (record { world = w; held = lock ∷ held })
          ≡ some (r, record { world = w'; held = held }))
        × Same K w w'

  release_Ran :
      (ps : List ℕ) (e : ℤ) (w : K.World) (held : List Resource) (lock : Resource)
      (o : Option (ℤ × Machine K.World)) (k : ℤ → M K.World ℤ)
      → Releases lock k
      → Ran K R ps e w (lock ∷ held) o
      → Ran K R ps e w held (elim o [ none ↦ none | some (r, s) ↦ k r s ])
  unfolding Releases
  release_Ran ps e w held lock none k frees ran = ran
  release_Ran ps e w held lock (some (r, s)) k frees (same, steps) =
      let (w', said, kept) = frees r s.world held in
      subst (λ h. Ran K R ps e w held (k r (record { world = s.world; held = h }))) (sym same)
        (subst (λ o. Ran K R ps e w held o) (sym said) (refl, snoc_Steps K R steps kept))

  unlock_tasks-Releases : Releases tasklist_lock (unlock_tasks K)
  unfolding Releases unlock_tasks
  unlock_tasks-Releases r w held = (w, refl, Same-refl K w)

  unlock_visits-Releases : Releases rcu_lock (unlock_visits K)
  unfolding Releases unlock_visits
  unlock_visits-Releases r w held = (w, refl, Same-refl K w)

  put_user_reference-Releases : Documented K → Releases user_reference (put_user_reference K)
  unfolding Releases put_user_reference
  put_user_reference-Releases doc r w held = (K.free_uid w, refl, doc.free_uid-Same w)

  module _ (visit : ℕ → ℤ → M K.World ℤ)
      (visited : (p : ℕ) (e : ℤ) (s : Machine K.World)
        → Visited K R p e s.world s.held (visit p e s)) where
    visit_all-Ran :
        (ps : List ℕ) (e : ℤ) (s : Machine K.World)
        → Ran K R ps e s.world s.held (visit_all K visit ps e s)
    unfolding visit_all
    visit_all-Ran [] e s = (refl, done (Same-refl K s.world))
    visit_all-Ran (p ∷ ps) e s =
        next_Ran p ps e s.world s.held (visit p e s) (visit_all K visit ps) (visited p e s)
          (λ r s' same. visit_all-Ran ps r s')

    -- The loop over all threads, of which those of the user are visited.
    visit_user-Ran :
        (uid : ℕ) (ps : List ℕ) (e : ℤ) (s : Machine K.World) (t : K.Table)
        → K.table s.world ≡ t
        → Ran K R (belonging K uid ps t) e s.world s.held (visit_user K visit uid ps e s)
    unfolding visit_user visit_if
    visit_user-Ran uid [] e s t at = (refl, done (Same-refl K s.world))
    visit_user-Ran uid (p ∷ ps) e s t at = elim (Bool-cases (belongs K uid p t)) [
      | inl mine ↦
          rw (at, mine)
            (next_Ran p (belonging K uid ps t) e s.world s.held (visit p e s)
              (visit_user K visit uid ps) (visited p e s)
              (λ r s' same. visit_user-Ran uid ps r s' t (same ∙ at)))
      | inr other ↦ rw (at, other) (visit_user-Ran uid ps e s t at)
    ]

    visit_found-Ran :
        (o : Option ℕ) (e : ℤ) (s : Machine K.World)
        → Ran K R (to_list o) e s.world s.held (visit_found K visit o e s)
    unfolding visit_found
    visit_found-Ran none e s = (refl, done (Same-refl K s.world))
    visit_found-Ran (some p) e s = go (visit p e s) (visited p e s)
      where
        go :
            (o : Option (ℤ × Machine K.World))
            → Visited K R p e s.world s.held o
            → Ran K R (p ∷ []) e s.world s.held o
        go none v = elim v [ ]
        go (some (r, s')) (held, step, same) = (held, next step same (done (Same-refl K s'.world)))

    visit_group-Ran :
        (pgrp : ℕ) (e : ℤ) (s : Machine K.World)
        → Ran K R
            (K.group_threads pgrp (K.table s.world))
            e
            s.world
            s.held
            (visit_group K visit pgrp e s)
    unfolding visit_group
    visit_group-Ran pgrp e s =
        let ps = K.group_threads pgrp (K.table s.world) in
        let s' : Machine K.World = record s { held = tasklist_lock ∷ s.held } in
        release_Ran ps e s.world s.held tasklist_lock (visit_all K visit ps e s') (unlock_tasks K)
          unlock_tasks-Releases (visit_all-Ran ps e s')

    module _ (doc : Documented K) where
      -- The tasks of a user whose reference is taken.
      visit_if_found-Ran :
          (uid : ℕ) (e : ℤ) (found : Bool) (s : Machine K.World) (t : K.Table)
          → K.table s.world ≡ t
          → Ran K R
              (if found then belonging K uid (K.process_threads t) t else [])
              e
              s.world
              s.held
              (visit_if_found K visit uid e found s)
      unfolding visit_if_found visit_processes
      visit_if_found-Ran uid e false s t at = (refl, done (Same-refl K s.world))
      visit_if_found-Ran uid e true s t at =
          let t' = K.table s.world in
          let ps = K.process_threads t' in
          let s' : Machine K.World = record s { held = user_reference ∷ s.held } in
          rw (← at) (
            release_Ran (belonging K uid ps t') e s.world s.held user_reference
              (visit_user K visit uid ps e s') (put_user_reference K)
              (put_user_reference-Releases doc) (visit_user-Ran uid ps e s' t' refl))

      visit_own_or_found-Ran :
          (uid : ℕ) (e : ℤ) (own : Bool) (s : Machine K.World)
          → Ran K R
              (if own || doc.user_exists uid (K.table s.world)
                then belonging K uid (K.process_threads (K.table s.world)) (K.table s.world)
                else [])
              e
              s.world
              s.held
              (visit_own_or_found K visit uid e own s)
      unfolding visit_own_or_found visit_processes
      visit_own_or_found-Ran uid e true s =
          visit_user-Ran uid (K.process_threads (K.table s.world)) e s (K.table s.world) refl
      visit_own_or_found-Ran uid e false s =
          let found = K.find_user uid s.world in
          let same = doc.find_user-Same uid s.world in
          let t = K.table s.world in
          let ps = if doc.user_exists uid t then belonging K uid (K.process_threads t) t else [] in
          map_Ran ps ps e e s.world found.1 s.held s.held
            (visit_if_found K visit uid e found.0 (record s { world = found.1 })) refl
            (λ r w2 steps. skip same steps)
            (subst
              (λ b.
                Ran K R (if b then belonging K uid (K.process_threads t) t else []) e found.1 s.held
                  (visit_if_found K visit uid e found.0 (record s { world = found.1 })))
              (doc.found uid s.world)
              (visit_if_found-Ran uid e found.0 (record s { world = found.1 }) t same.table))

      visit_which-Ran :
          (which who e : ℤ) (s : Machine K.World)
          → Ran K R
              (selected K doc which who (K.table s.world))
              e
              s.world
              s.held
              (visit_which K visit which who e s)
      unfolding visit_which selected
      visit_which-Ran which who e s = elim (Bool-cases (same_ℤ which prio_process)) [
        | inl process ↦ rw process (visit_found-Ran (task_of K who (K.table s.world)) e s)
        | inr other ↦ elim (Bool-cases (same_ℤ which prio_pgrp)) [
          | inl group ↦ rw (other, group) (visit_group-Ran (pgrp_of K who (K.table s.world)) e s)
          | inr user ↦
              rw (other, user)
                (let uid = user_of K who (K.table s.world) in
                  visit_own_or_found-Ran uid e (uid == K.cred_uid (K.table s.world)) s)
        ]
      ]

      -- Both calls: -EINVAL and nothing done, or visits of the selected tasks.
      pub visit_locked-Ran :
          (which who : ℤ) (s : Machine K.World)
          → (less prio_user which || less which prio_process) ≡ false
          → Ran K R
              (selected K doc which who (K.table s.world))
              minus_esrch
              s.world
              s.held
              (visit_locked K visit which who s)
      unfolding visit_locked
      visit_locked-Ran which who s valid =
          let s' : Machine K.World = record s { held = rcu_lock ∷ s.held } in
          rw valid (
            release_Ran (selected K doc which who (K.table s.world)) minus_esrch s.world s.held
              rcu_lock (visit_which K visit which who minus_esrch s') (unlock_visits K)
              unlock_visits-Releases (visit_which-Ran which who minus_esrch s'))
