-- ===== src/Creds/Steps.antt =====
-- How each of the steps that the calls share ends.
use sistemas_operativos.Prelude.{
  ◌≡◌, refl, ap, ◌∙◌, inl, inr, some, List, ◌∷◌, Bool, true, false, ◌||◌, Bool-cases, Option-cases,
}
use sistemas_operativos.Prelude.Int.{ℤ}
use sistemas_operativos.Kernel.Errno.{minus_enomem}
use sistemas_operativos.Kernel.Machine.{M, Machine, Resource, ◌>>=◌, ◌>>◌, new_cred, release}
use sistemas_operativos.Creds.{
  Ids, Cred, CredKernel, Capability, Setid, is_negative, minus_eperm, with_new_cred, or_capable,
  or_eperm, commit, fix_setuid, fix_setgid, set_user, set_ucounts,
}
use sistemas_operativos.Creds.Documented.{
  Documented, no_memory, no_user, setuid_refused, setgid_refused, ucounts_refused,
}
use sistemas_operativos.Creds.Settled.{Starts, Working, Attempted, Settled}

module _ (K : CredKernel) (q : Documented K) (c : Cred K.Caps) (h : List Resource)
    (D : ℤ → Type 0) where
  open K use {World, Caps}

  pub or_eperm-Attempted :
      (test : Bool) (cap : Capability) (new : Cred Caps) (s : Machine World)
      → Working K q c h s
      → ((test || q.capable cap c) ≡ false → D minus_eperm)
      → Attempted K q c h D
          (λ n. (n ≡ new) × ((test || q.capable cap c) ≡ true))
          (or_eperm K test cap new s)
  unfolding or_eperm or_capable
  or_eperm-Attempted true cap new s w denied = (w, (refl, refl))
  or_eperm-Attempted false cap new s w denied = elim (Bool-cases (q.capable cap c)) [
    | inl yes_ ↦ rw (answered, yes_) ((q.current-capable cap s.world ∙ w.0, w.1), (refl, refl))
    | inr no_ ↦
        rw (answered, no_) ((q.current-capable cap s.world ∙ w.0, w.1), (refl, inr (denied no_)))
  ]
    where
      answered : (K.ns_capable_setid cap s.world).0 ≡ q.capable cap c
      answered = q.answer cap s.world ∙ ap (q.capable cap) w.0

  pub fix_setuid-Attempted :
      (flag : Setid) (old new : Cred Caps) (s : Machine World)
      → Working K q c h s
      → Attempted K q c h D (λ n. n.ids ≡ new.ids) (fix_setuid K flag old new s)
  unfolding fix_setuid
  fix_setuid-Attempted flag old new s w =
      elim (Bool-cases (is_negative (K.security_task_fix_setuid new old flag s.world).0.0)) [
        | inl bad ↦ rw bad (
          (q.current-fix_setuid new old flag s.world ∙ w.0, w.1),
          (bad, inl (setuid_refused new old flag s.world bad)),
        )
        | inr good ↦ rw good ((q.current-fix_setuid new old flag s.world ∙ w.0, w.1), refl)
      ]

  pub fix_setgid-Attempted :
      (flag : Setid) (old new : Cred Caps) (s : Machine World)
      → Working K q c h s
      → Attempted K q c h D (λ n. n.ids ≡ new.ids) (fix_setgid K flag old new s)
  unfolding fix_setgid
  fix_setgid-Attempted flag old new s w =
      elim (Bool-cases (is_negative (K.security_task_fix_setgid new old flag s.world).0.0)) [
        | inl bad ↦ rw bad (
          (q.current-fix_setgid new old flag s.world ∙ w.0, w.1),
          (bad, inl (setgid_refused new old flag s.world bad)),
        )
        | inr good ↦ rw good ((q.current-fix_setgid new old flag s.world ∙ w.0, w.1), refl)
      ]

  pub set_ucounts-Attempted :
      (new : Cred Caps) (s : Machine World)
      → Working K q c h s
      → Attempted K q c h D (λ n. n.ids ≡ new.ids) (set_ucounts K new s)
  unfolding set_ucounts
  set_ucounts-Attempted new s w =
      elim (Bool-cases (is_negative (K.set_cred_ucounts new s.world).0.0)) [
        | inl bad ↦ rw bad (
          (q.current-ucounts new s.world ∙ w.0, w.1),
          (bad, inl (ucounts_refused new s.world bad)),
        )
        | inr good ↦ rw good ((q.current-ucounts new s.world ∙ w.0, w.1), refl)
      ]

  pub set_user-Attempted :
      (new : Cred Caps) (s : Machine World)
      → Working K q c h s
      → Attempted K q c h D (λ n. n.ids ≡ new.ids) (set_user K new s)
  unfolding set_user
  set_user-Attempted new s w = elim (Option-cases (K.alloc_uid new.ids.uid s.world).0) [
    | inl null ↦ rw null (
      (q.current-alloc new.ids.uid s.world ∙ w.0, w.1),
      (refl, inl (no_user new.ids.uid s.world null)),
    )
    | inr (user, given) ↦ rw given (
      (
        (q.current-free new.user (K.alloc_uid new.ids.uid s.world).1
              ∙ q.current-alloc new.ids.uid s.world)
            ∙ w.0,
        w.1,
      ),
      refl,
    )
  ]

  pub commit-Settled :
      (Q : Ids → Type 0) (new : Cred Caps) (s : Machine World)
      → Working K q c h s
      → Q new.ids
      → Settled K q c h D Q (commit K new s)
  unfolding commit
  commit-Settled Q new s w meets =
      rw (◌>>◌, ◌>>=◌, release, w.1)
        (refl, inl (q.commit_zero new s.world, rw (q.committed new s.world) meets))

  pub with_new_cred-Settled :
      (Q : Ids → Type 0) (k : Cred Caps → M World ℤ) (s : Machine World)
      → Starts K q c h s
      → ((t : Machine World) → Working K q c h t → Settled K q c h D Q (k c t))
      → Settled K q c h D Q (with_new_cred K minus_enomem k s)
  unfolding with_new_cred
  with_new_cred-Settled Q k s start rest = elim (Option-cases (K.prepare_creds s.world).0) [
    | inl null ↦
        rw (◌>>=◌, null)
          (start.1, inr ((refl, inl (no_memory s.world null)), q.current-prepare s.world ∙ start.0))
    | inr (new, given) ↦
        rw (◌>>=◌, given, copied new given)
          (rest (prepared_state)
            (q.current-prepare s.world ∙ start.0, ap (λ l. new_cred ∷ l) start.1))
  ]
    where
      prepared_state : Machine World
      prepared_state = record { world = (K.prepare_creds s.world).1; held = new_cred ∷ s.held }

      copied : (new : Cred Caps) → (K.prepare_creds s.world).0 ≡ some new → new ≡ c
      copied new given = q.prepared s.world new given ∙ start.0
