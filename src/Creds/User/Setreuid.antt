-- ===== src/Creds/User/Setreuid.antt =====
-- `setreuid` keeps to its rule.
use sistemas_operativos.Prelude.Int.{ℤ}
use sistemas_operativos.Prelude.{
  ℕ, ◌≡◌, refl, sym, ap, Option, ◌∙◌, inl, inr, some, List, [], ◌∷◌, true, not, ◌&&◌, ◌||◌, ◌==◌,
  Bool-cases, arith, none, ◌⊎◌, Bool, false,
}
use sistemas_operativos.Kernel.Errno.{minus_einval}
use sistemas_operativos.Kernel.Machine.{Machine, Resource}
use sistemas_operativos.Creds.{
  Ids, Cred, CredKernel, setid_re, cap_setuid, id_valid, is_set, ◌>>?◌, or_eperm, minus_eperm,
}
use sistemas_operativos.Creds.Documented.{Documented}
use sistemas_operativos.Creds.Settled.{
  Starts, Working, Attempted, Attempted-weaken, look-Settled, Settled, attempt-Settled,
}
use sistemas_operativos.Creds.Steps.{with_new_cred-Settled, or_eperm-Attempted}
use sistemas_operativos.Creds.Rules.{setreuid_rule, argument, choose, may}
use sistemas_operativos.Creds.User.{
  change_user, setreuid_ruid, setreuid_euid, setreuid_saved, setreuid_finish, setreuid_owned,
  setreuid_effective, setreuid_new, setreuid, with_ids,
}
use sistemas_operativos.Creds.User.Finish.{finish_uids-Settled, change_user-Attempted}

module _ (K : CredKernel) (q : Documented K) (c : Cred K.Caps) (h : List Resource)
    (ruid euid : ℕ) where
  open K use {World, Caps}

  -- The arguments of the rule.
  abbrev real : Option ℕ
  real = argument ruid (K.make_kuid ruid)

  abbrev effective : Option ℕ
  effective = argument euid (K.make_kuid euid)

  abbrev ruled : Option Ids
  ruled = setreuid_rule (q.capable cap_setuid c) real effective c.ids

  abbrev pub Kept : Ids → Type 0
  Kept ids = ruled ≡ some ids

  abbrev invalid : Bool
  invalid =
      is_set ruid && not (id_valid (K.make_kuid ruid))
      || is_set euid && not (id_valid (K.make_kuid euid))

  -- The errors of the call itself.
  abbrev pub Denied : ℤ → Type 0
  Denied e = ((e ≡ minus_einval) × (invalid ≡ true)) ⊎ ((e ≡ minus_eperm) × (ruled ≡ none))

  real_refused :
      may (q.capable cap_setuid c) real (c.ids.uid ∷ c.ids.euid ∷ []) ≡ false → ruled ≡ none
  real_refused refused = rw refused refl

  effective_refused :
      may (q.capable cap_setuid c) effective (c.ids.uid ∷ c.ids.euid ∷ c.ids.suid ∷ []) ≡ false
      → ruled ≡ none
  effective_refused refused =
      elim (Bool-cases (may (q.capable cap_setuid c) real (c.ids.uid ∷ c.ids.euid ∷ []))) [
        | inl granted ↦ rw (granted, refused) refl
        | inr first ↦ real_refused first
      ]

  setreuid_ruid-Attempted :
      (s : Machine World)
      → Working K q c h s
      → Attempted K q c h Denied
          (λ n.
            (n.ids ≡ record c.ids { uid = choose real c.ids.uid })
            × (may (q.capable cap_setuid c) real (c.ids.uid ∷ c.ids.euid ∷ []) ≡ true))
          (setreuid_ruid K ruid (K.make_kuid ruid) c c s)
  unfolding setreuid_ruid
  setreuid_ruid-Attempted s w = elim (Bool-cases (is_set ruid)) [
    | inr unset ↦ rw unset (w, (refl, refl))
    | inl set ↦ rw set (
        Attempted-weaken K q c h Denied
          (λ n.
            (n ≡ with_ids K c (record c.ids { uid = (K.make_kuid ruid) }))
            × ((c.ids.uid == (K.make_kuid ruid)
                  || c.ids.euid == (K.make_kuid ruid)
                  || q.capable cap_setuid c)
                ≡ true))
          (λ n.
            (n.ids ≡ record c.ids { uid = (K.make_kuid ruid) })
            × (may (q.capable cap_setuid c) (some (K.make_kuid ruid)) (c.ids.uid ∷ c.ids.euid ∷ [])
                ≡ true))
          (or_eperm K (c.ids.uid == (K.make_kuid ruid) || c.ids.euid == (K.make_kuid ruid))
            cap_setuid (with_ids K c (record c.ids { uid = (K.make_kuid ruid) })))
          s (λ n e. (ap (λ (m : Cred Caps). m.ids) e.0, ground (arith, e.1)))
          (or_eperm-Attempted K q c h Denied
            (c.ids.uid == (K.make_kuid ruid) || c.ids.euid == (K.make_kuid ruid)) cap_setuid
            (with_ids K c (record c.ids { uid = (K.make_kuid ruid) })) s w
            (λ f. inr (refl, real_refused (rw set (ground (arith, f)))))))
  ]

  setreuid_euid-Attempted :
      (new : Cred Caps) (s : Machine World)
      → Working K q c h s
      → new.ids.euid ≡ c.ids.euid
      → Attempted K q c h Denied
          (λ n.
            (n.ids ≡ record new.ids { euid = choose effective c.ids.euid })
            × (may (q.capable cap_setuid c) effective (c.ids.uid ∷ c.ids.euid ∷ c.ids.suid ∷ [])
                ≡ true))
          (setreuid_euid K euid (K.make_kuid euid) c new s)
  unfolding setreuid_euid
  setreuid_euid-Attempted new s w same = elim (Bool-cases (is_set euid)) [
    | inr unset ↦ rw unset (w, (rw (sym same) refl, refl))
    | inl set ↦ rw set (
        Attempted-weaken K q c h Denied
          (λ n.
            (n ≡ with_ids K new (record new.ids { euid = (K.make_kuid euid) }))
            × (((c.ids.uid == (K.make_kuid euid)
                    || (c.ids.euid == (K.make_kuid euid) || c.ids.suid == (K.make_kuid euid)))
                  || q.capable cap_setuid c)
                ≡ true))
          (λ n.
            (n.ids ≡ record new.ids { euid = (K.make_kuid euid) })
            × (may (q.capable cap_setuid c) (some (K.make_kuid euid))
                  (c.ids.uid ∷ c.ids.euid ∷ c.ids.suid ∷ [])
                ≡ true))
          (or_eperm K
            (c.ids.uid == (K.make_kuid euid)
              || (c.ids.euid == (K.make_kuid euid) || c.ids.suid == (K.make_kuid euid)))
            cap_setuid (with_ids K new (record new.ids { euid = (K.make_kuid euid) })))
          s (λ n e. (ap (λ (m : Cred Caps). m.ids) e.0, ground (arith, e.1)))
          (or_eperm-Attempted K q c h Denied
            (c.ids.uid == (K.make_kuid euid)
              || (c.ids.euid == (K.make_kuid euid) || c.ids.suid == (K.make_kuid euid)))
            cap_setuid (with_ids K new (record new.ids { euid = (K.make_kuid euid) })) s w
            (λ f. inr (refl, effective_refused (rw set (ground (arith, f)))))))
  ]

  abbrev Changed : Ids → Type 0
  Changed ids =
      (ids ≡ record c.ids { uid = choose real c.ids.uid; euid = choose effective c.ids.euid })
      × (may (q.capable cap_setuid c) real (c.ids.uid ∷ c.ids.euid ∷ []) ≡ true)
      × (may (q.capable cap_setuid c) effective (c.ids.uid ∷ c.ids.euid ∷ c.ids.suid ∷ []) ≡ true)

  saved-Kept :
      (ids : Ids) → Changed ids → Kept (setreuid_saved K ruid euid (K.make_kuid euid) c.ids ids)
  saved-Kept ids (e, r, f) =
      rw (e, r, f)
        (elim (Bool-cases (is_set ruid)) [
          | inl given ↦ rw given refl
          | inr kept ↦ elim (Bool-cases (is_set euid)) [
            | inr same ↦ rw (kept, same) refl
            | inl chosen ↦ elim (Bool-cases (K.make_kuid euid == c.ids.uid)) [
              | inl back ↦ rw (kept, chosen, back) refl
              | inr away ↦ rw (kept, chosen, away) refl
            ]
          ]
        ])

  setreuid_owned-Settled :
      (new : Cred Caps) (s : Machine World)
      → Working K q c h s
      → Changed new.ids
      → Settled K q c h Denied Kept (setreuid_owned K ruid euid (K.make_kuid euid) c new s)
  unfolding setreuid_owned setreuid_finish
  setreuid_owned-Settled new s w changed =
      attempt-Settled K q c h Denied Kept (λ n. n.ids ≡ new.ids) (change_user K new.ids.uid c new)
        (setreuid_finish K ruid euid (K.make_kuid euid) c) s
        (change_user-Attempted K q c h Denied new.ids.uid c new s w)
        (λ owned t v e.
          finish_uids-Settled K q c h Denied Kept setid_re c _ t v
            (saved-Kept owned.ids (rw e changed)))

  setreuid_effective-Settled :
      (new : Cred Caps) (s : Machine World)
      → Working K q c h s
      → new.ids ≡ record c.ids { uid = choose real c.ids.uid }
      → may (q.capable cap_setuid c) real (c.ids.uid ∷ c.ids.euid ∷ []) ≡ true
      → Settled K q c h Denied Kept (setreuid_effective K ruid euid (K.make_kuid euid) c new s)
  unfolding setreuid_effective
  setreuid_effective-Settled new s w e allowed =
      attempt-Settled K q c h Denied Kept
        (λ n.
          (n.ids ≡ record new.ids { euid = choose effective c.ids.euid })
          × (may (q.capable cap_setuid c) effective (c.ids.uid ∷ c.ids.euid ∷ c.ids.suid ∷ [])
              ≡ true))
        (setreuid_euid K euid (K.make_kuid euid) c new)
        (setreuid_owned K ruid euid (K.make_kuid euid) c) s
        (setreuid_euid-Attempted new s w (ap (λ (i : Ids). i.euid) e))
        (λ n t v f.
          setreuid_owned-Settled n t v (
            f.0 ∙ ap (λ (i : Ids). record i { euid = choose effective c.ids.euid }) e,
            allowed,
            f.1,
          ))

  setreuid_new-Settled :
      (s : Machine World)
      → Working K q c h s
      → Settled K q c h Denied Kept
          (setreuid_new K ruid euid (K.make_kuid ruid) (K.make_kuid euid) c s)
  unfolding setreuid_new
  setreuid_new-Settled s w =
      look-Settled K q c h Denied Kept
        (λ old.
          ◌>>?◌ K (setreuid_ruid K ruid (K.make_kuid ruid) old c)
            (setreuid_effective K ruid euid (K.make_kuid euid) old))
        s w.0
        (attempt-Settled K q c h Denied Kept
          (λ n.
            (n.ids ≡ record c.ids { uid = choose real c.ids.uid })
            × (may (q.capable cap_setuid c) real (c.ids.uid ∷ c.ids.euid ∷ []) ≡ true))
          (setreuid_ruid K ruid (K.make_kuid ruid) c c)
          (setreuid_effective K ruid euid (K.make_kuid euid) c) s (setreuid_ruid-Attempted s w)
          (λ n t v f. setreuid_effective-Settled n t v f.0 f.1))

  -- `setreuid` does one of three things, and gives back the new credentials that it held. It
  -- returns 0 where the rule allows it, and the identities have become those of the rule, the saved
  -- and the file system identity included; or it returns -EINVAL for an invalid argument or -EPERM
  -- where the rule refuses, and changes no credentials; or it returns an error with which the kernel
  -- refuses one of the requests of the call, and changes no credentials.
  pub setreuid-Settled :
      (s : Machine World) → Starts K q c h s → Settled K q c h Denied Kept (setreuid K ruid euid s)
  unfolding setreuid
  setreuid-Settled s start = elim (Bool-cases (is_set ruid && not (id_valid (K.make_kuid ruid)))) [
    | inl bad ↦ rw bad (start.1, inr ((refl, inr (inl (refl, rw bad refl))), start.0))
    | inr fine ↦ elim (Bool-cases (is_set euid && not (id_valid (K.make_kuid euid)))) [
      | inl bad ↦
          rw (fine, bad) (start.1, inr ((refl, inr (inl (refl, rw (fine, bad) refl))), start.0))
      | inr valid ↦
          rw (fine, valid)
            (with_new_cred-Settled K q c h Denied Kept
              (setreuid_new K ruid euid (K.make_kuid ruid) (K.make_kuid euid)) s start
              setreuid_new-Settled)
    ]
  ]
