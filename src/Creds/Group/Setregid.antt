-- ===== src/Creds/Group/Setregid.antt =====
-- `setregid` keeps to its rule.
use sistemas_operativos.Prelude.Int.{ℤ}
use sistemas_operativos.Prelude.{
  ℕ, ◌≡◌, refl, sym, ap, Option, ◌∙◌, inl, inr, some, List, [], ◌∷◌, true, not, ◌&&◌, ◌||◌, ◌==◌,
  Bool-cases, arith, none, ◌⊎◌, Bool, false,
}
use sistemas_operativos.Kernel.Errno.{minus_einval}
use sistemas_operativos.Kernel.Machine.{Machine, Resource}
use sistemas_operativos.Creds.{
  Ids, Cred, CredKernel, setid_re, cap_setgid, id_valid, is_set, ◌>>?◌, or_eperm, minus_eperm,
}
use sistemas_operativos.Creds.Documented.{Documented}
use sistemas_operativos.Creds.Settled.{
  Starts, Working, Attempted, Attempted-weaken, look-Settled, Settled, attempt-Settled,
}
use sistemas_operativos.Creds.Steps.{with_new_cred-Settled, or_eperm-Attempted}
use sistemas_operativos.Creds.Rules.{setreuid_rule, argument, choose, may}
use sistemas_operativos.Creds.Group.Rules.{setregid_rule, on_groups-some, on_groups-none}
use sistemas_operativos.Creds.Group.{
  setregid_rgid, setregid_egid, setregid_saved, setregid_finish, setregid_effective, setregid_new,
  setregid, with_ids,
}
use sistemas_operativos.Creds.Group.Finish.{finish_gids-Settled}

module _ (K : CredKernel) (q : Documented K) (c : Cred K.Caps) (h : List Resource)
    (rgid egid : ℕ) where
  open K use {World, Caps}

  -- The arguments of the rule.
  abbrev real : Option ℕ
  real = argument rgid (K.make_kgid rgid)

  abbrev effective : Option ℕ
  effective = argument egid (K.make_kgid egid)

  abbrev ruled : Option Ids
  ruled = setregid_rule (q.capable cap_setgid c) real effective c.ids

  abbrev pub Kept : Ids → Type 0
  Kept ids = ruled ≡ some ids

  abbrev invalid : Bool
  invalid =
      is_set rgid && not (id_valid (K.make_kgid rgid))
      || is_set egid && not (id_valid (K.make_kgid egid))

  -- The errors of the call itself.
  abbrev pub Denied : ℤ → Type 0
  Denied e = ((e ≡ minus_einval) × (invalid ≡ true)) ⊎ ((e ≡ minus_eperm) × (ruled ≡ none))

  real_refused :
      may (q.capable cap_setgid c) real (c.ids.gid ∷ c.ids.egid ∷ []) ≡ false → ruled ≡ none
  real_refused refused =
      on_groups-none (setreuid_rule (q.capable cap_setgid c) real effective) c.ids (rw refused refl)

  effective_refused :
      may (q.capable cap_setgid c) effective (c.ids.gid ∷ c.ids.egid ∷ c.ids.sgid ∷ []) ≡ false
      → ruled ≡ none
  effective_refused refused =
      elim (Bool-cases (may (q.capable cap_setgid c) real (c.ids.gid ∷ c.ids.egid ∷ []))) [
        | inl granted ↦
            on_groups-none (setreuid_rule (q.capable cap_setgid c) real effective) c.ids
              (rw (granted, refused) refl)
        | inr first ↦ real_refused first
      ]

  setregid_rgid-Attempted :
      (s : Machine World)
      → Working K q c h s
      → Attempted K q c h Denied
          (λ n.
            (n.ids ≡ record c.ids { gid = choose real c.ids.gid })
            × (may (q.capable cap_setgid c) real (c.ids.gid ∷ c.ids.egid ∷ []) ≡ true))
          (setregid_rgid K rgid (K.make_kgid rgid) c c s)
  unfolding setregid_rgid
  setregid_rgid-Attempted s w = elim (Bool-cases (is_set rgid)) [
    | inr unset ↦ rw unset (w, (refl, refl))
    | inl set ↦ rw set (
        Attempted-weaken K q c h Denied
          (λ n.
            (n ≡ with_ids K c (record c.ids { gid = (K.make_kgid rgid) }))
            × ((c.ids.gid == (K.make_kgid rgid)
                  || c.ids.egid == (K.make_kgid rgid)
                  || q.capable cap_setgid c)
                ≡ true))
          (λ n.
            (n.ids ≡ record c.ids { gid = (K.make_kgid rgid) })
            × (may (q.capable cap_setgid c) (some (K.make_kgid rgid)) (c.ids.gid ∷ c.ids.egid ∷ [])
                ≡ true))
          (or_eperm K (c.ids.gid == (K.make_kgid rgid) || c.ids.egid == (K.make_kgid rgid))
            cap_setgid (with_ids K c (record c.ids { gid = (K.make_kgid rgid) })))
          s (λ n e. (ap (λ (m : Cred Caps). m.ids) e.0, ground (arith, e.1)))
          (or_eperm-Attempted K q c h Denied
            (c.ids.gid == (K.make_kgid rgid) || c.ids.egid == (K.make_kgid rgid)) cap_setgid
            (with_ids K c (record c.ids { gid = (K.make_kgid rgid) })) s w
            (λ f. inr (refl, real_refused (rw set (ground (arith, f)))))))
  ]

  setregid_egid-Attempted :
      (new : Cred Caps) (s : Machine World)
      → Working K q c h s
      → new.ids.egid ≡ c.ids.egid
      → Attempted K q c h Denied
          (λ n.
            (n.ids ≡ record new.ids { egid = choose effective c.ids.egid })
            × (may (q.capable cap_setgid c) effective (c.ids.gid ∷ c.ids.egid ∷ c.ids.sgid ∷ [])
                ≡ true))
          (setregid_egid K egid (K.make_kgid egid) c new s)
  unfolding setregid_egid
  setregid_egid-Attempted new s w same = elim (Bool-cases (is_set egid)) [
    | inr unset ↦ rw unset (w, (rw (sym same) refl, refl))
    | inl set ↦ rw set (
        Attempted-weaken K q c h Denied
          (λ n.
            (n ≡ with_ids K new (record new.ids { egid = (K.make_kgid egid) }))
            × (((c.ids.gid == (K.make_kgid egid)
                    || (c.ids.egid == (K.make_kgid egid) || c.ids.sgid == (K.make_kgid egid)))
                  || q.capable cap_setgid c)
                ≡ true))
          (λ n.
            (n.ids ≡ record new.ids { egid = (K.make_kgid egid) })
            × (may (q.capable cap_setgid c) (some (K.make_kgid egid))
                  (c.ids.gid ∷ c.ids.egid ∷ c.ids.sgid ∷ [])
                ≡ true))
          (or_eperm K
            (c.ids.gid == (K.make_kgid egid)
              || (c.ids.egid == (K.make_kgid egid) || c.ids.sgid == (K.make_kgid egid)))
            cap_setgid (with_ids K new (record new.ids { egid = (K.make_kgid egid) })))
          s (λ n e. (ap (λ (m : Cred Caps). m.ids) e.0, ground (arith, e.1)))
          (or_eperm-Attempted K q c h Denied
            (c.ids.gid == (K.make_kgid egid)
              || (c.ids.egid == (K.make_kgid egid) || c.ids.sgid == (K.make_kgid egid)))
            cap_setgid (with_ids K new (record new.ids { egid = (K.make_kgid egid) })) s w
            (λ f. inr (refl, effective_refused (rw set (ground (arith, f)))))))
  ]

  abbrev Changed : Ids → Type 0
  Changed ids =
      (ids ≡ record c.ids { gid = choose real c.ids.gid; egid = choose effective c.ids.egid })
      × (may (q.capable cap_setgid c) real (c.ids.gid ∷ c.ids.egid ∷ []) ≡ true)
      × (may (q.capable cap_setgid c) effective (c.ids.gid ∷ c.ids.egid ∷ c.ids.sgid ∷ []) ≡ true)

  saved-Kept :
      (ids : Ids) → Changed ids → Kept (setregid_saved K rgid egid (K.make_kgid egid) c.ids ids)
  saved-Kept ids (e, r, f) = rw e (
      on_groups-some (setreuid_rule (q.capable cap_setgid c) real effective) c.ids _ (
        rw (r, f)
          (elim (Bool-cases (is_set rgid)) [
            | inl given ↦ rw given refl
            | inr kept ↦ elim (Bool-cases (is_set egid)) [
              | inr same ↦ rw (kept, same) refl
              | inl chosen ↦ elim (Bool-cases (K.make_kgid egid == c.ids.gid)) [
                | inl back ↦ rw (kept, chosen, back) refl
                | inr away ↦ rw (kept, chosen, away) refl
              ]
            ]
          ])))

  setregid_effective-Settled :
      (new : Cred Caps) (s : Machine World)
      → Working K q c h s
      → new.ids ≡ record c.ids { gid = choose real c.ids.gid }
      → may (q.capable cap_setgid c) real (c.ids.gid ∷ c.ids.egid ∷ []) ≡ true
      → Settled K q c h Denied Kept (setregid_effective K rgid egid (K.make_kgid egid) c new s)
  unfolding setregid_effective setregid_finish
  setregid_effective-Settled new s w e allowed =
      attempt-Settled K q c h Denied Kept
        (λ n.
          (n.ids ≡ record new.ids { egid = choose effective c.ids.egid })
          × (may (q.capable cap_setgid c) effective (c.ids.gid ∷ c.ids.egid ∷ c.ids.sgid ∷ [])
              ≡ true))
        (setregid_egid K egid (K.make_kgid egid) c new)
        (setregid_finish K rgid egid (K.make_kgid egid) c) s
        (setregid_egid-Attempted new s w (ap (λ (i : Ids). i.egid) e))
        (λ n t v f. finish_gids-Settled K q c h Denied Kept setid_re c _ t v (
          saved-Kept n.ids (
            f.0 ∙ ap (λ (i : Ids). record i { egid = choose effective c.ids.egid }) e,
            allowed,
            f.1,
          )))

  setregid_new-Settled :
      (s : Machine World)
      → Working K q c h s
      → Settled K q c h Denied Kept
          (setregid_new K rgid egid (K.make_kgid rgid) (K.make_kgid egid) c s)
  unfolding setregid_new
  setregid_new-Settled s w =
      look-Settled K q c h Denied Kept
        (λ old.
          ◌>>?◌ K (setregid_rgid K rgid (K.make_kgid rgid) old c)
            (setregid_effective K rgid egid (K.make_kgid egid) old))
        s w.0
        (attempt-Settled K q c h Denied Kept
          (λ n.
            (n.ids ≡ record c.ids { gid = choose real c.ids.gid })
            × (may (q.capable cap_setgid c) real (c.ids.gid ∷ c.ids.egid ∷ []) ≡ true))
          (setregid_rgid K rgid (K.make_kgid rgid) c c)
          (setregid_effective K rgid egid (K.make_kgid egid) c) s (setregid_rgid-Attempted s w)
          (λ n t v f. setregid_effective-Settled n t v f.0 f.1))

  -- `setregid` does one of three things, and gives back the new credentials that it held. It
  -- returns 0 where the rule allows it, and the identities have become those of the rule, the saved
  -- and the file system identity included; or it returns -EINVAL for an invalid argument or -EPERM
  -- where the rule refuses, and changes no credentials; or it returns an error with which the kernel
  -- refuses one of the requests of the call, and changes no credentials.
  pub setregid-Settled :
      (s : Machine World) → Starts K q c h s → Settled K q c h Denied Kept (setregid K rgid egid s)
  unfolding setregid
  setregid-Settled s start = elim (Bool-cases (is_set rgid && not (id_valid (K.make_kgid rgid)))) [
    | inl bad ↦ rw bad (start.1, inr ((refl, inr (inl (refl, rw bad refl))), start.0))
    | inr fine ↦ elim (Bool-cases (is_set egid && not (id_valid (K.make_kgid egid)))) [
      | inl bad ↦
          rw (fine, bad) (start.1, inr ((refl, inr (inl (refl, rw (fine, bad) refl))), start.0))
      | inr valid ↦
          rw (fine, valid)
            (with_new_cred-Settled K q c h Denied Kept
              (setregid_new K rgid egid (K.make_kgid rgid) (K.make_kgid egid)) s start
              setregid_new-Settled)
    ]
  ]
