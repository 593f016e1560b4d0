-- ===== src/Creds/User/Setresuid.antt =====
-- `setresuid` keeps to its rule.
use sistemas_operativos.Prelude.{
  ℕ, ◌≡◌, ◌⊎◌, refl, sym, Option, inl, inr, some, List, [], ◌∷◌, Bool, true, false, not, ◌&&◌, ◌||◌,
  ◌==◌, if◌then◌else◌, Bool-cases, arith, none,
}
use mathlib.Core.Path.{subst}
use sistemas_operativos.Prelude.Int.{ℤ, pos}
use sistemas_operativos.Kernel.Errno.{minus_enomem, minus_einval}
use sistemas_operativos.Kernel.Machine.{M, Machine, Resource, ◌>>=◌, pure}
use sistemas_operativos.Creds.{
  Ids, Cred, CredKernel, setid_res, or_capable, with_new_cred, minus_eperm, cap_setuid, id_valid,
  is_set,
}
use sistemas_operativos.Creds.Documented.{Documented}
use sistemas_operativos.Creds.Settled.{
  Starts, Working, Attempted, look-Settled, Settled, attempt-Settled, or_capable-Settled,
}
use sistemas_operativos.Creds.Steps.{with_new_cred-Settled}
use sistemas_operativos.Creds.Rules.{setresuid_rule, keeps, argument, choose, may}
use sistemas_operativos.Creds.User.{
  is_new_uid, setresuid_noop, setresuid_rest, setresuid_ruid, setresuid_finish, setresuid_new,
  setresuid, with_ids,
}
use sistemas_operativos.Creds.User.Finish.{finish_uids-Settled, change_user-Attempted}

module _ (K : CredKernel) (q : Documented K) (c : Cred K.Caps) (h : List Resource) where
  open K use {World, Caps}

  keeps_lem : (id k old : ℕ) → (not (is_set id) || k == old) ≡ keeps (argument id k) old
  keeps_lem id k old = elim (Bool-cases (is_set id)) [
    | inr unset ↦ rw unset refl
    | inl set ↦ rw set refl
  ]

  keeps_both :
      (id k old other : ℕ)
      → (not (is_set id) || (k == old && k == other))
        ≡ (keeps (argument id k) old && keeps (argument id k) other)
  keeps_both id k old other = elim (Bool-cases (is_set id)) [
    | inr unset ↦ rw unset refl
    | inl set ↦ rw set refl
  ]

  module _ (ruid euid suid : ℕ) where
    abbrev real : Option ℕ
    real = argument ruid (K.make_kuid ruid)

    abbrev effective : Option ℕ
    effective = argument euid (K.make_kuid euid)

    abbrev saved : Option ℕ
    saved = argument suid (K.make_kuid suid)

    abbrev ruled : Option Ids
    ruled = setresuid_rule (q.capable cap_setuid c) real effective saved c.ids

    abbrev pub Kept : Ids → Type 0
    Kept ids = ruled ≡ some ids

    abbrev invalid : Bool
    invalid =
        is_set ruid && not (id_valid (K.make_kuid ruid))
        || (is_set euid && not (id_valid (K.make_kuid euid))
            || is_set suid && not (id_valid (K.make_kuid suid)))

    -- The errors of the call itself.
    abbrev pub Denied : ℤ → Type 0
    Denied e = ((e ≡ minus_einval) × (invalid ≡ true)) ⊎ ((e ≡ minus_eperm) × (ruled ≡ none))

    noop-keeps :
        setresuid_noop K ruid euid suid
          (K.make_kuid ruid)
          (K.make_kuid euid)
          (K.make_kuid suid)
          c.ids
        ≡ (keeps real c.ids.uid
            && ((keeps effective c.ids.euid && keeps effective c.ids.fsuid)
                && keeps saved c.ids.suid))
    noop-keeps =
        rw
          (
            keeps_lem ruid (K.make_kuid ruid) c.ids.uid,
            keeps_both euid (K.make_kuid euid) c.ids.euid c.ids.fsuid,
            keeps_lem suid (K.make_kuid suid) c.ids.suid,
          )
          refl

    is_new_uid-may :
        (id k : ℕ) (privileged : Bool)
        → (not (is_new_uid K id k c.ids) || privileged)
          ≡ may privileged (argument id k) (c.ids.uid ∷ c.ids.euid ∷ c.ids.suid ∷ [])
    is_new_uid-may id k privileged = elim (Bool-cases (is_set id)) [
      | inr unset ↦ rw unset refl
      | inl set ↦ rw set (ground arith)
    ]

    all_may :
        (x y z p : Bool)
        → (not (x || (y || z)) || p) ≡ ((not x || p) && ((not y || p) && (not z || p)))
    all_may x y z p = ground arith

    setresuid_ruid-Attempted :
        (s : Machine World)
        → Working K q c h s
        → Attempted K q c h Denied
            (λ n. n.ids ≡ record c.ids { uid = choose real c.ids.uid })
            (setresuid_ruid K ruid (K.make_kuid ruid) c c s)
    unfolding setresuid_ruid
    setresuid_ruid-Attempted s w = elim (Bool-cases (is_set ruid)) [
      | inr unset ↦ rw unset (w, refl)
      | inl set ↦ rw set (
          change_user-Attempted K q c h Denied (K.make_kuid ruid) c
            (with_ids K c (record c.ids { uid = K.make_kuid ruid })) s w)
    ]

    -- What the rule gives if the identities are allowed and not all the same.
    abbrev Allowed : Type 0
    Allowed = Kept (record c.ids {
      uid = choose real c.ids.uid;
      euid = choose effective c.ids.euid;
      suid = choose saved c.ids.suid;
      fsuid = choose effective c.ids.euid;
    })

    rest-choose :
        (ids : Ids)
        → ids ≡ record c.ids { uid = choose real c.ids.uid }
        → setresuid_rest K euid suid (K.make_kuid euid) (K.make_kuid suid) ids ≡ record c.ids {
          uid = choose real c.ids.uid;
          euid = choose effective c.ids.euid;
          suid = choose saved c.ids.suid;
          fsuid = choose effective c.ids.euid;
        }
    rest-choose ids e = rw e (elim (Bool-cases (is_set euid)) [
      | inl es ↦ elim (Bool-cases (is_set suid)) [
        | inl ss ↦ rw (es, ss) refl
        | inr ss ↦ rw (es, ss) refl
      ]
      | inr es ↦ elim (Bool-cases (is_set suid)) [
        | inl ss ↦ rw (es, ss) refl
        | inr ss ↦ rw (es, ss) refl
      ]
    ])

    setresuid_new-Settled :
        (s : Machine World)
        → Working K q c h s
        → Allowed
        → Settled K q c h Denied Kept (setresuid_new K ruid euid suid c c s)
    unfolding setresuid_new setresuid_finish
    setresuid_new-Settled s w allowed =
        attempt-Settled K q c h Denied Kept
          (λ n. n.ids ≡ record c.ids { uid = choose real c.ids.uid })
          (setresuid_ruid K ruid (K.make_kuid ruid) c c) (setresuid_finish K euid suid c) s
          (setresuid_ruid-Attempted s w)
          (λ n t v e.
            finish_uids-Settled K q c h Denied Kept setid_res c _ t v
              (subst Kept (sym (rest-choose n.ids e)) allowed))

    -- After the tests on the arguments.
    abbrev checked : Cred Caps → M World ℤ
    checked old =
        if setresuid_noop K ruid euid suid (K.make_kuid ruid) (K.make_kuid euid) (K.make_kuid suid)
          old.ids
        then pure (pos 0)
        else (or_capable K
              (not (
                is_new_uid K ruid (K.make_kuid ruid) old.ids
                || (is_new_uid K euid (K.make_kuid euid) old.ids
                    || is_new_uid K suid (K.make_kuid suid) old.ids)))
              cap_setuid
            >>= λ allowed.
                if allowed
                then with_new_cred K minus_enomem (setresuid_new K ruid euid suid old)
                else pure minus_eperm)

    checked-Settled :
        (s : Machine World) → Starts K q c h s → Settled K q c h Denied Kept (checked c s)
    checked-Settled s start = elim (Bool-cases same) [
      | inl noop ↦ rw (noop-keeps, noop) (start.1, inl (refl, rw (start.0, noop) refl))
      | inr change ↦
          rw (noop-keeps, change)
            (or_capable-Settled K q c h Denied Kept _ cap_setuid
              (λ allowed.
                if allowed
                then with_new_cred K minus_enomem (setresuid_new K ruid euid suid c)
                else pure minus_eperm)
              s start (λ t v. rw permitted_lem (by_permission change t v (Bool-cases permitted))))
    ]
      where
        same : Bool
        same =
            keeps real c.ids.uid
            && ((keeps effective c.ids.euid && keeps effective c.ids.fsuid)
                && keeps saved c.ids.suid)

        permitted : Bool
        permitted =
            may (q.capable cap_setuid c) real (c.ids.uid ∷ c.ids.euid ∷ c.ids.suid ∷ [])
            && (may (q.capable cap_setuid c) effective (c.ids.uid ∷ c.ids.euid ∷ c.ids.suid ∷ [])
                && may (q.capable cap_setuid c) saved (c.ids.uid ∷ c.ids.euid ∷ c.ids.suid ∷ []))

        permitted_lem :
            (not (
                is_new_uid K ruid (K.make_kuid ruid) c.ids
                || (is_new_uid K euid (K.make_kuid euid) c.ids
                    || is_new_uid K suid (K.make_kuid suid) c.ids))
              || q.capable cap_setuid c)
            ≡ permitted
        permitted_lem = rw (all_may, is_new_uid-may, is_new_uid-may, is_new_uid-may) refl

        by_permission :
            same ≡ false
            → (t : Machine World) → Starts K q c h t
            → (permitted ≡ true) ⊎ (permitted ≡ false)
            → Settled K q c h Denied Kept (
                (if permitted
                    then with_new_cred K minus_enomem (setresuid_new K ruid euid suid c)
                    else pure minus_eperm)
                  t)
        by_permission change t v (inl granted) = rw granted (
            with_new_cred-Settled K q c h Denied Kept (setresuid_new K ruid euid suid c) t v
              (λ u w. setresuid_new-Settled u w (rw (change, granted) refl)))
        by_permission change t v (inr refused) =
            rw refused (v.1, inr ((refl, inr (inr (refl, rw (change, refused) refl))), v.0))

    -- `setresuid` does one of three things, and gives back the new credentials that it held. It
    -- returns 0 where the rule allows it, and the identities have become those of the rule; or it
    -- returns -EINVAL for an invalid argument or -EPERM where the rule refuses, and changes no
    -- credentials; or it returns an error with which the kernel refuses one of the requests of the
    -- call, and changes no credentials.
    pub setresuid-Settled :
        (s : Machine World)
        → Starts K q c h s
        → Settled K q c h Denied Kept (setresuid K ruid euid suid s)
    unfolding setresuid
    setresuid-Settled s start =
        elim (Bool-cases (is_set ruid && not (id_valid (K.make_kuid ruid)))) [
          | inl bad ↦ rw bad (start.1, inr ((refl, inr (inl (refl, rw bad refl))), start.0))
          | inr real_ok ↦ elim (Bool-cases (is_set euid && not (id_valid (K.make_kuid euid)))) [
            | inl bad ↦
                rw (real_ok, bad)
                  (start.1, inr ((refl, inr (inl (refl, rw (real_ok, bad) refl))), start.0))
            | inr euid_ok ↦ elim (Bool-cases (is_set suid && not (id_valid (K.make_kuid suid)))) [
              | inl bad ↦
                  rw (real_ok, euid_ok, bad)
                    (
                      start.1,
                      inr ((refl, inr (inl (refl, rw (real_ok, euid_ok, bad) refl))), start.0),
                    )
              | inr suid_ok ↦
                  rw (real_ok, euid_ok, suid_ok)
                    (look-Settled K q c h Denied Kept checked s start.0 (checked-Settled s start))
            ]
          ]
        ]
