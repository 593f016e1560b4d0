-- ===== src/Creds/Group/Setresgid.antt =====
-- `setresgid` keeps to its rule.
use sistemas_operativos.Prelude.{
  ℕ, ◌≡◌, ◌⊎◌, refl, sym, Option, inl, inr, some, List, [], ◌∷◌, Bool, true, false, not, ◌&&◌, ◌||◌,
  ◌==◌, if◌then◌else◌, Bool-cases, arith, none,
}
use mathlib.Core.Path.{subst}
use sistemas_operativos.Prelude.Int.{ℤ, pos}
use sistemas_operativos.Kernel.Errno.{minus_enomem, minus_einval}
use sistemas_operativos.Kernel.Machine.{M, Machine, Resource, ◌>>=◌, pure}
use sistemas_operativos.Creds.{
  Ids, Cred, CredKernel, setid_res, or_capable, with_new_cred, minus_eperm, cap_setgid, id_valid,
  is_set,
}
use sistemas_operativos.Creds.Documented.{Documented}
use sistemas_operativos.Creds.Settled.{Starts, Working, look-Settled, Settled, or_capable-Settled}
use sistemas_operativos.Creds.Steps.{with_new_cred-Settled}
use sistemas_operativos.Creds.Rules.{setresuid_rule, keeps, argument, choose, may}
use sistemas_operativos.Creds.Group.Rules.{setresgid_rule, on_groups-some, on_groups-none}
use sistemas_operativos.Creds.Group.{is_new_gid, setresgid_noop, setresgid_new, setresgid}
use sistemas_operativos.Creds.Group.Finish.{finish_gids-Settled}

module _ (K : CredKernel) (q : Documented K) (c : Cred K.Caps) (h : List Resource) where
  open K use {World, Caps}

  keeps_lem : (id k old : ℕ) → (not (is_set id) || k == old) ≡ keeps (argument id k) old
  keeps_lem id k old = elim (Bool-cases (is_set id)) [
    | inr unset ↦ rw unset refl
    | inl set ↦ rw set refl
  ]

  keeps_both :
      (id k old other : ℕ)
      → (not (is_set id) || (k == old && k == other))
        ≡ (keeps (argument id k) old && keeps (argument id k) other)
  keeps_both id k old other = elim (Bool-cases (is_set id)) [
    | inr unset ↦ rw unset refl
    | inl set ↦ rw set refl
  ]

  module _ (rgid egid sgid : ℕ) where
    abbrev real : Option ℕ
    real = argument rgid (K.make_kgid rgid)

    abbrev effective : Option ℕ
    effective = argument egid (K.make_kgid egid)

    abbrev saved : Option ℕ
    saved = argument sgid (K.make_kgid sgid)

    abbrev ruled : Option Ids
    ruled = setresgid_rule (q.capable cap_setgid c) real effective saved c.ids

    abbrev pub Kept : Ids → Type 0
    Kept ids = ruled ≡ some ids

    abbrev invalid : Bool
    invalid =
        is_set rgid && not (id_valid (K.make_kgid rgid))
        || (is_set egid && not (id_valid (K.make_kgid egid))
            || is_set sgid && not (id_valid (K.make_kgid sgid)))

    -- The errors of the call itself.
    abbrev pub Denied : ℤ → Type 0
    Denied e = ((e ≡ minus_einval) × (invalid ≡ true)) ⊎ ((e ≡ minus_eperm) × (ruled ≡ none))

    noop-keeps :
        setresgid_noop K rgid egid sgid
          (K.make_kgid rgid)
          (K.make_kgid egid)
          (K.make_kgid sgid)
          c.ids
        ≡ (keeps real c.ids.gid
            && ((keeps effective c.ids.egid && keeps effective c.ids.fsgid)
                && keeps saved c.ids.sgid))
    noop-keeps =
        rw
          (
            keeps_lem rgid (K.make_kgid rgid) c.ids.gid,
            keeps_both egid (K.make_kgid egid) c.ids.egid c.ids.fsgid,
            keeps_lem sgid (K.make_kgid sgid) c.ids.sgid,
          )
          refl

    is_new_gid-may :
        (id k : ℕ) (privileged : Bool)
        → (not (is_new_gid K id k c.ids) || privileged)
          ≡ may privileged (argument id k) (c.ids.gid ∷ c.ids.egid ∷ c.ids.sgid ∷ [])
    is_new_gid-may id k privileged = elim (Bool-cases (is_set id)) [
      | inr unset ↦ rw unset refl
      | inl set ↦ rw set (ground arith)
    ]

    all_may :
        (x y z p : Bool)
        → (not (x || (y || z)) || p) ≡ ((not x || p) && ((not y || p) && (not z || p)))
    all_may x y z p = ground arith

    -- What the rule gives if the identities are allowed and not all the same.
    abbrev Allowed : Type 0
    Allowed = Kept (record c.ids {
      gid = choose real c.ids.gid;
      egid = choose effective c.ids.egid;
      sgid = choose saved c.ids.sgid;
      fsgid = choose effective c.ids.egid;
    })

    -- An identity that is not to change keeps its old value.
    if_choose : (id k old : ℕ) → (if is_set id then k else old) ≡ choose (argument id k) old
    if_choose id k old = elim (Bool-cases (is_set id)) [
      | inl set ↦ rw set refl
      | inr unset ↦ rw unset refl
    ]

    setresgid_new-Settled :
        (s : Machine World)
        → Working K q c h s
        → Allowed
        → Settled K q c h Denied Kept (setresgid_new K rgid egid sgid c c s)
    unfolding setresgid_new
    setresgid_new-Settled s w allowed =
        finish_gids-Settled K q c h Denied Kept setid_res c _ s w
          (rw (if_choose rgid, if_choose egid, if_choose sgid) allowed)

    -- After the tests on the arguments.
    abbrev checked : Cred Caps → M World ℤ
    checked old =
        if setresgid_noop K rgid egid sgid (K.make_kgid rgid) (K.make_kgid egid) (K.make_kgid sgid)
          old.ids
        then pure (pos 0)
        else (or_capable K
              (not (
                is_new_gid K rgid (K.make_kgid rgid) old.ids
                || (is_new_gid K egid (K.make_kgid egid) old.ids
                    || is_new_gid K sgid (K.make_kgid sgid) old.ids)))
              cap_setgid
            >>= λ allowed.
                if allowed
                then with_new_cred K minus_enomem (setresgid_new K rgid egid sgid old)
                else pure minus_eperm)

    checked-Settled :
        (s : Machine World) → Starts K q c h s → Settled K q c h Denied Kept (checked c s)
    checked-Settled s start = elim (Bool-cases same) [
      | inl noop ↦
          rw (noop-keeps, noop)
            (
              start.1,
              inl (
                refl,
                subst (λ (m : Cred Caps). Kept m.ids) (sym start.0)
                    (on_groups-some (setresuid_rule (q.capable cap_setgid c) real effective saved)
                      c.ids c.ids (rw noop refl)),
              ),
            )
      | inr change ↦
          rw (noop-keeps, change)
            (or_capable-Settled K q c h Denied Kept _ cap_setgid
              (λ allowed.
                if allowed
                then with_new_cred K minus_enomem (setresgid_new K rgid egid sgid c)
                else pure minus_eperm)
              s start (λ t v. rw permitted_lem (by_permission change t v (Bool-cases permitted))))
    ]
      where
        same : Bool
        same =
            keeps real c.ids.gid
            && ((keeps effective c.ids.egid && keeps effective c.ids.fsgid)
                && keeps saved c.ids.sgid)

        permitted : Bool
        permitted =
            may (q.capable cap_setgid c) real (c.ids.gid ∷ c.ids.egid ∷ c.ids.sgid ∷ [])
            && (may (q.capable cap_setgid c) effective (c.ids.gid ∷ c.ids.egid ∷ c.ids.sgid ∷ [])
                && may (q.capable cap_setgid c) saved (c.ids.gid ∷ c.ids.egid ∷ c.ids.sgid ∷ []))

        permitted_lem :
            (not (
                is_new_gid K rgid (K.make_kgid rgid) c.ids
                || (is_new_gid K egid (K.make_kgid egid) c.ids
                    || is_new_gid K sgid (K.make_kgid sgid) c.ids))
              || q.capable cap_setgid c)
            ≡ permitted
        permitted_lem = rw (all_may, is_new_gid-may, is_new_gid-may, is_new_gid-may) refl

        by_permission :
            same ≡ false
            → (t : Machine World) → Starts K q c h t
            → (permitted ≡ true) ⊎ (permitted ≡ false)
            → Settled K q c h Denied Kept (
                (if permitted
                    then with_new_cred K minus_enomem (setresgid_new K rgid egid sgid c)
                    else pure minus_eperm)
                  t)
        by_permission change t v (inl granted) = rw granted (
            with_new_cred-Settled K q c h Denied Kept (setresgid_new K rgid egid sgid c) t v (λ u w.
              setresgid_new-Settled u w (
                on_groups-some (setresuid_rule (q.capable cap_setgid c) real effective saved) c.ids
                  _ (rw (change, granted) refl))))
        by_permission change t v (inr refused) = rw refused (
          v.1,
          inr (
            (
              refl,
              inr (
                  inr (
                    refl,
                    on_groups-none (setresuid_rule (q.capable cap_setgid c) real effective saved)
                        c.ids (rw (change, refused) refl),
                  )),
            ),
            v.0,
          ),
        )

    -- `setresgid` does one of three things, and gives back the new credentials that it held. It
    -- returns 0 where the rule allows it, and the identities have become those of the rule; or it
    -- returns -EINVAL for an invalid argument or -EPERM where the rule refuses, and changes no
    -- credentials; or it returns an error with which the kernel refuses one of the requests of the
    -- call, and changes no credentials.
    pub setresgid-Settled :
        (s : Machine World)
        → Starts K q c h s
        → Settled K q c h Denied Kept (setresgid K rgid egid sgid s)
    unfolding setresgid
    setresgid-Settled s start =
        elim (Bool-cases (is_set rgid && not (id_valid (K.make_kgid rgid)))) [
          | inl bad ↦ rw bad (start.1, inr ((refl, inr (inl (refl, rw bad refl))), start.0))
          | inr real_ok ↦ elim (Bool-cases (is_set egid && not (id_valid (K.make_kgid egid)))) [
            | inl bad ↦
                rw (real_ok, bad)
                  (start.1, inr ((refl, inr (inl (refl, rw (real_ok, bad) refl))), start.0))
            | inr egid_ok ↦ elim (Bool-cases (is_set sgid && not (id_valid (K.make_kgid sgid)))) [
              | inl bad ↦
                  rw (real_ok, egid_ok, bad)
                    (
                      start.1,
                      inr ((refl, inr (inl (refl, rw (real_ok, egid_ok, bad) refl))), start.0),
                    )
              | inr sgid_ok ↦
                  rw (real_ok, egid_ok, sgid_ok)
                    (look-Settled K q c h Denied Kept checked s start.0 (checked-Settled s start))
            ]
          ]
        ]
