-- ===== src/Creds/Group/Setgid.antt =====
-- `setgid` keeps to its rule.
use sistemas_operativos.Prelude.Int.{ℤ}
use sistemas_operativos.Prelude.{
  none, ◌⊎◌, ℕ, ◌≡◌, refl, inl, inr, some, List, true, ◌==◌, Bool-cases, arith, Option, ◌||◌, false,
}
use sistemas_operativos.Kernel.Errno.{minus_einval}
use sistemas_operativos.Kernel.Machine.{Machine, Resource, ◌>>=◌, call, pure}
use sistemas_operativos.Creds.{
  Ids, Cred, CredKernel, setid_id, cap_setgid, id_valid, ◌>>?◌, minus_eperm,
}
use sistemas_operativos.Creds.Documented.{Documented}
use sistemas_operativos.Creds.Settled.{
  Starts, Working, Attempted, look-Settled, capable-Settled, Settled, attempt-Settled,
}
use sistemas_operativos.Creds.Steps.{with_new_cred-Settled}
use sistemas_operativos.Creds.Group.Rules.{setgid_rule}
use sistemas_operativos.Creds.Group.{finish_gids, setgid_choice, setgid_new, setgid}
use sistemas_operativos.Creds.Group.Finish.{finish_gids-Settled}

module _ (K : CredKernel) (q : Documented K) (c : Cred K.Caps) (h : List Resource) (gid : ℕ) where
  open K use {World, Caps}

  abbrev kgid : ℕ
  kgid = K.make_kgid gid

  -- What the rule gives.
  abbrev ruled : Option Ids
  ruled = setgid_rule (q.capable cap_setgid c) kgid c.ids

  abbrev pub Kept : Ids → Type 0
  Kept ids = (id_valid kgid ≡ true) × (ruled ≡ some ids)

  -- The errors of the call itself.
  abbrev pub Denied : ℤ → Type 0
  Denied e = ((e ≡ minus_einval) × (id_valid kgid ≡ false)) ⊎ ((e ≡ minus_eperm) × (ruled ≡ none))

  setgid_choice-Attempted :
      (s : Machine World)
      → Working K q c h s
      → Attempted K q c h Denied
          (λ n. ruled ≡ some n.ids)
          (pure (setgid_choice K kgid (q.capable cap_setgid c) c c) s)
  setgid_choice-Attempted s w = elim (Bool-cases (q.capable cap_setgid c)) [
    | inl privileged ↦ rw privileged (w, refl)
    | inr plain ↦ elim (Bool-cases (kgid == c.ids.gid || kgid == c.ids.sgid)) [
      | inl own ↦ rw (plain, own) (w, choosing own)
      | inr other ↦ rw (plain, other) (w, (refl, inr (inr (refl, rw plain (refusing other)))))
    ]
  ]
    where
      choosing :
          (kgid == c.ids.gid || kgid == c.ids.sgid) ≡ true
          → setgid_rule false kgid c.ids ≡ some (record c.ids { egid = kgid; fsgid = kgid })
      choosing own = ground (arith, own)

      refusing :
          (kgid == c.ids.gid || kgid == c.ids.sgid) ≡ false → setgid_rule false kgid c.ids ≡ none
      refusing other = ground (arith, other)

  setgid_new-Settled :
      id_valid kgid ≡ true
      → (s : Machine World) → Working K q c h s
      → Settled K q c h Denied Kept (setgid_new K kgid c s)
  unfolding setgid_new
  setgid_new-Settled valid s w =
      look-Settled K q c h Denied Kept
        (λ old. call (K.ns_capable_setid cap_setgid) >>= λ privileged.
          ◌>>?◌ K (pure (setgid_choice K kgid privileged old c)) (finish_gids K setid_id old))
        s w.0
        (capable-Settled K q c h Denied Kept cap_setgid
          (λ privileged.
            ◌>>?◌ K (pure (setgid_choice K kgid privileged c c)) (finish_gids K setid_id c))
          s w
          λ t v.
            attempt-Settled K q c h Denied Kept (λ n. ruled ≡ some n.ids)
              (pure (setgid_choice K kgid (q.capable cap_setgid c) c c)) (finish_gids K setid_id c)
              t (setgid_choice-Attempted t v)
              (λ chosen u x e.
                finish_gids-Settled K q c h Denied Kept setid_id c chosen u x (valid, e)))

  -- `setgid` does one of three things, and gives back the new credentials that it held. It returns
  -- 0 for a valid identity that the rule allows, and the identities have become those of the rule;
  -- or it returns -EINVAL for an invalid identity or -EPERM where the rule refuses, and changes no
  -- credentials; or it returns an error with which the kernel refuses one of the requests of the
  -- call, and changes no credentials.
  pub setgid-Settled :
      (s : Machine World) → Starts K q c h s → Settled K q c h Denied Kept (setgid K gid s)
  unfolding setgid
  setgid-Settled s start = elim (Bool-cases (id_valid kgid)) [
    | inr bad ↦ rw bad (start.1, inr ((refl, inr (inl (refl, bad))), start.0))
    | inl valid ↦ rw valid (
        with_new_cred-Settled K q c h Denied Kept (setgid_new K kgid) s start
          (setgid_new-Settled valid))
  ]
