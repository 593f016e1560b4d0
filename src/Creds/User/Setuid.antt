-- ===== src/Creds/User/Setuid.antt =====
-- `setuid` keeps to its rule.
use sistemas_operativos.Prelude.Int.{ℤ}
use sistemas_operativos.Prelude.{
  none, ◌⊎◌, ℕ, ◌≡◌, refl, inl, inr, some, List, true, ◌==◌, Bool-cases, arith, Option, ◌||◌, false,
}
use sistemas_operativos.Kernel.Errno.{minus_einval}
use sistemas_operativos.Kernel.Machine.{Machine, Resource, ◌>>=◌, call}
use sistemas_operativos.Creds.{
  Ids, Cred, CredKernel, setid_id, cap_setuid, id_valid, ◌>>?◌, minus_eperm,
}
use sistemas_operativos.Creds.Documented.{Documented}
use sistemas_operativos.Creds.Settled.{
  Starts, Working, Attempted, Attempted-weaken, look-Settled, capable-Settled, Settled,
  attempt-Settled,
}
use sistemas_operativos.Creds.Steps.{with_new_cred-Settled}
use sistemas_operativos.Creds.Rules.{setuid_rule}
use sistemas_operativos.Creds.User.{
  setuid_new, setuid_finish, change_user, setuid_choice, setuid, with_ids,
}
use sistemas_operativos.Creds.User.Finish.{finish_uids-Settled, change_user-Attempted}

module _ (K : CredKernel) (q : Documented K) (c : Cred K.Caps) (h : List Resource) (uid : ℕ) where
  open K use {World, Caps}

  abbrev kuid : ℕ
  kuid = K.make_kuid uid

  -- What the rule gives.
  abbrev ruled : Option Ids
  ruled = setuid_rule (q.capable cap_setuid c) kuid c.ids

  abbrev pub Kept : Ids → Type 0
  Kept ids = (id_valid kuid ≡ true) × (ruled ≡ some ids)

  -- The errors of the call itself.
  abbrev pub Denied : ℤ → Type 0
  Denied e = ((e ≡ minus_einval) × (id_valid kuid ≡ false)) ⊎ ((e ≡ minus_eperm) × (ruled ≡ none))

  setuid_choice-Attempted :
      (s : Machine World)
      → Working K q c h s
      → Attempted K q c h Denied
          (λ n. ruled ≡ some (record n.ids { euid = kuid; fsuid = kuid }))
          (setuid_choice K kuid (q.capable cap_setuid c) c c s)
  unfolding setuid_choice
  setuid_choice-Attempted s w = elim (Bool-cases (q.capable cap_setuid c)) [
    | inl privileged ↦ rw privileged (
        Attempted-weaken K q c h Denied (λ n. n.ids ≡ record c.ids { uid = kuid; suid = kuid })
          (λ n. setuid_rule true kuid c.ids ≡ some (record n.ids { euid = kuid; fsuid = kuid }))
          (change_user K kuid c (with_ids K c (record c.ids { uid = kuid; suid = kuid }))) s
          (λ n e. rw e refl)
          (change_user-Attempted K q c h Denied kuid c
            (with_ids K c (record c.ids { uid = kuid; suid = kuid })) s w))
    | inr plain ↦ elim (Bool-cases (kuid == c.ids.uid || kuid == c.ids.suid)) [
      | inl own ↦ rw (plain, own) (w, choosing own)
      | inr other ↦ rw (plain, other) (w, (refl, inr (inr (refl, rw plain (refusing other)))))
    ]
  ]
    where
      choosing :
          (kuid == c.ids.uid || kuid == c.ids.suid) ≡ true
          → setuid_rule false kuid c.ids ≡ some (record c.ids { euid = kuid; fsuid = kuid })
      choosing own = ground (arith, own)

      refusing :
          (kuid == c.ids.uid || kuid == c.ids.suid) ≡ false → setuid_rule false kuid c.ids ≡ none
      refusing other = ground (arith, other)

  setuid_new-Settled :
      id_valid kuid ≡ true
      → (s : Machine World) → Working K q c h s
      → Settled K q c h Denied Kept (setuid_new K kuid c s)
  unfolding setuid_new setuid_finish
  setuid_new-Settled valid s w =
      look-Settled K q c h Denied Kept
        (λ old. call (K.ns_capable_setid cap_setuid) >>= λ privileged.
          ◌>>?◌ K (setuid_choice K kuid privileged old c) (setuid_finish K kuid old))
        s w.0
        (capable-Settled K q c h Denied Kept cap_setuid
          (λ privileged. ◌>>?◌ K (setuid_choice K kuid privileged c c) (setuid_finish K kuid c)) s w
          λ t v.
            attempt-Settled K q c h Denied Kept
              (λ n. ruled ≡ some (record n.ids { euid = kuid; fsuid = kuid }))
              (setuid_choice K kuid (q.capable cap_setuid c) c c) (setuid_finish K kuid c) t
              (setuid_choice-Attempted t v)
              (λ chosen u x e. finish_uids-Settled K q c h Denied Kept setid_id c _ u x (valid, e)))

  -- `setuid` does one of three things, and gives back the new credentials that it held. It returns
  -- 0 for a valid identity that the rule allows, and the identities have become those of the rule;
  -- or it returns -EINVAL for an invalid identity or -EPERM where the rule refuses, and changes no
  -- credentials; or it returns an error with which the kernel refuses one of the requests of the
  -- call, and changes no credentials.
  pub setuid-Settled :
      (s : Machine World) → Starts K q c h s → Settled K q c h Denied Kept (setuid K uid s)
  unfolding setuid
  setuid-Settled s start = elim (Bool-cases (id_valid kuid)) [
    | inr bad ↦ rw bad (start.1, inr ((refl, inr (inl (refl, bad))), start.0))
    | inl valid ↦ rw valid (
        with_new_cred-Settled K q c h Denied Kept (setuid_new K kuid) s start
          (setuid_new-Settled valid))
  ]
