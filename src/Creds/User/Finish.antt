-- ===== src/Creds/User/Finish.antt =====
-- The end that the calls on user identities share: it installs the identities that it is given.
use sistemas_operativos.Prelude.Int.{ℤ}
use sistemas_operativos.Prelude.{ℕ, ◌≡◌, refl, ◌∙◌, inl, inr, List, ◌==◌, Bool-cases}
use sistemas_operativos.Kernel.Machine.{Machine, Resource, ◌>>=◌, ◌>>◌}
use sistemas_operativos.Creds.{
  Ids, Cred, CredKernel, Setid, fix_setuid, set_ucounts, flag_nproc_exceeded,
}
use sistemas_operativos.Creds.Documented.{Documented}
use sistemas_operativos.Creds.Settled.{Working, Attempted, Settled, attempt-Settled}
use sistemas_operativos.Creds.Steps.{
  fix_setuid-Attempted, set_ucounts-Attempted, set_user-Attempted, commit-Settled,
}
use sistemas_operativos.Creds.User.{finish_uids, flag_and_commit, count_and_commit, change_user}

module _ (K : CredKernel) (q : Documented K) (c : Cred K.Caps) (h : List Resource)
    (D : ℤ → Type 0) where
  open K use {World, Caps}

  flag_and_commit-Settled :
      (Q : Ids → Type 0) (new : Cred Caps) (s : Machine World)
      → Working K q c h s
      → Q new.ids
      → Settled K q c h D Q (flag_and_commit K new s)
  unfolding flag_and_commit flag_nproc_exceeded
  flag_and_commit-Settled Q new s w meets =
      elim (Bool-cases (new.ucounts == (K.current_cred s.world).ucounts)) [
        | inl same ↦
            rw (flag_and_commit, flag_nproc_exceeded, ◌>>◌, ◌>>=◌, same)
              (commit-Settled K q c h D Q new _ w meets)
        | inr other ↦
            rw (flag_and_commit, flag_nproc_exceeded, ◌>>◌, ◌>>=◌, other)
              (commit-Settled K q c h D Q new _ (q.current-flag _ s.world ∙ w.0, w.1) meets)
      ]

  count_and_commit-Settled :
      (Q : Ids → Type 0) (new : Cred Caps) (s : Machine World)
      → Working K q c h s
      → Q new.ids
      → Settled K q c h D Q (count_and_commit K new s)
  unfolding count_and_commit
  count_and_commit-Settled Q new s w meets =
      attempt-Settled K q c h D Q (λ n. n.ids ≡ new.ids) (set_ucounts K new) (flag_and_commit K) s
        (set_ucounts-Attempted K q c h D new s w)
        (λ counted t v e. flag_and_commit-Settled Q counted t v (rw e meets))

  -- The end that the calls share installs the identities that it is given.
  pub finish_uids-Settled :
      (Q : Ids → Type 0) (flag : Setid) (old new : Cred Caps) (s : Machine World)
      → Working K q c h s
      → Q new.ids
      → Settled K q c h D Q (finish_uids K flag old new s)
  unfolding finish_uids
  finish_uids-Settled Q flag old new s w meets =
      attempt-Settled K q c h D Q (λ n. n.ids ≡ new.ids) (fix_setuid K flag old new)
        (count_and_commit K) s (fix_setuid-Attempted K q c h D flag old new s w)
        (λ fixed t v e. count_and_commit-Settled Q fixed t v (rw e meets))

  pub change_user-Attempted :
      (uid : ℕ) (old new : Cred Caps) (s : Machine World)
      → Working K q c h s
      → Attempted K q c h D (λ n. n.ids ≡ new.ids) (change_user K uid old new s)
  unfolding change_user
  change_user-Attempted uid old new s w = elim (Bool-cases (uid == old.ids.uid)) [
    | inl same ↦ rw same (w, refl)
    | inr other ↦ rw other (set_user-Attempted K q c h D new s w)
  ]
