-- ===== src/Creds/Group/Finish.antt =====
-- The end that the calls on group identities share: it installs the identities that it is given.
use sistemas_operativos.Prelude.{◌≡◌, List}
use sistemas_operativos.Prelude.Int.{ℤ}
use sistemas_operativos.Kernel.Machine.{Machine, Resource}
use sistemas_operativos.Creds.{Ids, Cred, CredKernel, Setid, fix_setgid, commit}
use sistemas_operativos.Creds.Documented.{Documented}
use sistemas_operativos.Creds.Settled.{Working, Settled, attempt-Settled}
use sistemas_operativos.Creds.Steps.{fix_setgid-Attempted, commit-Settled}
use sistemas_operativos.Creds.Group.{finish_gids}

module _ (K : CredKernel) (q : Documented K) (c : Cred K.Caps) (h : List Resource)
    (D : ℤ → Type 0) where
  open K use {World, Caps}

  pub finish_gids-Settled :
      (Q : Ids → Type 0) (flag : Setid) (old new : Cred Caps) (s : Machine World)
      → Working K q c h s
      → Q new.ids
      → Settled K q c h D Q (finish_gids K flag old new s)
  unfolding finish_gids
  finish_gids-Settled Q flag old new s w meets =
      attempt-Settled K q c h D Q (λ n. n.ids ≡ new.ids) (fix_setgid K flag old new) (commit K) s
        (fix_setgid-Attempted K q c h D flag old new s w)
        (λ fixed t v e. commit-Settled K q c h D Q fixed t v (rw e meets))
