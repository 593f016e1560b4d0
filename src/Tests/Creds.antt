-- ===== src/Tests/Creds.antt =====
-- The calls on identities, for a process of user 1000 that came from a set-user-ID program of
-- root, so its saved identities are 0.
use sistemas_operativos.Prelude.{
  ℕ, ◌≡◌, refl, [], ◌∷◌, Bool, true, false, ◌==◌, Option, none, some, sym, arith, ◌+◌,
}
use mathlib.Core.Option.{some-injective}
use sistemas_operativos.Prelude.Int.{ℤ, pos}
use sistemas_operativos.Kernel.Machine.{Machine}
use sistemas_operativos.Creds.{Cred, CredKernel, id_valid, minus_one, minus_eperm}
use sistemas_operativos.Creds.Documented.{Documented}
use sistemas_operativos.Creds.Settled.{Settled}
use sistemas_operativos.Creds.Rules.{setuid_rule, setreuid_rule, setresuid_rule}
use sistemas_operativos.Creds.Fs.{Returns}
use sistemas_operativos.Creds.User.{setuid, setreuid, setresuid, setfsuid}
use sistemas_operativos.Creds.User.Setuid
use sistemas_operativos.Creds.User.Setreuid
use sistemas_operativos.Creds.User.Setresuid
use sistemas_operativos.Creds.User.Setuid.{setuid-Settled}
use sistemas_operativos.Creds.User.Setreuid.{setreuid-Settled}
use sistemas_operativos.Creds.User.Setresuid.{setresuid-Settled}
use sistemas_operativos.Creds.User.Confined.{
  call_setuid, call_setreuid, call_setresuid, call_setfsuid, Stays, perform_all, perform_all-Stays,
}
use sistemas_operativos.Creds.Calls.{group_calls-Settled, fs_calls-Returns}
use sistemas_operativos.Creds.Group.{setgid, setregid, setresgid, setfsgid}
use sistemas_operativos.Creds.Group.Rules.{setgid_rule, setregid_rule, setresgid_rule}
use sistemas_operativos.Creds.Group.Setgid
use sistemas_operativos.Creds.Group.Setregid
use sistemas_operativos.Creds.Group.Setresgid
use sistemas_operativos.Creds.Group.Setgid.{setgid-Settled}
use sistemas_operativos.Creds.Group.Setregid.{setregid-Settled}
use sistemas_operativos.Creds.Group.Setresgid.{setresgid-Settled}

-- The world is the credentials and the flag on processes. The capabilities are those of an
-- effective identity of root.
abbrev Proc : Type 0
Proc = Cred Bool × Bool

abbrev cred_kernel : CredKernel
cred_kernel = record {
  World = Proc;
  Caps = Bool;
  init_user = 0;
  make_kuid = λ id. id;
  make_kgid = λ id. id;
  from_kuid_munged = λ kid. kid;
  from_kgid_munged = λ kid. kid;
  current_cred = λ w. w.0;
  prepare_creds = λ w. (some w.0, w);
  commit_creds = λ new w. (pos 0, (new, w.1));
  abort_creds = λ w. w;
  ns_capable_setid = λ cap w. (w.0.ids.euid == 0, w);
  security_task_fix_setuid = λ new old flag w. ((pos 0, new.ids.euid == 0), w);
  security_task_fix_setgid = λ new old flag w. ((pos 0, new.caps), w);
  alloc_uid = λ uid w. (some (uid + 5000), w);
  free_uid = λ user w. w;
  set_cred_ucounts = λ new w. ((pos 0, new.ids.euid + 9000), w);
  put_user = λ value ptr w. (pos 0, w);
  is_rlimit_overlimit = λ ucounts w. true;
  set_nproc_exceeded = λ flag w. (w.0, flag);
}

abbrev documented : Documented cred_kernel
documented = record {
  capable = λ cap c. c.ids.euid == 0;
  prepared = λ w new given. some-injective new w.0 (sym given);
  current-prepare = λ w. refl;
  committed = λ new w. refl;
  commit_zero = λ new w. refl;
  current-abort = λ w. refl;
  answer = λ cap w. refl;
  current-capable = λ cap w. refl;
  current-fix_setuid = λ new old flag w. refl;
  current-fix_setgid = λ new old flag w. refl;
  current-alloc = λ uid w. refl;
  current-free = λ user w. refl;
  current-ucounts = λ new w. refl;
  current-flag = λ flag w. refl;
}

abbrev user_1000 : Cred Bool
user_1000 = record {
  ids = record {
    uid = 1000;
    euid = 1000;
    suid = 0;
    fsuid = 1000;
    gid = 1000;
    egid = 1000;
    sgid = 0;
    fsgid = 1000;
  };
  user = 6000;
  ucounts = 9000;
  caps = false;
}

abbrev running : Machine Proc
running = record { world = (user_1000, false); held = [] }

-- What a call returns, and the user identities and the flag that it leaves.
abbrev outcome : Option (ℤ × Machine Proc) → Option (ℤ × (ℕ × ℕ × ℕ × ℕ) × Bool)
outcome none = none
outcome (some (r, s)) =
    let i = s.world.0.ids in some (r, (i.uid, i.euid, i.suid, i.fsuid), s.world.1)

abbrev outcome_gids : Option (ℤ × Machine Proc) → Option (ℤ × (ℕ × ℕ × ℕ × ℕ))
outcome_gids none = none
outcome_gids (some (r, s)) = let i = s.world.0.ids in some (r, (i.gid, i.egid, i.sgid, i.fsgid))

back_to_root : outcome (setuid cred_kernel 0 running) ≡ some (pos 0, (1000, 0, 0, 0), false)
unfolding setuid
back_to_root = refl

refused : outcome (setuid cred_kernel 33 running) ≡ some (minus_eperm, (1000, 1000, 0, 1000), false)
unfolding setuid
refused = refl

dropped :
    outcome (setreuid cred_kernel minus_one 1000 running)
    ≡ some (pos 0, (1000, 1000, 0, 1000), true)
unfolding setreuid
dropped = refl

setuid-Settled_example :
    Settled cred_kernel documented user_1000 []
      (Setuid.Denied cred_kernel documented user_1000 [] 0)
      (λ ids. (id_valid 0 ≡ true) × (setuid_rule false 0 user_1000.ids ≡ some ids))
      (setuid cred_kernel 0 running)
setuid-Settled_example = setuid-Settled cred_kernel documented user_1000 [] 0 running (refl, refl)

setreuid-Settled_example :
    Settled cred_kernel documented user_1000 []
      (Setreuid.Denied cred_kernel documented user_1000 [] 0 1000)
      (λ ids. setreuid_rule false (some 0) (some 1000) user_1000.ids ≡ some ids)
      (setreuid cred_kernel 0 1000 running)
setreuid-Settled_example =
    setreuid-Settled cred_kernel documented user_1000 [] 0 1000 running (refl, refl)

setresuid-Settled_example :
    Settled cred_kernel documented user_1000 []
      (Setresuid.Denied cred_kernel documented user_1000 [] minus_one 0 1000)
      (λ ids. setresuid_rule false none (some 0) (some 1000) user_1000.ids ≡ some ids)
      (setresuid cred_kernel minus_one 0 1000 running)
setresuid-Settled_example =
    setresuid-Settled cred_kernel documented user_1000 [] minus_one 0 1000 running (refl, refl)

-- A process that has given up root for good.
abbrev settled_user : Cred Bool
settled_user = record user_1000 { ids = record user_1000.ids { suid = 1000 } }

abbrev confined : Machine Proc
confined = record { world = (settled_user, false); held = [] }

powerless : (k : ℕ) → (k == 1000) ≡ true → (k == 0) ≡ false
powerless k is_1000 = ground (arith, is_1000)

perform_all-Stays_example :
    Stays cred_kernel documented
      (λ k. k == 1000)
      []
      (perform_all cred_kernel
        (call_setuid 0 ∷ call_setreuid 0 33 ∷ call_setfsuid 0 ∷ call_setresuid 0 0 0 ∷ [])
        confined)
perform_all-Stays_example =
    perform_all-Stays cred_kernel documented (λ k. k == 1000)
      (λ m among. powerless m.ids.euid among.1)
      (call_setuid 0 ∷ call_setreuid 0 33 ∷ call_setfsuid 0 ∷ call_setresuid 0 0 0 ∷ []) confined
      (refl, refl, refl, refl)

-- The groups, for a process without privilege.
back_to_root_group :
    outcome_gids (setregid cred_kernel minus_one 0 running) ≡ some (pos 0, (1000, 0, 0, 0))
unfolding setregid
back_to_root_group = refl

group_calls-Settled_example :
    (Settled cred_kernel documented user_1000 []
      (Setgid.Denied cred_kernel documented user_1000 [] 0)
      (λ ids. (id_valid 0 ≡ true) × (setgid_rule false 0 user_1000.ids ≡ some ids))
      (setgid cred_kernel 0 running))
    × (Settled cred_kernel documented user_1000 []
        (Setregid.Denied cred_kernel documented user_1000 [] 0 1000)
        (λ ids. setregid_rule false (some 0) (some 1000) user_1000.ids ≡ some ids)
        (setregid cred_kernel 0 1000 running))
    × (Settled cred_kernel documented user_1000 []
        (Setresgid.Denied cred_kernel documented user_1000 [] 0 1000 1000)
        (λ ids. setresgid_rule false (some 0) (some 1000) (some 1000) user_1000.ids ≡ some ids)
        (setresgid cred_kernel 0 1000 1000 running))
group_calls-Settled_example =
    group_calls-Settled cred_kernel documented user_1000 [] 0 0 1000 1000 running (refl, refl)

fs_calls-Returns_example :
    (Returns cred_kernel documented user_1000 []
      (pos 1000)
      true
      (record user_1000.ids { fsuid = 0 })
      (setfsuid cred_kernel 0 running))
    × (Returns cred_kernel documented user_1000 []
        (pos 1000)
        true
        (record user_1000.ids { fsgid = 0 })
        (setfsgid cred_kernel 0 running))
fs_calls-Returns_example =
    fs_calls-Returns cred_kernel documented user_1000 [] 0 running (refl, refl)
