-- ===== src/Tests/Limits.antt =====
-- The calls on limits, for a caller without privilege. The world is the limits, which are equal for
-- all resources but the one that was set, and the structure in the memory of the user.
use sistemas_operativos.Prelude.{
  ℕ, ◌≡◌, refl, ap, true, false, ◌&&◌, ◌==◌, ==_iff, if◌then◌else◌, Option, none, some, List, [],
  ◌∷◌, arith,
}
use sistemas_operativos.Prelude.Int.{ℤ, pos}
use sistemas_operativos.Kernel.Errno.{minus_einval}
use sistemas_operativos.Kernel.Machine.{Machine}
use sistemas_operativos.Kernel.Keeps.{Kept}
use sistemas_operativos.Creds.{Ids, minus_eperm}
use sistemas_operativos.Limits.{Rlimit, RlimKernel, getrlimit, setrlimit, prlimit64}
use sistemas_operativos.Limits.Confined.{Documented, Confined}
use sistemas_operativos.Limits.Calls.{
  Call, call_getrlimit, call_setrlimit, call_prlimit64, perform_all, perform_all-Confined,
}

record Limited : Type 0 where
  limits : ℕ → ℕ → Rlimit
  user : Rlimit

abbrev ids : Ids
ids = record {
  uid = 1000;
  euid = 1000;
  suid = 1000;
  fsuid = 1000;
  gid = 1000;
  egid = 1000;
  sgid = 1000;
  fsgid = 1000;
}

abbrev rlim_kernel : RlimKernel
rlim_kernel = record {
  World = Limited;
  UserPtr = Unit {0};
  current_task = λ w. 1;
  find_task_by_vpid = λ n w. none;
  rlim = λ t r w. w.limits t r;
  set_rlim =
      λ p q new w. record w { limits = λ t r. if (t == p) && (r == q) then new else w.limits t r };
  sysctl_nr_open = λ w. 1048576;
  posix_timers = true;
  capable = λ w. (false, w);
  ns_capable = λ t w. (false, w);
  current_cred = λ w. ids;
  task_cred = λ t w. ids;
  security_task_setrlimit = λ t r new w. (pos 0, w);
  security_task_prlimit = λ t a b w. (pos 0, w);
  update_rlimit_cpu = λ t n w. w;
  copy_from_user = λ p w. (some w.user, w);
  copy_to_user = λ p l w. (true, record w { user = l });
}

abbrev documented : Documented rlim_kernel
documented = record {
  privileged = false;
  answer = λ w. refl;
  shares = λ t p. t == p;
  shared = λ t p r w e. ap (λ t. w.limits t r) ((==_iff t p).0 e);
  stored = λ p q new w t r. refl;
  capable-Same = λ w t r. refl;
  ns_capable-Same = λ n w t r. refl;
  setrlimit-Same = λ n q new w t r. refl;
  prlimit-Same = λ n a b w t r. refl;
  cpu-Same = λ n m w t r. refl;
  from-Same = λ p w t r. refl;
  to-Same = λ p l w t r. refl;
}

abbrev machine : Rlimit → Machine Limited
machine l = record {
  world = record { limits = λ t r. record { rlim_cur = 1024; rlim_max = 4096 }; user = l };
  held = [];
}

-- Down to 2048 is allowed, and not back.
abbrev calls : List (Call rlim_kernel)
calls =
    call_setrlimit 7 tt
    ∷ call_getrlimit 7 tt
    ∷ call_prlimit64 (pos 0) 7 none (some tt)
    ∷ call_setrlimit 16 tt
    ∷ []

abbrev results : Option (List ℤ × Machine Limited) → List ℤ
results none = []
results (some (rs, s)) = rs

lowered :
    results (perform_all rlim_kernel calls (machine (record { rlim_cur = 2048; rlim_max = 2048 })))
    ≡ pos 0 ∷ pos 0 ∷ pos 0 ∷ minus_einval ∷ []
unfolding setrlimit getrlimit prlimit64
lowered = refl

raised :
    results (perform_all rlim_kernel calls (machine (record { rlim_cur = 1; rlim_max = 4097 })))
    ≡ minus_eperm ∷ pos 0 ∷ pos 0 ∷ minus_einval ∷ []
unfolding setrlimit getrlimit prlimit64
raised = refl

perform_all-Confined_example :
    Kept
      (Confined rlim_kernel documented
        (machine (record { rlim_cur = 2048; rlim_max = 2048 })).world)
      []
      (perform_all rlim_kernel calls (machine (record { rlim_cur = 2048; rlim_max = 2048 })))
perform_all-Confined_example =
    perform_all-Confined rlim_kernel documented calls
      (machine (record { rlim_cur = 2048; rlim_max = 2048 })) (λ t r. omega arith)
