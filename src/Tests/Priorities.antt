-- ===== src/Tests/Priorities.antt =====
-- The calls on priorities, for three processes of two users. The world is the nice value stored
-- for each.
use sistemas_operativos.Prelude.{
  ℕ, ◌+◌, ◌-◌, ◌≡◌, refl, Bool-cases, inl, inr, true, ◌==◌, ltb, if◌then◌else◌, Option, none, some,
  [], ◌∷◌, arith,
}
use sistemas_operativos.Prelude.Int.{ℤ, pos, negsuc}
use sistemas_operativos.Kernel.Machine.{Machine}
use sistemas_operativos.Priorities.{PrioKernel, setpriority, getpriority}
use sistemas_operativos.Priorities.Select.{in_range, priority_figure, nearest, Documented, selected}
use sistemas_operativos.Priorities.Greatest.{Found, getpriority-Found}
use sistemas_operativos.Priorities.Outcome.{Set, setpriority-Set}
use sistemas_operativos.Priorities.RoundTrip.{setpriority-getpriority}

-- 20 less the value.
abbrev rlimit : ℤ → ℤ
rlimit (pos n) = if ltb n 21 then pos (20 - n) else negsuc (n - 21)
rlimit (negsuc n) = pos (21 + n)

rlimit_figure : (n : ℤ) → in_range n ≡ true → rlimit n ≡ priority_figure n
rlimit_figure (pos n) e = ground arith
rlimit_figure (negsuc n) e = refl

-- A nice value from what is stored.
abbrev stored_nice : ℤ → ℤ
stored_nice n = if in_range n then n else pos 0

stored_nice_range : (n : ℤ) → in_range (stored_nice n) ≡ true
stored_nice_range n = elim (Bool-cases (in_range n)) [
  | inl proper ↦ rw proper proper
  | inr other ↦ rw other refl
]

abbrev set_nice : ℕ → ℤ → (ℕ → ℤ) → ℕ → ℤ
set_nice p n w = if in_range n then (λ q. if q == p then n else w q) else w

set_nice-nice :
    (p : ℕ) (n : ℤ) (w : ℕ → ℤ) (q : ℕ)
    → in_range n ≡ true
    → stored_nice (set_nice p n w q) ≡ (if q == p then n else stored_nice (w q))
set_nice-nice p n w q proper = elim (Bool-cases (q == p)) [
  | inl same ↦ rw (proper, same) (rw proper refl)
  | inr other ↦ rw (proper, other) refl
]

abbrev find : ℤ → Option ℕ
find (pos n) = if ltb n 4 then some n else none
find (negsuc n) = none

abbrev number : ℤ → ℕ
number (pos n) = n
number (negsuc n) = 0

-- Process 1 is the caller; processes 2 and 3 are of user 7 and in group 2.
abbrev prio_kernel : PrioKernel
prio_kernel = record {
  World = ℕ → ℤ;
  Table = Unit {0};
  table = λ w. tt;
  current_task = λ t. 1;
  find_task_by_vpid = λ n t. find n;
  find_vpid = λ n t. number n;
  task_pgrp = λ p t. if p == 1 then 1 else 2;
  group_threads = λ g t. if g == 2 then 2 ∷ 3 ∷ [] else 1 ∷ [];
  process_threads = λ t. 1 ∷ 2 ∷ 3 ∷ [];
  make_kuid = λ n t. number n;
  cred_uid = λ t. 0;
  cred_euid = λ t. 0;
  task_uid = λ p t. if p == 1 then 0 else 7;
  task_euid = λ p t. if p == 1 then 0 else 7;
  task_pid_vnr = λ p t. pos p;
  task_nice = λ p w. stored_nice (w p);
  nice_to_rlimit = rlimit;
  ns_capable = λ p w. (true, w);
  can_nice = λ p n w. (true, w);
  security_task_setnice = λ p n w. (pos 0, w);
  set_user_nice = set_nice;
  find_user = λ uid w. (uid == 7, w);
  free_uid = λ w. w;
}

abbrev documented : Documented prio_kernel
documented = record {
  user_exists = λ uid t. uid == 7;
  found = λ uid w. refl;
  find_user-Same = λ uid w. record { table = refl; nice = λ p. refl };
  free_uid-Same = λ w. record { table = refl; nice = λ p. refl };
  ns_capable-Same = λ p w. record { table = refl; nice = λ p. refl };
  can_nice-Same = λ p n w. record { table = refl; nice = λ p. refl };
  setnice-Same = λ p n w. record { table = refl; nice = λ p. refl };
  setnice-answer = λ p n w. refl;
  task_nice_range = λ p w. stored_nice_range (w p);
  nice_to_rlimit-figure = rlimit_figure;
  set_user_nice-table = λ p n w. refl;
  set_user_nice-nice = set_nice-nice;
}

abbrev idle : Machine (ℕ → ℤ)
idle = record { world = λ p. pos 0; held = [] }

abbrev after : Machine (ℕ → ℤ)
after = record {
  world = λ p. if p == 3 then pos 19 else if p == 2 then pos 19 else pos 0;
  held = [];
}

set_user : setpriority prio_kernel (pos 2) (pos 7) (pos 100) idle ≡ some (pos 0, after)
unfolding setpriority
set_user = refl

get_user : getpriority prio_kernel (pos 2) (pos 7) after ≡ some (pos 1, after)
unfolding getpriority
get_user = refl

setpriority-Set_example :
    Set prio_kernel
      (nearest (pos 100))
      (selected prio_kernel documented (pos 2) (pos 7) tt)
      idle
      (setpriority prio_kernel (pos 2) (pos 7) (pos 100) idle)
setpriority-Set_example = setpriority-Set prio_kernel documented (pos 2) (pos 7) (pos 100) idle refl

getpriority-Found_example :
    Found prio_kernel
      (selected prio_kernel documented (pos 1) (pos 2) tt)
      after
      (getpriority prio_kernel (pos 1) (pos 2) after)
getpriority-Found_example = getpriority-Found prio_kernel documented (pos 1) (pos 2) after refl

setpriority-getpriority_example :
    (s : Machine (ℕ → ℤ)) × (getpriority prio_kernel (pos 2) (pos 7) after
      ≡ some (priority_figure (nearest (pos 100)), s))
setpriority-getpriority_example =
    setpriority-getpriority prio_kernel documented (pos 2) (pos 7) (pos 100) idle after set_user
