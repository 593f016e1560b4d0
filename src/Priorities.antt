-- ===== src/Priorities.antt =====
-- setpriority and getpriority of Practica1/linux-6.6.44/kernel/sys.c. A task is a number. What the
-- two calls read and do not change (the tasks, their groups and identities, the caller) is the
-- table of the world.
pub mod Select
pub mod Visits
pub mod Nice
pub mod Greatest
pub mod Outcome
pub mod RoundTrip
use sistemas_operativos.Prelude.{
  ℕ, Bool, true, false, not, ◌&&◌, ◌||◌, ◌==◌, ltb, if◌then◌else◌, Option, none, some, List, [],
  ◌∷◌,
}
use sistemas_operativos.Prelude.Int.{ℤ, pos, negsuc}
use sistemas_operativos.Kernel.Errno.{minus_esrch, minus_eacces, minus_einval}
use sistemas_operativos.Kernel.Machine.{
  M, ◌>>=◌, ◌>>◌, pure, call, look, acquire, release, rcu_lock, tasklist_lock, user_reference,
}
use sistemas_operativos.Creds.{minus_eperm, is_zero}
use sistemas_operativos.Sessions.{same_ℤ}

pub record PrioKernel : Type 1 where
  pub World : Type 0
  pub Table : Type 0
  pub table : World → Table
  pub current_task : Table → ℕ
  pub find_task_by_vpid : ℤ → Table → Option ℕ
  pub find_vpid : ℤ → Table → ℕ
  pub task_pgrp : ℕ → Table → ℕ
  -- The tasks of `do_each_pid_thread` and `for_each_process_thread`.
  pub group_threads : ℕ → Table → List ℕ
  pub process_threads : Table → List ℕ
  pub make_kuid : ℤ → Table → ℕ
  pub cred_uid : Table → ℕ
  pub cred_euid : Table → ℕ
  pub task_uid : ℕ → Table → ℕ
  pub task_euid : ℕ → Table → ℕ
  pub task_pid_vnr : ℕ → Table → ℤ
  pub task_nice : ℕ → World → ℤ
  pub nice_to_rlimit : ℤ → ℤ
  pub ns_capable : ℕ → World → Bool × World
  pub can_nice : ℕ → ℤ → World → Bool × World
  pub security_task_setnice : ℕ → ℤ → World → ℤ × World
  pub set_user_nice : ℕ → ℤ → World → World
  -- Whether the user is found; then a reference is taken.
  pub find_user : ℕ → World → Bool × World
  pub free_uid : World → World

-- PRIO_PROCESS, PRIO_PGRP, PRIO_USER and the bounds of nice values.
abbrev pub prio_process : ℤ
prio_process = pos 0

abbrev pub prio_pgrp : ℤ
prio_pgrp = pos 1

abbrev pub prio_user : ℤ
prio_user = pos 2

abbrev pub min_nice : ℤ
min_nice = negsuc 19

abbrev pub max_nice : ℤ
max_nice = pos 19

abbrev pub less : ℤ → ℤ → Bool
less (pos m) (pos n) = ltb m n
less (negsuc m) (negsuc n) = ltb n m
less (pos m) (negsuc n) = false
less (negsuc m) (pos n) = true

-- The two tests that bring a value between the bounds.
unfoldable pub clamp : ℤ → ℤ
clamp niceval =
    let raised = if less niceval min_nice then min_nice else niceval in
    if less max_nice raised then max_nice else raised

module _ (K : PrioKernel) where
  open K use {World, Table}

  unfoldable pub same_user : ℕ → Table → Bool
  same_user p t = (K.task_uid p t == K.cred_euid t) || (K.task_euid p t == K.cred_euid t)

  unfoldable pub or_privileged : ℕ → Bool → M World Bool
  or_privileged p same = if same then pure true else call (K.ns_capable p)

  unfoldable pub set_one_prio_perm : ℕ → M World Bool
  unfolding same_user or_privileged
  set_one_prio_perm p = look (λ w. same_user p (K.table w)) >>= or_privileged p

  unfoldable pub set_if : ℕ → ℤ → (error no_nice : ℤ) → M World ℤ
  set_if p niceval error no_nice =
      if is_zero no_nice
      then (call (λ w. (tt, K.set_user_nice p niceval w))
          >> pure (if same_ℤ error minus_esrch then pos 0 else error))
      else pure no_nice

  unfoldable pub set_unless_refused : ℕ → ℤ → ℤ → Bool → M World ℤ
  unfolding set_if
  set_unless_refused p niceval error allowed =
      if allowed
      then (call (K.security_task_setnice p niceval) >>= set_if p niceval error)
      else pure minus_eacces

  unfoldable pub or_can_nice : ℕ → ℤ → Bool → M World Bool
  or_can_nice p niceval lower = if lower then call (K.can_nice p niceval) else pure true

  -- `niceval < task_nice(p) && !can_nice(p, niceval)`, negated.
  unfoldable pub may_nice : ℕ → ℤ → M World Bool
  unfolding or_can_nice
  may_nice p niceval = look (λ w. less niceval (K.task_nice p w)) >>= or_can_nice p niceval

  unfoldable pub set_if_permitted : ℕ → ℤ → ℤ → Bool → M World ℤ
  unfolding set_unless_refused may_nice
  set_if_permitted p niceval error permitted =
      if permitted
      then (may_nice p niceval >>= set_unless_refused p niceval error)
      else pure minus_eperm

  unfoldable pub set_one_prio : ℕ → (niceval error : ℤ) → M World ℤ
  unfolding set_one_prio_perm set_if_permitted
  set_one_prio p niceval error = set_one_prio_perm p >>= set_if_permitted p niceval error

  -- What getpriority does with a task.
  unfoldable pub greater_prio : ℕ → ℤ → M World ℤ
  greater_prio p retval = look (λ w. K.nice_to_rlimit (K.task_nice p w)) >>= λ niceval.
      pure (if less retval niceval then niceval else retval)

  unfoldable pub belongs : ℕ → ℕ → Table → Bool
  belongs uid p t = (K.task_uid p t == uid) && not (is_zero (K.task_pid_vnr p t))

  unfoldable pub task_of : ℤ → Table → Option ℕ
  task_of who t = if is_zero who then some (K.current_task t) else K.find_task_by_vpid who t

  unfoldable pub pgrp_of : ℤ → Table → ℕ
  pgrp_of who t = if is_zero who then K.task_pgrp (K.current_task t) t else K.find_vpid who t

  unfoldable pub user_of : ℤ → Table → ℕ
  user_of who t = if is_zero who then K.cred_uid t else K.make_kuid who t

  unfoldable pub unlock_tasks : ℤ → M World ℤ
  unlock_tasks error = release tasklist_lock >> pure error

  unfoldable pub put_user_reference : ℤ → M World ℤ
  put_user_reference error =
      call (λ w. (tt, K.free_uid w)) >> (release user_reference >> pure error)

  unfoldable pub unlock_visits : ℤ → M World ℤ
  unlock_visits error = release rcu_lock >> pure error

  module _ (visit : ℕ → ℤ → M World ℤ) where
    unfoldable pub visit_found : Option ℕ → ℤ → M World ℤ
    visit_found none error = pure error
    visit_found (some p) error = visit p error

    -- A loop over threads.
    unfoldable pub visit_all : List ℕ → ℤ → M World ℤ
    visit_all [] error = pure error
    visit_all (p ∷ rest) error = visit p error >>= visit_all rest

    unfoldable pub visit_group : ℕ → ℤ → M World ℤ
    unfolding visit_all unlock_tasks
    visit_group pgrp error =
        acquire tasklist_lock
        >> (look (λ w. K.group_threads pgrp (K.table w)) >>= λ threads.
            visit_all threads error >>= unlock_tasks)

    unfoldable pub visit_if : Bool → ℕ → ℤ → M World ℤ
    visit_if mine p error = if mine then visit p error else pure error

    unfoldable pub visit_user : ℕ → List ℕ → ℤ → M World ℤ
    unfolding belongs visit_if
    visit_user uid [] error = pure error
    visit_user uid (p ∷ rest) error = look (λ w. belongs uid p (K.table w)) >>= λ mine.
        visit_if mine p error >>= visit_user uid rest

    unfoldable pub visit_processes : ℕ → ℤ → M World ℤ
    unfolding visit_user
    visit_processes uid error =
        look (λ w. K.process_threads (K.table w)) >>= λ threads. visit_user uid threads error

    unfoldable pub visit_if_found : ℕ → ℤ → Bool → M World ℤ
    unfolding visit_processes put_user_reference
    visit_if_found uid error found =
        if found
        then (acquire user_reference >> (visit_processes uid error >>= put_user_reference))
        else pure error

    -- No reference is taken to the caller's own user.
    unfoldable pub visit_own_or_found : ℕ → ℤ → Bool → M World ℤ
    unfolding visit_if_found
    visit_own_or_found uid error own =
        if own
        then visit_processes uid error
        else (call (K.find_user uid) >>= visit_if_found uid error)

    -- The `switch` that both calls have.
    unfoldable pub visit_which : ℤ → ℤ → ℤ → M World ℤ
    unfolding task_of visit_found pgrp_of visit_group user_of visit_own_or_found
    visit_which which who error =
        if same_ℤ which prio_process
        then (look (λ w. task_of who (K.table w)) >>= λ p. visit_found p error)
        else if same_ℤ which prio_pgrp
        then (look (λ w. pgrp_of who (K.table w)) >>= λ pgrp. visit_group pgrp error)
        else (look (λ w. user_of who (K.table w)) >>= λ uid.
            look (λ w. uid == K.cred_uid (K.table w)) >>= visit_own_or_found uid error)

    -- Under `rcu_read_lock`, if `which` is one of the three.
    unfoldable pub visit_locked : ℤ → ℤ → M World ℤ
    unfolding visit_which unlock_visits
    visit_locked which who =
        if less prio_user which || less which prio_process
        then pure minus_einval
        else (acquire rcu_lock >> (visit_which which who minus_esrch >>= unlock_visits))

  unfoldable pub setpriority : (which who niceval : ℤ) → M World ℤ
  unfolding set_one_prio visit_locked clamp
  setpriority which who niceval =
      visit_locked (λ p error. set_one_prio p (clamp niceval) error) which who

  unfoldable pub getpriority : (which who : ℤ) → M World ℤ
  unfolding greater_prio visit_locked
  getpriority which who = visit_locked greater_prio which who
