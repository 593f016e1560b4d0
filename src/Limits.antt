-- ===== src/Limits.antt =====
-- Resource limits: do_prlimit with getrlimit, setrlimit and prlimit64 of
-- Practica1/linux-6.6.44/kernel/sys.c. Limits are unsigned numbers of 64 bits, so struct rlimit and
-- struct rlimit64 are one record. array_index_nospec is the identity below its bound.
pub mod Confined
pub mod Calls
use sistemas_operativos.Prelude.{
  ℕ, ◌-◌, ◌^◌, Bool, true, false, not, ◌&&◌, ◌==◌, ltb, leb, if◌then◌else◌, Option, none, some,
}
use sistemas_operativos.Prelude.Int.{ℤ, pos}
use sistemas_operativos.Kernel.Errno.{minus_esrch, minus_einval, minus_efault}
use sistemas_operativos.Kernel.Machine.{
  M, ◌>>=◌, ◌>>◌, pure, call, look, acquire, release, rcu_lock, task_lock, task_reference,
}
use sistemas_operativos.Creds.{Ids, minus_eperm, is_zero}

pub record Rlimit : Type 0 where
  pub rlim_cur : ℕ
  pub rlim_max : ℕ

pub record RlimKernel : Type 1 where
  pub World : Type 0
  pub UserPtr : Type 0
  pub current_task : World → ℕ
  pub find_task_by_vpid : ℤ → World → Option ℕ
  -- `tsk->signal->rlim + resource`
  pub rlim : (task resource : ℕ) → World → Rlimit
  pub set_rlim : (task resource : ℕ) → Rlimit → World → World
  pub sysctl_nr_open : World → ℕ
  pub posix_timers : Bool
  -- `capable(CAP_SYS_RESOURCE)`, and `ns_capable` in the namespace of a task.
  pub capable : World → Bool × World
  pub ns_capable : ℕ → World → Bool × World
  pub current_cred : World → Ids
  pub task_cred : ℕ → World → Ids
  pub security_task_setrlimit : ℕ → ℕ → Rlimit → World → ℤ × World
  -- Whether limits are read, and whether they are written.
  pub security_task_prlimit : ℕ → (read write : Bool) → World → ℤ × World
  pub update_rlimit_cpu : ℕ → ℕ → World → World
  pub copy_from_user : UserPtr → World → Option Rlimit × World
  -- Whether all was copied.
  pub copy_to_user : UserPtr → Rlimit → World → Bool × World

abbrev pub rlim_nlimits : ℕ
rlim_nlimits = 16

abbrev pub rlimit_cpu : ℕ
rlimit_cpu = 0

abbrev pub rlimit_nofile : ℕ
rlimit_nofile = 7

abbrev pub rlim_infinity : ℕ
rlim_infinity = 2 ^ 64 - 1

abbrev pub converted : ℕ → ℕ
converted n = if n == rlim_infinity then rlim_infinity else n

unfoldable pub rlim64_to_rlim : Rlimit → Rlimit
rlim64_to_rlim r = record { rlim_cur = converted r.rlim_cur; rlim_max = converted r.rlim_max }

unfoldable pub rlim_to_rlim64 : Rlimit → Rlimit
rlim_to_rlim64 r = record { rlim_cur = converted r.rlim_cur; rlim_max = converted r.rlim_max }

abbrev pub is_given : {A : Type 0} → Option A → Bool
is_given none = false
is_given (some a) = true

module _ (K : RlimKernel) where
  open K use {World, UserPtr}

  unfoldable pub refuse_new : (resource : ℕ) → Rlimit → World → Option ℤ
  refuse_new resource new w =
      if ltb new.rlim_max new.rlim_cur
      then some minus_einval
      else if (resource == rlimit_nofile) && ltb (K.sysctl_nr_open w) new.rlim_max
      then some minus_eperm
      else none

  unfoldable pub or_resource : Bool → M World Bool
  or_resource raises = if raises then call K.capable else pure true

  unfoldable pub ask_security : (tsk resource : ℕ) → Rlimit → Bool → M World ℤ
  ask_security tsk resource new allowed =
      if allowed then call (K.security_task_setrlimit tsk resource new) else pure minus_eperm

  unfoldable pub check_new : (tsk resource : ℕ) → Rlimit → M World ℤ
  unfolding or_resource ask_security
  check_new tsk resource new =
      (look (λ w. ltb (K.rlim tsk resource w).rlim_max new.rlim_max) >>= or_resource)
      >>= ask_security tsk resource new

  unfoldable pub arm_timer : (tsk resource : ℕ) → Rlimit → World → World
  arm_timer tsk resource new w =
      if (resource == rlimit_cpu) && (not (new.rlim_cur == rlim_infinity) && K.posix_timers)
      then K.update_rlimit_cpu tsk new.rlim_cur w
      else w

  -- With the lock: the limit from before, if no error was found, and the new one stored.
  unfoldable pub store_new : (tsk resource : ℕ) → Rlimit → ℤ → M World (ℤ × Option Rlimit)
  unfolding arm_timer
  store_new tsk resource new retval =
      if is_zero retval
      then (look (K.rlim tsk resource) >>= λ old.
          call (λ w. (tt, K.set_rlim tsk resource new w))
          >> (release task_lock
              >> (call (λ w. (tt, arm_timer tsk resource new w)) >> pure (pos 0, some old))))
      else (release task_lock >> pure (retval, none))

  unfoldable pub unless_refused :
      (tsk resource : ℕ) → Rlimit → Option ℤ → M World (ℤ × Option Rlimit)
  unfolding check_new store_new
  unless_refused tsk resource new (some err) = pure (err, none)
  unless_refused tsk resource new none =
      acquire task_lock >> (check_new tsk resource new >>= store_new tsk resource new)

  unfoldable pub change_limit : (tsk resource : ℕ) → Option Rlimit → M World (ℤ × Option Rlimit)
  unfolding refuse_new unless_refused
  change_limit tsk resource none =
      acquire task_lock
      >> (look (K.rlim tsk resource) >>= λ old. release task_lock >> pure (pos 0, some old))
  change_limit tsk resource (some new) =
      look (refuse_new resource new) >>= unless_refused tsk resource new

  -- The result, and what `*old_rlim` is set to where the pointer is given.
  unfoldable pub do_prlimit : (tsk resource : ℕ) → Option Rlimit → M World (ℤ × Option Rlimit)
  unfolding change_limit
  do_prlimit tsk resource new =
      if leb rlim_nlimits resource then pure (minus_einval, none) else change_limit tsk resource new

  unfoldable pub if_whole : ℤ → Bool → M World ℤ
  if_whole ret whole = if whole then pure ret else pure minus_efault

  -- The copy of the old limit to the user, where a pointer is given and no error was found.
  unfoldable pub give_back : (Rlimit → Rlimit) → Option UserPtr → ℤ × Option Rlimit → M World ℤ
  unfolding if_whole
  give_back convert none (ret, old) = pure ret
  give_back convert (some p) (ret, none) = pure ret
  give_back convert (some p) (ret, some old) =
      call (K.copy_to_user p (convert old)) >>= if_whole ret

  unfoldable pub getrlimit : (resource : ℕ) → UserPtr → M World ℤ
  unfolding do_prlimit give_back
  getrlimit resource rlim =
      look K.current_task >>= λ tsk. do_prlimit tsk resource none >>= give_back (λ r. r) (some rlim)

  unfoldable pub set_copied : (resource : ℕ) → Option Rlimit → M World ℤ
  unfolding do_prlimit give_back
  set_copied resource none = pure minus_efault
  set_copied resource (some new_rlim) = look K.current_task >>= λ tsk.
      do_prlimit tsk resource (some new_rlim) >>= give_back (λ r. r) none

  unfoldable pub setrlimit : (resource : ℕ) → UserPtr → M World ℤ
  unfolding set_copied
  setrlimit resource rlim = call (K.copy_from_user rlim) >>= set_copied resource

  unfoldable pub ask_prlimit : ℕ → (read write permitted : Bool) → M World ℤ
  ask_prlimit task read write permitted =
      if permitted then call (K.security_task_prlimit task read write) else pure minus_eperm

  unfoldable pub or_ns_capable : ℕ → Bool → M World Bool
  or_ns_capable task matches = if matches then pure true else call (K.ns_capable task)

  unfoldable pub id_match : ℕ → World → Bool
  id_match task w =
      let cred = K.current_cred w in
      let tcred = K.task_cred task w in
      cred.uid == tcred.euid
      && (cred.uid == tcred.suid
          && (cred.uid == tcred.uid
              && (cred.gid == tcred.egid && (cred.gid == tcred.sgid && cred.gid == tcred.gid))))

  unfoldable pub unless_own : ℕ → (read write own : Bool) → M World ℤ
  unfolding ask_prlimit or_ns_capable id_match
  unless_own task read write own =
      if own
      then pure (pos 0)
      else ((look (id_match task) >>= or_ns_capable task) >>= ask_prlimit task read write)

  unfoldable pub check_prlimit_permission : ℕ → (read write : Bool) → M World ℤ
  unfolding unless_own
  check_prlimit_permission task read write =
      look (λ w. K.current_task w == task) >>= unless_own task read write

  unfoldable pub put_task : ℤ → M World ℤ
  put_task ret = release task_reference >> pure ret

  unfoldable pub if_permitted : (resource : ℕ) → Option Rlimit → Option UserPtr → ℕ → ℤ → M World ℤ
  unfolding do_prlimit give_back put_task
  if_permitted resource new old_rlim tsk ret =
      if is_zero ret
      then (acquire task_reference
          >> (release rcu_lock
              >> ((do_prlimit tsk resource new >>= give_back rlim_to_rlim64 old_rlim)
                  >>= put_task)))
      else (release rcu_lock >> pure ret)

  unfoldable pub if_found : (resource : ℕ) → Option Rlimit → Option UserPtr → Option ℕ → M World ℤ
  unfolding check_prlimit_permission if_permitted
  if_found resource new old_rlim none = release rcu_lock >> pure minus_esrch
  if_found resource new old_rlim (some tsk) =
      check_prlimit_permission tsk (is_given old_rlim) (is_given new)
      >>= if_permitted resource new old_rlim tsk

  unfoldable pub task_for : ℤ → World → Option ℕ
  task_for pid w = if is_zero pid then some (K.current_task w) else K.find_task_by_vpid pid w

  unfoldable pub prlimit_task : ℤ → (resource : ℕ) → Option Rlimit → Option UserPtr → M World ℤ
  unfolding if_found task_for
  prlimit_task pid resource new old_rlim =
      acquire rcu_lock >> (look (task_for pid) >>= if_found resource new old_rlim)

  unfoldable pub if_copied : ℤ → (resource : ℕ) → Option UserPtr → Option Rlimit → M World ℤ
  unfolding prlimit_task
  if_copied pid resource old_rlim none = pure minus_efault
  if_copied pid resource old_rlim (some new64) =
      prlimit_task pid resource (some (rlim64_to_rlim new64)) old_rlim

  unfoldable pub prlimit64 : ℤ → (resource : ℕ) → (new_rlim old_rlim : Option UserPtr) → M World ℤ
  unfolding if_copied
  prlimit64 pid resource none old_rlim = prlimit_task pid resource none old_rlim
  prlimit64 pid resource (some p) old_rlim =
      call (K.copy_from_user p) >>= if_copied pid resource old_rlim
