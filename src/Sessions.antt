-- ===== src/Sessions.antt =====
-- Process groups and sessions: setpgid, getpgid, getsid and setsid of
-- Practica1/linux-6.6.44/kernel/sys.c. A task is a number, the address of its `task_struct`, and so
-- is a `struct pid`, of which 0 is the null pointer; the state of the tasks is the world.
pub mod Documented
pub mod Orderly
pub mod Keeps
pub mod Setpgid
pub mod Founded
pub mod Setsid
pub mod Calls
use sistemas_operativos.Prelude.{
  ℕ, Bool, true, false, not, ◌||◌, ◌==◌, if◌then◌else◌, Option, none, some,
}
use sistemas_operativos.Prelude.Int.{ℤ, pos, negsuc}
use sistemas_operativos.Kernel.Errno.{minus_esrch, minus_eacces, minus_einval}
use sistemas_operativos.Kernel.Machine.{
  M, ◌>>=◌, ◌>>◌, pure, call, look, acquire, release, rcu_lock, tasklist_lock,
}
use sistemas_operativos.Creds.{minus_eperm, is_negative, is_zero}

-- What the calls use of the kernel. `group_leader` is that of the current task.
pub record SessionKernel : Type 1 where
  pub World : Type 0
  pub current_task : World → ℕ
  pub group_leader : World → ℕ
  pub find_task_by_vpid : ℤ → World → Option ℕ
  pub task_pid_vnr : ℕ → World → ℤ
  pub thread_group_leader : ℕ → World → Bool
  pub real_parent : ℕ → World → ℕ
  pub same_thread_group : ℕ → ℕ → World → Bool
  pub task_pid : ℕ → World → ℕ
  pub task_pgrp : ℕ → World → ℕ
  pub task_session : ℕ → World → ℕ
  -- `flags & PF_FORKNOEXEC`
  pub forknoexec : ℕ → World → Bool
  -- `signal->leader`
  pub session_leader : ℕ → World → Bool
  pub find_vpid : ℤ → World → ℕ
  -- `pid_task(…, PIDTYPE_PGID)`: the first task of a group.
  pub group_task : ℕ → World → Option ℕ
  pub pid_vnr : ℕ → World → ℤ
  pub security_task_setpgid : ℕ → ℤ → World → ℤ × World
  pub security_task_getpgid : ℕ → World → ℤ × World
  pub security_task_getsid : ℕ → World → ℤ × World
  -- `change_pid(…, PIDTYPE_PGID, …)` and `change_pid(…, PIDTYPE_SID, …)`
  pub change_pgrp : ℕ → ℕ → World → World
  pub change_session : ℕ → ℕ → World → World
  pub set_session_leader : ℕ → World → World
  pub proc_clear_tty : ℕ → World → World
  pub proc_sid_connector : ℕ → World → World
  pub sched_autogroup_create_attach : ℕ → World → World

abbrev pub same_ℤ : ℤ → ℤ → Bool
same_ℤ (pos m) (pos n) = m == n
same_ℤ (negsuc m) (negsuc n) = m == n
same_ℤ (pos m) (negsuc n) = false
same_ℤ (negsuc m) (pos n) = false

abbrev pub is_some : Option ℕ → Bool
is_some none = false
is_some (some n) = true

abbrev pub above_zero : ℤ → Bool
above_zero (pos n) = not (n == 0)
above_zero (negsuc n) = false

module _ (K : SessionKernel) where
  open K use {World}

  abbrev pub step : (World → World) → M World (Unit {0})
  step f = call (λ w. (tt, f w))

  unfoldable pub refuse_leader : ℕ → World → Option ℤ
  refuse_leader p w = if K.session_leader p w then some minus_eperm else none

  -- The tests on the task, up to that on its being the leader of a session.
  unfoldable pub refuse_task : ℕ → ℕ → World → Option ℤ
  unfolding refuse_leader
  refuse_task group_leader p w =
      if not (K.thread_group_leader p w)
      then some minus_einval
      else if K.same_thread_group (K.real_parent p w) group_leader w
      then if not (K.task_session p w == K.task_session group_leader w)
        then some minus_eperm
        else if not (K.forknoexec p w)
        then some minus_eacces
        else refuse_leader p w
      else if not (p == group_leader)
      then some minus_esrch
      else refuse_leader p w

  -- The group to go to, if it is in the session of the caller.
  unfoldable pub group_of : (group_leader p : ℕ) → (pid pgid : ℤ) → World → Option ℕ
  group_of group_leader p pid pgid w =
      if same_ℤ pgid pid
      then some (K.task_pid p w)
      else elim (K.group_task (K.find_vpid pgid w) w) [
        | none ↦ none
        | some g ↦
            if K.task_session g w == K.task_session group_leader w
            then some (K.find_vpid pgid w)
            else none
      ]

  unfoldable pub change_group : ℕ → ℕ → World → World
  change_group p pgrp w = if K.task_pgrp p w == pgrp then w else K.change_pgrp p pgrp w

  unfoldable pub move_if : ℕ → ℕ → ℤ → M World ℤ
  unfolding change_group
  move_if p pgrp err =
      if is_zero err then (step (change_group p pgrp) >> pure (pos 0)) else pure err

  unfoldable pub setpgid_move : ℕ → ℤ → Option ℕ → M World ℤ
  unfolding move_if
  setpgid_move p pgid none = pure minus_eperm
  setpgid_move p pgid (some pgrp) = call (K.security_task_setpgid p pgid) >>= move_if p pgrp

  unfoldable pub setpgid_asked : (group_leader p : ℕ) → ℤ → ℤ → Option ℤ → M World ℤ
  unfolding group_of setpgid_move
  setpgid_asked group_leader p pid pgid (some err) = pure err
  setpgid_asked group_leader p pid pgid none =
      look (group_of group_leader p pid pgid) >>= setpgid_move p pgid

  unfoldable pub setpgid_task : ℕ → ℤ → ℤ → Option ℕ → M World ℤ
  unfolding refuse_task setpgid_asked
  setpgid_task group_leader pid pgid none = pure minus_esrch
  setpgid_task group_leader pid pgid (some p) =
      look (refuse_task group_leader p) >>= setpgid_asked group_leader p pid pgid

  unfoldable pub setpgid_locked : ℕ → ℤ → ℤ → M World ℤ
  unfolding setpgid_task
  setpgid_locked group_leader pid pgid =
      look (K.find_task_by_vpid pid) >>= setpgid_task group_leader pid pgid

  -- The label `out`.
  unfoldable pub unlock_both : ℤ → M World ℤ
  unlock_both err = release tasklist_lock >> release rcu_lock >> pure err

  unfoldable pub setpgid_from : ℕ → ℤ → ℤ → M World ℤ
  unfolding setpgid_locked unlock_both
  setpgid_from group_leader pid pgid =
      if is_negative pgid
      then pure minus_einval
      else (acquire rcu_lock
          >> (acquire tasklist_lock >> (setpgid_locked group_leader pid pgid >>= unlock_both)))

  -- The numbers asked for: 0 is the caller, and the group of the process's own number.
  unfoldable pub task_number : ℤ → World → ℤ
  task_number pid w = if is_zero pid then K.task_pid_vnr (K.group_leader w) w else pid

  unfoldable pub setpgid : ℤ → ℤ → M World ℤ
  unfolding setpgid_from task_number
  setpgid pid pgid = look K.group_leader >>= λ group_leader. look (task_number pid) >>= λ pid.
      setpgid_from group_leader pid (if is_zero pgid then pid else pgid)

  unfoldable pub unlock_rcu : ℤ → M World ℤ
  unlock_rcu retval = release rcu_lock >> pure retval

  unfoldable pub number_if : ℕ → ℤ → M World ℤ
  number_if grp retval = if is_zero retval then look (K.pid_vnr grp) else pure retval

  unfoldable pub number_asked : (ℕ → World → ℤ × World) → ℕ → ℕ → M World ℤ
  unfolding number_if
  number_asked security p grp =
      if grp == 0 then pure minus_esrch else (call (security p) >>= number_if grp)

  unfoldable pub number_found : (ℕ → World → ℕ) → (ℕ → World → ℤ × World) → Option ℕ → M World ℤ
  unfolding number_asked
  number_found field security none = pure minus_esrch
  number_found field security (some p) = look (field p) >>= number_asked security p

  -- The number of a group or a session, of the caller or of a task that may be asked for.
  unfoldable pub number_of : (ℕ → World → ℕ) → (ℕ → World → ℤ × World) → ℤ → M World ℤ
  unfolding number_found
  number_of field security pid =
      if is_zero pid
      then look (λ w. K.pid_vnr (field (K.current_task w) w) w)
      else (look (K.find_task_by_vpid pid) >>= number_found field security)

  unfoldable pub getpgid : ℤ → M World ℤ
  unfolding number_of unlock_rcu
  getpgid pid =
      acquire rcu_lock >> (number_of K.task_pgrp K.security_task_getpgid pid >>= unlock_rcu)

  unfoldable pub getpgrp : M World ℤ
  unfolding getpgid
  getpgrp = getpgid (pos 0)

  unfoldable pub getsid : ℤ → M World ℤ
  unfolding number_of unlock_rcu
  getsid pid =
      acquire rcu_lock >> (number_of K.task_session K.security_task_getsid pid >>= unlock_rcu)

  unfoldable pub enter_session : ℕ → ℕ → World → World
  enter_session p pid w = if K.task_session p w == pid then w else K.change_session p pid w

  unfoldable pub set_special_pids : ℕ → World → World
  unfolding enter_session change_group
  set_special_pids pid w =
      let curr = K.group_leader w in change_group curr pid (enter_session curr pid w)

  unfoldable pub become_leader : (group_leader sid : ℕ) → World → World
  unfolding set_special_pids
  become_leader group_leader sid w =
      K.proc_clear_tty group_leader (set_special_pids sid (K.set_session_leader group_leader w))

  unfoldable pub setsid_locked : (group_leader sid : ℕ) → ℤ → M World ℤ
  unfolding become_leader
  setsid_locked group_leader sid session =
      look (λ w. K.session_leader group_leader w || is_some (K.group_task sid w)) >>= λ refused.
      if refused then pure minus_eperm else (step (become_leader group_leader sid) >> pure session)

  unfoldable pub announce : ℕ → ℤ → M World ℤ
  announce group_leader err =
      if above_zero err
      then (step (K.proc_sid_connector group_leader)
          >> (step (K.sched_autogroup_create_attach group_leader) >> pure err))
      else pure err

  unfoldable pub setsid_out : ℕ → ℤ → M World ℤ
  unfolding announce
  setsid_out group_leader err = release tasklist_lock >> announce group_leader err

  unfoldable pub setsid : M World ℤ
  unfolding setsid_locked setsid_out
  setsid = look K.group_leader >>= λ group_leader. look (K.task_pid group_leader) >>= λ sid.
      look (K.pid_vnr sid) >>= λ session.
      acquire tasklist_lock >> (setsid_locked group_leader sid session >>= setsid_out group_leader)
