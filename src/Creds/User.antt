-- ===== src/Creds/User.antt =====
-- The calls on user identities of Practica1/linux-6.6.44/kernel/sys.c.
pub mod Finish
pub mod Setuid
pub mod Setreuid
pub mod Setresuid
pub mod Setfsuid
pub mod Among
pub mod Confined
use sistemas_operativos.Prelude.{ℕ, Bool, not, ◌&&◌, ◌||◌, ◌==◌, if◌then◌else◌}
use sistemas_operativos.Prelude.Int.{ℤ, pos}
use sistemas_operativos.Kernel.Errno.{minus_einval, minus_enomem}
use sistemas_operativos.Kernel.Machine.{M, ◌>>=◌, ◌>>◌, pure, call, look}
use sistemas_operativos.Creds.{
  Ids, Cred, CredKernel, Setid, cap_setuid, setid_re, setid_id, setid_res, setid_fs, is_set,
  id_valid, minus_eperm, is_zero, Attempt, proceed, fail, abort, ◌>>?◌, with_new_cred, or_capable,
  or_eperm, commit, fix_setuid, set_user, set_ucounts, flag_nproc_exceeded, put_three,
}

module _ (K : CredKernel) where
  open K use {World, Caps}

  abbrev pub with_ids : Cred Caps → Ids → Cred Caps
  with_ids new ids = record new { ids = ids }

  -- What the calls that change the real identity end with.
  unfoldable pub flag_and_commit : Cred Caps → M World ℤ
  unfolding flag_nproc_exceeded commit
  flag_and_commit counted = flag_nproc_exceeded K counted >> commit K counted

  unfoldable pub count_and_commit : Cred Caps → M World ℤ
  unfolding set_ucounts flag_and_commit
  count_and_commit fixed = ◌>>?◌ K (set_ucounts K fixed) flag_and_commit

  unfoldable pub finish_uids : Setid → Cred Caps → Cred Caps → M World ℤ
  unfolding fix_setuid count_and_commit
  finish_uids flag old new = ◌>>?◌ K (fix_setuid K flag old new) count_and_commit

  -- A new `user_struct`, if the real identity is another one.
  unfoldable pub change_user : ℕ → Cred Caps → Cred Caps → M World (Attempt (Cred Caps))
  unfolding set_user
  change_user uid old new = if uid == old.ids.uid then pure (proceed new) else set_user K new

  unfoldable pub setreuid_ruid : ℕ → ℕ → Cred Caps → Cred Caps → M World (Attempt (Cred Caps))
  unfolding or_eperm
  setreuid_ruid ruid kruid old new =
      if is_set ruid
      then or_eperm K (old.ids.uid == kruid || old.ids.euid == kruid) cap_setuid
          (with_ids new (record new.ids { uid = kruid }))
      else pure (proceed new)

  unfoldable pub setreuid_euid : ℕ → ℕ → Cred Caps → Cred Caps → M World (Attempt (Cred Caps))
  unfolding or_eperm
  setreuid_euid euid keuid old new =
      if is_set euid
      then or_eperm K (old.ids.uid == keuid || (old.ids.euid == keuid || old.ids.suid == keuid))
          cap_setuid (with_ids new (record new.ids { euid = keuid }))
      else pure (proceed new)

  abbrev pub setreuid_saved : ℕ → ℕ → ℕ → Ids → Ids → Ids
  setreuid_saved ruid euid keuid old new =
      if is_set ruid || (is_set euid && not (keuid == old.uid))
      then record new { suid = new.euid; fsuid = new.euid }
      else record new { fsuid = new.euid }

  unfoldable pub setreuid_finish : (ruid euid keuid : ℕ) → Cred Caps → Cred Caps → M World ℤ
  unfolding finish_uids
  setreuid_finish ruid euid keuid old owned =
      finish_uids setid_re old (with_ids owned (setreuid_saved ruid euid keuid old.ids owned.ids))

  unfoldable pub setreuid_owned : (ruid euid keuid : ℕ) → Cred Caps → Cred Caps → M World ℤ
  unfolding change_user setreuid_finish
  setreuid_owned ruid euid keuid old effective =
      ◌>>?◌ K (change_user effective.ids.uid old effective) (setreuid_finish ruid euid keuid old)

  unfoldable pub setreuid_effective : (ruid euid keuid : ℕ) → Cred Caps → Cred Caps → M World ℤ
  unfolding setreuid_euid setreuid_owned
  setreuid_effective ruid euid keuid old real =
      ◌>>?◌ K (setreuid_euid euid keuid old real) (setreuid_owned ruid euid keuid old)

  unfoldable pub setreuid_new : (ruid euid kruid keuid : ℕ) → Cred Caps → M World ℤ
  unfolding setreuid_ruid setreuid_effective
  setreuid_new ruid euid kruid keuid new = look K.current_cred >>= λ old.
      ◌>>?◌ K (setreuid_ruid ruid kruid old new) (setreuid_effective ruid euid keuid old)

  unfoldable pub setreuid : ℕ → ℕ → M World ℤ
  unfolding with_new_cred setreuid_new
  setreuid ruid euid =
      let kruid = K.make_kuid ruid in
      let keuid = K.make_kuid euid in
      if is_set ruid && not (id_valid kruid)
      then pure minus_einval
      else if is_set euid && not (id_valid keuid)
      then pure minus_einval
      else with_new_cred K minus_enomem (setreuid_new ruid euid kruid keuid)

  unfoldable pub setuid_choice : ℕ → Bool → Cred Caps → Cred Caps → M World (Attempt (Cred Caps))
  unfolding change_user
  setuid_choice kuid privileged old new =
      if privileged
      then change_user kuid old (with_ids new (record new.ids { uid = kuid; suid = kuid }))
      else if kuid == old.ids.uid || kuid == new.ids.suid
      then pure (proceed new)
      else pure (fail minus_eperm)

  unfoldable pub setuid_finish : ℕ → Cred Caps → Cred Caps → M World ℤ
  unfolding finish_uids
  setuid_finish kuid old chosen =
      finish_uids setid_id old (with_ids chosen (record chosen.ids { euid = kuid; fsuid = kuid }))

  unfoldable pub setuid_new : ℕ → Cred Caps → M World ℤ
  unfolding setuid_choice setuid_finish
  setuid_new kuid new = look K.current_cred >>= λ old.
      call (K.ns_capable_setid cap_setuid) >>= λ privileged.
      ◌>>?◌ K (setuid_choice kuid privileged old new) (setuid_finish kuid old)

  unfoldable pub setuid : ℕ → M World ℤ
  unfolding with_new_cred setuid_new
  setuid uid =
      let kuid = K.make_kuid uid in
      if not (id_valid kuid)
      then pure minus_einval
      else with_new_cred K minus_enomem (setuid_new kuid)

  -- An identity that is set and is none of the three of the process.
  abbrev pub is_new_uid : ℕ → ℕ → Ids → Bool
  is_new_uid id kid old =
      is_set id && (not (kid == old.uid) && (not (kid == old.euid) && not (kid == old.suid)))

  abbrev pub setresuid_noop : (ruid euid suid kruid keuid ksuid : ℕ) → Ids → Bool
  setresuid_noop ruid euid suid kruid keuid ksuid old =
      (not (is_set ruid) || kruid == old.uid)
      && ((not (is_set euid) || (keuid == old.euid && keuid == old.fsuid))
          && (not (is_set suid) || ksuid == old.suid))

  unfoldable pub setresuid_ruid : ℕ → ℕ → Cred Caps → Cred Caps → M World (Attempt (Cred Caps))
  unfolding change_user
  setresuid_ruid ruid kruid old new =
      if is_set ruid
      then change_user kruid old (with_ids new (record new.ids { uid = kruid }))
      else pure (proceed new)

  abbrev pub setresuid_rest : (euid suid keuid ksuid : ℕ) → Ids → Ids
  setresuid_rest euid suid keuid ksuid new =
      let effective = if is_set euid then keuid else new.euid in
      let saved = if is_set suid then ksuid else new.suid in
      record new { euid = effective; suid = saved; fsuid = effective }

  unfoldable pub setresuid_finish : (euid suid : ℕ) → Cred Caps → Cred Caps → M World ℤ
  unfolding finish_uids
  setresuid_finish euid suid old real =
      finish_uids setid_res old
        (with_ids real (setresuid_rest euid suid (K.make_kuid euid) (K.make_kuid suid) real.ids))

  unfoldable pub setresuid_new : (ruid euid suid : ℕ) → Cred Caps → Cred Caps → M World ℤ
  unfolding setresuid_ruid setresuid_finish
  setresuid_new ruid euid suid old new =
      ◌>>?◌ K (setresuid_ruid ruid (K.make_kuid ruid) old new) (setresuid_finish euid suid old)

  unfoldable pub setresuid : ℕ → ℕ → ℕ → M World ℤ
  unfolding or_capable with_new_cred setresuid_new
  setresuid ruid euid suid =
      let kruid = K.make_kuid ruid in
      let keuid = K.make_kuid euid in
      let ksuid = K.make_kuid suid in
      if is_set ruid && not (id_valid kruid)
      then pure minus_einval
      else if is_set euid && not (id_valid keuid)
      then pure minus_einval
      else if is_set suid && not (id_valid ksuid)
      then pure minus_einval
      else (look K.current_cred >>= λ old.
          if setresuid_noop ruid euid suid kruid keuid ksuid old.ids
          then pure (pos 0)
          else (or_capable K
                (not (
                  is_new_uid ruid kruid old.ids
                  || (is_new_uid euid keuid old.ids || is_new_uid suid ksuid old.ids)))
                cap_setuid
              >>= λ allowed.
                  if allowed
                  then with_new_cred K minus_enomem (setresuid_new ruid euid suid old)
                  else pure minus_eperm))

  unfoldable pub getresuid : ℕ → ℕ → ℕ → M World ℤ
  unfolding put_three
  getresuid ruidp euidp suidp = look K.current_cred >>= λ cred.
      put_three K (K.from_kuid_munged cred.ids.uid) (K.from_kuid_munged cred.ids.euid)
        (K.from_kuid_munged cred.ids.suid) ruidp euidp suidp

  unfoldable pub setfsuid_change : ℤ → Cred Caps → Cred Caps → M World ℤ
  unfolding commit
  setfsuid_change old_fsuid old new =
      call (K.security_task_fix_setuid new old setid_fs) >>= λ fixed.
      if is_zero fixed.0
      then (commit K (record new { caps = fixed.1 }) >>= λ _. pure old_fsuid)
      else abort K old_fsuid

  unfoldable pub setfsuid_new : ℕ → ℤ → Cred Caps → Cred Caps → M World ℤ
  unfolding or_capable setfsuid_change
  setfsuid_new kuid old_fsuid old new =
      or_capable K
        (kuid == old.ids.uid
          || (kuid == old.ids.euid || (kuid == old.ids.suid || kuid == old.ids.fsuid)))
        cap_setuid
      >>= λ allowed.
          if allowed && not (kuid == old.ids.fsuid)
          then setfsuid_change old_fsuid old (with_ids new (record new.ids { fsuid = kuid }))
          else abort K old_fsuid

  unfoldable pub setfsuid_old : ℕ → Cred Caps → M World ℤ
  unfolding with_new_cred setfsuid_new
  setfsuid_old uid old =
      let old_fsuid = pos (K.from_kuid_munged old.ids.fsuid) in
      let kuid = K.make_kuid uid in
      if not (id_valid kuid)
      then pure old_fsuid
      else with_new_cred K old_fsuid (setfsuid_new kuid old_fsuid old)

  unfoldable pub setfsuid : ℕ → M World ℤ
  unfolding setfsuid_old
  setfsuid uid = look K.current_cred >>= setfsuid_old uid

  -- getuid and geteuid.
  unfoldable pub getuid : M World ℤ
  getuid = look λ w. pos (K.from_kuid_munged (K.current_cred w).ids.uid)

  unfoldable pub geteuid : M World ℤ
  geteuid = look λ w. pos (K.from_kuid_munged (K.current_cred w).ids.euid)
