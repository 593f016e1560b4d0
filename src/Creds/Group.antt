-- ===== src/Creds/Group.antt =====
-- The calls on group identities of Practica1/linux-6.6.44/kernel/sys.c. They own no user_struct
-- and count no processes, so they end sooner than those on user identities.
pub mod Rules
pub mod Finish
pub mod Setregid
pub mod Setgid
pub mod Setresgid
pub mod Setfsgid
use sistemas_operativos.Prelude.{ℕ, Bool, not, ◌&&◌, ◌||◌, ◌==◌, if◌then◌else◌}
use sistemas_operativos.Prelude.Int.{ℤ, pos}
use sistemas_operativos.Kernel.Errno.{minus_einval, minus_enomem}
use sistemas_operativos.Kernel.Machine.{M, ◌>>=◌, pure, call, look}
use sistemas_operativos.Creds.{
  Ids, Cred, CredKernel, Setid, cap_setgid, setid_re, setid_id, setid_res, setid_fs, is_set,
  id_valid, minus_eperm, is_zero, Attempt, proceed, fail, abort, ◌>>?◌, with_new_cred, or_capable,
  or_eperm, commit, fix_setgid, put_three,
}

module _ (K : CredKernel) where
  open K use {World, Caps}

  abbrev pub with_ids : Cred Caps → Ids → Cred Caps
  with_ids new ids = record new { ids = ids }

  unfoldable pub finish_gids : Setid → Cred Caps → Cred Caps → M World ℤ
  unfolding fix_setgid commit
  finish_gids flag old new = ◌>>?◌ K (fix_setgid K flag old new) (commit K)

  unfoldable pub setregid_rgid : ℕ → ℕ → Cred Caps → Cred Caps → M World (Attempt (Cred Caps))
  unfolding or_eperm
  setregid_rgid rgid krgid old new =
      if is_set rgid
      then or_eperm K (old.ids.gid == krgid || old.ids.egid == krgid) cap_setgid
          (with_ids new (record new.ids { gid = krgid }))
      else pure (proceed new)

  unfoldable pub setregid_egid : ℕ → ℕ → Cred Caps → Cred Caps → M World (Attempt (Cred Caps))
  unfolding or_eperm
  setregid_egid egid kegid old new =
      if is_set egid
      then or_eperm K (old.ids.gid == kegid || (old.ids.egid == kegid || old.ids.sgid == kegid))
          cap_setgid (with_ids new (record new.ids { egid = kegid }))
      else pure (proceed new)

  abbrev pub setregid_saved : ℕ → ℕ → ℕ → Ids → Ids → Ids
  setregid_saved rgid egid kegid old new =
      if is_set rgid || (is_set egid && not (kegid == old.gid))
      then record new { sgid = new.egid; fsgid = new.egid }
      else record new { fsgid = new.egid }

  unfoldable pub setregid_finish : (rgid egid kegid : ℕ) → Cred Caps → Cred Caps → M World ℤ
  unfolding finish_gids
  setregid_finish rgid egid kegid old effective =
      finish_gids setid_re old
        (with_ids effective (setregid_saved rgid egid kegid old.ids effective.ids))

  unfoldable pub setregid_effective : (rgid egid kegid : ℕ) → Cred Caps → Cred Caps → M World ℤ
  unfolding setregid_egid setregid_finish
  setregid_effective rgid egid kegid old real =
      ◌>>?◌ K (setregid_egid egid kegid old real) (setregid_finish rgid egid kegid old)

  unfoldable pub setregid_new : (rgid egid krgid kegid : ℕ) → Cred Caps → M World ℤ
  unfolding setregid_rgid setregid_effective
  setregid_new rgid egid krgid kegid new = look K.current_cred >>= λ old.
      ◌>>?◌ K (setregid_rgid rgid krgid old new) (setregid_effective rgid egid kegid old)

  unfoldable pub setregid : ℕ → ℕ → M World ℤ
  unfolding with_new_cred setregid_new
  setregid rgid egid =
      let krgid = K.make_kgid rgid in
      let kegid = K.make_kgid egid in
      if is_set rgid && not (id_valid krgid)
      then pure minus_einval
      else if is_set egid && not (id_valid kegid)
      then pure minus_einval
      else with_new_cred K minus_enomem (setregid_new rgid egid krgid kegid)

  abbrev pub setgid_choice : ℕ → Bool → Cred Caps → Cred Caps → Attempt (Cred Caps)
  setgid_choice kgid privileged old new =
      if privileged
      then proceed
          (with_ids new (record new.ids { gid = kgid; egid = kgid; sgid = kgid; fsgid = kgid }))
      else if kgid == old.ids.gid || kgid == old.ids.sgid
      then proceed (with_ids new (record new.ids { egid = kgid; fsgid = kgid }))
      else fail minus_eperm

  unfoldable pub setgid_new : ℕ → Cred Caps → M World ℤ
  unfolding finish_gids
  setgid_new kgid new = look K.current_cred >>= λ old.
      call (K.ns_capable_setid cap_setgid) >>= λ privileged.
      ◌>>?◌ K (pure (setgid_choice kgid privileged old new)) (finish_gids setid_id old)

  unfoldable pub setgid : ℕ → M World ℤ
  unfolding with_new_cred setgid_new
  setgid gid =
      let kgid = K.make_kgid gid in
      if not (id_valid kgid)
      then pure minus_einval
      else with_new_cred K minus_enomem (setgid_new kgid)

  abbrev pub is_new_gid : ℕ → ℕ → Ids → Bool
  is_new_gid id kid old =
      is_set id && (not (kid == old.gid) && (not (kid == old.egid) && not (kid == old.sgid)))

  abbrev pub setresgid_noop : (rgid egid sgid krgid kegid ksgid : ℕ) → Ids → Bool
  setresgid_noop rgid egid sgid krgid kegid ksgid old =
      (not (is_set rgid) || krgid == old.gid)
      && ((not (is_set egid) || (kegid == old.egid && kegid == old.fsgid))
          && (not (is_set sgid) || ksgid == old.sgid))

  abbrev pub setresgid_ids : (rgid egid sgid krgid kegid ksgid : ℕ) → Ids → Ids
  setresgid_ids rgid egid sgid krgid kegid ksgid new =
      let real = if is_set rgid then krgid else new.gid in
      let effective = if is_set egid then kegid else new.egid in
      let saved = if is_set sgid then ksgid else new.sgid in
      record new { gid = real; egid = effective; sgid = saved; fsgid = effective }

  unfoldable pub setresgid_new : (rgid egid sgid : ℕ) → Cred Caps → Cred Caps → M World ℤ
  unfolding finish_gids
  setresgid_new rgid egid sgid old new = finish_gids setid_res old (
      with_ids new (
        setresgid_ids rgid egid sgid (K.make_kgid rgid) (K.make_kgid egid) (K.make_kgid sgid)
          new.ids))

  unfoldable pub setresgid : ℕ → ℕ → ℕ → M World ℤ
  unfolding or_capable with_new_cred setresgid_new
  setresgid rgid egid sgid =
      let krgid = K.make_kgid rgid in
      let kegid = K.make_kgid egid in
      let ksgid = K.make_kgid sgid in
      if is_set rgid && not (id_valid krgid)
      then pure minus_einval
      else if is_set egid && not (id_valid kegid)
      then pure minus_einval
      else if is_set sgid && not (id_valid ksgid)
      then pure minus_einval
      else (look K.current_cred >>= λ old.
          if setresgid_noop rgid egid sgid krgid kegid ksgid old.ids
          then pure (pos 0)
          else (or_capable K
                (not (
                  is_new_gid rgid krgid old.ids
                  || (is_new_gid egid kegid old.ids || is_new_gid sgid ksgid old.ids)))
                cap_setgid
              >>= λ allowed.
                  if allowed
                  then with_new_cred K minus_enomem (setresgid_new rgid egid sgid old)
                  else pure minus_eperm))

  unfoldable pub getresgid : ℕ → ℕ → ℕ → M World ℤ
  unfolding put_three
  getresgid rgidp egidp sgidp = look K.current_cred >>= λ cred.
      put_three K (K.from_kgid_munged cred.ids.gid) (K.from_kgid_munged cred.ids.egid)
        (K.from_kgid_munged cred.ids.sgid) rgidp egidp sgidp

  unfoldable pub setfsgid_change : ℤ → Cred Caps → Cred Caps → M World ℤ
  unfolding commit
  setfsgid_change old_fsgid old new =
      call (K.security_task_fix_setgid new old setid_fs) >>= λ fixed.
      if is_zero fixed.0
      then (commit K (record new { caps = fixed.1 }) >>= λ _. pure old_fsgid)
      else abort K old_fsgid

  unfoldable pub setfsgid_new : ℕ → ℤ → Cred Caps → Cred Caps → M World ℤ
  unfolding or_capable setfsgid_change
  setfsgid_new kgid old_fsgid old new =
      or_capable K
        (kgid == old.ids.gid
          || (kgid == old.ids.egid || (kgid == old.ids.sgid || kgid == old.ids.fsgid)))
        cap_setgid
      >>= λ allowed.
          if allowed && not (kgid == old.ids.fsgid)
          then setfsgid_change old_fsgid old (with_ids new (record new.ids { fsgid = kgid }))
          else abort K old_fsgid

  unfoldable pub setfsgid_old : ℕ → Cred Caps → M World ℤ
  unfolding with_new_cred setfsgid_new
  setfsgid_old gid old =
      let old_fsgid = pos (K.from_kgid_munged old.ids.fsgid) in
      let kgid = K.make_kgid gid in
      if not (id_valid kgid)
      then pure old_fsgid
      else with_new_cred K old_fsgid (setfsgid_new kgid old_fsgid old)

  unfoldable pub setfsgid : ℕ → M World ℤ
  unfolding setfsgid_old
  setfsgid gid = look K.current_cred >>= setfsgid_old gid

  -- getgid and getegid.
  unfoldable pub getgid : M World ℤ
  getgid = look λ w. pos (K.from_kgid_munged (K.current_cred w).ids.gid)

  unfoldable pub getegid : M World ℤ
  getegid = look λ w. pos (K.from_kgid_munged (K.current_cred w).ids.egid)
