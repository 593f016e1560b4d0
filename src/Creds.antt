-- ===== src/Creds.antt =====
-- The credentials of a process, as the calls of Practica1/linux-6.6.44/kernel/sys.c on user and
-- group identities see them, and the steps that those calls share.
pub mod Calls
pub mod Documented
pub mod Settled
pub mod Steps
pub mod Rules
pub mod Fs
pub mod User
pub mod Group
use sistemas_operativos.Prelude.{
  ℕ, ◌-◌, ◌^◌, Bool, true, false, not, ◌==◌, if◌then◌else◌, Option, none, some,
}
use sistemas_operativos.Prelude.Int.{ℤ, pos, negsuc}
use sistemas_operativos.Kernel.Machine.{
  M, ◌>>=◌, ◌>>◌, pure, call, look, acquire, release, new_cred,
}

-- The identities, as kuid_t and kgid_t.
pub record Ids : Type 0 where
  pub uid : ℕ
  pub euid : ℕ
  pub suid : ℕ
  pub fsuid : ℕ
  pub gid : ℕ
  pub egid : ℕ
  pub sgid : ℕ
  pub fsgid : ℕ

-- `struct cred`: the pointers `user` and `ucounts` by their addresses, and the sets of
-- capabilities, which only the security modules read.
pub record Cred (Caps : Type 0) : Type 0 where
  pub ids : Ids
  pub user : ℕ
  pub ucounts : ℕ
  pub caps : Caps

pub data Capability : Type 0 where
  cap_setuid cap_setgid : Capability

-- LSM_SETID_RE, LSM_SETID_ID, LSM_SETID_RES, LSM_SETID_FS
pub data Setid : Type 0 where
  setid_re setid_id setid_res setid_fs : Setid

-- What the calls use of the kernel. The user namespace is that of the process.
pub record CredKernel : Type 1 where
  pub World : Type 0
  pub Caps : Type 0
  pub init_user : ℕ
  pub make_kuid : ℕ → ℕ
  pub make_kgid : ℕ → ℕ
  pub from_kuid_munged : ℕ → ℕ
  pub from_kgid_munged : ℕ → ℕ
  pub current_cred : World → Cred Caps
  pub prepare_creds : World → Option (Cred Caps) × World
  pub commit_creds : Cred Caps → World → ℤ × World
  pub abort_creds : World → World
  pub ns_capable_setid : Capability → World → Bool × World
  -- The new credentials and the old ones: the result, and the new sets of capabilities.
  pub security_task_fix_setuid : Cred Caps → Cred Caps → Setid → World → (ℤ × Caps) × World
  pub security_task_fix_setgid : Cred Caps → Cred Caps → Setid → World → (ℤ × Caps) × World
  pub alloc_uid : ℕ → World → Option ℕ × World
  pub free_uid : ℕ → World → World
  -- The result, and the new `ucounts`.
  pub set_cred_ucounts : Cred Caps → World → (ℤ × ℕ) × World
  pub put_user : ℕ → ℕ → World → ℤ × World
  -- Whether the limit on processes is exceeded.
  pub is_rlimit_overlimit : ℕ → World → Bool
  pub set_nproc_exceeded : Bool → World → World

-- `(uid_t) -1`, which stands for an identity that is not to change, and INVALID_UID.
abbrev pub minus_one : ℕ
minus_one = 2 ^ 32 - 1

abbrev pub is_set : ℕ → Bool
is_set id = not (id == minus_one)

abbrev pub id_valid : ℕ → Bool
id_valid kid = not (kid == minus_one)

abbrev pub minus_eperm : ℤ
minus_eperm = negsuc 0

abbrev pub minus_eagain : ℤ
minus_eagain = negsuc 10

abbrev pub is_negative : ℤ → Bool
is_negative (pos n) = false
is_negative (negsuc n) = true

-- A step of a call: it goes on, or it jumps to `error` with a result.
pub data Attempt (A : Type 0) : Type 0 where
  proceed : A → Attempt A
  fail : ℤ → Attempt A

abbrev pub is_zero : ℤ → Bool
is_zero (pos n) = n == 0
is_zero (negsuc n) = false

module _ (K : CredKernel) where
  open K use {World, Caps}

  -- The label `error`.
  abbrev pub abort : ℤ → M World ℤ
  abort retval = release new_cred >> call (λ w. (tt, K.abort_creds w)) >>= λ _. pure retval

  infixl 5 ◌>>?◌
  abbrev pub ◌>>?◌ : {A : Type 0} → M World (Attempt A) → (A → M World ℤ) → M World ℤ
  m >>? k = m >>= λ r. elim r [ proceed a ↦ k a | fail e ↦ abort e ]

  -- `prepare_creds`, or -ENOMEM.
  unfoldable pub with_new_cred : ℤ → (Cred Caps → M World ℤ) → M World ℤ
  with_new_cred failure k = call K.prepare_creds >>= λ prepared. elim prepared [
    | none ↦ pure failure
    | some new ↦ acquire new_cred >> k new
  ]

  -- `test || ns_capable_setid(...)`: the capability is asked for only if the test fails.
  unfoldable pub or_capable : Bool → Capability → M World Bool
  or_capable test cap = if test then pure true else call (K.ns_capable_setid cap)

  unfoldable pub or_eperm : Bool → Capability → Cred Caps → M World (Attempt (Cred Caps))
  unfolding or_capable
  or_eperm test cap new =
      or_capable test cap >>= λ allowed. pure (if allowed then proceed new else fail minus_eperm)

  unfoldable pub commit : Cred Caps → M World ℤ
  commit new = release new_cred >> call (K.commit_creds new)

  unfoldable pub fix_setuid : Setid → Cred Caps → Cred Caps → M World (Attempt (Cred Caps))
  fix_setuid flag old new = call (K.security_task_fix_setuid new old flag) >>= λ fixed.
      pure (if is_negative fixed.0 then fail fixed.0 else proceed (record new { caps = fixed.1 }))

  unfoldable pub fix_setgid : Setid → Cred Caps → Cred Caps → M World (Attempt (Cred Caps))
  fix_setgid flag old new = call (K.security_task_fix_setgid new old flag) >>= λ fixed.
      pure (if is_negative fixed.0 then fail fixed.0 else proceed (record new { caps = fixed.1 }))

  unfoldable pub set_user : Cred Caps → M World (Attempt (Cred Caps))
  set_user new = call (K.alloc_uid new.ids.uid) >>= λ user. elim user [
    | none ↦ pure (fail minus_eagain)
    | some new_user ↦ call (λ w. (tt, K.free_uid new.user w)) >>= λ _.
        pure (proceed (record new { user = new_user }))
  ]

  unfoldable pub set_ucounts : Cred Caps → M World (Attempt (Cred Caps))
  set_ucounts new = call (K.set_cred_ucounts new) >>= λ counted. pure (
      if is_negative counted.0
      then fail counted.0
      else proceed (record new { ucounts = counted.1 }))

  unfoldable pub flag_nproc_exceeded : Cred Caps → M World (Unit {0})
  flag_nproc_exceeded new = do
    current_ucounts ← look (λ w. (K.current_cred w).ucounts)
    over ← look (K.is_rlimit_overlimit new.ucounts)
    let flag = if over then not (new.user == K.init_user) else false
    if new.ucounts == current_ucounts
        then pure tt
        else call (λ w. (tt, K.set_nproc_exceeded flag w))

  -- `put_user` of three values, until one fails.
  unfoldable pub put_three : (a b c : ℕ) → (ap bp cp : ℕ) → M World ℤ
  put_three a b c ap bp cp = call (K.put_user a ap) >>= λ retval.
      if is_zero retval
      then (call (K.put_user b bp) >>= λ retval.
          if is_zero retval then call (K.put_user c cp) else pure retval)
      else pure retval
