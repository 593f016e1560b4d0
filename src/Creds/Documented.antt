-- ===== src/Creds/Documented.antt =====
-- What is assumed of the kernel: which calls leave the credentials of the process alone, that
-- `prepare_creds` copies them and `commit_creds` installs the new ones, and that the answer on a
-- capability rests on them.
use sistemas_operativos.Prelude.{ℕ, ◌≡◌, none, some, Bool, true, false}
use sistemas_operativos.Prelude.Int.{ℤ, pos}
use sistemas_operativos.Kernel.Errno.{minus_enomem}
use sistemas_operativos.Creds.{
  Cred, CredKernel, Capability, Setid, is_negative, is_zero, minus_eagain, setid_fs,
}

pub record Documented (K : CredKernel) : Type 0 where
  pub capable : Capability → Cred K.Caps → Bool
  pub prepared :
      (w : K.World) (new : Cred K.Caps) → (K.prepare_creds w).0 ≡ some new → new ≡ K.current_cred w
  pub current-prepare : (w : K.World) → K.current_cred (K.prepare_creds w).1 ≡ K.current_cred w
  pub committed : (new : Cred K.Caps) (w : K.World) → K.current_cred (K.commit_creds new w).1 ≡ new
  pub commit_zero : (new : Cred K.Caps) (w : K.World) → (K.commit_creds new w).0 ≡ pos 0
  pub current-abort : (w : K.World) → K.current_cred (K.abort_creds w) ≡ K.current_cred w
  pub answer :
      (cap : Capability) (w : K.World)
      → (K.ns_capable_setid cap w).0 ≡ capable cap (K.current_cred w)
  pub current-capable :
      (cap : Capability) (w : K.World)
      → K.current_cred (K.ns_capable_setid cap w).1 ≡ K.current_cred w
  pub current-fix_setuid :
      (new old : Cred K.Caps) (flag : Setid) (w : K.World)
      → K.current_cred (K.security_task_fix_setuid new old flag w).1 ≡ K.current_cred w
  pub current-fix_setgid :
      (new old : Cred K.Caps) (flag : Setid) (w : K.World)
      → K.current_cred (K.security_task_fix_setgid new old flag w).1 ≡ K.current_cred w
  pub current-alloc :
      (uid : ℕ) (w : K.World) → K.current_cred (K.alloc_uid uid w).1 ≡ K.current_cred w
  pub current-free :
      (user : ℕ) (w : K.World) → K.current_cred (K.free_uid user w) ≡ K.current_cred w
  pub current-ucounts :
      (new : Cred K.Caps) (w : K.World)
      → K.current_cred (K.set_cred_ucounts new w).1 ≡ K.current_cred w
  pub current-flag :
      (flag : Bool) (w : K.World) → K.current_cred (K.set_nproc_exceeded flag w) ≡ K.current_cred w

-- The errors with which the kernel may refuse a call on identities, each in some state of it. A
-- kernel that serves every request has none.
pub data Refused (K : CredKernel) : ℤ → Type 0 where
  no_memory : (w : K.World) → (K.prepare_creds w).0 ≡ none → Refused K minus_enomem
  no_user : (uid : ℕ) (w : K.World) → (K.alloc_uid uid w).0 ≡ none → Refused K minus_eagain
  setuid_refused :
      (new old : Cred K.Caps) (flag : Setid) (w : K.World)
      → is_negative (K.security_task_fix_setuid new old flag w).0.0 ≡ true
      → Refused K (K.security_task_fix_setuid new old flag w).0.0
  setgid_refused :
      (new old : Cred K.Caps) (flag : Setid) (w : K.World)
      → is_negative (K.security_task_fix_setgid new old flag w).0.0 ≡ true
      → Refused K (K.security_task_fix_setgid new old flag w).0.0
  ucounts_refused :
      (new : Cred K.Caps) (w : K.World)
      → is_negative (K.set_cred_ucounts new w).0.0 ≡ true
      → Refused K (K.set_cred_ucounts new w).0.0

-- The same for the two calls on the file system identity.
pub data FsRefused (K : CredKernel) : Type 0 where
  fs_no_memory : (w : K.World) → (K.prepare_creds w).0 ≡ none → FsRefused K
  fsuid_refused :
      (new old : Cred K.Caps) (w : K.World)
      → is_zero (K.security_task_fix_setuid new old setid_fs w).0.0 ≡ false
      → FsRefused K
  fsgid_refused :
      (new old : Cred K.Caps) (w : K.World)
      → is_zero (K.security_task_fix_setgid new old setid_fs w).0.0 ≡ false
      → FsRefused K
