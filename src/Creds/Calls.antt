-- ===== src/Creds/Calls.antt =====
-- The calls on the groups together, and the two calls on the file system identities.
use sistemas_operativos.Prelude.{ℕ, List}
use sistemas_operativos.Kernel.Machine.{Machine, Resource}
use sistemas_operativos.Creds.{Cred, CredKernel}
use sistemas_operativos.Creds.Documented.{Documented}
use sistemas_operativos.Creds.Settled.{Starts, Settled}
use sistemas_operativos.Creds.Fs.{Returns}
use sistemas_operativos.Creds.User.{setfsuid}
use sistemas_operativos.Creds.User.Setfsuid
use sistemas_operativos.Creds.User.Setfsuid.{setfsuid-Returns}
use sistemas_operativos.Creds.Group.{setgid, setregid, setresgid, setfsgid}
use sistemas_operativos.Creds.Group.Setgid
use sistemas_operativos.Creds.Group.Setregid
use sistemas_operativos.Creds.Group.Setresgid
use sistemas_operativos.Creds.Group.Setfsgid
use sistemas_operativos.Creds.Group.Setgid.{setgid-Settled}
use sistemas_operativos.Creds.Group.Setregid.{setregid-Settled}
use sistemas_operativos.Creds.Group.Setresgid.{setresgid-Settled}
use sistemas_operativos.Creds.Group.Setfsgid.{setfsgid-Returns}

module _ (K : CredKernel) (q : Documented K) (c : Cred K.Caps) (h : List Resource) where
  -- `setgid`, `setregid` and `setresgid` each do one of three things, and give back the new
  -- credentials that they held. They return 0 where the rule on the groups, which is that of
  -- setuid, setreuid or setresuid on the users, allows it, and the identities have become those of
  -- the rule; or they return -EINVAL for an invalid argument or -EPERM where the rule refuses, and
  -- change no credentials; or they return an error with which the kernel refuses one of the
  -- requests of the call, and change no credentials.
  pub group_calls-Settled :
      (gid rgid egid sgid : ℕ) (s : Machine K.World)
      → Starts K q c h s
      → Settled K q c h (Setgid.Denied K q c h gid) (Setgid.Kept K q c h gid) (setgid K gid s)
        × Settled K q c h
            (Setregid.Denied K q c h rgid egid)
            (Setregid.Kept K q c h rgid egid)
            (setregid K rgid egid s)
        × Settled K q c h
            (Setresgid.Denied K q c h rgid egid sgid)
            (Setresgid.Kept K q c h rgid egid sgid)
            (setresgid K rgid egid sgid s)
  group_calls-Settled gid rgid egid sgid s start = (
    setgid-Settled K q c h gid s start,
    setregid-Settled K q c h rgid egid s start,
    setresgid-Settled K q c h rgid egid sgid s start,
  )

  -- `setfsuid` and `setfsgid` always return the old file system identity and give back what they
  -- held. If the new identity is valid, another one than the old, and one of the four of the process
  -- or the process has CAP_SETUID or CAP_SETGID, then it becomes the file system identity and the
  -- other identities stay, unless the kernel refuses a request of the call; in every other case the
  -- credentials stay as they were.
  pub fs_calls-Returns :
      (id : ℕ) (s : Machine K.World)
      → Starts K q c h s
      → Returns K q c h
          (Setfsuid.old_fsuid K q c h id)
          (Setfsuid.wanted K q c h id)
          (Setfsuid.fs_ids K q c h id)
          (setfsuid K id s)
        × Returns K q c h
            (Setfsgid.old_fsgid K q c h id)
            (Setfsgid.wanted K q c h id)
            (Setfsgid.fs_ids K q c h id)
            (setfsgid K id s)
  fs_calls-Returns id s start =
      (setfsuid-Returns K q c h id s start, setfsgid-Returns K q c h id s start)
