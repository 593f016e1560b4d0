-- ===== src/Creds/User/Setfsuid.antt =====
-- `setfsuid` and its rule.
use sistemas_operativos.Prelude.{
  ℕ, ◌≡◌, refl, sym, ◌∙◌, inl, inr, List, Bool, true, not, ◌&&◌, ◌||◌, ◌==◌, arith, if◌then◌else◌,
  Bool-cases,
}
use mathlib.Core.Path.{subst}
use sistemas_operativos.Prelude.Int.{ℤ, pos}
use sistemas_operativos.Kernel.Machine.{Machine, Resource, pure}
use sistemas_operativos.Creds.{
  Ids, Cred, CredKernel, cap_setuid, setid_fs, id_valid, is_zero, abort, with_new_cred,
}
use sistemas_operativos.Creds.Documented.{Documented, fsuid_refused}
use sistemas_operativos.Creds.Settled.{Starts, Working}
use sistemas_operativos.Creds.Fs.{
  if-Returns, Returns, abort-Returns, commit-Returns, with_new_cred-Returns, or_capable-Returns,
}
use sistemas_operativos.Creds.User.{setfsuid, setfsuid_new, setfsuid_old, setfsuid_change, with_ids}

module _ (K : CredKernel) (q : Documented K) (c : Cred K.Caps) (h : List Resource) (uid : ℕ) where
  open K use {World, Caps}

  abbrev kuid : ℕ
  kuid = K.make_kuid uid

  abbrev pub old_fsuid : ℤ
  old_fsuid = pos (K.from_kuid_munged c.ids.fsuid)

  abbrev pub fs_ids : Ids
  fs_ids = record c.ids { fsuid = kuid }

  -- One of the four identities of the process, or the privilege.
  abbrev allowed : Bool
  allowed =
      (kuid == c.ids.uid || (kuid == c.ids.euid || (kuid == c.ids.suid || kuid == c.ids.fsuid)))
      || q.capable cap_setuid c

  abbrev pub wanted : Bool
  wanted = id_valid kuid && (allowed && not (kuid == c.ids.fsuid))

  change-Returns :
      (s : Machine World)
      → Working K q c h s
      → wanted ≡ true
      → Returns K q c h old_fsuid wanted fs_ids
          (setfsuid_change K old_fsuid c (with_ids K c fs_ids) s)
  unfolding setfsuid_change
  change-Returns s w granted =
      elim (Bool-cases
        (is_zero (K.security_task_fix_setuid (with_ids K c fs_ids) c setid_fs s.world).0.0)) [
          | inl zero ↦ rw zero (
              commit-Returns K q c h old_fsuid wanted fs_ids
                (record c {
                  ids = fs_ids;
                  caps = (K.security_task_fix_setuid (with_ids K c fs_ids) c setid_fs s.world).0.1;
                })
                _ (q.current-fix_setuid _ c setid_fs s.world ∙ w.0, w.1) refl granted)
          | inr refused ↦ rw refused (
              abort-Returns K q c h old_fsuid wanted fs_ids _
                (q.current-fix_setuid _ c setid_fs s.world ∙ w.0, w.1)
                (inl (fsuid_refused (with_ids K c fs_ids) c s.world refused)))
        ]

  asked-Returns :
      id_valid kuid ≡ true
      → (s : Machine World) → Working K q c h s
      → Returns K q c h old_fsuid wanted fs_ids (
          (if allowed && not (kuid == c.ids.fsuid)
              then setfsuid_change K old_fsuid c (with_ids K c fs_ids)
              else abort K old_fsuid)
            s)
  asked-Returns valid s w =
      if-Returns K q c h old_fsuid wanted fs_ids (allowed && not (kuid == c.ids.fsuid))
        (setfsuid_change K old_fsuid c (with_ids K c fs_ids)) (abort K old_fsuid) s
        (λ change. change-Returns s w (ground (arith, change, valid)))
        (λ keep.
          abort-Returns K q c h old_fsuid wanted fs_ids s w (inr (ground (arith, keep, valid))))

  new-Returns :
      id_valid kuid ≡ true
      → (s : Machine World) → Working K q c h s
      → Returns K q c h old_fsuid wanted fs_ids (setfsuid_new K kuid old_fsuid c c s)
  unfolding setfsuid_new
  new-Returns valid s w =
      or_capable-Returns K q c h old_fsuid wanted fs_ids
        (kuid == c.ids.uid || (kuid == c.ids.euid || (kuid == c.ids.suid || kuid == c.ids.fsuid)))
        cap_setuid
        (λ allowed.
          if allowed && not (kuid == c.ids.fsuid)
          then setfsuid_change K old_fsuid c (with_ids K c fs_ids)
          else abort K old_fsuid)
        s w (asked-Returns valid)

  -- `setfsuid` always returns the old file system identity and gives back what it held. If the
  -- new identity is valid, another one than the old, and one of the four of the process or the
  -- process has CAP_SETUID, then it becomes the file system identity and the other identities stay,
  -- unless the kernel refuses a request of the call; in every other case the credentials stay as
  -- they were.
  pub setfsuid-Returns :
      (s : Machine World)
      → Starts K q c h s
      → Returns K q c h old_fsuid wanted fs_ids (setfsuid K uid s)
  unfolding setfsuid setfsuid_old
  setfsuid-Returns s start =
      subst (λ old. Returns K q c h old_fsuid wanted fs_ids (setfsuid_old K uid old s))
        (sym start.0)
        (if-Returns K q c h old_fsuid wanted fs_ids (not (id_valid kuid)) (pure old_fsuid)
          (with_new_cred K old_fsuid (setfsuid_new K kuid old_fsuid c)) s
          (λ bad. (start.1, refl, inl (start.0, inr (ground (arith, bad)))))
          (λ valid.
            with_new_cred-Returns K q c h old_fsuid wanted fs_ids (setfsuid_new K kuid old_fsuid c)
              s start (new-Returns (ground (arith, valid)))))
