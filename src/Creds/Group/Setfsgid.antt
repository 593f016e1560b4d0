-- ===== src/Creds/Group/Setfsgid.antt =====
-- `setfsgid` and its rule.
use sistemas_operativos.Prelude.{
  ℕ, ◌≡◌, refl, sym, ◌∙◌, inl, inr, List, Bool, true, not, ◌&&◌, ◌||◌, ◌==◌, arith, if◌then◌else◌,
  Bool-cases,
}
use mathlib.Core.Path.{subst}
use sistemas_operativos.Prelude.Int.{ℤ, pos}
use sistemas_operativos.Kernel.Machine.{Machine, Resource, pure}
use sistemas_operativos.Creds.{
  Ids, Cred, CredKernel, cap_setgid, setid_fs, id_valid, is_zero, abort, with_new_cred,
}
use sistemas_operativos.Creds.Documented.{Documented, fsgid_refused}
use sistemas_operativos.Creds.Settled.{Starts, Working}
use sistemas_operativos.Creds.Fs.{
  if-Returns, Returns, abort-Returns, commit-Returns, with_new_cred-Returns, or_capable-Returns,
}
use sistemas_operativos.Creds.Group.{
  setfsgid, setfsgid_new, setfsgid_old, setfsgid_change, with_ids,
}

module _ (K : CredKernel) (q : Documented K) (c : Cred K.Caps) (h : List Resource) (gid : ℕ) where
  open K use {World, Caps}

  abbrev kgid : ℕ
  kgid = K.make_kgid gid

  abbrev pub old_fsgid : ℤ
  old_fsgid = pos (K.from_kgid_munged c.ids.fsgid)

  abbrev pub fs_ids : Ids
  fs_ids = record c.ids { fsgid = kgid }

  -- One of the four identities of the process, or the privilege.
  abbrev allowed : Bool
  allowed =
      (kgid == c.ids.gid || (kgid == c.ids.egid || (kgid == c.ids.sgid || kgid == c.ids.fsgid)))
      || q.capable cap_setgid c

  abbrev pub wanted : Bool
  wanted = id_valid kgid && (allowed && not (kgid == c.ids.fsgid))

  change-Returns :
      (s : Machine World)
      → Working K q c h s
      → wanted ≡ true
      → Returns K q c h old_fsgid wanted fs_ids
          (setfsgid_change K old_fsgid c (with_ids K c fs_ids) s)
  unfolding setfsgid_change
  change-Returns s w granted =
      elim (Bool-cases
        (is_zero (K.security_task_fix_setgid (with_ids K c fs_ids) c setid_fs s.world).0.0)) [
          | inl zero ↦ rw zero (
              commit-Returns K q c h old_fsgid wanted fs_ids
                (record c {
                  ids = fs_ids;
                  caps = (K.security_task_fix_setgid (with_ids K c fs_ids) c setid_fs s.world).0.1;
                })
                _ (q.current-fix_setgid _ c setid_fs s.world ∙ w.0, w.1) refl granted)
          | inr refused ↦ rw refused (
              abort-Returns K q c h old_fsgid wanted fs_ids _
                (q.current-fix_setgid _ c setid_fs s.world ∙ w.0, w.1)
                (inl (fsgid_refused (with_ids K c fs_ids) c s.world refused)))
        ]

  asked-Returns :
      id_valid kgid ≡ true
      → (s : Machine World) → Working K q c h s
      → Returns K q c h old_fsgid wanted fs_ids (
          (if allowed && not (kgid == c.ids.fsgid)
              then setfsgid_change K old_fsgid c (with_ids K c fs_ids)
              else abort K old_fsgid)
            s)
  asked-Returns valid s w =
      if-Returns K q c h old_fsgid wanted fs_ids (allowed && not (kgid == c.ids.fsgid))
        (setfsgid_change K old_fsgid c (with_ids K c fs_ids)) (abort K old_fsgid) s
        (λ change. change-Returns s w (ground (arith, change, valid)))
        (λ keep.
          abort-Returns K q c h old_fsgid wanted fs_ids s w (inr (ground (arith, keep, valid))))

  new-Returns :
      id_valid kgid ≡ true
      → (s : Machine World) → Working K q c h s
      → Returns K q c h old_fsgid wanted fs_ids (setfsgid_new K kgid old_fsgid c c s)
  unfolding setfsgid_new
  new-Returns valid s w =
      or_capable-Returns K q c h old_fsgid wanted fs_ids
        (kgid == c.ids.gid || (kgid == c.ids.egid || (kgid == c.ids.sgid || kgid == c.ids.fsgid)))
        cap_setgid
        (λ allowed.
          if allowed && not (kgid == c.ids.fsgid)
          then setfsgid_change K old_fsgid c (with_ids K c fs_ids)
          else abort K old_fsgid)
        s w (asked-Returns valid)

  -- `setfsgid` always returns the old file system identity and gives back what it held. If the
  -- new identity is valid, another one than the old, and one of the four of the process or the
  -- process has CAP_SETGID, then it becomes the file system identity and the other identities stay,
  -- unless the kernel refuses a request of the call; in every other case the credentials stay as
  -- they were.
  pub setfsgid-Returns :
      (s : Machine World)
      → Starts K q c h s
      → Returns K q c h old_fsgid wanted fs_ids (setfsgid K gid s)
  unfolding setfsgid setfsgid_old
  setfsgid-Returns s start =
      subst (λ old. Returns K q c h old_fsgid wanted fs_ids (setfsgid_old K gid old s))
        (sym start.0)
        (if-Returns K q c h old_fsgid wanted fs_ids (not (id_valid kgid)) (pure old_fsgid)
          (with_new_cred K old_fsgid (setfsgid_new K kgid old_fsgid c)) s
          (λ bad. (start.1, refl, inl (start.0, inr (ground (arith, bad)))))
          (λ valid.
            with_new_cred-Returns K q c h old_fsgid wanted fs_ids (setfsgid_new K kgid old_fsgid c)
              s start (new-Returns (ground (arith, valid)))))
