-- ===== src/Sessions/Keeps.antt =====
-- What the calls on groups and sessions leave: the locks as before and sessions of whole groups.
-- How it is kept by the steps of a call, and by getpgid and getsid.
use sistemas_operativos.Prelude.{ℕ, ◌≡◌, refl, sym, Bool, ◌==◌, Option, none, some, List, ◌∷◌}
use mathlib.Core.Path.{subst}
use sistemas_operativos.Prelude.Int.{ℤ}
use sistemas_operativos.Kernel.Machine.{
  Machine, Resource, M, ◌>>=◌, ◌>>◌, call, look, acquire, rcu_lock,
}
use sistemas_operativos.Creds.{is_zero}
use sistemas_operativos.Kernel.Keeps.{
  Kept, Keeps, bind-Kept, bind-Keeps, pure-Keeps, look-Keeps, call-Keeps, if-Keeps,
}
use sistemas_operativos.Sessions.{
  SessionKernel, step, unlock_rcu, number_if, number_asked, number_found, number_of, getpgid,
  getsid,
}
use sistemas_operativos.Sessions.Documented.{Documented, Same}
use sistemas_operativos.Sessions.Orderly.{Orderly, Placed-Orderly}

module _ (K : SessionKernel) (live : ℕ → Bool) where
  call_Same-Keeps :
      {A : Type 0} (f : K.World → A × K.World)
      → ((w : K.World) → Same K w (f w).1)
      → Keeps (Orderly K live) (call f)
  call_Same-Keeps f same =
      call-Keeps (Orderly K live) f (λ w. Placed-Orderly K live w (f w).1 (same w).placed)

  pub step-Keeps :
      {B : Type 0} (f : K.World → K.World) (m : M K.World B)
      → ((w : K.World) → Same K w (f w))
      → Keeps (Orderly K live) m
      → Keeps (Orderly K live) (step K f >> m)
  step-Keeps f m same kept =
      bind-Keeps (Orderly K live) (step K f) (λ t. m) (call_Same-Keeps (λ w. (tt, f w)) same)
        (λ t. kept)

  -- What runs under a lock, or between two calls of the world alone.
  pub locked-Keeps :
      (r : Resource) (m : M K.World ℤ) (rest : ℤ → M K.World ℤ)
      → Keeps (Orderly K live) m
      → ((a : ℤ) (s : Machine K.World) (held : List Resource)
          → s.held ≡ r ∷ held
          → Orderly K live s.world
          → Kept (Orderly K live) held (rest a s))
      → Keeps (Orderly K live) (acquire r >> (m >>= rest))
  unfolding Keeps
  locked-Keeps r m rest kept after s o =
      let s' : Machine K.World = record s { held = r ∷ s.held } in
      bind-Kept (Orderly K live) (r ∷ s.held) s.held (m s') rest (kept s' o)
        (λ a s'' e o'. after a s'' s.held e o')

  pub unlock_rcu-Kept :
      (a : ℤ) (s : Machine K.World) (held : List Resource)
      → s.held ≡ rcu_lock ∷ held
      → Orderly K live s.world
      → Kept (Orderly K live) held (unlock_rcu K a s)
  unfolding Kept unlock_rcu
  unlock_rcu-Kept a s held e o =
      subst
        (λ h. Kept (Orderly K live) held (unlock_rcu K a (record { world = s.world; held = h })))
        (sym e) (refl, o)

  pub number_of-Keeps :
      (field : ℕ → K.World → ℕ) (security : ℕ → K.World → ℤ × K.World) (pid : ℤ)
      → ((p : ℕ) (w : K.World) → Same K w (security p w).1)
      → Keeps (Orderly K live) (number_of K field security pid)
  unfolding number_of number_found number_asked number_if
  number_of-Keeps field security pid same =
      if-Keeps (Orderly K live) (is_zero pid) _ _
        (look-Keeps (Orderly K live) (λ w. K.pid_vnr (field (K.current_task w) w) w))
        (bind-Keeps (Orderly K live) (look (K.find_task_by_vpid pid))
          (number_found K field security) (look-Keeps (Orderly K live) _) found)
    where
      number_if-Keeps : (grp : ℕ) (retval : ℤ) → Keeps (Orderly K live) (number_if K grp retval)
      number_if-Keeps grp retval =
          if-Keeps (Orderly K live) (is_zero retval) _ _
            (look-Keeps (Orderly K live) (K.pid_vnr grp)) (pure-Keeps (Orderly K live) retval)

      asked : (p grp : ℕ) → Keeps (Orderly K live) (number_asked K security p grp)
      asked p grp = if-Keeps (Orderly K live) (grp == 0) _ _ (pure-Keeps (Orderly K live) _) (
          bind-Keeps (Orderly K live) (call (security p)) (number_if K grp)
            (call_Same-Keeps (security p) (same p)) (number_if-Keeps grp))

      found : (p : Option ℕ) → Keeps (Orderly K live) (number_found K field security p)
      found none = pure-Keeps (Orderly K live) _
      found (some p) =
          bind-Keeps (Orderly K live) (look (field p)) (number_asked K security p)
            (look-Keeps (Orderly K live) (field p)) (asked p)

  pub getpgid-Keeps : Documented K live → (pid : ℤ) → Keeps (Orderly K live) (getpgid K pid)
  unfolding getpgid
  getpgid-Keeps doc pid =
      locked-Keeps rcu_lock (number_of K K.task_pgrp K.security_task_getpgid pid) (unlock_rcu K)
        (number_of-Keeps K.task_pgrp K.security_task_getpgid pid doc.getpgid-Same) unlock_rcu-Kept

  pub getsid-Keeps : Documented K live → (pid : ℤ) → Keeps (Orderly K live) (getsid K pid)
  unfolding getsid
  getsid-Keeps doc pid =
      locked-Keeps rcu_lock (number_of K K.task_session K.security_task_getsid pid) (unlock_rcu K)
        (number_of-Keeps K.task_session K.security_task_getsid pid doc.getsid-Same) unlock_rcu-Kept
