-- ===== src/Sessions/Setsid.antt =====
-- setsid founds a session, and keeps sessions made of whole groups.
use sistemas_operativos.Prelude.{
  ℕ, ◌≡◌, refl, sym, ◌∙◌, Bool, true, false, ◌||◌, Bool-cases, inl, inr, Option, none, some, List,
  ◌∷◌, arith,
}
use mathlib.Core.Path.{subst}
use sistemas_operativos.Prelude.Int.{ℤ}
use sistemas_operativos.Kernel.Machine.{Machine, Resource, tasklist_lock}
use sistemas_operativos.Sessions.{
  SessionKernel, is_some, above_zero, become_leader, setsid_locked, announce, setsid_out, setsid,
}
use sistemas_operativos.Sessions.Documented.{Documented, if-shares}
use sistemas_operativos.Sessions.Orderly.{Orderly, found-Orderly}
use sistemas_operativos.Kernel.Keeps.{Kept, Keeps, bind-Kept, pure-Keeps, if-Keeps}
use sistemas_operativos.Sessions.Keeps.{step-Keeps}
use sistemas_operativos.Sessions.Founded.{Founded, become_leader-Founded}

module _ (K : SessionKernel) (live : ℕ → Bool) where
  become_leader-Orderly :
      Documented K live
      → (w : K.World) → K.group_task (K.task_pid (K.group_leader w) w) w ≡ none
      → Orderly K live w
      → Orderly K live (become_leader K (K.group_leader w) (K.task_pid (K.group_leader w) w) w)
  become_leader-Orderly doc w free o =
      let p = K.group_leader w in
      let i = K.task_pid p w in
      let founded = become_leader-Founded K live doc i w in
      let lp = doc.leader-live w in
      found-Orderly K live w (become_leader K p i w) p i founded.pid
        (λ q lq. founded.pgrp q ∙ if-shares K live doc q p i (K.task_pgrp q w) lq lp) o
        (λ q lq. founded.session q ∙ if-shares K live doc q p i (K.task_session q w) lq lp) refl
        (λ q r. doc.pid-injective q r w) lp (λ q. doc.no_member i q w free)

  is_some-none : (o : Option ℕ) → is_some o ≡ false → o ≡ none
  is_some-none none e = refl
  is_some-none (some n) e = ground arith

  unrefused : (leads : Bool) (o : Option ℕ) → (leads || is_some o) ≡ false → o ≡ none
  unrefused true o e = ground arith
  unrefused false o e = is_some-none o e

  setsid_locked-Keeps :
      Documented K live
      → (session : ℤ) (s : Machine K.World) → Orderly K live s.world
      → Kept (Orderly K live) s.held (
          setsid_locked K
            (K.group_leader s.world)
            (K.task_pid (K.group_leader s.world) s.world)
            session
            s)
  unfolding setsid_locked Kept
  setsid_locked-Keeps doc session s o =
      elim (Bool-cases
        (K.session_leader p s.world || is_some (K.group_task (K.task_pid p s.world) s.world))) [
          | inl refused ↦ rw refused (refl, o)
          | inr free ↦ rw free (
            refl,
            become_leader-Orderly doc s.world (unrefused (K.session_leader p s.world) _ free) o,
          )
        ]
    where
      p : ℕ
      p = K.group_leader s.world

  announce-Keeps :
      Documented K live
      → (group_leader : ℕ) (err : ℤ) → Keeps (Orderly K live) (announce K group_leader err)
  unfolding announce
  announce-Keeps doc group_leader err =
      if-Keeps (Orderly K live) (above_zero err) _ _
        (step-Keeps K live (K.proc_sid_connector group_leader) _ (doc.connector-Same group_leader) (
          step-Keeps K live (K.sched_autogroup_create_attach group_leader) _
            (doc.autogroup-Same group_leader) (pure-Keeps (Orderly K live) err)))
        (pure-Keeps (Orderly K live) err)

  setsid_out-Kept :
      Documented K live
      → (group_leader : ℕ) (err : ℤ) (s : Machine K.World) (held : List Resource)
      → s.held ≡ tasklist_lock ∷ held
      → Orderly K live s.world
      → Kept (Orderly K live) held (setsid_out K group_leader err s)
  unfolding setsid_out Keeps
  setsid_out-Kept doc group_leader err s held e o =
      subst
        (λ h.
          Kept (Orderly K live) held
            (setsid_out K group_leader err (record { world = s.world; held = h })))
        (sym e) (announce-Keeps doc group_leader err (record { world = s.world; held = held }) o)

  pub setsid-Keeps : Documented K live → Keeps (Orderly K live) (setsid K)
  unfolding setsid Keeps
  setsid-Keeps doc s o =
      let p = K.group_leader s.world in
      let i = K.task_pid p s.world in
      let session = K.pid_vnr i s.world in
      let s' : Machine K.World = record s { held = tasklist_lock ∷ s.held } in
      bind-Kept (Orderly K live) (tasklist_lock ∷ s.held) s.held (setsid_locked K p i session s')
        (setsid_out K p) (setsid_locked-Keeps doc session s' o)
        (λ a s'' e o'. setsid_out-Kept doc p a s'' s.held e o')
