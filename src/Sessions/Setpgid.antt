-- ===== src/Sessions/Setpgid.antt =====
-- setpgid keeps sessions made of whole groups.
use sistemas_operativos.Prelude.{
  ℕ, ◌≡◌, refl, sym, ap, ◌∙◌, Bool, true, ◌==◌, ==_iff, if◌then◌else◌, Bool-cases, inl, inr, ◌⊎◌,
  Option, none, some, List, ◌∷◌, arith,
}
use mathlib.Core.Path.{subst}
use mathlib.Core.Option.{some-injective, none-ne-some}
use sistemas_operativos.Prelude.Int.{ℤ}
use sistemas_operativos.Kernel.Machine.{Machine, Resource, rcu_lock, tasklist_lock}
use sistemas_operativos.Creds.{is_negative, is_zero}
use sistemas_operativos.Sessions.{
  SessionKernel, same_ℤ, refuse_leader, refuse_task, group_of, change_group, move_if, setpgid_move,
  setpgid_asked, setpgid_task, setpgid_locked, unlock_both, setpgid_from, task_number, setpgid,
}
use sistemas_operativos.Sessions.Documented.{Documented, Same, if-shares}
use sistemas_operativos.Sessions.Orderly.{Orderly, Placed-Orderly, join-Orderly}
use sistemas_operativos.Kernel.Keeps.{Kept, Keeps, bind-Kept}

module _ (K : SessionKernel) (live : ℕ → Bool) where
  -- The group i is of the session of p, and so is the task that it has the number of.
  record Fits (p i : ℕ) (w : K.World) : Type 0 where
    alive : live p ≡ true
    members :
        (q : ℕ) → live q ≡ true → K.task_pgrp q w ≡ i → K.task_session q w ≡ K.task_session p w
    owner : (r : ℕ) → live r ≡ true → i ≡ K.task_pid r w → K.task_session p w ≡ K.task_session r w

  Same-Fits : (p i : ℕ) (w w' : K.World) → Same K w w' → Fits p i w → Fits p i w'
  Same-Fits p i w w' same fits = record {
    alive = fits.alive;
    members = λ q lq e.
        same.placed.session q
        ∙ fits.members q lq (sym (same.placed.pgrp q) ∙ e)
        ∙ sym (same.placed.session p);
    owner = λ r lr e.
        same.placed.session p
        ∙ fits.owner r lr (e ∙ same.placed.pid r)
        ∙ sym (same.placed.session r);
  }

  refuse_task-none :
      (group_leader p : ℕ) (w : K.World)
      → refuse_task K group_leader p w ≡ none
      → (K.thread_group_leader p w ≡ true) × (K.task_session p w ≡ K.task_session group_leader w)
  unfolding refuse_task refuse_leader
  refuse_task-none group_leader p w e = ground arith

  group_of-cases :
      (group_leader p i : ℕ) (pid pgid : ℤ) (w : K.World)
      → group_of K group_leader p pid pgid w ≡ some i
      → (i ≡ K.task_pid p w)
        ⊎ ((g : ℕ) × (K.group_task i w ≡ some g)
            × (K.task_session g w ≡ K.task_session group_leader w))
  unfolding group_of
  group_of-cases group_leader p i pid pgid w e = elim (Bool-cases (same_ℤ pgid pid)) [
    | inl same ↦ inl (sym (some-injective _ _ (rw same at e)))
    | inr other ↦ inr (other_group (K.group_task (K.find_vpid pgid w) w) refl (rw other at e))
  ]
    where
      other_group :
          (task : Option ℕ)
          → K.group_task (K.find_vpid pgid w) w ≡ task
          → (elim task [
            | none ↦ none
            | some g ↦
                if K.task_session g w == K.task_session group_leader w
                then some (K.find_vpid pgid w)
                else none
          ])
            ≡ some i
          → (g : ℕ) × (K.group_task i w ≡ some g)
            × (K.task_session g w ≡ K.task_session group_leader w)
      other_group none found given = absurd (none-ne-some i given)
      other_group (some g) found given =
          elim (Bool-cases (K.task_session g w == K.task_session group_leader w)) [
            | inl near ↦
                let same = some-injective _ _ (rw near at given) in
                (g, subst (λ j. K.group_task j w ≡ some g) same found, (==_iff _ _).0 near)
            | inr far ↦ absurd (none-ne-some i (rw far at given))
          ]

  group_of-Fits :
      Documented K live
      → (group_leader p i : ℕ) (pid pgid : ℤ) (w : K.World) → live p ≡ true
      → Orderly K live w
      → K.task_session p w ≡ K.task_session group_leader w
      → group_of K group_leader p pid pgid w ≡ some i
      → Fits p i w
  group_of-Fits doc group_leader p i pid pgid w lp o s e =
      elim (group_of-cases group_leader p i pid pgid w e) [
        | inl same ↦
            subst (λ i. Fits p i w) (sym same)
              (record {
                alive = lp;
                members = λ q lq e. o.own p q lp lq e;
                owner = λ r lr e. ap (λ q. K.task_session q w) (doc.pid-injective p r w lp lr e);
              })
        | inr (g, found, near) ↦
            let (lg, at_g) = doc.member i g w found in
            record {
              alive = lp;
              members = λ q lq e. o.groups q g lq lg (e ∙ sym at_g) ∙ near ∙ sym s;
              owner = λ r lr e. s ∙ sym near ∙ o.own r g lr lg (at_g ∙ e);
            }
      ]

  change_group-Orderly :
      Documented K live
      → (p i : ℕ) (w : K.World) → Fits p i w
      → Orderly K live w
      → Orderly K live (change_group K p i w)
  unfolding change_group
  change_group-Orderly doc p i w fits o = elim (Bool-cases (K.task_pgrp p w == i)) [
    | inl same ↦ rw same o
    | inr other ↦ rw other (
        join-Orderly K live w (K.change_pgrp p i w) p i (λ q. doc.change_pgrp-pid p i q w)
          (λ q lq.
            doc.change_pgrp-pgrp p i q w
            ∙ if-shares K live doc q p i (K.task_pgrp q w) lq fits.alive)
          o (λ q. doc.change_pgrp-session p i q w) fits.members fits.owner)
  ]

  move_if-Keeps :
      Documented K live
      → (p i : ℕ) (err : ℤ) (s : Machine K.World) → Fits p i s.world
      → Orderly K live s.world
      → Kept (Orderly K live) s.held (move_if K p i err s)
  unfolding move_if Kept
  move_if-Keeps doc p i err s fits o = elim (Bool-cases (is_zero err)) [
    | inl zero_ ↦ rw zero_ (refl, change_group-Orderly doc p i s.world fits o)
    | inr error ↦ rw error (refl, o)
  ]

  setpgid_move-Keeps :
      Documented K live
      → (p : ℕ) (pgid : ℤ) (target : Option ℕ) (s : Machine K.World)
      → ((i : ℕ) → target ≡ some i → Fits p i s.world)
      → Orderly K live s.world
      → Kept (Orderly K live) s.held (setpgid_move K p pgid target s)
  unfolding setpgid_move Kept
  setpgid_move-Keeps doc p pgid none s fits o = (refl, o)
  setpgid_move-Keeps doc p pgid (some i) s fits o =
      let asked = K.security_task_setpgid p pgid s.world in
      let same = doc.setpgid-Same p pgid s.world in
      move_if-Keeps doc p i asked.0 (record s { world = asked.1 })
        (Same-Fits p i s.world asked.1 same (fits i refl))
        (Placed-Orderly K live s.world asked.1 same.placed o)

  setpgid_asked-Keeps :
      Documented K live
      → (group_leader p : ℕ) (pid pgid : ℤ) (refused : Option ℤ) (s : Machine K.World)
      → K.find_task_by_vpid pid s.world ≡ some p
      → refuse_task K group_leader p s.world ≡ refused
      → Orderly K live s.world
      → Kept (Orderly K live) s.held (setpgid_asked K group_leader p pid pgid refused s)
  unfolding setpgid_asked Kept
  setpgid_asked-Keeps doc group_leader p pid pgid (some err) s found refused o = (refl, o)
  setpgid_asked-Keeps doc group_leader p pid pgid none s found refused o =
      let (leads, near) = refuse_task-none group_leader p s.world refused in
      setpgid_move-Keeps doc p pgid (group_of K group_leader p pid pgid s.world) s
        (λ i e.
          group_of-Fits doc group_leader p i pid pgid s.world
            (doc.found-live pid p s.world found leads) o near e)
        o

  setpgid_task-Keeps :
      Documented K live
      → (group_leader : ℕ) (pid pgid : ℤ) (p : Option ℕ) (s : Machine K.World)
      → K.find_task_by_vpid pid s.world ≡ p
      → Orderly K live s.world
      → Kept (Orderly K live) s.held (setpgid_task K group_leader pid pgid p s)
  unfolding setpgid_task Kept
  setpgid_task-Keeps doc group_leader pid pgid none s found o = (refl, o)
  setpgid_task-Keeps doc group_leader pid pgid (some p) s found o =
      setpgid_asked-Keeps doc group_leader p pid pgid (refuse_task K group_leader p s.world) s found
        refl o

  unlock_both-Kept :
      (a : ℤ) (s : Machine K.World) (held : List Resource)
      → s.held ≡ tasklist_lock ∷ rcu_lock ∷ held
      → Orderly K live s.world
      → Kept (Orderly K live) held (unlock_both K a s)
  unfolding Kept unlock_both
  unlock_both-Kept a s held e o =
      subst
        (λ h. Kept (Orderly K live) held (unlock_both K a (record { world = s.world; held = h })))
        (sym e) (refl, o)

  setpgid_from-Keeps :
      Documented K live
      → (group_leader : ℕ) (pid pgid : ℤ)
      → Keeps (Orderly K live) (setpgid_from K group_leader pid pgid)
  unfolding setpgid_from Keeps setpgid_locked Kept
  setpgid_from-Keeps doc group_leader pid pgid s o = elim (Bool-cases (is_negative pgid)) [
    | inl negative ↦ rw negative (refl, o)
    | inr other ↦
        let s' : Machine K.World = record s { held = tasklist_lock ∷ rcu_lock ∷ s.held } in
        rw other (
          bind-Kept (Orderly K live) (tasklist_lock ∷ rcu_lock ∷ s.held) s.held
            (setpgid_locked K group_leader pid pgid s') (unlock_both K)
            (setpgid_task-Keeps doc group_leader pid pgid (K.find_task_by_vpid pid s.world) s' refl
              o)
            (λ a s'' e o'. unlock_both-Kept a s'' s.held e o'))
  ]

  pub setpgid-Keeps :
      Documented K live → (pid pgid : ℤ) → Keeps (Orderly K live) (setpgid K pid pgid)
  unfolding setpgid Keeps
  setpgid-Keeps doc pid pgid s o =
      let n = task_number K pid s.world in
      setpgid_from-Keeps doc (K.group_leader s.world) n (if is_zero pgid then n else pgid) s o
