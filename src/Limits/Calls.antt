-- ===== src/Limits/Calls.antt =====
-- Sequences of calls on limits.
use sistemas_operativos.Prelude.{
  ℕ, ◌≤◌, ◌≡◌, refl, Bool-cases, Bool, true, ◌==◌, inl, inr, Option, none, some, List, [], ◌∷◌,
  arith,
}
use sistemas_operativos.Prelude.Int.{ℤ, pos}
use sistemas_operativos.Kernel.Errno.{minus_efault}
use sistemas_operativos.Kernel.Machine.{
  Machine, Resource, M, ◌>>=◌, pure, call, look, rcu_lock, task_reference,
}
use sistemas_operativos.Kernel.Keeps.{
  Kept, Keeps, bind-Kept, bind-Keeps, pure-Keeps, look-Keeps, call-Keeps, if-Keeps, held-Kept,
}
use sistemas_operativos.Creds.{is_zero, minus_eperm}
use sistemas_operativos.Limits.{
  Rlimit, RlimKernel, do_prlimit, if_whole, give_back, unless_own, id_match, getrlimit, set_copied,
  setrlimit, ask_prlimit, or_ns_capable, check_prlimit_permission, put_task, if_permitted, if_found,
  prlimit_task, task_for, if_copied, prlimit64, rlim64_to_rlim, rlim_to_rlim64, is_given,
}
use sistemas_operativos.Limits.Confined.{Documented, Confined, Same-Confined, do_prlimit-Keeps}

pub data Call (K : RlimKernel) : Type 0 where
  call_getrlimit call_setrlimit : ℕ → K.UserPtr → Call K
  call_prlimit64 : ℤ → ℕ → Option K.UserPtr → Option K.UserPtr → Call K

abbrev pub perform : (K : RlimKernel) → Call K → M K.World ℤ
perform K (call_getrlimit resource p) = getrlimit K resource p
perform K (call_setrlimit resource p) = setrlimit K resource p
perform K (call_prlimit64 pid resource new old) = prlimit64 K pid resource new old

-- The results, in their order.
abbrev pub perform_all : (K : RlimKernel) → List (Call K) → M K.World (List ℤ)
perform_all K [] = pure []
perform_all K (c ∷ calls) = perform K c >>= λ r. perform_all K calls >>= λ rs. pure (r ∷ rs)

module _ (K : RlimKernel) (doc : Documented K) (start : K.World) where
  abbrev P : K.World → Type 0
  P = Confined K doc start

  give_back-Keeps :
      (convert : Rlimit → Rlimit) (to : Option K.UserPtr) (r : ℤ × Option Rlimit)
      → Keeps (Confined K doc start) (give_back K convert to r)
  unfolding give_back if_whole
  give_back-Keeps convert none (ret, old) = pure-Keeps P ret
  give_back-Keeps convert (some p) (ret, none) = pure-Keeps P ret
  give_back-Keeps convert (some p) (ret, some old) =
      bind-Keeps P (call (K.copy_to_user p (convert old))) (if_whole K ret)
        (call-Keeps P (K.copy_to_user p (convert old))
          (λ w. Same-Confined K doc start w _ (doc.to-Same p (convert old) w)))
        (λ whole.
          if-Keeps P whole (pure ret) (pure minus_efault) (pure-Keeps P ret)
            (pure-Keeps P minus_efault))

  limit_and_back-Keeps :
      (tsk resource : ℕ) (new : Option Rlimit) (convert : Rlimit → Rlimit) (to : Option K.UserPtr)
      → Keeps (Confined K doc start) (do_prlimit K tsk resource new >>= give_back K convert to)
  limit_and_back-Keeps tsk resource new convert to =
      bind-Keeps P (do_prlimit K tsk resource new) (give_back K convert to)
        (do_prlimit-Keeps K doc start tsk resource new) (give_back-Keeps convert to)

  getrlimit-Keeps : (resource : ℕ) (p : K.UserPtr) → Keeps P (getrlimit K resource p)
  unfolding getrlimit Keeps
  getrlimit-Keeps resource p s c =
      limit_and_back-Keeps (K.current_task s.world) resource none (λ r. r) (some p) s c

  set_copied-Keeps : (resource : ℕ) (new : Option Rlimit) → Keeps P (set_copied K resource new)
  unfolding set_copied Keeps
  set_copied-Keeps resource none s c = pure-Keeps P minus_efault s c
  set_copied-Keeps resource (some new) s c =
      limit_and_back-Keeps (K.current_task s.world) resource (some new) (λ r. r) none s c

  setrlimit-Keeps : (resource : ℕ) (p : K.UserPtr) → Keeps P (setrlimit K resource p)
  unfolding setrlimit
  setrlimit-Keeps resource p =
      bind-Keeps P (call (K.copy_from_user p)) (set_copied K resource)
        (call-Keeps P (K.copy_from_user p) (λ w. Same-Confined K doc start w _ (doc.from-Same p w)))
        (set_copied-Keeps resource)

  or_ns_capable-Keeps : (tsk : ℕ) (matches : Bool) → Keeps P (or_ns_capable K tsk matches)
  unfolding or_ns_capable
  or_ns_capable-Keeps tsk matches =
      if-Keeps P matches (pure true) (call (K.ns_capable tsk)) (pure-Keeps P true) (
        call-Keeps P (K.ns_capable tsk)
          (λ w. Same-Confined K doc start w _ (doc.ns_capable-Same tsk w)))

  ask_prlimit-Keeps :
      (tsk : ℕ) (read write permitted : Bool) → Keeps P (ask_prlimit K tsk read write permitted)
  unfolding ask_prlimit
  ask_prlimit-Keeps tsk read write permitted =
      if-Keeps P permitted (call (K.security_task_prlimit tsk read write)) (pure minus_eperm)
        (call-Keeps P (K.security_task_prlimit tsk read write)
          (λ w. Same-Confined K doc start w _ (doc.prlimit-Same tsk read write w)))
        (pure-Keeps P minus_eperm)

  check_prlimit_permission-Keeps :
      (tsk : ℕ) (read write : Bool) → Keeps P (check_prlimit_permission K tsk read write)
  unfolding check_prlimit_permission unless_own
  check_prlimit_permission-Keeps tsk read write =
      bind-Keeps P (look (λ w. K.current_task w == tsk)) (unless_own K tsk read write)
        (look-Keeps P (λ w. K.current_task w == tsk))
        (λ own. if-Keeps P own (pure (pos 0)) _ (pure-Keeps P (pos 0)) (
          bind-Keeps P (look (id_match K tsk) >>= or_ns_capable K tsk)
            (ask_prlimit K tsk read write)
            (bind-Keeps P (look (id_match K tsk)) (or_ns_capable K tsk)
              (look-Keeps P (id_match K tsk)) (or_ns_capable-Keeps tsk))
            (ask_prlimit-Keeps tsk read write)))

  put_task-Kept :
      (ret : ℤ) (s : Machine K.World) (held : List Resource)
      → s.held ≡ task_reference ∷ held
      → P s.world
      → Kept P held (put_task K ret s)
  unfolding put_task Kept
  put_task-Kept ret s held e c =
      held-Kept P (put_task K ret) s (task_reference ∷ held) held e (refl, c)

  if_permitted-Kept :
      (resource : ℕ) (new : Option Rlimit) (old : Option K.UserPtr) (tsk : ℕ) (ret : ℤ)
      (s : Machine K.World) (held : List Resource)
      → s.held ≡ rcu_lock ∷ held
      → P s.world
      → Kept P held (if_permitted K resource new old tsk ret s)
  unfolding if_permitted Kept Keeps
  if_permitted-Kept resource new old tsk ret s held e c =
      held-Kept P (if_permitted K resource new old tsk ret) s (rcu_lock ∷ held) held e
        (elim (Bool-cases (is_zero ret)) [
          | inr error ↦ rw error (refl, c)
          | inl fine ↦
              let s' : Machine K.World = record { world = s.world; held = task_reference ∷ held } in
              rw fine (
                bind-Kept P (task_reference ∷ held) held
                  ((do_prlimit K tsk resource new >>= give_back K rlim_to_rlim64 old) s')
                  (put_task K) (limit_and_back-Keeps tsk resource new rlim_to_rlim64 old s' c)
                  (λ a s'' e' c'. put_task-Kept a s'' held e' c'))
        ])

  if_found-Kept :
      (resource : ℕ) (new : Option Rlimit) (old : Option K.UserPtr) (tsk : Option ℕ) (w : K.World)
      (held : List Resource)
      → P w
      → Kept P held (if_found K resource new old tsk (record { world = w; held = rcu_lock ∷ held }))
  unfolding if_found Kept Keeps
  if_found-Kept resource new old none w held c = (refl, c)
  if_found-Kept resource new old (some tsk) w held c =
      let s : Machine K.World = record { world = w; held = rcu_lock ∷ held } in
      bind-Kept P (rcu_lock ∷ held) held
        (check_prlimit_permission K tsk (is_given old) (is_given new) s)
        (if_permitted K resource new old tsk)
        (check_prlimit_permission-Keeps tsk (is_given old) (is_given new) s c)
        (λ a s' e c'. if_permitted-Kept resource new old tsk a s' held e c')

  prlimit_task-Keeps :
      (pid : ℤ) (resource : ℕ) (new : Option Rlimit) (old : Option K.UserPtr)
      → Keeps P (prlimit_task K pid resource new old)
  unfolding prlimit_task Keeps
  prlimit_task-Keeps pid resource new old s c =
      if_found-Kept resource new old (task_for K pid s.world) s.world s.held c

  if_copied-Keeps :
      (pid : ℤ) (resource : ℕ) (old : Option K.UserPtr) (new : Option Rlimit)
      → Keeps P (if_copied K pid resource old new)
  unfolding if_copied
  if_copied-Keeps pid resource old none = pure-Keeps P minus_efault
  if_copied-Keeps pid resource old (some new64) =
      prlimit_task-Keeps pid resource (some (rlim64_to_rlim new64)) old

  prlimit64-Keeps :
      (pid : ℤ) (resource : ℕ) (new old : Option K.UserPtr)
      → Keeps P (prlimit64 K pid resource new old)
  unfolding prlimit64
  prlimit64-Keeps pid resource none old = prlimit_task-Keeps pid resource none old
  prlimit64-Keeps pid resource (some p) old =
      bind-Keeps P (call (K.copy_from_user p)) (if_copied K pid resource old)
        (call-Keeps P (K.copy_from_user p) (λ w. Same-Confined K doc start w _ (doc.from-Same p w)))
        (if_copied-Keeps pid resource old)

  perform-Keeps : (c : Call K) → Keeps P (perform K c)
  perform-Keeps (call_getrlimit resource p) = getrlimit-Keeps resource p
  perform-Keeps (call_setrlimit resource p) = setrlimit-Keeps resource p
  perform-Keeps (call_prlimit64 pid resource new old) = prlimit64-Keeps pid resource new old

  all_keep : (calls : List (Call K)) → Keeps P (perform_all K calls)
  all_keep [] = pure-Keeps P {A = List ℤ} []
  all_keep (c ∷ calls) = bind-Keeps P (perform K c) _ (perform-Keeps c) (λ r.
      bind-Keeps P (perform_all K calls) (λ rs. pure (r ∷ rs)) (all_keep calls)
        (λ rs. pure-Keeps P {A = List ℤ} (r ∷ rs)))

module _ (K : RlimKernel) (doc : Documented K) where
  -- From a state in which no limit is above its hard limit, any sequence of getrlimit, setrlimit and
  -- prlimit64 ends without a fault, with the locks and references as before, in such a state again,
  -- in which no hard limit of any process has grown unless the caller has CAP_SYS_RESOURCE.
  pub perform_all-Confined :
      (calls : List (Call K)) (s : Machine K.World)
      → ((t r : ℕ) → (K.rlim t r s.world).rlim_cur ≤ (K.rlim t r s.world).rlim_max)
      → Kept (Confined K doc s.world) s.held (perform_all K calls s)
  unfolding Keeps
  perform_all-Confined calls s order =
      all_keep K doc s.world calls s (λ t r. (order t r, inr (omega arith)))
