-- ===== src/Tests/Sessions.antt =====
-- The calls on groups and sessions, for two processes, the first of which leads the session of both.
-- Task 3 is another thread of the second process.
use sistemas_operativos.Prelude.{
  ℕ, ◌≡◌, ◌≢◌, refl, sym, ap, ◌∙◌, Bool, true, false, ◌||◌, ◌==◌, ==_iff, if◌then◌else◌, inl, inr,
  ◌⊎◌, Option, none, some, List, [], ◌∷◌, arith,
}
use mathlib.Core.Option.{some-injective, none-ne-some}
use sistemas_operativos.Prelude.Int.{ℤ, pos, negsuc}
use sistemas_operativos.Creds.{minus_eperm}
use sistemas_operativos.Kernel.Machine.{Machine}
use sistemas_operativos.Sessions.{SessionKernel, setpgid, getpgid, getsid, setsid}
use sistemas_operativos.Sessions.Documented.{Documented, Same}
use sistemas_operativos.Sessions.Orderly.{Orderly}
use sistemas_operativos.Kernel.Keeps.{Kept}
use sistemas_operativos.Sessions.Founded.{Founded}
use sistemas_operativos.Sessions.Calls.{
  call_setpgid, call_getpgid, call_getsid, call_setsid, schedule, Event, perform_all,
  perform_all-Keeps,
}

record Table : Type 0 where
  first_runs : Bool
  pgrp : ℕ → ℕ
  session : ℕ → ℕ
  leads : ℕ → Bool

abbrev alive : ℕ → Bool
alive q = (q == 1) || (q == 2)

abbrev process_of : ℕ → ℕ
process_of q = if q == 3 then 2 else q

abbrev shares : ℕ → ℕ → Bool
shares q p = process_of q == process_of p

shares_refl : (p : ℕ) → shares p p ≡ true
shares_refl p = (==_iff _ _).1 refl

shares-live : (q p : ℕ) → alive q ≡ true → alive p ≡ true → shares q p ≡ true → q ≡ p
shares-live q p lq lp e = ground arith

process_of_eq : (q p : ℕ) → shares q p ≡ true → process_of q ≡ process_of p
process_of_eq q p e = (==_iff _ _).0 e

abbrev find : ℤ → Option ℕ
find (pos n) = if alive n then some n else none
find (negsuc n) = none

abbrev first_of : ℕ → Table → Option ℕ
first_of i w = if w.pgrp 1 == i then some 1 else if w.pgrp 2 == i then some 2 else none

abbrev number : ℤ → ℕ
number (pos n) = n
number (negsuc n) = 0

abbrev table_kernel : SessionKernel
table_kernel = record {
  World = Table;
  current_task = λ w. if w.first_runs then 1 else 2;
  group_leader = λ w. if w.first_runs then 1 else 2;
  find_task_by_vpid = λ n w. find n;
  task_pid_vnr = λ q w. pos q;
  thread_group_leader = λ q w. alive q;
  real_parent = λ q w. if q == 2 then 1 else 0;
  same_thread_group = λ p q w. shares p q;
  task_pid = λ q w. q;
  task_pgrp = λ q w. w.pgrp (process_of q);
  task_session = λ q w. w.session (process_of q);
  forknoexec = λ q w. true;
  session_leader = λ q w. w.leads q;
  find_vpid = λ n w. number n;
  group_task = first_of;
  pid_vnr = λ i w. pos i;
  security_task_setpgid = λ p n w. (pos 0, w);
  security_task_getpgid = λ p w. (pos 0, w);
  security_task_getsid = λ p w. (pos 0, w);
  change_pgrp = λ p i w. record w { pgrp = λ q. if q == process_of p then i else w.pgrp q };
  change_session =
      λ p i w. record w { session = λ q. if q == process_of p then i else w.session q };
  set_session_leader = λ p w. record w { leads = λ q. if q == p then true else w.leads q };
  proc_clear_tty = λ p w. w;
  proc_sid_connector = λ p w. w;
  sched_autogroup_create_attach = λ p w. w;
}

abbrev same_fields :
    (w w' : Table)
    → w'.first_runs ≡ w.first_runs
    → ((q : ℕ) → w'.pgrp q ≡ w.pgrp q)
    → ((q : ℕ) → w'.session q ≡ w.session q)
    → Same table_kernel w w'
same_fields w w' e f g = record {
  leader = ap (λ b. if b then 1 else 2) e;
  placed = record {
    pgrp = λ q. f (process_of q);
    session = λ q. g (process_of q);
    pid = λ q. refl;
  };
}

-- One of two options that are guarded by tests.
guarded-some :
    (a b : Bool) (g : ℕ)
    → (if a then some 1 else if b then some 2 else none) ≡ some g
    → ((a ≡ true) × (g ≡ 1)) ⊎ ((b ≡ true) × (g ≡ 2))
guarded-some true b g e = inl (refl, sym (some-injective 1 g e))
guarded-some false true g e = inr (refl, sym (some-injective 2 g e))
guarded-some false false g e = absurd (none-ne-some g e)

first_of-member :
    (i g : ℕ) (w : Table) → first_of i w ≡ some g → (alive g ≡ true) × (w.pgrp (process_of g) ≡ i)
first_of-member i g w e = elim (guarded-some (w.pgrp 1 == i) (w.pgrp 2 == i) g e) [
  | inl (at, e) ↦ (ap alive e, ap (λ q. w.pgrp (process_of q)) e ∙ (==_iff _ _).0 at)
  | inr (at, e) ↦ (ap alive e, ap (λ q. w.pgrp (process_of q)) e ∙ (==_iff _ _).0 at)
]

alive-cases : (q : ℕ) → alive q ≡ true → (q ≡ 1) ⊎ (q ≡ 2)
alive-cases q e = ground arith

guarded-none :
    (a b : Bool)
    → (if◌then◌else◌ {A = Option ℕ} a (some 1) (if b then some 2 else none)) ≡ none
    → (a ≡ false) × (b ≡ false)
guarded-none a b e = ground arith

first_of-none :
    (i g : ℕ) (w : Table) → first_of i w ≡ none → alive g ≡ true → w.pgrp (process_of g) ≢ i
first_of-none i g w e lg at =
    let (a, b) = guarded-none (w.pgrp 1 == i) (w.pgrp 2 == i) e in
    elim (alive-cases g lg) [
      | inl g1 ↦ differs (w.pgrp 1) i a (sym (ap (λ q. w.pgrp (process_of q)) g1) ∙ at)
      | inr g2 ↦ differs (w.pgrp 2) i b (sym (ap (λ q. w.pgrp (process_of q)) g2) ∙ at)
    ]
  where
    differs : (m n : ℕ) → (m == n) ≡ false → m ≢ n
    differs m n e same = ground arith

abbrev runs_alive : (b : Bool) → alive (if b then 1 else 2) ≡ true
runs_alive true = refl
runs_alive false = refl

find-alive : (n : ℤ) (p : ℕ) → find n ≡ some p → alive p ≡ true → alive p ≡ true
find-alive n p e h = h

abbrev documented : Documented table_kernel alive
documented = record {
  shares = shares;
  shares_refl = shares_refl;
  shares-live = shares-live;
  shares-pgrp = λ q p w e. ap w.pgrp (process_of_eq q p e);
  shares-session = λ q p w e. ap w.session (process_of_eq q p e);
  leader-live = λ w. runs_alive w.first_runs;
  found-live = λ n p w. find-alive n p;
  pid-injective = λ p q w lp lq e. e;
  member = first_of-member;
  no_member = first_of-none;
  change_pgrp-leader = λ p i w. refl;
  change_pgrp-pgrp = λ p i q w. refl;
  change_pgrp-session = λ p i q w. refl;
  change_pgrp-pid = λ p i q w. refl;
  change_session-leader = λ p i w. refl;
  change_session-pgrp = λ p i q w. refl;
  change_session-session = λ p i q w. refl;
  change_session-pid = λ p i q w. refl;
  setpgid-Same = λ p n w. same_fields w w refl (λ q. refl) (λ q. refl);
  getpgid-Same = λ p w. same_fields w w refl (λ q. refl) (λ q. refl);
  getsid-Same = λ p w. same_fields w w refl (λ q. refl) (λ q. refl);
  leader-Same = λ p w. same_fields w _ refl (λ q. refl) (λ q. refl);
  tty-Same = λ p w. same_fields w w refl (λ q. refl) (λ q. refl);
  connector-Same = λ p w. same_fields w w refl (λ q. refl) (λ q. refl);
  autogroup-Same = λ p w. same_fields w w refl (λ q. refl) (λ q. refl);
}

abbrev switch_to : ℕ → Table → Table
switch_to n w = record w { first_runs = n == 1 }

abbrev start : Table
start = record { first_runs = true; pgrp = λ q. 1; session = λ q. 1; leads = λ q. q == 1 }

abbrev machine : Machine Table
machine = record { world = start; held = [] }

abbrev start-Orderly : Orderly table_kernel alive start
start-Orderly = record { groups = λ p q lp lq e. refl; own = λ p q lp lq e. refl }

-- The first process moves the second to a group of its own, which then cannot found a session, and
-- does so after it went back.
abbrev events : List Event
events =
    call_setpgid (pos 2) (pos 2)
    ∷ schedule 2
    ∷ call_setsid
    ∷ call_setpgid (pos 0) (pos 1)
    ∷ call_setsid
    ∷ call_getsid (pos 0)
    ∷ call_getpgid (pos 1)
    ∷ []

perform_all-Keeps_example :
    Kept (Orderly table_kernel alive) [] (perform_all table_kernel switch_to events machine)
perform_all-Keeps_example =
    perform_all-Keeps table_kernel switch_to alive documented
      (λ n w. record { pgrp = λ q. refl; session = λ q. refl; pid = λ q. refl }) events machine
      start-Orderly

abbrev results : Option (List ℤ × Machine Table) → List ℤ
results none = []
results (some (rs, s)) = rs

all_results :
    results (perform_all table_kernel switch_to events machine)
    ≡ pos 0 ∷ pos 0 ∷ minus_eperm ∷ pos 0 ∷ pos 2 ∷ pos 2 ∷ pos 1 ∷ []
unfolding setpgid setsid getsid getpgid
all_results = refl
