-- ===== src/Sessions/Calls.antt =====
-- Calls of the four kinds, one after the other, with other tasks scheduled in between.
use sistemas_operativos.Prelude.{ℕ, refl, Bool, List, [], ◌∷◌}
use sistemas_operativos.Prelude.Int.{ℤ, pos}
use sistemas_operativos.Kernel.Machine.{Machine, M, ◌>>=◌, pure}
use sistemas_operativos.Sessions.{SessionKernel, step, setpgid, getpgid, getsid, setsid}
use sistemas_operativos.Sessions.Documented.{Documented, Placed}
use sistemas_operativos.Sessions.Orderly.{Orderly, Placed-Orderly}
use sistemas_operativos.Kernel.Keeps.{Kept, Keeps, pure-Keeps, bind-Keeps}
use sistemas_operativos.Sessions.Keeps.{getpgid-Keeps, getsid-Keeps}
use sistemas_operativos.Sessions.Setpgid.{setpgid-Keeps}
use sistemas_operativos.Sessions.Setsid.{setsid-Keeps}

pub data Event : Type 0 where
  call_setpgid : ℤ → ℤ → Event
  call_getpgid call_getsid : ℤ → Event
  call_setsid : Event
  -- Another task goes on.
  schedule : ℕ → Event

module _ (K : SessionKernel) (switch_to : ℕ → K.World → K.World) where
  abbrev pub perform : Event → M K.World ℤ
  perform (call_setpgid pid pgid) = setpgid K pid pgid
  perform (call_getpgid pid) = getpgid K pid
  perform (call_getsid pid) = getsid K pid
  perform call_setsid = setsid K
  perform (schedule n) = step K (switch_to n) >>= λ t. pure (pos 0)

  -- The results, in their order.
  abbrev pub perform_all : List Event → M K.World (List ℤ)
  perform_all [] = pure []
  perform_all (e ∷ events) = perform e >>= λ r. perform_all events >>= λ rs. pure (r ∷ rs)

  module _ (live : ℕ → Bool) (doc : Documented K live)
      (switched : (n : ℕ) (w : K.World) → Placed K w (switch_to n w)) where
    perform-Keeps : (e : Event) → Keeps (Orderly K live) (perform e)
    unfolding Keeps Kept
    perform-Keeps (call_setpgid pid pgid) = setpgid-Keeps K live doc pid pgid
    perform-Keeps (call_getpgid pid) = getpgid-Keeps K live doc pid
    perform-Keeps (call_getsid pid) = getsid-Keeps K live doc pid
    perform-Keeps call_setsid = setsid-Keeps K live doc
    perform-Keeps (schedule n) =
        λ s o. (refl, Placed-Orderly K live s.world (switch_to n s.world) (switched n s.world) o)

    -- In a state where every process group lies in one session and the group that bears the number
    -- of a process lies in the session of that process, any sequence of the calls setpgid, getpgid,
    -- getsid and setsid, of any processes, ends without a fault, with the locks as before, in such
    -- a state again.
    pub perform_all-Keeps :
        (events : List Event) (s : Machine K.World)
        → Orderly K live s.world
        → Kept (Orderly K live) s.held (perform_all events s)
    unfolding Keeps
    perform_all-Keeps [] = pure-Keeps (Orderly K live) {A = List ℤ} []
    perform_all-Keeps (e ∷ events) =
        bind-Keeps (Orderly K live) (perform e) _ (perform-Keeps e) (λ r.
          bind-Keeps (Orderly K live) (perform_all events) (λ rs. pure (r ∷ rs))
            (perform_all-Keeps events) (λ rs. pure-Keeps (Orderly K live) {A = List ℤ} (r ∷ rs)))
