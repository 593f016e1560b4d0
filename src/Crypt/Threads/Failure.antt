-- ===== src/Crypt/Threads/Failure.antt =====
-- What happens when `kthread_run` fails: the buffers are freed under the threads that run.
use sistemas_operativos.Prelude.{ℕ, ◌≤◌, ◌<◌, ◌≡◌, refl, List, arith}
use sistemas_operativos.Crypt.Fragment.{DataFragment}
use sistemas_operativos.Crypt.Threads.{
  head, failed, System, create, create_fails, here, next, Reach,
}

-- A thread that is about to read a byte of the buffer which has been freed.
pub record UsesFreed (f : ℕ → DataFragment) (s : System) : Type 0 where
  pub freed : s.main ≡ failed
  pub thread : ℕ
  pub index : ℕ
  pub running : s.pc thread ≡ head index
  pub in_range : index < (f thread).end_idx

module _ (f : ℕ → DataFragment) (thread_count : ℕ) (file : List ℕ) where
  -- With two threads or more, and a first fragment that is not empty, a failure of the second
  -- `kthread_run` leaves the first thread with a freed buffer.
  pub failure-UsesFreed :
      2 ≤ thread_count
      → (f 0).start_idx < (f 0).end_idx
      → (s : System) × Reach f thread_count file s × UsesFreed f s
  failure-UsesFreed many some_byte = (
    _,
    next (next here (create 0 refl (omega arith))) (create_fails 1 refl (omega arith)),
    record {
      freed = refl;
      thread = 0;
      index = (f 0).start_idx;
      running = refl;
      in_range = some_byte;
    },
  )
