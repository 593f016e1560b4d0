-- ===== src/Crypt/Threads.antt =====
-- The threads of my_encrypt.c, interleaved with the code that starts them and waits for them. Every
-- read and every write of the shared buffer is a step of its own, and the scheduler is free.
pub mod Tiling
pub mod Slice
pub mod Invariant
pub mod Result
pub mod Measure
pub mod Liveness
pub mod Failure
use sistemas_operativos.Prelude.{ℕ, suc, ◌+◌, ◌≤◌, ◌<◌, ◌≡◌, List, ◌==◌, if◌then◌else◌, get_or, set}
use sistemas_operativos.Crypt.Fragment.{DataFragment}
use sistemas_operativos.Crypt.Worker.{xor_at}

-- Where a thread stands in `perform_xor_operation`, with its live locals.
pub data Pc : Type 0 where
  not_started : Pc
  head : (i : ℕ) → Pc  -- the test of the `for`
  loaded : (i byte : ℕ) → Pc  -- `buffer[i]` is read, and not yet written back
  finished : Pc  -- after `complete`

-- Where `handle_file_encryption` stands.
pub data MainPc : Type 0 where
  creating : (i : ℕ) → MainPc  -- the loop of `kthread_run`
  waiting : (i : ℕ) → MainPc  -- the loop of `wait_for_completion`
  joined : MainPc  -- before `kernel_write`
  failed : MainPc  -- `kthread_run` failed, and the buffers are freed

pub record System : Type 0 where
  pub buffer : List ℕ
  pub main : MainPc
  pub pc : ℕ → Pc

abbrev pub update : (ℕ → Pc) → ℕ → Pc → ℕ → Pc
update pc t p u = if t == u then p else pc u

abbrev pub init : List ℕ → System
init file = record { buffer = file; main = creating 0; pc = λ _. not_started }

module _ (f : ℕ → DataFragment) (thread_count : ℕ) where
  pub data Step (s : System) : System → Type 0 where
    create :
        (i : ℕ)
        → s.main ≡ creating i
        → i < thread_count
        → Step s (record s { main = creating (suc i); pc = update s.pc i (head (f i).start_idx) })
    create_fails :
        (i : ℕ) → s.main ≡ creating i → i < thread_count → Step s (record s { main = failed })
    created :
        (i : ℕ) → s.main ≡ creating i → thread_count ≤ i → Step s (record s { main = waiting 0 })
    wait :
        (i : ℕ)
        → s.main ≡ waiting i
        → i < thread_count
        → s.pc i ≡ finished
        → Step s (record s { main = waiting (suc i) })
    waited : (i : ℕ) → s.main ≡ waiting i → thread_count ≤ i → Step s (record s { main = joined })
    load :
        (t i : ℕ)
        → t < thread_count
        → s.pc t ≡ head i
        → i < (f t).end_idx
        → Step s (record s { pc = update s.pc t (loaded i (get_or s.buffer i 0)) })
    store :
        (t i byte : ℕ)
        → t < thread_count
        → s.pc t ≡ loaded i byte
        → Step s (record s {
          buffer = set s.buffer i (xor_at (f t) i byte);
          pc = update s.pc t (head (i + 1));
        })
    complete :
        (t i : ℕ)
        → t < thread_count
        → s.pc t ≡ head i
        → (f t).end_idx ≤ i
        → Step s (record s { pc = update s.pc t finished })

  -- Any number of steps, in any order that the scheduler may choose.
  pub data Runs (s : System) : System → Type 0 where
    here : Runs s s
    next : {t u : System} → Runs s t → Step t u → Runs s u

  -- The states that some schedule leads to, from the file as it was read.
  abbrev pub Reach : List ℕ → System → Type 0
  Reach file = Runs (init file)
