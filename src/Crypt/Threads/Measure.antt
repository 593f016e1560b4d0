-- ===== src/Crypt/Threads/Measure.antt =====
-- Every step of the threads lowers a measure of the work that is left, so no run is endless.
use sistemas_operativos.Prelude.{
  ℕ, zero, suc, ◌+◌, ◌-◌, ◌*◌, ◌≤◌, ◌<◌, ◌≡◌, refl, ap, List, arith, length, dec_lt, get_or, set,
}
use mathlib.Core.Path.{subst}
use sistemas_operativos.Crypt.Fragment.{DataFragment}
use sistemas_operativos.Crypt.Worker.{xor_at}
use sistemas_operativos.Crypt.Threads.{
  Pc, not_started, head, loaded, finished, MainPc, creating, waiting, joined, failed, System,
  update, init, Step, create, create_fails, created, wait, waited, load, store, complete, Runs,
  here, next, Reach,
}
use sistemas_operativos.Crypt.Threads.Tiling.{Tiled}
use sistemas_operativos.Crypt.Threads.Invariant.{Work, Control, Inv, Reach-Inv}

-- The steps that a thread has still to make.
abbrev thread_left : DataFragment → Pc → ℕ
thread_left f not_started = 2 * (f.end_idx - f.start_idx) + 2
thread_left f (head i) = 2 * (f.end_idx - i) + 1
thread_left f (loaded i byte) = 2 * (f.end_idx - i)
thread_left f finished = 0

abbrev main_left : ℕ → MainPc → ℕ
main_left n (creating i) = n - i + n + 3
main_left n (waiting i) = n - i + 2
main_left n joined = 1
main_left n failed = 0

module _ (w : ℕ → Pc → ℕ) where
  total : ℕ → (ℕ → Pc) → ℕ
  total zero pc = 0
  total (suc n) pc = total n pc + w n (pc n)

  total-update_of_le :
      (n : ℕ) (pc : ℕ → Pc) (t : ℕ) (p : Pc) → n ≤ t → total n (update pc t p) ≡ total n pc
  unfolding total
  total-update_of_le zero pc t p h = refl
  total-update_of_le (suc n) pc t p h = ground (arith, total-update_of_le n pc t p)

  total-update :
      (n : ℕ) (pc : ℕ → Pc) (t : ℕ) (p : Pc)
      → t < n
      → total n (update pc t p) + w t (pc t) ≡ total n pc + w t p
  unfolding total
  total-update zero pc t p h = absurd (omega arith)
  total-update (suc n) pc t p h = elim (dec_lt t n) [
    | yes below ↦ ground (arith, total-update n pc t p below)
    | no last ↦ ground (arith, total-update_of_le n pc t p)
  ]

module _ (f : ℕ → DataFragment) (thread_count : ℕ) where
  abbrev work_left : ℕ → Pc → ℕ
  work_left t p = thread_left (f t) p

  -- The steps that are left at most.
  pub measure : System → ℕ
  measure s = main_left thread_count s.main + total work_left thread_count s.pc

  -- The thread `t` goes from `p` to `q`, and the starting thread from `m` to `m'`.
  measure-move :
      (s : System) (t : ℕ) (q : Pc) (buffer : List ℕ) (m : MainPc) {p : Pc} {m' : MainPc}
      → t < thread_count
      → s.pc t ≡ p
      → s.main ≡ m'
      → main_left thread_count m + work_left t q < main_left thread_count m' + work_left t p
      → measure (record { buffer = buffer; main = m; pc = update s.pc t q }) < measure s
  unfolding measure
  measure-move s t q buffer m {p} {m'} h e em less = omega (
    arith,
    total-update work_left thread_count s.pc t q h,
    ap (work_left t) e,
    ap (main_left thread_count) em,
  )

  measure-main :
      (s : System) (m : MainPc) {m' : MainPc}
      → s.main ≡ m'
      → main_left thread_count m < main_left thread_count m'
      → measure (record s { main = m }) < measure s
  unfolding measure
  measure-main s m em less = omega (arith, ap (main_left thread_count) em)

  -- The number of steps of a run.
  pub steps : {s s' : System} → Runs f thread_count s s' → ℕ
  steps here = 0
  steps (next r st) = suc (steps r)

  module _ (file : List ℕ) where
    -- Every step brings the end nearer.
    pub Step-measure :
        {s s' : System}
        → Inv f thread_count file s
        → Step f thread_count s s'
        → measure s' < measure s
    Step-measure {s} inv (create i at h) =
        let c = subst (λ m. Control thread_count m s.pc) at inv.control in
        measure-move s i (head (f i).start_idx) s.buffer (creating (suc i)) h (c.1 i (omega arith))
          at (omega arith)
    Step-measure {s} inv (create_fails i at h) = measure-main s failed at (omega arith)
    Step-measure {s} inv (created i at h) = measure-main s (waiting 0) at (omega arith)
    Step-measure {s} inv (wait i at h done) = measure-main s (waiting (suc i)) at (omega arith)
    Step-measure {s} inv (waited i at h) = measure-main s joined at (omega arith)
    Step-measure {s} inv (load t i h e more) =
        measure-move s t (loaded i (get_or s.buffer i 0)) s.buffer s.main h e refl (omega arith)
    Step-measure {s} inv (store t i byte h e) =
        let w = subst (Work (f t) file s.buffer) e (inv.work t h) in
        measure-move s t (head (i + 1)) (set s.buffer i (xor_at (f t) i byte)) s.main h e refl
          (omega (arith, w.1))
    Step-measure {s} inv (complete t i h e over) =
        measure-move s t finished s.buffer s.main h e refl (omega arith)

    -- No run of the threads goes on for ever: its length is bounded from the start.
    pub steps-le :
        {s : System}
        → Tiled f thread_count (length file)
        → (r : Reach f thread_count file s) → steps r + measure s ≤ measure (init file)
    unfolding steps
    steps-le tiled here = omega arith
    steps-le tiled (next r st) =
        omega (arith, steps-le tiled r, Step-measure (Reach-Inv f thread_count file tiled r) st)
