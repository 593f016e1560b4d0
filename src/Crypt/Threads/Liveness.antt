-- ===== src/Crypt/Threads/Liveness.antt =====
-- No deadlock: until the waiting is over some step is possible.
use sistemas_operativos.Prelude.{
  ℕ, zero, suc, ◌<◌, ◌≡◌, refl, ◌≢◌, ◌⊎◌, inl, inr, List, arith, length, dec_lt,
}
use mathlib.Core.Path.{subst}
use sistemas_operativos.Crypt.Fragment.{DataFragment}
use sistemas_operativos.Crypt.Threads.{
  Pc, not_started, head, loaded, finished, MainPc, creating, waiting, joined, failed, System, Step,
  create, created, wait, waited, load, store, complete, Runs, here, next, Reach,
}
use sistemas_operativos.Crypt.Threads.Tiling.{Tiled}
use sistemas_operativos.Crypt.Threads.Invariant.{Control, Inv, Reach-Inv, Step-Inv}
use sistemas_operativos.Crypt.Threads.Measure.{measure, Step-measure}

module _ (f : ℕ → DataFragment) (thread_count : ℕ) where
  module _ (file : List ℕ) where
    -- A step that is possible, and is no failure.
    record Moves (s : System) : Type 0 where
      to : System
      by : Step f thread_count s to
      sound : to.main ≢ failed

    -- A thread that has been started and has not finished can move.
    thread-Moves :
        (s : System) (t : ℕ) (p : Pc)
        → t < thread_count
        → s.main ≢ failed
        → s.pc t ≡ p
        → p ≢ not_started
        → (s.pc t ≡ finished) ⊎ Moves s
    thread-Moves s t not_started h ok e begun = absurd (begun refl)
    thread-Moves s t (head i) h ok e begun = elim (dec_lt i (f t).end_idx) [
      | yes more ↦ inr (record { to = _; by = load t i h e more; sound = ok })
      | no over ↦ inr (record { to = _; by = complete t i h e (omega arith); sound = ok })
    ]
    thread-Moves s t (loaded i byte) h ok e begun =
        inr (record { to = _; by = store t i byte h e; sound = ok })
    thread-Moves s t finished h ok e begun = inl e

    main-Moves :
        (s : System) (m : MainPc)
        → Inv f thread_count file s
        → s.main ≡ m
        → m ≢ failed
        → (m ≡ joined) ⊎ Moves s
    main-Moves s (creating i) inv e ok = elim (dec_lt i thread_count) [
      | yes more ↦ inr (record { to = _; by = create i e more; sound = λ q. cc })
      | no over ↦ inr (record { to = _; by = created i e (omega arith); sound = λ q. cc })
    ]
    main-Moves s (waiting i) inv e ok = elim (dec_lt i thread_count) [
      | yes more ↦
          let c = subst (λ m. Control thread_count m s.pc) e inv.control in
          elim (thread-Moves s i (s.pc i) more (λ q. cc) refl (c.1 i more)) [
            | inl done ↦ inr (record { to = _; by = wait i e more done; sound = λ q. cc })
            | inr moves ↦ inr moves
          ]
      | no over ↦ inr (record { to = _; by = waited i e (omega arith); sound = λ q. cc })
    ]
    main-Moves s joined inv e ok = inl refl
    main-Moves s failed inv e ok = absurd (ok refl)

    -- A state after the waiting, that can be reached from `s`.
    pub record CanEnd (s : System) : Type 0 where
      pub last : System
      pub path : Runs f thread_count s last
      pub waited_for_all : last.main ≡ joined

    Runs-cons :
        {s t u : System}
        → Step f thread_count s t
        → Runs f thread_count t u
        → Runs f thread_count s u
    Runs-cons st here = next here st
    Runs-cons st (next r st') = next (Runs-cons st r) st'

    run-CanEnd :
        (fuel : ℕ) {s : System}
        → Tiled f thread_count (length file)
        → Inv f thread_count file s
        → s.main ≢ failed
        → measure f thread_count s < fuel
        → CanEnd s
    run-CanEnd zero tiled inv ok h = absurd (omega arith)
    run-CanEnd (suc fuel) {s} tiled inv ok h = elim (main-Moves s s.main inv refl ok) [
      | inl over ↦ record { last = s; path = here; waited_for_all = over }
      | inr m ↦
          let e =
            run-CanEnd fuel tiled (Step-Inv f thread_count file tiled m.by inv) m.sound
              (omega (arith, Step-measure f thread_count file inv m.by)) in
          record { last = e.last; path = Runs-cons m.by e.path; waited_for_all = e.waited_for_all }
    ]

    -- No deadlock: from every state in which no `kthread_run` has failed the threads can all be
    -- brought to their end.
    pub Reach-CanEnd :
        {s : System}
        → Tiled f thread_count (length file)
        → Reach f thread_count file s
        → s.main ≢ failed
        → CanEnd s
    Reach-CanEnd {s} tiled r ok =
        run-CanEnd (suc (measure f thread_count s)) tiled (Reach-Inv f thread_count file tiled r) ok
          (omega arith)
