-- ===== src/Procesos/Fault.antt =====
-- The percentages of procesos_info are divided by the whole seconds since the start of the system.
use sistemas_operativos.Prelude.{
  ℕ, ◌≡◌, ◌<◌, ◌/◌, refl, sym, List, [], ◌∷◌, true, none, Option-cases, inl, inr, arith,
}
use mathlib.Core.Path.{subst}
use sistemas_operativos.Kernel.Machine.{Machine, ◌>>=◌}
use sistemas_operativos.Procesos.{
  ProcKernel, Task, ProcMemInfo, collect, max_procs, obtener_info_procesos, procesos_info,
}
use sistemas_operativos.Procesos.Document.{with_memory}

collect-none :
    (tasks : List Task) (p : ProcMemInfo) (ps : List ProcMemInfo)
    → with_memory 0 tasks ≡ p ∷ ps
    → collect 0 tasks [] ≡ none
unfolding collect
collect-none [] p ps e = cc
collect-none (task ∷ tasks) p ps e = elim (Option-cases task.mm) [
  | inl null ↦ rw null (collect-none tasks p ps (rw null at e))
  | inr (rss, given) ↦ rw given refl
]

module _ (K : ProcKernel) (buffer : K.UserPtr) (size : ℕ) where
  -- In the first second after the start the call divides by zero and faults, if the array is given
  -- and any process has memory of its own.
  pub procesos_info-fault :
      (s : Machine K.World) (p : ProcMemInfo) (ps : List ProcMemInfo)
      → (K.ktime_get_ns s.world).0 < 1000000000
      → (K.kmalloc_array max_procs (K.ktime_get_ns s.world).1).0 ≡ true
      → with_memory 0 (K.processes (K.kmalloc_array max_procs (K.ktime_get_ns s.world).1).1)
        ≡ p ∷ ps
      → procesos_info K buffer size s ≡ none
  unfolding procesos_info obtener_info_procesos
  procesos_info-fault s p ps early given any = rw (◌>>=◌, given, fault) refl
    where
      seconds : ℕ
      seconds = (K.ktime_get_ns s.world).0 / 1000000000

      tasks : List Task
      tasks = K.processes (K.kmalloc_array max_procs (K.ktime_get_ns s.world).1).1

      no_seconds : seconds ≡ 0
      no_seconds = omega (arith, early)

      fault : collect seconds tasks [] ≡ none
      fault = subst (λ n. collect n tasks [] ≡ none) (sym no_seconds) (collect-none tasks p ps any)
