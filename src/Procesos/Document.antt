-- ===== src/Procesos/Document.antt =====
-- The document that procesos_info writes.
use sistemas_operativos.Prelude.{
  ℕ, zero, suc, ◌-◌, ◌≤◌, ◌<◌, ◌≡◌, refl, sym, ap, ◌∙◌, List, [], ◌∷◌, ◌++◌, false, ◌==◌, ltb, none,
  some, take, length, length-append, Option-cases, Bool-cases, inl, inr, arith,
}
use mathlib.Core.List.{append_assoc, append-nil}
use sistemas_operativos.Text.{codes}
use sistemas_operativos.Procesos.{
  Task, ProcMemInfo, info_of, collect, max_procs, members, opening, closing,
}

-- The objects of the processes, with a comma between any two.
abbrev pub objects : List ProcMemInfo → List ℕ
objects [] = []
objects (p ∷ []) = members p ++ codes "\n"
objects (p ∷ q ∷ ps) = members p ++ (codes ",\n" ++ objects (q ∷ ps))

abbrev pub document : List ProcMemInfo → List ℕ
document ps = opening ++ (objects (take 5 ps) ++ closing)

-- The entries of the processes that have memory of their own.
abbrev pub with_memory : ℕ → List Task → List ProcMemInfo
with_memory seconds [] = []
with_memory seconds (task ∷ tasks) = elim task.mm [
  | none ↦ with_memory seconds tasks
  | some rss ↦ info_of seconds task rss ∷ with_memory seconds tasks
]

append-take_nil : (n : ℕ) (xs : List ProcMemInfo) → xs ≡ xs ++ take n []
append-take_nil zero xs = sym (append-nil xs)
append-take_nil (suc n) xs = sym (append-nil xs)

collect-append :
    (seconds : ℕ) (tasks : List Task) (found : List ProcMemInfo)
    → 0 < seconds
    → length found ≤ max_procs
    → collect seconds tasks found
      ≡ some (found ++ take (max_procs - length found) (with_memory seconds tasks))
unfolding collect
collect-append seconds [] found up few = ap some (append-take_nil (max_procs - length found) found)
collect-append seconds (task ∷ tasks) found up few = elim (Option-cases task.mm) [
  | inl null ↦ rw null (collect-append seconds tasks found up few)
  | inr (rss, e) ↦ elim (Bool-cases (ltb (length found) max_procs)) [
    | inl room ↦
        rw (e, room, up_lem)
          (collect-append seconds tasks (found ++ (info_of seconds task rss ∷ [])) up
              (rw length-append (ground (arith, room)))
            ∙ ap some (
                appended (info_of seconds task rss) (with_memory seconds tasks)
                  (ground (arith, room))))
    | inr full ↦
        rw (e, full)
          (collect-append seconds tasks found up few
            ∙ ap some (rw (no_room (ground (arith, full))) refl))
  ]
]
  where
    up_lem : (seconds == 0) ≡ false
    up_lem = ground (arith, up)

    no_room : max_procs ≤ length found → max_procs - length found ≡ 0
    no_room h = omega (arith, h)

    appended :
        (p : ProcMemInfo) (ps : List ProcMemInfo)
        → length found < max_procs
        → ((found ++ (p ∷ [])) ++ take (max_procs - length (found ++ (p ∷ []))) ps)
          ≡ (found ++ take (max_procs - length found) (p ∷ ps))
    appended p ps room =
        append_assoc found (p ∷ []) (take (max_procs - length (found ++ (p ∷ []))) ps)
        ∙ ap (λ l. found ++ l) (ap (λ k. p ∷ take k ps) shorter ∙ ap (λ k. take k (p ∷ ps)) longer)
      where
        left : ℕ
        left = max_procs - length found - 1

        shorter : max_procs - length (found ++ (p ∷ [])) ≡ left
        shorter = rw length-append (omega (arith, room))

        longer : suc left ≡ max_procs - length found
        longer = omega (arith, room)

-- The array holds the entries of the first 1024 of the processes that have memory of their own, in
-- their order; there is no fault once the system has been up for a second.
pub collect-take :
    (seconds : ℕ) (tasks : List Task)
    → 0 < seconds
    → collect seconds tasks [] ≡ some (take max_procs (with_memory seconds tasks))
collect-take seconds tasks up = collect-append seconds tasks [] up (omega arith)
