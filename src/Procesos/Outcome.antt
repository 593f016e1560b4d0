-- ===== src/Procesos/Outcome.antt =====
-- How procesos_info ends, and what the user gets.
use sistemas_operativos.Prelude.{
  ℕ, zero, suc, ◌-◌, ◌/◌, ◌%◌, ◌^◌, ◌≤◌, ◌<◌, ◌≡◌, refl, ap, ◌∙◌, List, [], ◌∷◌, Bool, true, ◌==◌,
  ltb, if◌then◌else◌, Option, some, take, length, Bool-cases, Option-cases, inl, inr, arith,
}
use sistemas_operativos.Prelude.Int.{ℤ, pos}
use sistemas_operativos.Kernel.Errno.{minus_enomem, minus_efault}
use sistemas_operativos.Kernel.Machine.{Machine, Resource, ◌>>=◌, procs, output}
use sistemas_operativos.Text.{c_string}
use sistemas_operativos.Text.Buffer.{null_free, strlen-Holds, take-Holds, int_max}
use sistemas_operativos.Procesos.{
  ProcKernel, Task, ProcMemInfo, max_procs, task_comm_len, through_int, free_both, copy_output,
  write_output, allocate_output, obtener_info_procesos, procesos_info,
}
use sistemas_operativos.Procesos.Document.{document, with_memory, collect-take}
use sistemas_operativos.Procesos.Json.{JsonText, report, proper}
use sistemas_operativos.Procesos.Valid.{document-JsonText}
use sistemas_operativos.Procesos.Printed.{clean, print_all-Holds, null_free-document}

null_free-c_string : (s : List ℕ) → null_free (c_string s) ≡ true
unfolding null_free c_string
null_free-c_string [] = refl
null_free-c_string (c ∷ s) = elim (Bool-cases (c == 0)) [
  | inl null ↦ rw null refl
  | inr other ↦ rw (other, other, null_free-c_string s) refl
]

pub clean-with_memory : (seconds : ℕ) (tasks : List Task) → clean (with_memory seconds tasks) ≡ true
clean-with_memory seconds [] = refl
clean-with_memory seconds (task ∷ tasks) = elim (Option-cases task.mm) [
  | inl null ↦ rw null (clean-with_memory seconds tasks)
  | inr (rss, e) ↦
      rw (e, null_free-c_string (take task_comm_len task.comm)) (clean-with_memory seconds tasks)
]

clean-take : (n : ℕ) (ps : List ProcMemInfo) → clean ps ≡ true → clean (take n ps) ≡ true
clean-take zero ps h = refl
clean-take (suc n) [] h = refl
clean-take (suc n) (p ∷ ps) h = ground (arith, clean-take n ps (ground (arith, h)))

take-take : (m n : ℕ) (ps : List ProcMemInfo) → m ≤ n → take m (take n ps) ≡ take m ps
take-take zero n ps h = refl
take-take (suc m) zero ps h = absurd (omega arith)
take-take (suc m) (suc n) [] h = refl
take-take (suc m) (suc n) (p ∷ ps) h = ap (λ l. p ∷ l) (take-take m n ps (omega arith))

document-take : (ps : List ProcMemInfo) → document (take max_procs ps) ≡ document ps
document-take ps = rw (take-take 5 max_procs ps (omega arith)) refl

module _ (K : ProcKernel) (buffer : K.UserPtr) (size : ℕ) where
  -- The seconds since the start of the system and the processes, as the call finds them.
  abbrev pub seconds_at : Machine K.World → ℕ
  seconds_at s = (K.ktime_get_ns s.world).0 / 1000000000

  abbrev pub processes_at : Machine K.World → List Task
  processes_at s = K.processes (K.kmalloc_array max_procs (K.ktime_get_ns s.world).1).1

  -- What the call answers: the text cut to the size less one, once both blocks are given.
  abbrev pub answer : List ℕ → Machine K.World → Option (ℤ × Machine K.World)
  answer text s =
      let now = K.ktime_get_ns s.world in
      let array = K.kmalloc_array max_procs now.1 in
      let block = K.kmalloc size array.1 in
      let copied = K.copy_to_user buffer (take (size - 1) text) block.1 in
      if array.0
      then if block.0
        then some (
          if copied.0 == 0 then pos 0 else minus_efault,
          record { world = copied.1; held = s.held },
        )
        else some (minus_enomem, record { world = block.1; held = s.held })
      else some (minus_enomem, record { world = array.1; held = s.held })

  module _ (some_ : 0 < size) (fits : size ≤ int_max)
      (heap-length : (w : K.World) → length (K.heap size w) ≡ size) where
    write_output-answer :
        (ps : List ProcMemInfo) (w : K.World) (held : List Resource)
        → clean ps ≡ true
        → (let copied = K.copy_to_user buffer (take (size - 1) (document ps)) w in
            write_output K buffer size ps (record { world = w; held = output ∷ procs ∷ held })
            ≡ some (
              if copied.0 == 0 then pos 0 else minus_efault,
              record { world = copied.1; held = held },
            ))
    unfolding write_output copy_output free_both
    write_output-answer ps w held h =
        let (b, e, holds) = print_all-Holds size some_ fits ps (K.heap size w) (heap-length w) h in
        rw
          (
            write_output,
            ◌>>=◌,
            e,
            copy_output,
            strlen-Holds size (document ps) b (null_free-document ps h) holds,
            take-Holds size (document ps) b holds,
          )
          (ended (K.copy_to_user buffer (take (size - 1) (document ps)) w))
      where
        ended :
            (copied : ℕ × K.World)
            → (if copied.0 == 0 then free_both K (pos 0) else free_both K minus_efault)
                (record { world = copied.1; held = output ∷ procs ∷ held })
              ≡ some (
                if copied.0 == 0 then pos 0 else minus_efault,
                record { world = copied.1; held = held },
              )
        ended copied = elim (Bool-cases (copied.0 == 0)) [
          | inl done ↦ rw done refl
          | inr left ↦ rw left refl
        ]

    through_int-small : through_int size ≡ size
    through_int-small = rw whole (rw small refl)
      where
        whole : size % 2 ^ 32 ≡ size
        whole = omega (arith, fits)

        small : ltb size (2 ^ 31) ≡ true
        small = ground (arith, fits)

    pub procesos_info-document :
        (s : Machine K.World)
        → ((w : K.World) → 1000000000 ≤ (K.ktime_get_ns w).0)
        → procesos_info K buffer size s
          ≡ answer (document (with_memory (seconds_at s) (processes_at s))) s
    unfolding procesos_info obtener_info_procesos allocate_output
    procesos_info-document s up = elim (Bool-cases array.0) [
      | inr null ↦ rw (◌>>=◌, null) refl
      | inl given ↦
          rw
            (
              ◌>>=◌,
              given,
              collect-take seconds (K.processes array.1) some_seconds,
              through_int-small,
            )
            (elim (Bool-cases block.0) [
              | inr null ↦ rw (null) refl
              | inl both ↦ rw (both) (
                  write_output-answer found block.1 s.held
                    (clean-take max_procs all (clean-with_memory seconds (K.processes array.1)))
                  ∙ ap
                      (λ (text : List ℕ).
                        let copied = K.copy_to_user buffer (take (size - 1) text) block.1 in
                        some (
                          if copied.0 == 0 then pos 0 else minus_efault,
                          record { world = copied.1; held = s.held },
                        ))
                      (document-take all))
            ])
    ]
      where
        now : ℕ × K.World
        now = K.ktime_get_ns s.world

        seconds : ℕ
        seconds = now.0 / 1000000000

        array : Bool × K.World
        array = K.kmalloc_array max_procs now.1

        block : Bool × K.World
        block = K.kmalloc size array.1

        all : List ProcMemInfo
        all = with_memory seconds (K.processes array.1)

        found : List ProcMemInfo
        found = take max_procs all

        some_seconds : 0 < seconds
        some_seconds = omega (arith, up s.world)

    -- If the system has been up for a second, the size is a positive `int`, a block has the size
    -- that was asked for, the numbers of the processes are ints and no name has a quotation mark, a
    -- backslash or a control character, then the call does not fault and frees what it took on
    -- every path. It returns -ENOMEM if a block is not given; otherwise it copies to the user a
    -- text, cut to the size less one, and returns 0, or -EFAULT if the copy is not complete. The
    -- whole text is JSON: an object whose member is the array of the first five processes that have
    -- memory of their own, with their number, name, bytes of memory, ticks and percentage.
    pub procesos_info-answer :
        (s : Machine K.World)
        → ((w : K.World) → 1000000000 ≤ (K.ktime_get_ns w).0)
        → ((w : K.World) → proper (K.processes w) ≡ true)
        → (text : List ℕ) × JsonText (report (seconds_at s) (processes_at s)) text
          × (procesos_info K buffer size s ≡ answer text s)
    procesos_info-answer s up named = (
      document (with_memory (seconds_at s) (processes_at s)),
      document-JsonText (seconds_at s) (processes_at s) (named _),
      procesos_info-document s up,
    )
