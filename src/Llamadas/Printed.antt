-- ===== src/Llamadas/Printed.antt =====
-- What the program on the clocks and the log prints.
use sistemas_operativos.Prelude.{
  ℕ, ◌-◌, ◌<◌, ◌≡◌, ◌⊎◌, refl, Option, none, some, List, [], ◌∷◌, length, take, drop, true, arith,
}
use sistemas_operativos.Prelude.Int.{pos, negsuc}
use sistemas_operativos.Kernel.Errno.{minus_einval, minus_enomem, minus_efault, to_int}
use sistemas_operativos.Kernel.Machine.{Machine}
use sistemas_operativos.App.{exit_success, exit_failure}
use sistemas_operativos.Logs.{
  LogKernel, max_log_entries, copy_lines, retrieve_last_five_logs, allocate_output,
  with_output_buffer, copy_log, free_buffers,
}
use sistemas_operativos.Logs.Lines.{concat, copy_lines-drop}
use sistemas_operativos.Llamadas.{
  Clocks, Line, uptime_line, time_line, log_line, perror_log, log_buffer_size, after_log,
  after_time, after_uptime, main, uptime, get_seconds_time,
}

-- The clocks do not run before their start, and `syscall` returns -1 for an error.
pub record Documented (K : LogKernel) (C : Clocks K) : Type 0 where
  pub real : (w : K.World) → (n : ℕ) × ((C.ktime_get_real_seconds w).0 ≡ pos n)
  pub boottime : (w : K.World) → (n : ℕ) × ((C.ktime_get_boottime_seconds w).0 ≡ pos n)
  pub returned_pos : (n : ℕ) → C.returned (pos n) ≡ pos n
  pub returned_einval : C.returned minus_einval ≡ negsuc 0
  pub returned_enomem : C.returned minus_enomem ≡ negsuc 0
  pub returned_efault : C.returned minus_efault ≡ negsuc 0

to_int_small : (n : ℕ) → n < log_buffer_size → to_int (pos n) ≡ pos n
to_int_small n h = ground arith

module _ (K : LogKernel) (C : Clocks K) where
  -- What the clocks give when the program asks them.
  abbrev pub Read : (u t : ℕ) → K.World → Type 0
  Read u t w =
      ((C.ktime_get_boottime_seconds w).0 ≡ pos u)
      × ((C.ktime_get_real_seconds (C.ktime_get_boottime_seconds w).1).0 ≡ pos t)

  -- The end of the program: exit code 0 with three lines, of which the last has a precision within
  -- the buffer, or exit code 1 with an error in its place.
  abbrev pub Told :
      (u t : ℕ) → Machine K.World → Option ((ℕ × List Line) × Machine K.World) → Type 0
  Told u t s none = ⊥
  Told u t s (some ((code, lines), s')) =
      (s'.held ≡ s.held)
      × (((n : ℕ) × (bytes : List ℕ) × (code ≡ exit_success)
            × (n < log_buffer_size)
            × (lines ≡ uptime_line (pos u) ∷ time_line (pos t) ∷ log_line (pos n) bytes ∷ []))
          ⊎ ((code ≡ exit_failure)
              × (lines ≡ uptime_line (pos u) ∷ time_line (pos t) ∷ perror_log ∷ [])))

  module _ (doc : Documented K C) where
    -- The program up to the call on the log.
    main-retrieve :
        (s : Machine K.World)
        → (u t : ℕ) × Read u t s.world
          × (w : K.World) × (main K C s
              ≡ (elim (retrieve_last_five_logs K C.log_buffer log_buffer_size
                  (record s { world = w })) [
                    | none ↦ none
                    | some (result, s') ↦ after_log K C (pos u) (pos t) (C.returned result) s'
                  ]))
    unfolding main after_uptime after_time uptime get_seconds_time
    main-retrieve s =
        let w1 = (C.ktime_get_boottime_seconds s.world).1 in
        let (u, eu) = doc.boottime s.world in
        let (t, et) = doc.real w1 in
        (
          u,
          t,
          (eu, et),
          (C.ktime_get_real_seconds w1).1,
          rw (eu, doc.returned_pos, et, doc.returned_pos) refl,
        )

-- The kernel serves the allocations, the log does not change while the program runs, and a copy
-- puts the bytes into the program's memory.
pub record Steady (K : LogKernel) (C : Clocks K) (lines : List (List ℕ)) : Type 0 where
  pub zeroed : (n : ℕ) (w : K.World) → (K.kzalloc n w).0 ≡ true
  pub given : (n : ℕ) (w : K.World) → (K.kmalloc n w).0 ≡ true
  pub log : (w : K.World) → (K.kmsg_lines w).0 ≡ lines
  pub copied : (p : K.UserPtr) (bytes : List ℕ) (w : K.World) → (K.copy_to_user p bytes w).0 ≡ 0
  pub memory :
      (p : K.UserPtr) (bytes : List ℕ) (w : K.World)
      → take (length bytes) (C.memory p (K.copy_to_user p bytes w).1) ≡ bytes

module _ (K : LogKernel) (C : Clocks K) (lines : List (List ℕ)) where
  retrieve_last_five_logs-copy_lines :
      Steady K C lines
      → (s : Machine K.World)
      → (w : K.World) × (retrieve_last_five_logs K C.log_buffer log_buffer_size s
          ≡ some (
            pos (length (copy_lines log_buffer_size (length lines) 0 [] lines)),
            record s {
              world =
                  (K.copy_to_user C.log_buffer
                    (copy_lines log_buffer_size (length lines) 0 [] lines)
                    w).1;
            },
          ))
  unfolding retrieve_last_five_logs allocate_output with_output_buffer copy_log free_buffers
  retrieve_last_five_logs-copy_lines steady s =
      let w1 = (K.kzalloc log_buffer_size s.world).1 in
      let w2 = (K.kmalloc 1024 w1).1 in
      let w3 = (K.kmsg_lines w2).1 in
      (
        (K.kmsg_lines w3).1,
        rw
            (
              steady.zeroed log_buffer_size s.world,
              steady.given 1024 w1,
              steady.log w2,
              steady.log w3,
              steady.copied,
            )
            refl,
      )

  -- The text of the log that the program prints.
  abbrev pub last_lines : List ℕ
  last_lines = concat (drop (length lines - max_log_entries) lines)

  -- Exit code 0 after the two clocks and the text whose precision is the length of the last five
  -- lines, with these lines at the start of the buffer.
  abbrev pub Prints : K.World → Option ((ℕ × List Line) × Machine K.World) → Type 0
  Prints w none = ⊥
  Prints w (some ((code, printed), s')) =
      (u t : ℕ) × Read K C u t w
      × (bytes : List ℕ) × (code ≡ exit_success)
      × (printed
          ≡ uptime_line (pos u) ∷ time_line (pos t) ∷ log_line (pos (length last_lines)) bytes ∷ [])
      × (take (length last_lines) bytes ≡ last_lines)

  -- If besides the kernel serves the allocations and the copy, the log does not change and its last
  -- five lines are shorter than the buffer, the program ends with exit code 0 after it printed both
  -- clocks and these five lines, the whole of them and nothing more.
  pub main-Prints :
      Documented K C
      → Steady K C lines
      → length last_lines < log_buffer_size
      → (s : Machine K.World) → Prints s.world (main K C s)
  unfolding after_log
  main-Prints doc steady small s =
      let (u, t, clocks, w, e) = main-retrieve K C doc s in
      let (w', e') = retrieve_last_five_logs-copy_lines steady (record s { world = w }) in
      rw
        (
          e,
          e',
          copy_lines-drop log_buffer_size lines small,
          doc.returned_pos,
          to_int_small (length last_lines) small,
        )
        (
          u,
          t,
          clocks,
          C.memory C.log_buffer (K.copy_to_user C.log_buffer last_lines w').1,
          refl,
          refl,
          steady.memory C.log_buffer last_lines w',
        )
