-- ===== src/App/Outcome.antt =====
-- When the programs make the system call, and how they end.
use sistemas_operativos.Prelude.{
  ℕ, suc, ◌≡◌, ◌⊎◌, inl, inr, refl, ◌∙◌, List, none, some, true, false, Bool-cases, Option-cases,
  arith,
}
use sistemas_operativos.Prelude.Int.{ℤ, pos}
use sistemas_operativos.App.{
  Name, Opt, Arguments, Library, no_arguments, is_positive, exit_failure,
  read_num_threads_from_file, finish, call_with, check_arguments, run,
}
use sistemas_operativos.App.Options.{
  last_of, input_of, output_of, threads_of, key_of, all_known, last_arguments,
  parse_options-last_arguments, parse_options-none,
}

-- Something is missing on the command line, or something is there that should not be.
abbrev pub Misused : List Opt → Type 0
Misused options =
    (all_known options ≡ false)
    ⊎ (last_of input_of options ≡ none)
    ⊎ (last_of output_of options ≡ none)
    ⊎ (last_of threads_of options ≡ none)
    ⊎ (last_of key_of options ≡ none)

module _ (L : Library) (number : ℕ) (options : List Opt) (w : L.World) where
  abbrev Lacking : Arguments → Type 0
  Lacking a =
      (a.input_file ≡ none)
      ⊎ (a.output_file ≡ none)
      ⊎ (a.num_threads_file ≡ none)
      ⊎ (a.key_file ≡ none)

  check_arguments-Lacking :
      (a : Arguments) (w : L.World) → Lacking a → check_arguments L number a w ≡ (exit_failure, w)
  unfolding check_arguments
  check_arguments-Lacking a w lacking = elim (Option-cases a.input_file) [
    | inl p ↦ rw (check_arguments, p) refl
    | inr (i, p) ↦ elim (Option-cases a.output_file) [
      | inl o ↦ rw (check_arguments, p, o) refl
      | inr (o', o) ↦ elim (Option-cases a.num_threads_file) [
        | inl j ↦ rw (check_arguments, p, o, j) refl
        | inr (j', j) ↦ elim (Option-cases a.key_file) [
          | inl k ↦ rw (check_arguments, p, o, j, k) refl
          | inr (k', k) ↦ absurd (ground arith)
        ]
      ]
    ]
  ]

  -- With known options the names that are checked are the last ones.
  run-last_arguments :
      all_known options ≡ true
      → run L number options w ≡ check_arguments L number (last_arguments options no_arguments) w
  unfolding run
  run-last_arguments known = rw (run, parse_options-last_arguments options no_arguments known) refl

  -- If all options are known and each of the four is there, and the file of the last -j holds a
  -- positive number, the program makes the system call with the last argument of each option and
  -- that number, and its exit code is that of the result.
  pub run-finish :
      (input_file output_file num_threads_file key_file : Name) (n : ℕ) (w' : L.World)
      → all_known options ≡ true
      → last_of input_of options ≡ some input_file
      → last_of output_of options ≡ some output_file
      → last_of threads_of options ≡ some num_threads_file
      → last_of key_of options ≡ some key_file
      → read_num_threads_from_file L num_threads_file w ≡ (pos (suc n), w')
      → run L number options w
        ≡ finish L (L.syscall number input_file output_file key_file (pos (suc n)) w')
  unfolding check_arguments call_with
  run-finish input_file output_file num_threads_file key_file n w' known p o j k read =
      run-last_arguments known ∙ rw (check_arguments, p, o, j, k, read, call_with) refl

  -- If the command line is misused the program returns EXIT_FAILURE and does nothing: it opens no
  -- file and makes no system call.
  pub run-Misused : Misused options → run L number options w ≡ (exit_failure, w)
  unfolding run check_arguments
  run-Misused misused = elim (Bool-cases (all_known options)) [
    | inl known ↦
        run-last_arguments known
        ∙ check_arguments-Lacking (last_arguments options no_arguments) w (lacks misused known)
    | inr unknown ↦ rw (run, parse_options-none options no_arguments unknown) refl
  ]
    where
      lacks :
          Misused options → all_known options ≡ true → Lacking (last_arguments options no_arguments)
      lacks (inl unknown) known = absurd (ground arith)
      lacks (inr (inl p)) known = inl (rw p refl)
      lacks (inr (inr (inl o))) known = inr (inl (rw o refl))
      lacks (inr (inr (inr (inl j)))) known = inr (inr (inl (rw j refl)))
      lacks (inr (inr (inr (inr k)))) known = inr (inr (inr (rw k refl)))

  -- If the options are complete but the file of -j does not open, holds no number, or holds one that is not
  -- positive, the program returns EXIT_FAILURE and makes no system call.
  pub run-not_positive :
      (input_file output_file num_threads_file key_file : Name) (threads : ℤ) (w' : L.World)
      → all_known options ≡ true
      → last_of input_of options ≡ some input_file
      → last_of output_of options ≡ some output_file
      → last_of threads_of options ≡ some num_threads_file
      → last_of key_of options ≡ some key_file
      → read_num_threads_from_file L num_threads_file w ≡ (threads, w')
      → is_positive threads ≡ false
      → run L number options w ≡ (exit_failure, w')
  unfolding check_arguments call_with
  run-not_positive input_file output_file num_threads_file key_file threads w' known p o j k read
        le =
      run-last_arguments known ∙ rw (check_arguments, p, o, j, k, read, call_with, le) refl
