-- ===== src/App.antt =====
-- The programs ecrypt_app.c and dencrypt_app.c of "Practica2/Aplicaciones de usario", which differ
-- in the number of the system call and in what they print; printing is left out. The options are
-- the list of what `getopt` gives back, and the C library and the system call are parameters.
pub mod Options
pub mod Outcome
use sistemas_operativos.Prelude.{
  ℕ, zero, suc, List, [], ◌∷◌, Option, none, some, Bool, true, false, ◌==◌, if◌then◌else◌,
}
use sistemas_operativos.Prelude.Int.{ℤ, pos, negsuc}

-- A file name is the list of its characters.
abbrev pub Name : Type 0
Name = List ℕ

pub data Opt : Type 0 where
  opt_p opt_o opt_j opt_k : Name → Opt
  opt_other : Opt  -- `?`, for an option that is unknown or lacks its argument

pub record Arguments : Type 0 where
  pub input_file : Option Name
  pub output_file : Option Name
  pub key_file : Option Name
  pub num_threads_file : Option Name

pub record Library : Type 1 where
  pub World : Type 0
  pub File : Type 0
  pub fopen : Name → World → Option File × World
  -- `fscanf` of one `%d`: the number, if one was assigned.
  pub fscanf_d : File → World → Option ℤ × World
  pub fclose : File → World → World
  -- The number, the three names and the number of threads; the result of the call.
  pub syscall : ℕ → Name → Name → Name → ℤ → World → ℤ × World

abbrev pub no_arguments : Arguments
no_arguments = record {
  input_file = none;
  output_file = none;
  key_file = none;
  num_threads_file = none;
}

-- The loop over the options; `none` if it returns EXIT_FAILURE.
unfoldable pub parse_options : List Opt → Arguments → Option Arguments
parse_options [] a = some a
parse_options (opt_p optarg ∷ rest) a = parse_options rest (record a { input_file = some optarg })
parse_options (opt_o optarg ∷ rest) a = parse_options rest (record a { output_file = some optarg })
parse_options (opt_j optarg ∷ rest) a =
    parse_options rest (record a { num_threads_file = some optarg })
parse_options (opt_k optarg ∷ rest) a = parse_options rest (record a { key_file = some optarg })
parse_options (opt_other ∷ rest) a = none

abbrev pub is_positive : ℤ → Bool
is_positive (pos zero) = false
is_positive (pos (suc n)) = true
is_positive (negsuc n) = false

abbrev pub is_minus_one : ℤ → Bool
is_minus_one (pos n) = false
is_minus_one (negsuc n) = n == 0

abbrev pub exit_success : ℕ
exit_success = 0

abbrev pub exit_failure : ℕ
exit_failure = 1

abbrev pub sys_my_encrypt : ℕ
sys_my_encrypt = 551

abbrev pub sys_my_dencrypt : ℕ
sys_my_dencrypt = 552

module _ (L : Library) where
  open L use {World, File}

  -- After `fscanf`: -1 if no number was assigned; the file is closed in both cases.
  unfoldable pub scanned_threads : File → Option ℤ × World → ℤ × World
  scanned_threads file (none, w) = (negsuc 0, L.fclose file w)
  scanned_threads file (some num_threads, w) = (num_threads, L.fclose file w)

  unfoldable pub opened_threads : Option File × World → ℤ × World
  unfolding scanned_threads
  opened_threads (none, w) = (negsuc 0, w)
  opened_threads (some file, w) = scanned_threads file (L.fscanf_d file w)

  unfoldable pub read_num_threads_from_file : Name → World → ℤ × World
  unfolding opened_threads
  read_num_threads_from_file filename w = opened_threads (L.fopen filename w)

  unfoldable pub finish : ℤ × World → ℕ × World
  finish (result, w) = if is_minus_one result then (exit_failure, w) else (exit_success, w)

  unfoldable pub call_with : ℕ → Name → Name → Name → ℤ × World → ℕ × World
  unfolding finish
  call_with number input_file output_file key_file (num_threads, w) =
      if is_positive num_threads
      then finish (L.syscall number input_file output_file key_file num_threads w)
      else (exit_failure, w)

  -- The test that no file name is missing, and what follows it.
  unfoldable pub check_arguments : ℕ → Arguments → World → ℕ × World
  unfolding call_with read_num_threads_from_file
  check_arguments number a w = elim a.input_file [
    | none ↦ (exit_failure, w)
    | some input_file ↦ elim a.output_file [
      | none ↦ (exit_failure, w)
      | some output_file ↦ elim a.num_threads_file [
        | none ↦ (exit_failure, w)
        | some num_threads_file ↦ elim a.key_file [
          | none ↦ (exit_failure, w)
          | some key_file ↦
              call_with number input_file output_file key_file
                (read_num_threads_from_file num_threads_file w)
        ]
      ]
    ]
  ]

  unfoldable pub run : ℕ → List Opt → World → ℕ × World
  unfolding check_arguments parse_options
  run number options w = elim (parse_options options no_arguments) [
    | none ↦ (exit_failure, w)
    | some a ↦ check_arguments number a w
  ]

  unfoldable pub ecrypt_app : List Opt → World → ℕ × World
  unfolding run
  ecrypt_app = run sys_my_encrypt

  unfoldable pub dencrypt_app : List Opt → World → ℕ × World
  unfolding run
  dencrypt_app = run sys_my_dencrypt
