-- ===== src/App/Options.antt =====
-- The options of the programs, read in any order.
use sistemas_operativos.Prelude.{
  ◌≡◌, refl, List, [], ◌∷◌, Option, none, some, Bool, true, false, arith,
}
use sistemas_operativos.App.{
  Name, Opt, opt_p, opt_o, opt_j, opt_k, opt_other, Arguments, parse_options,
}

abbrev or_else : Option Name → Option Name → Option Name
or_else none d = d
or_else (some n) d = some n

abbrev pub input_of : Opt → Option Name
input_of (opt_p n) = some n
input_of (opt_o n) = none
input_of (opt_j n) = none
input_of (opt_k n) = none
input_of opt_other = none

abbrev pub output_of : Opt → Option Name
output_of (opt_p n) = none
output_of (opt_o n) = some n
output_of (opt_j n) = none
output_of (opt_k n) = none
output_of opt_other = none

abbrev pub threads_of : Opt → Option Name
threads_of (opt_p n) = none
threads_of (opt_o n) = none
threads_of (opt_j n) = some n
threads_of (opt_k n) = none
threads_of opt_other = none

abbrev pub key_of : Opt → Option Name
key_of (opt_p n) = none
key_of (opt_o n) = none
key_of (opt_j n) = none
key_of (opt_k n) = some n
key_of opt_other = none

-- The last argument of one option.
abbrev pub last_of : (Opt → Option Name) → List Opt → Option Name
last_of pick [] = none
last_of pick (o ∷ rest) = or_else (last_of pick rest) (pick o)

abbrev pub all_known : List Opt → Bool
all_known [] = true
all_known (opt_p n ∷ rest) = all_known rest
all_known (opt_o n ∷ rest) = all_known rest
all_known (opt_j n ∷ rest) = all_known rest
all_known (opt_k n ∷ rest) = all_known rest
all_known (opt_other ∷ rest) = false

abbrev pub last_arguments : List Opt → Arguments → Arguments
last_arguments options a = record {
  input_file = or_else (last_of input_of options) a.input_file;
  output_file = or_else (last_of output_of options) a.output_file;
  key_file = or_else (last_of key_of options) a.key_file;
  num_threads_file = or_else (last_of threads_of options) a.num_threads_file;
}

or_else-or_else : (a b c : Option Name) → or_else (or_else a b) c ≡ or_else a (or_else b c)
or_else-or_else none b c = refl
or_else-or_else (some n) b c = refl

-- If all options are known, each file name is the last argument of its option, in whatever order
-- the options come.
pub parse_options-last_arguments :
    (options : List Opt) (a : Arguments)
    → all_known options ≡ true
    → parse_options options a ≡ some (last_arguments options a)
unfolding parse_options
parse_options-last_arguments [] a known = refl
parse_options-last_arguments (opt_p n ∷ rest) a known =
    simp (or_else-or_else)
      (parse_options-last_arguments rest (record a { input_file = some n }) known)
parse_options-last_arguments (opt_o n ∷ rest) a known =
    simp (or_else-or_else)
      (parse_options-last_arguments rest (record a { output_file = some n }) known)
parse_options-last_arguments (opt_j n ∷ rest) a known =
    simp (or_else-or_else)
      (parse_options-last_arguments rest (record a { num_threads_file = some n }) known)
parse_options-last_arguments (opt_k n ∷ rest) a known =
    simp (or_else-or_else)
      (parse_options-last_arguments rest (record a { key_file = some n }) known)
parse_options-last_arguments (opt_other ∷ rest) a known = absurd (ground arith)

-- An option that is unknown ends the programs, wherever it stands.
pub parse_options-none :
    (options : List Opt) (a : Arguments)
    → all_known options ≡ false
    → parse_options options a ≡ none
unfolding parse_options
parse_options-none [] a unknown = absurd (ground arith)
parse_options-none (opt_p n ∷ rest) a unknown = parse_options-none rest _ unknown
parse_options-none (opt_o n ∷ rest) a unknown = parse_options-none rest _ unknown
parse_options-none (opt_j n ∷ rest) a unknown = parse_options-none rest _ unknown
parse_options-none (opt_k n ∷ rest) a unknown = parse_options-none rest _ unknown
parse_options-none (opt_other ∷ rest) a unknown = refl
