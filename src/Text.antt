-- ===== src/Text.antt =====
-- `snprintf` and `sscanf` of the C library, as far as the formats of the system calls use them:
-- characters that stand for themselves, white space and `%lu`. A text is the list of its codes, and
-- a format the list of its directives.
pub mod Buffer
pub mod Decimal
pub mod Scan
pub mod Width
use Prim.Native.Char.{code}
use Prim.Native.String.{String}
use sistemas_operativos.Prelude.{
  ℕ, zero, suc, ◌+◌, ◌-◌, ◌*◌, ◌/◌, ◌%◌, List, [], ◌∷◌, ◌++◌, Bool, true, false, ◌&&◌, ◌||◌, leb,
  ltb, ◌==◌, if◌then◌else◌, take, drop, length, map,
}

-- The codes of a text.
abbrev pub codes : String → List ℕ
codes String.[] = []
codes (String.◌∷◌ c s) = code c ∷ codes s

pub data Directive : Type 0 where
  chr : ℕ → Directive
  ulong : Directive  -- %lu

abbrev pub lit : String → List Directive
lit s = map chr (codes s)

abbrev pub is_space : ℕ → Bool
is_space c = c == 32 || (leb 9 c && leb c 13)

abbrev pub is_digit : ℕ → Bool
is_digit c = leb 48 c && leb c 57

-- The digits of a number, of which there are at most as many as the fuel says.
unfoldable pub decimal_fuel : ℕ → ℕ → List ℕ
decimal_fuel zero n = []
decimal_fuel (suc f) n =
    let rest = decimal_fuel f (n / 10) in
    if ltb n 10 then (48 + n) ∷ [] else rest ++ ((48 + n % 10) ∷ [])

-- An `unsigned long` of 64 bits has at most 20 digits.
abbrev pub decimal : ℕ → List ℕ
decimal = decimal_fuel 20

-- What the format and its arguments stand for.
unfoldable pub format : List Directive → List ℕ → List ℕ
format [] values = []
format (chr c ∷ d) values = c ∷ format d values
format (ulong ∷ d) [] = []
format (ulong ∷ d) (v ∷ values) = decimal v ++ format d values

-- `snprintf`: all that fits before the final null byte.
unfoldable pub snprintf : ℕ → List Directive → List ℕ → List ℕ
unfolding format
snprintf size d values = take (size - 1) (format d values)

unfoldable pub skip_space : List ℕ → List ℕ
skip_space [] = []
skip_space (c ∷ s) = let rest = skip_space s in if is_space c then rest else c ∷ s

-- The number that begins a text, onto `acc`, and what follows its digits.
unfoldable pub number : ℕ → List ℕ → ℕ × List ℕ
number acc [] = (acc, [])
number acc (c ∷ s) =
    let rest = number (acc * 10 + (c - 48)) s in if is_digit c then rest else (acc, c ∷ s)

abbrev pub starts_digit : List ℕ → Bool
starts_digit [] = false
starts_digit (c ∷ s) = is_digit c

-- `sscanf`: the values that are assigned before the first directive that does not match.
unfoldable pub sscanf : List Directive → List ℕ → List ℕ
unfolding skip_space number
sscanf [] s = []
sscanf (ulong ∷ d) s =
    let t = skip_space s in
    let rest = sscanf d (number 0 t).1 in if starts_digit t then (number 0 t).0 ∷ rest else []
sscanf (chr c ∷ d) [] = if is_space c then sscanf d [] else []
sscanf (chr c ∷ d) (x ∷ s) =
    let after_space = sscanf d (skip_space (x ∷ s)) in
    let after = sscanf d s in if is_space c then after_space else if c == x then after else []

-- A buffer after `snprintf`: the text, a null byte, and what the buffer held before.
unfoldable pub snprintf_into : List ℕ → List Directive → List ℕ → List ℕ
unfolding snprintf
snprintf_into buffer d values =
    let text = snprintf (length buffer) d values in text ++ (0 ∷ drop (length text + 1) buffer)

-- The string that a buffer holds: all before the first null byte.
unfoldable pub c_string : List ℕ → List ℕ
c_string [] = []
c_string (c ∷ s) = let rest = c_string s in if c == 0 then [] else c ∷ rest

-- A format, cut where it says `%lu`.
unfoldable pub pieces : List String → List Directive
pieces [] = []
pieces (s ∷ ss) = lit s ++ fields ss
  where
    fields : List String → List Directive
    fields [] = []
    fields (s ∷ ss) = ulong ∷ (lit s ++ fields ss)

-- `strcmp(s, t) == 0`
abbrev pub streq : List ℕ → List ℕ → Bool
streq [] [] = true
streq [] (y ∷ t) = false
streq (x ∷ s) [] = false
streq (x ∷ s) (y ∷ t) = x == y && streq s t
