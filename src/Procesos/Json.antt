-- ===== src/Procesos/Json.antt =====
-- JSON texts, by the grammar of RFC 8259 as far as the documents of procesos_info use it: numbers
-- without fraction and exponent, strings without escapes, arrays and objects, with white space
-- between them. The encoding of the characters is left open. A derivation reads a value from the
-- beginning of a text and leaves the rest.
use sistemas_operativos.Prelude.{
  ℕ, zero, suc, ◌+◌, ◌*◌, ◌/◌, ◌%◌, ◌^◌, ◌≡◌, List, [], ◌∷◌, ◌++◌, Bool, true, false, not, ◌&&◌,
  ◌||◌, ◌==◌, leb, if◌then◌else◌, none, some, take,
}
use sistemas_operativos.Prelude.Int.{ℤ, pos, negsuc}
use sistemas_operativos.Text.{codes, c_string, starts_digit, number}
use sistemas_operativos.Procesos.{Task}

mutual
  pub data Json : Type 0 where
    num : ℤ → Json
    str : List ℕ → Json
    arr : Elements → Json
    obj : Members → Json

  pub data Elements : Type 0 where
    no_elements : Elements
    element : Json → Elements → Elements

  pub data Members : Type 0 where
    no_members : Members
    member : List ℕ → Json → Members → Members

-- White space: blank, tab, line feed and carriage return.
abbrev pub is_white : ℕ → Bool
is_white c = c == 32 || c == 9 || c == 10 || c == 13

abbrev pub skip : List ℕ → List ℕ
skip [] = []
skip (c ∷ s) = let rest = skip s in if is_white c then rest else c ∷ s

-- No quotation mark, no backslash and no control character.
abbrev pub plain : List ℕ → Bool
plain [] = true
plain (c ∷ s) = not (c == 34) && not (c == 92) && leb 32 c && plain s

abbrev pub no_leading_zero : List ℕ → Bool
no_leading_zero [] = false
no_leading_zero (c ∷ s) = not (c == 48 && starts_digit s)

-- The digits of a natural number, and what follows them.
abbrev pub Digits : ℕ → List ℕ → List ℕ → Type 0
Digits n t r = (starts_digit t ≡ true) × (no_leading_zero t ≡ true) × (number 0 t ≡ (n, r))

mutual
  pub data Value : Json → List ℕ → List ℕ → Type 0 where
    value_pos : {n : ℕ} {t r : List ℕ} → Digits n t r → Value (num (pos n)) t r
    value_negsuc : {n : ℕ} {t r : List ℕ} → Digits (suc n) t r → Value (num (negsuc n)) (45 ∷ t) r
    value_str : {s r : List ℕ} → plain s ≡ true → Value (str s) (34 ∷ (s ++ (34 ∷ r))) r
    value_arr : {js : Elements} {t r : List ℕ} → Listed js (skip t) r → Value (arr js) (91 ∷ t) r
    value_obj : {ms : Members} {t r : List ℕ} → Named ms (skip t) r → Value (obj ms) (123 ∷ t) r

  -- The rest of an array.
  pub data Listed : Elements → List ℕ → List ℕ → Type 0 where
    listed_none : {r : List ℕ} → Listed no_elements (93 ∷ r) r
    listed_last :
        {j : Json} {t u r : List ℕ}
        → Value j t u
        → skip u ≡ 93 ∷ r
        → Listed (element j no_elements) t r
    listed_more :
        {j k : Json} {ks : Elements} {t u v r : List ℕ}
        → Value j t u
        → skip u ≡ 44 ∷ v
        → Listed (element k ks) (skip v) r
        → Listed (element j (element k ks)) t r

  -- The rest of an object.
  pub data Named : Members → List ℕ → List ℕ → Type 0 where
    named_none : {r : List ℕ} → Named no_members (125 ∷ r) r
    named_last :
        {name : List ℕ} {j : Json} (t : List ℕ) {u v r : List ℕ}
        → plain name ≡ true
        → skip t ≡ 58 ∷ u
        → Value j (skip u) v
        → skip v ≡ 125 ∷ r
        → Named (member name j no_members) (34 ∷ (name ++ (34 ∷ t))) r
    named_more :
        {name next : List ℕ} {j k : Json} {ms : Members} (t : List ℕ) {u v x r : List ℕ}
        → plain name ≡ true
        → skip t ≡ 58 ∷ u
        → Value j (skip u) v
        → skip v ≡ 44 ∷ x
        → Named (member next k ms) (skip x) r
        → Named (member name j (member next k ms)) (34 ∷ (name ++ (34 ∷ t))) r

-- The whole text is one value.
abbrev pub JsonText : Json → List ℕ → Type 0
JsonText j t = (r : List ℕ) × Value j (skip t) r × (skip r ≡ [])

-- What is told of a process: its number, its name of at most 16 bytes up to the null byte, its
-- memory in bytes, the ticks it ran, and these per cent of the seconds since the start of the
-- system. The sums and products are those of 64 bits.
abbrev pub described : ℕ → Task → ℕ → Json
described seconds task pages =
    let ticks = (task.utime + task.stime) % 2 ^ 64 in
    obj (
      member (codes "pid") (num task.pid) (
        member (codes "name") (str (c_string (take 16 task.comm))) (
          member (codes "rss") (num (pos (pages * 4096 % 2 ^ 64))) (
            member (codes "cpu_time") (num (pos ticks)) (
              member (codes "cpu_percentage") (num (pos (ticks * 100 % 2 ^ 64 / seconds)))
                no_members)))))

-- The first so many of the processes that have memory of their own.
abbrev pub first_described : ℕ → ℕ → List Task → Elements
first_described k seconds [] = no_elements
first_described zero seconds (task ∷ tasks) = no_elements
first_described (suc k) seconds (task ∷ tasks) = elim task.mm [
  | none ↦ first_described (suc k) seconds tasks
  | some pages ↦ element (described seconds task pages) (first_described k seconds tasks)
]

abbrev pub report : ℕ → List Task → Json
report seconds tasks = obj (
    member (codes "Procesos_que_mas_memoria_usan") (arr (first_described 5 seconds tasks))
      no_members)

abbrev pub is_int : ℤ → Bool
is_int (pos n) = leb (suc n) (2 ^ 31)
is_int (negsuc n) = leb (suc n) (2 ^ 31)

-- Numbers of processes are ints, and no name needs an escape.
abbrev pub proper : List Task → Bool
proper [] = true
proper (task ∷ tasks) = is_int task.pid && plain (c_string (take 16 task.comm)) && proper tasks
