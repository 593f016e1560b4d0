-- ===== src/Procesos/Valid.antt =====
-- The document of procesos_info is a JSON text.
use sistemas_operativos.Prelude.{
  ℕ, zero, suc, ◌+◌, ◌*◌, ◌/◌, ◌%◌, ◌^◌, ◌<◌, ◌≤◌, ◌≡◌, refl, sym, ap, List, [], ◌∷◌, ◌++◌, Bool,
  true, false, ◌==◌, ltb, take, Bool-cases, Option-cases, inl, inr, arith,
}
use mathlib.Core.List.{append_assoc}
use mathlib.Core.Path.{subst}
use sistemas_operativos.Prelude.Int.{ℤ, pos, negsuc}
use sistemas_operativos.Text.{codes, decimal, decimal_fuel, starts_digit, is_digit}
use sistemas_operativos.Text.Decimal.{starts_digit-decimal_fuel}
use sistemas_operativos.Text.Scan.{number-decimal}
use sistemas_operativos.Procesos.{Task, ProcMemInfo, info_of, members, print_int, closing}
use sistemas_operativos.Procesos.Document.{objects, document, with_memory}
use sistemas_operativos.Procesos.Json.{
  Json, num, str, obj, Elements, no_elements, element, no_members, member, skip, plain,
  no_leading_zero, Digits, Value, value_pos, value_negsuc, value_str, value_arr, value_obj, Listed,
  listed_none, listed_last, listed_more, named_last, named_more, JsonText, first_described, report,
  proper, is_int, is_white,
}

-- The decimal figures of a number other than 0 do not begin with 0.
abbrev leads_zero : List ℕ → Bool
leads_zero [] = true
leads_zero (c ∷ s) = c == 48

decimal_fuel_nonzero :
    (f n : ℕ) (t : List ℕ) → 0 < n → n < 10 ^ f → leads_zero (decimal_fuel f n ++ t) ≡ false
unfolding decimal_fuel
decimal_fuel_nonzero zero n t some_ h = absurd (omega arith)
decimal_fuel_nonzero (suc f) n t some_ h = elim (Bool-cases (ltb n 10)) [
  | inl one ↦ rw one (ground arith)
  | inr more ↦
      rw (more, append_assoc (decimal_fuel f (n / 10)) ((48 + n % 10) ∷ []) t)
        (decimal_fuel_nonzero f (n / 10) ((48 + n % 10) ∷ t) (at_least (ground (arith, more)))
          (fewer h))
]
  where
    at_least : 10 ≤ n → 0 < n / 10
    at_least h = omega arith

    fewer : n < 10 ^ suc f → n / 10 < 10 ^ f
    fewer h = omega arith

no_leading_zero_nonzero : (t : List ℕ) → leads_zero t ≡ false → no_leading_zero t ≡ true
no_leading_zero_nonzero [] h = ground arith
no_leading_zero_nonzero (c ∷ s) h = ground arith

no_leading_zero-decimal :
    (n : ℕ) (t : List ℕ)
    → n < 2 ^ 64
    → starts_digit t ≡ false
    → no_leading_zero (decimal n ++ t) ≡ true
unfolding decimal_fuel
no_leading_zero-decimal zero t h stop = rw stop refl
no_leading_zero-decimal (suc n) t h stop =
    no_leading_zero_nonzero (decimal (suc n) ++ t)
      (decimal_fuel_nonzero 20 (suc n) t (omega arith) (omega arith))

decimal-Digits :
    (n : ℕ) (t : List ℕ) → n < 2 ^ 64 → starts_digit t ≡ false → Digits n (decimal n ++ t) t
decimal-Digits n t h stop = (
  starts_digit-decimal_fuel 20 n t (omega arith) (omega arith),
  no_leading_zero-decimal n t h stop,
  number-decimal n t h stop,
)

skip_digit : (t : List ℕ) → starts_digit t ≡ true → skip t ≡ t
skip_digit [] h = ground arith
skip_digit (c ∷ s) h = rw (not_white c h) refl
  where
    not_white : (c : ℕ) → is_digit c ≡ true → is_white c ≡ false
    not_white c h = ground arith

decimal-Value :
    (n : ℕ) (t : List ℕ)
    → n < 2 ^ 64
    → starts_digit t ≡ false
    → Value (num (pos n)) (skip (decimal n ++ t)) t
decimal-Value n t h stop =
    let digits = decimal-Digits n t h stop in
    subst (λ s. Value (num (pos n)) s t) (sym (skip_digit (decimal n ++ t) digits.0))
      (value_pos digits)

print_int-Value :
    (z : ℤ) (t : List ℕ)
    → is_int z ≡ true
    → starts_digit t ≡ false
    → Value (num z) (skip (print_int z ++ t)) t
print_int-Value (pos n) t h stop = decimal-Value n t (ground (arith, h)) stop
print_int-Value (negsuc n) t h stop = value_negsuc (
    subst (λ m. Digits m (decimal (n + 1) ++ t) t) (succ n)
      (decimal-Digits (n + 1) t (ground (arith, h)) stop))
  where
    succ : (n : ℕ) → n + 1 ≡ suc n
    succ n = omega arith

-- What an entry of the array stands for.
abbrev object_of : ProcMemInfo → Json
object_of p = obj (
    member (codes "pid") (num p.pid) (
      member (codes "name") (str p.comm) (
        member (codes "rss") (num (pos p.rss)) (
          member (codes "cpu_time") (num (pos p.cpu_time))
            (member (codes "cpu_percentage") (num (pos p.cpu_percentage)) no_members)))))

abbrev objects_of : List ProcMemInfo → Elements
objects_of [] = no_elements
objects_of (p ∷ ps) = element (object_of p) (objects_of ps)

record Sound (p : ProcMemInfo) : Type 0 where
  pid_int : is_int p.pid ≡ true
  name_plain : plain p.comm ≡ true
  rss_fits : p.rss < 2 ^ 64
  time_fits : p.cpu_time < 2 ^ 64
  percentage_fits : p.cpu_percentage < 2 ^ 64

abbrev AllSound : List ProcMemInfo → Type 0
AllSound [] = Unit
AllSound (p ∷ ps) = Sound p × AllSound ps

members-Value :
    (p : ProcMemInfo) (r : List ℕ) → Sound p → Value (object_of p) (skip (members p ++ r)) r
unfolding members
members-Value p r sound =
    subst (λ t. Value (object_of p) (skip t) r) (sym flat)
      (value_obj (
        named_more _ refl refl (print_int-Value p.pid _ sound.pid_int refl) refl (
          named_more _ refl refl (value_str sound.name_plain) refl (
            named_more _ refl refl (decimal-Value p.rss _ sound.rss_fits refl) refl (
              named_more _ refl refl (decimal-Value p.cpu_time _ sound.time_fits refl) refl (
                named_last _ refl refl (decimal-Value p.cpu_percentage _ sound.percentage_fits refl)
                  refl))))))
  where
    flat :
        (members p ++ r)
        ≡ codes "    { \"pid\": "
          ++ (print_int p.pid
              ++ (codes ", \"name\": \""
                  ++ (p.comm
                      ++ (codes "\", \"rss\": "
                          ++ (decimal p.rss
                              ++ (codes ", \"cpu_time\": "
                                  ++ (decimal p.cpu_time
                                      ++ (codes ", \"cpu_percentage\": "
                                          ++ (decimal p.cpu_percentage ++ (codes " }" ++ r))))))))))
    flat = simp append_assoc

-- The objects and the end of the array.
objects-Listed :
    (ps : List ProcMemInfo)
    → AllSound ps
    → Listed (objects_of ps) (skip (objects ps ++ closing)) (codes "\n}\n")
objects-Listed [] sound = listed_none
objects-Listed (p ∷ []) (sound, all) =
    subst (λ t. Listed (objects_of (p ∷ [])) (skip t) (codes "\n}\n"))
      (sym (append_assoc (members p) (codes "\n") closing))
      (listed_last (members-Value p (codes "\n" ++ closing) sound) refl)
objects-Listed (p ∷ q ∷ ps) (sound, all) =
    subst (λ t. Listed (objects_of (p ∷ q ∷ ps)) (skip t) (codes "\n}\n"))
      (sym (append_assoc (members p) (codes ",\n" ++ objects (q ∷ ps)) closing))
      (listed_more (members-Value p (codes ",\n" ++ (objects (q ∷ ps) ++ closing)) sound) refl
        (objects-Listed (q ∷ ps) all))

described_take :
    (k seconds : ℕ) (tasks : List Task)
    → objects_of (take k (with_memory seconds tasks)) ≡ first_described k seconds tasks
described_take zero seconds [] = refl
described_take zero seconds (task ∷ tasks) = refl
described_take (suc k) seconds [] = refl
described_take (suc k) seconds (task ∷ tasks) = elim (Option-cases task.mm) [
  | inl null ↦ rw null (described_take (suc k) seconds tasks)
  | inr (rss, e) ↦
      rw e (ap (element (object_of (info_of seconds task rss))) (described_take k seconds tasks))
]

info_of-Sound :
    (seconds : ℕ) (task : Task) (rss : ℕ)
    → is_int task.pid ≡ true
    → plain (info_of seconds task rss).comm ≡ true
    → Sound (info_of seconds task rss)
info_of-Sound seconds task rss int named = record {
  pid_int = int;
  name_plain = named;
  rss_fits = omega arith;
  time_fits = omega arith;
  percentage_fits = quotient ((task.utime + task.stime) % 2 ^ 64 * 100);
}
  where
    quotient : (a : ℕ) → a % 2 ^ 64 / seconds < 2 ^ 64
    quotient a = omega arith

take-AllSound :
    (k seconds : ℕ) (tasks : List Task)
    → proper tasks ≡ true
    → AllSound (take k (with_memory seconds tasks))
take-AllSound zero seconds tasks h = tt
take-AllSound (suc k) seconds [] h = tt
take-AllSound (suc k) seconds (task ∷ tasks) h = elim (Option-cases task.mm) [
  | inl null ↦ rw null (take-AllSound (suc k) seconds tasks (ground (arith, h)))
  | inr (rss, e) ↦ rw e (
    info_of-Sound seconds task rss (ground (arith, h)) (ground (arith, h)),
    take-AllSound k seconds tasks (ground (arith, h)),
  )
]

-- The document is a JSON text of the report, if no name needs an escape.
pub document-JsonText :
    (seconds : ℕ) (tasks : List Task)
    → proper tasks ≡ true
    → JsonText (report seconds tasks) (document (with_memory seconds tasks))
document-JsonText seconds tasks h = (
  codes "\n",
  value_obj (
      named_last _ refl refl
        (value_arr (
          subst (λ es. Listed es (skip (objects ps ++ closing)) (codes "\n}\n"))
            (described_take 5 seconds tasks) (objects-Listed ps (take-AllSound 5 seconds tasks h))))
        refl),
  refl,
)
  where
    ps : List ProcMemInfo
    ps = take 5 (with_memory seconds tasks)
