-- ===== src/Creds/User/Among.antt =====
-- Without privilege the rules choose only among the identities that a process has.
use sistemas_operativos.Prelude.{
  ℕ, ◌≡◌, refl, sym, inl, inr, Option, none, some, List, [], ◌∷◌, Bool, true, false, ◌==◌, ◌&&◌,
  arith, Bool-cases, if◌then◌else◌, ==_iff,
}
use mathlib.Core.Path.{subst}
use mathlib.Core.Option.{some-injective, none-ne-some}
use sistemas_operativos.Creds.{Ids}
use sistemas_operativos.Creds.Rules.{
  one_of, may, choose, keeps, follows, setuid_rule, setreuid_rule, setresuid_rule,
}

-- The four user identities are all in a set.
abbrev pub Among : (ℕ → Bool) → Ids → Type 0
Among p i = (p i.uid ≡ true) × (p i.euid ≡ true) × (p i.suid ≡ true) × (p i.fsuid ≡ true)

granted : (b : Bool) (x j : Ids) → (if b then some x else none) ≡ some j → (b ≡ true) × (x ≡ j)
granted true x j e = (refl, some-injective x j e)
granted false x j e = absurd (none-ne-some j e)

both : (a b : Bool) → (a && b) ≡ true → (a ≡ true) × (b ≡ true)
both true b h = (refl, h)
both false b h = cc

module _ (p : ℕ → Bool) where
  if_All : (b : Bool) (x y : ℕ) → p x ≡ true → p y ≡ true → p (if b then x else y) ≡ true
  if_All true x y h k = h
  if_All false x y h k = k

  abbrev pub All : List ℕ → Type 0
  All [] = Unit {0}
  All (x ∷ xs) = (p x ≡ true) × All xs

  pub one_of-All : (k : ℕ) (own : List ℕ) → All own → one_of k own ≡ true → p k ≡ true
  one_of-All k [] all h = absurd (ground arith)
  one_of-All k (x ∷ xs) all h = elim (Bool-cases (k == x)) [
    | inl same ↦ subst (λ n. p n ≡ true) (sym ((==_iff k x).0 same)) all.0
    | inr other ↦ one_of-All k xs all.1 (ground arith)
  ]

  may-All :
      (a : Option ℕ) (own : List ℕ) (old : ℕ)
      → All own
      → p old ≡ true
      → may false a own ≡ true
      → p (choose a old) ≡ true
  may-All none own old all h m = h
  may-All (some k) own old all h m = one_of-All k own all m

  pub setuid_rule-Among :
      (k : ℕ) (i j : Ids) → Among p i → setuid_rule false k i ≡ some j → Among p j
  setuid_rule-Among k i j (a, b, c, d) e =
      let (allowed, same) = granted (one_of k (i.uid ∷ i.suid ∷ [])) _ j e in
      let chosen = one_of-All k (i.uid ∷ i.suid ∷ []) (a, (c, tt)) allowed in
      subst (Among p) same (a, chosen, c, chosen)

  pub setreuid_rule-Among :
      (r f : Option ℕ) (i j : Ids) → Among p i → setreuid_rule false r f i ≡ some j → Among p j
  setreuid_rule-Among r f i j (a, b, c, d) e =
      let (allowed, same) =
        granted (may false r (i.uid ∷ i.euid ∷ []) && may false f (i.uid ∷ i.euid ∷ i.suid ∷ [])) _
          j e in
      let (first, second) = both _ _ allowed in
      let real = may-All r (i.uid ∷ i.euid ∷ []) i.uid (a, (b, tt)) a first in
      let effective = may-All f (i.uid ∷ i.euid ∷ i.suid ∷ []) i.euid (a, (b, (c, tt))) b second in
      subst (Among p) same (real, effective, if_All (follows r f i.uid) _ _ effective c, effective)

  pub setresuid_rule-Among :
      (r f s : Option ℕ) (i j : Ids) → Among p i → setresuid_rule false r f s i ≡ some j → Among p j
  setresuid_rule-Among r f s i j (a, b, c, d) e = elim (Bool-cases same) [
    | inl noop ↦ subst (Among p) (some-injective i j (rw noop at e)) (a, b, c, d)
    | inr change ↦ changed (rw change at e)
  ]
    where
      own : List ℕ
      own = i.uid ∷ i.euid ∷ i.suid ∷ []

      same : Bool
      same = keeps r i.uid && ((keeps f i.euid && keeps f i.fsuid) && keeps s i.suid)

      new_ids : Ids
      new_ids = record i {
        uid = choose r i.uid;
        euid = choose f i.euid;
        suid = choose s i.suid;
        fsuid = choose f i.euid;
      }

      changed :
          (if may false r own && (may false f own && may false s own) then some new_ids else none)
            ≡ some j
          → Among p j
      changed e =
          let (allowed, same) = granted _ _ j e in
          let (first, rest) = both _ _ allowed in
          let (second, third) = both _ _ rest in
          subst (Among p) same (
            may-All r own i.uid (a, (b, (c, tt))) a first,
            may-All f own i.euid (a, (b, (c, tt))) b second,
            may-All s own i.suid (a, (b, (c, tt))) c third,
            may-All f own i.euid (a, (b, (c, tt))) b second,
          )
