-- ===== src/Kernel/Keeps.antt =====
-- Calls that keep a predicate on the world and give back what they took, without a fault.
use sistemas_operativos.Prelude.{
  ◌≡◌, refl, sym, Bool, true, false, if◌then◌else◌, Option, none, some, List,
}
use mathlib.Core.Path.{subst}
use sistemas_operativos.Kernel.Machine.{Machine, Resource, M, ◌>>=◌, pure, call, look}

module _ {W : Type 0} (P : W → Type 0) where
  unfoldable pub Kept : {A : Type 0} → List Resource → Option (A × Machine W) → Type 0
  Kept held none = ⊥
  Kept held (some (a, s)) = (s.held ≡ held) × P s.world

  unfoldable pub Keeps : {A : Type 0} → M W A → Type 0
  unfolding Kept
  Keeps m = (s : Machine W) → P s.world → Kept s.held (m s)

module _ {W : Type 0} (P : W → Type 0) {A : Type 0} where
  pub bind-Kept :
      {B : Type 0} (held end : List Resource) (o : Option (A × Machine W)) (k : A → M W B)
      → Kept P held o
      → ((a : A) (s : Machine W) → s.held ≡ held → P s.world → Kept P end (k a s))
      → Kept P end (elim o [ none ↦ none | some (a, s) ↦ k a s ])
  unfolding Kept
  bind-Kept held end none k kept next = elim kept [ ]
  bind-Kept held end (some (a, s)) k kept next = next a s kept.0 kept.1

  pub bind-Keeps :
      {B : Type 0} (m : M W A) (k : A → M W B)
      → Keeps P m
      → ((a : A) → Keeps P (k a))
      → Keeps P (m >>= k)
  unfolding Keeps
  bind-Keeps m k kept next s o =
      bind-Kept s.held s.held (m s) k (kept s o)
        (λ a s' e o'. subst (λ h. Kept P h (k a s')) e (next a s' o'))

  pub pure-Keeps : (a : A) → Keeps P (pure a)
  unfolding Keeps Kept
  pure-Keeps a s o = (refl, o)

  pub look-Keeps : (f : W → A) → Keeps P (look f)
  unfolding Keeps Kept
  look-Keeps f s o = (refl, o)

  pub call-Keeps : (f : W → A × W) → ((w : W) → P w → P (f w).1) → Keeps P (call f)
  unfolding Keeps Kept
  call-Keeps f kept s o = (refl, kept s.world o)

  pub if-Keeps : (b : Bool) (m n : M W A) → Keeps P m → Keeps P n → Keeps P (if b then m else n)
  if-Keeps true m n km kn = km
  if-Keeps false m n km kn = kn

  -- A computation that releases: it is enough to see it with the resources written out.
  pub held-Kept :
      (m : M W A) (s : Machine W) (held end : List Resource)
      → s.held ≡ held
      → Kept P end (m (record { world = s.world; held = held }))
      → Kept P end (m s)
  held-Kept m s held end e kept =
      subst (λ h. Kept P end (m (record { world = s.world; held = h }))) (sym e) kept
