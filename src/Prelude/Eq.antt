-- ===== src/Prelude/Eq.antt =====
-- Types with a Boolean equality, and membership in lists of them.
use Prim.Native.Nat.{ℕ}
use mathlib.Core.Path.{◌≡◌, refl}
use mathlib.Core.Logic.{◌↔◌, ◌≢◌}
use mathlib.Core.Bool.{Bool, true, false, ◌||◌}
use mathlib.Core.List.{List, [], ◌∷◌, ◌++◌}
use native.Mathlib.Omega.{arith}
use microservice_log_parser.Prelude.Tests.{nat_beq}
use microservice_log_parser.Prelude.Lists.{All}

pub record Eq {ℓ} (A : Type ℓ) : Type ℓ where
  pub test : A → A → Bool
  pub means : (x y : A) → (test x y ≡ true) ↔ (x ≡ y)

infix 50 ◌==◌
abbrev pub ◌==◌ {ℓ} : {A : Type ℓ} ⦃e : Eq A⦄ → A → A → Bool
◌==◌ ⦃e⦄ = e.test

pub nat_beq_iff : (a b : ℕ) → (nat_beq a b ≡ true) ↔ (a ≡ b)
nat_beq_iff a b = ground arith

instance abbrev pub nat_eq : Eq ℕ
nat_eq = record { test = nat_beq; means = nat_beq_iff }

module _ {ℓ} {A : Type ℓ} ⦃e : Eq A⦄ where
  pub ==_refl : (a : A) → (a == a) ≡ true
  ==_refl a = (e.means a a).1 refl

  pub ==_false : (a b : A) → a ≢ b → (a == b) ≡ false
  ==_false a b h = ground (arith, e.means a b)

  pub ==_sound : (a b : A) → (a == b) ≡ true → a ≡ b
  ==_sound a b = (e.means a b).0

  -- `m[k]` of a `map[K]bool`, with the keys set to true in a list.
  unfoldable pub contains : List A → A → Bool
  contains [] a = false
  contains (x ∷ xs) a = (x == a) || contains xs a

  -- No element stands in the list twice.
  abbrev pub Distinct : List A → Type 0
  Distinct [] = Unit
  Distinct (x ∷ xs) = (contains xs x ≡ false) × Distinct xs

  abbrev pub Fresh : List A → List A → Type 0
  Fresh used xs = All (λ x. contains used x ≡ false) xs

  abbrev pub Marked : List A → List A → Type 0
  Marked used xs = All (λ x. contains used x ≡ true) xs

module _ {ℓ} {A : Type ℓ} ⦃e : Eq A⦄ where
  pub contains-append :
      (xs ys : List A) (a : A) → contains (xs ++ ys) a ≡ (contains xs a || contains ys a)
  unfolding contains
  contains-append [] ys a = refl
  contains-append (x ∷ xs) ys a = ground (arith, contains-append xs ys a)

  -- What is fresh beside one more key does not hold that key.
  pub Fresh-cons :
      (u : A) (used xs : List A) → Fresh (u ∷ used) xs → (contains xs u ≡ false) × Fresh used xs
  unfolding contains
  Fresh-cons u used [] h = (refl, tt)
  Fresh-cons u used (x ∷ xs) h =
      let (c, f) = Fresh-cons u used xs h.1 in ground (arith, c, f, h.0, e.means x u, e.means u x)

  Fresh-not :
      (used xs : List A) (a : A) → Fresh used xs → contains used a ≡ true → contains xs a ≡ false
  unfolding contains
  Fresh-not used [] a h m = refl
  Fresh-not used (x ∷ xs) a h m = ground (arith, Fresh-not used xs a h.1 m, e.means x a)

  pub Distinct-append :
      (used xs ys : List A)
      → Distinct xs
      → Distinct ys
      → Marked used xs
      → Fresh used ys
      → Distinct (xs ++ ys)
  Distinct-append used [] ys dx dy m f = dy
  Distinct-append used (x ∷ xs) ys dx dy m f = (
    rw (contains-append xs ys x, dx.0) (Fresh-not used ys x f m.0),
    Distinct-append used xs ys dx.1 dy m.1 f,
  )

  pub Distinct-append_one :
      (ks : List A) (k : A) → Distinct ks → contains ks k ≡ false → Distinct (ks ++ k ∷ [])
  unfolding contains
  Distinct-append_one [] k d h = (refl, tt)
  Distinct-append_one (j ∷ ks) k d h = (
    ground (arith, contains-append ks (k ∷ []) j, d.0, e.means j k, e.means k j),
    Distinct-append_one ks k d.1 (ground arith),
  )
