-- ===== src/Prelude/Assoc.antt =====
-- Go's `map[K]V` as an association list. A key stands in it at most once; the order of the entries
-- is the order of first insertion, and is read by nothing that the source leaves unordered.
use mathlib.Core.Path.{◌≡◌, refl, sym, subst, subst₂}
use mathlib.Core.Logic.{inl, inr}
use mathlib.Core.List.{List, [], ◌∷◌, map}
use mathlib.Core.Option.{Option, none, some}
use native.Mathlib.Omega.{arith}
use microservice_log_parser.Prelude.Tests.{if◌then◌else◌, Bool-cases, Option-cases}
use microservice_log_parser.Prelude.Lists.{All}
use microservice_log_parser.Prelude.Eq.{Eq, ◌==◌}

abbrev pub Assoc {ℓ} : Type ℓ → Type ℓ → Type ℓ
Assoc K V = List (K × V)

module _ {ℓ} {K V : Type ℓ} where
  abbrev pub keys : Assoc K V → List K
  keys = map λ e. e.0

module _ {ℓ} {K V : Type ℓ} ⦃e : Eq K⦄ where
  unfoldable pub lookup : K → Assoc K V → Option V
  lookup k [] = none
  lookup k ((j, v) ∷ m) = if j == k then some v else lookup k m

  unfoldable pub insert : K → V → Assoc K V → Assoc K V
  insert k v [] = (k, v) ∷ []
  insert k v ((j, w) ∷ m) = if j == k then (j, v) ∷ m else (j, w) ∷ insert k v m

  -- `m[k]`, with the zero value for a missing key
  unfoldable pub lookup_or : V → K → Assoc K V → V
  unfolding lookup
  lookup_or d k m = elim (lookup k m) [ none ↦ d | some v ↦ v ]

  pub lookup-insert :
      (key other : K) (new : V) (m : Assoc K V)
      → lookup other (insert key new m) ≡ (if key == other then some new else lookup other m)
  unfolding lookup insert
  lookup-insert key other new [] = refl
  lookup-insert key other new ((first, old) ∷ m) =
      let rest = lookup-insert key other new m in
      ground (arith, rest, e.means key other, e.means first key, e.means first other)

  pub All-insert {κ} :
      (P : K × V → Type κ) (k : K) (v : V) (m : Assoc K V)
      → All P m
      → P (k, v)
      → All P (insert k v m)
  unfolding insert
  All-insert P k v [] h new = (new, tt)
  All-insert P k v ((j, w) ∷ m) h new = elim (Bool-cases (j == k)) [
    | inl same ↦ rw same (subst (λ i. P (i, v)) (sym ((e.means j k).0 same)) new, h.1)
    | inr other ↦ rw other (h.0, All-insert P k v m h.1 new)
  ]

  pub All-lookup {κ} :
      (P : K × V → Type κ) (k : K) (v : V) (m : Assoc K V)
      → All P m
      → lookup k m ≡ some v
      → P (k, v)
  unfolding lookup
  All-lookup P k v [] h found = cc
  All-lookup P k v ((j, w) ∷ m) h found = elim (Bool-cases (j == k)) [
    | inl same ↦ subst₂ (λ i u. P (i, u)) ((e.means j k).0 same) (ground (arith, same)) h.0
    | inr other ↦ All-lookup P k v m h.1 (rw other at found)
  ]

  pub All-lookup_or {κ} :
      (P : K × V → Type κ) (d : V) (k : K) (m : Assoc K V)
      → All P m
      → P (k, d)
      → P (k, lookup_or d k m)
  unfolding lookup_or
  All-lookup_or P d k m h missing = elim (Option-cases (lookup k m)) [
    | inl absent ↦ rw (absent, lookup_or) missing
    | inr (v, found) ↦ rw (found, lookup_or) (All-lookup P k v m h found)
  ]

  pub lookup_or-some : (d v : V) (k : K) (m : Assoc K V) → lookup k m ≡ some v → lookup_or d k m ≡ v
  unfolding lookup_or
  lookup_or-some d v k m found = rw (found, lookup_or)
