-- ===== src/Prelude/Sort.antt =====
-- Sorting by a `less` test: sort.Slice and sort.Strings, as an insertion sort. The library's sort
-- may order ties otherwise; `less` has no ties on what the program sorts, rows with distinct ids
-- and the distinct keys of a map.
use mathlib.Core.Bool.{Bool}
use mathlib.Core.List.{List, [], ◌∷◌}
use microservice_log_parser.Prelude.Tests.{if◌then◌else◌, Bool-cases}
use microservice_log_parser.Prelude.Lists.{All}
use mathlib.Core.Logic.{inl, inr}

module _ {ℓ} {A : Type ℓ} (less : A → A → Bool) where
  unfoldable pub insert_sorted : A → List A → List A
  insert_sorted a [] = a ∷ []
  insert_sorted a (x ∷ xs) = if less x a then x ∷ insert_sorted a xs else a ∷ x ∷ xs

  unfoldable pub sort_by : List A → List A
  unfolding insert_sorted
  sort_by [] = []
  sort_by (x ∷ xs) = insert_sorted x (sort_by xs)

  pub All-insert_sorted {κ} :
      (P : A → Type κ) (a : A) (xs : List A) → P a → All P xs → All P (insert_sorted a xs)
  unfolding insert_sorted
  All-insert_sorted P a [] h t = (h, t)
  All-insert_sorted P a (x ∷ xs) h t = elim (Bool-cases (less x a)) [
    | inl lt ↦ rw lt (t.0, All-insert_sorted P a xs h t.1)
    | inr ge ↦ rw ge (h, t)
  ]

  pub All-sort_by {κ} : (P : A → Type κ) (xs : List A) → All P xs → All P (sort_by xs)
  unfolding sort_by
  All-sort_by P [] h = tt
  All-sort_by P (x ∷ xs) h = All-insert_sorted P x (sort_by xs) h.0 (All-sort_by P xs h.1)
