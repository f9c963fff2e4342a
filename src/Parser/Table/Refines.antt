-- ===== src/Parser/Table/Refines.antt =====
-- The indexed slice behaves as a plain list of items that is searched by key.
use microservice_log_parser.Prelude.{
  ℕ, suc, ◌+◌, List, [], ◌∷◌, ◌++◌, map, ◌≡◌, refl, sym, ap, ◌∙◌, inl, inr, true, false, none, some,
  length, arith, if◌then◌else◌, Bool-cases, Option-cases,
}
use microservice_log_parser.Prelude.Eq.{◌==◌, contains}
use microservice_log_parser.Prelude.Text.{Text, text_eq}
use microservice_log_parser.Prelude.Assoc.{Assoc, lookup, insert}
use microservice_log_parser.Parser.Table.{Table, modify_at, append_new, upsert, ensure}

module _ {A : Type 0} (key_of : A → Text) where
  -- The reference: merge into the first item of the key, or append.
  unfoldable pub merge_in : (A → A → A) → A → List A → List A
  merge_in merge a [] = a ∷ []
  merge_in merge a (b ∷ bs) =
      if key_of b == key_of a then merge b a ∷ bs else b ∷ merge_in merge a bs

  -- The reference: append, unless the key stands in the list.
  unfoldable pub add_in : A → List A → List A
  add_in a bs = if contains (map key_of bs) (key_of a) then bs else bs ++ a ∷ []

  -- The keys of a list, each with its position from `n` on.
  unfoldable pub numbered : ℕ → List A → Assoc Text ℕ
  numbered n [] = []
  numbered n (a ∷ bs) = (key_of a, n) ∷ numbered (suc n) bs

  -- The map holds each key with its position, in order.
  abbrev pub IsIndexed : Table A → Type 0
  IsIndexed t = t.index ≡ numbered 0 t.items

  past : (n : ℕ) (bs : List A) → n + suc (length bs) ≡ suc n + length bs
  past n bs = omega arith

  insert-numbered :
      (n : ℕ) (a : A) (bs : List A)
      → lookup (key_of a) (numbered n bs) ≡ none
      → insert (key_of a) (n + length bs) (numbered n bs) ≡ numbered n (bs ++ a ∷ [])
  unfolding lookup insert numbered
  insert-numbered n a [] h = ground arith
  insert-numbered n a (b ∷ bs) h = elim (Bool-cases (key_of b == key_of a)) [
    | inl same ↦ absurd (ground (arith, same))
    | inr other ↦ rw other (
        ap (◌∷◌ (key_of b, n)) (
          ap (λ k. insert (key_of a) k (numbered (suc n) bs)) (past n bs)
          ∙ insert-numbered (suc n) a bs (ground (arith, other))))
  ]

  lookup-numbered-none :
      (n : ℕ) (k : Text) (bs : List A)
      → lookup k (numbered n bs) ≡ none
      → contains (map key_of bs) k ≡ false
  unfolding lookup numbered contains
  lookup-numbered-none n k [] h = refl
  lookup-numbered-none n k (b ∷ bs) h = ground (arith, lookup-numbered-none (suc n) k bs)

  merge_in-absent :
      (merge : A → A → A) (a : A) (bs : List A)
      → contains (map key_of bs) (key_of a) ≡ false
      → merge_in merge a bs ≡ bs ++ a ∷ []
  unfolding merge_in contains
  merge_in-absent merge a [] h = refl
  merge_in-absent merge a (b ∷ bs) h = ground (arith, merge_in-absent merge a bs)

  -- A position that is found is past `n` by the position in the list, where the merge happens.
  modify_at-found :
      (merge : A → A → A) (n i : ℕ) (a : A) (bs : List A)
      → lookup (key_of a) (numbered n bs) ≡ some i
      → (j : ℕ) × (i ≡ n + j)
        × (modify_at j (λ b. merge b a) bs ≡ merge_in merge a bs)
        × (contains (map key_of bs) (key_of a) ≡ true)
  unfolding lookup numbered modify_at merge_in contains
  modify_at-found merge n i a [] h = absurd (ground arith)
  modify_at-found merge n i a (b ∷ bs) h = elim (Bool-cases (key_of b == key_of a)) [
    | inl same ↦ (0, ground (arith, same), rw same refl, rw same refl)
    | inr other ↦
        let (j, at, eq, known) = modify_at-found merge (suc n) i a bs (ground (arith, other)) in
        (suc j, omega arith, rw other (ap (◌∷◌ b) eq), rw other known)
  ]

  -- Merging keeps every position.
  numbered-merge_in :
      (merge : A → A → A)
      → ((b a : A) → key_of (merge b a) ≡ key_of b)
      → (n : ℕ) (a : A) (bs : List A) → contains (map key_of bs) (key_of a) ≡ true
      → numbered n (merge_in merge a bs) ≡ numbered n bs
  unfolding merge_in contains numbered
  numbered-merge_in merge keeps n a [] h = cc
  numbered-merge_in merge keeps n a (b ∷ bs) h = elim (Bool-cases (key_of b == key_of a)) [
    | inl same ↦ rw same (ap (λ k. (k, n) ∷ numbered (suc n) bs) (keeps b a))
    | inr other ↦ rw other (
        ap (◌∷◌ (key_of b, n)) (numbered-merge_in merge keeps (suc n) a bs (ground (arith, other))))
  ]

  append_new-IsIndexed :
      (a : A) (t : Table A)
      → IsIndexed t
      → lookup (key_of a) t.index ≡ none
      → IsIndexed (append_new (key_of a) a t)
  unfolding append_new
  append_new-IsIndexed a t v h = rw v (
      ap (λ n. insert (key_of a) n (numbered 0 t.items)) (sym (omega arith))
      ∙ insert-numbered 0 a t.items (rw v at h))

  -- Where the map holds each key of the items with its position, and merging two items never changes
  -- the key of the first: `upsert` keeps the map exact, and does to the items what `merge_in` does.
  pub upsert-merge_in :
      (merge : A → A → A)
      → ((b a : A) → key_of (merge b a) ≡ key_of b)
      → (a : A) (t : Table A) → IsIndexed t
      → IsIndexed (upsert merge (key_of a) a t)
        × ((upsert merge (key_of a) a t).items ≡ merge_in merge a t.items)
  unfolding upsert
  upsert-merge_in merge keeps a t v = elim (Option-cases (lookup (key_of a) t.index)) [
    | inl absent ↦
        rw (absent, upsert)
          (
            append_new-IsIndexed a t v absent,
            unfold append_new in
                sym (
                  merge_in-absent merge a t.items
                    (lookup-numbered-none 0 (key_of a) t.items (rw v at absent))),
          )
    | inr (i, found) ↦
        let (j, at, same, known) = modify_at-found merge 0 i a t.items (rw v at found) in
        let modified : modify_at i (λ b. merge b a) t.items ≡ merge_in merge a t.items =
          ap (λ k. modify_at k (λ b. merge b a) t.items) (omega (arith, at)) ∙ same in
        rw (found, upsert)
          (
            v ∙ sym (ap (numbered 0) modified ∙ numbered-merge_in merge keeps 0 a t.items known),
            modified,
          )
  ]

  -- `ensure` keeps the index, and does to the items what `add_in` does.
  pub ensure-add_in :
      (a : A) (t : Table A)
      → IsIndexed t
      → IsIndexed (ensure (key_of a) a t) × ((ensure (key_of a) a t).items ≡ add_in a t.items)
  unfolding ensure add_in
  ensure-add_in a t v = elim (Option-cases (lookup (key_of a) t.index)) [
    | inl absent ↦
        rw (absent, ensure, lookup-numbered-none 0 (key_of a) t.items (rw v at absent))
          (append_new-IsIndexed a t v absent, unfold append_new in refl)
    | inr (i, found) ↦
        let (j, at, same, known) = modify_at-found (λ b c. b) 0 i a t.items (rw v at found) in
        rw (found, ensure, known) (v, refl)
  ]
