-- ===== src/Parser/Table/Keys.antt =====
-- The keys of an indexed slice: each once, and none is lost.
use mathlib.Core.List.{map-append}
use microservice_log_parser.Prelude.{
  ℕ, zero, suc, List, [], ◌∷◌, ◌++◌, map, ◌≡◌, refl, ap, ◌∙◌, inl, inr, ◌||◌, arith, if◌then◌else◌,
  Bool-cases, Option-cases, All, All-append,
}
use microservice_log_parser.Prelude.Eq.{
  ◌==◌, contains, Distinct, contains-append, Distinct-append_one,
}
use microservice_log_parser.Prelude.Text.{Text, text_eq}
use microservice_log_parser.Prelude.Assoc.{lookup}
use microservice_log_parser.Parser.Table.{Table, modify_at, append_new, upsert, ensure}
use microservice_log_parser.Parser.Table.Refines.{
  merge_in, add_in, IsIndexed, upsert-merge_in, ensure-add_in,
}

unfoldable pub add_key : Text → List Text → List Text
add_key k ks = if contains ks k then ks else ks ++ k ∷ []

pub contains-add_key :
    (k j : Text) (ks : List Text) → contains (add_key k ks) j ≡ (contains ks j || (k == j))
unfolding add_key contains
contains-add_key k j ks = ground (arith, contains-append ks (k ∷ []) j, text_eq.means k j)

pub Distinct-add_key : (k : Text) (ks : List Text) → Distinct ks → Distinct (add_key k ks)
unfolding add_key
Distinct-add_key k ks d = elim (Bool-cases (contains ks k)) [
  | inl known ↦ rw known d
  | inr new ↦ rw new (Distinct-append_one ks k d new)
]

pub All-add_key :
    (P : Text → Type 0) (k : Text) (ks : List Text) → All P ks → P k → All P (add_key k ks)
unfolding add_key
All-add_key P k ks h new = elim (Bool-cases (contains ks k)) [
  | inl known ↦ rw known h
  | inr absent ↦ rw absent (All-append P ks (k ∷ []) h (new, tt))
]

module _ {A : Type 0} (key_of : A → Text) where
  keys-merge_in :
      (merge : A → A → A)
      → ((b a : A) → key_of (merge b a) ≡ key_of b)
      → (a : A) (bs : List A)
      → map key_of (merge_in key_of merge a bs) ≡ add_key (key_of a) (map key_of bs)
  unfolding merge_in add_key contains
  keys-merge_in merge keeps a [] = refl
  keys-merge_in merge keeps a (b ∷ bs) = elim (Bool-cases (key_of b == key_of a)) [
    | inl same ↦ rw same (ap (λ k. k ∷ map key_of bs) (keeps b a))
    | inr other ↦ rw other (ap (◌∷◌ (key_of b)) (keys-merge_in merge keeps a bs) ∙ ground arith)
  ]

  keys-add_in :
      (a : A) (bs : List A) → map key_of (add_in key_of a bs) ≡ add_key (key_of a) (map key_of bs)
  unfolding add_in add_key
  keys-add_in a bs = elim (Bool-cases (contains (map key_of bs) (key_of a))) [
    | inl known ↦ rw known refl
    | inr new ↦ rw new (map-append key_of bs (a ∷ []))
  ]

  -- What `upsert` and `ensure` do to the keys.
  pub upsert-keys :
      (merge : A → A → A)
      → ((b a : A) → key_of (merge b a) ≡ key_of b)
      → (a : A) (t : Table A) → IsIndexed key_of t
      → map key_of (upsert merge (key_of a) a t).items ≡ add_key (key_of a) (map key_of t.items)
  upsert-keys merge keeps a t v =
      ap (map key_of) (upsert-merge_in key_of merge keeps a t v).1
      ∙ keys-merge_in merge keeps a t.items

  pub ensure-keys :
      (a : A) (t : Table A)
      → IsIndexed key_of t
      → map key_of (ensure (key_of a) a t).items ≡ add_key (key_of a) (map key_of t.items)
  ensure-keys a t v = ap (map key_of) (ensure-add_in key_of a t v).1 ∙ keys-add_in a t.items

module _ {A : Type 0} (P : A → Type 0) where
  modify_at-All :
      (i : ℕ) (f : A → A) (bs : List A)
      → ((b : A) → P b → P (f b))
      → All P bs
      → All P (modify_at i f bs)
  unfolding modify_at
  modify_at-All i f [] keeps h = tt
  modify_at-All zero f (b ∷ bs) keeps h = (keeps b h.0, h.1)
  modify_at-All (suc i) f (b ∷ bs) keeps h = (h.0, modify_at-All i f bs keeps h.1)

  -- What merging keeps holds of every item.
  pub upsert-All :
      (merge : A → A → A) (key : Text) (a : A) (t : Table A)
      → ((b : A) → P b → P (merge b a))
      → P a
      → All P t.items
      → All P (upsert merge key a t).items
  unfolding upsert append_new
  upsert-All merge key a t keeps new h = elim (Option-cases (lookup key t.index)) [
    | inl absent ↦ rw (absent, upsert) (All-append P t.items (a ∷ []) h (new, tt))
    | inr (i, found) ↦ rw (found, upsert) (modify_at-All i (λ b. merge b a) t.items keeps h)
  ]
