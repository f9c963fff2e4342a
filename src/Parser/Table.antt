-- ===== src/Parser/Table.antt =====
-- A slice with a map from keys to positions, as `finalizeParsedLog` of
-- log-services/parser/parser/section.go keeps three times: `nodeIndex` with `nodes`, `infoIndex`
-- with `infos`, `portIndex` with `ports`.
pub mod Refines
pub mod Keys
use microservice_log_parser.Prelude.{
  ℕ, zero, suc, List, [], ◌∷◌, ◌++◌, Option, none, some, length, if◌then◌else◌, map,
}
use microservice_log_parser.Prelude.Eq.{◌==◌}
use microservice_log_parser.Prelude.Text.{Text, text_eq}
use microservice_log_parser.Prelude.Assoc.{Assoc, lookup, insert}

pub record Table (A : Type 0) : Type 0 where
  pub index : Assoc Text ℕ
  pub items : List A

module _ {A : Type 0} where
  abbrev pub empty_table : Table A
  empty_table = record { index = []; items = [] }

  -- `items[i] = f(items[i])`. Past the end the source would panic; the index holds no such position.
  unfoldable pub modify_at : ℕ → (A → A) → List A → List A
  modify_at i f [] = []
  modify_at zero f (x ∷ xs) = f x ∷ xs
  modify_at (suc i) f (x ∷ xs) = x ∷ modify_at i f xs

  append_new : Text → A → Table A → Table A
  unfolding insert
  append_new key a t = record {
    index = insert key (length t.items) t.index;
    items = t.items ++ a ∷ [];
  }

  -- Merge into the item of the key, or append a first one.
  unfoldable pub upsert : (A → A → A) → Text → A → Table A → Table A
  unfolding append_new modify_at lookup
  upsert merge key a t = elim (lookup key t.index) [
    | some i ↦ record t { items = modify_at i (λ b. merge b a) t.items }
    | none ↦ append_new key a t
  ]

  -- Append an item, unless the key has one.
  unfoldable pub ensure : Text → A → Table A → Table A
  unfolding append_new lookup
  ensure key a t = elim (lookup key t.index) [ some i ↦ t | none ↦ append_new key a t ]
