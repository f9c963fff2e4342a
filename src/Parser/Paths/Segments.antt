-- ===== src/Parser/Paths/Segments.antt =====
-- The functions of path/filepath that log-services/parser/parser/engine.go calls, on paths put together.
use microservice_log_parser.Prelude.{
  List, [], ◌∷◌, ◌++◌, ◌≡◌, refl, sym, ap, ◌∙◌, inl, inr, Bool, true, ◌||◌, Bool-cases, some,
}
use microservice_log_parser.Prelude.Eq.{◌==◌, nat_eq, ==_sound, ==_refl}
use microservice_log_parser.Prelude.Text.{Text, codes, text_eq, has_prefix}
use microservice_log_parser.Parser.Paths.{
  parent, cons_head, split_path, back, clean_onto, join_segments, relative,
}

pub has_prefix-append : (s p : Text) → has_prefix s p ≡ true → (rest : Text) × (s ≡ p ++ rest)
unfolding has_prefix
has_prefix-append s [] h = (s, refl)
has_prefix-append [] (y ∷ p) h = absurd (cc h)
has_prefix-append (x ∷ s) (y ∷ p) h = elim (Bool-cases (x == y)) [
  | inl e ↦
      let (rest, same) = has_prefix-append s p (rw (e) at h) in
      (rest, λ i. ==_sound x y e i ∷ same i)
  | inr e ↦ absurd (cc (rw (e) at h))
]

split_path-cons : (a : Text) → (s : Text) × (ss : List Text) × (split_path a ≡ s ∷ ss)
unfolding split_path
split_path-cons [] = ([], [], refl)
split_path-cons (c ∷ a) =
    let (s, ss, rest) = split_path-cons a in
    elim (Bool-cases (c == b'/')) [
      | inl e ↦ ([], split_path a, rw (e) refl)
      | inr e ↦ (c ∷ s, ss, rw (e) (ap (cons_head c) rest))
    ]

pub split_path-append_slash :
    (a b : Text) → split_path (a ++ b'/' ∷ b) ≡ split_path a ++ split_path b
unfolding split_path
split_path-append_slash [] b = refl
split_path-append_slash (c ∷ a) b =
    let rest = split_path-append_slash a b in
    elim (Bool-cases (c == b'/')) [
      | inl e ↦ rw (e) (ap (◌∷◌ []) rest)
      | inr e ↦ rw (e) (
          let (s, ss, is) = split_path-cons a in
          ap (cons_head c) rest
          ∙ (ap (λ t. cons_head c (t ++ split_path b)) is
              ∙ ap (λ t. cons_head c t ++ split_path b) (sym is)))
    ]

pub clean_onto-append :
    (rooted : Bool) (out xs ys : List Text)
    → clean_onto rooted out (xs ++ ys) ≡ clean_onto rooted (clean_onto rooted out xs) ys
unfolding clean_onto
clean_onto-append rooted out [] ys = refl
clean_onto-append rooted out (x ∷ xs) ys =
    let skipped = clean_onto-append rooted out xs ys in
    let dropped = clean_onto-append rooted (back rooted out) xs ys in
    let kept = clean_onto-append rooted (out ++ x ∷ []) xs ys in
    elim (Bool-cases ((x == []) || (x == codes "."))) [
      | inl e ↦ rw (e) skipped
      | inr e ↦ elim (Bool-cases (x == parent)) [
        | inl p ↦ rw (e, p) dropped
        | inr p ↦ rw (e, p) kept
      ]
    ]

pub relative-append : (bs ts : List Text) → relative bs (bs ++ ts) ≡ some (join_segments ts)
unfolding relative
relative-append [] ts = refl
relative-append (b ∷ bs) ts = let rest = relative-append bs ts in rw (==_refl b) rest
