-- ===== src/Parser/Paths/Clean.antt =====
-- What `filepath.Clean` makes of a rooted path.
use microservice_log_parser.Prelude.{
  append_nil, append_one, ℕ, List, [], ◌∷◌, ◌++◌, ◌≡◌, refl, ap, ◌∙◌, inl, inr, Bool, true, false,
  All, Bool-cases,
}
use microservice_log_parser.Prelude.Eq.{◌==◌, nat_eq}
use microservice_log_parser.Prelude.Text.{Text, codes, text_eq, has_prefix}
use microservice_log_parser.Parser.Paths.{
  parent, is_abs, cons_head, split_path, back, clean_onto, parts_of, join_segments, text_of,
}

-- Not a slash.
abbrev pub NoSlash : Text → Type 0
NoSlash = All (λ c. (c == b'/') ≡ false)

-- A segment that names something: neither empty, "." nor "..", and without a slash.
pub record IsName (s : Text) : Type 0 where
  pub not_empty : (s == []) ≡ false
  pub not_dot : (s == codes ".") ≡ false
  pub not_parent : (s == parent) ≡ false
  pub no_slash : All (λ c. (c == b'/') ≡ false) s

All-cons_head :
    (c : ℕ) (ss : List Text) → (c == b'/') ≡ false → All NoSlash ss → All NoSlash (cons_head c ss)
All-cons_head c [] d h = ((d, tt), tt)
All-cons_head c (s ∷ ss) d (h, hs) = ((d, h), hs)

split_path-NoSlash : (t : Text) → All NoSlash (split_path t)
unfolding split_path
split_path-NoSlash [] = (tt, tt)
split_path-NoSlash (c ∷ t) =
    let rest = split_path-NoSlash t in
    elim (Bool-cases (c == b'/')) [
      | inl e ↦ rw (e) (tt, rest)
      | inr e ↦ let here = All-cons_head c (split_path t) e rest in rw (e) here
    ]

back-IsName : (out : List Text) → All IsName out → All IsName (back true out)
unfolding back
back-IsName [] h = tt
back-IsName (x ∷ []) (h, _) = let proper = h.not_parent in rw (proper) tt
back-IsName (x ∷ y ∷ xs) (h, hs) = (h, back-IsName (y ∷ xs) hs)

All-snoc :
    {A : Type 0} (P : A → Type 0) (xs : List A) (x : A) → All P xs → P x → All P (xs ++ x ∷ [])
All-snoc P [] x h p = (p, tt)
All-snoc P (y ∷ ys) x (q, h) p = (q, All-snoc P ys x h p)

clean_onto-IsName :
    (out ss : List Text) → All IsName out → All NoSlash ss → All IsName (clean_onto true out ss)
unfolding clean_onto
clean_onto-IsName out [] h n = h
clean_onto-IsName out (s ∷ ss) h (n, ns) =
    let skipped = clean_onto-IsName out ss h ns in
    let dropped = clean_onto-IsName (back true out) ss (back-IsName out h) ns in
    elim (Bool-cases (s == [])) [
      | inl e ↦ rw (e) skipped
      | inr e ↦ elim (Bool-cases (s == codes ".")) [
        | inl d ↦ rw (e, d) skipped
        | inr d ↦ elim (Bool-cases (s == parent)) [
          | inl p ↦ rw (e, d, p) dropped
          | inr p ↦
              let name : IsName s = record {
                not_empty = e;
                not_dot = d;
                not_parent = p;
                no_slash = n;
              } in
              let kept = clean_onto-IsName (out ++ s ∷ []) ss (All-snoc IsName out s h name) ns in
              rw (e, d, p) kept
        ]
      ]
    ]

-- The segments of a rooted path, cleaned, are names.
pub parts_of-IsName : (path : Text) → is_abs path ≡ true → All IsName (parts_of path).segments
unfolding parts_of
parts_of-IsName path h =
    let names = clean_onto-IsName [] (split_path path) tt (split_path-NoSlash path) in rw (h) names

-- Names are kept.
pub clean_onto_names :
    (rooted : Bool) (out ss : List Text) → All IsName ss → clean_onto rooted out ss ≡ out ++ ss
unfolding clean_onto
clean_onto_names rooted out [] h = append_nil out
clean_onto_names rooted out (s ∷ ss) (h, hs) =
    let rest = clean_onto_names rooted (out ++ s ∷ []) ss hs ∙ append_one out s ss in
    rw (h.not_empty, h.not_dot, h.not_parent) rest

-- A text without a slash in front of a slash is a segment, and so is a whole one.
pub split_path_before_slash :
    (s t : Text) → NoSlash s → split_path (s ++ b'/' ∷ t) ≡ s ∷ split_path t
unfolding split_path
split_path_before_slash [] t h = refl
split_path_before_slash (c ∷ s) t (d, h) =
    let rest = split_path_before_slash s t h in rw (d) (ap (cons_head c) rest)

split_path_whole : (s : Text) → NoSlash s → split_path s ≡ s ∷ []
unfolding split_path
split_path_whole [] h = refl
split_path_whole (c ∷ s) (d, h) = let rest = split_path_whole s h in rw (d) (ap (cons_head c) rest)

pub split_path-join_segments :
    (s : Text) (ss : List Text) → All IsName (s ∷ ss) → split_path (join_segments (s ∷ ss)) ≡ s ∷ ss
unfolding join_segments
split_path-join_segments s [] (h, _) = split_path_whole s h.no_slash
split_path-join_segments s (t ∷ ts) (h, hs) =
    split_path_before_slash s (join_segments (t ∷ ts)) h.no_slash
    ∙ ap (◌∷◌ s) (split_path-join_segments t ts hs)

pub segments_again :
    (segments : List Text)
    → All IsName segments
    → clean_onto true [] (split_path (b'/' ∷ join_segments segments)) ≡ segments
unfolding clean_onto split_path join_segments
segments_again [] h = refl
segments_again (s ∷ ss) h =
    ap (clean_onto true []) (split_path-join_segments s ss h) ∙ clean_onto_names true [] (s ∷ ss) h

-- The parts of a rooted path of names are those that it was put together from.
pub parts_of-text_of :
    (segments : List Text)
    → All IsName segments
    → parts_of (text_of (record { rooted = true; segments = segments }))
      ≡ record { rooted = true; segments = segments }
unfolding parts_of text_of is_abs has_prefix
parts_of-text_of segments h = λ i. record { rooted = true; segments = segments_again segments h i }
