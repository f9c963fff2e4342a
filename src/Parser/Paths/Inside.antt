-- ===== src/Parser/Paths/Inside.antt =====
-- `resolvePath` of log-services/parser/parser/engine.go never leaves the data directory.
use microservice_log_parser.Prelude.{
  append_nil, List, [], ◌∷◌, ◌++◌, ◌≡◌, refl, sym, ap, subst, ◌∙◌, inl, inr, true, false, All,
  Bool-cases, Option, none, some, Option-cases, map,
}
use microservice_log_parser.Prelude.Eq.{◌==◌, nat_eq, ==_sound}
use microservice_log_parser.Prelude.Text.{Text, text_beq, text_eq, has_prefix, trim_space}
use microservice_log_parser.Prelude.Result.{>>=-ok, ok, ok_injective}
use microservice_log_parser.Parser.Paths.{
  parent, is_abs, parts_of, join_segments, text_of, clean, join_paths, absolute, relative,
  relative_parts, relative_path, candidate_for, leads_out, checked_path, resolve_path,
}
use microservice_log_parser.Parser.Paths.Clean.{IsName, parts_of-IsName, parts_of-text_of}

-- The path of names from the root.
abbrev pub from_root : List Text → Text
from_root names = text_of (record { rooted = true; segments = names })

-- A rooted path of names.
pub record IsPlain (path : Text) : Type 0 where
  pub names : List Text
  pub names-IsName : All IsName names
  pub made_of : path ≡ from_root names

clean-IsPlain : (path : Text) → is_abs path ≡ true → IsPlain (clean path)
unfolding clean parts_of
clean-IsPlain path h = record {
  names = (parts_of path).segments;
  names-IsName = parts_of-IsName path h;
  made_of = ap (λ b. text_of (record { rooted = b; segments = (parts_of path).segments })) h;
}

is_abs-append : (dir path : Text) → is_abs dir ≡ true → is_abs (dir ++ path) ≡ true
unfolding is_abs has_prefix
is_abs-append [] path h = absurd (cc h)
is_abs-append (c ∷ dir) path h = h

-- Where the working directory is known, it is a rooted path.
abbrev pub IsRooted : Option Text → Type 0
IsRooted working_dir = (dir : Text) → working_dir ≡ some dir → is_abs dir ≡ true

absolute-IsPlain :
    (working_dir : Option Text) (path full : Text)
    → IsRooted working_dir
    → absolute working_dir path ≡ ok full
    → IsPlain full
unfolding absolute join_paths
absolute-IsPlain working_dir path full rooted h = elim (Bool-cases (is_abs path)) [
  | inl e ↦
      let is : absolute working_dir path ≡ ok (clean path) = rw (e) refl in
      subst IsPlain (ok_injective _ _ (sym is ∙ h)) (clean-IsPlain path e)
  | inr e ↦ elim (Option-cases working_dir) [
    | inl unknown ↦ absurd (cc (rw (e, unknown) at h))
    | inr (dir, known) ↦ elim (Bool-cases (path == [])) [
      | inl blank ↦
          let is : absolute working_dir path ≡ ok (clean dir) = rw (e, known, blank) refl in
          subst IsPlain (ok_injective _ _ (sym is ∙ h)) (clean-IsPlain dir (rooted dir known))
      | inr given ↦
          let is : absolute working_dir path ≡ ok (join_paths dir path) =
            rw (e, known, given) refl in
          subst IsPlain (ok_injective _ _ (sym is ∙ h)) (
            clean-IsPlain (dir ++ b'/' ∷ path) (is_abs-append dir (b'/' ∷ path) (rooted dir known)))
    ]
  ]
]

leads_out-parent : (ss : List Text) → leads_out (join_segments (parent ∷ ss)) ≡ true
unfolding leads_out join_segments text_beq has_prefix
leads_out-parent [] = refl
leads_out-parent (s ∷ ss) = refl

-- What does not lead out of the first is the rest of the second behind the first.
relative_inside :
    (bs ts : List Text) (rel : Text)
    → relative bs ts ≡ some rel
    → leads_out rel ≡ false
    → (rest : List Text) × (ts ≡ bs ++ rest)
unfolding relative
relative_inside [] ts rel h inside = (ts, refl)
relative_inside (b ∷ bs) [] rel h inside =
    let climbs : join_segments (parent ∷ map (λ _. parent) bs) ≡ rel = cc h in
    absurd (cc (sym (leads_out-parent (map (λ _. parent) bs)) ∙ ap leads_out climbs ∙ inside))
relative_inside (b ∷ bs) (t ∷ ts) rel h inside = elim (Bool-cases (b == t)) [
  | inl e ↦
      let (rest, same) = relative_inside bs ts rel (rw (e) at h) inside in
      (rest, λ i. sym (==_sound b t e) i ∷ same i)
  | inr e ↦ elim (Bool-cases (b == parent)) [
    | inl up ↦ absurd (cc (rw (e, up) at h))
    | inr down ↦
        let climbs : join_segments (parent ∷ (map (λ _. parent) bs ++ t ∷ ts)) ≡ rel =
          cc (rw (e, down) at h) in
        absurd (
          cc (
            sym (leads_out-parent (map (λ _. parent) bs ++ t ∷ ts)) ∙ ap leads_out climbs ∙ inside))
  ]
]

relative_path_inside :
    (bs ts : List Text) (rel : Text)
    → All IsName bs
    → All IsName ts
    → relative_path (from_root bs) (from_root ts) ≡ some rel
    → leads_out rel ≡ false
    → (rest : List Text) × (from_root ts ≡ from_root (bs ++ rest)) × All IsName (bs ++ rest)
unfolding relative_path relative_parts
relative_path_inside bs ts rel names more h inside =
    let base = parts_of-text_of bs names in
    let target = parts_of-text_of ts more in
    let between : relative_parts (record { rooted = true; segments = bs })
          (record { rooted = true; segments = ts })
        ≡ some rel =
      (λ i. relative_parts (sym base i) (sym target i)) ∙ h in
    elim (Bool-cases (from_root bs == from_root ts)) [
      | inl e ↦ (
        [],
        sym (==_sound (from_root bs) (from_root ts) e) ∙ ap from_root (append_nil bs),
        subst (All IsName) (append_nil bs) names,
      )
      | inr e ↦
          let (rest, same) = relative_inside bs ts rel (rw (e) at between) inside in
          (rest, ap from_root same, subst (All IsName) same more)
    ]

checked_path-ok :
    (rel : Option Text) (path full : Text)
    → checked_path rel path ≡ ok full
    → (r : Text) × (rel ≡ some r) × (leads_out r ≡ false) × (path ≡ full)
unfolding checked_path
checked_path-ok none path full h = absurd (cc h)
checked_path-ok (some r) path full h = elim (Bool-cases (leads_out r)) [
  | inl e ↦ absurd (cc (rw (e) at h))
  | inr e ↦ (r, refl, e, ok_injective path full (rw (e) at h))
]

-- Where the working directory, if the system tells it, is a rooted path: a path that `resolvePath`
-- returns is the data directory or lies in it. It is the absolute path of the data directory followed
-- by names, none of which is empty, "." or "..", or has a slash.
pub resolve_path_inside :
    (working_dir : Option Text) (data_dir requested path : Text)
    → IsRooted working_dir
    → resolve_path working_dir data_dir requested ≡ ok path
    → (dirs rest : List Text) × (absolute working_dir data_dir ≡ ok (from_root dirs))
      × (path ≡ from_root (dirs ++ rest))
      × All IsName (dirs ++ rest)
unfolding resolve_path
resolve_path_inside working_dir data_dir requested path rooted h =
    elim (Bool-cases (trim_space requested == [])) [
      | inl e ↦ absurd (cc (rw (e) at h))
      | inr e ↦
          let (base, is_base, found) =
            >>=-ok (absolute working_dir data_dir) _ path (rw (e) at h) in
          let candidate = candidate_for base (clean requested) in
          let (target, is_target, checked) = >>=-ok (absolute working_dir candidate) _ path found in
          let (rel, between, inside, same) =
            checked_path-ok (relative_path base target) target path checked in
          let dir = absolute-IsPlain working_dir data_dir base rooted is_base in
          let full = absolute-IsPlain working_dir candidate target rooted is_target in
          let (rest, within, names) =
            relative_path_inside dir.names full.names rel dir.names-IsName full.names-IsName
              ((λ i. relative_path (sym dir.made_of i) (sym full.made_of i)) ∙ between) inside in
          (dir.names, rest, is_base ∙ ap ok dir.made_of, sym same ∙ full.made_of ∙ within, names)
    ]
