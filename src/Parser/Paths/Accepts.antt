-- ===== src/Parser/Paths/Accepts.antt =====
-- What `resolvePath` of log-services/parser/parser/engine.go accepts.
use microservice_log_parser.Prelude.{
  List, [], ◌∷◌, ◌++◌, ◌≡◌, ◌≢◌, refl, sym, ap, ◌∙◌, inl, inr, true, false, All, All-append,
  Bool-cases, Option, some,
}
use microservice_log_parser.Prelude.Eq.{◌==◌, nat_eq, ==_refl, ==_false}
use microservice_log_parser.Prelude.Text.{
  Text, codes, text_beq, text_eq, has_prefix, trim_space, trim_prefix, strip_prefix,
}
use microservice_log_parser.Prelude.Result.{Result, ok, ◌>>=◌}
use microservice_log_parser.Parser.Model.{Error}
use microservice_log_parser.Parser.Paths.{
  parent, is_abs, split_path, clean_onto, parts_of, join_segments, text_of, clean, join_paths,
  absolute, relative_parts, relative_path, candidate_for, leads_out, checked_path, resolve_path,
}
use microservice_log_parser.Parser.Paths.Clean.{
  IsName, NoSlash, split_path_before_slash, parts_of-text_of, clean_onto_names,
  split_path-join_segments, segments_again,
}
use microservice_log_parser.Parser.Paths.Inside.{from_root}
use microservice_log_parser.Parser.Paths.Segments.{
  has_prefix-append, split_path-append_slash, clean_onto-append, relative-append,
}

module _ (n : Text) (ns : List Text) (names : All IsName (n ∷ ns)) where
  -- A path that begins with a segment of another kind is not put together from names.
  other_start : (s t : Text) → NoSlash s → (n == s) ≡ false → join_segments (n ∷ ns) ≢ s ++ b'/' ∷ t
  other_start s t plain d h =
      let cuts =
        sym (split_path-join_segments n ns names)
        ∙ ap split_path h
        ∙ split_path_before_slash s t plain in
      let same : n ≡ s = cc cuts in absurd (cc (sym d ∙ ap (λ x. n == x) (sym same) ∙ ==_refl n))

  is_not_parent : (join_segments (n ∷ ns) == parent) ≡ false
  unfolding split_path
  is_not_parent = ==_false (join_segments (n ∷ ns)) parent λ h.
      let cuts = sym (split_path-join_segments n ns names) ∙ ap split_path h in
      let same : n ≡ parent = cc cuts in
      absurd (cc (sym names.0.not_parent ∙ ap (λ x. n == x) (sym same) ∙ ==_refl n))

  not_abs : is_abs (join_segments (n ∷ ns)) ≡ false
  unfolding is_abs
  not_abs = elim (Bool-cases (has_prefix (join_segments (n ∷ ns)) (codes "/"))) [
    | inr e ↦ e
    | inl e ↦
        let (rest, same) = has_prefix-append (join_segments (n ∷ ns)) (codes "/") e in
        absurd (other_start [] rest tt names.0.not_empty same)
  ]

  stays_inside : leads_out (join_segments (n ∷ ns)) ≡ false
  unfolding leads_out
  stays_inside = elim (Bool-cases (has_prefix (join_segments (n ∷ ns)) (codes "../"))) [
    | inr e ↦ rw (is_not_parent, e, not_abs) refl
    | inl e ↦
        let (rest, same) = has_prefix-append (join_segments (n ∷ ns)) (codes "../") e in
        absurd (other_start parent rest (refl, (refl, tt)) names.0.not_parent same)
  ]

  clean-names : clean (join_segments (n ∷ ns)) ≡ join_segments (n ∷ ns)
  unfolding clean parts_of text_of
  clean-names =
      let segments =
        ap (clean_onto false []) (split_path-join_segments n ns names)
        ∙ clean_onto_names false [] (n ∷ ns) names in
      rw (not_abs, segments) refl

  -- A path that ends in the names, joined to the data directory.
  joined :
      (path : Text) (dirs : List Text)
      → ((out : List Text) → clean_onto true out (split_path path) ≡ out ++ n ∷ ns)
      → All IsName dirs
      → join_paths (from_root dirs) path ≡ from_root (dirs ++ n ∷ ns)
  unfolding join_paths clean parts_of is_abs has_prefix text_of
  joined path dirs ends proper =
      ap (λ ss. text_of (record { rooted = true; segments = ss }))
        (ap (clean_onto true []) (split_path-append_slash (from_root dirs) path)
          ∙ clean_onto-append true [] (split_path (from_root dirs)) (split_path path)
          ∙ ap (λ out. clean_onto true out (split_path path)) (segments_again dirs proper)
          ∙ ends dirs)

  -- From the root of the container, or from nowhere.
  abbrev pub in_container : Text
  in_container = from_root (codes "data" ∷ n ∷ ns)

  ends_names :
      (out : List Text) → clean_onto true out (split_path (join_segments (n ∷ ns))) ≡ out ++ n ∷ ns
  ends_names out =
      ap (clean_onto true out) (split_path-join_segments n ns names)
      ∙ clean_onto_names true out (n ∷ ns) names

  ends_slash :
      (out : List Text)
      → clean_onto true out (split_path (b'/' ∷ join_segments (n ∷ ns))) ≡ out ++ n ∷ ns
  unfolding clean_onto split_path
  ends_slash out = ends_names out

  data-IsName : IsName (codes "data")
  unfolding text_beq
  data-IsName = record {
    not_empty = refl;
    not_dot = refl;
    not_parent = refl;
    no_slash = (refl, (refl, (refl, (refl, tt))));
  }

  candidate_for-names :
      (dirs : List Text)
      → All IsName dirs
      → candidate_for (from_root dirs) (join_segments (n ∷ ns)) ≡ from_root (dirs ++ n ∷ ns)
  unfolding candidate_for
  candidate_for-names dirs proper =
      let inside = joined (join_segments (n ∷ ns)) dirs ends_names proper in rw (not_abs) inside

  candidate_for-container :
      (dirs : List Text)
      → All IsName dirs
      → candidate_for (from_root dirs) in_container ≡ from_root (dirs ++ n ∷ ns)
  unfolding candidate_for is_abs has_prefix text_beq text_of join_segments trim_prefix strip_prefix
  candidate_for-container dirs proper =
      joined (b'/' ∷ join_segments (n ∷ ns)) dirs ends_slash proper

  clean-from_root :
      (segments : List Text) → All IsName segments → clean (from_root segments) ≡ from_root segments
  unfolding clean
  clean-from_root segments h = ap text_of (parts_of-text_of segments h)

  relative_path-names :
      (dirs : List Text)
      → All IsName dirs
      → All IsName (dirs ++ n ∷ ns)
      → (rel : Text) × (relative_path (from_root dirs) (from_root (dirs ++ n ∷ ns)) ≡ some rel)
        × (leads_out rel ≡ false)
  unfolding relative_path relative_parts leads_out text_beq has_prefix is_abs
  relative_path-names dirs proper whole =
      let between : relative_path (from_root dirs) (from_root (dirs ++ n ∷ ns))
          ≡ relative_parts (record { rooted = true; segments = dirs })
              (record { rooted = true; segments = dirs ++ n ∷ ns }) =
        λ i.
          relative_parts (parts_of-text_of dirs proper i)
            (parts_of-text_of (dirs ++ n ∷ ns) whole i) in
      elim (Bool-cases (from_root dirs == from_root (dirs ++ n ∷ ns))) [
        | inl e ↦ (codes ".", between ∙ rw (e) refl, refl)
        | inr e ↦
            (join_segments (n ∷ ns), between ∙ rw (e) (relative-append dirs (n ∷ ns)), stays_inside)
      ]

  absolute-from_root :
      (working_dir : Option Text) (segments : List Text)
      → All IsName segments
      → absolute working_dir (from_root segments) ≡ ok (from_root segments)
  unfolding absolute is_abs has_prefix text_of
  absolute-from_root working_dir segments h = ap ok (clean-from_root segments h)

  inside-checked_path :
      (rel path : Text) → leads_out rel ≡ false → checked_path (some rel) path ≡ ok path
  unfolding checked_path
  inside-checked_path rel path stays = rw (stays) refl

  resolve_path-candidate :
      (working_dir : Option Text) (data_dir requested : Text) (dirs : List Text)
      → All IsName dirs
      → absolute working_dir data_dir ≡ ok (from_root dirs)
      → (trim_space requested == []) ≡ false
      → candidate_for (from_root dirs) (clean requested) ≡ from_root (dirs ++ n ∷ ns)
      → resolve_path working_dir data_dir requested ≡ ok (from_root (dirs ++ n ∷ ns))
  unfolding resolve_path
  resolve_path-candidate working_dir data_dir requested dirs proper base given candidate =
      let whole = All-append IsName dirs (n ∷ ns) proper names in
      let full = from_root (dirs ++ n ∷ ns) in
      let check : Text → Text → Result Error Text = λ b c. checked_path (relative_path b c) c in
      let follow : Text → Result Error Text =
        λ b. absolute working_dir (candidate_for b (clean requested)) >>= check b in
      let (rel, between, stays) = relative_path-names dirs proper whole in
      let steps : (absolute working_dir data_dir >>= follow) ≡ ok full =
        ap (λ m. m >>= follow) base
        ∙ ap (λ c. absolute working_dir c >>= check (from_root dirs)) candidate
        ∙ ap (λ m. m >>= check (from_root dirs))
            (absolute-from_root working_dir (dirs ++ n ∷ ns) whole)
        ∙ ap (λ r. checked_path r full) between
        ∙ inside-checked_path rel full stays in
      rw (given) steps

  -- Where the data directory is a rooted path of names: a relative path of names leads to the path of
  -- these names in the data directory, and so does the same path under /data, where the container has
  -- the data directory, wherever that is here. The texts of both are not blank.
  pub resolve_path_accepts :
      (working_dir : Option Text) (data_dir : Text) (dirs : List Text)
      → All IsName dirs
      → absolute working_dir data_dir ≡ ok (from_root dirs)
      → (trim_space (join_segments (n ∷ ns)) == []) ≡ false
      → (trim_space in_container == []) ≡ false
      → (resolve_path working_dir data_dir (join_segments (n ∷ ns))
          ≡ ok (from_root (dirs ++ n ∷ ns)))
        × (resolve_path working_dir data_dir in_container ≡ ok (from_root (dirs ++ n ∷ ns)))
  resolve_path_accepts working_dir data_dir dirs proper base given given_too = (
    resolve_path-candidate working_dir data_dir (join_segments (n ∷ ns)) dirs proper base given
        (ap (candidate_for (from_root dirs)) clean-names ∙ candidate_for-names dirs proper),
    resolve_path-candidate working_dir data_dir in_container dirs proper base given_too (
        ap (candidate_for (from_root dirs))
          (clean-from_root (codes "data" ∷ n ∷ ns) (data-IsName, names))
        ∙ candidate_for-container dirs proper),
  )
