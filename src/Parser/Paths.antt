-- ===== src/Parser/Paths.antt =====
-- `resolvePath` of log-services/parser/parser/engine.go, with the functions of path/filepath that it calls,
-- on a Unix system. A path is cut at its slashes; the working directory is a parameter, none where the
-- system does not tell it.
pub mod Clean
pub mod Inside
pub mod Segments
pub mod Accepts
use microservice_log_parser.Prelude.{
  List, [], ◌∷◌, ◌++◌, Bool, true, false, not, ◌||◌, Option, none, some, map, if◌then◌else◌,
}
use microservice_log_parser.Prelude.Eq.{◌==◌, nat_eq}
use microservice_log_parser.Prelude.Text.{
  Text, codes, text_beq, text_eq, trim_space, has_prefix, trim_prefix,
}
use microservice_log_parser.Prelude.Result.{Result, ok, err, ◌>>=◌}
use microservice_log_parser.Parser.Model.{Error, bad_arguments, other}

-- The parts of a path that is clean. A rooted path is one from "/".
pub record Parts : Type 0 where
  pub rooted : Bool
  pub segments : List Text

abbrev pub parent : Text
parent = codes ".."

unfoldable pub is_abs : Text → Bool
unfolding has_prefix
is_abs path = has_prefix path (codes "/")

abbrev pub cons_head : {A : Type 0} → A → List (List A) → List (List A)
cons_head a [] = (a ∷ []) ∷ []
cons_head a (s ∷ ss) = (a ∷ s) ∷ ss

-- The texts between the slashes.
unfoldable pub split_path : Text → List Text
split_path [] = [] ∷ []
split_path (c ∷ t) = let rest = split_path t in if c == b'/' then [] ∷ rest else cons_head c rest

-- A segment ".." takes one off, where there is one to take off; one that leads out of a path that is
-- not rooted stays.
unfoldable pub back : Bool → List Text → List Text
unfolding text_beq
back rooted [] = if rooted then [] else parent ∷ []
back rooted (x ∷ []) = if x == parent then x ∷ parent ∷ [] else []
back rooted (x ∷ y ∷ xs) = x ∷ back rooted (y ∷ xs)

unfoldable pub clean_onto : Bool → List Text → List Text → List Text
unfolding back text_beq
clean_onto rooted out [] = out
clean_onto rooted out (s ∷ ss) =
    let skipped = clean_onto rooted out ss in
    let dropped = clean_onto rooted (back rooted out) ss in
    let kept = clean_onto rooted (out ++ s ∷ []) ss in
    if (s == []) || (s == codes ".") then skipped else if s == parent then dropped else kept

unfoldable pub parts_of : Text → Parts
unfolding clean_onto split_path is_abs
parts_of path = record {
  rooted = is_abs path;
  segments = clean_onto (is_abs path) [] (split_path path);
}

unfoldable pub join_segments : List Text → Text
join_segments [] = []
join_segments (s ∷ []) = s
join_segments (s ∷ t ∷ ss) = s ++ b'/' ∷ join_segments (t ∷ ss)

unfoldable pub text_of : Parts → Text
unfolding join_segments
text_of p = elim p.rooted [
  | true ↦ b'/' ∷ join_segments p.segments
  | false ↦ elim p.segments [ [] ↦ codes "." | s ∷ ss ↦ join_segments (s ∷ ss) ]
]

-- `filepath.Clean`
unfoldable pub clean : Text → Text
unfolding text_of parts_of
clean path = text_of (parts_of path)

-- `filepath.Join` of two, the first of which is not empty.
unfoldable pub join_paths : Text → Text → Text
unfolding clean
join_paths dir path = clean (dir ++ b'/' ∷ path)

-- `filepath.Abs`
unfoldable pub absolute : Option Text → Text → Result Error Text
unfolding clean join_paths is_abs text_beq
absolute working_dir path = if is_abs path then ok (clean path) else elim working_dir [
  | none ↦ err other
  | some dir ↦ ok (if path == [] then clean dir else join_paths dir path)
]

-- What is left of the second beyond the segments that both begin with, behind one ".." for each segment
-- that is left of the first.
unfoldable pub relative : List Text → List Text → Option Text
unfolding join_segments text_beq
relative [] ts = some (join_segments ts)
relative (b ∷ bs) [] = some (join_segments (map (λ _. parent) (b ∷ bs)))
relative (b ∷ bs) (t ∷ ts) =
    let rest = relative bs ts in
    if b == t
    then rest
    else if b == parent
    then none
    else some (join_segments (map (λ _. parent) (b ∷ bs) ++ t ∷ ts))

-- `filepath.Rel` of paths that are cleaned; none for an error.
unfoldable pub relative_parts : Parts → Parts → Option Text
unfolding relative text_of text_beq
relative_parts base target =
    if text_of base == text_of target
    then some (codes ".")
    else if base.rooted
    then (if target.rooted then relative base.segments target.segments else none)
    else (if target.rooted then none else relative base.segments target.segments)

unfoldable pub relative_path : Text → Text → Option Text
unfolding relative_parts parts_of
relative_path base target = relative_parts (parts_of base) (parts_of target)

-- The candidate for a path that is clean.
unfoldable pub candidate_for : Text → Text → Text
unfolding is_abs join_paths has_prefix trim_prefix text_beq
candidate_for data_abs requested =
    if is_abs requested
    then (if (requested == codes "/data") || has_prefix requested (codes "/data/")
        then join_paths data_abs (trim_prefix requested (codes "/data"))
        else requested)
    else join_paths data_abs requested

-- `rel == ".." || strings.HasPrefix(rel, "../") || filepath.IsAbs(rel)`
unfoldable pub leads_out : Text → Bool
unfolding has_prefix is_abs text_beq
leads_out rel = (rel == parent) || (has_prefix rel (codes "../") || is_abs rel)

-- The last check, on what `filepath.Rel` answers.
unfoldable pub checked_path : Option Text → Text → Result Error Text
unfolding leads_out
checked_path none path = err other
checked_path (some rel) path = if leads_out rel then err bad_arguments else ok path

module _ (working_dir : Option Text) (data_dir : Text) where
  unfoldable pub resolve_path : Text → Result Error Text
  unfolding absolute candidate_for relative_path checked_path clean trim_space text_beq
  resolve_path requested = if trim_space requested == [] then err bad_arguments else do
    data_abs ← absolute working_dir data_dir
    candidate_abs ← absolute working_dir (candidate_for data_abs (clean requested))
    checked_path (relative_path data_abs candidate_abs) candidate_abs
