-- ===== src/Parser/Archive/Bounds.antt =====
-- An archive that is read stays within its limits.
use microservice_log_parser.Prelude.{
  ℕ, ◌+◌, ◌≤◌, List, [], ◌∷◌, ◌++◌, Option, none, some, ◌≡◌, refl, subst, inl, inr, arith, length,
  length-append, All, All-append, Bool-cases,
}
use microservice_log_parser.Prelude.Int.{ℤ}
use microservice_log_parser.Prelude.Text.{Text}
use microservice_log_parser.Parser.Model.{Error}
use microservice_log_parser.Prelude.Result.{Result, ok, err, Result-cases}
use microservice_log_parser.Parser.Archive.{
  ArchiveLimits, Entry, Reading, nothing_read, add_file, read_up_to, keep_file, read_file,
  read_entry, read_entries, max_file_size, max_files, max_total_bytes,
}

-- No more files than are allowed, each counted, none too long, and the declared sizes within the sum
-- that is allowed.
pub record IsWithin (r : Reading) : Type 0 where
  pub few : r.limits.files ≤ max_files
  pub small : r.limits.total ≤ max_total_bytes
  pub counted : length r.sources ≡ r.limits.files
  pub short : All (λ f. length f.content ≤ max_file_size) r.sources

pub nothing_read-IsWithin : IsWithin nothing_read
nothing_read-IsWithin = record {
  few = omega arith;
  small = omega arith;
  counted = refl;
  short = tt;
}

pub read_up_to-length :
    (limit : ℕ) (o : Option Text) (t : Text) → read_up_to limit o ≡ ok t → length t ≤ limit
unfolding read_up_to
read_up_to-length limit none t h = cc
read_up_to-length limit (some c) t h = ground arith

add_file-bounds :
    (size : ℤ) (l l' : ArchiveLimits)
    → add_file size l ≡ ok l'
    → (l'.files ≡ l.files + 1) × (l'.files ≤ max_files) × (l'.total ≤ max_total_bytes)
unfolding add_file
add_file-bounds size l l' h = ground arith

-- `ok` is injective, on the bind of the two checks of a file.
pub keep_file-parts :
    (name : Text) (size : ℤ) (content : Result Error Text) (r r' : Reading)
    → keep_file name size content r ≡ ok r'
    → (l : ArchiveLimits) × (t : Text) × (add_file size r.limits ≡ ok l)
      × (content ≡ ok t)
      × (r'
          ≡ record { sources = r.sources ++ record { name = name; content = t } ∷ []; limits = l })
unfolding keep_file
keep_file-parts name size (err x) r r' h = elim (Result-cases (add_file size r.limits)) [
  | inr (x, fails) ↦ absurd (ground (arith, fails))
  | inl (l, adds) ↦ absurd (ground (arith, adds))
]
keep_file-parts name size (ok t) r r' h = elim (Result-cases (add_file size r.limits)) [
  | inr (x, fails) ↦ absurd (ground (arith, fails))
  | inl (l, adds) ↦ (l, t, adds, refl, ground (arith, adds))
]

-- A file that counts, and that is not too long as it is read, keeps a reading within the limits.
pub keep_file-IsWithin :
    (name : Text) (size : ℤ) (content : Result Error Text) (r r' : Reading)
    → IsWithin r
    → ((t : Text) → content ≡ ok t → length t ≤ max_file_size)
    → keep_file name size content r ≡ ok r'
    → IsWithin r'
keep_file-IsWithin name size content r r' v short h =
    let (l, t, adds, reads, eq) = keep_file-parts name size content r r' h in
    let (one, few, small) = add_file-bounds size r.limits l adds in
    rw eq (record {
      few = few;
      small = small;
      counted = omega (
        arith,
        v.counted,
        one,
        length-append r.sources (record { name = name; content = t } ∷ []),
      );
      short = All-append _ r.sources _ v.short (short t reads, tt);
    })

read_file-IsWithin : (e : Entry) (r r' : Reading) → IsWithin r → read_file e r ≡ ok r' → IsWithin r'
unfolding read_file
read_file-IsWithin e r r' v h =
    keep_file-IsWithin e.name e.size (read_up_to max_file_size e.content) r r' v
      (read_up_to-length max_file_size e.content) h

read_entry-IsWithin :
    (e : Entry) (r r' : Reading) → IsWithin r → read_entry e r ≡ ok r' → IsWithin r'
unfolding read_entry
read_entry-IsWithin e r r' v h = elim (Bool-cases e.cancelled) [
  | inl c ↦ absurd (ground (arith, c))
  | inr go ↦ elim (Bool-cases e.is_dir) [
    | inl dir ↦ subst IsWithin (ground (arith, go, dir)) v
    | inr file ↦ read_file-IsWithin e r r' v (ground (arith, go, file))
  ]
]

-- The loop over the entries of an archive keeps a reading within the limits.
pub read_entries-IsWithin :
    (entries : List Entry) (r r' : Reading)
    → IsWithin r
    → read_entries entries r ≡ ok r'
    → IsWithin r'
unfolding read_entries
read_entries-IsWithin [] r r' v h = subst IsWithin (ground arith) v
read_entries-IsWithin (e ∷ entries) r r' v h = elim (Result-cases (read_entry e r)) [
  | inr (x, fails) ↦ absurd (ground (arith, fails))
  | inl (m, reads) ↦
      read_entries-IsWithin entries m r' (read_entry-IsWithin e r m v reads) (ground (arith, reads))
]
