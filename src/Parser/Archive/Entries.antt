-- ===== src/Parser/Archive/Entries.antt =====
-- What the loop of `readTar` in log-services/parser/parser/archive.go makes of the entries of an archive.
use microservice_log_parser.Prelude.{
  ℕ, zero, suc, ◌+◌, ◌≤◌, List, [], ◌∷◌, ◌++◌, ◌≡◌, refl, sym, ap, ◌∙◌, inl, inr, Bool-cases,
  Option, none, some, map, take, length, ltb, All, append_one, append_nil, arith, if◌then◌else◌,
}
use microservice_log_parser.Prelude.Int.{ℤ}
use microservice_log_parser.Prelude.Text.{Text}
use microservice_log_parser.Prelude.Result.{ok, Result-cases, ok_injective}
use microservice_log_parser.Parser.Model.{SourceFile}
use microservice_log_parser.Parser.Archive.{
  ArchiveLimits, Entry, Reading, nothing_read, size_of, add_file, read_up_to, read_file, read_entry,
  read_entries, max_file_size, max_files, max_total_bytes,
}
use microservice_log_parser.Parser.Archive.Bounds.{
  nothing_read-IsWithin, keep_file-parts, read_entries-IsWithin,
}

-- The bytes that the entries declare, but for directories; a negative size counts for none.
unfoldable pub declared : List Entry → ℕ
declared [] = 0
declared (e ∷ es) = (if e.is_dir then 0 else size_of e.size) + declared es

-- The entries that are files, with the whole of their content.
unfoldable pub files_in : List Entry → List (Text × Option Text)
files_in [] = []
files_in (e ∷ es) = let rest = files_in es in if e.is_dir then rest else (e.name, e.content) ∷ rest

abbrev pub seen : List SourceFile → List (Text × Option Text)
seen = map (λ f. (f.name, some f.content))

take_short : (n : ℕ) (t : Text) → length (take (suc n) t) ≤ n → take (suc n) t ≡ t
take_short n [] h = refl
take_short zero (c ∷ t) h = absurd (omega (arith, h))
take_short (suc n) (c ∷ t) h = ap (◌∷◌ c) (take_short n t (omega (arith, h)))

read_up_to-whole : (limit : ℕ) (o : Option Text) (t : Text) → read_up_to limit o ≡ ok t → o ≡ some t
unfolding read_up_to
read_up_to-whole limit none t h = absurd (cc h)
read_up_to-whole limit (some c) t h = elim (Bool-cases (ltb limit (length (take (suc limit) c)))) [
  | inl long ↦ absurd (cc (rw (long) at h))
  | inr fits ↦
      let same : take (suc limit) c ≡ t = ok_injective (take (suc limit) c) t (rw (fits) at h) in
      ap some (sym (take_short limit c (ground (arith, fits))) ∙ same)
]

add_file-total :
    (size : ℤ) (l l' : ArchiveLimits) → add_file size l ≡ ok l' → l'.total ≡ l.total + size_of size
unfolding add_file
add_file-total size l l' h = ground arith

length-seen : (fs : List SourceFile) → length (seen fs) ≡ length fs
length-seen [] = refl
length-seen (f ∷ fs) = ap suc (length-seen fs)

seen-append_one :
    (fs : List SourceFile) (f : SourceFile)
    → seen (fs ++ f ∷ []) ≡ seen fs ++ (f.name, some f.content) ∷ []
seen-append_one [] f = refl
seen-append_one (g ∷ fs) f = ap (◌∷◌ (g.name, some g.content)) (seen-append_one fs f)

read_file-seen :
    (e : Entry) (r r' : Reading)
    → read_file e r ≡ ok r'
    → (r'.limits.total ≡ r.limits.total + size_of e.size)
      × (seen r'.sources ≡ seen r.sources ++ (e.name, e.content) ∷ [])
unfolding read_file
read_file-seen e r r' h =
    let (l, t, adds, reads, eq) =
      keep_file-parts e.name e.size (read_up_to max_file_size e.content) r r' h in
    let whole = read_up_to-whole max_file_size e.content t reads in
    (
      ap (λ x. x.limits.total) eq ∙ add_file-total e.size r.limits l adds,
      ap (λ x. seen x.sources) eq
          ∙ seen-append_one r.sources (record { name = e.name; content = t })
          ∙ ap (λ o. seen r.sources ++ (e.name, o) ∷ []) (sym whole),
    )

read_entries-seen :
    (entries : List Entry) (r r' : Reading)
    → read_entries entries r ≡ ok r'
    → (r'.limits.total ≡ r.limits.total + declared entries)
      × (seen r'.sources ≡ seen r.sources ++ files_in entries)
unfolding read_entries read_entry declared files_in
read_entries-seen [] r r' h =
    let same = ok_injective r r' h in
    (
      ap (λ x. x.limits.total) (sym same) ∙ omega arith,
      ap (λ x. seen x.sources) (sym same) ∙ append_nil (seen r.sources),
    )
read_entries-seen (e ∷ entries) r r' h = elim (Bool-cases e.cancelled) [
  | inl c ↦ absurd (cc (rw (c) at h))
  | inr go ↦ elim (Bool-cases e.is_dir) [
    | inl dir ↦
        let (total, files) = read_entries-seen entries r r' (rw (go, dir) at h) in
        rw (dir) (total ∙ omega arith, files)
    | inr file ↦ elim (Result-cases (read_file e r)) [
      | inr (x, fails) ↦ absurd (cc (rw (go, file, fails) at h))
      | inl (m, reads) ↦
          let (one, now) = read_file-seen e r m reads in
          let (total, files) = read_entries-seen entries m r' (rw (go, file, reads) at h) in
          rw (file) (
            omega (arith, one, total),
            files
                ∙ ap (λ t. t ++ files_in entries) now
                ∙ append_one (seen r.sources) (e.name, e.content) (files_in entries),
          )
    ]
  ]
]

-- Where the loop over the entries of a tar archive ends without an error: the entries but for
-- directories declare at most `max_total_bytes` bytes together, there are at most `max_files` of them,
-- and each was read whole, with at most `max_file_size` bytes: these files, with their names and contents,
-- are what is returned, in the order of the archive.
pub read_entries_reads :
    (entries : List Entry) (r : Reading)
    → read_entries entries nothing_read ≡ ok r
    → (declared entries ≤ max_total_bytes)
      × (length (files_in entries) ≤ max_files)
      × (seen r.sources ≡ files_in entries)
      × All (λ f. length f.content ≤ max_file_size) r.sources
read_entries_reads entries r h =
    let (total, files) = read_entries-seen entries nothing_read r h in
    let v = read_entries-IsWithin entries nothing_read r nothing_read-IsWithin h in
    let many = sym (length-seen r.sources) ∙ ap length files in
    (omega (arith, total, v.small), omega (arith, many, v.counted, v.few), files, v.short)
