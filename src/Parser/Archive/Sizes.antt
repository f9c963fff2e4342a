-- ===== src/Parser/Archive/Sizes.antt =====
-- What `readSource` of log-services/parser/parser/archive.go returns is within its limits.
use microservice_log_parser.Prelude.{
  ℕ, ◌≤◌, List, [], ◌∷◌, Bool, true, false, ◌||◌, Option, some, Option-cases, ◌≡◌, ◌⊎◌, refl, sym,
  ◌∙◌, subst, inl, inr, arith, length, ltb, Bool-cases, if◌then◌else◌,
}
use microservice_log_parser.Prelude.Int.{pos}
use microservice_log_parser.Prelude.Text.{Text, codes, has_suffix, to_lower}
use microservice_log_parser.Prelude.Result.{ok, ◌>>=◌, Result-cases, ok_injective}
use microservice_log_parser.Parser.Model.{SourceFile}
use microservice_log_parser.Parser.Archive.{
  Reading, nothing_read, no_files, read_up_to, keep_file, read_entries, add_file, max_file_size,
}
use microservice_log_parser.Parser.Archive.Bounds.{
  nothing_read-IsWithin, IsWithin, keep_file-IsWithin, read_up_to-length, read_entries-IsWithin,
}
use microservice_log_parser.Parser.Archive.Sources.{
  FileInfo, Stat, absent, unknown, found, Visit, Host, steps, base_name, trim_suffix,
  read_zip_entry, read_tar_end, read_small_file, name_in, visit, read_dir, read_zip, read_tar,
  unpacked, read_gzip, read_one, read_named, read_source,
}
use microservice_log_parser.Parser.Archive.Loops.{
  IsBounded, Bounded, sources_of-Bounded, steps-IsWithin, read_zip_entry-IsWithin,
  read_tar_end-IsWithin,
}

-- A file has no more bytes when it is read than when it was asked for its size.
abbrev pub IsSteady : Host → Type 0
IsSteady host =
    (path content : Text) (info : FileInfo)
    → host.stat path ≡ found info
    → host.read path ≡ some content
    → length content ≤ info.size

one_file-IsBounded :
    (file : SourceFile) → length file.content ≤ max_file_size → IsBounded (file ∷ [])
one_file-IsBounded file h = (omega arith, (h, tt))

Stat-cases : (s : Stat) → (s ≡ absent) ⊎ ((s ≡ unknown) ⊎ ((info : FileInfo) × (s ≡ found info)))
Stat-cases absent = inl refl
Stat-cases unknown = inr (inl refl)
Stat-cases (found info) = inr (inr (info, refl))

module _ (host : Host) where
  read_small_file-length :
      IsSteady host → (path t : Text) → read_small_file host path ≡ ok t → length t ≤ max_file_size
  unfolding read_small_file
  read_small_file-length steady path t h = elim (Stat-cases (host.stat path)) [
    | inl e ↦ absurd (cc (rw (e, read_small_file) at h))
    | inr (inl e) ↦ absurd (cc (rw (e, read_small_file) at h))
    | inr (inr (info, e)) ↦ elim (Bool-cases (ltb max_file_size info.size)) [
      | inl large ↦ absurd (cc (rw (e, large, read_small_file) at h))
      | inr fits ↦ elim (Option-cases (host.read path)) [
        | inl fails ↦ absurd (cc (rw (e, fits, fails, read_small_file) at h))
        | inr (content, reads) ↦
            let same : content ≡ t =
              ok_injective content t (rw (e, fits, reads, read_small_file) at h) in
            let few = steady path content info e reads in
            subst (λ x. length x ≤ max_file_size) same (ground (arith, fits, few))
      ]
    ]
  ]

  visit-IsWithin :
      IsSteady host
      → (root : Text) (v : Visit) (r r' : Reading) → IsWithin r
      → visit host root v r ≡ ok r'
      → IsWithin r'
  unfolding visit
  visit-IsWithin steady root v r r' w h = elim (Bool-cases (v.failed || v.cancelled)) [
    | inl e ↦ absurd (cc (rw (e) at h))
    | inr e ↦ elim (Bool-cases v.is_dir) [
      | inl dir ↦ subst IsWithin (ok_injective r r' (rw (e, dir) at h)) w
      | inr file ↦ elim (Option-cases v.size) [
        | inl fails ↦ absurd (cc (rw (e, file, fails) at h))
        | inr (size, known) ↦
            keep_file-IsWithin (name_in host root v.path) (pos size) (read_small_file host v.path) r
              r' w (read_small_file-length steady v.path) (sym (taken size e file known) ∙ h)
      ]
    ]
  ]
    where
      taken :
          (size : ℕ)
          → (v.failed || v.cancelled) ≡ false
          → v.is_dir ≡ false
          → v.size ≡ some size
          → visit host root v r
            ≡ keep_file (name_in host root v.path) (pos size) (read_small_file host v.path) r
      taken size e file known = rw (e, file, known) refl

  read_dir-Bounded : IsSteady host → (root : Text) → Bounded (read_dir host root)
  unfolding read_dir
  read_dir-Bounded steady root =
      sources_of-Bounded (steps (visit host root) (host.walk root) nothing_read) (λ r h.
        steps-IsWithin (visit host root) (visit-IsWithin steady root) (host.walk root) nothing_read
          r nothing_read-IsWithin h)

  read_zip-Bounded : (path : Text) → Bounded (read_zip host path)
  unfolding read_zip
  read_zip-Bounded path files h = elim (Option-cases (host.zip path)) [
    | inl e ↦ absurd (cc (rw (e, read_zip) at h))
    | inr (entries, e) ↦
        sources_of-Bounded (steps read_zip_entry entries nothing_read)
          (λ r goes.
            steps-IsWithin read_zip_entry read_zip_entry-IsWithin entries nothing_read r
              nothing_read-IsWithin goes)
          files (rw (e, read_zip) at h)
  ]

  read_tar-Bounded : (path : Text) (gzipped : Bool) → Bounded (read_tar host path gzipped)
  unfolding read_tar
  read_tar-Bounded path gzipped files h = elim (Option-cases (host.tar path gzipped)) [
    | inl e ↦ absurd (cc (rw (e, read_tar) at h))
    | inr (t, e) ↦
        sources_of-Bounded (do r ← read_entries t.entries nothing_read; read_tar_end t r)
          (λ r goes. elim (Result-cases (read_entries t.entries nothing_read)) [
            | inr (x, fails) ↦ absurd (cc (rw (fails) at goes))
            | inl (m, reads) ↦
                read_tar_end-IsWithin t m r
                  (read_entries-IsWithin t.entries nothing_read m nothing_read-IsWithin reads)
                  (rw (reads) at goes)
          ])
          files (rw (e, read_tar) at h)
  ]

  unpacked-Bounded : (path : Text) (content : Option Text) → Bounded (unpacked host path content)
  unfolding unpacked
  unpacked-Bounded path content files h = elim (Result-cases (read_up_to max_file_size content)) [
    | inr (x, fails) ↦ absurd (cc (rw (fails) at h))
    | inl (t, reads) ↦ elim (Result-cases (add_file (pos (length t)) no_files)) [
      | inr (x, fails) ↦ absurd (cc (rw (reads, fails) at h))
      | inl (l, adds) ↦
          subst IsBounded
            (ok_injective
              (record { name = trim_suffix (base_name path) (codes ".gz"); content = t } ∷ []) files
              (rw (reads, adds) at h))
            (one_file-IsBounded
              (record { name = trim_suffix (base_name path) (codes ".gz"); content = t })
              (read_up_to-length max_file_size content t reads))
    ]
  ]

  read_gzip-Bounded : (path : Text) → Bounded (read_gzip host path)
  unfolding read_gzip
  read_gzip-Bounded path files h = elim (Bool-cases (host.gzip path).cancelled) [
    | inl c ↦ absurd (cc (rw (c) at h))
    | inr go ↦ elim (Option-cases (host.gzip path).opened) [
      | inl fails ↦ absurd (cc (rw (go, fails) at h))
      | inr (content, e) ↦ unpacked-Bounded path content files (rw (go, e) at h)
    ]
  ]

  read_one-Bounded :
      IsSteady host → (path : Text) (info : FileInfo) → Bounded (read_one host path info)
  unfolding read_one
  read_one-Bounded steady path info files h = elim (Result-cases (read_small_file host path)) [
    | inr (x, fails) ↦ absurd (cc (rw (fails) at h))
    | inl (t, reads) ↦
        subst IsBounded
          (ok_injective (record { name = info.name; content = t } ∷ []) files (rw (reads) at h))
          (one_file-IsBounded (record { name = info.name; content = t })
            (read_small_file-length steady path t reads))
  ]

  read_named-Bounded :
      IsSteady host → (path : Text) (info : FileInfo) → Bounded (read_named host path info)
  unfolding read_named
  read_named-Bounded steady path info =
      by_suffix (has_suffix name (codes ".zip")) (has_suffix name (codes ".tar"))
        (has_suffix name (codes ".tar.gz") || has_suffix name (codes ".tgz"))
        (has_suffix name (codes ".gz"))
    where
      name : Text
      name = to_lower info.name

      by_suffix :
          (zip tar tgz gz : Bool)
          → Bounded (
              if zip
              then read_zip host path
              else if tar
              then read_tar host path false
              else if tgz
              then read_tar host path true
              else if gz
              then read_gzip host path
              else read_one host path info)
      by_suffix true tar tgz gz = read_zip-Bounded path
      by_suffix false true tgz gz = read_tar-Bounded path false
      by_suffix false false true gz = read_tar-Bounded path true
      by_suffix false false false true = read_gzip-Bounded path
      by_suffix false false false false = read_one-Bounded steady path info

  -- What `readSource` returns for a directory, an archive or a file, if it returns files: at most
  -- `max_files` of them, none of more than `max_file_size` bytes. A file that is read whole is taken not
  -- to grow between the question for its size and the reading.
  pub read_source-IsBounded :
      IsSteady host
      → (path : Text) (files : List SourceFile) → read_source host path ≡ ok files
      → IsBounded files
  unfolding read_source
  read_source-IsBounded steady path files h = elim (Stat-cases (host.stat path)) [
    | inl e ↦ absurd (cc (rw (e, read_source) at h))
    | inr (inl e) ↦ absurd (cc (rw (e, read_source) at h))
    | inr (inr (info, e)) ↦ elim (Bool-cases info.is_dir) [
      | inl dir ↦ read_dir-Bounded steady path files (rw (e, dir, read_source) at h)
      | inr file ↦ read_named-Bounded steady path info files (rw (e, file, read_source) at h)
    ]
  ]
