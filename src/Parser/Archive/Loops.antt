-- ===== src/Parser/Archive/Loops.antt =====
-- The loops of log-services/parser/parser/archive.go keep what is read within the limits.
use microservice_log_parser.Prelude.{
  ◌≤◌, List, [], ◌∷◌, false, Option, none, some, Option-cases, ◌≡◌, refl, sym, ◌∙◌, subst, inl, inr,
  arith, length, ltb, All, Bool-cases,
}
use microservice_log_parser.Prelude.Int.{pos}
use microservice_log_parser.Prelude.Text.{Text}
use microservice_log_parser.Prelude.Result.{Result, ok, err, Result-cases, ok_injective}
use microservice_log_parser.Parser.Model.{Error, SourceFile}
use microservice_log_parser.Parser.Archive.{Reading, keep_file, max_file_size, max_files}
use microservice_log_parser.Parser.Archive.Bounds.{IsWithin, keep_file-IsWithin, read_up_to-length}
use microservice_log_parser.Parser.Archive.Sources.{
  ZipContent, ZipEntry, Tar, steps, read_zip_content, read_zip_entry, sources_of, read_tar_end,
}

-- At most `max_files` files, none longer than `max_file_size`.
abbrev pub IsBounded : List SourceFile → Type 0
IsBounded files = (length files ≤ max_files) × All (λ f. length f.content ≤ max_file_size) files

-- A result that is bounded if it is one.
abbrev pub Bounded : Result Error (List SourceFile) → Type 0
Bounded result = (files : List SourceFile) → result ≡ ok files → IsBounded files

pub sources_of-Bounded :
    (read : Result Error Reading)
    → ((r : Reading) → read ≡ ok r → IsWithin r)
    → Bounded (sources_of read)
sources_of-Bounded (err e) h files same = absurd (cc same)
sources_of-Bounded (ok r) h files same =
    let v = h r refl in
    subst IsBounded (ok_injective r.sources files same) (omega (arith, v.counted, v.few), v.short)

pub steps-IsWithin :
    {E : Type 0} (step : E → Reading → Result Error Reading)
    → ((e : E) (r r' : Reading) → IsWithin r → step e r ≡ ok r' → IsWithin r')
    → (es : List E) (r r' : Reading) → IsWithin r
    → steps step es r ≡ ok r'
    → IsWithin r'
unfolding steps
steps-IsWithin step k [] r r' v h = subst IsWithin (ok_injective r r' h) v
steps-IsWithin step k (e ∷ es) r r' v h = elim (Result-cases (step e r)) [
  | inr (x, fails) ↦ absurd (cc (rw (fails) at h))
  | inl (m, goes) ↦ steps-IsWithin step k es m r' (k e r m v goes) (rw (goes) at h)
]

read_zip_content-length :
    (o : Option ZipContent) (t : Text) → read_zip_content o ≡ ok t → length t ≤ max_file_size
unfolding read_zip_content
read_zip_content-length none t h = absurd (cc h)
read_zip_content-length (some c) t h = elim (Option-cases c.read) [
  | inl e ↦ absurd (cc (rw (e) at h))
  | inr (content, e) ↦ elim (Bool-cases c.closes) [
    | inl closes ↦ read_up_to-length max_file_size (some content) t (rw (e, closes) at h)
    | inr fails ↦ absurd (cc (rw (e, fails) at h))
  ]
]

pub read_zip_entry-IsWithin :
    (e : ZipEntry) (r r' : Reading) → IsWithin r → read_zip_entry e r ≡ ok r' → IsWithin r'
unfolding read_zip_entry
read_zip_entry-IsWithin e r r' v h = elim (Bool-cases e.cancelled) [
  | inl c ↦ absurd (cc (rw (c) at h))
  | inr go ↦ elim (Bool-cases e.is_dir) [
    | inl dir ↦ subst IsWithin (ok_injective r r' (rw (go, dir) at h)) v
    | inr file ↦ elim (Bool-cases (ltb max_file_size e.size)) [
      | inl large ↦ absurd (cc (rw (go, file, large) at h))
      | inr fits ↦
          keep_file-IsWithin e.name (pos e.size) (read_zip_content e.opened) r r' v
            (read_zip_content-length e.opened) (sym (taken go file fits) ∙ h)
    ]
  ]
]
  where
    taken :
        e.cancelled ≡ false
        → e.is_dir ≡ false
        → ltb max_file_size e.size ≡ false
        → read_zip_entry e r ≡ keep_file e.name (pos e.size) (read_zip_content e.opened) r
    taken go file fits = rw (go, file, fits) refl

pub read_tar_end-IsWithin :
    (t : Tar) (r r' : Reading) → IsWithin r → read_tar_end t r ≡ ok r' → IsWithin r'
unfolding read_tar_end
read_tar_end-IsWithin t r r' v h = elim (Bool-cases t.cancelled) [
  | inl c ↦ absurd (cc (rw (c) at h))
  | inr go ↦ elim (Bool-cases t.ends) [
    | inl ends ↦ subst IsWithin (ok_injective r r' (rw (go, ends) at h)) v
    | inr broken ↦ absurd (cc (rw (go, broken) at h))
  ]
]
