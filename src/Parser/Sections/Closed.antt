-- ===== src/Parser/Sections/Closed.antt =====
-- What the sections that `splitDBCSVSections` of log-services/parser/parser/dbcsv.go returns hold.
use microservice_log_parser.Prelude.{
  List, [], ◌∷◌, ◌≡◌, ◌≢◌, inl, inr, subst, Bool-cases, All, All-append, arith,
}
use microservice_log_parser.Prelude.Eq.{◌==◌}
use microservice_log_parser.Prelude.Text.{Text, text_eq, has_prefix, trim_prefix, to_lower}
use microservice_log_parser.Prelude.Result.{ok, Result-cases, ok_injective}
use microservice_log_parser.Parser.Record.{Record}
use microservice_log_parser.Parser.Sections.{
  Row, Section, Scan, start, keep_section, flush, add_if_filled, row_to_record, section_row,
  start_prefix, end_prefix, open_section, close_section, plain_row, is_meta_row,
  normalize_section_marker, scan_row, scan_rows, end_scan, split_sections,
}

-- A section with a name and at least one record, each of its records with at least one field.
abbrev pub IsFilled : Section → Type 0
IsFilled s = (s.name ≢ []) × (s.records ≢ []) × All (λ r. r ≢ []) s.records

abbrev IsFilledScan : Scan → Type 0
IsFilledScan s = All IsFilled s.sections × All (λ r. r ≢ []) s.current_records

keep_section-IsFilled :
    (name : Text) (records : List Record) (sections : List Section)
    → All IsFilled sections
    → All (λ r. r ≢ []) records
    → All IsFilled (keep_section name records sections)
keep_section-IsFilled [] records sections h k = h
keep_section-IsFilled (c ∷ name) [] sections h k = h
keep_section-IsFilled (c ∷ name) (r ∷ records) sections h k =
    All-append IsFilled sections _ h (((λ e. cc e), (λ e. cc e), k), tt)

flush-IsFilled : (s : Scan) → IsFilledScan s → IsFilledScan (flush s)
unfolding flush
flush-IsFilled s (h, k) =
    (keep_section-IsFilled s.current_name s.current_records s.sections h k, tt)

add_if_filled-filled :
    (rec : Record) (records : List Record)
    → All (λ r. r ≢ []) records
    → All (λ r. r ≢ []) (add_if_filled rec records)
unfolding add_if_filled
add_if_filled-filled [] records h = h
add_if_filled-filled (e ∷ rec) records h = All-append (λ r. r ≢ []) records _ h ((λ p. cc p), tt)

section_row-IsFilled :
    (header row : Row) (s t : Scan)
    → section_row header row s ≡ ok t
    → IsFilledScan s
    → IsFilledScan t
unfolding section_row
section_row-IsFilled [] row s t e h = subst IsFilledScan (ok_injective _ t e) h
section_row-IsFilled (x ∷ header) row s t e (h, k) =
    elim (Result-cases (row_to_record (x ∷ header) row)) [
      | inr (x', f) ↦ absurd (ground (arith, f))
      | inl (rec, f) ↦
          let done = rw (f) at e in
          subst IsFilledScan (ok_injective _ t done)
            (h, add_if_filled-filled rec s.current_records k)
    ]

plain_row-IsFilled :
    (row : Row) (s t : Scan) → plain_row row s ≡ ok t → IsFilledScan s → IsFilledScan t
unfolding plain_row
plain_row-IsFilled row s t e h = elim (Bool-cases (s.current_name == [])) [
  | inl outside ↦ subst IsFilledScan (ok_injective _ t (rw (outside) at e)) h
  | inr inside ↦ elim (Bool-cases (is_meta_row row)) [
    | inl meta ↦ subst IsFilledScan (ok_injective _ t (rw (inside, meta) at e)) h
    | inr data_row ↦ section_row-IsFilled s.current_header row s t (rw (inside, data_row) at e) h
  ]
]

close_section-IsFilled :
    (marker : Text) (s t : Scan) → close_section marker s ≡ ok t → IsFilledScan s → IsFilledScan t
unfolding close_section
close_section-IsFilled marker s t e h = elim (Bool-cases (s.current_name == [])) [
  | inl outside ↦ absurd (ground (arith, outside))
  | inr inside ↦ elim (Bool-cases (to_lower (trim_prefix marker end_prefix) == s.current_name)) [
    | inl same ↦ subst IsFilledScan (ok_injective _ t (rw (inside, same) at e)) (flush-IsFilled s h)
    | inr other ↦ absurd (ground (arith, inside, other))
  ]
]

open_section-IsFilled :
    (marker : Text) (s t : Scan) → open_section marker s ≡ ok t → IsFilledScan s → IsFilledScan t
unfolding open_section
open_section-IsFilled marker s t e h = subst IsFilledScan (ok_injective _ t e) (flush-IsFilled s h)

scan_row-IsFilled :
    (row : Row) (s t : Scan) → scan_row row s ≡ ok t → IsFilledScan s → IsFilledScan t
unfolding scan_row
scan_row-IsFilled [] s t e h = subst IsFilledScan (ok_injective _ t e) h
scan_row-IsFilled (first ∷ row) s t e h =
    let marker = normalize_section_marker first in
    elim (Bool-cases (has_prefix marker start_prefix)) [
      | inl opens ↦ open_section-IsFilled marker s t (rw (opens) at e) h
      | inr no_start ↦ elim (Bool-cases (has_prefix marker end_prefix)) [
        | inl closes ↦ close_section-IsFilled marker s t (rw (no_start, closes) at e) h
        | inr plain ↦ plain_row-IsFilled (first ∷ row) s t (rw (no_start, plain) at e) h
      ]
    ]

scan_rows-IsFilled :
    (rows : List Row) (s t : Scan) → scan_rows rows s ≡ ok t → IsFilledScan s → IsFilledScan t
unfolding scan_rows
scan_rows-IsFilled [] s t e h = subst IsFilledScan (ok_injective _ t e) h
scan_rows-IsFilled (row ∷ rows) s t e h = elim (Result-cases (scan_row row s)) [
  | inr (x, f) ↦ absurd (ground (arith, f))
  | inl (u, f) ↦ scan_rows-IsFilled rows u t (rw (f) at e) (scan_row-IsFilled row s u f h)
]

-- Each section that is split off has a name that is not empty and at least one record, and each of its
-- records has at least one field.
pub split_sections-IsFilled :
    (rows : List Row) (sections : List Section)
    → split_sections rows ≡ ok sections
    → All IsFilled sections
unfolding split_sections end_scan
split_sections-IsFilled rows sections e = elim (Result-cases (scan_rows rows start)) [
  | inr (x, f) ↦ absurd (ground (arith, f))
  | inl (s, f) ↦ elim (Bool-cases (s.current_name == [])) [
    | inr still_open ↦ absurd (ground (arith, f, still_open))
    | inl closed ↦
        let done = ok_injective _ sections (rw (f, closed) at e) in
        subst (All IsFilled) done (flush-IsFilled s (scan_rows-IsFilled rows start s f (tt, tt))).0
  ]
]
