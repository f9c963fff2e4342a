-- ===== src/Parser/Sections.antt =====
-- Rows and sections of a db_csv file: log-services/parser/parser/dbcsv.go. encoding/csv is a parameter:
-- what `ReadAll` makes of a text at a given separator, with `LazyQuotes`, `TrimLeadingSpace` and
-- rows of any length.
pub mod Closed
use microservice_log_parser.Prelude.{
  ℕ, suc, List, [], ◌∷◌, ◌++◌, Bool, true, false, not, ◌&&◌, ◌||◌, Option, none, some, map, length,
  drop, ltb, leb, if◌then◌else◌,
}
use microservice_log_parser.Prelude.Eq.{◌==◌, nat_eq, contains}
use microservice_log_parser.Prelude.Text.{
  Text, codes, text_beq, text_eq, trim_space, trim, to_lower, to_upper, has_prefix, trim_prefix,
  cut,
}
use microservice_log_parser.Prelude.Assoc.{insert}
use microservice_log_parser.Prelude.Result.{Result, ok, err, ◌>>=◌}
use microservice_log_parser.Parser.Model.{Error, parse_error, SourceFile, ParsedLog}
use microservice_log_parser.Parser.Record.{Record, is_quote}
use microservice_log_parser.Parser.Classify.{no_records, records_to_parsed_log}

abbrev pub Row : Type 0
Row = List Text

-- Whether a row has a field that is not blank.
has_value : Row → Bool
unfolding trim_space text_beq
has_value [] = false
has_value (f ∷ row) = not (trim_space f == []) || has_value row

-- `trimRow`; a row of blank fields is the nil row, of length 0.
unfoldable pub trim_row : Row → Row
unfolding has_value trim_space
trim_row row = if has_value row then map trim_space row else []

unfoldable pub normalize_section_marker : Text → Text
unfolding trim_space trim to_upper
normalize_section_marker value = to_upper (trim is_quote (trim_space value))

meta_first : Text → Bool
unfolding text_beq has_prefix contains
meta_first first =
    contains ([] ∷ codes "#" ∷ codes "comment" ∷ codes "comments" ∷ []) first
    || has_prefix first (codes "#")

-- `isDBCSVMetaRow`
unfoldable pub is_meta_row : Row → Bool
unfolding meta_first to_lower trim_space
is_meta_row [] = true
is_meta_row (first ∷ row) = meta_first (to_lower (trim_space first))

-- The first loop of `rowToRecord`: headers with the fields beside them.
fill_record : Row → Row → Record → Record
unfolding insert trim_space text_beq
fill_record [] row rec = rec
fill_record (h ∷ headers) [] rec = rec
fill_record (h ∷ headers) (f ∷ row) rec =
    fill_record headers row
      (if trim_space h == [] then rec else insert (trim_space h) (trim_space f) rec)

-- `rowToRecord`: a field past the headers that is not blank is an error.
unfoldable pub row_to_record : Row → Row → Result Error Record
unfolding fill_record has_value
row_to_record headers row =
    if has_value (drop (length headers) row)
    then err parse_error
    else ok (fill_record headers row [])

pub record Section : Type 0 where
  pub name : Text
  pub records : List Record

-- The variables of `splitDBCSVSections`. No section is open where the name is empty; a header is nil
-- until the first row of a section, and no row of the input is empty.
pub record Scan : Type 0 where
  pub sections : List Section
  pub current_name : Text
  pub current_header : Row
  pub current_records : List Record

abbrev pub start : Scan
start = record { sections = []; current_name = []; current_header = []; current_records = [] }

abbrev keep_section : Text → List Record → List Section → List Section
keep_section [] records sections = sections
keep_section (c ∷ name) [] sections = sections
keep_section (c ∷ name) (r ∷ records) sections =
    sections ++ record { name = c ∷ name; records = r ∷ records } ∷ []

unfoldable pub flush : Scan → Scan
flush s = record s {
  sections = keep_section s.current_name s.current_records s.sections;
  current_header = [];
  current_records = [];
}

add_if_filled : Record → List Record → List Record
add_if_filled [] records = records
add_if_filled (e ∷ rec) records = records ++ (e ∷ rec) ∷ []

-- A row inside a section that is no marker.
section_row : Row → Row → Scan → Result Error Scan
unfolding row_to_record add_if_filled
section_row [] row s = ok (record s { current_header = row })
section_row (h ∷ header) row s = do
  rec ← row_to_record (h ∷ header) row
  ok (record s { current_records = add_if_filled rec s.current_records })

abbrev start_prefix : Text
start_prefix = codes "START_"

abbrev end_prefix : Text
end_prefix = codes "END_"

open_section : Text → Scan → Result Error Scan
unfolding flush trim_prefix to_lower
open_section marker s =
    ok (record (flush s) { current_name = to_lower (trim_prefix marker start_prefix) })

close_section : Text → Scan → Result Error Scan
unfolding flush trim_prefix to_lower text_beq
close_section marker s =
    if s.current_name == []
    then err parse_error
    else if not (to_lower (trim_prefix marker end_prefix) == s.current_name)
    then err parse_error
    else ok (record (flush s) { current_name = [] })

plain_row : Row → Scan → Result Error Scan
unfolding section_row is_meta_row text_beq
plain_row row s =
    if s.current_name == []
    then ok s
    else if is_meta_row row
    then ok s
    else section_row s.current_header row s

-- One round of the loop of `splitDBCSVSections`.
unfoldable pub scan_row : Row → Scan → Result Error Scan
unfolding open_section close_section plain_row normalize_section_marker has_prefix
scan_row [] s = ok s
scan_row (first ∷ row) s =
    let marker = normalize_section_marker first in
    if has_prefix marker start_prefix
    then open_section marker s
    else if has_prefix marker end_prefix
    then close_section marker s
    else plain_row (first ∷ row) s

unfoldable pub scan_rows : List Row → Scan → Result Error Scan
unfolding scan_row
scan_rows [] s = ok s
scan_rows (row ∷ rows) s = do s' ← scan_row row s; scan_rows rows s'

-- The end of `splitDBCSVSections`: a section that is still open is an error.
unfoldable pub end_scan : Scan → Result Error (List Section)
unfolding flush text_beq
end_scan s = if not (s.current_name == []) then err parse_error else ok (flush s).sections

unfoldable pub split_sections : List Row → Result Error (List Section)
unfolding scan_rows end_scan
split_sections rows = do s ← scan_rows rows start; end_scan s

-- The lines of a text without their line feeds; there is none behind the last line feed.
lines_from : Text → Text → List Text
lines_from [] [] = []
lines_from (c ∷ cur) [] = (c ∷ cur) ∷ []
lines_from cur (c ∷ s) = elim (c == b'\n') [
  | true ↦ cur ∷ lines_from [] s
  | false ↦ lines_from (cur ++ c ∷ []) s
]

unfoldable pub lines : Text → List Text
unfolding lines_from
lines = lines_from []

-- `firstNonEmptyLine`; the scanner of the source gives up at a line of 64 KiB.
unfoldable pub first_non_empty_line : List Text → Text
unfolding trim_space text_beq
first_non_empty_line [] = []
first_non_empty_line (l ∷ ls) =
    let rest = first_non_empty_line ls in
    if leb 65536 (length l) then [] else if trim_space l == [] then rest else trim_space l

unfoldable pub count_byte : ℕ → Text → ℕ
count_byte c [] = 0
count_byte c (d ∷ s) = if c == d then suc (count_byte c s) else count_byte c s

-- The three appends of the loops over sections and over files.
abbrev pub append_log : ParsedLog → ParsedLog → ParsedLog
append_log a b = record {
  nodes = a.nodes ++ b.nodes;
  ports = a.ports ++ b.ports;
  nodes_info = a.nodes_info ++ b.nodes_info;
}

module _ (read_all : ℕ → Text → Option (List Row)) where
  clean_rows : List Row → List Row
  unfolding trim_row
  clean_rows [] = []
  clean_rows (row ∷ rows) = elim (trim_row row) [
    | [] ↦ clean_rows rows
    | f ∷ fs ↦ (f ∷ fs) ∷ clean_rows rows
  ]

  rows_or_error : Option (List Row) → Result Error (List Row)
  unfolding clean_rows
  rows_or_error none = err parse_error
  rows_or_error (some rows) = ok (clean_rows rows)

  -- `readDelimitedRows`: semicolons separate if the first line has more of them than commas.
  unfoldable pub read_delimited_rows : Text → Result Error (List Row)
  unfolding rows_or_error first_non_empty_line lines count_byte
  read_delimited_rows content =
      let first = first_non_empty_line (lines content) in
      let comma = if ltb (count_byte b',' first) (count_byte b';' first) then b';' else b',' in
      rows_or_error (read_all comma content)

  rows_to_records : Row → List Row → Result Error (List Record)
  unfolding row_to_record add_if_filled
  rows_to_records headers [] = ok []
  rows_to_records headers (row ∷ rows) = do
    rec ← row_to_record headers row
    records ← rows_to_records headers rows
    ok (add_if_filled rec [] ++ records)

  csv_records : Text → List Row → Result Error ParsedLog
  unfolding rows_to_records records_to_parsed_log
  csv_records name [] = ok no_records
  csv_records name (headers ∷ []) = ok no_records
  csv_records name (headers ∷ row ∷ rows) = do
    records ← rows_to_records headers (row ∷ rows)
    records_to_parsed_log name records

  -- `parseCSV`
  unfoldable pub parse_csv : SourceFile → Result Error ParsedLog
  unfolding read_delimited_rows csv_records
  parse_csv file = do rows ← read_delimited_rows file.content; csv_records file.name rows

  parse_sections : Text → List Section → ParsedLog → Result Error ParsedLog
  unfolding records_to_parsed_log
  parse_sections name [] parsed = ok parsed
  parse_sections name (section ∷ sections) parsed = do
    section_parsed ← records_to_parsed_log (name ++ (b'/' ∷ section.name)) section.records
    parse_sections name sections (append_log parsed section_parsed)

  sections_or_csv : SourceFile → List Section → Result Error ParsedLog
  unfolding parse_csv parse_sections
  sections_or_csv file [] = parse_csv file
  sections_or_csv file (s ∷ sections) = parse_sections file.name (s ∷ sections) no_records

  -- `parseDBCSV`: a table with no section is read as plain CSV.
  unfoldable pub parse_dbcsv : SourceFile → Result Error ParsedLog
  unfolding read_delimited_rows split_sections sections_or_csv
  parse_dbcsv file = do
    rows ← read_delimited_rows file.content
    sections ← split_sections rows
    sections_or_csv file sections
