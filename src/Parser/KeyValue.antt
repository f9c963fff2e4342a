-- ===== src/Parser/KeyValue.antt =====
-- `parseKeyValueSections` and `splitKeyValue` of log-services/parser/parser/section.go. No line is as
-- long as the scanner's buffer, which has the size of the largest file.
use microservice_log_parser.Prelude.{
  ℕ, List, [], ◌∷◌, ◌++◌, ◌||◌, Option, none, some, if◌then◌else◌,
}
use microservice_log_parser.Prelude.Eq.{◌==◌}
use microservice_log_parser.Prelude.Text.{
  Text, codes, text_beq, text_eq, trim_space, trim, has_prefix, cut,
}
use microservice_log_parser.Prelude.Assoc.{insert}
use microservice_log_parser.Prelude.Result.{Result, ok, err, ◌>>=◌}
use microservice_log_parser.Parser.Model.{Error, parse_error, SourceFile, ParsedLog}
use microservice_log_parser.Parser.Record.{Record, is_quote}
use microservice_log_parser.Parser.Classify.{records_to_parsed_log}
use microservice_log_parser.Parser.Sections.{lines}

-- The two sides of a line around its separator.
key_and_value : Text × Text → Option (Text × Text)
unfolding trim_space trim text_beq
key_and_value (left, right) =
    let key = trim_space left in
    if key == [] then none else some (key, trim is_quote (trim_space right))

cut_at : List ℕ → Text → Option (Text × Text)
unfolding cut key_and_value
cut_at [] line = none
cut_at (sep ∷ seps) line = elim (cut line sep) [
  | none ↦ cut_at seps line
  | some sides ↦ key_and_value sides
]

unfoldable pub split_key_value : Text → Option (Text × Text)
unfolding cut_at has_prefix
split_key_value line = if has_prefix line (codes "#") then none else cut_at (b':' ∷ b'=' ∷ []) line

-- `records` and `current`.
pub record Collect : Type 0 where
  pub records : List Record
  pub current : Record

flush_record : Record → List Record → List Record
flush_record [] records = records
flush_record (e ∷ current) records = records ++ (e ∷ current) ∷ []

unfoldable pub flush : Collect → Collect
unfolding flush_record
flush c = record { records = flush_record c.current c.records; current = [] }

add_pair : Option (Text × Text) → Collect → Result Error Collect
unfolding insert text_beq
add_pair none c = err parse_error
add_pair (some (key, value)) c = ok (record c { current = insert key value c.current })

-- One line, trimmed.
unfoldable pub collect_line : Text → Collect → Result Error Collect
unfolding flush add_pair split_key_value has_prefix text_beq
collect_line line c =
    if (line == []) || has_prefix line (codes "---")
    then ok (flush c)
    else if has_prefix line (codes "#")
    then ok c
    else add_pair (split_key_value line) c

collect_lines : List Text → Collect → Result Error Collect
unfolding collect_line trim_space
collect_lines [] c = ok c
collect_lines (line ∷ rest) c = do c' ← collect_line (trim_space line) c; collect_lines rest c'

unfoldable pub parse_key_value_sections : SourceFile → Result Error ParsedLog
unfolding collect_lines flush lines records_to_parsed_log
parse_key_value_sections file = do
  c ← collect_lines (lines file.content) (record { records = []; current = [] })
  records_to_parsed_log file.name (flush c).records
