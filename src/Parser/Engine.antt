-- ===== src/Parser/Engine.antt =====
-- `parseFile`, `parseFiles` and `Parse` of log-services/parser/parser/engine.go, and `Parse` of
-- log-services/parser/core/service.go. Parameters: encoding/csv; what the source of a path is, such as
-- `Archive.Sources.source_of` with its `resolvePath` and `readSource`; and whether the context is done
-- when the loop comes to a file.
pub mod Parsed
use microservice_log_parser.Prelude.{ℕ, List, [], ◌∷◌, Bool, ◌||◌, Option, if◌then◌else◌}
use microservice_log_parser.Prelude.Eq.{◌==◌}
use microservice_log_parser.Prelude.Text.{
  Text, codes, text_beq, text_eq, trim_space, to_lower, has_suffix, text_contains,
}
use microservice_log_parser.Prelude.Result.{Result, ok, err, ◌>>=◌}
use microservice_log_parser.Parser.Model.{
  Error, bad_arguments, parse_error, other, SourceFile, ParsedLog, Node,
}
use microservice_log_parser.Parser.Classify.{no_records}
use microservice_log_parser.Parser.Finalize.{finalize_parsed_log}
use microservice_log_parser.Parser.KeyValue.{parse_key_value_sections}
use microservice_log_parser.Parser.Sections.{Row, parse_csv, parse_dbcsv, append_log}

with_nodes : ParsedLog → List Node → Result Error ParsedLog
with_nodes parsed [] = err parse_error
with_nodes parsed (n ∷ nodes) = ok parsed

-- The finalised log, unless it has no node.
unfoldable pub finish_parse : ParsedLog → Result Error ParsedLog
unfolding with_nodes finalize_parsed_log
finish_parse parsed = let final = finalize_parsed_log parsed in with_nodes final final.nodes

module _ (read_all : ℕ → Text → Option (List Row)) where
  unfoldable pub parse_file : SourceFile → Result Error ParsedLog
  unfolding parse_csv parse_dbcsv parse_key_value_sections has_suffix text_contains to_lower
  parse_file file =
      let name = to_lower file.name in
      if has_suffix name (codes ".db_csv") || text_contains name (codes "db_csv")
      then parse_dbcsv read_all file
      else if has_suffix name (codes ".csv")
      then parse_csv read_all file
      else parse_key_value_sections file

  module _ (done : SourceFile → Bool) where
    parse_files_from : List SourceFile → ParsedLog → Result Error ParsedLog
    unfolding parse_file trim_space text_beq
    parse_files_from [] parsed = ok parsed
    parse_files_from (file ∷ files) parsed =
        let skipped = parse_files_from files parsed in
        if done file then err other else if trim_space file.content == [] then skipped else do
          file_parsed ← parse_file file
          parse_files_from files (append_log parsed file_parsed)

    unfoldable pub parse_files : List SourceFile → Result Error ParsedLog
    unfolding parse_files_from
    parse_files files = parse_files_from files no_records

    module _ (source_of : Text → Result Error (List SourceFile)) where
      unfoldable pub engine_parse : Text → Result Error ParsedLog
      unfolding parse_files finish_parse
      engine_parse path = do files ← source_of path; parsed ← parse_files files; finish_parse parsed

      -- The service: a blank path is refused before the engine is called.
      unfoldable pub parse : Text → Result Error ParsedLog
      unfolding engine_parse trim_space text_beq
      parse path = if trim_space path == [] then err bad_arguments else engine_parse path
