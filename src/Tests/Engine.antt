-- ===== src/Tests/Engine.antt =====
-- A file of key and value lines through the whole parser.
use microservice_log_parser.Prelude.{
  ℕ, List, [], ◌∷◌, ◌++◌, ◌≡◌, ◌≢◌, refl, Bool, false, Option, none,
}
use microservice_log_parser.Prelude.Int.{pos}
use microservice_log_parser.Prelude.Text.{Text, codes}
use microservice_log_parser.Prelude.Result.{Result, ok}
use microservice_log_parser.Parser.Model.{Error, ParsedLog, SourceFile}
use microservice_log_parser.Parser.Sections.{Row}
use microservice_log_parser.Parser.Engine.{parse}
use microservice_log_parser.Parser.Engine.Parsed.{parse-IsConsistent}
use microservice_log_parser.Parser.Finalize.Consistent.{IsConsistent}

abbrev no_csv : ℕ → Text → Option (List Row)
no_csv comma content = none

abbrev never : SourceFile → Bool
never file = false

abbrev one_file : Text → Result Error (List SourceFile)
one_file path = ok (
    record {
      name = path;
      content =
          codes "---"
          ++ (b'\n' ∷ codes "NodeGUID: 0x1")
          ++ (b'\n' ∷ codes "NodeDesc = my switch")
          ++ (b'\n' ∷ codes "NumPorts: 36");
    }
    ∷ [])

abbrev pub parsed : ParsedLog
parsed = record {
  nodes =
      record {
        node_guid = codes "0x1";
        node_desc = codes "my switch";
        node_type = pos 0;
        node_kind = codes "switch";
        num_ports = pos 36;
        class_version = pos 0;
        base_version = pos 0;
        system_image_guid = [];
        port_guid = [];
        raw_json = codes "{\"NodeDesc\":\"my switch\",\"NodeGUID\":\"0x1\",\"NumPorts\":\"36\"}";
      }
      ∷ [];
  ports = [];
  nodes_info = [];
}

parses : parse no_csv never one_file (codes "a.log") ≡ ok parsed
unfolding parse
parses = refl

parse-IsConsistent_example : (parsed.nodes ≢ []) × IsConsistent parsed
parse-IsConsistent_example = parse-IsConsistent no_csv never one_file (codes "a.log") parsed parses
