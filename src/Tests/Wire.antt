-- ===== src/Tests/Wire.antt =====
-- Logs, errors and topologies that cross between the services.
use microservice_log_parser.Prelude.{[], ◌∷◌, ◌≡◌, refl, inl, inr, map, Option, none, some}
use microservice_log_parser.Prelude.Int.{ℤ, pos}
use microservice_log_parser.Prelude.Text.{Text, codes}
use microservice_log_parser.Prelude.Result.{Result, ok, err}
use microservice_log_parser.App.Model.{not_found}
use microservice_log_parser.Parser.Model.{
  Error as ParserError, not_found as missing_source, ParsedLog as EngineLog,
}
use microservice_log_parser.Topology.Model.{
  Error as TopologyError, not_found as no_log, TopologyResult,
}
use microservice_log_parser.Repository.Model.{Log, Node, ParsedLog, log_status_parsed}
use microservice_log_parser.Wire.Status.{Code}
use microservice_log_parser.Wire.ParserRpc
use microservice_log_parser.Wire.ParserRpc.RoundTrip as ParserTrip
use microservice_log_parser.Wire.TopologyRpc
use microservice_log_parser.Wire.TopologyRpc.RoundTrip as TopologyTrip
use microservice_log_parser.Wire.RepositoryRpc.Server
use microservice_log_parser.Wire.RepositoryRpc.AppClient
use microservice_log_parser.Wire.RepositoryRpc.RoundTrip.{
  parsed_log, stored_node, stored_log, parsed_log_arrives, stored_nodes_arrive, stored_log_arrives,
}
use microservice_log_parser.Tests.Engine

abbrev pub no_text : Code → Text
no_text code = []

-- The parser of the test knows one path.
abbrev pub parse_one : Text → Result ParserError EngineLog
parse_one path = ok Engine.parsed

abbrev pub parse_none : Text → Result ParserError EngineLog
parse_none path = err missing_source

call_parse-Arrives_example :
    ParserTrip.Arrives no_text
      (parse_one (codes "a.log"))
      (ParserRpc.call_parse no_text (ParserRpc.serve_parse parse_one) (codes "a.log"))
call_parse-Arrives_example = ParserTrip.call_parse-Arrives no_text parse_one (codes "a.log")

missing_arrives :
    ParserRpc.call_parse no_text (ParserRpc.serve_parse parse_none) (codes "a.log") ≡ err not_found
unfolding ParserRpc.call_parse ParserRpc.serve_parse
missing_arrives = refl

abbrev no_topology : ℤ → Result TopologyError TopologyResult
no_topology log_id = err no_log

call_get_topology-Arrives_example :
    TopologyTrip.Arrives no_text
      (no_topology (pos 7))
      (TopologyRpc.call_get_topology no_text (TopologyRpc.serve_get_topology no_topology) (pos 7))
call_get_topology-Arrives_example =
    TopologyTrip.call_get_topology-Arrives no_text no_topology (pos 7)

parsed_log_arrives_example :
    (r : ParsedLog) × (Server.parsed_log_from_proto (
        some (
          AppClient.parsed_log_to_proto
            (ParserRpc.parsed_log_from_proto (some (ParserRpc.parsed_log_to_proto Engine.parsed)))))
      ≡ ok r)
    × (parsed_log r ≡ Engine.parsed)
parsed_log_arrives_example = parsed_log_arrives Engine.parsed

abbrev node : Node
node = record {
  id = pos 3;
  log_id = pos 1;
  node_guid = codes "0x1";
  node_desc = codes "a";
  node_type = pos 1;
  node_kind = codes "host";
  num_ports = pos 2;
  class_version = pos 1;
  base_version = pos 1;
  system_image_guid = [];
  port_guid = [];
  raw_json = codes "{}";
  info = none;
}

stored_nodes_arrive_example :
    map stored_node (AppClient.nodes_from_proto (Server.nodes_to_proto (node ∷ node ∷ [])))
    ≡ node ∷ node ∷ []
stored_nodes_arrive_example = stored_nodes_arrive (node ∷ node ∷ [])

-- Times are passed on as they are.
abbrev pub as_is : Text → Option Text
as_is value = some value

abbrev log : Log
log = record {
  id = pos 1;
  file_path = codes "a.log";
  status = log_status_parsed;
  nodes_count = pos 2;
  ports_count = pos 0;
  error = [];
  uploaded_at = codes "t0";
  parsed_at = [];
}

stored_log_arrives_example :
    stored_log (AppClient.log_from_proto (λ t. t) (some (Server.log_to_proto as_is log))) ≡ log
stored_log_arrives_example =
    stored_log_arrives as_is (λ t. t) log (inr (inl refl)) (inr (codes "t0", refl, refl)) (inl refl)
