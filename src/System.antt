-- ===== src/System.antt =====
-- The four services wired together as log-services/app/main.go and log-services/topology/main.go wire
-- them: the gateway calls the parser, the repository and the topology service over gRPC, and the
-- topology service calls the repository. Parameters are the engine of the parser, the texts of gRPC
-- statuses, and reading and writing times. Every call arrives and is answered.
pub mod Keeping
pub mod ParseLog
pub mod Settled
pub mod Reads
use microservice_log_parser.Prelude.{List, Option, if◌then◌else◌}
use microservice_log_parser.Prelude.Int.{ℤ, is_positive}
use microservice_log_parser.Prelude.Text.{Text}
use microservice_log_parser.Prelude.Result.{Result}
use microservice_log_parser.Parser.Model.{ParsedLog as EngineLog, Error as EngineError}
use microservice_log_parser.App.Model.{Topology, ParsedLog, ParseLogResult}
use microservice_log_parser.App.Service.{Call, Ports, parse_log}
use microservice_log_parser.Topology.Model.{TopologyData, Error as TopologyError}
use microservice_log_parser.Topology.Service as TopologyService
use microservice_log_parser.Repository.World.{World}
use microservice_log_parser.Wire.Status.{Code}
use microservice_log_parser.Wire.ParserRpc.{serve_parse, call_parse}
use microservice_log_parser.Wire.TopologyRpc.{serve_get_topology, call_get_topology}
use microservice_log_parser.Wire.RepositoryRpc.Server
use microservice_log_parser.Wire.RepositoryRpc.AppClient
use microservice_log_parser.Wire.RepositoryRpc.TopologyClient

module _ {Instant : Type 0} (parse_time : Text → Option Instant) (format_time : Instant → Text)
    (status_text : Code → Text) where
  -- The topology service's client of the repository.
  loaded : ℤ → World → Result TopologyError TopologyData × World
  unfolding TopologyClient.call_get_topology_data Server.serve_get_topology_data
  loaded =
      TopologyClient.call_get_topology_data format_time (Server.serve_get_topology_data parse_time)

  -- The repository is asked where the topology service does not refuse the id.
  unfoldable pub topology_service : ℤ → Call World Topology
  unfolding loaded serve_get_topology call_get_topology TopologyService.get_topology
  topology_service log_id w = (
    call_get_topology status_text
        (serve_get_topology (TopologyService.get_topology (λ id. (loaded id w).0))) log_id,
    if is_positive log_id then (loaded log_id w).1 else w,
  )

  module _ (parse : Text → Result EngineError EngineLog) where
    unfoldable pub parser_service : Text → Call World ParsedLog
    unfolding serve_parse call_parse
    parser_service path w = (call_parse status_text (serve_parse parse) path, w)

    unfoldable pub services : Ports World
    unfolding parser_service topology_service AppClient.call_create_log
        AppClient.call_save_parsed_log AppClient.call_fail_log AppClient.call_get_log
        AppClient.call_get_node AppClient.call_get_nodes AppClient.call_get_ports
        Server.serve_create_log Server.serve_save_parsed_log Server.serve_fail_log
        Server.serve_get_log Server.serve_get_node Server.serve_get_nodes_by_log
        Server.serve_get_ports_by_log Server.serve_get_ports_by_node
    services = record {
      create_log = AppClient.call_create_log status_text Server.serve_create_log;
      save_parsed_log = AppClient.call_save_parsed_log status_text Server.serve_save_parsed_log;
      fail_log = AppClient.call_fail_log status_text Server.serve_fail_log;
      get_log = AppClient.call_get_log status_text format_time (Server.serve_get_log parse_time);
      get_node = AppClient.call_get_node status_text Server.serve_get_node;
      get_ports_by_node = AppClient.call_get_ports status_text Server.serve_get_ports_by_node;
      get_nodes_by_log = AppClient.call_get_nodes status_text Server.serve_get_nodes_by_log;
      get_ports_by_log = AppClient.call_get_ports status_text Server.serve_get_ports_by_log;
      parse = parser_service;
      get_topology = topology_service;
    }

    -- `ParseLog` of the gateway, over the other services.
    unfoldable pub gateway_parse_log : Text → Call World ParseLogResult
    unfolding services parse_log
    gateway_parse_log = parse_log services
