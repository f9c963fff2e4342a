-- ===== src/Wire/RepositoryRpc/TopologyClient.antt =====
-- The topology's client of the repository, log-services/topology/adapters/repository/repository.go. It keeps
-- less of a node and of a port than the message holds.
use microservice_log_parser.Prelude.{List, [], Option, none, some}
use microservice_log_parser.Prelude.Int.{ℤ, pos}
use microservice_log_parser.Prelude.Text.{Text, text_eq}
use microservice_log_parser.Prelude.Result.{Result}
use microservice_log_parser.Topology.Model.{
  Log as TopLog, Node as TopNode, NodeInfo as TopNodeInfo, Port as TopPort,
  TopologyData as TopTopologyData, Error as TopError, bad_arguments, not_found, unavailable,
  log_not_parsed, other, log_status_processing, log_status_parsed, log_status_failed,
}
use microservice_log_parser.Wire.Status.{
  Code, canceled, invalid_argument, deadline_exceeded, missing, failed_precondition, unreachable,
  each, relay,
}
use microservice_log_parser.Wire.RepositoryRpc.Messages.{
  LogStatus, unspecified, processing, parsed, failed, Log, NodeInfo, NodeDetails, Port,
  TopologyDataResponse, IdRequest,
}

unfoldable pub log_status_from_proto : LogStatus → Text
log_status_from_proto processing = log_status_processing
log_status_from_proto parsed = log_status_parsed
log_status_from_proto failed = log_status_failed
log_status_from_proto unspecified = []

unfoldable pub info_from_proto : Option NodeInfo → Option TopNodeInfo
info_from_proto none = none
info_from_proto (some info) =
    some (record { serial_number = info.serial_number; product_name = info.product_name })

unfoldable pub node_from_proto : NodeDetails → TopNode
unfolding info_from_proto
node_from_proto node = record {
  id = node.id;
  log_id = node.log_id;
  node_guid = node.node_guid;
  node_desc = node.node_desc;
  node_type = node.node_type;
  node_kind = node.node_kind;
  num_ports = node.num_ports;
  info = info_from_proto node.info;
}

unfoldable pub port_from_proto : Port → TopPort
port_from_proto port = record {
  id = port.id;
  log_id = port.log_id;
  node_id = port.node_id;
  node_guid = port.node_guid;
  port_guid = port.port_guid;
  port_num = port.port_num;
  port_state = port.port_state;
  link_width_active = port.link_width_active;
  link_speed_active = port.link_speed_active;
}

unfoldable pub nodes_from_proto : List (Option NodeDetails) → List TopNode
unfolding each node_from_proto
nodes_from_proto = each node_from_proto

unfoldable pub ports_from_proto : List (Option Port) → List TopPort
unfolding each port_from_proto
ports_from_proto = each port_from_proto

unfoldable pub map_grpc_error : Code → TopError
map_grpc_error invalid_argument = bad_arguments
map_grpc_error missing = not_found
map_grpc_error failed_precondition = log_not_parsed
map_grpc_error unreachable = unavailable
map_grpc_error deadline_exceeded = unavailable
map_grpc_error canceled = unavailable
map_grpc_error code = other

-- A call over the connection, with its effect on the other side.
abbrev pub Connection : Type 0 → Type 0 → Type 0
Connection S Resp = Option IdRequest → S → Result Code Resp × S

module _ {S : Type 0} where
  unfoldable pub call_get_nodes_by_log :
      Connection S (List (Option NodeDetails)) → ℤ → S → Result TopError (List TopNode) × S
  unfolding map_grpc_error nodes_from_proto
  call_get_nodes_by_log connection log_id =
      relay map_grpc_error nodes_from_proto (connection (some (record { id = log_id })))

  unfoldable pub call_get_ports_by_log :
      Connection S (List (Option Port)) → ℤ → S → Result TopError (List TopPort) × S
  unfolding map_grpc_error ports_from_proto
  call_get_ports_by_log connection log_id =
      relay map_grpc_error ports_from_proto (connection (some (record { id = log_id })))

module _ {Instant : Type 0} (format_time : Instant → Text) where
  unfoldable pub timestamp_from_proto : Option Instant → Text
  timestamp_from_proto none = []
  timestamp_from_proto (some t) = format_time t

  unfoldable pub log_from_proto : Option (Log Instant) → TopLog
  unfolding log_status_from_proto timestamp_from_proto
  log_from_proto none = record {
    id = pos 0;
    file_path = [];
    status = [];
    nodes_count = pos 0;
    ports_count = pos 0;
    error = [];
    uploaded_at = [];
    parsed_at = [];
  }
  log_from_proto (some log) = record {
    id = log.id;
    file_path = log.file_path;
    status = log_status_from_proto log.status;
    nodes_count = log.nodes_count;
    ports_count = log.ports_count;
    error = log.error;
    uploaded_at = timestamp_from_proto log.uploaded_at;
    parsed_at = timestamp_from_proto log.parsed_at;
  }

  unfoldable pub call_get_log :
      {S : Type 0} → Connection S (Log Instant) → ℤ → S → Result TopError TopLog × S
  unfolding map_grpc_error log_from_proto
  call_get_log connection log_id =
      relay map_grpc_error (λ log. log_from_proto (some log))
        (connection (some (record { id = log_id })))

  unfoldable pub topology_data_from_proto : TopologyDataResponse Instant → TopTopologyData
  unfolding log_from_proto nodes_from_proto ports_from_proto
  topology_data_from_proto resp = record {
    log = log_from_proto resp.log;
    nodes = nodes_from_proto resp.nodes;
    ports = ports_from_proto resp.ports;
  }

  unfoldable pub call_get_topology_data :
      {S : Type 0}
      → Connection S (TopologyDataResponse Instant)
      → ℤ
      → S
      → Result TopError TopTopologyData × S
  unfolding map_grpc_error topology_data_from_proto
  call_get_topology_data connection log_id =
      relay map_grpc_error topology_data_from_proto (connection (some (record { id = log_id })))
