-- ===== src/Wire/RepositoryRpc/AppClient.antt =====
-- The app's client of the repository, log-services/app/adapters/repository/repository.go, over any
-- connection. `format_time` is `Format` at RFC 3339 in UTC.
use microservice_log_parser.Prelude.{List, [], Option, none, some}
use microservice_log_parser.Prelude.Int.{ℤ, pos}
use microservice_log_parser.Prelude.Text.{Text, text_eq}
use microservice_log_parser.Prelude.Result.{Result}
use microservice_log_parser.App.Model.{
  Log as AppLog, Node as AppNode, NodeInfo as AppNodeInfo, Port as AppPort,
  ParsedLog as AppParsedLog, SaveParsedLogResult as AppSaveParsedLogResult, Error as AppError,
  bad_arguments, not_found, unavailable, conflict, other, log_status_processing, log_status_parsed,
  log_status_failed,
}
use microservice_log_parser.App.Service.{Call}
use microservice_log_parser.Wire.Status.{
  Code, canceled, invalid_argument, deadline_exceeded, already_exists, missing, failed_precondition,
  aborted, unreachable, each, all_some, relay,
}
use microservice_log_parser.Wire.RepositoryRpc.Messages.{
  ParsedNode, ParsedPort, ParsedNodeInfo, ParsedLog, SaveParsedLogRequest, SaveParsedLogResponse,
  FailLogRequest, LogStatus, unspecified, processing, parsed, failed, Log, NodeInfo, NodeDetails,
  Port, IdRequest, CreateLogRequest,
}

unfoldable pub node_to_parsed : AppNode → ParsedNode
node_to_parsed node = record {
  node_guid = node.node_guid;
  node_desc = node.node_desc;
  node_type = node.node_type;
  node_kind = node.node_kind;
  num_ports = node.num_ports;
  class_version = node.class_version;
  base_version = node.base_version;
  system_image_guid = node.system_image_guid;
  port_guid = node.port_guid;
  raw_json = node.raw_json;
}

unfoldable pub port_to_parsed : AppPort → ParsedPort
port_to_parsed port = record {
  node_guid = port.node_guid;
  port_guid = port.port_guid;
  port_num = port.port_num;
  lid = port.lid;
  local_port_num = port.local_port_num;
  port_state = port.port_state;
  port_phy_state = port.port_phy_state;
  link_width_active = port.link_width_active;
  link_speed_active = port.link_speed_active;
  raw_json = port.raw_json;
}

unfoldable pub info_to_parsed : AppNodeInfo → ParsedNodeInfo
info_to_parsed info = record {
  node_guid = info.node_guid;
  serial_number = info.serial_number;
  part_number = info.part_number;
  revision = info.revision;
  product_name = info.product_name;
  raw_json = info.raw_json;
}

unfoldable pub parsed_log_to_proto : AppParsedLog → ParsedLog
unfolding all_some node_to_parsed port_to_parsed info_to_parsed
parsed_log_to_proto log = record {
  nodes = all_some node_to_parsed log.nodes;
  ports = all_some port_to_parsed log.ports;
  nodes_info = all_some info_to_parsed log.nodes_info;
}

unfoldable pub log_status_from_proto : LogStatus → Text
log_status_from_proto processing = log_status_processing
log_status_from_proto parsed = log_status_parsed
log_status_from_proto failed = log_status_failed
log_status_from_proto unspecified = []

unfoldable pub node_info_from_proto : Option NodeInfo → Option AppNodeInfo
node_info_from_proto none = none
node_info_from_proto (some info) = some (record {
  id = info.id;
  node_id = info.node_id;
  node_guid = info.node_guid;
  serial_number = info.serial_number;
  part_number = info.part_number;
  revision = info.revision;
  product_name = info.product_name;
  raw_json = info.raw_json;
})

unfoldable pub node_from_proto : NodeDetails → AppNode
unfolding node_info_from_proto
node_from_proto node = record {
  id = node.id;
  log_id = node.log_id;
  node_guid = node.node_guid;
  node_desc = node.node_desc;
  node_type = node.node_type;
  node_kind = node.node_kind;
  num_ports = node.num_ports;
  class_version = node.class_version;
  base_version = node.base_version;
  system_image_guid = node.system_image_guid;
  port_guid = node.port_guid;
  info = node_info_from_proto node.info;
  raw_json = node.raw_json;
}

unfoldable pub port_from_proto : Port → AppPort
port_from_proto port = record {
  id = port.id;
  log_id = port.log_id;
  node_id = port.node_id;
  node_guid = port.node_guid;
  port_guid = port.port_guid;
  port_num = port.port_num;
  lid = port.lid;
  local_port_num = port.local_port_num;
  port_state = port.port_state;
  port_phy_state = port.port_phy_state;
  link_width_active = port.link_width_active;
  link_speed_active = port.link_speed_active;
  raw_json = port.raw_json;
}

unfoldable pub nodes_from_proto : List (Option NodeDetails) → List AppNode
unfolding each node_from_proto
nodes_from_proto = each node_from_proto

unfoldable pub ports_from_proto : List (Option Port) → List AppPort
unfolding each port_from_proto
ports_from_proto = each port_from_proto

module _ {Instant : Type 0} (format_time : Instant → Text) where
  unfoldable pub timestamp_from_proto : Option Instant → Text
  timestamp_from_proto none = []
  timestamp_from_proto (some t) = format_time t

  unfoldable pub log_from_proto : Option (Log Instant) → AppLog
  unfolding log_status_from_proto timestamp_from_proto
  log_from_proto none = record {
    id = pos 0;
    file_path = [];
    status = [];
    nodes_count = pos 0;
    ports_count = pos 0;
    error = [];
    uploaded_at = [];
    parsed_at = [];
  }
  log_from_proto (some log) = record {
    id = log.id;
    file_path = log.file_path;
    status = log_status_from_proto log.status;
    nodes_count = log.nodes_count;
    ports_count = log.ports_count;
    error = log.error;
    uploaded_at = timestamp_from_proto log.uploaded_at;
    parsed_at = timestamp_from_proto log.parsed_at;
  }

module _ (status_text : Code → Text) where
  unfoldable pub map_grpc_error : Code → AppError
  map_grpc_error invalid_argument = bad_arguments
  map_grpc_error missing = not_found
  map_grpc_error failed_precondition = conflict
  map_grpc_error aborted = conflict
  map_grpc_error already_exists = conflict
  map_grpc_error unreachable = unavailable
  map_grpc_error deadline_exceeded = unavailable
  map_grpc_error canceled = unavailable
  map_grpc_error code = other (status_text code)

-- A call over the connection, with its effect on the other side.
abbrev pub Connection : Type 0 → Type 0 → Type 0 → Type 0
Connection S Req Resp = Option Req → S → Result Code Resp × S

module _ {S : Type 0} (status_text : Code → Text) where
  unfoldable pub call_create_log : Connection S CreateLogRequest IdRequest → Text → Call S ℤ
  unfolding map_grpc_error
  call_create_log connection path =
      relay (map_grpc_error status_text) (λ resp. resp.id)
        (connection (some (record { file_path = path })))

  unfoldable pub call_save_parsed_log :
      Connection S SaveParsedLogRequest SaveParsedLogResponse
      → ℤ
      → AppParsedLog
      → Call S AppSaveParsedLogResult
  unfolding map_grpc_error parsed_log_to_proto
  call_save_parsed_log connection log_id log =
      relay (map_grpc_error status_text)
        (λ r. record {
          log_id = r.log_id;
          nodes_count = r.nodes_count;
          ports_count = r.ports_count;
        })
        (connection
          (some (record { log_id = log_id; parsed_log = some (parsed_log_to_proto log) })))

  unfoldable pub call_fail_log : Connection S FailLogRequest Unit → ℤ → Text → Call S Unit
  unfolding map_grpc_error
  call_fail_log connection log_id text =
      relay (map_grpc_error status_text) (λ _. tt)
        (connection (some (record { log_id = log_id; error = text })))

  unfoldable pub call_get_log :
      {Instant : Type 0}
      → (Instant → Text)
      → Connection S IdRequest (Log Instant)
      → ℤ
      → Call S AppLog
  unfolding map_grpc_error log_from_proto
  call_get_log format_time connection log_id =
      relay (map_grpc_error status_text) (λ log. log_from_proto format_time (some log))
        (connection (some (record { id = log_id })))

  unfoldable pub call_get_node : Connection S IdRequest NodeDetails → ℤ → Call S AppNode
  unfolding map_grpc_error node_from_proto
  call_get_node connection node_id =
      relay (map_grpc_error status_text) node_from_proto
        (connection (some (record { id = node_id })))

  -- `GetNodesByLog`
  unfoldable pub call_get_nodes :
      Connection S IdRequest (List (Option NodeDetails)) → ℤ → Call S (List AppNode)
  unfolding map_grpc_error nodes_from_proto
  call_get_nodes connection log_id =
      relay (map_grpc_error status_text) nodes_from_proto
        (connection (some (record { id = log_id })))

  -- `GetPortsByNode` and `GetPortsByLog`
  unfoldable pub call_get_ports :
      Connection S IdRequest (List (Option Port)) → ℤ → Call S (List AppPort)
  unfolding map_grpc_error ports_from_proto
  call_get_ports connection id =
      relay (map_grpc_error status_text) ports_from_proto (connection (some (record { id = id })))
