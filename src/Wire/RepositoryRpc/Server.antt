-- ===== src/Wire/RepositoryRpc/Server.antt =====
-- The server log-services/repository/adapters/grpc/server.go. `parse_time` is `time.Parse` at RFC 3339.
use microservice_log_parser.Prelude.{List, [], Option, none, some}
use microservice_log_parser.Prelude.Int.{ℤ, pos}
use microservice_log_parser.Prelude.Text.{Text, text_beq, text_eq}
use microservice_log_parser.Prelude.Result.{Result, ok, err}
use microservice_log_parser.Prelude.Eq.{◌==◌}
use microservice_log_parser.Prelude.{if◌then◌else◌}
use microservice_log_parser.Repository.Model.{
  Log as CoreLog, Node as CoreNode, NodeInfo as CoreNodeInfo, Port as CorePort,
  ParsedLog as CoreParsedLog, SaveParsedLogResult as CoreSaveParsedLogResult,
  TopologyData as CoreTopologyData, Error as CoreError, bad_arguments, not_found, unavailable,
  invalid_status, other, log_status_processing, log_status_parsed, log_status_failed,
}
use microservice_log_parser.Repository.World.{World, M, fail}
use microservice_log_parser.Repository.Service
use microservice_log_parser.Wire.Status.{
  Code, invalid_argument, missing, failed_precondition, internal, unreachable, each, all_some,
  relay,
}
use microservice_log_parser.Wire.RepositoryRpc.Messages.{
  ParsedNode, ParsedPort, ParsedNodeInfo, ParsedLog, SaveParsedLogRequest, SaveParsedLogResponse,
  FailLogRequest, LogStatus, unspecified, processing, parsed, failed, Log, NodeInfo, NodeDetails,
  Port, TopologyDataResponse, IdRequest, CreateLogRequest,
}

unfoldable pub node_from_parsed : ParsedNode → CoreNode
node_from_parsed node = record {
  node_guid = node.node_guid;
  node_desc = node.node_desc;
  node_type = node.node_type;
  node_kind = node.node_kind;
  num_ports = node.num_ports;
  class_version = node.class_version;
  base_version = node.base_version;
  system_image_guid = node.system_image_guid;
  port_guid = node.port_guid;
  raw_json = node.raw_json;
  id = pos 0;
  log_id = pos 0;
  info = none;
}

unfoldable pub port_from_parsed : ParsedPort → CorePort
port_from_parsed port = record {
  node_guid = port.node_guid;
  port_guid = port.port_guid;
  port_num = port.port_num;
  lid = port.lid;
  local_port_num = port.local_port_num;
  port_state = port.port_state;
  port_phy_state = port.port_phy_state;
  link_width_active = port.link_width_active;
  link_speed_active = port.link_speed_active;
  raw_json = port.raw_json;
  id = pos 0;
  log_id = pos 0;
  node_id = pos 0;
}

unfoldable pub info_from_parsed : ParsedNodeInfo → CoreNodeInfo
info_from_parsed info = record {
  node_guid = info.node_guid;
  serial_number = info.serial_number;
  part_number = info.part_number;
  revision = info.revision;
  product_name = info.product_name;
  raw_json = info.raw_json;
  id = pos 0;
  node_id = pos 0;
}

unfoldable pub parsed_log_from_proto : Option ParsedLog → Result CoreError CoreParsedLog
unfolding each node_from_parsed port_from_parsed info_from_parsed
parsed_log_from_proto none = err bad_arguments
parsed_log_from_proto (some log) = ok (record {
  nodes = each node_from_parsed log.nodes;
  ports = each port_from_parsed log.ports;
  nodes_info = each info_from_parsed log.nodes_info;
})

unfoldable pub log_status_to_proto : Text → LogStatus
unfolding text_beq
log_status_to_proto status =
    if status == log_status_processing
    then processing
    else if status == log_status_parsed
    then parsed
    else if status == log_status_failed
    then failed
    else unspecified

unfoldable pub node_info_to_proto : Option CoreNodeInfo → Option NodeInfo
node_info_to_proto none = none
node_info_to_proto (some info) = some (record {
  id = info.id;
  node_id = info.node_id;
  node_guid = info.node_guid;
  serial_number = info.serial_number;
  part_number = info.part_number;
  revision = info.revision;
  product_name = info.product_name;
  raw_json = info.raw_json;
})

unfoldable pub node_to_proto : CoreNode → NodeDetails
unfolding node_info_to_proto
node_to_proto node = record {
  id = node.id;
  log_id = node.log_id;
  node_guid = node.node_guid;
  node_desc = node.node_desc;
  node_type = node.node_type;
  node_kind = node.node_kind;
  num_ports = node.num_ports;
  class_version = node.class_version;
  base_version = node.base_version;
  system_image_guid = node.system_image_guid;
  port_guid = node.port_guid;
  info = node_info_to_proto node.info;
  raw_json = node.raw_json;
}

unfoldable pub port_to_proto : CorePort → Port
port_to_proto port = record {
  id = port.id;
  log_id = port.log_id;
  node_id = port.node_id;
  node_guid = port.node_guid;
  port_guid = port.port_guid;
  port_num = port.port_num;
  lid = port.lid;
  local_port_num = port.local_port_num;
  port_state = port.port_state;
  port_phy_state = port.port_phy_state;
  link_width_active = port.link_width_active;
  link_speed_active = port.link_speed_active;
  raw_json = port.raw_json;
}

unfoldable pub nodes_to_proto : List CoreNode → List (Option NodeDetails)
unfolding all_some node_to_proto
nodes_to_proto = all_some node_to_proto

unfoldable pub ports_to_proto : List CorePort → List (Option Port)
unfolding all_some port_to_proto
ports_to_proto = all_some port_to_proto

unfoldable pub grpc_error : CoreError → Code
grpc_error bad_arguments = invalid_argument
grpc_error not_found = missing
grpc_error invalid_status = failed_precondition
grpc_error unavailable = unreachable
grpc_error other = internal

module _ {Instant : Type 0} (parse_time : Text → Option Instant) where
  unfoldable pub timestamp_to_proto : Text → Option Instant
  unfolding text_beq
  timestamp_to_proto value = if value == [] then none else parse_time value

  unfoldable pub log_to_proto : CoreLog → Log Instant
  unfolding log_status_to_proto timestamp_to_proto
  log_to_proto log = record {
    id = log.id;
    file_path = log.file_path;
    status = log_status_to_proto log.status;
    nodes_count = log.nodes_count;
    ports_count = log.ports_count;
    error = log.error;
    uploaded_at = timestamp_to_proto log.uploaded_at;
    parsed_at = timestamp_to_proto log.parsed_at;
  }

-- A call of a server: a status or an answer, and the database after it.
abbrev pub Rpc : Type 0 → Type 0
Rpc A = World → Result Code A × World

module _ {Req A B : Type 0} where
  -- `if req == nil { … }`, the call of the service, and the conversion of its answer.
  abbrev pub handle : (Req → M A) → (A → B) → Option Req → Rpc B
  handle call answer none w = (err invalid_argument, w)
  handle call answer (some req) w = relay grpc_error answer (call req) w

unfoldable pub serve_create_log : Option CreateLogRequest → Rpc IdRequest
unfolding grpc_error Service.create_log
serve_create_log = handle (λ req. Service.create_log req.file_path) (λ id. record { id = id })

-- The conversion of the request may fail before the service is called.
unfoldable pub save_converted : ℤ → Result CoreError CoreParsedLog → M CoreSaveParsedLogResult
unfolding Service.save_parsed_log
save_converted log_id (err e) = fail e
save_converted log_id (ok log) = Service.save_parsed_log log_id log

unfoldable pub serve_save_parsed_log : Option SaveParsedLogRequest → Rpc SaveParsedLogResponse
unfolding grpc_error save_converted parsed_log_from_proto
serve_save_parsed_log =
    handle (λ req. save_converted req.log_id (parsed_log_from_proto req.parsed_log))
      λ r. record { log_id = r.log_id; nodes_count = r.nodes_count; ports_count = r.ports_count }

unfoldable pub serve_fail_log : Option FailLogRequest → Rpc Unit
unfolding grpc_error Service.fail_log
serve_fail_log = handle (λ req. Service.fail_log req.log_id req.error) (λ _. tt)

unfoldable pub serve_get_node : Option IdRequest → Rpc NodeDetails
unfolding grpc_error Service.get_node node_to_proto
serve_get_node = handle (λ req. Service.get_node req.id) node_to_proto

-- The responses of lists of nodes and of ports hold nothing else.
unfoldable pub serve_get_ports_by_node : Option IdRequest → Rpc (List (Option Port))
unfolding grpc_error Service.get_ports_by_node ports_to_proto
serve_get_ports_by_node = handle (λ req. Service.get_ports_by_node req.id) ports_to_proto

unfoldable pub serve_get_nodes_by_log : Option IdRequest → Rpc (List (Option NodeDetails))
unfolding grpc_error Service.get_nodes_by_log nodes_to_proto
serve_get_nodes_by_log = handle (λ req. Service.get_nodes_by_log req.id) nodes_to_proto

unfoldable pub serve_get_ports_by_log : Option IdRequest → Rpc (List (Option Port))
unfolding grpc_error Service.get_ports_by_log ports_to_proto
serve_get_ports_by_log = handle (λ req. Service.get_ports_by_log req.id) ports_to_proto

module _ {Instant : Type 0} (parse_time : Text → Option Instant) where
  unfoldable pub serve_get_log : Option IdRequest → Rpc (Log Instant)
  unfolding grpc_error Service.get_log log_to_proto
  serve_get_log = handle (λ req. Service.get_log req.id) (log_to_proto parse_time)

  unfoldable pub topology_data_to_proto : CoreTopologyData → TopologyDataResponse Instant
  unfolding log_to_proto nodes_to_proto ports_to_proto
  topology_data_to_proto loaded = record {
    log = some (log_to_proto parse_time loaded.log);
    nodes = nodes_to_proto loaded.nodes;
    ports = ports_to_proto loaded.ports;
  }

  unfoldable pub serve_get_topology_data : Option IdRequest → Rpc (TopologyDataResponse Instant)
  unfolding grpc_error Service.get_topology_data topology_data_to_proto
  serve_get_topology_data = handle (λ req. Service.get_topology_data req.id) topology_data_to_proto
