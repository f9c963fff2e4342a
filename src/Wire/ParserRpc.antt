-- ===== src/Wire/ParserRpc.antt =====
-- The messages of log-services/proto/parser/parser.proto, the server log-services/parser/adapters/grpc/server.go
-- and the client log-services/app/adapters/parser/parser.go.
pub mod RoundTrip
use microservice_log_parser.Prelude.{List, [], Option, none, some}
use microservice_log_parser.Prelude.Int.{ℤ, pos}
use microservice_log_parser.Prelude.Text.{Text}
use microservice_log_parser.Prelude.Result.{Result, ok, err}
use microservice_log_parser.Parser.Model.{
  Node as CoreNode, Port as CorePort, NodeInfo as CoreNodeInfo, ParsedLog as CoreParsedLog,
  Error as CoreError, bad_arguments as refused_arguments, not_found as missing_source,
  unsupported_format, parse_error, other as failed,
}
use microservice_log_parser.App.Model.{
  Node as AppNode, Port as AppPort, NodeInfo as AppNodeInfo, ParsedLog as AppParsedLog,
  Error as AppError, bad_arguments, not_found, unavailable, other,
}
use microservice_log_parser.Wire.Status.{
  Code, canceled, unknown_code, invalid_argument, deadline_exceeded, already_exists, missing,
  permission_denied, resource_exhausted, failed_precondition, aborted, out_of_range, unimplemented,
  internal, unreachable, data_loss, unauthenticated, each, all_some, convert, relay,
}

pub record Node : Type 0 where
  pub node_guid : Text
  pub node_desc : Text
  pub node_type : ℤ
  pub node_kind : Text
  pub num_ports : ℤ
  pub class_version : ℤ
  pub base_version : ℤ
  pub system_image_guid : Text
  pub port_guid : Text
  pub raw_json : Text

pub record Port : Type 0 where
  pub node_guid : Text
  pub port_guid : Text
  pub port_num : ℤ
  pub lid : ℤ
  pub local_port_num : ℤ
  pub port_state : ℤ
  pub port_phy_state : ℤ
  pub link_width_active : ℤ
  pub link_speed_active : ℤ
  pub raw_json : Text

pub record NodeInfo : Type 0 where
  pub node_guid : Text
  pub serial_number : Text
  pub part_number : Text
  pub revision : Text
  pub product_name : Text
  pub raw_json : Text

pub record ParsedLog : Type 0 where
  pub nodes : List (Option Node)
  pub ports : List (Option Port)
  pub nodes_info : List (Option NodeInfo)

pub record ParseRequest : Type 0 where
  pub path : Text

pub record ParseResponse : Type 0 where
  pub log : Option ParsedLog

-- The server.
unfoldable pub node_to_proto : CoreNode → Node
node_to_proto node = record {
  node_guid = node.node_guid;
  node_desc = node.node_desc;
  node_type = node.node_type;
  node_kind = node.node_kind;
  num_ports = node.num_ports;
  class_version = node.class_version;
  base_version = node.base_version;
  system_image_guid = node.system_image_guid;
  port_guid = node.port_guid;
  raw_json = node.raw_json;
}

unfoldable pub port_to_proto : CorePort → Port
port_to_proto port = record {
  node_guid = port.node_guid;
  port_guid = port.port_guid;
  port_num = port.port_num;
  lid = port.lid;
  local_port_num = port.local_port_num;
  port_state = port.port_state;
  port_phy_state = port.port_phy_state;
  link_width_active = port.link_width_active;
  link_speed_active = port.link_speed_active;
  raw_json = port.raw_json;
}

unfoldable pub info_to_proto : CoreNodeInfo → NodeInfo
info_to_proto info = record {
  node_guid = info.node_guid;
  serial_number = info.serial_number;
  part_number = info.part_number;
  revision = info.revision;
  product_name = info.product_name;
  raw_json = info.raw_json;
}

unfoldable pub parsed_log_to_proto : CoreParsedLog → ParsedLog
unfolding all_some node_to_proto port_to_proto info_to_proto
parsed_log_to_proto log = record {
  nodes = all_some node_to_proto log.nodes;
  ports = all_some port_to_proto log.ports;
  nodes_info = all_some info_to_proto log.nodes_info;
}

unfoldable pub grpc_error : CoreError → Code
grpc_error refused_arguments = invalid_argument
grpc_error missing_source = missing
grpc_error unsupported_format = invalid_argument
grpc_error parse_error = invalid_argument
grpc_error failed = internal

-- `Server.Parse`, over the service's `Parse`.
unfoldable pub serve_parse :
    (Text → Result CoreError CoreParsedLog) → Option ParseRequest → Result Code ParseResponse
unfolding parsed_log_to_proto grpc_error
serve_parse parse none = err invalid_argument
serve_parse parse (some req) =
    convert grpc_error (λ log. record { log = some (parsed_log_to_proto log) }) (parse req.path)

-- The client.
unfoldable pub node_from_proto : Node → AppNode
node_from_proto node = record {
  node_guid = node.node_guid;
  node_desc = node.node_desc;
  node_type = node.node_type;
  node_kind = node.node_kind;
  num_ports = node.num_ports;
  class_version = node.class_version;
  base_version = node.base_version;
  system_image_guid = node.system_image_guid;
  port_guid = node.port_guid;
  raw_json = node.raw_json;
  id = pos 0;
  log_id = pos 0;
  info = none;
}

unfoldable pub port_from_proto : Port → AppPort
port_from_proto port = record {
  node_guid = port.node_guid;
  port_guid = port.port_guid;
  port_num = port.port_num;
  lid = port.lid;
  local_port_num = port.local_port_num;
  port_state = port.port_state;
  port_phy_state = port.port_phy_state;
  link_width_active = port.link_width_active;
  link_speed_active = port.link_speed_active;
  raw_json = port.raw_json;
  id = pos 0;
  log_id = pos 0;
  node_id = pos 0;
}

unfoldable pub info_from_proto : NodeInfo → AppNodeInfo
info_from_proto info = record {
  node_guid = info.node_guid;
  serial_number = info.serial_number;
  part_number = info.part_number;
  revision = info.revision;
  product_name = info.product_name;
  raw_json = info.raw_json;
  id = pos 0;
  node_id = pos 0;
}

unfoldable pub parsed_log_from_proto : Option ParsedLog → AppParsedLog
unfolding each node_from_proto port_from_proto info_from_proto
parsed_log_from_proto none = record { nodes = []; ports = []; nodes_info = [] }
parsed_log_from_proto (some log) = record {
  nodes = each node_from_proto log.nodes;
  ports = each port_from_proto log.ports;
  nodes_info = each info_from_proto log.nodes_info;
}

module _ (status_text : Code → Text) where
  unfoldable pub map_grpc_error : Code → AppError
  map_grpc_error invalid_argument = bad_arguments
  map_grpc_error missing = not_found
  map_grpc_error unreachable = unavailable
  map_grpc_error deadline_exceeded = unavailable
  map_grpc_error canceled = unavailable
  map_grpc_error code = other (status_text code)

  -- `Client.Parse`, over the connection.
  unfoldable pub call_parse :
      (Option ParseRequest → Result Code ParseResponse) → Text → Result AppError AppParsedLog
  unfolding map_grpc_error parsed_log_from_proto
  call_parse connection path =
      convert map_grpc_error (λ resp. parsed_log_from_proto resp.log)
        (connection (some (record { path = path })))
