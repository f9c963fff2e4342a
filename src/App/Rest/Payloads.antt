-- ===== src/App/Rest/Payloads.antt =====
-- The payloads of stored entities: log-services/app/adapters/rest/payloads.go and the conversions at
-- the end of data.go. An empty text of a field marked `omitempty` is a field that is left out.
use microservice_log_parser.Prelude.{ℕ, List, [], ◌∷◌, Bool, Option, none, some, if◌then◌else◌}
use microservice_log_parser.Prelude.Int.{ℤ}
use microservice_log_parser.Prelude.Text.{Text}
use microservice_log_parser.App.Model.{Log, NodeInfo, Node, Port}

pub record StoredLogResponse : Type 0 where
  pub id : ℤ
  pub file_path : Text
  pub status : Text
  pub nodes_count : ℤ
  pub ports_count : ℤ
  pub error : Text
  pub uploaded_at : Text
  pub parsed_at : Text

pub record StoredNodeInfoResponse : Type 0 where
  pub id : ℤ
  pub node_id : ℤ
  pub node_guid : Text
  pub serial_number : Text
  pub part_number : Text
  pub revision : Text
  pub product_name : Text
  pub raw_json : Text

pub record StoredNodeResponse : Type 0 where
  pub id : ℤ
  pub log_id : ℤ
  pub node_guid : Text
  pub node_desc : Text
  pub node_type : ℤ
  pub node_kind : Text
  pub num_ports : ℤ
  pub class_version : ℤ
  pub base_version : ℤ
  pub system_image_guid : Text
  pub port_guid : Text
  pub info : Option StoredNodeInfoResponse
  pub raw_json : Text

pub record StoredNodesResponse : Type 0 where
  pub count : ℕ
  pub nodes : List StoredNodeResponse

pub record StoredPortResponse : Type 0 where
  pub id : ℤ
  pub log_id : ℤ
  pub node_id : ℤ
  pub node_guid : Text
  pub port_guid : Text
  pub port_num : ℤ
  pub lid : ℤ
  pub local_port_num : ℤ
  pub port_state : ℤ
  pub port_phy_state : ℤ
  pub link_width_active : ℤ
  pub link_speed_active : ℤ
  pub raw_json : Text

pub record StoredPortsResponse : Type 0 where
  pub count : ℕ
  pub total : ℕ
  pub limit : ℕ
  pub offset : ℕ
  pub ports : List StoredPortResponse

unfoldable pub stored_log_to_response : Log → StoredLogResponse
stored_log_to_response log = record {
  id = log.id;
  file_path = log.file_path;
  status = log.status;
  nodes_count = log.nodes_count;
  ports_count = log.ports_count;
  error = log.error;
  uploaded_at = log.uploaded_at;
  parsed_at = log.parsed_at;
}

abbrev raw_or_empty : Bool → Text → Text
raw_or_empty include_raw raw_json = if include_raw then raw_json else []

unfoldable pub stored_node_info_to_response : Bool → Option NodeInfo → Option StoredNodeInfoResponse
stored_node_info_to_response include_raw none = none
stored_node_info_to_response include_raw (some info) = some (record {
  id = info.id;
  node_id = info.node_id;
  node_guid = info.node_guid;
  serial_number = info.serial_number;
  part_number = info.part_number;
  revision = info.revision;
  product_name = info.product_name;
  raw_json = raw_or_empty include_raw info.raw_json;
})

unfoldable pub stored_node_to_response : Bool → Node → StoredNodeResponse
unfolding stored_node_info_to_response
stored_node_to_response include_raw node = record {
  id = node.id;
  log_id = node.log_id;
  node_guid = node.node_guid;
  node_desc = node.node_desc;
  node_type = node.node_type;
  node_kind = node.node_kind;
  num_ports = node.num_ports;
  class_version = node.class_version;
  base_version = node.base_version;
  system_image_guid = node.system_image_guid;
  port_guid = node.port_guid;
  info = stored_node_info_to_response include_raw node.info;
  raw_json = raw_or_empty include_raw node.raw_json;
}

unfoldable pub stored_nodes_to_response : Bool → List Node → List StoredNodeResponse
unfolding stored_node_to_response
stored_nodes_to_response include_raw [] = []
stored_nodes_to_response include_raw (node ∷ nodes) =
    stored_node_to_response include_raw node ∷ stored_nodes_to_response include_raw nodes

unfoldable pub stored_port_to_response : Bool → Port → StoredPortResponse
stored_port_to_response include_raw port = record {
  id = port.id;
  log_id = port.log_id;
  node_id = port.node_id;
  node_guid = port.node_guid;
  port_guid = port.port_guid;
  port_num = port.port_num;
  lid = port.lid;
  local_port_num = port.local_port_num;
  port_state = port.port_state;
  port_phy_state = port.port_phy_state;
  link_width_active = port.link_width_active;
  link_speed_active = port.link_speed_active;
  raw_json = raw_or_empty include_raw port.raw_json;
}

unfoldable pub stored_ports_to_response : Bool → List Port → List StoredPortResponse
unfolding stored_port_to_response
stored_ports_to_response include_raw [] = []
stored_ports_to_response include_raw (port ∷ ports) =
    stored_port_to_response include_raw port ∷ stored_ports_to_response include_raw ports
