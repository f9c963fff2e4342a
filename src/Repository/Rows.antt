-- ===== src/Repository/Rows.antt =====
-- The rows of the four tables, as log-services/repository/adapters/db/storage.go scans them, and their
-- `toCore` methods. Times are texts in the RFC 3339 form that `formatTimestamp` gives them.
use microservice_log_parser.Prelude.{[], Option, none, some}
use microservice_log_parser.Prelude.Int.{ℤ}
use microservice_log_parser.Prelude.Text.{Text}
use microservice_log_parser.Repository.Model.{Log, Node, NodeInfo, Port}

pub record LogRow : Type 0 where
  pub id : ℤ
  pub file_path : Text
  pub status : Text
  pub nodes_count : ℤ
  pub ports_count : ℤ
  pub error_text : Text
  pub uploaded_at : Text
  pub parsed_at : Option Text

abbrev text_or_empty : Option Text → Text
text_or_empty none = []
text_or_empty (some t) = t

unfoldable pub log_to_core : LogRow → Log
log_to_core r = record {
  id = r.id;
  file_path = r.file_path;
  status = r.status;
  nodes_count = r.nodes_count;
  ports_count = r.ports_count;
  error = r.error_text;
  uploaded_at = r.uploaded_at;
  parsed_at = text_or_empty r.parsed_at;
}

pub record NodeRow : Type 0 where
  pub id : ℤ
  pub log_id : ℤ
  pub node_guid : Text
  pub node_desc : Text
  pub node_type : ℤ
  pub node_kind : Text
  pub num_ports : ℤ
  pub class_version : ℤ
  pub base_version : ℤ
  pub system_image_guid : Text
  pub port_guid : Text
  pub raw_json : Text

unfoldable pub node_to_core : NodeRow → Node
node_to_core r = record {
  id = r.id;
  log_id = r.log_id;
  node_guid = r.node_guid;
  node_desc = r.node_desc;
  node_type = r.node_type;
  node_kind = r.node_kind;
  num_ports = r.num_ports;
  class_version = r.class_version;
  base_version = r.base_version;
  system_image_guid = r.system_image_guid;
  port_guid = r.port_guid;
  info = none;
  raw_json = r.raw_json;
}

pub record NodeInfoRow : Type 0 where
  pub id : ℤ
  pub node_id : ℤ
  pub node_guid : Text
  pub serial_number : Text
  pub part_number : Text
  pub revision : Text
  pub product_name : Text
  pub raw_json : Text

unfoldable pub info_to_core : NodeInfoRow → NodeInfo
info_to_core r = record {
  id = r.id;
  node_id = r.node_id;
  node_guid = r.node_guid;
  serial_number = r.serial_number;
  part_number = r.part_number;
  revision = r.revision;
  product_name = r.product_name;
  raw_json = r.raw_json;
}

-- A row of `nodes LEFT JOIN nodes_info`: the columns of an info are all there or all null.
pub record NodeWithInfoRow : Type 0 where
  pub node : NodeRow
  pub info : Option NodeInfoRow

abbrev joined_info : Option NodeInfoRow → Option NodeInfo
joined_info none = none
joined_info (some r) = some (info_to_core r)

unfoldable pub node_with_info_to_core : NodeWithInfoRow → Node
unfolding node_to_core info_to_core
node_with_info_to_core r = record (node_to_core r.node) { info = joined_info r.info }

pub record PortRow : Type 0 where
  pub id : ℤ
  pub log_id : ℤ
  pub node_id : ℤ
  pub node_guid : Text
  pub port_guid : Text
  pub port_num : ℤ
  pub lid : ℤ
  pub local_port_num : ℤ
  pub port_state : ℤ
  pub port_phy_state : ℤ
  pub link_width_active : ℤ
  pub link_speed_active : ℤ
  pub raw_json : Text

unfoldable pub port_to_core : PortRow → Port
port_to_core r = record {
  id = r.id;
  log_id = r.log_id;
  node_id = r.node_id;
  node_guid = r.node_guid;
  port_guid = r.port_guid;
  port_num = r.port_num;
  lid = r.lid;
  local_port_num = r.local_port_num;
  port_state = r.port_state;
  port_phy_state = r.port_phy_state;
  link_width_active = r.link_width_active;
  link_speed_active = r.link_speed_active;
  raw_json = r.raw_json;
}
