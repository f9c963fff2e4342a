-- ===== src/App/Model.antt =====
-- The data of log-services/app/core/models.go and errors.go. A `LogStatus` is a string in the source
-- too.
use microservice_log_parser.Prelude.{List, Option}
use microservice_log_parser.Prelude.Int.{ℤ}
use microservice_log_parser.Prelude.Text.{Text, codes}

abbrev pub log_status_processing : Text
log_status_processing = codes "processing"

abbrev pub log_status_parsed : Text
log_status_parsed = codes "parsed"

abbrev pub log_status_failed : Text
log_status_failed = codes "failed"

pub record Log : Type 0 where
  pub id : ℤ
  pub file_path : Text
  pub status : Text
  pub nodes_count : ℤ
  pub ports_count : ℤ
  pub error : Text
  pub uploaded_at : Text
  pub parsed_at : Text

pub record NodeInfo : Type 0 where
  pub id : ℤ
  pub node_id : ℤ
  pub node_guid : Text
  pub serial_number : Text
  pub part_number : Text
  pub revision : Text
  pub product_name : Text
  pub raw_json : Text

pub record Node : Type 0 where
  pub id : ℤ
  pub log_id : ℤ
  pub node_guid : Text
  pub node_desc : Text
  pub node_type : ℤ
  pub node_kind : Text
  pub num_ports : ℤ
  pub class_version : ℤ
  pub base_version : ℤ
  pub system_image_guid : Text
  pub port_guid : Text
  pub info : Option NodeInfo
  pub raw_json : Text

pub record Port : Type 0 where
  pub id : ℤ
  pub log_id : ℤ
  pub node_id : ℤ
  pub node_guid : Text
  pub port_guid : Text
  pub port_num : ℤ
  pub lid : ℤ
  pub local_port_num : ℤ
  pub port_state : ℤ
  pub port_phy_state : ℤ
  pub link_width_active : ℤ
  pub link_speed_active : ℤ
  pub raw_json : Text

pub record ParsedLog : Type 0 where
  pub nodes : List Node
  pub ports : List Port
  pub nodes_info : List NodeInfo

pub record ParseLogResult : Type 0 where
  pub log_id : ℤ
  pub status : Text
  pub nodes_count : ℤ
  pub ports_count : ℤ
  pub nodes_info_count : ℤ

pub record SaveParsedLogResult : Type 0 where
  pub log_id : ℤ
  pub nodes_count : ℤ
  pub ports_count : ℤ

pub record TopologySummary : Type 0 where
  pub nodes_count : ℤ
  pub ports_count : ℤ
  pub edges_count : ℤ
  pub hosts_count : ℤ
  pub switches_count : ℤ

pub record TopologyNode : Type 0 where
  pub id : ℤ
  pub log_id : ℤ
  pub node_guid : Text
  pub node_desc : Text
  pub node_type : ℤ
  pub node_kind : Text
  pub declared_ports_count : ℤ
  pub parsed_ports_count : ℤ
  pub serial_number : Text
  pub product_name : Text

pub record TopologyGroup : Type 0 where
  pub name : Text
  pub kind : Text
  pub node_ids : List ℤ
  pub node_guids : List Text

pub record TopologyEdge : Type 0 where
  pub source_node_id : ℤ
  pub source_node_guid : Text
  pub source_port_num : ℤ
  pub source_port_guid : Text
  pub target_node_id : ℤ
  pub target_node_guid : Text
  pub target_port_num : ℤ
  pub target_port_guid : Text
  pub relation : Text
  pub link_width_active : ℤ
  pub link_speed_active : ℤ
  pub port_state : ℤ

pub record Topology : Type 0 where
  pub log_id : ℤ
  pub summary : TopologySummary
  pub nodes : List TopologyNode
  pub groups : List TopologyGroup
  pub edges : List TopologyEdge

-- The four errors of errors.go, and any other with its text. An error that wraps one of the four is
-- that one here.
pub data Error : Type 0 where
  bad_arguments not_found unavailable conflict : Error
  other : Text → Error

-- `err.Error()`
abbrev pub error_text : Error → Text
error_text bad_arguments = codes "arguments are not acceptable"
error_text not_found = codes "resource is not found"
error_text unavailable = codes "dependency unavailable"
error_text conflict = codes "resource conflict"
error_text (other text) = text
