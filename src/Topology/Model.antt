-- ===== src/Topology/Model.antt =====
-- The data of log-services/topology/core/models.go and errors.go. A `LogStatus` is a string in the
-- source too; times are texts.
use microservice_log_parser.Prelude.{List, Option}
use microservice_log_parser.Prelude.Int.{ℤ}
use microservice_log_parser.Prelude.Text.{Text, codes}

abbrev pub log_status_processing : Text
log_status_processing = codes "processing"

abbrev pub log_status_parsed : Text
log_status_parsed = codes "parsed"

abbrev pub log_status_failed : Text
log_status_failed = codes "failed"

pub record Log : Type 0 where
  pub id : ℤ
  pub file_path : Text
  pub status : Text
  pub nodes_count : ℤ
  pub ports_count : ℤ
  pub error : Text
  pub uploaded_at : Text
  pub parsed_at : Text

pub record NodeInfo : Type 0 where
  pub serial_number : Text
  pub product_name : Text

pub record Node : Type 0 where
  pub id : ℤ
  pub log_id : ℤ
  pub node_guid : Text
  pub node_desc : Text
  pub node_type : ℤ
  pub node_kind : Text
  pub num_ports : ℤ
  pub info : Option NodeInfo

pub record Port : Type 0 where
  pub id : ℤ
  pub log_id : ℤ
  pub node_id : ℤ
  pub node_guid : Text
  pub port_guid : Text
  pub port_num : ℤ
  pub port_state : ℤ
  pub link_width_active : ℤ
  pub link_speed_active : ℤ

pub record TopologyData : Type 0 where
  pub log : Log
  pub nodes : List Node
  pub ports : List Port

pub record TopologySummary : Type 0 where
  pub nodes_count : ℤ
  pub ports_count : ℤ
  pub edges_count : ℤ
  pub hosts_count : ℤ
  pub switches_count : ℤ

pub record TopologyNode : Type 0 where
  pub id : ℤ
  pub log_id : ℤ
  pub node_guid : Text
  pub node_desc : Text
  pub node_type : ℤ
  pub node_kind : Text
  pub declared_ports_count : ℤ
  pub parsed_ports_count : ℤ
  pub serial_number : Text
  pub product_name : Text

pub record TopologyGroup : Type 0 where
  pub name : Text
  pub kind : Text
  pub node_ids : List ℤ
  pub node_guids : List Text

pub record TopologyEdge : Type 0 where
  pub source_node_id : ℤ
  pub source_node_guid : Text
  pub source_port_num : ℤ
  pub source_port_guid : Text
  pub target_node_id : ℤ
  pub target_node_guid : Text
  pub target_port_num : ℤ
  pub target_port_guid : Text
  pub relation : Text
  pub link_width_active : ℤ
  pub link_speed_active : ℤ
  pub port_state : ℤ

pub record TopologyResult : Type 0 where
  pub log_id : ℤ
  pub summary : TopologySummary
  pub nodes : List TopologyNode
  pub groups : List TopologyGroup
  pub edges : List TopologyEdge

-- What `errors.Is` tells apart; the texts that wrap an error are not kept. `other` is any error of
-- the repository client that wraps none of the four.
pub data Error : Type 0 where
  bad_arguments not_found unavailable log_not_parsed other : Error
