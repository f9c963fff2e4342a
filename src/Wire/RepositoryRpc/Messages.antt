-- ===== src/Wire/RepositoryRpc/Messages.antt =====
-- The messages of log-services/proto/repository/repository.proto. A message of one id stands for the five
-- requests that hold nothing else.
use microservice_log_parser.Prelude.{List, Option}
use microservice_log_parser.Prelude.Int.{ℤ}
use microservice_log_parser.Prelude.Text.{Text}

pub record ParsedNode : Type 0 where
  pub node_guid : Text
  pub node_desc : Text
  pub node_type : ℤ
  pub node_kind : Text
  pub num_ports : ℤ
  pub class_version : ℤ
  pub base_version : ℤ
  pub system_image_guid : Text
  pub port_guid : Text
  pub raw_json : Text

pub record ParsedPort : Type 0 where
  pub node_guid : Text
  pub port_guid : Text
  pub port_num : ℤ
  pub lid : ℤ
  pub local_port_num : ℤ
  pub port_state : ℤ
  pub port_phy_state : ℤ
  pub link_width_active : ℤ
  pub link_speed_active : ℤ
  pub raw_json : Text

pub record ParsedNodeInfo : Type 0 where
  pub node_guid : Text
  pub serial_number : Text
  pub part_number : Text
  pub revision : Text
  pub product_name : Text
  pub raw_json : Text

pub record ParsedLog : Type 0 where
  pub nodes : List (Option ParsedNode)
  pub ports : List (Option ParsedPort)
  pub nodes_info : List (Option ParsedNodeInfo)

pub record CreateLogRequest : Type 0 where
  pub file_path : Text

pub record IdRequest : Type 0 where
  pub id : ℤ

pub record SaveParsedLogRequest : Type 0 where
  pub log_id : ℤ
  pub parsed_log : Option ParsedLog

pub record SaveParsedLogResponse : Type 0 where
  pub log_id : ℤ
  pub nodes_count : ℤ
  pub ports_count : ℤ

pub record FailLogRequest : Type 0 where
  pub log_id : ℤ
  pub error : Text

pub data LogStatus : Type 0 where
  unspecified processing parsed failed : LogStatus

-- `Instant` is what a google.protobuf.Timestamp holds.
pub record Log (Instant : Type 0) : Type 0 where
  pub id : ℤ
  pub file_path : Text
  pub status : LogStatus
  pub nodes_count : ℤ
  pub ports_count : ℤ
  pub error : Text
  pub uploaded_at : Option Instant
  pub parsed_at : Option Instant

pub record NodeInfo : Type 0 where
  pub id : ℤ
  pub node_id : ℤ
  pub node_guid : Text
  pub serial_number : Text
  pub part_number : Text
  pub revision : Text
  pub product_name : Text
  pub raw_json : Text

pub record NodeDetails : Type 0 where
  pub id : ℤ
  pub log_id : ℤ
  pub node_guid : Text
  pub node_desc : Text
  pub node_type : ℤ
  pub node_kind : Text
  pub num_ports : ℤ
  pub class_version : ℤ
  pub base_version : ℤ
  pub system_image_guid : Text
  pub port_guid : Text
  pub info : Option NodeInfo
  pub raw_json : Text

pub record Port : Type 0 where
  pub id : ℤ
  pub log_id : ℤ
  pub node_id : ℤ
  pub node_guid : Text
  pub port_guid : Text
  pub port_num : ℤ
  pub lid : ℤ
  pub local_port_num : ℤ
  pub port_state : ℤ
  pub port_phy_state : ℤ
  pub link_width_active : ℤ
  pub link_speed_active : ℤ
  pub raw_json : Text

pub record TopologyDataResponse (Instant : Type 0) : Type 0 where
  pub log : Option (Log Instant)
  pub nodes : List (Option NodeDetails)
  pub ports : List (Option Port)
