-- ===== src/Repository/Model.antt =====
-- The data of log-services/repository/core/models.go and errors.go. A `LogStatus` is a string in
-- the source too.
use microservice_log_parser.Prelude.{List, Option}
use microservice_log_parser.Prelude.Int.{ℤ}
use microservice_log_parser.Prelude.Text.{Text, codes}

abbrev pub log_status_processing : Text
log_status_processing = codes "processing"

abbrev pub log_status_parsed : Text
log_status_parsed = codes "parsed"

abbrev pub log_status_failed : Text
log_status_failed = codes "failed"

pub record Log : Type 0 where
  pub id : ℤ
  pub file_path : Text
  pub status : Text
  pub nodes_count : ℤ
  pub ports_count : ℤ
  pub error : Text
  pub uploaded_at : Text
  pub parsed_at : Text

pub record NodeInfo : Type 0 where
  pub id : ℤ
  pub node_id : ℤ
  pub node_guid : Text
  pub serial_number : Text
  pub part_number : Text
  pub revision : Text
  pub product_name : Text
  pub raw_json : Text

pub record Node : Type 0 where
  pub id : ℤ
  pub log_id : ℤ
  pub node_guid : Text
  pub node_desc : Text
  pub node_type : ℤ
  pub node_kind : Text
  pub num_ports : ℤ
  pub class_version : ℤ
  pub base_version : ℤ
  pub system_image_guid : Text
  pub port_guid : Text
  pub info : Option NodeInfo
  pub raw_json : Text

pub record Port : Type 0 where
  pub id : ℤ
  pub log_id : ℤ
  pub node_id : ℤ
  pub node_guid : Text
  pub port_guid : Text
  pub port_num : ℤ
  pub lid : ℤ
  pub local_port_num : ℤ
  pub port_state : ℤ
  pub port_phy_state : ℤ
  pub link_width_active : ℤ
  pub link_speed_active : ℤ
  pub raw_json : Text

pub record ParsedLog : Type 0 where
  pub nodes : List Node
  pub ports : List Port
  pub nodes_info : List NodeInfo

pub record SaveParsedLogResult : Type 0 where
  pub log_id : ℤ
  pub nodes_count : ℤ
  pub ports_count : ℤ

pub record TopologyData : Type 0 where
  pub log : Log
  pub nodes : List Node
  pub ports : List Port

-- What `errors.Is` tells apart; the texts that wrap an error are not kept. `other` is an error of
-- the database, a refused constraint among them.
pub data Error : Type 0 where
  bad_arguments not_found unavailable invalid_status other : Error
