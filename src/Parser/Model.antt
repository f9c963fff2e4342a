-- ===== src/Parser/Model.antt =====
-- The data of log-services/parser/core/models.go and errors.go, and `sourceFile` of engine.go.
use microservice_log_parser.Prelude.{List}
use microservice_log_parser.Prelude.Int.{ℤ}
use microservice_log_parser.Prelude.Text.{Text}

pub record Node : Type 0 where
  pub node_guid : Text
  pub node_desc : Text
  pub node_type : ℤ
  pub node_kind : Text
  pub num_ports : ℤ
  pub class_version : ℤ
  pub base_version : ℤ
  pub system_image_guid : Text
  pub port_guid : Text
  pub raw_json : Text

pub record Port : Type 0 where
  pub node_guid : Text
  pub port_guid : Text
  pub port_num : ℤ
  pub lid : ℤ
  pub local_port_num : ℤ
  pub port_state : ℤ
  pub port_phy_state : ℤ
  pub link_width_active : ℤ
  pub link_speed_active : ℤ
  pub raw_json : Text

pub record NodeInfo : Type 0 where
  pub node_guid : Text
  pub serial_number : Text
  pub part_number : Text
  pub revision : Text
  pub product_name : Text
  pub raw_json : Text

pub record ParsedLog : Type 0 where
  pub nodes : List Node
  pub ports : List Port
  pub nodes_info : List NodeInfo

-- What `errors.Is` tells apart; the texts that wrap an error are not kept. `other` is any error of
-- the file system, of an archive or of the context.
pub data Error : Type 0 where
  bad_arguments not_found unsupported_format parse_error other : Error

pub record SourceFile : Type 0 where
  pub name : Text
  pub content : Text
