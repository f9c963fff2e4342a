-- ===== src/Wire/RepositoryRpc/RoundTrip.antt =====
-- Parsed logs on their way to the repository, and stored entities on their way from it.
use microservice_log_parser.Prelude.{
  List, [], ◌∷◌, ◌≡◌, ◌⊎◌, inl, inr, refl, map, Option, none, some, Bool-cases,
}
use microservice_log_parser.Prelude.Text.{Text, text_beq, text_eq}
use microservice_log_parser.Prelude.Result.{ok}
use microservice_log_parser.Prelude.Eq.{◌==◌, ==_sound}
use microservice_log_parser.Parser.Model.{
  Node as CoreNode, Port as CorePort, NodeInfo as CoreNodeInfo, ParsedLog as CoreParsedLog,
}
use microservice_log_parser.Repository.Model.{
  Node as RepNode, Port as RepPort, NodeInfo as RepNodeInfo, ParsedLog as RepParsedLog,
  Log as RepLog, log_status_processing, log_status_parsed, log_status_failed,
}
use microservice_log_parser.App.Model.{
  Node as AppNode, Port as AppPort, NodeInfo as AppNodeInfo, Log as AppLog,
}
use microservice_log_parser.Wire.Status.{each, all_some}
use microservice_log_parser.Wire.ParserRpc.RoundTrip.{sent-seen}
use microservice_log_parser.Wire.ParserRpc
use microservice_log_parser.Wire.RepositoryRpc.Server
use microservice_log_parser.Wire.RepositoryRpc.AppClient

-- The fields of the parser in what the repository has.
abbrev pub parsed_node : RepNode → CoreNode
parsed_node node = record {
  node_guid = node.node_guid;
  node_desc = node.node_desc;
  node_type = node.node_type;
  node_kind = node.node_kind;
  num_ports = node.num_ports;
  class_version = node.class_version;
  base_version = node.base_version;
  system_image_guid = node.system_image_guid;
  port_guid = node.port_guid;
  raw_json = node.raw_json;
}

abbrev pub parsed_port : RepPort → CorePort
parsed_port port = record {
  node_guid = port.node_guid;
  port_guid = port.port_guid;
  port_num = port.port_num;
  lid = port.lid;
  local_port_num = port.local_port_num;
  port_state = port.port_state;
  port_phy_state = port.port_phy_state;
  link_width_active = port.link_width_active;
  link_speed_active = port.link_speed_active;
  raw_json = port.raw_json;
}

abbrev pub parsed_info : RepNodeInfo → CoreNodeInfo
parsed_info info = record {
  node_guid = info.node_guid;
  serial_number = info.serial_number;
  part_number = info.part_number;
  revision = info.revision;
  product_name = info.product_name;
  raw_json = info.raw_json;
}

abbrev pub parsed_log : RepParsedLog → CoreParsedLog
parsed_log log = record {
  nodes = map parsed_node log.nodes;
  ports = map parsed_port log.ports;
  nodes_info = map parsed_info log.nodes_info;
}

-- The same in one step: what a list becomes that is sent twice.
module _ {A B C D E : Type 0} where
  sent_twice-seen :
      (seen_one : E → A) (get' : D → E) (put' : C → D) (get : B → C) (put : A → B)
      → ((a : A) → seen_one (get' (put' (get (put a)))) ≡ a)
      → (xs : List A) → map seen_one (each get' (all_some put' (each get (all_some put xs)))) ≡ xs
  unfolding each all_some
  sent_twice-seen seen_one get' put' get put h [] = refl
  sent_twice-seen seen_one get' put' get put h (x ∷ xs) =
      λ i. h x i ∷ sent_twice-seen seen_one get' put' get put h xs i

-- A log that the parser has parsed reaches the repository by way of the app with every field of every
-- node, port and info, in order; the conversions on the way do not fail.
pub parsed_log_arrives :
    (log : CoreParsedLog)
    → (r : RepParsedLog) × (Server.parsed_log_from_proto (
          some (
            AppClient.parsed_log_to_proto
              (ParserRpc.parsed_log_from_proto (some (ParserRpc.parsed_log_to_proto log)))))
        ≡ ok r)
      × (parsed_log r ≡ log)
unfolding Server.parsed_log_from_proto AppClient.parsed_log_to_proto ParserRpc.parsed_log_from_proto
    ParserRpc.parsed_log_to_proto Server.node_from_parsed Server.port_from_parsed
    Server.info_from_parsed AppClient.node_to_parsed AppClient.port_to_parsed
    AppClient.info_to_parsed ParserRpc.node_from_proto ParserRpc.port_from_proto
    ParserRpc.info_from_proto ParserRpc.node_to_proto ParserRpc.port_to_proto
    ParserRpc.info_to_proto
parsed_log_arrives log = (
  _,
  refl,
  λ i. record {
    nodes =
        sent_twice-seen parsed_node Server.node_from_parsed AppClient.node_to_parsed
          ParserRpc.node_from_proto ParserRpc.node_to_proto (λ n. refl) log.nodes i;
    ports =
        sent_twice-seen parsed_port Server.port_from_parsed AppClient.port_to_parsed
          ParserRpc.port_from_proto ParserRpc.port_to_proto (λ p. refl) log.ports i;
    nodes_info =
        sent_twice-seen parsed_info Server.info_from_parsed AppClient.info_to_parsed
          ParserRpc.info_from_proto ParserRpc.info_to_proto (λ n. refl) log.nodes_info i;
  },
)

-- The repository's entities as the app has them.
abbrev pub stored_info : Option AppNodeInfo → Option RepNodeInfo
stored_info none = none
stored_info (some info) = some (record {
  id = info.id;
  node_id = info.node_id;
  node_guid = info.node_guid;
  serial_number = info.serial_number;
  part_number = info.part_number;
  revision = info.revision;
  product_name = info.product_name;
  raw_json = info.raw_json;
})

abbrev pub stored_node : AppNode → RepNode
stored_node node = record {
  id = node.id;
  log_id = node.log_id;
  node_guid = node.node_guid;
  node_desc = node.node_desc;
  node_type = node.node_type;
  node_kind = node.node_kind;
  num_ports = node.num_ports;
  class_version = node.class_version;
  base_version = node.base_version;
  system_image_guid = node.system_image_guid;
  port_guid = node.port_guid;
  info = stored_info node.info;
  raw_json = node.raw_json;
}

abbrev pub stored_port : AppPort → RepPort
stored_port port = record {
  id = port.id;
  log_id = port.log_id;
  node_id = port.node_id;
  node_guid = port.node_guid;
  port_guid = port.port_guid;
  port_num = port.port_num;
  lid = port.lid;
  local_port_num = port.local_port_num;
  port_state = port.port_state;
  port_phy_state = port.port_phy_state;
  link_width_active = port.link_width_active;
  link_speed_active = port.link_speed_active;
  raw_json = port.raw_json;
}

abbrev pub stored_log : AppLog → RepLog
stored_log log = record {
  id = log.id;
  file_path = log.file_path;
  status = log.status;
  nodes_count = log.nodes_count;
  ports_count = log.ports_count;
  error = log.error;
  uploaded_at = log.uploaded_at;
  parsed_at = log.parsed_at;
}

stored_info-node_info_from_proto :
    (info : Option RepNodeInfo)
    → stored_info (AppClient.node_info_from_proto (Server.node_info_to_proto info)) ≡ info
unfolding AppClient.node_info_from_proto Server.node_info_to_proto
stored_info-node_info_from_proto none = refl
stored_info-node_info_from_proto (some info) = refl

stored_node-node_from_proto :
    (node : RepNode) → stored_node (AppClient.node_from_proto (Server.node_to_proto node)) ≡ node
unfolding AppClient.node_from_proto Server.node_to_proto
stored_node-node_from_proto node =
    λ i. record node { info = stored_info-node_info_from_proto node.info i }

-- Nodes of the repository, with their infos, arrive at the app with every field, in order.
pub stored_nodes_arrive :
    (nodes : List RepNode)
    → map stored_node (AppClient.nodes_from_proto (Server.nodes_to_proto nodes)) ≡ nodes
unfolding AppClient.nodes_from_proto Server.nodes_to_proto
stored_nodes_arrive =
    sent-seen stored_node AppClient.node_from_proto Server.node_to_proto stored_node-node_from_proto

pub stored_ports_arrive :
    (ports : List RepPort)
    → map stored_port (AppClient.ports_from_proto (Server.ports_to_proto ports)) ≡ ports
unfolding AppClient.ports_from_proto Server.ports_to_proto AppClient.port_from_proto
    Server.port_to_proto
stored_ports_arrive =
    sent-seen stored_port AppClient.port_from_proto Server.port_to_proto (λ p. refl)

abbrev pub IsKnownStatus : Text → Type 0
IsKnownStatus status =
    (status ≡ log_status_processing) ⊎ ((status ≡ log_status_parsed) ⊎ (status ≡ log_status_failed))

log_status_arrives :
    (status : Text)
    → IsKnownStatus status
    → AppClient.log_status_from_proto (Server.log_status_to_proto status) ≡ status
unfolding AppClient.log_status_from_proto Server.log_status_to_proto text_beq
log_status_arrives status (inl e) = rw (e) refl
log_status_arrives status (inr (inl e)) = rw (e) refl
log_status_arrives status (inr (inr e)) = rw (e) refl

module _ {Instant : Type 0} (parse_time : Text → Option Instant)
    (format_time : Instant → Text) where
  -- A text that is empty, or that parsing and formatting gives back.
  abbrev pub IsTime : Text → Type 0
  IsTime value =
      (value ≡ []) ⊎ ((t : Instant) × (parse_time value ≡ some t) × (format_time t ≡ value))

  timestamp_arrives :
      (value : Text)
      → IsTime value
      → AppClient.timestamp_from_proto format_time (Server.timestamp_to_proto parse_time value)
        ≡ value
  unfolding AppClient.timestamp_from_proto Server.timestamp_to_proto
  timestamp_arrives value (inl e) = rw (e) refl
  timestamp_arrives value (inr (t, parses, formats)) = elim (Bool-cases (value == [])) [
    | inl e ↦ let blank = ==_sound value [] e in rw (blank) refl
    | inr e ↦ rw (e, parses) formats
  ]

  -- A log whose status is one of the three and whose times are empty or in the form in which they are
  -- formatted arrives at the app as it is stored.
  pub stored_log_arrives :
      (log : RepLog)
      → IsKnownStatus log.status
      → IsTime log.uploaded_at
      → IsTime log.parsed_at
      → stored_log
          (AppClient.log_from_proto format_time (some (Server.log_to_proto parse_time log)))
        ≡ log
  unfolding AppClient.log_from_proto Server.log_to_proto
  stored_log_arrives log known uploaded parsed = λ i. record log {
    status = log_status_arrives log.status known i;
    uploaded_at = timestamp_arrives log.uploaded_at uploaded i;
    parsed_at = timestamp_arrives log.parsed_at parsed i;
  }
