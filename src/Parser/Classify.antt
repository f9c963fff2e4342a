-- ===== src/Parser/Classify.antt =====
-- `classifyRecord` and `recordsToParsedLog` of log-services/parser/parser/section.go.
use microservice_log_parser.Prelude.{List, [], ◌∷◌, ◌++◌, ◌||◌, if◌then◌else◌}
use microservice_log_parser.Prelude.Text.{Text, codes, text_contains}
use microservice_log_parser.Prelude.Result.{Result, ok, ◌>>=◌}
use microservice_log_parser.Parser.Model.{Error, Node, NodeInfo, Port, ParsedLog}
use microservice_log_parser.Parser.Record.{
  Record, normalize_key, normalize_record, get, has_any, parse_optional_int32, raw_json,
  derive_node_kind,
}

-- The strings that `classifyRecord` returns; `unclassified` is the empty one.
pub data Class : Type 0 where
  port_record info_record node_record unclassified : Class

unfoldable pub classify_record : Text → Record → Class
unfolding normalize_key has_any text_contains
classify_record file_name rec =
    let name = normalize_key file_name in
    if has_any rec (
        codes "portnum"
        ∷ codes "portnumber"
        ∷ codes "localportnum"
        ∷ codes "localportnumber"
        ∷ codes "lid"
        ∷ codes "portstate"
        ∷ codes "portphystate"
        ∷ codes "phystate"
        ∷ codes "linkwidthactive"
        ∷ codes "linkspeedactive"
        ∷ [])
      || text_contains name (codes "port")
    then port_record
    else if has_any rec
          (codes "serialnumber" ∷ codes "partnumber" ∷ codes "revision" ∷ codes "productname" ∷ [])
        || (text_contains name (codes "nodeinfo")
            || (text_contains name (codes "nodesinfo") || text_contains name (codes "sharpaninfo")))
    then info_record
    else if has_any rec (codes "nodeguid" ∷ codes "nodeid" ∷ codes "guid" ∷ [])
        || text_contains name (codes "node")
    then node_record
    else unclassified

abbrev pub no_records : ParsedLog
no_records = record { nodes = []; ports = []; nodes_info = [] }

-- The port of a record; the first number that is malformed ends the parse.
unfoldable pub read_port : Record → Text → Result Error Port
unfolding parse_optional_int32 get
read_port rec raw = do
  port_num ← parse_optional_int32 rec (codes "portnum" ∷ codes "portnumber" ∷ codes "port" ∷ [])
  lid ← parse_optional_int32 rec (codes "lid" ∷ [])
  local_port_num ← parse_optional_int32 rec (codes "localportnum" ∷ codes "localportnumber" ∷ [])
  port_state ← parse_optional_int32 rec (codes "portstate" ∷ codes "state" ∷ [])
  port_phy_state ←
      parse_optional_int32 rec
        (codes "portphystate" ∷ codes "phystate" ∷ codes "physicalstate" ∷ [])
  link_width_active ←
      parse_optional_int32 rec
        (codes "linkwidthactive" ∷ codes "linkwidthactv" ∷ codes "linkwidth" ∷ [])
  link_speed_active ←
      parse_optional_int32 rec
        (codes "linkspeedactive" ∷ codes "linkspeedactv" ∷ codes "linkspeed" ∷ [])
  ok (record {
    node_guid = get rec (codes "nodeguid" ∷ codes "nodeid" ∷ codes "node" ∷ []);
    port_guid = get rec (codes "portguid" ∷ codes "portid" ∷ []);
    port_num = port_num;
    lid = lid;
    local_port_num = local_port_num;
    port_state = port_state;
    port_phy_state = port_phy_state;
    link_width_active = link_width_active;
    link_speed_active = link_speed_active;
    raw_json = raw;
  })

unfoldable pub read_info : Record → Text → NodeInfo
unfolding get
read_info rec raw = record {
  node_guid = get rec (codes "nodeguid" ∷ codes "nodeid" ∷ codes "node" ∷ []);
  serial_number = get rec (codes "serialnumber" ∷ codes "serial" ∷ codes "sn" ∷ []);
  part_number = get rec (codes "partnumber" ∷ codes "part" ∷ codes "pn" ∷ []);
  revision = get rec (codes "revision" ∷ codes "rev" ∷ []);
  product_name = get rec (codes "productname" ∷ codes "product" ∷ codes "description" ∷ []);
  raw_json = raw;
}

unfoldable pub read_node : Record → Text → Result Error Node
unfolding parse_optional_int32 get derive_node_kind
read_node rec raw = do
  node_type ← parse_optional_int32 rec (codes "nodetype" ∷ codes "type" ∷ [])
  num_ports ← parse_optional_int32 rec (codes "numports" ∷ codes "ports" ∷ codes "portcount" ∷ [])
  class_version ← parse_optional_int32 rec (codes "classversion" ∷ [])
  base_version ← parse_optional_int32 rec (codes "baseversion" ∷ [])
  ok (record {
    node_guid = get rec (codes "nodeguid" ∷ codes "nodeid" ∷ codes "node" ∷ codes "guid" ∷ []);
    node_desc = node_desc;
    node_type = node_type;
    node_kind =
        derive_node_kind (get rec (codes "nodekind" ∷ codes "kind" ∷ [])) node_desc node_type;
    num_ports = num_ports;
    class_version = class_version;
    base_version = base_version;
    system_image_guid = get rec (codes "systemimageguid" ∷ codes "systemimage" ∷ []);
    port_guid = get rec (codes "portguid" ∷ []);
    raw_json = raw;
  })
  where
    node_desc : Text
    node_desc = get rec (codes "nodedesc" ∷ codes "description" ∷ codes "desc" ∷ codes "name" ∷ [])

-- One round of the loop of `recordsToParsedLog`.
unfoldable pub add_record : Class → Record → Text → ParsedLog → Result Error ParsedLog
unfolding read_port read_info read_node
add_record port_record rec raw parsed = do
  port ← read_port rec raw
  ok (record parsed { ports = parsed.ports ++ port ∷ [] })
add_record info_record rec raw parsed =
    ok (record parsed { nodes_info = parsed.nodes_info ++ read_info rec raw ∷ [] })
add_record node_record rec raw parsed = do
  node ← read_node rec raw
  ok (record parsed { nodes = parsed.nodes ++ node ∷ [] })
add_record unclassified rec raw parsed = ok parsed

add_records : Text → List Record → ParsedLog → Result Error ParsedLog
unfolding add_record classify_record normalize_record raw_json
add_records file_name [] parsed = ok parsed
add_records file_name (rec ∷ records) parsed =
    let normalized = normalize_record rec in
    do
      parsed' ← add_record (classify_record file_name normalized) normalized (raw_json rec) parsed
      add_records file_name records parsed'

unfoldable pub records_to_parsed_log : Text → List Record → Result Error ParsedLog
unfolding add_records
records_to_parsed_log file_name records = add_records file_name records no_records
