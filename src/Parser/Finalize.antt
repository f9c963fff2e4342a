-- ===== src/Parser/Finalize.antt =====
-- `finalizeParsedLog` of log-services/parser/parser/section.go: records of one node, of one info and
-- of one port are merged, and every node that an info or a port names is made to stand in the list.
pub mod Keys
pub mod Reference
pub mod Consistent
pub mod Nodes
use microservice_log_parser.Prelude.{
  ℕ, zero, suc, ◌+◌, ◌/◌, ◌%◌, ◌<◌, ltb, List, [], ◌∷◌, ◌++◌, Bool, if◌then◌else◌,
}
use microservice_log_parser.Prelude.Eq.{◌==◌}
use microservice_log_parser.Prelude.Int.{ℤ, pos, negsuc}
use microservice_log_parser.Prelude.Text.{Text, codes, text_beq, text_eq, trim_space}
use microservice_log_parser.Parser.Model.{Node, NodeInfo, Port, ParsedLog}
use microservice_log_parser.Parser.Merge.{merge_node, merge_node_info, merge_port}
use microservice_log_parser.Parser.Table.{Table, empty_table, upsert, ensure}

-- The decimal digits of a number, with fuel; a number has at most as many digits as it counts.
unfoldable pub digits : ℕ → ℕ → Text
digits zero n = (48 + n) ∷ []
digits (suc f) n =
    let rest = digits f (n / 10) in if ltb n 10 then (48 + n) ∷ [] else rest ++ (48 + n % 10) ∷ []

-- strconv.Itoa
unfoldable pub itoa : ℤ → Text
unfolding digits
itoa (pos n) = digits n n
itoa (negsuc n) = b'-' ∷ digits (suc n) (suc n)

pub record Tables : Type 0 where
  pub nodes : Table Node
  pub infos : Table NodeInfo
  pub ports : Table Port

abbrev pub no_tables : Tables
no_tables = record { nodes = empty_table; infos = empty_table; ports = empty_table }

-- The node that stands for a GUID of which there is no node record.
abbrev pub bare_node : Text → Node
bare_node guid = record {
  node_guid = guid;
  node_desc = [];
  node_type = pos 0;
  node_kind = codes "unknown";
  num_ports = pos 0;
  class_version = pos 0;
  base_version = pos 0;
  system_image_guid = [];
  port_guid = [];
  raw_json = [];
}

unfoldable pub ensure_node : Text → Table Node → Table Node
unfolding ensure text_beq
ensure_node guid t = if guid == [] then t else ensure guid (bare_node guid) t

abbrev pub trim_node : Node → Node
trim_node node = record node { node_guid = trim_space node.node_guid }

abbrev pub trim_info : NodeInfo → NodeInfo
trim_info info = record info { node_guid = trim_space info.node_guid }

abbrev pub trim_port : Port → Port
trim_port port = record port { node_guid = trim_space port.node_guid }

unfoldable pub port_key : Port → Text
unfolding itoa
port_key port = port.node_guid ++ (b'|' ∷ (port.port_guid ++ (b'|' ∷ itoa port.port_num)))

-- One round of each of the three loops, on a record whose GUID is trimmed.
unfoldable pub add_node : Node → Tables → Tables
unfolding upsert merge_node text_beq
add_node node t =
    if node.node_guid == []
    then t
    else record t { nodes = upsert merge_node node.node_guid node t.nodes }

unfoldable pub add_info : NodeInfo → Tables → Tables
unfolding upsert merge_node_info text_beq
add_info info t = if info.node_guid == [] then t else record t {
  nodes = ensure_node info.node_guid t.nodes;
  infos = upsert merge_node_info info.node_guid info t.infos;
}

unfoldable pub add_port : Port → Tables → Tables
unfolding upsert merge_port port_key text_beq
add_port port t = if port.node_guid == [] then t else record t {
  nodes = ensure_node port.node_guid t.nodes;
  ports = upsert merge_port (port_key port) port t.ports;
}

unfoldable pub add_nodes : List Node → Tables → Tables
unfolding add_node trim_space
add_nodes [] t = t
add_nodes (node ∷ nodes) t = add_nodes nodes (add_node (trim_node node) t)

unfoldable pub add_infos : List NodeInfo → Tables → Tables
unfolding add_info trim_space
add_infos [] t = t
add_infos (info ∷ infos) t = add_infos infos (add_info (trim_info info) t)

unfoldable pub add_ports : List Port → Tables → Tables
unfolding add_port trim_space
add_ports [] t = t
add_ports (port ∷ ports) t = add_ports ports (add_port (trim_port port) t)

unfoldable pub tables_of : ParsedLog → Tables
unfolding add_nodes add_infos add_ports ensure_node
tables_of parsed =
    add_ports parsed.ports (add_infos parsed.nodes_info (add_nodes parsed.nodes no_tables))

unfoldable pub finalize_parsed_log : ParsedLog → ParsedLog
unfolding tables_of
finalize_parsed_log parsed =
    let t = tables_of parsed in
    record { nodes = t.nodes.items; ports = t.ports.items; nodes_info = t.infos.items }
