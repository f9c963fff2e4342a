-- ===== src/Parser/Merge.antt =====
-- `mergeNode`, `mergeNodeInfo` and `mergePort` of log-services/parser/parser/section.go.
use microservice_log_parser.Prelude.{[], ◌∷◌, not, ◌&&◌, if◌then◌else◌}
use microservice_log_parser.Prelude.Eq.{◌==◌}
use microservice_log_parser.Prelude.Int.{ℤ, pos, int_eq}
use microservice_log_parser.Prelude.Text.{Text, codes, text_beq, text_eq}
use microservice_log_parser.Parser.Model.{Node, NodeInfo, Port}

-- `if patch.F != "" { base.F = patch.F }`
unfoldable pub patch_text : Text → Text → Text
patch_text base [] = base
patch_text base (c ∷ s) = c ∷ s

-- `if patch.F != 0 { base.F = patch.F }`
unfoldable pub patch_int : ℤ → ℤ → ℤ
patch_int base patch = if patch == pos 0 then base else patch

-- `if patch.NodeKind != "" && patch.NodeKind != "unknown" { … }`
unfoldable pub patch_kind : Text → Text → Text
unfolding text_beq
patch_kind base patch = if not (patch == []) && not (patch == codes "unknown") then patch else base

unfoldable pub merge_node : Node → Node → Node
unfolding patch_text patch_int patch_kind
merge_node base patch = record base {
  node_desc = patch_text base.node_desc patch.node_desc;
  node_type = patch_int base.node_type patch.node_type;
  node_kind = patch_kind base.node_kind patch.node_kind;
  num_ports = patch_int base.num_ports patch.num_ports;
  class_version = patch_int base.class_version patch.class_version;
  base_version = patch_int base.base_version patch.base_version;
  system_image_guid = patch_text base.system_image_guid patch.system_image_guid;
  port_guid = patch_text base.port_guid patch.port_guid;
  raw_json = patch_text base.raw_json patch.raw_json;
}

unfoldable pub merge_node_info : NodeInfo → NodeInfo → NodeInfo
unfolding patch_text
merge_node_info base patch = record base {
  serial_number = patch_text base.serial_number patch.serial_number;
  part_number = patch_text base.part_number patch.part_number;
  revision = patch_text base.revision patch.revision;
  product_name = patch_text base.product_name patch.product_name;
  raw_json = patch_text base.raw_json patch.raw_json;
}

unfoldable pub merge_port : Port → Port → Port
unfolding patch_text patch_int
merge_port base patch = record base {
  port_guid = patch_text base.port_guid patch.port_guid;
  port_num = patch_int base.port_num patch.port_num;
  lid = patch_int base.lid patch.lid;
  local_port_num = patch_int base.local_port_num patch.local_port_num;
  port_state = patch_int base.port_state patch.port_state;
  port_phy_state = patch_int base.port_phy_state patch.port_phy_state;
  link_width_active = patch_int base.link_width_active patch.link_width_active;
  link_speed_active = patch_int base.link_speed_active patch.link_speed_active;
  raw_json = patch_text base.raw_json patch.raw_json;
}
