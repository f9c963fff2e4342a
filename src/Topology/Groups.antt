-- ===== src/Topology/Groups.antt =====
-- The nodes of a topology and their groups by kind: the loops of `GetTopology` and `groupsFromMap`
-- in log-services/topology/core/service.go.
pub mod Members
pub mod Complete
use microservice_log_parser.Prelude.{
  List, [], ◌∷◌, ◌++◌, Bool, true, false, Option, none, some, map, if◌then◌else◌,
}
use microservice_log_parser.Prelude.Eq.{◌==◌, contains}
use microservice_log_parser.Prelude.Int.{ℤ, pos, is_positive, int_eq}
use microservice_log_parser.Prelude.Text.{Text, text_eq, text_beq, text_lt}
use microservice_log_parser.Prelude.Assoc.{Assoc, keys, lookup, lookup_or, insert}
use microservice_log_parser.Prelude.Sort.{sort_by}
use microservice_log_parser.Topology.Model.{Node, NodeInfo, Port, TopologyNode, TopologyGroup}
use microservice_log_parser.Topology.Kinds.{host, switch, unknown, normalize_kind, group_name}
use microservice_log_parser.Topology.Ports.{increment}

pub record PortCounts : Type 0 where
  pub by_node_id : Assoc ℤ ℤ
  pub by_node_guid : Assoc Text ℤ

abbrev pub no_ports : PortCounts
no_ports = record { by_node_id = []; by_node_guid = [] }

-- The loop over the ports of `GetTopology`.
unfoldable pub count_ports : List Port → PortCounts → PortCounts
unfolding insert lookup_or increment text_beq
count_ports [] c = c
count_ports (port ∷ ports) c = count_ports ports (record {
  by_node_id =
      if is_positive port.node_id
      then insert port.node_id (increment (lookup_or (pos 0) port.node_id c.by_node_id))
          c.by_node_id
      else c.by_node_id;
  by_node_guid =
      if port.node_guid == []
      then c.by_node_guid
      else insert port.node_guid (increment (lookup_or (pos 0) port.node_guid c.by_node_guid))
          c.by_node_guid;
})

unfoldable pub parsed_ports_count : PortCounts → Node → ℤ
unfolding lookup_or text_beq
parsed_ports_count c node =
    let by_id = lookup_or (pos 0) node.id c.by_node_id in
    if by_id == pos 0 then lookup_or (pos 0) node.node_guid c.by_node_guid else by_id

abbrev serial_of : Option NodeInfo → Text
serial_of none = []
serial_of (some info) = info.serial_number

abbrev product_of : Option NodeInfo → Text
product_of none = []
product_of (some info) = info.product_name

unfoldable pub topology_node : PortCounts → Node → TopologyNode
unfolding normalize_kind parsed_ports_count
topology_node c node = record {
  id = node.id;
  log_id = node.log_id;
  node_guid = node.node_guid;
  node_desc = node.node_desc;
  node_type = node.node_type;
  node_kind = normalize_kind node.node_kind;
  declared_ports_count = node.num_ports;
  parsed_ports_count = parsed_ports_count c node;
  serial_number = serial_of node.info;
  product_name = product_of node.info;
}

-- The variables that the loop over the nodes changes.
pub record BuildState : Type 0 where
  pub topology_nodes : List TopologyNode
  pub groups_by_kind : Assoc Text TopologyGroup
  pub hosts_count : ℤ
  pub switches_count : ℤ

abbrev pub empty_build : BuildState
empty_build = record {
  topology_nodes = [];
  groups_by_kind = [];
  hosts_count = pos 0;
  switches_count = pos 0;
}

abbrev new_group : Text → TopologyGroup
new_group kind = record { name = group_name kind; kind = kind; node_ids = []; node_guids = [] }

-- The group of a kind, with one more node. The map holds pointers; the new group takes the old
-- one's place under its key.
unfoldable pub join_group : Text → Node → Assoc Text TopologyGroup → Assoc Text TopologyGroup
unfolding lookup_or insert group_name text_beq
join_group kind node groups =
    let group = lookup_or (new_group kind) kind groups in
    insert kind
      (record group {
        node_ids = group.node_ids ++ node.id ∷ [];
        node_guids = group.node_guids ++ node.node_guid ∷ [];
      })
      groups

unfoldable pub add_node : PortCounts → BuildState → Node → BuildState
unfolding normalize_kind topology_node join_group increment text_beq
add_node c st node =
    let kind = normalize_kind node.node_kind in
    record {
      topology_nodes = st.topology_nodes ++ topology_node c node ∷ [];
      groups_by_kind = join_group kind node st.groups_by_kind;
      hosts_count = if kind == host then increment st.hosts_count else st.hosts_count;
      switches_count = if kind == switch then increment st.switches_count else st.switches_count;
    }

unfoldable pub add_nodes : PortCounts → List Node → BuildState → BuildState
unfolding add_node
add_nodes c [] st = st
add_nodes c (node ∷ nodes) st = add_nodes c nodes (add_node c st node)

abbrev pub kind_order : List Text
kind_order = host ∷ switch ∷ unknown ∷ []

-- The groups of the listed kinds, in the order of the list; a kind that is no key is skipped.
unfoldable pub groups_in : List Text → Assoc Text TopologyGroup → List TopologyGroup
unfolding lookup text_beq
groups_in [] m = []
groups_in (kind ∷ kinds) m = elim (lookup kind m) [
  | none ↦ groups_in kinds m
  | some group ↦ group ∷ groups_in kinds m
]

-- The keys that are not marked as used. A kind of `kind_order` is used exactly if it is a key.
unfoldable pub unlisted : List Text → List Text
unfolding contains text_beq
unlisted [] = []
unlisted (kind ∷ kinds) =
    let rest = unlisted kinds in if contains kind_order kind then rest else kind ∷ rest

-- `groupsFromMap`. The source reads the keys in no fixed order, and then sorts those it needs.
unfoldable pub groups_from_map : Assoc Text TopologyGroup → List TopologyGroup
unfolding groups_in unlisted sort_by text_lt
groups_from_map m = groups_in kind_order m ++ groups_in (sort_by text_lt (unlisted (keys m))) m
