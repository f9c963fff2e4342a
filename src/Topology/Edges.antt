-- ===== src/Topology/Edges.antt =====
-- The edges of a topology: `buildEdges` of log-services/topology/core/service.go.
pub mod Index
pub mod Trace
pub mod Steps
pub mod Disjoint
use microservice_log_parser.Prelude.{List, [], ◌∷◌, ◌++◌, Bool, Option, none, some, if◌then◌else◌}
use microservice_log_parser.Prelude.Int.{ℤ, pos, ltb_ℤ, int_eq}
use microservice_log_parser.Prelude.Text.{Text, codes, text_eq, text_beq}
use microservice_log_parser.Prelude.Assoc.{Assoc, lookup_or, insert}
use microservice_log_parser.Prelude.Sort.{sort_by}
use microservice_log_parser.Topology.Model.{Node, Port, TopologyEdge}
use microservice_log_parser.Topology.Kinds.{host, switch, normalize_kind}
use microservice_log_parser.Topology.Ports.{
  active_ports_for_kinds, sort_ports, pick_switch_port, first_unused_port, group_ports_by_node_id,
}

-- `Node{}`, the zero value that a map yields for a missing key.
abbrev pub zero_node : Node
zero_node = record {
  id = pos 0;
  log_id = pos 0;
  node_guid = [];
  node_desc = [];
  node_type = pos 0;
  node_kind = [];
  num_ports = pos 0;
  info = none;
}

pub record NodeMaps : Type 0 where
  pub nodes_by_id : Assoc ℤ Node
  pub nodes_by_kind : Assoc Text (List Node)

-- The first loop of `buildEdges`.
unfoldable pub index_nodes : List Node → NodeMaps → NodeMaps
unfolding insert lookup_or normalize_kind text_beq
index_nodes [] m = m
index_nodes (node ∷ nodes) m =
    let kind = normalize_kind node.node_kind in
    index_nodes nodes (record {
      nodes_by_id = insert node.id node m.nodes_by_id;
      nodes_by_kind = insert kind (lookup_or [] kind m.nodes_by_kind ++ node ∷ []) m.nodes_by_kind;
    })

abbrev pub no_nodes : NodeMaps
no_nodes = record { nodes_by_id = []; nodes_by_kind = [] }

-- What the two loops that make edges change: `edges`, and the keys of `usedSwitchPorts`.
pub record EdgeState : Type 0 where
  pub edges : List TopologyEdge
  pub used : List ℤ

abbrev pub no_edges : EdgeState
no_edges = record { edges = []; used = [] }

abbrev pub inferred_host_switch : Text
inferred_host_switch = codes "inferred_host_switch"

abbrev pub inferred_switch_backbone : Text
inferred_switch_backbone = codes "inferred_switch_backbone"

-- The edge literal of both loops: the link fields are those of the source port.
unfoldable pub edge_between : Text → Node → Port → Node → Port → TopologyEdge
edge_between relation source_node source_port target_node target_port = record {
  source_node_id = source_node.id;
  source_node_guid = source_node.node_guid;
  source_port_num = source_port.port_num;
  source_port_guid = source_port.port_guid;
  target_node_id = target_node.id;
  target_node_guid = target_node.node_guid;
  target_port_num = target_port.port_num;
  target_port_guid = target_port.port_guid;
  relation = relation;
  link_width_active = source_port.link_width_active;
  link_speed_active = source_port.link_speed_active;
  port_state = source_port.port_state;
}

-- The edge from a host port to the switch port that was picked for it.
unfoldable pub host_edge : Assoc ℤ Node → Port → Port → TopologyEdge
unfolding edge_between lookup_or
host_edge nodes_by_id host_port switch_port =
    edge_between inferred_host_switch (lookup_or zero_node host_port.node_id nodes_by_id) host_port
      (lookup_or zero_node switch_port.node_id nodes_by_id) switch_port

connect_host : Assoc ℤ Node → Port → Option Port → EdgeState → EdgeState
unfolding host_edge
connect_host nodes_by_id host_port none st = st
connect_host nodes_by_id host_port (some switch_port) st = record {
  edges = st.edges ++ host_edge nodes_by_id host_port switch_port ∷ [];
  used = switch_port.id ∷ st.used;
}

-- The loop over the host ports.
unfoldable pub connect_hosts : Assoc ℤ Node → List Port → List Port → EdgeState → EdgeState
unfolding connect_host pick_switch_port
connect_hosts nodes_by_id switch_ports [] st = st
connect_hosts nodes_by_id switch_ports (host_port ∷ host_ports) st =
    connect_hosts nodes_by_id switch_ports host_ports
      (connect_host nodes_by_id host_port (pick_switch_port host_port switch_ports st.used) st)

-- The second half of a round of the backbone loop; the source port is already marked as used.
connect_target : Node → Port → Node → Option Port → EdgeState → EdgeState
unfolding edge_between
connect_target source_node source_port target_node none st = st
connect_target source_node source_port target_node (some target_port) st = record {
  edges =
      st.edges
      ++ edge_between inferred_switch_backbone source_node source_port target_node target_port ∷ [];
  used = target_port.id ∷ st.used;
}

connect_source : Node → Option Port → Node → List Port → EdgeState → EdgeState
unfolding connect_target first_unused_port
connect_source source_node none target_node target_ports st = st
connect_source source_node (some source_port) target_node target_ports st =
    let st' : EdgeState = record st { used = source_port.id ∷ st.used } in
    connect_target source_node source_port target_node (first_unused_port target_ports st'.used) st'

-- One round of the backbone loop, for `switches[i]` and `switches[i+1]`.
unfoldable pub connect_pair : Assoc ℤ (List Port) → Node → Node → EdgeState → EdgeState
unfolding connect_source first_unused_port lookup_or
connect_pair ports_by_node_id source_node target_node st =
    connect_source source_node
      (first_unused_port (lookup_or [] source_node.id ports_by_node_id) st.used) target_node
      (lookup_or [] target_node.id ports_by_node_id) st

connect_from : Assoc ℤ (List Port) → Node → List Node → EdgeState → EdgeState
unfolding connect_pair
connect_from ports_by_node_id source_node [] st = st
connect_from ports_by_node_id source_node (target_node ∷ nodes) st =
    connect_from ports_by_node_id target_node nodes
      (connect_pair ports_by_node_id source_node target_node st)

-- The loop over the neighbours in the list of switches.
unfoldable pub connect_switches : Assoc ℤ (List Port) → List Node → EdgeState → EdgeState
unfolding connect_from
connect_switches ports_by_node_id [] st = st
connect_switches ports_by_node_id (node ∷ nodes) st = connect_from ports_by_node_id node nodes st

unfoldable pub node_less : Node → Node → Bool
node_less a b = ltb_ℤ a.id b.id

-- The two loops, on the sorted ports, from the maps of the nodes.
unfoldable pub edges_from : NodeMaps → List Port → List Port → EdgeState
unfolding connect_hosts connect_switches group_ports_by_node_id lookup_or sort_by node_less text_beq
edges_from maps host_ports switch_ports =
    connect_switches (group_ports_by_node_id switch_ports)
      (sort_by node_less (lookup_or [] switch maps.nodes_by_kind))
      (connect_hosts maps.nodes_by_id switch_ports host_ports no_edges)

unfoldable pub build_edges : List Node → List Port → List TopologyEdge
unfolding edges_from index_nodes active_ports_for_kinds sort_ports
build_edges nodes ports =
    let maps = index_nodes nodes no_nodes in
    let host_ports = active_ports_for_kinds ports maps.nodes_by_id (host ∷ []) in
    let switch_ports = active_ports_for_kinds ports maps.nodes_by_id (switch ∷ []) in
    (edges_from maps (sort_ports host_ports) (sort_ports switch_ports)).edges
