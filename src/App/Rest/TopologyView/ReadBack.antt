-- ===== src/App/Rest/TopologyView/ReadBack.antt =====
-- The payload of a topology keeps all of it.
use microservice_log_parser.Prelude.{List, [], ◌∷◌, ◌≡◌, refl}
use microservice_log_parser.App.Model.{
  Topology, TopologySummary, TopologyNode, TopologyGroup, TopologyEdge,
}
use microservice_log_parser.App.Rest.TopologyView.{
  TopologySummaryResponse, TopologyNodeResponse, TopologyGroupResponse, TopologyEdgeResponse,
  TopologyResponse, topology_summary_response_from_core, topology_node_response_from_core,
  topology_group_response_from_core, topology_edge_response_from_core,
  topology_nodes_response_from_core, topology_groups_response_from_core,
  topology_edges_response_from_core, topology_response_from_core,
}
use microservice_log_parser.Prelude.{map}

abbrev pub read_summary : TopologySummaryResponse → TopologySummary
read_summary summary = record {
  nodes_count = summary.nodes_count;
  ports_count = summary.ports_count;
  edges_count = summary.edges_count;
  hosts_count = summary.hosts_count;
  switches_count = summary.switches_count;
}

abbrev pub read_node : TopologyNodeResponse → TopologyNode
read_node node = record {
  id = node.id;
  log_id = node.log_id;
  node_guid = node.node_guid;
  node_desc = node.node_desc;
  node_type = node.node_type;
  node_kind = node.node_kind;
  declared_ports_count = node.declared_ports_count;
  parsed_ports_count = node.parsed_ports_count;
  serial_number = node.serial_number;
  product_name = node.product_name;
}

abbrev pub read_group : TopologyGroupResponse → TopologyGroup
read_group group = record {
  name = group.name;
  kind = group.kind;
  node_ids = group.node_ids;
  node_guids = group.node_guids;
}

abbrev pub read_edge : TopologyEdgeResponse → TopologyEdge
read_edge edge = record {
  source_node_id = edge.source_node_id;
  source_node_guid = edge.source_node_guid;
  source_port_num = edge.source_port_num;
  source_port_guid = edge.source_port_guid;
  target_node_id = edge.target_node_id;
  target_node_guid = edge.target_node_guid;
  target_port_num = edge.target_port_num;
  target_port_guid = edge.target_port_guid;
  relation = edge.relation;
  link_width_active = edge.link_width_active;
  link_speed_active = edge.link_speed_active;
  port_state = edge.port_state;
}

nodes_read :
    (nodes : List TopologyNode) → map read_node (topology_nodes_response_from_core nodes) ≡ nodes
unfolding topology_nodes_response_from_core topology_node_response_from_core
nodes_read [] = refl
nodes_read (node ∷ nodes) = λ i. node ∷ nodes_read nodes i

groups_read :
    (groups : List TopologyGroup)
    → map read_group (topology_groups_response_from_core groups) ≡ groups
unfolding topology_groups_response_from_core topology_group_response_from_core
groups_read [] = refl
groups_read (group ∷ groups) = λ i. group ∷ groups_read groups i

edges_read :
    (edges : List TopologyEdge) → map read_edge (topology_edges_response_from_core edges) ≡ edges
unfolding topology_edges_response_from_core topology_edge_response_from_core
edges_read [] = refl
edges_read (edge ∷ edges) = λ i. edge ∷ edges_read edges i

-- A reader of the payload.
abbrev pub read : TopologyResponse → Topology
read resp = record {
  log_id = resp.log_id;
  summary = read_summary resp.summary;
  nodes = map read_node resp.nodes;
  groups = map read_group resp.groups;
  edges = map read_edge resp.edges;
}

-- The payload of a topology reads back as the topology: its id, its summary, and every field of every
-- node, group and edge, in order.
pub read-topology_response_from_core :
    (topology : Topology) → read (topology_response_from_core topology) ≡ topology
unfolding topology_response_from_core topology_summary_response_from_core
read-topology_response_from_core topology = λ i. record topology {
  nodes = nodes_read topology.nodes i;
  groups = groups_read topology.groups i;
  edges = edges_read topology.edges i;
}
