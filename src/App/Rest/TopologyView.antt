-- ===== src/App/Rest/TopologyView.antt =====
-- The topology's handler and its payloads, log-services/app/adapters/rest/topology.go and payloads.go.
pub mod ReadBack
use microservice_log_parser.Prelude.{List, [], ◌∷◌, ◌≡◌, refl, map, ap}
use microservice_log_parser.Prelude.Int.{ℤ}
use microservice_log_parser.Prelude.Text.{Text}
use microservice_log_parser.Prelude.Result.{Result, ok, err}
use microservice_log_parser.App.Model.{
  Error, Topology, TopologySummary, TopologyNode, TopologyGroup, TopologyEdge,
}
use microservice_log_parser.App.Service.{Ports, get_topology}
use microservice_log_parser.App.Rest.Pagination.{parse_path_value}
use microservice_log_parser.App.Rest.Handlers.{
  Reply, sent, refused, panicked, or_refuse, answer, http_status_from_error,
}

pub record TopologySummaryResponse : Type 0 where
  pub nodes_count : ℤ
  pub ports_count : ℤ
  pub edges_count : ℤ
  pub hosts_count : ℤ
  pub switches_count : ℤ

pub record TopologyNodeResponse : Type 0 where
  pub id : ℤ
  pub log_id : ℤ
  pub node_guid : Text
  pub node_desc : Text
  pub node_type : ℤ
  pub node_kind : Text
  pub declared_ports_count : ℤ
  pub parsed_ports_count : ℤ
  pub serial_number : Text
  pub product_name : Text

pub record TopologyGroupResponse : Type 0 where
  pub name : Text
  pub kind : Text
  pub node_ids : List ℤ
  pub node_guids : List Text

pub record TopologyEdgeResponse : Type 0 where
  pub source_node_id : ℤ
  pub source_node_guid : Text
  pub source_port_num : ℤ
  pub source_port_guid : Text
  pub target_node_id : ℤ
  pub target_node_guid : Text
  pub target_port_num : ℤ
  pub target_port_guid : Text
  pub relation : Text
  pub link_width_active : ℤ
  pub link_speed_active : ℤ
  pub port_state : ℤ

pub record TopologyResponse : Type 0 where
  pub log_id : ℤ
  pub summary : TopologySummaryResponse
  pub nodes : List TopologyNodeResponse
  pub groups : List TopologyGroupResponse
  pub edges : List TopologyEdgeResponse

unfoldable pub topology_summary_response_from_core : TopologySummary → TopologySummaryResponse
topology_summary_response_from_core summary = record {
  nodes_count = summary.nodes_count;
  ports_count = summary.ports_count;
  edges_count = summary.edges_count;
  hosts_count = summary.hosts_count;
  switches_count = summary.switches_count;
}

unfoldable pub topology_node_response_from_core : TopologyNode → TopologyNodeResponse
topology_node_response_from_core node = record {
  id = node.id;
  log_id = node.log_id;
  node_guid = node.node_guid;
  node_desc = node.node_desc;
  node_type = node.node_type;
  node_kind = node.node_kind;
  declared_ports_count = node.declared_ports_count;
  parsed_ports_count = node.parsed_ports_count;
  serial_number = node.serial_number;
  product_name = node.product_name;
}

unfoldable pub topology_group_response_from_core : TopologyGroup → TopologyGroupResponse
topology_group_response_from_core group = record {
  name = group.name;
  kind = group.kind;
  node_ids = group.node_ids;
  node_guids = group.node_guids;
}

unfoldable pub topology_edge_response_from_core : TopologyEdge → TopologyEdgeResponse
topology_edge_response_from_core edge = record {
  source_node_id = edge.source_node_id;
  source_node_guid = edge.source_node_guid;
  source_port_num = edge.source_port_num;
  source_port_guid = edge.source_port_guid;
  target_node_id = edge.target_node_id;
  target_node_guid = edge.target_node_guid;
  target_port_num = edge.target_port_num;
  target_port_guid = edge.target_port_guid;
  relation = edge.relation;
  link_width_active = edge.link_width_active;
  link_speed_active = edge.link_speed_active;
  port_state = edge.port_state;
}

unfoldable pub topology_nodes_response_from_core : List TopologyNode → List TopologyNodeResponse
unfolding topology_node_response_from_core
topology_nodes_response_from_core [] = []
topology_nodes_response_from_core (node ∷ nodes) =
    topology_node_response_from_core node ∷ topology_nodes_response_from_core nodes

unfoldable pub topology_groups_response_from_core : List TopologyGroup → List TopologyGroupResponse
unfolding topology_group_response_from_core
topology_groups_response_from_core [] = []
topology_groups_response_from_core (group ∷ groups) =
    topology_group_response_from_core group ∷ topology_groups_response_from_core groups

unfoldable pub topology_edges_response_from_core : List TopologyEdge → List TopologyEdgeResponse
unfolding topology_edge_response_from_core
topology_edges_response_from_core [] = []
topology_edges_response_from_core (edge ∷ edges) =
    topology_edge_response_from_core edge ∷ topology_edges_response_from_core edges

unfoldable pub topology_response_from_core : Topology → TopologyResponse
unfolding topology_summary_response_from_core topology_nodes_response_from_core
    topology_groups_response_from_core topology_edges_response_from_core
topology_response_from_core topology = record {
  log_id = topology.log_id;
  summary = topology_summary_response_from_core topology.summary;
  nodes = topology_nodes_response_from_core topology.nodes;
  groups = topology_groups_response_from_core topology.groups;
  edges = topology_edges_response_from_core topology.edges;
}

module _ {S : Type 0} (p : Ports S) where
  unfoldable pub get_topology_handler : Text → S → Reply TopologyResponse × S
  unfolding parse_path_value get_topology answer topology_response_from_core
  get_topology_handler log_id_value = or_refuse (parse_path_value log_id_value) λ log_id.
      answer (get_topology p log_id) λ topology. sent (topology_response_from_core topology)
