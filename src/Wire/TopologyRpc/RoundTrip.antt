-- ===== src/Wire/TopologyRpc/RoundTrip.antt =====
-- The topology's result on its way to the app.
use microservice_log_parser.Prelude.{◌≡◌, refl, map, ap}
use microservice_log_parser.Prelude.Int.{ℤ}
use microservice_log_parser.Prelude.Text.{Text}
use microservice_log_parser.Prelude.Result.{Result, ok, err}
use microservice_log_parser.Topology.Model.{
  TopologySummary as CoreTopologySummary, TopologyNode as CoreTopologyNode,
  TopologyGroup as CoreTopologyGroup, TopologyEdge as CoreTopologyEdge,
  TopologyResult as CoreTopologyResult, Error as CoreError, bad_arguments as refused_arguments,
  not_found as no_log, unavailable as unreached, log_not_parsed, other as failed,
}
use microservice_log_parser.App.Model.{
  TopologySummary as AppTopologySummary, TopologyNode as AppTopologyNode,
  TopologyGroup as AppTopologyGroup, TopologyEdge as AppTopologyEdge, Topology as AppTopology,
  Error as AppError, bad_arguments, not_found, unavailable, conflict, other,
}
use microservice_log_parser.Wire.Status.{Code, internal}
use microservice_log_parser.Wire.ParserRpc.RoundTrip.{sent-seen}
use microservice_log_parser.Wire.TopologyRpc.{
  summary_to_proto, summary_from_proto, node_to_proto, node_from_proto, group_to_proto,
  group_from_proto, edge_to_proto, edge_from_proto, topology_to_proto, topology_from_proto,
  grpc_error, map_grpc_error, serve_get_topology, call_get_topology,
}

-- The topology's result as the app has it.
abbrev pub seen_summary : AppTopologySummary → CoreTopologySummary
seen_summary summary = record {
  nodes_count = summary.nodes_count;
  ports_count = summary.ports_count;
  edges_count = summary.edges_count;
  hosts_count = summary.hosts_count;
  switches_count = summary.switches_count;
}

abbrev pub seen_node : AppTopologyNode → CoreTopologyNode
seen_node node = record {
  id = node.id;
  log_id = node.log_id;
  node_guid = node.node_guid;
  node_desc = node.node_desc;
  node_type = node.node_type;
  node_kind = node.node_kind;
  declared_ports_count = node.declared_ports_count;
  parsed_ports_count = node.parsed_ports_count;
  serial_number = node.serial_number;
  product_name = node.product_name;
}

abbrev pub seen_group : AppTopologyGroup → CoreTopologyGroup
seen_group group = record {
  name = group.name;
  kind = group.kind;
  node_ids = group.node_ids;
  node_guids = group.node_guids;
}

abbrev pub seen_edge : AppTopologyEdge → CoreTopologyEdge
seen_edge edge = record {
  source_node_id = edge.source_node_id;
  source_node_guid = edge.source_node_guid;
  source_port_num = edge.source_port_num;
  source_port_guid = edge.source_port_guid;
  target_node_id = edge.target_node_id;
  target_node_guid = edge.target_node_guid;
  target_port_num = edge.target_port_num;
  target_port_guid = edge.target_port_guid;
  relation = edge.relation;
  link_width_active = edge.link_width_active;
  link_speed_active = edge.link_speed_active;
  port_state = edge.port_state;
}

abbrev pub seen : AppTopology → CoreTopologyResult
seen topology = record {
  log_id = topology.log_id;
  summary = seen_summary topology.summary;
  nodes = map seen_node topology.nodes;
  groups = map seen_group topology.groups;
  edges = map seen_edge topology.edges;
}

pub seen-topology_from_proto :
    (result : CoreTopologyResult) → seen (topology_from_proto (topology_to_proto result)) ≡ result
unfolding topology_from_proto topology_to_proto summary_to_proto node_to_proto group_to_proto
    edge_to_proto summary_from_proto node_from_proto group_from_proto edge_from_proto
seen-topology_from_proto result = λ i. record {
  log_id = result.log_id;
  summary = result.summary;
  nodes = sent-seen seen_node node_from_proto node_to_proto (λ n. refl) result.nodes i;
  groups = sent-seen seen_group group_from_proto group_to_proto (λ g. refl) result.groups i;
  edges = sent-seen seen_edge edge_from_proto edge_to_proto (λ e. refl) result.edges i;
}

module _ (status_text : Code → Text) where
  -- The app's error for each of the topology's.
  abbrev pub translated : CoreError → AppError
  translated refused_arguments = bad_arguments
  translated no_log = not_found
  translated log_not_parsed = conflict
  translated unreached = unavailable
  translated failed = other (status_text internal)

  abbrev pub Arrives : Result CoreError CoreTopologyResult → Result AppError AppTopology → Type 0
  Arrives (ok result) received = (r : AppTopology) × (received ≡ ok r) × (seen r ≡ result)
  Arrives (err e) received = received ≡ err (translated e)

  translated-map_grpc_error :
      (e : CoreError) → map_grpc_error status_text (grpc_error e) ≡ translated e
  unfolding map_grpc_error grpc_error
  translated-map_grpc_error refused_arguments = refl
  translated-map_grpc_error no_log = refl
  translated-map_grpc_error log_not_parsed = refl
  translated-map_grpc_error unreached = refl
  translated-map_grpc_error failed = refl

  -- What the app receives of a call of the topology. A result arrives with its summary and every field
  -- of every node, group and edge, in order. An error arrives as bad arguments, not found,
  -- conflict for a log that is not parsed, or unavailable; any other as one that is none of the app's.
  pub call_get_topology-Arrives :
      (get_topology : ℤ → Result CoreError CoreTopologyResult) (log_id : ℤ)
      → Arrives
          (get_topology log_id)
          (call_get_topology status_text (serve_get_topology get_topology) log_id)
  unfolding call_get_topology serve_get_topology
  call_get_topology-Arrives get_topology log_id = by_result (get_topology log_id)
    where
      by_result :
          (r : Result CoreError CoreTopologyResult)
          → Arrives r (call_get_topology status_text (serve_get_topology (λ _. r)) log_id)
      by_result (ok result) =
          (topology_from_proto (topology_to_proto result), refl, seen-topology_from_proto result)
      by_result (err e) = ap err (translated-map_grpc_error e)
