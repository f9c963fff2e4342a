-- ===== src/Wire/TopologyRpc.antt =====
-- The topology over gRPC: the messages of log-services/proto/topology/topology.proto, the server
-- log-services/topology/adapters/grpc/server.go and the client log-services/app/adapters/topology/topology.go.
pub mod RoundTrip
use microservice_log_parser.Prelude.{List, [], Option, none, some}
use microservice_log_parser.Prelude.Int.{ℤ, pos}
use microservice_log_parser.Prelude.Text.{Text, text_beq, text_eq}
use microservice_log_parser.Prelude.Result.{Result, ok, err}
use microservice_log_parser.Prelude.Eq.{◌==◌}
use microservice_log_parser.Prelude.{if◌then◌else◌}
use microservice_log_parser.Topology.Model.{
  TopologySummary as CoreTopologySummary, TopologyNode as CoreTopologyNode,
  TopologyGroup as CoreTopologyGroup, TopologyEdge as CoreTopologyEdge,
  TopologyResult as CoreTopologyResult, Error as CoreError, bad_arguments as refused_arguments,
  not_found as no_log, unavailable as unreached, log_not_parsed, other as failed,
}
use microservice_log_parser.App.Model.{
  TopologySummary as AppTopologySummary, TopologyNode as AppTopologyNode,
  TopologyGroup as AppTopologyGroup, TopologyEdge as AppTopologyEdge, Topology as AppTopology,
  Error as AppError, bad_arguments, not_found, unavailable, conflict, other,
}
use microservice_log_parser.Wire.Status.{
  Code, canceled, unknown_code, invalid_argument, deadline_exceeded, already_exists, missing,
  permission_denied, resource_exhausted, failed_precondition, aborted, out_of_range, unimplemented,
  internal, unreachable, data_loss, unauthenticated, each, all_some, convert, relay,
}

pub record TopologySummary : Type 0 where
  pub nodes_count : ℤ
  pub ports_count : ℤ
  pub edges_count : ℤ
  pub hosts_count : ℤ
  pub switches_count : ℤ

pub record TopologyNode : Type 0 where
  pub id : ℤ
  pub log_id : ℤ
  pub node_guid : Text
  pub node_desc : Text
  pub node_type : ℤ
  pub node_kind : Text
  pub declared_ports_count : ℤ
  pub parsed_ports_count : ℤ
  pub serial_number : Text
  pub product_name : Text

pub record TopologyGroup : Type 0 where
  pub name : Text
  pub kind : Text
  pub node_ids : List ℤ
  pub node_guids : List Text

pub record TopologyEdge : Type 0 where
  pub source_node_id : ℤ
  pub source_node_guid : Text
  pub source_port_num : ℤ
  pub source_port_guid : Text
  pub target_node_id : ℤ
  pub target_node_guid : Text
  pub target_port_num : ℤ
  pub target_port_guid : Text
  pub relation : Text
  pub link_width_active : ℤ
  pub link_speed_active : ℤ
  pub port_state : ℤ

pub record TopologyResponse : Type 0 where
  pub log_id : ℤ
  pub summary : Option TopologySummary
  pub nodes : List (Option TopologyNode)
  pub groups : List (Option TopologyGroup)
  pub edges : List (Option TopologyEdge)

pub record GetTopologyRequest : Type 0 where
  pub log_id : ℤ

-- The server.
unfoldable pub summary_to_proto : CoreTopologySummary → TopologySummary
summary_to_proto summary = record {
  nodes_count = summary.nodes_count;
  ports_count = summary.ports_count;
  edges_count = summary.edges_count;
  hosts_count = summary.hosts_count;
  switches_count = summary.switches_count;
}

unfoldable pub node_to_proto : CoreTopologyNode → TopologyNode
node_to_proto node = record {
  id = node.id;
  log_id = node.log_id;
  node_guid = node.node_guid;
  node_desc = node.node_desc;
  node_type = node.node_type;
  node_kind = node.node_kind;
  declared_ports_count = node.declared_ports_count;
  parsed_ports_count = node.parsed_ports_count;
  serial_number = node.serial_number;
  product_name = node.product_name;
}

unfoldable pub group_to_proto : CoreTopologyGroup → TopologyGroup
group_to_proto group = record {
  name = group.name;
  kind = group.kind;
  node_ids = group.node_ids;
  node_guids = group.node_guids;
}

unfoldable pub edge_to_proto : CoreTopologyEdge → TopologyEdge
edge_to_proto edge = record {
  source_node_id = edge.source_node_id;
  source_node_guid = edge.source_node_guid;
  source_port_num = edge.source_port_num;
  source_port_guid = edge.source_port_guid;
  target_node_id = edge.target_node_id;
  target_node_guid = edge.target_node_guid;
  target_port_num = edge.target_port_num;
  target_port_guid = edge.target_port_guid;
  relation = edge.relation;
  link_width_active = edge.link_width_active;
  link_speed_active = edge.link_speed_active;
  port_state = edge.port_state;
}

unfoldable pub topology_to_proto : CoreTopologyResult → TopologyResponse
unfolding all_some summary_to_proto node_to_proto group_to_proto edge_to_proto
topology_to_proto result = record {
  log_id = result.log_id;
  summary = some (summary_to_proto result.summary);
  nodes = all_some node_to_proto result.nodes;
  groups = all_some group_to_proto result.groups;
  edges = all_some edge_to_proto result.edges;
}

unfoldable pub grpc_error : CoreError → Code
grpc_error refused_arguments = invalid_argument
grpc_error no_log = missing
grpc_error log_not_parsed = failed_precondition
grpc_error unreached = unreachable
grpc_error failed = internal

-- `Server.GetTopology`, over the service's `GetTopology`.
unfoldable pub serve_get_topology :
    (ℤ → Result CoreError CoreTopologyResult)
    → Option GetTopologyRequest
    → Result Code TopologyResponse
unfolding topology_to_proto grpc_error
serve_get_topology get_topology none = err invalid_argument
serve_get_topology get_topology (some req) =
    convert grpc_error topology_to_proto (get_topology req.log_id)

-- The client.
unfoldable pub node_from_proto : TopologyNode → AppTopologyNode
node_from_proto node = record {
  id = node.id;
  log_id = node.log_id;
  node_guid = node.node_guid;
  node_desc = node.node_desc;
  node_type = node.node_type;
  node_kind = node.node_kind;
  declared_ports_count = node.declared_ports_count;
  parsed_ports_count = node.parsed_ports_count;
  serial_number = node.serial_number;
  product_name = node.product_name;
}

unfoldable pub group_from_proto : TopologyGroup → AppTopologyGroup
group_from_proto group = record {
  name = group.name;
  kind = group.kind;
  node_ids = group.node_ids;
  node_guids = group.node_guids;
}

unfoldable pub edge_from_proto : TopologyEdge → AppTopologyEdge
edge_from_proto edge = record {
  source_node_id = edge.source_node_id;
  source_node_guid = edge.source_node_guid;
  source_port_num = edge.source_port_num;
  source_port_guid = edge.source_port_guid;
  target_node_id = edge.target_node_id;
  target_node_guid = edge.target_node_guid;
  target_port_num = edge.target_port_num;
  target_port_guid = edge.target_port_guid;
  relation = edge.relation;
  link_width_active = edge.link_width_active;
  link_speed_active = edge.link_speed_active;
  port_state = edge.port_state;
}

unfoldable pub summary_from_proto : Option TopologySummary → AppTopologySummary
summary_from_proto none = record {
  nodes_count = pos 0;
  ports_count = pos 0;
  edges_count = pos 0;
  hosts_count = pos 0;
  switches_count = pos 0;
}
summary_from_proto (some summary) = record {
  nodes_count = summary.nodes_count;
  ports_count = summary.ports_count;
  edges_count = summary.edges_count;
  hosts_count = summary.hosts_count;
  switches_count = summary.switches_count;
}

unfoldable pub topology_from_proto : TopologyResponse → AppTopology
unfolding each summary_from_proto node_from_proto group_from_proto edge_from_proto
topology_from_proto resp = record {
  log_id = resp.log_id;
  summary = summary_from_proto resp.summary;
  nodes = each node_from_proto resp.nodes;
  groups = each group_from_proto resp.groups;
  edges = each edge_from_proto resp.edges;
}

module _ (status_text : Code → Text) where
  unfoldable pub map_grpc_error : Code → AppError
  map_grpc_error invalid_argument = bad_arguments
  map_grpc_error missing = not_found
  map_grpc_error failed_precondition = conflict
  map_grpc_error unreachable = unavailable
  map_grpc_error deadline_exceeded = unavailable
  map_grpc_error canceled = unavailable
  map_grpc_error code = other (status_text code)

  -- `Client.GetTopology`, over the connection. A response that comes without an error is not nil.
  unfoldable pub call_get_topology :
      (Option GetTopologyRequest → Result Code TopologyResponse) → ℤ → Result AppError AppTopology
  unfolding map_grpc_error topology_from_proto
  call_get_topology connection log_id =
      convert map_grpc_error topology_from_proto (connection (some (record { log_id = log_id })))
