-- ===== src/Topology/Service.antt =====
-- `GetTopology` of log-services/topology/core/service.go. The repository client is a parameter: what
-- it answers for a log id.
pub mod Summary
use microservice_log_parser.Prelude.{List, [], not, ◌≡◌, length, if◌then◌else◌}
use microservice_log_parser.Prelude.Eq.{◌==◌}
use microservice_log_parser.Prelude.Int.{ℤ, pos, is_positive, to_int32}
use microservice_log_parser.Prelude.Text.{Text, text_eq, text_beq}
use microservice_log_parser.Prelude.Result.{Result, ok, err, ◌>>=◌}
use microservice_log_parser.Topology.Model.{
  Error, bad_arguments, log_not_parsed, TopologyData, TopologyResult, log_status_parsed,
}
use microservice_log_parser.Topology.Edges.{build_edges}
use microservice_log_parser.Topology.Groups.{
  count_ports, no_ports, add_nodes, empty_build, groups_from_map,
}

-- The result for a log that is parsed.
unfoldable pub build_topology : ℤ → TopologyData → TopologyResult
unfolding count_ports add_nodes groups_from_map build_edges to_int32
build_topology log_id loaded =
    let built = add_nodes (count_ports loaded.ports no_ports) loaded.nodes empty_build in
    let edges = build_edges loaded.nodes loaded.ports in
    record {
      log_id = log_id;
      summary = record {
        nodes_count = to_int32 (pos (length loaded.nodes));
        ports_count = to_int32 (pos (length loaded.ports));
        edges_count = to_int32 (pos (length edges));
        hosts_count = built.hosts_count;
        switches_count = built.switches_count;
      };
      nodes = built.topology_nodes;
      groups = groups_from_map built.groups_by_kind;
      edges = edges;
    }

-- `data.Log.Status != LogStatusParsed`, and what follows.
topology_of : ℤ → TopologyData → Result Error TopologyResult
unfolding build_topology text_beq
topology_of log_id loaded =
    if not (loaded.log.status == log_status_parsed)
    then err log_not_parsed
    else ok (build_topology log_id loaded)

unfoldable pub get_topology : (ℤ → Result Error TopologyData) → ℤ → Result Error TopologyResult
unfolding topology_of
get_topology get_topology_data log_id =
    if not (is_positive log_id)
    then err bad_arguments
    else do loaded ← get_topology_data log_id; topology_of log_id loaded
