-- ===== src/Tests/Topology.antt =====
-- The topology of two hosts and two switches: log-services/topology/core/service.go on a small input.
use microservice_log_parser.Prelude.{
  ℕ, ◌<◌, List, [], ◌∷◌, ◌≡◌, ◌⊎◌, refl, subst, map, length, true, false, none, All, arith,
}
use microservice_log_parser.Prelude.Eq.{Distinct}
use microservice_log_parser.Prelude.Int.{ℤ, pos, int_eq, is_positive}
use microservice_log_parser.Prelude.Text.{Text, codes}
use microservice_log_parser.Prelude.Result.{Result, ok, err, ok_injective}
use microservice_log_parser.Topology.Model.{
  Error, bad_arguments, Node, Port, TopologyData, log_status_parsed,
}
use microservice_log_parser.Topology.Edges.{build_edges}
use microservice_log_parser.Topology.Edges.Trace.{Link, edges_of, switch_port_ids}
use microservice_log_parser.Topology.Edges.Disjoint.{build_edges_disjoint, IsJoined}
use microservice_log_parser.Topology.Ports.{pick_switch_port}
use microservice_log_parser.Topology.Ports.Choice.{Picks, pick_switch_port-Picks}
use microservice_log_parser.Topology.Service.{get_topology, build_topology}
use microservice_log_parser.Topology.Service.Summary.{Answers, get_topology-Answers}

abbrev node : ℕ → Text → Node
node id kind = record {
  id = pos id;
  log_id = pos 1;
  node_guid = codes "guid";
  node_desc = [];
  node_type = pos 1;
  node_kind = kind;
  num_ports = pos 1;
  info = none;
}

abbrev port : ℕ → ℕ → ℕ → ℕ → Port
port id node_id num width = record {
  id = pos id;
  log_id = pos 1;
  node_id = pos node_id;
  node_guid = codes "guid";
  port_guid = codes "port";
  port_num = pos num;
  port_state = pos 4;
  link_width_active = pos width;
  link_speed_active = pos 2;
}

abbrev nodes : List Node
nodes =
    node 1 (codes "host")
    ∷ node 2 (codes " Host ")
    ∷ node 3 (codes "switch")
    ∷ node 4 (codes "SWITCH")
    ∷ node 5 (codes "router")
    ∷ []

abbrev ports : List Port
ports =
    port 10 1 1 2
    ∷ port 20 2 1 4
    ∷ port 31 3 1 4
    ∷ port 32 3 2 2
    ∷ port 33 3 3 2
    ∷ port 41 4 1 2
    ∷ []

-- Each host port takes the switch port of its own width, and the switches are joined by ports left over.
edge_ports :
    map {B = ℤ × ℤ} (λ e. (e.source_node_id, e.target_node_id)) (build_edges nodes ports)
    ≡ (pos 1, pos 3) ∷ (pos 2, pos 3) ∷ (pos 3, pos 4) ∷ []
unfolding build_edges
edge_ports = refl

edge_port_nums : map (λ e. e.target_port_num) (build_edges nodes ports) ≡ pos 2 ∷ pos 1 ∷ pos 1 ∷ []
unfolding build_edges
edge_port_nums = refl

abbrev loaded : TopologyData
loaded = record {
  log = record {
    id = pos 1;
    file_path = codes "a.log";
    status = log_status_parsed;
    nodes_count = pos 5;
    ports_count = pos 6;
    error = [];
    uploaded_at = [];
    parsed_at = [];
  };
  nodes = nodes;
  ports = ports;
}

abbrev client : ℤ → Result Error TopologyData
client id = ok loaded

groups :
    map {B = Text × List ℤ} (λ g. (g.name, g.node_ids)) (build_topology (pos 1) loaded).groups
    ≡ (codes "Hosts", pos 1 ∷ pos 2 ∷ [])
      ∷ (codes "Switches", pos 3 ∷ pos 4 ∷ [])
      ∷ (codes "Router", pos 5 ∷ [])
      ∷ []
unfolding build_topology
groups = refl

build_edges_disjoint_example :
    (links : List Link) × (build_edges nodes ports ≡ edges_of links)
    × Distinct (switch_port_ids links)
    × All (IsJoined nodes ports) links
build_edges_disjoint_example = build_edges_disjoint nodes ports

pick_switch_port-Picks_example :
    Picks
      (port 10 1 1 2)
      (port 31 3 1 4 ∷ port 32 3 2 2 ∷ [])
      (pos 31 ∷ [])
      (pick_switch_port (port 10 1 1 2) (port 31 3 1 4 ∷ port 32 3 2 2 ∷ []) (pos 31 ∷ []))
pick_switch_port-Picks_example =
    pick_switch_port-Picks (port 10 1 1 2) (port 31 3 1 4 ∷ port 32 3 2 2 ∷ []) (pos 31 ∷ [])

few_nodes : (l : TopologyData) → client (pos 1) ≡ ok l → length l.nodes < 2147483648
few_nodes l e = subst (λ d. length d.nodes < 2147483648) (ok_injective loaded l e) (omega arith)

get_topology-Answers_example :
    ((is_positive (pos 1) ≡ false) × (get_topology client (pos 1) ≡ err bad_arguments))
    ⊎ ((is_positive (pos 1) ≡ true) × Answers (client (pos 1)) (get_topology client (pos 1)))
get_topology-Answers_example = get_topology-Answers client (pos 1) few_nodes
