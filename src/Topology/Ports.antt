-- ===== src/Topology/Ports.antt =====
-- Ports in log-services/topology/core/service.go: which are active, their order, the choice of a
-- free one, and how many each node has.
pub mod Choice
pub mod Grouping
use microservice_log_parser.Prelude.{
  List, [], ◌∷◌, ◌++◌, Bool, true, false, not, ◌&&◌, ◌||◌, Option, none, some, map, if◌then◌else◌,
}
use microservice_log_parser.Prelude.Eq.{◌==◌, contains}
use microservice_log_parser.Prelude.Int.{ℤ, pos, ltb_ℤ, is_positive, int_eq, ◌+ℤ◌, to_int32}
use microservice_log_parser.Prelude.Text.{Text, text_beq, text_eq}
use microservice_log_parser.Prelude.Assoc.{Assoc, lookup, lookup_or, insert}
use microservice_log_parser.Prelude.Sort.{sort_by}
use microservice_log_parser.Topology.Model.{Node, Port}
use microservice_log_parser.Topology.Kinds.{normalize_kind}

unfoldable pub is_active_port : Port → Bool
is_active_port port =
    is_positive port.id
    && is_positive port.node_id
    && is_positive port.port_num
    && (port.port_state == pos 4)

active_for : List Text → Assoc ℤ Node → Port → Bool
unfolding is_active_port lookup contains normalize_kind text_beq
active_for allowed_kinds nodes_by_id port =
    is_active_port port && elim (lookup port.node_id nodes_by_id) [
      | none ↦ false
      | some node ↦ contains allowed_kinds (normalize_kind node.node_kind)
    ]

-- The kinds that the source's map sets to true are given as a list.
unfoldable pub active_ports_for_kinds : List Port → Assoc ℤ Node → List Text → List Port
unfolding active_for
active_ports_for_kinds [] nodes_by_id allowed_kinds = []
active_ports_for_kinds (port ∷ ports) nodes_by_id allowed_kinds =
    let rest = active_ports_for_kinds ports nodes_by_id allowed_kinds in
    if active_for allowed_kinds nodes_by_id port then port ∷ rest else rest

unfoldable pub port_less : Port → Port → Bool
port_less a b =
    if not (a.node_id == b.node_id)
    then ltb_ℤ a.node_id b.node_id
    else if not (a.port_num == b.port_num)
    then ltb_ℤ a.port_num b.port_num
    else ltb_ℤ a.id b.id

unfoldable pub sort_ports : List Port → List Port
unfolding port_less sort_by
sort_ports = sort_by port_less

unfoldable pub same_link_characteristics : Port → Port → Bool
same_link_characteristics a b =
    if (a.link_width_active == pos 0) || (b.link_width_active == pos 0)
    then false
    else if (a.link_speed_active == pos 0) || (b.link_speed_active == pos 0)
    then false
    else (a.link_width_active == b.link_width_active)
      && (a.link_speed_active == b.link_speed_active)

-- The first loop of `pickSwitchPort`.
pick_same_link : Port → List Port → List ℤ → Option Port
unfolding same_link_characteristics contains
pick_same_link host_port [] used = none
pick_same_link host_port (p ∷ ports) used =
    let rest = pick_same_link host_port ports used in
    if contains used p.id
    then rest
    else if same_link_characteristics host_port p
    then some p
    else rest

unfoldable pub first_unused_port : List Port → List ℤ → Option Port
unfolding contains
first_unused_port [] used = none
first_unused_port (p ∷ ports) used =
    if contains used p.id then first_unused_port ports used else some p

-- The second loop of `pickSwitchPort` is the loop of `firstUnusedPort`, written out again.
unfoldable pub pick_switch_port : Port → List Port → List ℤ → Option Port
unfolding pick_same_link first_unused_port
pick_switch_port host_port switch_ports used = elim (pick_same_link host_port switch_ports used) [
  | some p ↦ some p
  | none ↦ first_unused_port switch_ports used
]

-- `out[port.NodeID] = append(out[port.NodeID], port)` for each port, then each list sorted.
collect_by_node_id : List Port → Assoc ℤ (List Port) → Assoc ℤ (List Port)
unfolding insert lookup_or
collect_by_node_id [] out = out
collect_by_node_id (port ∷ ports) out =
    collect_by_node_id ports (insert port.node_id (lookup_or [] port.node_id out ++ port ∷ []) out)

unfoldable pub group_ports_by_node_id : List Port → Assoc ℤ (List Port)
unfolding collect_by_node_id sort_ports
group_ports_by_node_id ports = map (λ e. (e.0, sort_ports e.1)) (collect_by_node_id ports [])

-- `m[k]++` on a map of `int32`.
unfoldable pub increment : ℤ → ℤ
unfolding to_int32 ◌+ℤ◌
increment n = to_int32 (n +ℤ pos 1)
