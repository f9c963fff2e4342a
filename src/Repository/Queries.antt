-- ===== src/Repository/Queries.antt =====
-- The queries for nodes and ports in log-services/repository/adapters/db/storage.go.
use microservice_log_parser.Prelude.{
  List, [], ◌∷◌, ◌++◌, Bool, not, Option, none, some, map, select, if◌then◌else◌,
}
use microservice_log_parser.Prelude.Eq.{◌==◌}
use microservice_log_parser.Prelude.Int.{ℤ, int_eq, ltb_ℤ}
use microservice_log_parser.Prelude.Sort.{sort_by}
use microservice_log_parser.Repository.Model.{not_found, Node, NodeInfo, Port, TopologyData}
use microservice_log_parser.Repository.Rows.{
  NodeRow, NodeInfoRow, NodeWithInfoRow, PortRow, log_to_core, node_to_core, info_to_core,
  node_with_info_to_core, port_to_core,
}
use microservice_log_parser.Repository.World.{
  Database, M, ◌>>=◌, ◌>>◌, pure, fail, gets, statement, in_transaction,
}
use microservice_log_parser.Repository.Save.{find_log}

unfoldable pub find_node : ℤ → List NodeRow → Option NodeRow
find_node id [] = none
find_node id (r ∷ rows) = if r.id == id then some r else find_node id rows

-- `SELECT … FROM nodes_info WHERE node_id = $1`
unfoldable pub find_info : ℤ → List NodeInfoRow → Option NodeInfoRow
find_info node_id [] = none
find_info node_id (r ∷ rows) = if r.node_id == node_id then some r else find_info node_id rows

abbrev info_of : Option NodeInfoRow → Option NodeInfo
info_of none = none
info_of (some r) = some (info_to_core r)

-- `getNodeInfoByNodeID`; no row is no error.
unfoldable pub get_node_info_by_node_id : ℤ → M (Option NodeInfo)
unfolding statement find_info info_to_core
get_node_info_by_node_id node_id = do statement; gets (λ db. info_of (find_info node_id db.infos))

unfoldable pub get_node : ℤ → M Node
unfolding statement find_node node_to_core get_node_info_by_node_id
get_node node_id = do
  statement
  found ← gets (λ db. find_node node_id db.nodes)
  elim found [
    | none ↦ fail not_found
    | some row ↦ do
      info ← get_node_info_by_node_id node_id
      pure (record (node_to_core row) { info = info })
  ]

-- `ORDER BY port_num, id`
by_port_num : PortRow → PortRow → Bool
by_port_num a b =
    if not (a.port_num == b.port_num) then ltb_ℤ a.port_num b.port_num else ltb_ℤ a.id b.id

-- `ORDER BY node_id, port_num, id`
by_node : PortRow → PortRow → Bool
unfolding by_port_num
by_node a b = if not (a.node_id == b.node_id) then ltb_ℤ a.node_id b.node_id else by_port_num a b

-- `ORDER BY n.id`
by_id : NodeWithInfoRow → NodeWithInfoRow → Bool
by_id a b = ltb_ℤ a.node.id b.node.id

unfoldable pub get_ports_by_node : ℤ → M (List Port)
unfolding statement sort_by by_port_num port_to_core
get_ports_by_node node_id = do
  statement
  gets (λ db. map port_to_core (sort_by by_port_num (select (λ p. p.node_id == node_id) db.ports)))

abbrev pair_rows : NodeRow → List NodeInfoRow → List NodeWithInfoRow
pair_rows n [] = record { node = n; info = none } ∷ []
pair_rows n (i ∷ is) = map (λ r. record { node = n; info = some r }) (i ∷ is)

-- `nodes n LEFT JOIN nodes_info ni ON ni.node_id = n.id`
unfoldable pub join_infos : List NodeRow → List NodeInfoRow → List NodeWithInfoRow
join_infos [] infos = []
join_infos (n ∷ nodes) infos =
    pair_rows n (select (λ i. i.node_id == n.id) infos) ++ join_infos nodes infos

-- The rows of `selectNodesWithInfo` for a log.
unfoldable pub nodes_with_info : ℤ → Database → List Node
unfolding join_infos sort_by by_id node_with_info_to_core
nodes_with_info log_id db =
    map node_with_info_to_core
      (sort_by by_id (join_infos (select (λ n. n.log_id == log_id) db.nodes) db.infos))

unfoldable pub ports_of_log : ℤ → Database → List Port
unfolding sort_by by_node port_to_core
ports_of_log log_id db =
    map port_to_core (sort_by by_node (select (λ p. p.log_id == log_id) db.ports))

unfoldable pub get_nodes_by_log : ℤ → M (List Node)
unfolding statement nodes_with_info
get_nodes_by_log log_id = do statement; gets (nodes_with_info log_id)

unfoldable pub get_ports_by_log : ℤ → M (List Port)
unfolding statement ports_of_log
get_ports_by_log log_id = do statement; gets (ports_of_log log_id)

topology_rows : ℤ → M TopologyData
unfolding statement find_log nodes_with_info ports_of_log log_to_core
topology_rows log_id = do
  statement
  found ← gets (λ db. find_log log_id db.logs)
  elim found [
    | none ↦ fail not_found
    | some row ↦ do
      statement
      nodes ← gets (nodes_with_info log_id)
      statement
      ports ← gets (ports_of_log log_id)
      pure (record { log = log_to_core row; nodes = nodes; ports = ports })
  ]

-- A read-only transaction of isolation `REPEATABLE READ`: its three reads see one state.
unfoldable pub get_topology_data : ℤ → M TopologyData
unfolding in_transaction topology_rows
get_topology_data log_id = in_transaction (topology_rows log_id)
