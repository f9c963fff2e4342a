-- ===== src/Repository/Save/Frame.antt =====
-- What each step of `SaveParsedLog` in log-services/repository/adapters/db/storage.go leaves of the
-- tables of the logs and the nodes.
use microservice_log_parser.Prelude.{List, [], ◌∷◌, inl, inr, refl, Bool-cases, Option-cases}
use microservice_log_parser.Prelude.Eq.{◌==◌}
use microservice_log_parser.Prelude.Int.{ℤ}
use microservice_log_parser.Prelude.Text.{Text, text_eq}
use microservice_log_parser.Prelude.Assoc.{Assoc, lookup, insert}
use microservice_log_parser.Repository.Model.{Node, NodeInfo, Port}
use microservice_log_parser.Repository.Rows.{LogRow, NodeRow}
use microservice_log_parser.Repository.World.{statement}
use microservice_log_parser.Repository.World.Rules.{Keeps, >>=-Keeps, statement-Keeps, logs_only}
use microservice_log_parser.Repository.Save.{
  clear_nodes, insert_node, insert_nodes, insert_info, insert_infos, insert_port, insert_ports,
  node_id_of, without_nodes, has_node, has_info, has_port, next_id,
}

pub clear_nodes-Keeps : (log_id : ℤ) → Keeps logs_only (clear_nodes log_id)
unfolding clear_nodes without_nodes
clear_nodes-Keeps log_id = >>=-Keeps logs_only statement _ (statement-Keeps logs_only) (λ _ w. refl)

insert_node-Keeps : (log_id : ℤ) (node : Node) → Keeps logs_only (insert_node log_id node)
unfolding insert_node
insert_node-Keeps log_id node = >>=-Keeps logs_only statement _ (statement-Keeps logs_only) λ _ w.
    elim (Bool-cases (has_node (next_id w.seq.last_node) log_id node.node_guid w.db.nodes)) [
      | inl e ↦ rw (e)
      | inr e ↦ rw (e)
    ]

pub insert_nodes-Keeps :
    (log_id : ℤ) (nodes : List Node) (ids : Assoc Text ℤ)
    → Keeps logs_only (insert_nodes log_id nodes ids)
unfolding insert_nodes
insert_nodes-Keeps log_id [] ids w = refl
insert_nodes-Keeps log_id (node ∷ nodes) ids w = elim (Bool-cases (node.node_guid == [])) [
  | inl e ↦ rw (e)
  | inr e ↦
      let kept =
        >>=-Keeps logs_only (insert_node log_id node)
          (λ id. insert_nodes log_id nodes (insert node.node_guid id ids))
          (insert_node-Keeps log_id node)
          (λ id. insert_nodes-Keeps log_id nodes (insert node.node_guid id ids)) w in
      rw (e, kept)
]

module _ {V : Type 0} (view : List LogRow → List NodeRow → V) where
  insert_info-Keeps : (node_id : ℤ) (info : NodeInfo) → Keeps view (insert_info node_id info)
  unfolding insert_info
  insert_info-Keeps node_id info = >>=-Keeps view statement _ (statement-Keeps view) λ _ w.
      elim (Bool-cases (has_info (next_id w.seq.last_info) node_id w.db.infos)) [
        | inl e ↦ rw (e)
        | inr e ↦ rw (e)
      ]

  node_id_of-Keeps : (guid : Text) (ids : Assoc Text ℤ) → Keeps view (node_id_of guid ids)
  unfolding node_id_of
  node_id_of-Keeps guid ids w = elim (Bool-cases (guid == [])) [
    | inl e ↦ rw (e)
    | inr e ↦ elim (Option-cases (lookup guid ids)) [ inl f ↦ rw (e, f) | inr (id, f) ↦ rw (e, f) ]
  ]

  pub insert_infos-Keeps :
      (infos : List NodeInfo) (ids : Assoc Text ℤ) → Keeps view (insert_infos infos ids)
  unfolding insert_infos
  insert_infos-Keeps [] ids w = refl
  insert_infos-Keeps (info ∷ infos) ids w =
      >>=-Keeps view (node_id_of info.node_guid ids) _ (node_id_of-Keeps info.node_guid ids)
        (λ id.
          >>=-Keeps view (insert_info id info) _ (insert_info-Keeps id info)
            λ _. insert_infos-Keeps infos ids)
        w

  insert_port-Keeps :
      (log_id : ℤ) (node_id : ℤ) (port : Port) → Keeps view (insert_port log_id node_id port)
  unfolding insert_port
  insert_port-Keeps log_id node_id port = >>=-Keeps view statement _ (statement-Keeps view) λ _ w.
      elim (Bool-cases
        (has_port (next_id w.seq.last_port) log_id node_id port.port_num w.db.ports)) [
          | inl e ↦ rw (e)
          | inr e ↦ rw (e)
        ]

  pub insert_ports-Keeps :
      (log_id : ℤ) (ports : List Port) (ids : Assoc Text ℤ)
      → Keeps view (insert_ports log_id ports ids)
  unfolding insert_ports
  insert_ports-Keeps log_id [] ids w = refl
  insert_ports-Keeps log_id (port ∷ ports) ids w =
      >>=-Keeps view (node_id_of port.node_guid ids) _ (node_id_of-Keeps port.node_guid ids)
        (λ id.
          >>=-Keeps view (insert_port log_id id port) _ (insert_port-Keeps log_id id port)
            λ _. insert_ports-Keeps log_id ports ids)
        w
