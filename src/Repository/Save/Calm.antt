-- ===== src/Repository/Save/Calm.antt =====
-- `SaveParsedLog` of log-services/repository/adapters/db/storage.go brings no faults.
use microservice_log_parser.Prelude.{length, List, [], ◌∷◌, inl, inr, Bool-cases, Option-cases}
use microservice_log_parser.Prelude.Eq.{◌==◌}
use microservice_log_parser.Prelude.Int.{ℤ, pos, to_int32}
use microservice_log_parser.Prelude.Text.{Text, text_eq}
use microservice_log_parser.Prelude.Assoc.{Assoc, lookup, insert}
use microservice_log_parser.Repository.Model.{
  Node, NodeInfo, Port, ParsedLog, log_status_processing,
}
use microservice_log_parser.Repository.World.{statement}
use microservice_log_parser.Repository.World.Calm.{
  KeepsCalm, >>=-KeepsCalm, statement-KeepsCalm, in_transaction-KeepsCalm,
}
use microservice_log_parser.Repository.Save.{
  find_log, lock_log, finish_log, replace_content, save_body, save_parsed_log, clear_nodes,
  insert_node, insert_nodes, insert_info, insert_infos, insert_port, insert_ports, node_id_of,
  without_nodes, has_node, has_info, has_port, next_id,
}

clear_nodes-KeepsCalm : (log_id : ℤ) → KeepsCalm (clear_nodes log_id)
unfolding clear_nodes without_nodes
clear_nodes-KeepsCalm log_id = >>=-KeepsCalm statement _ statement-KeepsCalm (λ _ w calm. calm)

insert_node-KeepsCalm : (log_id : ℤ) (node : Node) → KeepsCalm (insert_node log_id node)
unfolding insert_node
insert_node-KeepsCalm log_id node = >>=-KeepsCalm statement _ statement-KeepsCalm λ _ w calm.
    elim (Bool-cases (has_node (next_id w.seq.last_node) log_id node.node_guid w.db.nodes)) [
      | inl e ↦ rw (e) calm
      | inr e ↦ rw (e) calm
    ]

insert_nodes-KeepsCalm :
    (log_id : ℤ) (nodes : List Node) (ids : Assoc Text ℤ)
    → KeepsCalm (insert_nodes log_id nodes ids)
unfolding insert_nodes
insert_nodes-KeepsCalm log_id [] ids w calm = calm
insert_nodes-KeepsCalm log_id (node ∷ nodes) ids w calm = elim (Bool-cases (node.node_guid == [])) [
  | inl e ↦ rw (e) calm
  | inr e ↦
      let kept =
        >>=-KeepsCalm (insert_node log_id node)
          (λ id. insert_nodes log_id nodes (insert node.node_guid id ids))
          (insert_node-KeepsCalm log_id node)
          (λ id. insert_nodes-KeepsCalm log_id nodes (insert node.node_guid id ids)) w calm in
      rw (e) kept
]

insert_info-KeepsCalm : (node_id : ℤ) (info : NodeInfo) → KeepsCalm (insert_info node_id info)
unfolding insert_info
insert_info-KeepsCalm node_id info = >>=-KeepsCalm statement _ statement-KeepsCalm λ _ w calm.
    elim (Bool-cases (has_info (next_id w.seq.last_info) node_id w.db.infos)) [
      | inl e ↦ rw (e) calm
      | inr e ↦ rw (e) calm
    ]

node_id_of-KeepsCalm : (guid : Text) (ids : Assoc Text ℤ) → KeepsCalm (node_id_of guid ids)
unfolding node_id_of
node_id_of-KeepsCalm guid ids w calm = elim (Bool-cases (guid == [])) [
  | inl e ↦ rw (e) calm
  | inr e ↦ elim (Option-cases (lookup guid ids)) [
    | inl f ↦ rw (e, f) calm
    | inr (id, f) ↦ rw (e, f) calm
  ]
]

insert_infos-KeepsCalm :
    (infos : List NodeInfo) (ids : Assoc Text ℤ) → KeepsCalm (insert_infos infos ids)
unfolding insert_infos
insert_infos-KeepsCalm [] ids w calm = calm
insert_infos-KeepsCalm (info ∷ infos) ids w calm =
    >>=-KeepsCalm (node_id_of info.node_guid ids) _ (node_id_of-KeepsCalm info.node_guid ids)
      (λ id.
        >>=-KeepsCalm (insert_info id info) _ (insert_info-KeepsCalm id info)
          λ _. insert_infos-KeepsCalm infos ids)
      w calm

insert_port-KeepsCalm :
    (log_id : ℤ) (node_id : ℤ) (port : Port) → KeepsCalm (insert_port log_id node_id port)
unfolding insert_port
insert_port-KeepsCalm log_id node_id port =
    >>=-KeepsCalm statement _ statement-KeepsCalm λ _ w calm.
      elim (Bool-cases
        (has_port (next_id w.seq.last_port) log_id node_id port.port_num w.db.ports)) [
          | inl e ↦ rw (e) calm
          | inr e ↦ rw (e) calm
        ]

insert_ports-KeepsCalm :
    (log_id : ℤ) (ports : List Port) (ids : Assoc Text ℤ)
    → KeepsCalm (insert_ports log_id ports ids)
unfolding insert_ports
insert_ports-KeepsCalm log_id [] ids w calm = calm
insert_ports-KeepsCalm log_id (port ∷ ports) ids w calm =
    >>=-KeepsCalm (node_id_of port.node_guid ids) _ (node_id_of-KeepsCalm port.node_guid ids)
      (λ id.
        >>=-KeepsCalm (insert_port log_id id port) _ (insert_port-KeepsCalm log_id id port)
          λ _. insert_ports-KeepsCalm log_id ports ids)
      w calm

lock_log-KeepsCalm : (log_id : ℤ) → KeepsCalm (lock_log log_id)
unfolding lock_log
lock_log-KeepsCalm log_id = >>=-KeepsCalm statement _ statement-KeepsCalm λ _ w calm.
    elim (Option-cases (find_log log_id w.db.logs)) [
      | inl e ↦ rw (e) calm
      | inr (r, e) ↦ rw (e) calm
    ]

finish_log-KeepsCalm : (log_id n p : ℤ) → KeepsCalm (finish_log log_id n p)
unfolding finish_log
finish_log-KeepsCalm log_id n p = >>=-KeepsCalm statement _ statement-KeepsCalm λ _ w calm.
    elim (Option-cases (find_log log_id w.db.logs)) [
      | inl e ↦ rw (e) calm
      | inr (r, e) ↦ rw (e) calm
    ]

replace_content-KeepsCalm :
    (log_id : ℤ) (parsed : ParsedLog) → KeepsCalm (replace_content log_id parsed)
unfolding replace_content
replace_content-KeepsCalm log_id parsed =
    >>=-KeepsCalm (clear_nodes log_id) _ (clear_nodes-KeepsCalm log_id) λ _.
      >>=-KeepsCalm (insert_nodes log_id parsed.nodes []) _
        (insert_nodes-KeepsCalm log_id parsed.nodes [])
        λ ids.
          >>=-KeepsCalm (insert_infos parsed.nodes_info ids) _
            (insert_infos-KeepsCalm parsed.nodes_info ids)
            λ _.
              >>=-KeepsCalm (insert_ports log_id parsed.ports ids) _
                (insert_ports-KeepsCalm log_id parsed.ports ids)
                λ _.
                  >>=-KeepsCalm
                    (finish_log log_id (to_int32 (pos (length parsed.nodes)))
                      (to_int32 (pos (length parsed.ports))))
                    _ (finish_log-KeepsCalm log_id _ _) (λ _ w calm. calm)

save_body-KeepsCalm : (log_id : ℤ) (parsed : ParsedLog) → KeepsCalm (save_body log_id parsed)
unfolding save_body
save_body-KeepsCalm log_id parsed =
    >>=-KeepsCalm (lock_log log_id) _ (lock_log-KeepsCalm log_id) λ row w calm.
      let rest = replace_content-KeepsCalm log_id parsed w calm in
      elim (Bool-cases (row.status == log_status_processing)) [
        | inl e ↦ rw (e) rest
        | inr e ↦ rw (e) calm
      ]

pub save_parsed_log-KeepsCalm :
    (log_id : ℤ) (parsed : ParsedLog) → KeepsCalm (save_parsed_log log_id parsed)
unfolding save_parsed_log
save_parsed_log-KeepsCalm log_id parsed =
    in_transaction-KeepsCalm (save_body log_id parsed) (save_body-KeepsCalm log_id parsed)
