-- ===== src/Repository/Save.antt =====
-- `SaveParsedLog` of log-services/repository/adapters/db/storage.go.
pub mod Calm
pub mod Frame
pub mod Outcome
pub mod Stored
use microservice_log_parser.Prelude.{
  ℕ, suc, List, [], ◌∷◌, ◌++◌, Bool, true, false, not, ◌&&◌, ◌||◌, Option, none, some, map, select,
  length, if◌then◌else◌,
}
use microservice_log_parser.Prelude.Eq.{◌==◌, contains}
use microservice_log_parser.Prelude.Int.{ℤ, pos, int_eq, to_int32}
use microservice_log_parser.Prelude.Text.{Text, text_beq, text_eq}
use microservice_log_parser.Prelude.Assoc.{Assoc, lookup, insert}
use microservice_log_parser.Repository.Model.{
  Error, bad_arguments, not_found, invalid_status, other, Node, NodeInfo, Port, ParsedLog,
  SaveParsedLogResult, log_status_processing, log_status_parsed,
}
use microservice_log_parser.Repository.Rows.{LogRow, NodeRow, NodeInfoRow, PortRow}
use microservice_log_parser.Repository.World.{
  World, Database, M, ◌>>=◌, ◌>>◌, pure, fail, gets, statement, in_transaction,
}

unfoldable pub find_log : ℤ → List LogRow → Option LogRow
find_log id [] = none
find_log id (r ∷ rows) = if r.id == id then some r else find_log id rows

-- `SELECT status FROM logs WHERE id = $1 FOR UPDATE`
unfoldable lock_log : ℤ → M LogRow
unfolding statement find_log
lock_log log_id = do
  statement
  found ← gets (λ db. find_log log_id db.logs)
  elim found [ none ↦ fail not_found | some row ↦ pure row ]

-- `DELETE FROM nodes WHERE log_id = $1`; the rows of `nodes_info` and `ports` that refer to a deleted
-- node go with it.
unfoldable pub without_nodes : ℤ → Database → Database
unfolding contains
without_nodes log_id db =
    let gone = map (λ n. n.id) (select (λ n. n.log_id == log_id) db.nodes) in
    record db {
      nodes = select (λ n. not (n.log_id == log_id)) db.nodes;
      infos = select (λ i. not (contains gone i.node_id)) db.infos;
      ports = select (λ p. not (contains gone p.node_id)) db.ports;
    }

unfoldable clear_nodes : ℤ → M Unit
unfolding statement without_nodes
clear_nodes log_id = do statement; (λ w. (pure tt) (record w { db = without_nodes log_id w.db }))

abbrev pub next_id : ℕ → ℤ
next_id n = pos (suc n)

unfoldable pub node_row : ℤ → ℤ → Node → NodeRow
node_row id log_id node = record {
  id = id;
  log_id = log_id;
  node_guid = node.node_guid;
  node_desc = node.node_desc;
  node_type = node.node_type;
  node_kind = node.node_kind;
  num_ports = node.num_ports;
  class_version = node.class_version;
  base_version = node.base_version;
  system_image_guid = node.system_image_guid;
  port_guid = node.port_guid;
  raw_json = node.raw_json;
}

-- The primary key of `nodes`, and its constraint `UNIQUE (log_id, node_guid)`.
unfoldable pub has_node : ℤ → ℤ → Text → List NodeRow → Bool
unfolding text_beq
has_node id log_id guid [] = false
has_node id log_id guid (r ∷ rows) =
    ((r.id == id) || ((r.log_id == log_id) && (r.node_guid == guid)))
    || has_node id log_id guid rows

-- A row that a constraint refuses has drawn an id all the same.
unfoldable insert_node : ℤ → Node → M ℤ
unfolding statement node_row has_node
insert_node log_id node = do
  statement
  λ w.
      let id = next_id w.seq.last_node in
      let w' : World = record w { seq = record w.seq { last_node = suc w.seq.last_node } } in
      if has_node id log_id node.node_guid w.db.nodes
      then fail other w'
      else pure id
          (record w' { db = record w.db { nodes = w.db.nodes ++ node_row id log_id node ∷ [] } })

-- The loop over the nodes; the map is `nodeIDs`.
unfoldable pub insert_nodes : ℤ → List Node → Assoc Text ℤ → M (Assoc Text ℤ)
unfolding insert_node insert text_beq
insert_nodes log_id [] node_ids = pure node_ids
insert_nodes log_id (node ∷ nodes) node_ids =
    if node.node_guid == [] then fail bad_arguments else do
      id ← insert_node log_id node
      insert_nodes log_id nodes (insert node.node_guid id node_ids)

unfoldable pub info_row : ℤ → ℤ → NodeInfo → NodeInfoRow
info_row id node_id info = record {
  id = id;
  node_id = node_id;
  node_guid = info.node_guid;
  serial_number = info.serial_number;
  part_number = info.part_number;
  revision = info.revision;
  product_name = info.product_name;
  raw_json = info.raw_json;
}

-- The primary key of `nodes_info`, and its constraint `UNIQUE (node_id)`.
unfoldable pub has_info : ℤ → ℤ → List NodeInfoRow → Bool
has_info id node_id [] = false
has_info id node_id (r ∷ rows) =
    ((r.id == id) || (r.node_id == node_id)) || has_info id node_id rows

unfoldable insert_info : ℤ → NodeInfo → M Unit
unfolding statement info_row has_info
insert_info node_id info = do
  statement
  λ w.
      let id = next_id w.seq.last_info in
      let w' : World = record w { seq = record w.seq { last_info = suc w.seq.last_info } } in
      if has_info id node_id w.db.infos
      then fail other w'
      else pure tt
          (record w' { db = record w.db { infos = w.db.infos ++ info_row id node_id info ∷ [] } })

-- `nodeIDs[guid]`, with the two guards before it: an empty GUID, and one that is no key.
unfoldable pub node_id_of : Text → Assoc Text ℤ → M ℤ
unfolding lookup text_beq
node_id_of guid node_ids =
    if guid == []
    then fail bad_arguments
    else elim (lookup guid node_ids) [ none ↦ fail bad_arguments | some id ↦ pure id ]

-- The loop over the infos.
unfoldable pub insert_infos : List NodeInfo → Assoc Text ℤ → M Unit
unfolding insert_info node_id_of
insert_infos [] node_ids = pure tt
insert_infos (info ∷ infos) node_ids = do
  node_id ← node_id_of info.node_guid node_ids
  insert_info node_id info
  insert_infos infos node_ids

unfoldable pub port_row : ℤ → ℤ → ℤ → Port → PortRow
port_row id log_id node_id port = record {
  id = id;
  log_id = log_id;
  node_id = node_id;
  node_guid = port.node_guid;
  port_guid = port.port_guid;
  port_num = port.port_num;
  lid = port.lid;
  local_port_num = port.local_port_num;
  port_state = port.port_state;
  port_phy_state = port.port_phy_state;
  link_width_active = port.link_width_active;
  link_speed_active = port.link_speed_active;
  raw_json = port.raw_json;
}

-- The primary key of `ports`, and the unique index on `ports (log_id, node_id, port_num)`.
unfoldable pub has_port : ℤ → ℤ → ℤ → ℤ → List PortRow → Bool
has_port id log_id node_id port_num [] = false
has_port id log_id node_id port_num (r ∷ rows) =
    ((r.id == id) || ((r.log_id == log_id) && ((r.node_id == node_id) && (r.port_num == port_num))))
    || has_port id log_id node_id port_num rows

unfoldable insert_port : ℤ → ℤ → Port → M Unit
unfolding statement port_row has_port
insert_port log_id node_id port = do
  statement
  λ w.
      let id = next_id w.seq.last_port in
      let w' : World = record w { seq = record w.seq { last_port = suc w.seq.last_port } } in
      if has_port id log_id node_id port.port_num w.db.ports
      then fail other w'
      else pure tt (record w' {
        db = record w.db { ports = w.db.ports ++ port_row id log_id node_id port ∷ [] };
      })

-- The loop over the ports.
unfoldable pub insert_ports : ℤ → List Port → Assoc Text ℤ → M Unit
unfolding insert_port node_id_of
insert_ports log_id [] node_ids = pure tt
insert_ports log_id (port ∷ ports) node_ids = do
  node_id ← node_id_of port.node_guid node_ids
  insert_port log_id node_id port
  insert_ports log_id ports node_ids

-- `UPDATE logs SET … WHERE id = $1`: the rows after it.
unfoldable pub update_log : ℤ → (LogRow → LogRow) → List LogRow → List LogRow
update_log id f [] = []
update_log id f (r ∷ rows) = (if r.id == id then f r else r) ∷ update_log id f rows

abbrev pub mark_parsed : ℤ → ℤ → Text → LogRow → LogRow
mark_parsed nodes_count ports_count now r = record r {
  status = log_status_parsed;
  nodes_count = nodes_count;
  ports_count = ports_count;
  error_text = [];
  parsed_at = some now;
}

-- The update, and the check of the number of its rows.
unfoldable finish_log : ℤ → ℤ → ℤ → M Unit
unfolding statement update_log find_log
finish_log log_id nodes_count ports_count = do
  statement
  λ w. elim (find_log log_id w.db.logs) [
    | none ↦ fail not_found w
    | some _ ↦ pure tt (record w {
      db = record w.db {
        logs = update_log log_id (mark_parsed nodes_count ports_count w.now) w.db.logs;
      };
    })
  ]

-- The body of the transaction, past the check of the status.
unfoldable replace_content : ℤ → ParsedLog → M SaveParsedLogResult
unfolding clear_nodes insert_nodes insert_infos insert_ports finish_log to_int32
replace_content log_id parsed = do
  clear_nodes log_id
  node_ids ← insert_nodes log_id parsed.nodes []
  insert_infos parsed.nodes_info node_ids
  insert_ports log_id parsed.ports node_ids
  let nodes_count = to_int32 (pos (length parsed.nodes))
  let ports_count = to_int32 (pos (length parsed.ports))
  finish_log log_id nodes_count ports_count
  pure (record { log_id = log_id; nodes_count = nodes_count; ports_count = ports_count })

unfoldable save_body : ℤ → ParsedLog → M SaveParsedLogResult
unfolding lock_log replace_content text_beq
save_body log_id parsed = do
  row ← lock_log log_id
  if not (row.status == log_status_processing)
      then fail invalid_status
      else replace_content log_id parsed

unfoldable pub save_parsed_log : ℤ → ParsedLog → M SaveParsedLogResult
unfolding save_body in_transaction
save_parsed_log log_id parsed = in_transaction (save_body log_id parsed)
