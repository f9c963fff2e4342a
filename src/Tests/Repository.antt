-- ===== src/Tests/Repository.antt =====
-- A small database, and calls of log-services/repository/adapters/db/storage.go on it.
use microservice_log_parser.Prelude.{
  List, [], ◌∷◌, ◌≡◌, ◌≢◌, ◌⊎◌, refl, true, true, false, none, some, map,
}
use microservice_log_parser.Prelude.Int.{pos, int_eq}
use microservice_log_parser.Prelude.Text.{Text, codes, text_eq}
use microservice_log_parser.Prelude.Result.{ok, err}
use microservice_log_parser.Repository.Model.{
  Error, other, invalid_status, Node, Port, ParsedLog, SaveParsedLogResult, log_status_processing,
  log_status_parsed,
}
use microservice_log_parser.Repository.Rows.{LogRow}
use microservice_log_parser.Repository.World.{World}
use microservice_log_parser.Repository.Logs.{new_log, fail_log}
use microservice_log_parser.Repository.Save.{find_log, save_parsed_log}
use microservice_log_parser.Repository.Save.Outcome.{Saved, save_parsed_log-AllOrNothing}
use microservice_log_parser.Repository.Lifecycle.{
  Command, create, save, fail_with, perform_all, perform_all-keeps_done,
}

abbrev node : Text → Node
node guid = record {
  id = pos 0;
  log_id = pos 0;
  node_guid = guid;
  node_desc = [];
  node_type = pos 1;
  node_kind = codes "host";
  num_ports = pos 1;
  class_version = pos 0;
  base_version = pos 0;
  system_image_guid = [];
  port_guid = [];
  info = none;
  raw_json = [];
}

abbrev port : Text → Text → Port
port guid port_guid = record {
  id = pos 0;
  log_id = pos 0;
  node_id = pos 0;
  node_guid = guid;
  port_guid = port_guid;
  port_num = pos 1;
  lid = pos 0;
  local_port_num = pos 0;
  port_state = pos 4;
  port_phy_state = pos 0;
  link_width_active = pos 0;
  link_speed_active = pos 0;
  raw_json = [];
}

abbrev parsed : ParsedLog
parsed = record {
  nodes = node (codes "a") ∷ node (codes "b") ∷ [];
  ports = port (codes "b") (codes "p") ∷ [];
  nodes_info = [];
}

abbrev pub done_log : LogRow
done_log = record (new_log (pos 1) (codes "a.log") (codes "t0")) {
  status = log_status_parsed;
  parsed_at = some (codes "t1");
}

-- Log 1 is parsed, log 2 is being processed.
abbrev pub world : World
world = record {
  db = record {
    logs = done_log ∷ new_log (pos 2) (codes "b.log") (codes "t2") ∷ [];
    nodes = [];
    infos = [];
    ports = [];
  };
  seq = record { last_log = 2; last_node = 0; last_info = 0; last_port = 0 };
  now = codes "t3";
  faults = [];
}

-- The ids that the rows of the nodes and of the port get, and the node of the port.
saved_ids :
    let db = (save_parsed_log (pos 2) parsed world).1.db in
    (map (λ n. n.id) db.nodes ≡ pos 1 ∷ pos 2 ∷ []) × (map (λ p. p.node_id) db.ports ≡ pos 2 ∷ [])
unfolding save_parsed_log
saved_ids = (refl, refl)

-- Two ports of one node with one number are refused, though their own GUIDs differ.
refuses :
    (save_parsed_log
      (pos 2)
      (record parsed { ports = port (codes "b") (codes "p") ∷ port (codes "b") (codes "q") ∷ [] })
      world).0
    ≡ err other
unfolding save_parsed_log
refuses = refl

-- The sixth statement fails: nothing is left of what the others did.
abbrev faulty : World
faulty = record world { faults = false ∷ false ∷ false ∷ false ∷ false ∷ true ∷ [] }

rolls_back : (save_parsed_log (pos 2) parsed faulty).1.db ≡ world.db
unfolding save_parsed_log
rolls_back = refl

save_parsed_log-AllOrNothing_example :
    ((e : Error) × ((save_parsed_log (pos 2) parsed world).0 ≡ err e)
      × ((save_parsed_log (pos 2) parsed world).1.db ≡ world.db))
    ⊎ ((result : SaveParsedLogResult) × ((save_parsed_log (pos 2) parsed world).0 ≡ ok result)
        × (row : LogRow) × (find_log (pos 2) world.db.logs ≡ some row)
        × (row.status ≡ log_status_processing)
        × Saved (pos 2) parsed world result (save_parsed_log (pos 2) parsed world).1)
save_parsed_log-AllOrNothing_example = save_parsed_log-AllOrNothing (pos 2) parsed world

found : find_log (pos 1) world.db.logs ≡ some done_log
unfolding find_log
found = refl

pub not_processing : log_status_parsed ≢ log_status_processing
not_processing e = absurd (cc e)

abbrev pub commands : List Command
commands =
    fail_with (pos 1) (codes "late")
    ∷ save (pos 1) parsed
    ∷ create (codes "c.log")
    ∷ save (pos 2) parsed
    ∷ []

perform_all-keeps_done_example :
    find_log (pos 1) (perform_all commands world).db.logs ≡ some done_log
perform_all-keeps_done_example =
    perform_all-keeps_done (pos 1) done_log commands world found not_processing

-- A log that is parsed cannot be failed.
fails_late : (fail_log (pos 1) (codes "late") world).0 ≡ err invalid_status
unfolding fail_log
fails_late = refl
