-- ===== src/Repository/Logs.antt =====
-- `CreateLog`, `FailLog` and `GetLog` of log-services/repository/adapters/db/storage.go.
pub mod Outcome
use microservice_log_parser.Prelude.{
  suc, List, [], ◌∷◌, ◌++◌, Bool, true, false, ◌&&◌, ◌||◌, none, some, if◌then◌else◌,
}
use microservice_log_parser.Prelude.Eq.{◌==◌}
use microservice_log_parser.Prelude.Int.{ℤ, pos, int_eq}
use microservice_log_parser.Prelude.Text.{Text, text_beq, text_eq}
use microservice_log_parser.Repository.Model.{
  other, not_found, invalid_status, Log, log_status_processing, log_status_failed,
}
use microservice_log_parser.Repository.Rows.{LogRow, log_to_core}
use microservice_log_parser.Repository.World.{World, M, ◌>>=◌, ◌>>◌, pure, fail, gets, statement}
use microservice_log_parser.Repository.Save.{find_log, next_id}

abbrev pub new_log : ℤ → Text → Text → LogRow
new_log id file_path now = record {
  id = id;
  file_path = file_path;
  status = log_status_processing;
  nodes_count = pos 0;
  ports_count = pos 0;
  error_text = [];
  uploaded_at = now;
  parsed_at = none;
}

-- The primary key of `logs`.
unfoldable pub has_log : ℤ → List LogRow → Bool
has_log id [] = false
has_log id (r ∷ rows) = (r.id == id) || has_log id rows

-- `INSERT INTO logs (file_path, status) VALUES ($1, 'processing') RETURNING id`
unfoldable pub insert_log : Text → M ℤ
unfolding has_log
insert_log file_path w =
    let id = next_id w.seq.last_log in
    let w' : World = record w { seq = record w.seq { last_log = suc w.seq.last_log } } in
    if has_log id w.db.logs
    then fail other w'
    else pure id
        (record w' { db = record w.db { logs = w.db.logs ++ new_log id file_path w.now ∷ [] } })

unfoldable pub create_log : Text → M ℤ
unfolding statement insert_log
create_log file_path = do statement; insert_log file_path

-- The `WHERE` of the update in `FailLog`.
unfoldable pub is_processing : ℤ → LogRow → Bool
unfolding text_beq
is_processing log_id r = (r.id == log_id) && (r.status == log_status_processing)

abbrev pub mark_failed : Text → Text → LogRow → LogRow
mark_failed error_text now r = record r {
  status = log_status_failed;
  error_text = error_text;
  parsed_at = some now;
}

-- The rows after the update.
unfoldable pub fail_rows : ℤ → (LogRow → LogRow) → List LogRow → List LogRow
unfolding is_processing
fail_rows log_id f [] = []
fail_rows log_id f (r ∷ rows) =
    (if is_processing log_id r then f r else r) ∷ fail_rows log_id f rows

-- Whether the update has found a row.
unfoldable pub fails_some : ℤ → List LogRow → Bool
unfolding is_processing
fails_some log_id [] = false
fails_some log_id (r ∷ rows) = if is_processing log_id r then true else fails_some log_id rows

unfoldable pub update_failed : ℤ → Text → M Bool
unfolding fail_rows fails_some
update_failed log_id error_text w = pure (fails_some log_id w.db.logs) (record w {
  db = record w.db { logs = fail_rows log_id (mark_failed error_text w.now) w.db.logs };
})

-- The second query of `FailLog`, which tells why nothing was updated.
unfoldable pub not_failed : ℤ → M Unit
unfolding statement find_log
not_failed log_id = do
  statement
  found ← gets (λ db. find_log log_id db.logs)
  elim found [ none ↦ fail not_found | some row ↦ fail invalid_status ]

unfoldable pub fail_log : ℤ → Text → M Unit
unfolding statement update_failed not_failed
fail_log log_id error_text = do
  statement
  affected ← update_failed log_id error_text
  if affected then pure tt else not_failed log_id

unfoldable pub get_log : ℤ → M Log
unfolding statement find_log log_to_core
get_log log_id = do
  statement
  found ← gets (λ db. find_log log_id db.logs)
  elim found [ none ↦ fail not_found | some row ↦ pure (log_to_core row) ]
