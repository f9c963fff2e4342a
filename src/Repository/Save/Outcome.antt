-- ===== src/Repository/Save/Outcome.antt =====
-- What `SaveParsedLog` of log-services/repository/adapters/db/storage.go promises.
use microservice_log_parser.Prelude.{
  [], ◌≡◌, ◌⊎◌, inl, inr, refl, sym, ap, ◌∙◌, Bool, true, false, not, if◌then◌else◌, Option, none,
  some, length,
}
use microservice_log_parser.Prelude.Eq.{◌==◌, ==_sound}
use microservice_log_parser.Prelude.Int.{ℤ, pos, int_eq, to_int32}
use microservice_log_parser.Prelude.Text.{Text, text_eq}
use microservice_log_parser.Prelude.Result.{Result, ok, err, Result-cases}
use microservice_log_parser.Repository.Model.{
  Error, not_found, invalid_status, ParsedLog, SaveParsedLogResult, log_status_processing,
}
use microservice_log_parser.Repository.Rows.{LogRow}
use microservice_log_parser.Repository.World.{World, M, fail, pure, statement}
use microservice_log_parser.Repository.World.Rules.{
  Runs, Keeps-Runs, logs_only, >>=-Runs, statement-Keeps, in_transaction-atomic,
  in_transaction-Runs,
}
use microservice_log_parser.Repository.Save.{
  find_log, lock_log, update_log, mark_parsed, finish_log, clear_nodes, insert_nodes, insert_infos,
  insert_ports, replace_content, save_body, save_parsed_log,
}
use microservice_log_parser.Repository.Save.Frame.{
  clear_nodes-Keeps, insert_nodes-Keeps, insert_infos-Keeps, insert_ports-Keeps,
}

pub lock_log-Runs :
    (log_id : ℤ) (w : World) (row : LogRow) (w' : World)
    → Runs (lock_log log_id) w row w'
    → (find_log log_id w.db.logs ≡ some row) × (w'.db.logs ≡ w.db.logs)
unfolding lock_log
lock_log-Runs log_id w row w' h =
    let (_, w1, s, k) = >>=-Runs statement _ w row w' h in
    let same = Keeps-Runs logs_only statement w _ w1 (statement-Keeps logs_only) s in
    let (found, kept) = by_found (find_log log_id w1.db.logs) w1 k in
    (sym (ap (find_log log_id) same) ∙ found, kept ∙ same)
  where
    by_found :
        (o : Option LogRow) (u : World)
        → (let m : M LogRow = elim o [ none ↦ fail not_found | some row ↦ pure row ] in m u)
          ≡ (ok row, w')
        → (o ≡ some row) × (w'.db.logs ≡ u.db.logs)
    by_found none u h = absurd (cc (ap (λ x. x.0) h))
    by_found (some r) u h = (cc (ap (λ x. x.0) h), sym (ap (λ x. x.1.db.logs) h))

pub finish_log-Runs :
    (log_id nodes_count ports_count : ℤ) (w : World) (u : Unit) (w' : World)
    → Runs (finish_log log_id nodes_count ports_count) w u w'
    → (time : Text) × (w'.db.logs
        ≡ update_log log_id (mark_parsed nodes_count ports_count time) w.db.logs)
unfolding finish_log
finish_log-Runs log_id n p w u w' h =
    let (_, w1, s, k) = >>=-Runs statement _ w u w' h in
    let same = Keeps-Runs logs_only statement w _ w1 (statement-Keeps logs_only) s in
    by_found (find_log log_id w1.db.logs) w1 same k
  where
    by_found :
        (o : Option LogRow) (v : World)
        → v.db.logs ≡ w.db.logs
        → (let r : Result Error Unit × World = elim o [
          | none ↦ fail not_found v
          | some _ ↦ pure tt (record v {
            db = record v.db { logs = update_log log_id (mark_parsed n p v.now) v.db.logs };
          })
        ] in
            r)
          ≡ (ok u, w')
        → (time : Text) × (w'.db.logs ≡ update_log log_id (mark_parsed n p time) w.db.logs)
    by_found none v same h = absurd (cc (ap (λ x. x.0) h))
    by_found (some r) v same h =
        (v.now, sym (ap (λ x. x.1.db.logs) h) ∙ ap (update_log log_id (mark_parsed n p v.now)) same)

-- What a transaction that has succeeded has done to the logs.
abbrev pub Saved : ℤ → ParsedLog → World → SaveParsedLogResult → World → Type 0
Saved log_id parsed w result w' =
    let nodes_count = to_int32 (pos (length parsed.nodes)) in
    let ports_count = to_int32 (pos (length parsed.ports)) in
    (result ≡ record { log_id = log_id; nodes_count = nodes_count; ports_count = ports_count })
    × (time : Text) × (w'.db.logs
        ≡ update_log log_id (mark_parsed nodes_count ports_count time) w.db.logs)

replace_content-Runs :
    (log_id : ℤ) (parsed : ParsedLog) (w : World) (result : SaveParsedLogResult) (w' : World)
    → Runs (replace_content log_id parsed) w result w'
    → Saved log_id parsed w result w'
unfolding replace_content
replace_content-Runs log_id parsed w result w' h =
    let nodes_count = to_int32 (pos (length parsed.nodes)) in
    let ports_count = to_int32 (pos (length parsed.ports)) in
    let (_, w1, s1, k1) = >>=-Runs (clear_nodes log_id) _ w result w' h in
    let (ids, w2, s2, k2) = >>=-Runs (insert_nodes log_id parsed.nodes []) _ w1 result w' k1 in
    let (_, w3, s3, k3) = >>=-Runs (insert_infos parsed.nodes_info ids) _ w2 result w' k2 in
    let (_, w4, s4, k4) = >>=-Runs (insert_ports log_id parsed.ports ids) _ w3 result w' k3 in
    let (u, w5, s5, k5) = >>=-Runs (finish_log log_id nodes_count ports_count) _ w4 result w' k4 in
    let kept =
      Keeps-Runs logs_only (insert_ports log_id parsed.ports ids) w3 _ w4
        (insert_ports-Keeps logs_only log_id parsed.ports ids) s4
      ∙ Keeps-Runs logs_only (insert_infos parsed.nodes_info ids) w2 _ w3
          (insert_infos-Keeps logs_only parsed.nodes_info ids) s3
      ∙ Keeps-Runs logs_only (insert_nodes log_id parsed.nodes []) w1 ids w2
          (insert_nodes-Keeps log_id parsed.nodes []) s2
      ∙ Keeps-Runs logs_only (clear_nodes log_id) w _ w1 (clear_nodes-Keeps log_id) s1 in
    let (time, logs) = finish_log-Runs log_id nodes_count ports_count w4 u w5 s5 in
    (
      sym (cc (ap (λ x. x.0) k5)),
      time,
      sym (ap (λ x. x.1.db.logs) k5)
          ∙ logs
          ∙ ap (update_log log_id (mark_parsed nodes_count ports_count time)) kept,
    )

save_body-Runs :
    (log_id : ℤ) (parsed : ParsedLog) (w : World) (result : SaveParsedLogResult) (w' : World)
    → Runs (save_body log_id parsed) w result w'
    → (row : LogRow) × (find_log log_id w.db.logs ≡ some row)
      × (row.status ≡ log_status_processing)
      × Saved log_id parsed w result w'
unfolding save_body
save_body-Runs log_id parsed w result w' h =
    let (row, w1, s, k) = >>=-Runs (lock_log log_id) _ w result w' h in
    let (found, same) = lock_log-Runs log_id w row w1 s in
    let (parsing, saved) =
      by_status (row.status == log_status_processing) w1 (==_sound row.status log_status_processing)
        k in
    let (r, time, logs) = saved in
    (row, found, parsing, (r, time, logs ∙ ap (update_log log_id (mark_parsed _ _ time)) same))
  where
    by_status :
        {P : Type 0} (b : Bool) (u : World)
        → (b ≡ true → P)
        → (let m : M SaveParsedLogResult =
              if not b then fail invalid_status else replace_content log_id parsed in
            m u)
          ≡ (ok result, w')
        → P × Saved log_id parsed u result w'
    by_status true u p h = (p refl, replace_content-Runs log_id parsed u result w' h)
    by_status false u p h = absurd (cc (ap (λ x. x.0) h))

-- Whatever the database holds and whichever statements of it fail, `SaveParsedLog` does one of two
-- things. It returns an error, and every table is as before the call. Or it returns the log's id and
-- the numbers of nodes and ports as `int32`; then the log has been there with the status "processing", and the
-- table of the logs differs in the rows with that id only, which have the status "parsed", these numbers, no error
-- text and a time of parsing.
pub save_parsed_log-AllOrNothing :
    (log_id : ℤ) (parsed : ParsedLog) (w : World)
    → ((e : Error) × ((save_parsed_log log_id parsed w).0 ≡ err e)
        × ((save_parsed_log log_id parsed w).1.db ≡ w.db))
      ⊎ ((result : SaveParsedLogResult) × ((save_parsed_log log_id parsed w).0 ≡ ok result)
          × (row : LogRow) × (find_log log_id w.db.logs ≡ some row)
          × (row.status ≡ log_status_processing)
          × Saved log_id parsed w result (save_parsed_log log_id parsed w).1)
unfolding save_parsed_log
save_parsed_log-AllOrNothing log_id parsed w =
    elim (Result-cases (save_parsed_log log_id parsed w).0) [
      | inr (e, h) ↦ inl (e, h, in_transaction-atomic (save_body log_id parsed) w e h)
      | inl (result, h) ↦
          let after = (save_parsed_log log_id parsed w).1 in
          let (u, v, before, body, same) =
            in_transaction-Runs (save_body log_id parsed) w result after (ap (λ r. (r, after)) h) in
          let (row, found, processing, saved) = save_body-Runs log_id parsed u result v body in
          let (res, time, logs) = saved in
          let begun = ap (λ d. d.logs) before in
          inr (
            result,
            h,
            row,
            sym (ap (find_log log_id) begun) ∙ found,
            processing,
            (
              res,
              time,
              ap (λ d. d.logs) same ∙ logs ∙ ap (update_log log_id (mark_parsed _ _ time)) begun,
            ),
          )
    ]
