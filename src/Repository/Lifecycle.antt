-- ===== src/Repository/Lifecycle.antt =====
-- The life of a log in log-services/repository/adapters/db/storage.go: what any sequence of
-- `CreateLog`, `SaveParsedLog` and `FailLog` does to a log that is done.
use microservice_log_parser.Prelude.{
  List, [], ◌∷◌, ◌++◌, ◌≡◌, ◌≢◌, inl, inr, refl, sym, ap, ◌∙◌, false, Bool-cases, Option-cases,
  Option, some, if◌then◌else◌,
}
use microservice_log_parser.Prelude.Eq.{◌==◌, ==_sound, ==_false}
use microservice_log_parser.Prelude.Int.{ℤ, int_eq}
use microservice_log_parser.Prelude.Text.{Text, text_eq}
use microservice_log_parser.Repository.Model.{ParsedLog, log_status_processing}
use microservice_log_parser.Repository.Rows.{LogRow}
use microservice_log_parser.Repository.World.{World, statement, pure}
use microservice_log_parser.Repository.World.Rules.{Preserves, >>=-Preserves, statement-Preserves}
use microservice_log_parser.Repository.Save.{find_log, update_log, next_id, save_parsed_log}
use microservice_log_parser.Repository.Save.Outcome.{save_parsed_log-AllOrNothing}
use microservice_log_parser.Repository.Logs.{
  create_log, insert_log, has_log, is_processing, mark_failed, fail_rows, update_failed, not_failed,
  fail_log,
}

-- One call of the repository that changes the logs.
pub data Command : Type 0 where
  create : Text → Command
  save : ℤ → ParsedLog → Command
  fail_with : ℤ → Text → Command

unfoldable pub perform : Command → World → World
perform (create path) w = (create_log path w).1
perform (save id parsed) w = (save_parsed_log id parsed w).1
perform (fail_with id text) w = (fail_log id text w).1

unfoldable pub perform_all : List Command → World → World
unfolding perform
perform_all [] w = w
perform_all (c ∷ cs) w = perform_all cs (perform c w)

-- The log with the id has this row, and is not being processed.
abbrev pub IsDone : ℤ → LogRow → List LogRow → Type 0
IsDone id row rows = (find_log id rows ≡ some row) × (row.status ≢ log_status_processing)

find_log-append :
    (id : ℤ) (rows more : List LogRow) (row : LogRow)
    → find_log id rows ≡ some row
    → find_log id (rows ++ more) ≡ some row
unfolding find_log
find_log-append id [] more row h = absurd (cc h)
find_log-append id (r ∷ rows) more row h = elim (Bool-cases (r.id == id)) [
  | inl e ↦ let h' = rw (e) at h in rw (e, h')
  | inr e ↦ let rest = find_log-append id rows more row (rw (e) at h) in rw (e, rest)
]

find_log-update_log :
    (id other : ℤ) (f : LogRow → LogRow) (rows : List LogRow)
    → other ≢ id
    → ((r : LogRow) → (f r).id ≡ r.id)
    → find_log id (update_log other f rows) ≡ find_log id rows
unfolding find_log update_log
find_log-update_log id other f [] d k = refl
find_log-update_log id other f (r ∷ rows) d k =
    let rest = find_log-update_log id other f rows d k in
    elim (Bool-cases (r.id == other)) [
      | inl e ↦
          let apart = ==_false r.id id (λ p. d (sym (==_sound r.id other e) ∙ p)) in
          rw (e, k r, apart, rest)
      | inr e ↦ rw (e, rest)
    ]

not_processing :
    (r : LogRow) (log_id : ℤ) → r.status ≢ log_status_processing → is_processing log_id r ≡ false
unfolding is_processing
not_processing r log_id d =
    let other = ==_false r.status log_status_processing d in
    elim (Bool-cases (r.id == log_id)) [ inl e ↦ rw (e, other) | inr e ↦ rw (e) ]

-- The update of `FailLog` passes by a row that is not being processed.
find_log-fail_rows :
    (id log_id : ℤ) (text now : Text) (rows : List LogRow) (row : LogRow)
    → IsDone id row rows
    → find_log id (fail_rows log_id (mark_failed text now) rows) ≡ some row
unfolding find_log fail_rows is_processing
find_log-fail_rows id log_id text now [] row (h, d) = absurd (cc h)
find_log-fail_rows id log_id text now (r ∷ rows) row (h, d) = elim (Bool-cases (r.id == id)) [
  | inl e ↦
      let same : r ≡ row = cc (rw (e) at h) in
      let passed = not_processing r log_id (λ p. d (ap (λ x. x.status) (sym same) ∙ p)) in
      rw (passed, e, same)
  | inr e ↦
      let rest = find_log-fail_rows id log_id text now rows row (rw (e) at h, d) in
      elim (Bool-cases (is_processing log_id r)) [
        | inl f ↦ rw (f, e, rest)
        | inr f ↦ rw (f, e, rest)
      ]
]

module _ (id : ℤ) (row : LogRow) where
  create_log-Preserves : (path : Text) → Preserves (IsDone id row) (create_log path)
  unfolding create_log insert_log
  create_log-Preserves path =
      >>=-Preserves (IsDone id row) statement _ (statement-Preserves (IsDone id row)) λ _ w p.
        elim (Bool-cases (has_log (next_id w.seq.last_log) w.db.logs)) [
          | inl e ↦ rw (e) p
          | inr e ↦ rw (e) (find_log-append id w.db.logs _ row p.0, p.1)
        ]

  not_failed-Preserves : (log_id : ℤ) → Preserves (IsDone id row) (not_failed log_id)
  unfolding not_failed
  not_failed-Preserves log_id =
      >>=-Preserves (IsDone id row) statement _ (statement-Preserves (IsDone id row)) λ _ w p.
        elim (Option-cases (find_log log_id w.db.logs)) [ inl e ↦ rw (e) p | inr (r, e) ↦ rw (e) p ]

  fail_log-Preserves : (log_id : ℤ) (text : Text) → Preserves (IsDone id row) (fail_log log_id text)
  unfolding fail_log update_failed
  fail_log-Preserves log_id text =
      >>=-Preserves (IsDone id row) statement _ (statement-Preserves (IsDone id row)) λ _.
        >>=-Preserves (IsDone id row) (update_failed log_id text)
          (λ affected. if affected then pure tt else not_failed log_id)
          (λ w p. (find_log-fail_rows id log_id text w.now w.db.logs row p, p.1))
          λ affected w p.
            let rest = not_failed-Preserves log_id w p in
            elim (Bool-cases affected) [ inl e ↦ rw (e) p | inr e ↦ rw (e) rest ]

  save_parsed_log-Preserves :
      (log_id : ℤ) (parsed : ParsedLog) → Preserves (IsDone id row) (save_parsed_log log_id parsed)
  save_parsed_log-Preserves log_id parsed w p =
      elim (save_parsed_log-AllOrNothing log_id parsed w) [
        | inl (e, h, same) ↦ rw (same) p
        | inr (result, h, old, found, processing, saved) ↦
            let (res, time, logs) = saved in
            let apart : log_id ≢ id = λ q.
              let same : ◌≡◌ {A = Option LogRow} (some row) (some old) =
                sym p.0 ∙ ap (λ i. find_log i w.db.logs) (sym q) ∙ found in
              let row_same : row ≡ old = cc same in
              p.1 (ap (λ x. x.status) row_same ∙ processing) in
            rw (logs) (find_log-update_log id log_id _ w.db.logs apart (λ r. refl) ∙ p.0, p.1)
      ]

-- A log that is done stays as it is. Whatever calls of `CreateLog`, `SaveParsedLog` and `FailLog` come
-- next, for this log or another, and whichever statements of them fail: the row found for an id, if
-- its status is not "processing", is found for that id afterwards with all its columns unchanged. So
-- neither "parsed" nor "failed" is ever left.
pub perform_all-keeps_done :
    (id : ℤ) (row : LogRow) (commands : List Command) (w : World)
    → find_log id w.db.logs ≡ some row
    → row.status ≢ log_status_processing
    → find_log id (perform_all commands w).db.logs ≡ some row
unfolding perform_all
perform_all-keeps_done id row [] w h d = h
perform_all-keeps_done id row (create path ∷ cs) w h d =
    let p = create_log-Preserves id row path w (h, d) in
    perform_all-keeps_done id row cs (perform (create path) w) p.0 d
perform_all-keeps_done id row (save log_id parsed ∷ cs) w h d =
    let p = save_parsed_log-Preserves id row log_id parsed w (h, d) in
    perform_all-keeps_done id row cs (perform (save log_id parsed) w) p.0 d
perform_all-keeps_done id row (fail_with log_id text ∷ cs) w h d =
    let p = fail_log-Preserves id row log_id text w (h, d) in
    perform_all-keeps_done id row cs (perform (fail_with log_id text) w) p.0 d
