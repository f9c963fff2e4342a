-- ===== src/Repository/Statuses.antt =====
-- The status of a log, through the calls of log-services/repository/adapters/db/storage.go that
-- change it.
use microservice_log_parser.Prelude.{
  false, List, [], ◌∷◌, ◌++◌, ◌≡◌, inl, inr, refl, sym, ap, ◌∙◌, true, Bool-cases, Option, none,
  some, Option-cases, arith,
}
use microservice_log_parser.Prelude.Eq.{◌==◌, ==_refl}
use microservice_log_parser.Prelude.Int.{ℤ, int_eq, is_positive}
use microservice_log_parser.Prelude.Text.{Text, text_eq}
use microservice_log_parser.Prelude.Result.{ok, err, Result-cases}
use microservice_log_parser.Repository.Model.{
  Error, ParsedLog, SaveParsedLogResult, log_status_processing, log_status_parsed,
  log_status_failed,
}
use microservice_log_parser.Repository.Rows.{LogRow}
use microservice_log_parser.Repository.World.{World, statement}
use microservice_log_parser.Repository.World.Rules.{statement-db, statement-seq}
use microservice_log_parser.Repository.Save.{find_log, update_log, next_id, save_parsed_log}
use microservice_log_parser.Repository.Save.Outcome.{save_parsed_log-AllOrNothing}
use microservice_log_parser.Repository.Logs.{
  has_log, new_log, insert_log, create_log, is_processing, mark_failed, fail_rows, fail_log,
}
use microservice_log_parser.Repository.Logs.Outcome.{fail_log-AllOrNothing}

abbrev status_of : Option LogRow → Option Text
status_of none = none
status_of (some row) = some row.status

abbrev pub log_status : World → ℤ → Option Text
log_status w id = status_of (find_log id w.db.logs)

has_log-find_log : (id : ℤ) (rows : List LogRow) → has_log id rows ≡ false → find_log id rows ≡ none
unfolding has_log find_log
has_log-find_log id [] h = refl
has_log-find_log id (r ∷ rows) h = elim (Bool-cases (r.id == id)) [
  | inl e ↦ absurd (cc (rw (e) at h))
  | inr e ↦ let rest = has_log-find_log id rows (rw (e) at h) in rw (e, rest) refl
]

find_log-behind :
    (id : ℤ) (rows more : List LogRow)
    → find_log id rows ≡ none
    → find_log id (rows ++ more) ≡ find_log id more
unfolding find_log
find_log-behind id [] more h = refl
find_log-behind id (r ∷ rows) more h = elim (Bool-cases (r.id == id)) [
  | inl e ↦ absurd (cc (rw (e) at h))
  | inr e ↦ let rest = find_log-behind id rows more (rw (e) at h) in rw (e, rest) refl
]

find_log-updated :
    (id : ℤ) (f : LogRow → LogRow) (rows : List LogRow) (row : LogRow)
    → ((r : LogRow) → (f r).id ≡ r.id)
    → find_log id rows ≡ some row
    → find_log id (update_log id f rows) ≡ some (f row)
unfolding find_log update_log
find_log-updated id f [] row k h = absurd (cc h)
find_log-updated id f (r ∷ rows) row k h = elim (Bool-cases (r.id == id)) [
  | inl e ↦
      let same : r ≡ row = cc (rw (e) at h) in
      let here : ((f r).id == id) ≡ true = ap (λ j. j == id) (k r) ∙ e in
      rw (e, here) (ap (λ x. some (f x)) same)
  | inr e ↦ let rest = find_log-updated id f rows row k (rw (e) at h) in rw (e, e, rest) refl
]

find_log-failed :
    (id : ℤ) (text now : Text) (rows : List LogRow) (row : LogRow)
    → row.status ≡ log_status_processing
    → find_log id rows ≡ some row
    → find_log id (fail_rows id (mark_failed text now) rows) ≡ some (mark_failed text now row)
unfolding find_log fail_rows is_processing
find_log-failed id text now [] row p h = absurd (cc h)
find_log-failed id text now (r ∷ rows) row p h = elim (Bool-cases (r.id == id)) [
  | inl e ↦
      let same : r ≡ row = cc (rw (e) at h) in
      let being : (r.status == log_status_processing) ≡ true =
        ap (λ x. x.status == log_status_processing) same
        ∙ ap (λ s. s == log_status_processing) p
        ∙ ==_refl log_status_processing in
      rw (e, being, e) (ap (λ x. some (mark_failed text now x)) same)
  | inr e ↦ let rest = find_log-failed id text now rows row p (rw (e) at h) in rw (e, e, rest) refl
]

-- What the insert leaves where it succeeds; the primary key then has been free.
abbrev pub Inserted : Text → World → ℤ → World → Type 0
Inserted path w id w' =
    (id ≡ next_id w.seq.last_log)
    × (find_log id w.db.logs ≡ none)
    × (time : Text) × (w'.db.logs ≡ w.db.logs ++ new_log id path time ∷ [])

insert_log-Inserted :
    (path : Text) (w : World) (id : ℤ)
    → (insert_log path w).0 ≡ ok id
    → Inserted path w id (insert_log path w).1
unfolding insert_log
insert_log-Inserted path w id h = elim (Bool-cases (has_log (next_id w.seq.last_log) w.db.logs)) [
  | inl e ↦ absurd (cc (rw (e) at h))
  | inr e ↦
      let same : next_id w.seq.last_log ≡ id = cc (rw (e) at h) in
      let free = has_log-find_log (next_id w.seq.last_log) w.db.logs e in
      (
        sym same,
        ap (λ j. find_log j w.db.logs) (sym same) ∙ free,
        w.now,
        rw (e) (ap (λ j. w.db.logs ++ new_log j path w.now ∷ []) same),
      )
]

pub create_log-Inserted :
    (path : Text) (w : World) (id : ℤ)
    → (create_log path w).0 ≡ ok id
    → Inserted path w id (create_log path w).1
unfolding create_log
create_log-Inserted path w id h = elim (Result-cases (statement w).0) [
  | inr (x, fails) ↦ absurd (cc (rw (fails) at h))
  | inl (u, goes) ↦
      let (same, free, time, logs) = insert_log-Inserted path (statement w).1 id (rw (goes) at h) in
      let rows = ap (λ d. d.logs) (statement-db w) in
      (
        same ∙ ap (λ q. next_id q.last_log) (statement-seq w),
        sym (ap (find_log id) rows) ∙ free,
        time,
        rw (goes) (logs ∙ ap (λ l. l ++ new_log id path time ∷ []) rows),
      )
]

module _ (path : Text) (w : World) (id : ℤ) (h : (create_log path w).0 ≡ ok id) where
  pub create_log-status : log_status (create_log path w).1 id ≡ some log_status_processing
  unfolding find_log
  create_log-status =
      let (same, free, time, logs) = create_log-Inserted path w id h in
      let new = new_log id path time in
      let here : find_log id (new ∷ []) ≡ some new = rw (==_refl id) refl in
      ap status_of (ap (find_log id) logs ∙ find_log-behind id w.db.logs (new ∷ []) free ∙ here)

  pub create_log-is_positive : is_positive id ≡ true
  create_log-is_positive =
      let (same, free, time, logs) = create_log-Inserted path w id h in
      let positive : is_positive (next_id w.seq.last_log) ≡ true = ground arith in
      ap is_positive same ∙ positive

  pub create_log-is_unused : log_status w id ≡ none
  create_log-is_unused =
      let (same, free, time, logs) = create_log-Inserted path w id h in ap status_of free

insert_log-uncreated :
    (path : Text) (w : World) (e : Error)
    → (insert_log path w).0 ≡ err e
    → (insert_log path w).1.db ≡ w.db
unfolding insert_log
insert_log-uncreated path w e h = elim (Bool-cases (has_log (next_id w.seq.last_log) w.db.logs)) [
  | inl k ↦ rw (k) refl
  | inr k ↦ absurd (cc (rw (k) at h))
]

pub create_log-uncreated :
    (path : Text) (w : World) (e : Error)
    → (create_log path w).0 ≡ err e
    → (create_log path w).1.db ≡ w.db
unfolding create_log
create_log-uncreated path w e h = elim (Result-cases (statement w).0) [
  | inl (u, k) ↦ rw (k) (insert_log-uncreated path (statement w).1 e (rw (k) at h) ∙ statement-db w)
  | inr (x, k) ↦ rw (k) (statement-db w)
]

module _ (log_id : ℤ) (parsed : ParsedLog) (w : World) where
  pub save_parsed_log-status :
      (r : SaveParsedLogResult)
      → (save_parsed_log log_id parsed w).0 ≡ ok r
      → (r.log_id ≡ log_id)
        × (log_status (save_parsed_log log_id parsed w).1 log_id ≡ some log_status_parsed)
  save_parsed_log-status r h = elim (save_parsed_log-AllOrNothing log_id parsed w) [
    | inl (e, fails, kept) ↦ absurd (cc (fails, h))
    | inr (result, done, row, found, processing, saved) ↦
        let (made, time, logs) = saved in
        let same : result ≡ r = cc (done, h) in
        let after = find_log-updated log_id _ w.db.logs row (λ x. refl) found in
        (ap (λ x. x.log_id) (sym same ∙ made), ap status_of (ap (find_log log_id) logs ∙ after))
  ]

  pub save_parsed_log-unsaved :
      (e : Error)
      → (save_parsed_log log_id parsed w).0 ≡ err e
      → log_status (save_parsed_log log_id parsed w).1 log_id ≡ log_status w log_id
  save_parsed_log-unsaved e h = elim (save_parsed_log-AllOrNothing log_id parsed w) [
    | inl (x, fails, kept) ↦ ap (λ db. status_of (find_log log_id db.logs)) kept
    | inr (result, done, row, found, processing, saved) ↦ absurd (cc (done, h))
  ]

module _ (log_id : ℤ) (text : Text) (w : World) where
  pub fail_log-status :
      log_status w log_id ≡ some log_status_processing
      → (fail_log log_id text w).0 ≡ ok tt
      → log_status (fail_log log_id text w).1 log_id ≡ some log_status_failed
  fail_log-status processing h = elim (fail_log-AllOrNothing log_id text w) [
    | inl (e, fails, kept) ↦ absurd (cc (fails, h))
    | inr (done, was, time, after) ↦ elim (Option-cases (find_log log_id w.db.logs)) [
      | inl none_found ↦ absurd (cc (rw (none_found) at processing))
      | inr (row, found) ↦
          let being : row.status ≡ log_status_processing = cc (rw (found) at processing) in
          let failed = find_log-failed log_id text time w.db.logs row being found in
          ap status_of (ap (λ db. find_log log_id db.logs) after ∙ failed)
    ]
  ]

  pub fail_log-unfailed :
      (e : Error)
      → (fail_log log_id text w).0 ≡ err e
      → log_status (fail_log log_id text w).1 log_id ≡ log_status w log_id
  fail_log-unfailed e h = elim (fail_log-AllOrNothing log_id text w) [
    | inl (x, fails, kept) ↦ ap (λ db. status_of (find_log log_id db.logs)) kept
    | inr (done, was, time, after) ↦ absurd (cc (done, h))
  ]
