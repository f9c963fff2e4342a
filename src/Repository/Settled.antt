-- ===== src/Repository/Settled.antt =====
-- Which logs are being processed between the calls of log-services/repository/adapters/db/storage.go and
-- core/service.go, where no statement fails.
use microservice_log_parser.Prelude.{
  List, [], ◌∷◌, ◌++◌, ◌≡◌, ◌≢◌, ◌⊎◌, inl, inr, refl, ap, ◌∙◌, true, false, All, Bool-cases,
  Option-cases,
}
use microservice_log_parser.Prelude.Eq.{◌==◌, ==_refl}
use microservice_log_parser.Prelude.Int.{ℤ, int_eq}
use microservice_log_parser.Prelude.Text.{Text, text_eq}
use microservice_log_parser.Prelude.Result.{ok, err}
use microservice_log_parser.Repository.Model.{
  Error, ParsedLog, SaveParsedLogResult, log_status_processing, log_status_parsed,
  log_status_failed,
}
use microservice_log_parser.Repository.Rows.{LogRow}
use microservice_log_parser.Repository.World.{World, statement}
use microservice_log_parser.Repository.World.Calm.{
  IsCalm, KeepsCalm, >>=-KeepsCalm, statement-KeepsCalm, statement_succeeds,
}
use microservice_log_parser.Repository.Save.{
  find_log, next_id, update_log, mark_parsed, save_parsed_log,
}
use microservice_log_parser.Repository.Save.Calm.{save_parsed_log-KeepsCalm}
use microservice_log_parser.Repository.Save.Outcome.{save_parsed_log-AllOrNothing}
use microservice_log_parser.Repository.Logs.{
  new_log, create_log, is_processing, mark_failed, fail_rows, fails_some, update_failed, not_failed,
  fail_log, insert_log, has_log,
}
use microservice_log_parser.Repository.Statuses.{create_log-Inserted, create_log-uncreated}

abbrev pub IsSettled : LogRow → Type 0
IsSettled r = r.status ≢ log_status_processing

-- Only the log with the id may be being processed.
abbrev pub IsPending : ℤ → LogRow → Type 0
IsPending id r = (r.status ≢ log_status_processing) ⊎ (r.id ≡ id)

new_log-IsPending :
    (id : ℤ) (path now : Text) (rows : List LogRow)
    → All IsSettled rows
    → All (IsPending id) (rows ++ new_log id path now ∷ [])
new_log-IsPending id path now [] h = (inr refl, tt)
new_log-IsPending id path now (r ∷ rows) (s, h) = (inl s, new_log-IsPending id path now rows h)

parsed_settles : log_status_parsed ≢ log_status_processing
parsed_settles e = cc e

failed_settles : log_status_failed ≢ log_status_processing
failed_settles e = cc e

update_log-IsSettled :
    (id n p : ℤ) (time : Text) (rows : List LogRow)
    → All (IsPending id) rows
    → All IsSettled (update_log id (mark_parsed n p time) rows)
unfolding update_log
update_log-IsSettled id n p time [] h = tt
update_log-IsSettled id n p time (r ∷ rows) (s, h) =
    let rest = update_log-IsSettled id n p time rows h in
    elim (Bool-cases (r.id == id)) [
      | inl e ↦ rw (e) (parsed_settles, rest)
      | inr e ↦ elim s [
        | inl settled ↦ rw (e) (settled, rest)
        | inr same ↦ absurd (cc (e, ap (λ j. j == id) same, ==_refl id))
      ]
    ]

not_being :
    (id : ℤ) (r : LogRow)
    → r.id ≡ id
    → is_processing id r ≡ false
    → r.status ≢ log_status_processing
unfolding is_processing
not_being id r same e being =
    let one : (r.id == id) ≡ true = ap (λ j. j == id) same ∙ ==_refl id in
    let two : (r.status == log_status_processing) ≡ true =
      ap (λ t. t == log_status_processing) being ∙ ==_refl log_status_processing in
    absurd (cc (rw (one, two) at e))

fail_rows-IsSettled :
    (id : ℤ) (text now : Text) (rows : List LogRow)
    → All (IsPending id) rows
    → All IsSettled (fail_rows id (mark_failed text now) rows)
unfolding fail_rows is_processing
fail_rows-IsSettled id text now [] h = tt
fail_rows-IsSettled id text now (r ∷ rows) (s, h) =
    let rest = fail_rows-IsSettled id text now rows h in
    elim (Bool-cases (is_processing id r)) [
      | inl e ↦ rw (e) (failed_settles, rest)
      | inr e ↦ elim s [
        | inl settled ↦ rw (e) (settled, rest)
        | inr same ↦ rw (e) (not_being id r same e, rest)
      ]
    ]

not_failed-IsCalm :
    (id : ℤ) (w : World)
    → IsCalm w
    → IsCalm (not_failed id w).1 × ((not_failed id w).1.db.logs ≡ w.db.logs)
unfolding not_failed
not_failed-IsCalm id w calm =
    let begun = statement_succeeds w calm in
    elim (Option-cases (find_log id w.db.logs)) [
      | inl e ↦ rw (begun, e) (calm, refl)
      | inr (r, e) ↦ rw (begun, e) (calm, refl)
    ]

-- Where no statement fails, `FailLog` updates the rows whatever it answers.
fail_log_updates :
    (id : ℤ) (text : Text) (w : World)
    → IsCalm w
    → IsCalm (fail_log id text w).1
      × ((fail_log id text w).1.db.logs ≡ fail_rows id (mark_failed text w.now) w.db.logs)
unfolding fail_log update_failed
fail_log_updates id text w calm =
    let begun = statement_succeeds w calm in
    elim (Bool-cases (fails_some id w.db.logs)) [
      | inl e ↦ rw (begun, e) (calm, refl)
      | inr e ↦
          let updated : World = record w {
            db = record w.db { logs = fail_rows id (mark_failed text w.now) w.db.logs };
          } in
          let asked = not_failed-IsCalm id updated calm in rw (begun, e) asked
    ]

-- No statement fails, and no log is being processed.
abbrev pub AllSettled : World → Type 0
AllSettled w = IsCalm w × All IsSettled w.db.logs

-- No statement fails, and no log but one may be being processed.
abbrev pub AllPending : ℤ → World → Type 0
AllPending id w = IsCalm w × All (IsPending id) w.db.logs

insert_log-KeepsCalm : (path : Text) → KeepsCalm (insert_log path)
unfolding insert_log
insert_log-KeepsCalm path w calm = elim (Bool-cases (has_log (next_id w.seq.last_log) w.db.logs)) [
  | inl e ↦ rw (e) calm
  | inr e ↦ rw (e) calm
]

create_log-KeepsCalm : (path : Text) → KeepsCalm (create_log path)
unfolding create_log
create_log-KeepsCalm path =
    >>=-KeepsCalm statement _ statement-KeepsCalm λ _. insert_log-KeepsCalm path

pub create_log-AllPending :
    (path : Text) (w : World) (id : ℤ)
    → AllSettled w
    → (create_log path w).0 ≡ ok id
    → AllPending id (create_log path w).1
create_log-AllPending path w id (calm, settled) h =
    let (same, free, time, logs) = create_log-Inserted path w id h in
    (create_log-KeepsCalm path w calm, rw (logs) (new_log-IsPending id path time w.db.logs settled))

pub create_log-AllSettled :
    (path : Text) (w : World) (e : Error)
    → AllSettled w
    → (create_log path w).0 ≡ err e
    → AllSettled (create_log path w).1
create_log-AllSettled path w e (calm, settled) h =
    (create_log-KeepsCalm path w calm, rw (create_log-uncreated path w e h) settled)

pub save_parsed_log-AllSettled :
    (id : ℤ) (parsed : ParsedLog) (w : World) (r : SaveParsedLogResult)
    → AllPending id w
    → (save_parsed_log id parsed w).0 ≡ ok r
    → AllSettled (save_parsed_log id parsed w).1
save_parsed_log-AllSettled id parsed w r (calm, pending) h = (
  save_parsed_log-KeepsCalm id parsed w calm,
  elim (save_parsed_log-AllOrNothing id parsed w) [
    | inl (e, fails, kept) ↦ absurd (cc (fails, h))
    | inr (result, done, row, found, processing, saved) ↦
        let (made, time, logs) = saved in
        rw (logs) (update_log-IsSettled id _ _ time w.db.logs pending)
  ],
)

pub save_parsed_log-AllPending :
    (id : ℤ) (parsed : ParsedLog) (w : World) (x : Error)
    → AllPending id w
    → (save_parsed_log id parsed w).0 ≡ err x
    → AllPending id (save_parsed_log id parsed w).1
save_parsed_log-AllPending id parsed w x (calm, pending) h = (
  save_parsed_log-KeepsCalm id parsed w calm,
  elim (save_parsed_log-AllOrNothing id parsed w) [
    | inl (e, fails, kept) ↦ rw (kept) pending
    | inr (result, done, row, found, processing, saved) ↦ absurd (cc (done, h))
  ],
)

pub fail_log-AllSettled :
    (id : ℤ) (text : Text) (w : World) → AllPending id w → AllSettled (fail_log id text w).1
fail_log-AllSettled id text w (calm, pending) =
    let (still, logs) = fail_log_updates id text w calm in
    (still, rw (logs) (fail_rows-IsSettled id text w.now w.db.logs pending))
