-- ===== src/Repository/Logs/Outcome.antt =====
-- What `FailLog` of log-services/repository/adapters/db/storage.go promises. It runs outside of a
-- transaction.
use microservice_log_parser.Prelude.{
  List, [], ◌∷◌, ◌≡◌, ◌⊎◌, inl, inr, refl, sym, ap, ◌∙◌, true, false, arith, Bool-cases,
  Option-cases,
}
use microservice_log_parser.Prelude.Int.{ℤ}
use microservice_log_parser.Prelude.Text.{Text}
use microservice_log_parser.Prelude.Result.{ok, err, Result-cases}
use microservice_log_parser.Repository.Model.{Error, not_found, invalid_status}
use microservice_log_parser.Repository.Rows.{LogRow}
use microservice_log_parser.Repository.World.{World, Database, statement}
use microservice_log_parser.Repository.World.Rules.{statement-db}
use microservice_log_parser.Repository.Save.{find_log}
use microservice_log_parser.Repository.Logs.{
  is_processing, mark_failed, fail_rows, fails_some, update_failed, not_failed, fail_log,
}

-- Where no row is being processed under the id, the update leaves every row.
fail_rows-none :
    (log_id : ℤ) (f : LogRow → LogRow) (rows : List LogRow)
    → fails_some log_id rows ≡ false
    → fail_rows log_id f rows ≡ rows
unfolding fail_rows fails_some
fail_rows-none log_id f [] h = refl
fail_rows-none log_id f (r ∷ rows) h = elim (Bool-cases (is_processing log_id r)) [
  | inl e ↦ absurd (ground (arith, e))
  | inr e ↦ let rest = fail_rows-none log_id f rows (rw (e) at h) in rw (e) (ap (◌∷◌ r) rest)
]

-- The second query always ends in an error, and changes no table.
not_failed-err :
    (log_id : ℤ) (w : World)
    → (e : Error) × ((not_failed log_id w).0 ≡ err e) × ((not_failed log_id w).1.db ≡ w.db)
unfolding not_failed
not_failed-err log_id w = elim (Result-cases (statement w).0) [
  | inr (e, f) ↦ (e, rw (f) refl, rw (f) (statement-db w))
  | inl (u, f) ↦ elim (Option-cases (find_log log_id (statement w).1.db.logs)) [
    | inl g ↦ (not_found, rw (f, g) refl, rw (f, g) (statement-db w))
    | inr (r, g) ↦ (invalid_status, rw (f, g) refl, rw (f, g) (statement-db w))
  ]
]

pub fail_log-AllOrNothing :
    (log_id : ℤ) (text : Text) (w : World)
    → ((e : Error) × ((fail_log log_id text w).0 ≡ err e) × ((fail_log log_id text w).1.db ≡ w.db))
      ⊎ (((fail_log log_id text w).0 ≡ ok tt)
          × (fails_some log_id w.db.logs ≡ true)
          × (time : Text) × ((fail_log log_id text w).1.db
              ≡ record w.db { logs = fail_rows log_id (mark_failed text time) w.db.logs }))
unfolding fail_log update_failed
fail_log-AllOrNothing log_id text w = elim (Result-cases (statement w).0) [
  | inr (e, f) ↦ inl (e, rw (f) refl, rw (f) (statement-db w))
  | inl (u, f) ↦
      let w1 = (statement w).1 in
      let update : Database → Database =
        λ db. record db { logs = fail_rows log_id (mark_failed text w1.now) db.logs } in
      elim (Bool-cases (fails_some log_id w1.db.logs)) [
        | inl some_row ↦
            let was = ap (λ db. fails_some log_id db.logs) (sym (statement-db w)) in
            inr (
              rw (f, some_row) refl,
              was ∙ some_row,
              w1.now,
              rw (f, some_row) (ap update (statement-db w)),
            )
        | inr no_row ↦
            let (e, g, kept) = not_failed-err log_id (record w1 { db = update w1.db }) in
            let same : update w1.db ≡ w1.db =
              ap (λ rows. record w1.db { logs = rows })
                (fail_rows-none log_id (mark_failed text w1.now) w1.db.logs no_row) in
            inl (e, rw (f, no_row) g, rw (f, no_row) (kept ∙ same ∙ statement-db w))
      ]
]
