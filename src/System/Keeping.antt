-- ===== src/System/Keeping.antt =====
-- The repository, called by the gateway over gRPC, keeps the laws that the gateway relies on: the
-- guards of log-services/repository/core/service.go and the conversions on the way change nothing.
use microservice_log_parser.Prelude.{[], ◌≡◌, refl, inl, inr, true, some, none, Bool-cases}
use microservice_log_parser.Prelude.Eq.{◌==◌}
use microservice_log_parser.Prelude.Int.{ℤ, is_positive}
use microservice_log_parser.Prelude.Text.{Text, text_eq, trim_space}
use microservice_log_parser.Prelude.Result.{Result, ok, err}
use microservice_log_parser.Repository.Model.{
  Error, ParsedLog, SaveParsedLogResult, log_status_processing, log_status_parsed,
  log_status_failed,
}
use microservice_log_parser.Repository.World.{World}
use microservice_log_parser.Repository.Service
use microservice_log_parser.Repository.Statuses.{
  log_status, create_log-status, create_log-is_positive, create_log-is_unused, create_log-uncreated,
  save_parsed_log-status, save_parsed_log-unsaved, fail_log-status, fail_log-unfailed,
}
use microservice_log_parser.Wire.Status.{convert}

module _ {E F A B : Type 0} (f : E → F) (g : A → B) where
  pub convert-ok :
      (r : Result E A) (b : B) → convert f g r ≡ ok b → (a : A) × (r ≡ ok a) × (g a ≡ b)
  convert-ok (ok a) b h = (a, refl, cc h)
  convert-ok (err e) b h = absurd (cc h)

  pub convert-err : (r : Result E A) (x : F) → convert f g r ≡ err x → (e : E) × (r ≡ err e)
  convert-err (ok a) x h = absurd (cc h)
  convert-err (err e) x h = (e, refl)

module _ (path : Text) (w : World) (id : ℤ) where
  pub create_log-Processing :
      (Service.create_log path w).0 ≡ ok id
      → (is_positive id ≡ true)
        × (log_status (Service.create_log path w).1 id ≡ some log_status_processing)
  unfolding Service.create_log
  create_log-Processing h = elim (Bool-cases (trim_space path == [])) [
    | inl e ↦ absurd (cc (rw (e) at h))
    | inr e ↦ (
      create_log-is_positive path w id (rw (e) at h),
      rw (e) (create_log-status path w id (rw (e) at h)),
    )
  ]

  pub service-unused : (Service.create_log path w).0 ≡ ok id → log_status w id ≡ none
  unfolding Service.create_log
  service-unused h = elim (Bool-cases (trim_space path == [])) [
    | inl e ↦ absurd (cc (rw (e) at h))
    | inr e ↦ create_log-is_unused path w id (rw (e) at h)
  ]

pub service-uncreated :
    (path : Text) (w : World) (e : Error)
    → (Service.create_log path w).0 ≡ err e
    → (Service.create_log path w).1.db ≡ w.db
unfolding Service.create_log
service-uncreated path w x h = elim (Bool-cases (trim_space path == [])) [
  | inl e ↦ rw (e) refl
  | inr e ↦ rw (e) (create_log-uncreated path w x (rw (e) at h))
]

module _ (log_id : ℤ) (parsed : ParsedLog) (w : World) where
  pub service-saved :
      (r : SaveParsedLogResult)
      → (Service.save_parsed_log log_id parsed w).0 ≡ ok r
      → (r.log_id ≡ log_id)
        × (log_status (Service.save_parsed_log log_id parsed w).1 log_id ≡ some log_status_parsed)
  unfolding Service.save_parsed_log
  service-saved r h = elim (Bool-cases (is_positive log_id)) [
    | inr e ↦ absurd (cc (rw (e) at h))
    | inl e ↦ rw (e) (save_parsed_log-status log_id parsed w r (rw (e) at h))
  ]

  pub service-unsaved :
      (e : Error)
      → (Service.save_parsed_log log_id parsed w).0 ≡ err e
      → log_status (Service.save_parsed_log log_id parsed w).1 log_id ≡ log_status w log_id
  unfolding Service.save_parsed_log
  service-unsaved x h = elim (Bool-cases (is_positive log_id)) [
    | inr e ↦ rw (e) refl
    | inl e ↦ rw (e) (save_parsed_log-unsaved log_id parsed w x (rw (e) at h))
  ]

module _ (log_id : ℤ) (text : Text) (w : World) where
  pub service-failed :
      log_status w log_id ≡ some log_status_processing
      → (Service.fail_log log_id text w).0 ≡ ok tt
      → log_status (Service.fail_log log_id text w).1 log_id ≡ some log_status_failed
  unfolding Service.fail_log
  service-failed processing h = elim (Bool-cases (is_positive log_id)) [
    | inr e ↦ absurd (cc (rw (e) at h))
    | inl e ↦ rw (e) (fail_log-status log_id text w processing (rw (e) at h))
  ]

  pub service-unfailed :
      (e : Error)
      → (Service.fail_log log_id text w).0 ≡ err e
      → log_status (Service.fail_log log_id text w).1 log_id ≡ log_status w log_id
  unfolding Service.fail_log
  service-unfailed x h = elim (Bool-cases (is_positive log_id)) [
    | inr e ↦ rw (e) refl
    | inl e ↦ rw (e) (fail_log-unfailed log_id text w x (rw (e) at h))
  ]
