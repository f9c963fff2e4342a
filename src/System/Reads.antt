-- ===== src/System/Reads.antt =====
-- A log that the gateway is asked for, from the path value to the repository and back; the handler of
-- log-services/app/adapters/rest/data.go over the real repository.
use microservice_log_parser.Prelude.{ℕ, ◌≡◌, refl, ap, ◌⊎◌, inl, inr, true, Option, some}
use microservice_log_parser.Prelude.Int.{ℤ, is_positive}
use microservice_log_parser.Prelude.Text.{Text}
use microservice_log_parser.Prelude.Result.{Result, ok, err, Result-cases}
use microservice_log_parser.Parser.Model.{ParsedLog as EngineLog, Error as EngineError}
use microservice_log_parser.App.Rest.Pagination.{parse_path_value}
use microservice_log_parser.App.Rest.Payloads.{stored_log_to_response}
use microservice_log_parser.App.Rest.Handlers.{
  sent, refused, answer, http_status_from_error, get_log_handler,
}
use microservice_log_parser.App.Service.{get_log}
use microservice_log_parser.Repository.Model.{
  Error, bad_arguments, not_found, unavailable, invalid_status, other, Log,
}
use microservice_log_parser.Repository.World.{World}
use microservice_log_parser.Repository.Service
use microservice_log_parser.Wire.Status.{Code}
use microservice_log_parser.Wire.RepositoryRpc.Server.{serve_get_log, log_to_proto, grpc_error}
use microservice_log_parser.Wire.RepositoryRpc.AppClient.{
  call_get_log, log_from_proto, map_grpc_error,
}
use microservice_log_parser.System.{services}
use microservice_log_parser.System.ParseLog.{gateway}

-- The status of the reply for an error of the repository.
abbrev pub status_for : Error → ℕ
status_for bad_arguments = 400
status_for not_found = 404
status_for invalid_status = 409
status_for unavailable = 503
status_for other = 500

module _ {Instant : Type 0} (parse_time : Text → Option Instant) (format_time : Instant → Text)
    (status_text : Code → Text) (parse : Text → Result EngineError EngineLog) where
  status_for-error :
      (e : Error)
      → http_status_from_error (map_grpc_error status_text (grpc_error e)) ≡ status_for e
  unfolding http_status_from_error map_grpc_error grpc_error
  status_for-error bad_arguments = refl
  status_for-error not_found = refl
  status_for-error invalid_status = refl
  status_for-error unavailable = refl
  status_for-error other = refl

  -- `GET /api/v1/log/{log_id}` for a path value that is a positive number: where the repository has the
  -- log, its payload is that of the log as it arrives over gRPC; where the repository answers with an
  -- error, the reply has the status for that error.
  pub get_log_handler_answers :
      (value : Text) (id : ℤ) (w : World)
      → parse_path_value value ≡ ok id
      → is_positive id ≡ true
      → ((log : Log) × ((Service.get_log id w).0 ≡ ok log)
          × ((get_log_handler (gateway parse_time format_time status_text parse) value w).0
              ≡ sent (
                  stored_log_to_response
                    (log_from_proto format_time (some (log_to_proto parse_time log))))))
        ⊎ ((e : Error) × ((Service.get_log id w).0 ≡ err e)
            × ((get_log_handler (gateway parse_time format_time status_text parse) value w).0
                ≡ refused (status_for e)))
  unfolding get_log_handler gateway services answer get_log call_get_log serve_get_log
  get_log_handler_answers value id w given positive = elim (Result-cases (Service.get_log id w).0) [
    | inl (log, has) ↦ inl (log, has, rw (given, positive, has) refl)
    | inr (e, fails) ↦
        let status = status_for-error e in
        inr (e, fails, rw (given, positive, fails) (ap refused status))
  ]
