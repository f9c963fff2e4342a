-- ===== src/System/ParseLog.antt =====
-- `ParseLog` of log-services/app/core/service.go over the real repository: what it leaves of the log
-- that it creates.
use microservice_log_parser.Prelude.{
  [], ◌≡◌, refl, ap, sym, ◌∙◌, ◌⊎◌, inl, inr, true, false, Option, none,
}
use microservice_log_parser.Prelude.Eq.{◌==◌}
use microservice_log_parser.Prelude.Int.{ℤ, is_positive}
use microservice_log_parser.Prelude.Text.{Text, text_eq, trim_space}
use microservice_log_parser.Prelude.Result.{Result, ok, err}
use microservice_log_parser.Parser.Model.{ParsedLog as EngineLog, Error as EngineError}
use microservice_log_parser.App.Model.{Error}
use microservice_log_parser.App.Service.{Ports}
use microservice_log_parser.App.Service.Outcome.{Keeps, Finished, parse_log-Finished}
use microservice_log_parser.Repository.World.{World}
use microservice_log_parser.Repository.Statuses.{log_status}
use microservice_log_parser.Wire.Status.{Code}
use microservice_log_parser.Wire.RepositoryRpc.Server.{
  save_converted, serve_create_log, serve_save_parsed_log, serve_fail_log, parsed_log_from_proto,
}
use microservice_log_parser.Wire.RepositoryRpc.AppClient.{
  call_create_log, call_save_parsed_log, call_fail_log,
}
use microservice_log_parser.System.{parser_service, services, gateway_parse_log}
use microservice_log_parser.System.Keeping.{
  convert-ok, convert-err, create_log-Processing, service-uncreated, service-unused, service-saved,
  service-unsaved, service-failed, service-unfailed,
}

abbrev pub Any : World → Type 0
Any w = Unit

module _ {Instant : Type 0} (parse_time : Text → Option Instant) (format_time : Instant → Text)
    (status_text : Code → Text) (parse : Text → Result EngineError EngineLog) where
  unfoldable pub gateway : Ports World
  unfolding services
  gateway = services parse_time format_time status_text parse

  pub services-Keeps : Keeps gateway log_status Any
  unfolding gateway services call_create_log serve_create_log call_save_parsed_log
      serve_save_parsed_log call_fail_log serve_fail_log save_converted parsed_log_from_proto
      parser_service
  services-Keeps = record {
    created_id = λ path s id h.
        let (sent, answered, same) = convert-ok _ _ _ id h in
        let (one, made, is_id) = convert-ok _ _ _ sent answered in
        (create_log-Processing path s id (made ∙ ap ok (ap (λ x. x.id) is_id ∙ same))).0;
    created = λ path s id good h.
        let (sent, answered, same) = convert-ok _ _ _ id h in
        let (one, made, is_id) = convert-ok _ _ _ sent answered in
        (create_log-Processing path s id (made ∙ ap ok (ap (λ x. x.id) is_id ∙ same))).1;
    parsing = λ path s id. refl;
    saved = λ log_id parsed s r h.
        let (sent, answered, same) = convert-ok _ _ _ r h in
        let (result, made, is_sent) = convert-ok _ _ _ sent answered in
        let (kept, done) = service-saved log_id _ s result made in
        (ap (λ x. x.log_id) (sym same) ∙ ap (λ x. x.log_id) (sym is_sent) ∙ kept, done);
    not_saved = λ log_id parsed s e h.
        let (code, answered) = convert-err _ _ _ e h in
        let (cause, refused) = convert-err _ _ _ code answered in
        service-unsaved log_id _ s cause refused;
    failed = λ log_id text s processing h.
        let (sent, answered, same) = convert-ok _ _ _ tt h in
        let (one, made, is_sent) = convert-ok _ _ _ sent answered in
        service-failed log_id text s processing made;
    not_failed = λ log_id text s e h.
        let (code, answered) = convert-err _ _ _ e h in
        let (cause, refused) = convert-err _ _ _ code answered in
        service-unfailed log_id text s cause refused;
  }

  -- `ParseLog` over the other three services, for any parser, any database, any faults of it and
  -- a path that is not blank. Either the repository creates no log, every table is as it was, and an
  -- error is returned, or it creates one under a positive id that no log had,
  -- and `ParseLog` finishes it: on success the result is made of what the parser and `SaveParsedLog` returned, the world is the one
  -- that `SaveParsedLog` left, and the log of the returned id is stored as parsed; else the error of the parser or of `SaveParsedLog` is returned, and the repository's `FailLog` runs last, with
  -- the text of that error, in the world that the failed call left. If it succeeds the log is stored as
  -- failed; if it answers with an error itself, the log is still being processed.
  pub gateway_parse_log-Finished :
      (path : Text) (w : World)
      → (trim_space path == []) ≡ false
      → ((e : Error) × ((gateway_parse_log parse_time format_time status_text parse path w).0
            ≡ err e)
          × ((gateway_parse_log parse_time format_time status_text parse path w).1.db ≡ w.db))
        ⊎ ((id : ℤ) × (is_positive id ≡ true)
            × (log_status w id ≡ none)
            × Finished gateway log_status
                (trim_space path)
                id
                (gateway.create_log (trim_space path) w).1
                (gateway_parse_log parse_time format_time status_text parse path w))
  unfolding gateway_parse_log gateway services call_create_log serve_create_log
  gateway_parse_log-Finished path w given =
      elim (parse_log-Finished gateway log_status Any services-Keeps path w tt given) [
        | inl (e, fails, whole) ↦ inl (
          e,
          ap (λ r. r.0) whole,
          ap (λ r. r.1.db) whole
              ∙ (let (code, answered) = convert-err _ _ _ e fails in
                  let (cause, refused) = convert-err _ _ _ code answered in
                  service-uncreated (trim_space path) w cause refused),
        )
        | inr (id, made, done) ↦ inr (
          id,
          services-Keeps.created_id (trim_space path) w id made,
          (let (sent, answered, same) = convert-ok _ _ _ id made in
              let (one, created, is_id) = convert-ok _ _ _ sent answered in
              service-unused (trim_space path) w id
                (created ∙ ap ok (ap (λ x. x.id) is_id ∙ same))),
          done,
        )
      ]
