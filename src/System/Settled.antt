-- ===== src/System/Settled.antt =====
-- Calls of `ParseLog` of log-services/app/core/service.go over the real repository, one after the other.
use microservice_log_parser.Prelude.{
  List, [], ◌∷◌, ◌≡◌, inl, inr, ap, ◌∙◌, true, Option, Bool-cases,
}
use microservice_log_parser.Prelude.Eq.{◌==◌}
use microservice_log_parser.Prelude.Int.{ℤ, is_positive}
use microservice_log_parser.Prelude.Text.{Text, text_eq, trim_space}
use microservice_log_parser.Prelude.Result.{Result, ok, err}
use microservice_log_parser.Parser.Model.{ParsedLog as EngineLog, Error as EngineError}
use microservice_log_parser.App.Service.Settling.{Settles, parse_log-Settled}
use microservice_log_parser.Repository.Model.{Error, ParsedLog, SaveParsedLogResult}
use microservice_log_parser.Repository.World.{World}
use microservice_log_parser.Repository.Service
use microservice_log_parser.Repository.Settled.{
  AllSettled, AllPending, create_log-AllPending, create_log-AllSettled, save_parsed_log-AllSettled,
  save_parsed_log-AllPending, fail_log-AllSettled,
}
use microservice_log_parser.Wire.Status.{Code}
use microservice_log_parser.Wire.RepositoryRpc.Server.{
  save_converted, serve_create_log, serve_save_parsed_log, serve_fail_log, parsed_log_from_proto,
}
use microservice_log_parser.Wire.RepositoryRpc.AppClient.{
  call_create_log, call_save_parsed_log, call_fail_log,
}
use microservice_log_parser.System.{parser_service, services, gateway_parse_log}
use microservice_log_parser.System.Keeping.{convert-ok, convert-err, create_log-Processing}
use microservice_log_parser.System.ParseLog.{gateway}

service-created :
    (path : Text) (w : World) (id : ℤ)
    → AllSettled w
    → (Service.create_log path w).0 ≡ ok id
    → AllPending id (Service.create_log path w).1
unfolding Service.create_log
service-created path w id h made = elim (Bool-cases (trim_space path == [])) [
  | inl e ↦ absurd (cc (rw (e) at made))
  | inr e ↦ let after = create_log-AllPending path w id h (rw (e) at made) in rw (e) after
]

service-not_created :
    (path : Text) (w : World) (x : Error)
    → AllSettled w
    → (Service.create_log path w).0 ≡ err x
    → AllSettled (Service.create_log path w).1
unfolding Service.create_log
service-not_created path w x h fails = elim (Bool-cases (trim_space path == [])) [
  | inl e ↦ rw (e) h
  | inr e ↦ let after = create_log-AllSettled path w x h (rw (e) at fails) in rw (e) after
]

service-saved :
    (id : ℤ) (parsed : ParsedLog) (w : World) (r : SaveParsedLogResult)
    → AllPending id w
    → (Service.save_parsed_log id parsed w).0 ≡ ok r
    → AllSettled (Service.save_parsed_log id parsed w).1
unfolding Service.save_parsed_log
service-saved id parsed w r h done = elim (Bool-cases (is_positive id)) [
  | inl e ↦ let after = save_parsed_log-AllSettled id parsed w r h (rw (e) at done) in rw (e) after
  | inr e ↦ absurd (cc (rw (e) at done))
]

service-not_saved :
    (id : ℤ) (parsed : ParsedLog) (w : World) (x : Error)
    → AllPending id w
    → (Service.save_parsed_log id parsed w).0 ≡ err x
    → AllPending id (Service.save_parsed_log id parsed w).1
unfolding Service.save_parsed_log
service-not_saved id parsed w x h fails = elim (Bool-cases (is_positive id)) [
  | inl e ↦ let after = save_parsed_log-AllPending id parsed w x h (rw (e) at fails) in rw (e) after
  | inr e ↦ rw (e) h
]

service-failing :
    (id : ℤ) (text : Text) (w : World)
    → is_positive id ≡ true
    → AllPending id w
    → AllSettled (Service.fail_log id text w).1
unfolding Service.fail_log
service-failing id text w is_pos h =
    let after = fail_log-AllSettled id text w h in rw (is_pos) after

module _ {Instant : Type 0} (parse_time : Text → Option Instant) (format_time : Instant → Text)
    (status_text : Code → Text) (parse : Text → Result EngineError EngineLog) where
  services-Settles :
      Settles (gateway parse_time format_time status_text parse) AllSettled AllPending
  unfolding gateway services call_create_log serve_create_log call_save_parsed_log
      serve_save_parsed_log call_fail_log serve_fail_log save_converted parsed_log_from_proto
      parser_service
  services-Settles = record {
    created_id = λ path w id h.
        let (sent, answered, same) = convert-ok _ _ _ id h in
        let (one, made, is_id) = convert-ok _ _ _ sent answered in
        (create_log-Processing path w id (made ∙ ap ok (ap (λ x. x.id) is_id ∙ same))).0;
    created = λ path w id settled h.
        let (sent, answered, same) = convert-ok _ _ _ id h in
        let (one, made, is_id) = convert-ok _ _ _ sent answered in
        service-created path w id settled (made ∙ ap ok (ap (λ x. x.id) is_id ∙ same));
    not_created = λ path w e settled h.
        let (code, answered) = convert-err _ _ _ e h in
        let (cause, refused) = convert-err _ _ _ code answered in
        service-not_created path w cause settled refused;
    parsing = λ path w id h. h;
    saved = λ id parsed w r pending h.
        let (sent, answered, same) = convert-ok _ _ _ r h in
        let (result, made, is_sent) = convert-ok _ _ _ sent answered in
        service-saved id _ w result pending made;
    not_saved = λ id parsed w e pending h.
        let (code, answered) = convert-err _ _ _ e h in
        let (cause, refused) = convert-err _ _ _ code answered in
        service-not_saved id _ w cause pending refused;
    failing = service-failing;
  }

  -- The calls of `ParseLog` for the paths, one after the other.
  unfoldable pub gateway_parse_logs : List Text → World → World
  unfolding gateway_parse_log
  gateway_parse_logs [] w = w
  gateway_parse_logs (path ∷ paths) w =
      gateway_parse_logs paths (gateway_parse_log parse_time format_time status_text parse path w).1

  -- Where no statement of the database fails any more and no log is being processed, any calls of
  -- `ParseLog` one after the other, with any paths and any parser, leave no log that is being processed,
  -- of those that were there and of those that they have created.
  pub gateway_parse_logs-AllSettled :
      (paths : List Text) (w : World) → AllSettled w → AllSettled (gateway_parse_logs paths w)
  unfolding gateway_parse_logs gateway_parse_log gateway
  gateway_parse_logs-AllSettled [] w h = h
  gateway_parse_logs-AllSettled (path ∷ paths) w h =
      gateway_parse_logs-AllSettled paths
        (gateway_parse_log parse_time format_time status_text parse path w).1
        (parse_log-Settled (gateway parse_time format_time status_text parse) AllSettled AllPending
          services-Settles path w h)
