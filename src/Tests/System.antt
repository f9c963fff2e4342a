-- ===== src/Tests/System.antt =====
-- A log through the gateway, the parser and the repository, and paths of the parser.
use microservice_log_parser.Prelude.{
  ◌∷◌, List, [], ◌++◌, ◌≡◌, ◌⊎◌, refl, Option, none, some, false, true, All, map, if◌then◌else◌,
}
use microservice_log_parser.Prelude.Eq.{◌==◌}
use microservice_log_parser.Prelude.Int.{ℤ, pos, is_positive}
use microservice_log_parser.Prelude.Text.{Text, codes, text_eq, text_beq, trim_space}
use microservice_log_parser.Prelude.Result.{Result, ok, err}
use microservice_log_parser.App.Model.{Error}
use microservice_log_parser.App.Model.{log_status_parsed, log_status_failed}
use microservice_log_parser.App.Service.Outcome.{Finished}
use microservice_log_parser.Repository.Statuses.{log_status}
use microservice_log_parser.Parser.Model.{bad_arguments}
use microservice_log_parser.Parser.Paths.{is_abs, absolute, resolve_path, join_segments, text_of}
use microservice_log_parser.Parser.Paths.Clean.{IsName}
use microservice_log_parser.Parser.Paths.Accepts.{in_container, resolve_path_accepts}
use microservice_log_parser.Parser.Paths.Inside.{IsRooted, from_root, resolve_path_inside}
use microservice_log_parser.System.{gateway_parse_log}
use microservice_log_parser.System.ParseLog.{gateway, gateway_parse_log-Finished}
use microservice_log_parser.System.Settled.{gateway_parse_logs, gateway_parse_logs-AllSettled}
use microservice_log_parser.Repository.Settled.{AllSettled}
use microservice_log_parser.Repository.World.{World}
use microservice_log_parser.Parser.Model.{ParsedLog as EngineLog, Error as EngineError}
use microservice_log_parser.System.Reads.{status_for, get_log_handler_answers}
use microservice_log_parser.App.Rest.Pagination.{parse_path_value}
use microservice_log_parser.App.Rest.Payloads.{stored_log_to_response}
use microservice_log_parser.App.Rest.Handlers.{sent, refused, get_log_handler}
use microservice_log_parser.Repository.Model.{Log, Error as RepositoryError}
use microservice_log_parser.Repository.Service
use microservice_log_parser.Wire.RepositoryRpc.Server.{log_to_proto}
use microservice_log_parser.Wire.RepositoryRpc.AppClient.{log_from_proto}
use microservice_log_parser.Tests.Repository
use microservice_log_parser.Tests.Wire.{no_text, as_is, parse_one, parse_none}

not_blank : (trim_space (codes " a.log ") == []) ≡ false
unfolding trim_space text_beq
not_blank = refl

-- The new log is log 3; its one node is stored.
stores :
    log_status
      (gateway_parse_log as_is (λ t. t) no_text parse_one (codes " a.log ") Repository.world).1
      (pos 3)
    ≡ some log_status_parsed
unfolding gateway_parse_log
stores = refl

fails :
    log_status
      (gateway_parse_log as_is (λ t. t) no_text parse_none (codes " a.log ") Repository.world).1
      (pos 3)
    ≡ some log_status_failed
unfolding gateway_parse_log
fails = refl

gateway_parse_log-Finished_example :
    ((e : Error) × ((gateway_parse_log as_is
          (λ t. t)
          no_text
          parse_one
          (codes " a.log ")
          Repository.world).0
        ≡ err e)
      × ((gateway_parse_log as_is
            (λ t. t)
            no_text
            parse_one
            (codes " a.log ")
            Repository.world).1.db
          ≡ Repository.world.db))
    ⊎ ((id : ℤ) × (is_positive id ≡ true)
        × (log_status Repository.world id ≡ none)
        × Finished
            (gateway as_is (λ t. t) no_text parse_one)
            log_status
            (trim_space (codes " a.log "))
            id
            ((gateway as_is (λ t. t) no_text parse_one).create_log
              (trim_space (codes " a.log "))
              Repository.world).1
            (gateway_parse_log as_is (λ t. t) no_text parse_one (codes " a.log ") Repository.world))
gateway_parse_log-Finished_example =
    gateway_parse_log-Finished as_is (λ t. t) no_text parse_one (codes " a.log ") Repository.world
      not_blank

-- No log is being processed, and there is one.
abbrev idle : World
idle = record Repository.world {
  db = record Repository.world.db { logs = Repository.done_log ∷ [] };
}

idle-AllSettled : AllSettled idle
idle-AllSettled = (refl, (Repository.not_processing, tt))

abbrev parse_some : Text → Result EngineError EngineLog
parse_some path = if path == codes "a.log" then parse_one path else parse_none path

settled :
    map {B = ℤ × Text}
      (λ row. (row.id, row.status))
      (gateway_parse_logs as_is
        (λ t. t)
        no_text
        parse_some
        (codes "b.log" ∷ codes "a.log" ∷ [])
        idle).db.logs
    ≡ (pos 1, log_status_parsed) ∷ (pos 3, log_status_failed) ∷ (pos 4, log_status_parsed) ∷ []
unfolding gateway_parse_logs text_beq
settled = refl

gateway_parse_logs-AllSettled_example :
    AllSettled (
      gateway_parse_logs as_is
        (λ t. t)
        no_text
        parse_some
        (codes "b.log" ∷ codes "a.log" ∷ [])
        idle)
gateway_parse_logs-AllSettled_example =
    gateway_parse_logs-AllSettled as_is (λ t. t) no_text parse_some
      (codes "b.log" ∷ codes "a.log" ∷ []) idle idle-AllSettled

abbrev in_home : Option Text
in_home = some (codes "/home/")

in_home-IsRooted : IsRooted in_home
unfolding is_abs
in_home-IsRooted dir e = cc e

-- A path of the container is taken into the data directory.
resolves :
    resolve_path in_home (codes "./data") (codes "/data/x/../logs/a.zip")
    ≡ ok (codes "/home/data/logs/a.zip")
unfolding resolve_path
resolves = refl

escapes : resolve_path in_home (codes "data") (codes "x/../../secret") ≡ err bad_arguments
unfolding resolve_path
escapes = refl

resolve_path_inside_example :
    (dirs rest : List Text) × (absolute in_home (codes "./data") ≡ ok (from_root dirs))
    × (codes "/home/data/logs/a.zip" ≡ from_root (dirs ++ rest))
    × All IsName (dirs ++ rest)
resolve_path_inside_example =
    resolve_path_inside in_home (codes "./data") (codes "/data/x/../logs/a.zip")
      (codes "/home/data/logs/a.zip") in_home-IsRooted resolves

d-IsName : IsName (codes "d")
unfolding text_beq
d-IsName = record { not_empty = refl; not_dot = refl; not_parent = refl; no_slash = (refl, tt) }

logs-IsName : All IsName (codes "a" ∷ codes ".b" ∷ [])
unfolding text_beq
logs-IsName = (
  record { not_empty = refl; not_dot = refl; not_parent = refl; no_slash = (refl, tt) },
  (
    record { not_empty = refl; not_dot = refl; not_parent = refl; no_slash = (refl, (refl, tt)) },
    tt,
  ),
)

in_d : absolute none (codes "/d/") ≡ ok (from_root (codes "d" ∷ []))
unfolding absolute
in_d = refl

relative_not_blank : (trim_space (join_segments (codes "a" ∷ codes ".b" ∷ [])) == []) ≡ false
unfolding trim_space text_beq join_segments text_of
relative_not_blank = refl

rooted_not_blank :
    (trim_space (in_container (codes "a") (codes ".b" ∷ []) logs-IsName) == []) ≡ false
unfolding trim_space text_beq join_segments text_of
rooted_not_blank = refl

resolve_path_accepts_example :
    (resolve_path none (codes "/d/") (join_segments (codes "a" ∷ codes ".b" ∷ []))
      ≡ ok (from_root (codes "d" ∷ codes "a" ∷ codes ".b" ∷ [])))
    × (resolve_path none (codes "/d/") (in_container (codes "a") (codes ".b" ∷ []) logs-IsName)
        ≡ ok (from_root (codes "d" ∷ codes "a" ∷ codes ".b" ∷ [])))
resolve_path_accepts_example =
    resolve_path_accepts (codes "a") (codes ".b" ∷ []) logs-IsName none (codes "/d/")
      (codes "d" ∷ []) (d-IsName, tt) in_d relative_not_blank rooted_not_blank

reads_one : parse_path_value (codes " 1") ≡ ok (pos 1)
unfolding parse_path_value
reads_one = refl

no_such_log :
    (get_log_handler (gateway as_is (λ t. t) no_text parse_one) (codes "9") Repository.world).0
    ≡ refused 404
unfolding get_log_handler gateway
no_such_log = refl

get_log_handler_answers_example :
    ((log : Log) × ((Service.get_log (pos 1) Repository.world).0 ≡ ok log)
      × ((get_log_handler
            (gateway as_is (λ t. t) no_text parse_one)
            (codes " 1")
            Repository.world).0
          ≡ sent
              (stored_log_to_response (log_from_proto (λ t. t) (some (log_to_proto as_is log))))))
    ⊎ ((e : RepositoryError) × ((Service.get_log (pos 1) Repository.world).0 ≡ err e)
        × ((get_log_handler
              (gateway as_is (λ t. t) no_text parse_one)
              (codes " 1")
              Repository.world).0
            ≡ refused (status_for e)))
get_log_handler_answers_example =
    get_log_handler_answers as_is (λ t. t) no_text parse_one (codes " 1") (pos 1) Repository.world
      reads_one refl
