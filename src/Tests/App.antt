-- ===== src/Tests/App.antt =====
-- The orchestration of log-services/app/core/service.go over a toy of its services, which keeps the status
-- of each log, and the pages of log-services/app/adapters/rest/data.go.
use microservice_log_parser.Prelude.{
  ℕ, List, [], ◌∷◌, ◌≡◌, ◌⊎◌, inl, inr, refl, sym, ap, subst, true, false, Bool-cases, Option, none,
  some, take, drop, arith, if◌then◌else◌,
}
use microservice_log_parser.Prelude.Eq.{◌==◌, ==_refl}
use microservice_log_parser.Prelude.Int.{ℤ, pos, int_eq, is_positive}
use microservice_log_parser.Prelude.Text.{Text, codes, trim_space, text_eq, text_beq}
use microservice_log_parser.Prelude.Result.{ok, err, ok_injective}
use microservice_log_parser.App.Model.{
  Error, unavailable, not_found, Port, ParsedLog, log_status_processing, log_status_parsed,
  log_status_failed,
}
use microservice_log_parser.App.Service.{Ports, parse_log, get_ports_by_log}
use microservice_log_parser.App.Service.Outcome.{Keeps, Finished, parse_log-Finished}
use microservice_log_parser.App.Rest.Pagination.{paginate_ports, include_raw, max_ports_limit}
use microservice_log_parser.App.Rest.Pagination.Pages.{paginate_ports-take-drop}
use microservice_log_parser.App.Rest.Handlers.{get_ports_by_log_handler}
use microservice_log_parser.App.Rest.Handlers.Pages.{
  IsPageOrError, FitsInt, get_ports_by_log_handler-IsPageOrError,
}

abbrev Store : Type 0
Store = ℤ → Option Text

abbrev with_status : ℤ → Text → Store → Store
with_status id text s j = if j == id then some text else s j

abbrev port : ℕ → Port
port id = record {
  id = pos id;
  log_id = pos 1;
  node_id = pos 1;
  node_guid = codes "a";
  port_guid = codes "p";
  port_num = pos id;
  lid = pos 0;
  local_port_num = pos 0;
  port_state = pos 4;
  port_phy_state = pos 0;
  link_width_active = pos 0;
  link_speed_active = pos 0;
  raw_json = codes "{}";
}

abbrev three_ports : List Port
three_ports = port 1 ∷ port 2 ∷ port 3 ∷ []

abbrev no_log : ParsedLog
no_log = record { nodes = []; ports = []; nodes_info = [] }

-- Every log is log 1. Parsing fails for one path.
abbrev toy : Ports Store
toy = record {
  create_log = λ path s. (ok (pos 1), with_status (pos 1) log_status_processing s);
  save_parsed_log = λ log_id parsed s. (
    ok (record { log_id = log_id; nodes_count = pos 0; ports_count = pos 0 }),
    with_status log_id log_status_parsed s,
  );
  fail_log = λ log_id text s. (ok tt, with_status log_id log_status_failed s);
  get_log = λ log_id s. (
    ok (record {
      id = log_id;
      file_path = [];
      status = log_status_parsed;
      nodes_count = pos 0;
      ports_count = pos 3;
      error = [];
      uploaded_at = [];
      parsed_at = [];
    }),
    s,
  );
  get_node = λ node_id s. (err not_found, s);
  get_ports_by_node = λ node_id s. (ok [], s);
  get_nodes_by_log = λ log_id s. (ok [], s);
  get_ports_by_log = λ log_id s. (ok three_ports, s);
  parse = λ path s. (if path == codes "bad.log" then err unavailable else ok no_log, s);
  get_topology = λ log_id s. (err not_found, s);
}

abbrev status : Store → ℤ → Option Text
status s id = s id

with_status-same : (id : ℤ) (text : Text) (s : Store) → with_status id text s id ≡ some text
with_status-same id text s = rw (==_refl id) refl

abbrev Any : Store → Type 0
Any s = Unit

toy-Keeps : Keeps toy status Any
toy-Keeps = record {
  created_id = λ path s id e. subst (λ i. is_positive i ≡ true) (ok_injective (pos 1) id e) refl;
  created = λ path s id good e.
      subst (λ i. with_status (pos 1) log_status_processing s i ≡ some log_status_processing)
        (ok_injective (pos 1) id e) (with_status-same (pos 1) log_status_processing s);
  parsing = λ path s id. refl;
  saved = λ log_id parsed s r e.
      (sym (ap (λ x. x.log_id) (ok_injective _ r e)), with_status-same log_id log_status_parsed s);
  not_saved = λ log_id parsed s x e. absurd (cc e);
  failed = λ log_id text s st e. with_status-same log_id log_status_failed s;
  not_failed = λ log_id text s x e. absurd (cc e);
}

abbrev empty_store : Store
empty_store id = none

bad_path : (trim_space (codes " bad.log ") == []) ≡ false
unfolding trim_space text_beq
bad_path = refl

fails : (parse_log toy (codes " bad.log ") empty_store).1 (pos 1) ≡ some log_status_failed
unfolding parse_log
fails = refl

parse_log-Finished_example :
    ((e : Error) × ((toy.create_log (trim_space (codes " bad.log ")) empty_store).0 ≡ err e)
      × (parse_log toy (codes " bad.log ") empty_store
          ≡ (err e, (toy.create_log (trim_space (codes " bad.log ")) empty_store).1)))
    ⊎ ((id : ℤ) × ((toy.create_log (trim_space (codes " bad.log ")) empty_store).0 ≡ ok id)
        × Finished toy status
            (trim_space (codes " bad.log "))
            id
            (toy.create_log (trim_space (codes " bad.log ")) empty_store).1
            (parse_log toy (codes " bad.log ") empty_store))
parse_log-Finished_example =
    parse_log-Finished toy status Any toy-Keeps (codes " bad.log ") empty_store tt bad_path

paginate_ports-take-drop_example :
    paginate_ports three_ports 2 2 ≡ some (take 2 (drop 2 three_ports))
paginate_ports-take-drop_example = paginate_ports-take-drop three_ports 2 2 (omega arith)

few_ports :
    (id : ℤ) (s : Store) (ports : List Port)
    → (get_ports_by_log toy id s).0 ≡ ok ports
    → FitsInt max_ports_limit ports
unfolding get_ports_by_log
few_ports id s ports e = elim (Bool-cases (is_positive id)) [
  | inl good ↦
      subst (FitsInt max_ports_limit) (ok_injective three_ports ports (rw (good) at e))
        (omega arith)
  | inr bad ↦ absurd (ground (arith, bad))
]

get_ports_by_log_handler-IsPageOrError_example :
    IsPageOrError
      (include_raw (codes "false"))
      (get_ports_by_log_handler toy (codes "false") (codes "2") (codes "1") (codes "1") empty_store)
get_ports_by_log_handler-IsPageOrError_example =
    get_ports_by_log_handler-IsPageOrError toy few_ports (codes "false") (codes "2") (codes "1")
      (codes "1") empty_store
