-- ===== src/App/Service.antt =====
-- log-services/app/core/service.go, over the interfaces of ports.go. The state `S` is whatever the
-- services behind the interfaces keep; each call may change it.
pub mod Outcome
pub mod Settling
use microservice_log_parser.Prelude.{List, [], ◌∷◌, Bool, not, length, if◌then◌else◌}
use microservice_log_parser.Prelude.Eq.{◌==◌}
use microservice_log_parser.Prelude.Int.{ℤ, pos, is_positive, to_int32}
use microservice_log_parser.Prelude.Text.{Text, text_beq, text_eq, trim_space}
use microservice_log_parser.Prelude.Result.{Result, ok, err}
use microservice_log_parser.App.Model.{
  Error, bad_arguments, error_text, Log, Node, Port, ParsedLog, ParseLogResult, SaveParsedLogResult,
  Topology, log_status_parsed,
}

-- A call that returns a value or an error and may change the state.
abbrev pub Call : Type 0 → Type 0 → Type 0
Call S A = S → Result Error A × S

module _ {S : Type 0} where
  abbrev continue : {A B : Type 0} → Result Error A → (A → Call S B) → Call S B
  continue (ok a) f s = f a s
  continue (err e) f s = (err e, s)

  infixl 5 ◌>>=◌ ◌>>◌
  abbrev pub ◌>>=◌ : {A B : Type 0} → Call S A → (A → Call S B) → Call S B
  ◌>>=◌ m f s = continue (m s).0 f (m s).1

  abbrev pub ◌>>◌ : {A B : Type 0} → Call S A → Call S B → Call S B
  m >> n = m >>= λ _. n

  abbrev pub pure : {A : Type 0} → A → Call S A
  pure a s = (ok a, s)

  abbrev pub fail : {A : Type 0} → Error → Call S A
  fail e s = (err e, s)

-- The interfaces `Repository`, `Parser` and `TopologyProvider`, but for their `Ping`.
pub record Ports (S : Type 0) : Type 0 where
  pub create_log : Text → Call S ℤ
  pub save_parsed_log : ℤ → ParsedLog → Call S SaveParsedLogResult
  pub fail_log : ℤ → Text → Call S Unit
  pub get_log : ℤ → Call S Log
  pub get_node : ℤ → Call S Node
  pub get_ports_by_node : ℤ → Call S (List Port)
  pub get_nodes_by_log : ℤ → Call S (List Node)
  pub get_ports_by_log : ℤ → Call S (List Port)
  pub parse : Text → Call S ParsedLog
  pub get_topology : ℤ → Call S Topology

abbrev pub parse_log_result : ParsedLog → SaveParsedLogResult → ParseLogResult
parse_log_result parsed saved = record {
  log_id = saved.log_id;
  status = log_status_parsed;
  nodes_count = saved.nodes_count;
  ports_count = saved.ports_count;
  nodes_info_count = to_int32 (pos (length parsed.nodes_info));
}

module _ {S : Type 0} (p : Ports S) where
  -- `failLog`: whatever `FailLog` answers is logged and dropped.
  unfoldable pub fail_log : ℤ → Error → S → S
  fail_log log_id cause s =
      if not (is_positive log_id) then s else (p.fail_log log_id (error_text cause) s).1

  -- `if err != nil { s.failLog(…); return …, err }`
  or_fail_log : {A B : Type 0} → ℤ → Result Error A × S → (A → Call S B) → Result Error B × S
  unfolding fail_log
  or_fail_log log_id (ok a, s) f = f a s
  or_fail_log log_id (err e, s) f = (err e, fail_log log_id e s)

  parse_created : Text → ℤ → Call S ParseLogResult
  unfolding or_fail_log to_int32
  parse_created path log_id s = or_fail_log log_id (p.parse path s) λ parsed s'.
      or_fail_log log_id (p.save_parsed_log log_id parsed s')
        λ saved. pure (parse_log_result parsed saved)

  unfoldable pub parse_log : Text → Call S ParseLogResult
  unfolding parse_created trim_space text_beq
  parse_log path =
      let trimmed = trim_space path in
      if trimmed == [] then fail bad_arguments else p.create_log trimmed >>= parse_created trimmed

  -- `if id <= 0 { return …, ErrBadArguments }`
  abbrev checked : {A : Type 0} → ℤ → Call S A → Call S A
  checked id m = if not (is_positive id) then fail bad_arguments else m

  unfoldable pub get_log : ℤ → Call S Log
  get_log log_id = checked log_id (p.get_log log_id)

  unfoldable pub get_node : ℤ → Call S Node
  get_node node_id = checked node_id (p.get_node node_id)

  unfoldable pub get_nodes_by_log : ℤ → Call S (List Node)
  get_nodes_by_log log_id = checked log_id (p.get_log log_id >> p.get_nodes_by_log log_id)

  unfoldable pub get_ports_by_log : ℤ → Call S (List Port)
  get_ports_by_log log_id = checked log_id (p.get_log log_id >> p.get_ports_by_log log_id)

  unfoldable pub get_ports_by_node : ℤ → Call S (List Port)
  get_ports_by_node node_id = checked node_id (p.get_node node_id >> p.get_ports_by_node node_id)

  unfoldable pub get_topology : ℤ → Call S Topology
  get_topology log_id = checked log_id (p.get_topology log_id)
