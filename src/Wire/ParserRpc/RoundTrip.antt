-- ===== src/Wire/ParserRpc/RoundTrip.antt =====
-- A parsed log on its way from the parser to the app.
use microservice_log_parser.Prelude.{List, [], ◌∷◌, ◌≡◌, refl, ap, ◌∙◌, map, some}
use microservice_log_parser.Prelude.Text.{Text}
use microservice_log_parser.Prelude.Result.{Result, ok, err}
use microservice_log_parser.Parser.Model.{
  Node as CoreNode, Port as CorePort, NodeInfo as CoreNodeInfo, ParsedLog as CoreParsedLog,
  Error as CoreError, bad_arguments as refused_arguments, not_found as missing_source,
  unsupported_format, parse_error, other as failed,
}
use microservice_log_parser.App.Model.{
  Node as AppNode, Port as AppPort, NodeInfo as AppNodeInfo, ParsedLog as AppParsedLog,
  Error as AppError, bad_arguments, not_found, other,
}
use microservice_log_parser.Wire.Status.{Code, internal, each, all_some, each-all_some}
use microservice_log_parser.Wire.ParserRpc.{
  node_to_proto, node_from_proto, port_to_proto, port_from_proto, info_to_proto, info_from_proto,
  parsed_log_to_proto, parsed_log_from_proto, grpc_error, map_grpc_error, serve_parse, call_parse,
}

-- The fields of the parser in what the app has.
abbrev pub seen_node : AppNode → CoreNode
seen_node node = record {
  node_guid = node.node_guid;
  node_desc = node.node_desc;
  node_type = node.node_type;
  node_kind = node.node_kind;
  num_ports = node.num_ports;
  class_version = node.class_version;
  base_version = node.base_version;
  system_image_guid = node.system_image_guid;
  port_guid = node.port_guid;
  raw_json = node.raw_json;
}

abbrev pub seen_port : AppPort → CorePort
seen_port port = record {
  node_guid = port.node_guid;
  port_guid = port.port_guid;
  port_num = port.port_num;
  lid = port.lid;
  local_port_num = port.local_port_num;
  port_state = port.port_state;
  port_phy_state = port.port_phy_state;
  link_width_active = port.link_width_active;
  link_speed_active = port.link_speed_active;
  raw_json = port.raw_json;
}

abbrev pub seen_info : AppNodeInfo → CoreNodeInfo
seen_info info = record {
  node_guid = info.node_guid;
  serial_number = info.serial_number;
  part_number = info.part_number;
  revision = info.revision;
  product_name = info.product_name;
  raw_json = info.raw_json;
}

abbrev pub seen : AppParsedLog → CoreParsedLog
seen log = record {
  nodes = map seen_node log.nodes;
  ports = map seen_port log.ports;
  nodes_info = map seen_info log.nodes_info;
}

module _ {A B C : Type 0} where
  -- Elements that are sent, received and read one by one are as before.
  pub sent-seen :
      (seen_one : C → A) (get : B → C) (put : A → B)
      → ((a : A) → seen_one (get (put a)) ≡ a)
      → (xs : List A) → map seen_one (each get (all_some put xs)) ≡ xs
  sent-seen seen_one get put h xs = ap (map seen_one) (each-all_some get put xs) ∙ map_twice xs
    where
      map_twice : (xs : List A) → map seen_one (map (λ a. get (put a)) xs) ≡ xs
      map_twice [] = refl
      map_twice (x ∷ xs) = λ i. h x i ∷ map_twice xs i

pub seen-parsed_log_from_proto :
    (log : CoreParsedLog) → seen (parsed_log_from_proto (some (parsed_log_to_proto log))) ≡ log
unfolding parsed_log_from_proto parsed_log_to_proto node_to_proto port_to_proto info_to_proto
    node_from_proto port_from_proto info_from_proto
seen-parsed_log_from_proto log = λ i. record {
  nodes = sent-seen seen_node node_from_proto node_to_proto (λ n. refl) log.nodes i;
  ports = sent-seen seen_port port_from_proto port_to_proto (λ p. refl) log.ports i;
  nodes_info = sent-seen seen_info info_from_proto info_to_proto (λ n. refl) log.nodes_info i;
}

module _ (status_text : Code → Text) where
  -- The app's error for each of the parser's.
  abbrev pub translated : CoreError → AppError
  translated refused_arguments = bad_arguments
  translated missing_source = not_found
  translated unsupported_format = bad_arguments
  translated parse_error = bad_arguments
  translated failed = other (status_text internal)

  abbrev pub Arrives : Result CoreError CoreParsedLog → Result AppError AppParsedLog → Type 0
  Arrives (ok log) received = (r : AppParsedLog) × (received ≡ ok r) × (seen r ≡ log)
  Arrives (err e) received = received ≡ err (translated e)

  translated-map_grpc_error :
      (e : CoreError) → map_grpc_error status_text (grpc_error e) ≡ translated e
  unfolding map_grpc_error grpc_error
  translated-map_grpc_error refused_arguments = refl
  translated-map_grpc_error missing_source = refl
  translated-map_grpc_error unsupported_format = refl
  translated-map_grpc_error parse_error = refl
  translated-map_grpc_error failed = refl

  -- What the app receives of a call of the parser. A parsed log arrives with every field of every
  -- node, port and info, in order. Bad arguments, a missing source, an unsupported format and
  -- a parse error arrive as bad arguments, or as not found for the second; any other error arrives as
  -- one that is none of the app's.
  pub call_parse-Arrives :
      (parse : Text → Result CoreError CoreParsedLog) (path : Text)
      → Arrives (parse path) (call_parse status_text (serve_parse parse) path)
  unfolding call_parse serve_parse
  call_parse-Arrives parse path = by_result (parse path)
    where
      by_result :
          (r : Result CoreError CoreParsedLog)
          → Arrives r (call_parse status_text (serve_parse (λ _. r)) path)
      by_result (ok log) = (
        parsed_log_from_proto (some (parsed_log_to_proto log)),
        refl,
        seen-parsed_log_from_proto log,
      )
      by_result (err e) = ap err (translated-map_grpc_error e)
