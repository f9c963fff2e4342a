-- ===== src/App/Rest/Handlers.antt =====
-- The handlers of log-services/app/adapters/rest/data.go and logs.go, from the texts of the path and
-- query values to the reply. What the body of an error reply says is not kept.
pub mod Pages
use microservice_log_parser.Prelude.{ℕ, List, [], ◌∷◌, Bool, Option, none, some, length}
use microservice_log_parser.Prelude.Int.{ℤ}
use microservice_log_parser.Prelude.Text.{Text}
use microservice_log_parser.Prelude.Result.{Result, ok, err}
use microservice_log_parser.App.Model.{
  Error, bad_arguments, not_found, conflict, unavailable, other, Log, Node, Port, ParseLogResult,
}
use microservice_log_parser.App.Service.{
  Ports, Call, parse_log, get_log, get_node, get_nodes_by_log, get_ports_by_log, get_ports_by_node,
}
use microservice_log_parser.App.Rest.Pagination.{
  include_raw, parse_pagination, parse_path_value, paginate_ports,
}
use microservice_log_parser.App.Rest.Payloads.{
  StoredLogResponse, StoredNodeResponse, StoredNodesResponse, StoredPortsResponse,
  stored_log_to_response, stored_node_to_response, stored_nodes_to_response,
  stored_ports_to_response,
}

unfoldable pub http_status_from_error : Error → ℕ
http_status_from_error bad_arguments = 400
http_status_from_error not_found = 404
http_status_from_error conflict = 409
http_status_from_error unavailable = 503
http_status_from_error (other text) = 500

-- What a handler answers: status 200 with a payload, an error status, or a panic.
pub data Reply (A : Type 0) : Type 0 where
  sent : A → Reply A
  refused : ℕ → Reply A
  panicked : Reply A

module _ {A B : Type 0} where
  -- `if err != nil { res.Json(w, …, httpStatusFromError(err)); return }`
  abbrev pub or_refuse : {S : Type 0} → Result Error A → (A → S → Reply B × S) → S → Reply B × S
  or_refuse (ok a) f s = f a s
  or_refuse (err e) f s = (refused (http_status_from_error e), s)

  -- The call of the service, and the reply from what it returns.
  unfoldable pub answer : {S : Type 0} → Call S A → (A → Reply B) → S → Reply B × S
  unfolding http_status_from_error
  answer call reply s = or_refuse (call s).0 (λ a s'. (reply a, s')) (call s).1

-- The page of a list of ports, and its reply.
unfoldable pub page_reply : Bool → ℕ → ℕ → List Port → Reply StoredPortsResponse
unfolding paginate_ports stored_ports_to_response
page_reply raw limit offset ports = elim (paginate_ports ports limit offset) [
  | none ↦ panicked
  | some page ↦ sent (record {
    count = length page;
    total = length ports;
    limit = limit;
    offset = offset;
    ports = stored_ports_to_response raw page;
  })
]

module _ {S : Type 0} where
  -- The common text of the two handlers of ports; they differ in the call of the service.
  unfoldable pub ports_handler :
      (ℤ → Call S (List Port)) → (Text → Text → Text → Text → S → Reply StoredPortsResponse × S)
  unfolding parse_pagination parse_path_value include_raw answer page_reply
  ports_handler call raw_value limit_value offset_value id_value =
      or_refuse (parse_pagination limit_value offset_value) λ (limit, offset).
        or_refuse (parse_path_value id_value)
          λ id. answer (call id) (page_reply (include_raw raw_value) limit offset)

module _ {S : Type 0} (p : Ports S) where
  unfoldable pub get_log_handler : Text → S → Reply StoredLogResponse × S
  unfolding parse_path_value get_log answer stored_log_to_response
  get_log_handler log_id_value =
      or_refuse (parse_path_value log_id_value)
        λ log_id. answer (get_log p log_id) λ log. sent (stored_log_to_response log)

  unfoldable pub get_nodes_by_log_handler : Text → Text → S → Reply StoredNodesResponse × S
  unfolding parse_path_value include_raw get_nodes_by_log answer stored_nodes_to_response
  get_nodes_by_log_handler raw_value log_id_value =
      or_refuse (parse_path_value log_id_value) λ log_id.
        answer (get_nodes_by_log p log_id) λ nodes. sent (record {
          count = length nodes;
          nodes = stored_nodes_to_response (include_raw raw_value) nodes;
        })

  unfoldable pub get_node_handler : Text → Text → S → Reply StoredNodeResponse × S
  unfolding parse_path_value include_raw get_node answer stored_node_to_response
  get_node_handler raw_value node_id_value = or_refuse (parse_path_value node_id_value) λ node_id.
      answer (get_node p node_id)
        λ node. sent (stored_node_to_response (include_raw raw_value) node)

  unfoldable pub get_ports_by_log_handler :
      Text → Text → Text → Text → S → Reply StoredPortsResponse × S
  unfolding ports_handler get_ports_by_log
  get_ports_by_log_handler = ports_handler (get_ports_by_log p)

  unfoldable pub get_ports_by_node_handler :
      Text → Text → Text → Text → S → Reply StoredPortsResponse × S
  unfolding ports_handler get_ports_by_node
  get_ports_by_node_handler = ports_handler (get_ports_by_node p)

  -- `NewParseLogHandler`, from the decoded body on. The payload has the fields of the result.
  unfoldable pub parse_log_handler : Text → S → Reply ParseLogResult × S
  unfolding parse_log answer
  parse_log_handler path = answer (parse_log p path) sent
