-- ===== src/Tests/Rest.antt =====
-- Replies of the gateway: a preflight, a panic, pings, and a topology.
use microservice_log_parser.Prelude.{
  ℕ, List, [], ◌∷◌, ◌++◌, ◌≡◌, refl, true, false, none, length, if◌then◌else◌,
}
use microservice_log_parser.Prelude.Int.{pos}
use microservice_log_parser.Prelude.Text.{codes}
use microservice_log_parser.Prelude.Result.{ok, err}
use microservice_log_parser.App.Model.{unavailable, Topology}
use microservice_log_parser.App.Rest.TopologyView.{topology_response_from_core}
use microservice_log_parser.App.Rest.TopologyView.ReadBack.{read, read-topology_response_from_core}
use microservice_log_parser.App.Rest.Middleware.{
  Action, Request, Handler, write_header, write_body, log_request, chain, recovering, logging, cors,
  stack, level_of, respond, no_response, final_status,
}
use microservice_log_parser.App.Rest.Middleware.Stack.{chain-cons, logging_tells, stack_answers}
use microservice_log_parser.App.Rest.Health.{Pinger, health_handler}
use microservice_log_parser.App.Rest.Health.Replies.{outcomes, all_answer, health_handler-outcomes}

abbrev hello : Handler
hello r = record {
  actions = write_header 201 ∷ write_header 400 ∷ write_body (codes "hello") ∷ [];
  panics = false;
}

abbrev boom : Handler
boom r = record { actions = []; panics = true }

abbrev request : Request
request = record { method = codes "GET"; origin = codes "http://a" }

abbrev asking : Request
asking = record { method = codes "OPTIONS"; origin = codes "http://a" }

-- A preflight does not reach the handler.
preflight_answer : final_status (respond (stack boom asking).actions no_response) ≡ 204
unfolding stack chain respond
preflight_answer = refl

chain-cons_example :
    (chain [] hello ≡ hello)
    × (chain (recovering ∷ logging ∷ []) hello ≡ recovering (chain (logging ∷ []) hello))
chain-cons_example = chain-cons recovering (logging ∷ []) hello

logging_tells_example :
    (sent : List Action) × ((logging hello request).panics ≡ false)
    × ((logging hello request).actions
        ≡ sent
          ++ (let resp = respond (hello request).actions no_response in
              log_request (level_of (final_status resp)) (final_status resp) (length resp.body))
            ∷ [])
    × (respond (logging hello request).actions no_response
        ≡ respond (hello request).actions no_response)
logging_tells_example = logging_tells hello request refl

panics : (cors boom request).panics ≡ true
unfolding cors
panics = refl

unsent : (respond (cors boom request).actions no_response).status ≡ none
unfolding cors respond
unsent = refl

stack_answers_example :
    let resp = respond (stack boom request).actions no_response in
    ((stack boom request).panics ≡ false)
    × (final_status resp ≡ 500)
    × (resp.body
        ≡ (respond (cors boom request).actions no_response).body ++ codes "internal server error\n")
stack_answers_example = stack_answers boom request panics unsent

-- The second service fails.
abbrev pingers : List (Pinger ℕ)
pingers =
    record { name = codes "parser"; ping = λ n. (ok tt, n) }
    ∷ record { name = codes "topology"; ping = λ n. (err unavailable, n) }
    ∷ []

health_handler-outcomes_example :
    ((health_handler pingers 0).0.replies ≡ outcomes pingers 0)
    × ((health_handler pingers 0).0.status_code ≡ (if all_answer pingers 0 then 200 else 503))
health_handler-outcomes_example = health_handler-outcomes pingers 0

replies :
    (health_handler pingers 0).0.replies
    ≡ (codes "parser", codes "ok") ∷ (codes "topology", codes "unavailable") ∷ []
unfolding health_handler
replies = refl

abbrev topology : Topology
topology = record {
  log_id = pos 1;
  summary = record {
    nodes_count = pos 0;
    ports_count = pos 0;
    edges_count = pos 0;
    hosts_count = pos 0;
    switches_count = pos 0;
  };
  nodes = [];
  groups =
      record { name = codes "Hosts"; kind = codes "host"; node_ids = pos 1 ∷ []; node_guids = [] }
      ∷ [];
  edges = [];
}

read-topology_response_from_core_example : read (topology_response_from_core topology) ≡ topology
read-topology_response_from_core_example = read-topology_response_from_core topology
