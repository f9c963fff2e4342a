-- ===== src/App/Rest/Handlers/Pages.antt =====
-- What the handlers of ports in log-services/app/adapters/rest/data.go answer.
use microservice_log_parser.Prelude.{
  ℕ, ◌+◌, ◌-◌, ◌≤◌, ◌<◌, List, [], ◌∷◌, ◌≡◌, ◌⊎◌, inl, inr, refl, sym, Bool, false, arith, length,
  take, drop, length-take, length-drop, min, All,
}
use microservice_log_parser.Prelude.Int.{ℤ}
use microservice_log_parser.Prelude.Text.{Text}
use microservice_log_parser.Prelude.Result.{ok, Result-cases}
use microservice_log_parser.App.Model.{Error, Port}
use microservice_log_parser.App.Service.{Ports, Call, get_ports_by_log}
use microservice_log_parser.App.Rest.Pagination.{
  include_raw, parse_pagination, parse_path_value, max_ports_limit,
}
use microservice_log_parser.App.Rest.Pagination.Pages.{
  paginate_ports-take-drop, parse_pagination-bounds,
}
use microservice_log_parser.App.Rest.Payloads.{
  StoredPortsResponse, stored_port_to_response, stored_ports_to_response,
}
use microservice_log_parser.App.Rest.Handlers.{
  Reply, sent, refused, answer, http_status_from_error, page_reply, ports_handler,
  get_ports_by_log_handler,
}

-- A list of ports that `limit` can be added to in an `int`.
abbrev pub FitsInt : ℕ → List Port → Type 0
FitsInt limit ports = length ports + limit < 9223372036854775808

-- The numbers of a page agree with each other and with what it holds.
abbrev pub IsPage : StoredPortsResponse → Type 0
IsPage page =
    (page.count ≡ length page.ports)
    × (page.count ≡ min page.limit (page.total - page.offset))
    × (1 ≤ page.limit)
    × (page.limit ≤ max_ports_limit)

abbrev pub HidesRaw : Bool → StoredPortsResponse → Type 0
HidesRaw raw page = raw ≡ false → All (λ port. port.raw_json ≡ []) page.ports

length-stored_ports_to_response :
    (raw : Bool) (ports : List Port) → length (stored_ports_to_response raw ports) ≡ length ports
unfolding stored_ports_to_response
length-stored_ports_to_response raw [] = refl
length-stored_ports_to_response raw (port ∷ ports) =
    ground (arith, length-stored_ports_to_response raw ports)

stored_ports_to_response-hides :
    (raw : Bool) (ports : List Port)
    → raw ≡ false
    → All (λ port. port.raw_json ≡ []) (stored_ports_to_response raw ports)
unfolding stored_ports_to_response stored_port_to_response
stored_ports_to_response-hides raw [] h = tt
stored_ports_to_response-hides raw (port ∷ ports) h =
    (rw (h) refl, stored_ports_to_response-hides raw ports h)

page_reply-IsPage :
    (raw : Bool) (limit offset : ℕ) (ports : List Port)
    → FitsInt limit ports
    → (1 ≤ limit) × (limit ≤ max_ports_limit)
    → (page : StoredPortsResponse) × (page_reply raw limit offset ports ≡ sent page)
      × IsPage page
      × HidesRaw raw page
unfolding page_reply
page_reply-IsPage raw limit offset ports fits (low, high) =
    let page = take limit (drop offset ports) in
    let n = length-take limit (drop offset ports) in
    (
      record {
        count = length page;
        total = length ports;
        limit = limit;
        offset = offset;
        ports = stored_ports_to_response raw page;
      },
      rw (page_reply, paginate_ports-take-drop ports limit offset fits) refl,
      (
        sym (length-stored_ports_to_response raw page),
        omega (arith, n, length-drop offset ports),
        low,
        high,
      ),
      stored_ports_to_response-hides raw page,
    )

module _ {S : Type 0} where
  abbrev pub IsPageOrError : Bool → Reply StoredPortsResponse × S → Type 0
  IsPageOrError raw r =
      ((e : Error) × (r.0 ≡ refused (http_status_from_error e)))
      ⊎ ((page : StoredPortsResponse) × (r.0 ≡ sent page) × IsPage page × HidesRaw raw page)

  ports_handler-IsPageOrError :
      (call : ℤ → Call S (List Port))
      → ((id : ℤ) (s : S) (ports : List Port)
          → (call id s).0 ≡ ok ports
          → FitsInt max_ports_limit ports)
      → (raw_value limit_value offset_value id_value : Text) (s : S)
      → IsPageOrError
          (include_raw raw_value)
          (ports_handler call raw_value limit_value offset_value id_value s)
  unfolding ports_handler answer
  ports_handler-IsPageOrError call h raw l o i s = elim (Result-cases (parse_pagination l o)) [
    | inr (e, bad) ↦ inl (e, rw (bad) refl)
    | inl (q, good) ↦ elim (Result-cases (parse_path_value i)) [
      | inr (e, bad) ↦ inl (e, rw (good, bad) refl)
      | inl (id, named) ↦ elim (Result-cases (call id s).0) [
        | inr (e, bad) ↦ inl (e, rw (good, named, bad) refl)
        | inl (ports, found) ↦
            let bounds = parse_pagination-bounds l o q.0 q.1 good in
            let fits : FitsInt q.0 ports = omega (arith, h id s ports found, bounds.1) in
            let (page, sends, is_page, hides) =
              page_reply-IsPage (include_raw raw) q.0 q.1 ports fits bounds in
            inr (page, rw (good, named, found, sends) refl, is_page, hides)
      ]
    ]
  ]

-- For a service that never returns so many ports that the highest limit cannot be added to their number
-- in a 64-bit `int`: whatever the texts of the query and of the path, the handler of a log's ports
-- does not panic. It answers the status of an error, or a page. The page's count is the number of its
-- ports, which is the limit or what is left of all the ports from the offset on, whichever is
-- less; the limit lies between 1 and 500; and unless `include_raw` was asked for no port shows its
-- raw record.
pub get_ports_by_log_handler-IsPageOrError :
    {S : Type 0} (p : Ports S)
    → ((id : ℤ) (s : S) (ports : List Port)
        → (get_ports_by_log p id s).0 ≡ ok ports
        → FitsInt max_ports_limit ports)
    → (raw_value limit_value offset_value log_id_value : Text) (s : S)
    → IsPageOrError
        (include_raw raw_value)
        (get_ports_by_log_handler p raw_value limit_value offset_value log_id_value s)
unfolding get_ports_by_log_handler
get_ports_by_log_handler-IsPageOrError p h raw l o i s =
    ports_handler-IsPageOrError (get_ports_by_log p) h raw l o i s
