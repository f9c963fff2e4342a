-- ===== src/App/Rest/Middleware.antt =====
-- log-services/app/adapters/rest/middleware, and the stack of log-services/app/main.go. A handler is what it
-- does to the writer of the reply, in order, and whether it panics at the end. A write of a body is
-- whole, and statuses are final ones.
pub mod Stack
use microservice_log_parser.Prelude.{
  ℕ, zero, suc, ◌+◌, List, [], ◌∷◌, ◌++◌, Bool, true, false, Option, none, some, length, get_elem?,
  leb, if◌then◌else◌,
}
use microservice_log_parser.Prelude.Eq.{◌==◌}
use microservice_log_parser.Prelude.Text.{Text, codes, text_beq, text_eq}

pub data Level : Type 0 where
  info_level warn_level error_level : Level

pub data Action : Type 0 where
  set_header : Text → Text → Action
  write_header : ℕ → Action
  write_body : Text → Action
  log_request : Level → ℕ → ℕ → Action
  log_panic : Action

pub record Request : Type 0 where
  pub method : Text
  pub origin : Text

pub record Run : Type 0 where
  pub actions : List Action
  pub panics : Bool

abbrev pub Handler : Type 0
Handler = Request → Run

abbrev pub Middleware : Type 0
Middleware = Handler → Handler

-- The loop of `Chain`, from the last one to the first.
unfoldable pub chain_from : List Middleware → ℕ → Handler → Handler
chain_from ms zero next = next
chain_from ms (suc i) next = elim (get_elem? ms i) [
  | none ↦ chain_from ms i next
  | some m ↦ chain_from ms i (m next)
]

unfoldable pub chain : List Middleware → Middleware
unfolding chain_from
chain ms next = chain_from ms (length ms) next

pub record WrapperWriter : Type 0 where
  pub status_code : ℕ
  pub bytes : ℕ
  pub wrote_header : Bool

abbrev pub new_wrapper : WrapperWriter
new_wrapper = record { status_code = 200; bytes = 0; wrote_header = false }

-- What the wrapper passes on, and the wrapper afterwards.
unfoldable pub wrap : Action → WrapperWriter → List Action × WrapperWriter
wrap (write_header code) w =
    if w.wrote_header
    then ([], w)
    else (write_header code ∷ [], record w { status_code = code; wrote_header = true })
wrap (write_body b) w =
    if w.wrote_header then (write_body b ∷ [], record w { bytes = w.bytes + length b }) else (
      write_header 200 ∷ write_body b ∷ [],
      record { status_code = 200; bytes = w.bytes + length b; wrote_header = true },
    )
wrap (set_header k v) w = (set_header k v ∷ [], w)
wrap (log_request level status bytes) w = (log_request level status bytes ∷ [], w)
wrap log_panic w = (log_panic ∷ [], w)

unfoldable pub wrap_all : List Action → WrapperWriter → List Action × WrapperWriter
unfolding wrap
wrap_all [] w = ([], w)
wrap_all (a ∷ acts) w =
    let (sent, w') = wrap a w in let (rest, w'') = wrap_all acts w' in (sent ++ rest, w'')

unfoldable pub level_of : ℕ → Level
level_of status =
    if leb 500 status then error_level else if leb 400 status then warn_level else info_level

unfoldable pub logging : Middleware
unfolding wrap_all level_of
logging next r =
    let (sent, w) = wrap_all (next r).actions new_wrapper in
    if (next r).panics then record { actions = sent; panics = true } else record {
      actions = sent ++ log_request (level_of w.status_code) w.status_code w.bytes ∷ [];
      panics = false;
    }

-- The log entry and `http.Error`.
abbrev pub internal_error : List Action
internal_error =
    log_panic
    ∷ set_header (codes "Content-Type") (codes "text/plain; charset=utf-8")
    ∷ set_header (codes "X-Content-Type-Options") (codes "nosniff")
    ∷ write_header 500
    ∷ write_body (codes "internal server error\n")
    ∷ []

-- `Recover`
unfoldable pub recovering : Middleware
recovering next r =
    if (next r).panics
    then record { actions = (next r).actions ++ internal_error; panics = false }
    else next r

abbrev pub allow_origin : Text → List Action
allow_origin origin =
    set_header (codes "Access-Control-Allow-Origin") origin
    ∷ set_header (codes "Access-Control-Allow-Credentials") (codes "true")
    ∷ []

abbrev pub preflight : List Action
preflight =
    set_header (codes "Access-Control-Allow-Methods") (codes "GET, POST, DELETE, OPTIONS")
    ∷ set_header (codes "Access-Control-Allow-Headers") (codes "Content-Type, Content-Length")
    ∷ set_header (codes "Access-Control-Max-Age") (codes "86400")
    ∷ write_header 204
    ∷ []

unfoldable pub cors : Middleware
unfolding text_beq
cors next r =
    if r.origin == []
    then next r
    else if r.method == codes "OPTIONS"
    then record { actions = allow_origin r.origin ++ preflight; panics = false }
    else record { actions = allow_origin r.origin ++ (next r).actions; panics = (next r).panics }

unfoldable pub stack : Middleware
unfolding chain recovering logging cors
stack = chain (recovering ∷ logging ∷ cors ∷ [])

-- What net/http makes of the actions: the first status counts, and a body without one sends 200.
pub record Response : Type 0 where
  pub status : Option ℕ
  pub headers : List (Text × Text)
  pub body : Text

abbrev pub no_response : Response
no_response = record { status = none; headers = []; body = [] }

unfoldable pub perform : Action → Response → Response
perform (set_header k v) resp = elim resp.status [
  | none ↦ record resp { headers = (k, v) ∷ resp.headers }
  | some _ ↦ resp
]
perform (write_header code) resp = elim resp.status [
  | none ↦ record resp { status = some code }
  | some _ ↦ resp
]
perform (write_body b) resp = elim resp.status [
  | none ↦ record resp { status = some 200; body = resp.body ++ b }
  | some _ ↦ record resp { body = resp.body ++ b }
]
perform (log_request level status bytes) resp = resp
perform log_panic resp = resp

unfoldable pub respond : List Action → Response → Response
unfolding perform
respond [] resp = resp
respond (a ∷ acts) resp = respond acts (perform a resp)

-- The status that the client sees.
abbrev pub final_status : Response → ℕ
final_status resp = elim resp.status [ none ↦ 200 | some code ↦ code ]
