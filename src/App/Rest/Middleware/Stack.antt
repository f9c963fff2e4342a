-- ===== src/App/Rest/Middleware/Stack.antt =====
-- What the middleware of log-services/app/adapters/rest/middleware does to the replies of a handler.
use microservice_log_parser.Prelude.{
  ℕ, zero, suc, ◌+◌, List, [], ◌∷◌, ◌++◌, ◌≡◌, refl, ap, ◌∙◌, inl, inr, true, false, none, some,
  Option-cases, length, length-append, get_elem?, arith,
}
use microservice_log_parser.Prelude.Text.{Text, codes, text_eq}
use microservice_log_parser.App.Rest.Middleware.{
  Action, set_header, write_header, write_body, log_request, log_panic, Request, Handler,
  Middleware, chain_from, chain, WrapperWriter, new_wrapper, wrap, wrap_all, level_of, logging,
  internal_error, recovering, cors, stack, Response, no_response, perform, respond, final_status,
}

chain_from-cons :
    (m : Middleware) (ms : List Middleware) (i : ℕ) (next : Handler)
    → chain_from (m ∷ ms) (suc i) next ≡ m (chain_from ms i next)
unfolding chain_from
chain_from-cons m ms zero next = refl
chain_from-cons m ms (suc i) next = elim (Option-cases (get_elem? ms i)) [
  | inl e ↦ let rest = chain_from-cons m ms i next in rw (e, chain_from) rest
  | inr (k, e) ↦ let rest = chain_from-cons m ms i (k next) in rw (e, chain_from) rest
]

-- `Chain` puts each middleware around those after it: the first one is the outermost, and a chain of
-- none is the handler itself.
pub chain-cons :
    (m : Middleware) (ms : List Middleware) (next : Handler)
    → (chain [] next ≡ next) × (chain (m ∷ ms) next ≡ m (chain ms next))
unfolding chain chain_from
chain-cons m ms next = (refl, chain_from-cons m ms (length ms) next)

respond-append :
    (acts more : List Action) (resp : Response)
    → respond (acts ++ more) resp ≡ respond more (respond acts resp)
unfolding respond
respond-append [] more resp = refl
respond-append (a ∷ acts) more resp = respond-append acts more (perform a resp)

-- What the wrapper tells of a response.
abbrev Tells : WrapperWriter → Response → Type 0
Tells w resp = (w.status_code ≡ final_status resp) × (w.bytes ≡ length resp.body)

-- Passing actions through the wrapper changes nothing of the response, and the wrapper tells it.
abbrev IsFaithful : List Action → WrapperWriter → Response → Type 0
IsFaithful acts w resp =
    (respond (wrap_all acts w).0 resp ≡ respond acts resp)
    × Tells (wrap_all acts w).1 (respond acts resp)

written-IsFaithful :
    (acts : List Action) (c n : ℕ) (headers : List (Text × Text)) (body : Text)
    → n ≡ length body
    → IsFaithful acts
        (record { status_code = c; bytes = n; wrote_header = true })
        (record { status = some c; headers = headers; body = body })
unfolding wrap_all wrap respond perform
written-IsFaithful [] c n headers body h = (refl, (refl, h))
written-IsFaithful (set_header k v ∷ acts) c n headers body h =
    written-IsFaithful acts c n headers body h
written-IsFaithful (write_header d ∷ acts) c n headers body h =
    written-IsFaithful acts c n headers body h
written-IsFaithful (write_body b ∷ acts) c n headers body h =
    written-IsFaithful acts c (n + length b) headers (body ++ b)
      (omega (arith, h, length-append body b))
written-IsFaithful (log_request l d m ∷ acts) c n headers body h =
    written-IsFaithful acts c n headers body h
written-IsFaithful (log_panic ∷ acts) c n headers body h =
    written-IsFaithful acts c n headers body h

unwritten-IsFaithful :
    (acts : List Action) (headers : List (Text × Text))
    → IsFaithful acts new_wrapper (record { status = none; headers = headers; body = [] })
unfolding wrap_all wrap respond perform
unwritten-IsFaithful [] headers = (refl, (refl, refl))
unwritten-IsFaithful (set_header k v ∷ acts) headers = unwritten-IsFaithful acts ((k, v) ∷ headers)
unwritten-IsFaithful (write_header d ∷ acts) headers = written-IsFaithful acts d 0 headers [] refl
unwritten-IsFaithful (write_body b ∷ acts) headers =
    written-IsFaithful acts 200 (0 + length b) headers b (omega arith)
unwritten-IsFaithful (log_request l d m ∷ acts) headers = unwritten-IsFaithful acts headers
unwritten-IsFaithful (log_panic ∷ acts) headers = unwritten-IsFaithful acts headers

-- `Logging` around a handler that does not panic: the client gets the same response as without it, and
-- one entry is logged at the end, with the status that the client sees and the number of bytes of the
-- body, as an error from status 500 on and as a warning from 400 on.
pub logging_tells :
    (next : Handler) (r : Request)
    → (next r).panics ≡ false
    → (sent : List Action) × ((logging next r).panics ≡ false)
      × ((logging next r).actions
          ≡ sent
            ++ (let resp = respond (next r).actions no_response in
                log_request (level_of (final_status resp)) (final_status resp) (length resp.body))
              ∷ [])
      × (respond (logging next r).actions no_response ≡ respond (next r).actions no_response)
unfolding logging respond
logging_tells next r calm =
    let acts = (next r).actions in
    let (same, (status, bytes)) = unwritten-IsFaithful acts [] in
    let sent = (wrap_all acts new_wrapper).0 in
    (
      sent,
      rw (calm) refl,
      rw (calm) (λ i. sent ++ log_request (level_of (status i)) (status i) (bytes i) ∷ []),
      rw (calm) (respond-append sent _ no_response ∙ same),
    )

-- `http.Error` where nothing was sent.
internal_error_unsent :
    (resp : Response)
    → resp.status ≡ none
    → ((respond internal_error resp).status ≡ some 500)
      × ((respond internal_error resp).body ≡ resp.body ++ codes "internal server error\n")
unfolding respond perform
internal_error_unsent resp h =
    let is : resp ≡ record { status = none; headers = resp.headers; body = resp.body } =
      λ i. record { status = h i; headers = resp.headers; body = resp.body } in
    (ap (λ x. (respond internal_error x).status) is, ap (λ x. (respond internal_error x).body) is)

-- `Recover`, `Logging` and `CORS` as they are stacked, around a handler that panics before it has sent
-- anything, behind CORS: no panic is left, and the client sees status 500 and the text of an internal
-- error at the end of the body.
pub stack_answers :
    (next : Handler) (r : Request)
    → (cors next r).panics ≡ true
    → (respond (cors next r).actions no_response).status ≡ none
    → let resp = respond (stack next r).actions no_response in
      ((stack next r).panics ≡ false)
      × (final_status resp ≡ 500)
      × (resp.body
          ≡ (respond (cors next r).actions no_response).body ++ codes "internal server error\n")
unfolding stack chain chain_from recovering logging
stack_answers next r panics unsent =
    let acts = (cors next r).actions in
    let sent = (wrap_all acts new_wrapper).0 in
    let (same, tells) = unwritten-IsFaithful acts [] in
    let whole : respond (sent ++ internal_error) no_response
        ≡ respond internal_error (respond acts no_response) =
      respond-append sent internal_error no_response ∙ ap (respond internal_error) same in
    let (status, body) = internal_error_unsent (respond acts no_response) unsent in
    (
      rw (panics) refl,
      rw (panics)
          (ap final_status whole ∙ ap (λ o. elim o [ none ↦ 200 | some code ↦ code ]) status),
      rw (panics) (ap (λ x. x.body) whole ∙ body),
    )
