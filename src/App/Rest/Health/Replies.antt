-- ===== src/App/Rest/Health/Replies.antt =====
-- What the health handler of log-services/app/adapters/rest/api.go replies.
use microservice_log_parser.Prelude.{
  append_nil, append_one, ℕ, List, [], ◌∷◌, ◌++◌, ◌≡◌, refl, ◌∙◌, Bool, true, false, ◌&&◌,
  if◌then◌else◌,
}
use microservice_log_parser.Prelude.Text.{Text}
use microservice_log_parser.Prelude.Result.{Result, ok, err}
use microservice_log_parser.App.Model.{Error}
use microservice_log_parser.App.Rest.Health.{
  Pinger, HealthReply, ok_reply, unavailable_reply, reply_text, ping_reply, ping_all,
  health_handler,
}

abbrev pub is_ok : Result Error Unit → Bool
is_ok (ok _) = true
is_ok (err e) = false

either_way : (b : Bool) (n : ℕ) → (if b then n else n) ≡ n
either_way true n = refl
either_way false n = refl

module _ {S : Type 0} where
  -- What each service answers, asked one after the other.
  unfoldable pub outcomes : List (Pinger S) → S → List (Text × Text)
  outcomes [] s = []
  outcomes (p ∷ ps) s = (p.name, reply_text (p.ping s).0) ∷ outcomes ps (p.ping s).1

  unfoldable pub all_answer : List (Pinger S) → S → Bool
  all_answer [] s = true
  all_answer (p ∷ ps) s = is_ok (p.ping s).0 && all_answer ps (p.ping s).1

  ping_all-outcomes :
      (ps : List (Pinger S)) (r : HealthReply) (s : S)
      → ((ping_all ps r s).0.replies ≡ r.replies ++ outcomes ps s)
        × ((ping_all ps r s).0.status_code ≡ (if all_answer ps s then r.status_code else 503))
  unfolding ping_all outcomes all_answer
  ping_all-outcomes [] r s = (append_nil r.replies, refl)
  ping_all-outcomes (p ∷ ps) r s =
      by_answer (p.ping s).0 (λ r'. ping_all-outcomes ps r' (p.ping s).1)
    where
      by_answer :
          (a : Result Error Unit)
          → ((r' : HealthReply)
              → ((ping_all ps r' (p.ping s).1).0.replies ≡ r'.replies ++ outcomes ps (p.ping s).1)
                × ((ping_all ps r' (p.ping s).1).0.status_code
                    ≡ (if all_answer ps (p.ping s).1 then r'.status_code else 503)))
          → ((ping_all ps (ping_reply p.name a r) (p.ping s).1).0.replies
              ≡ r.replies ++ (p.name, reply_text a) ∷ outcomes ps (p.ping s).1)
            × ((ping_all ps (ping_reply p.name a r) (p.ping s).1).0.status_code
                ≡ (if is_ok a && all_answer ps (p.ping s).1 then r.status_code else 503))
      by_answer (ok u) rest =
          let (replies, status) = rest (ping_reply p.name (ok u) r) in
          (replies ∙ append_one r.replies (p.name, ok_reply) (outcomes ps (p.ping s).1), status)
      by_answer (err e) rest =
          let (replies, status) = rest (ping_reply p.name (err e) r) in
          (
            replies ∙ append_one r.replies (p.name, unavailable_reply) (outcomes ps (p.ping s).1),
            status ∙ either_way (all_answer ps (p.ping s).1) 503,
          )

  -- The health handler asks every service once, in order, whatever the others answer, and replies for
  -- each that it is ok or unavailable. The status is 200 if all are ok, and 503 otherwise.
  pub health_handler-outcomes :
      (pingers : List (Pinger S)) (s : S)
      → ((health_handler pingers s).0.replies ≡ outcomes pingers s)
        × ((health_handler pingers s).0.status_code ≡ (if all_answer pingers s then 200 else 503))
  unfolding health_handler
  health_handler-outcomes pingers s =
      ping_all-outcomes pingers (record { replies = []; status_code = 200 }) s
