-- ===== src/App/Rest/Health.antt =====
-- The health handler, log-services/app/adapters/rest/api.go. The map of pingers is a list in the order in
-- which the loop comes to them; a ping is a call that may change the state.
pub mod Replies
use microservice_log_parser.Prelude.{
  ℕ, List, [], ◌∷◌, ◌++◌, ◌≡◌, ◌↔◌, refl, Bool, true, false, not, ◌&&◌, Bool-cases, inl, inr, map,
  arith, if◌then◌else◌, All,
}
use microservice_log_parser.Prelude.Eq.{◌==◌}
use microservice_log_parser.Prelude.Text.{Text, codes, text_beq, text_eq}
use microservice_log_parser.Prelude.Result.{Result, ok, err, Result-cases}
use microservice_log_parser.App.Model.{Error}
use microservice_log_parser.App.Service.{Call}

pub record Pinger (S : Type 0) : Type 0 where
  pub name : Text
  pub ping : Call S Unit

pub record HealthReply : Type 0 where
  pub replies : List (Text × Text)
  pub status_code : ℕ

abbrev pub unavailable_reply : Text
unavailable_reply = codes "unavailable"

abbrev pub ok_reply : Text
ok_reply = codes "ok"

abbrev pub reply_text : Result Error Unit → Text
reply_text (ok _) = ok_reply
reply_text (err e) = unavailable_reply

abbrev pub ping_reply : Text → Result Error Unit → HealthReply → HealthReply
ping_reply name (ok _) r = record r { replies = r.replies ++ (name, ok_reply) ∷ [] }
ping_reply name (err e) r = record {
  replies = r.replies ++ (name, unavailable_reply) ∷ [];
  status_code = 503;
}

module _ {S : Type 0} where
  -- The loop over the pingers.
  unfoldable pub ping_all : List (Pinger S) → HealthReply → S → HealthReply × S
  ping_all [] r s = (r, s)
  ping_all (p ∷ ps) r s = ping_all ps (ping_reply p.name (p.ping s).0 r) (p.ping s).1

  unfoldable pub health_handler : List (Pinger S) → S → HealthReply × S
  unfolding ping_all
  health_handler pingers = ping_all pingers (record { replies = []; status_code = 200 })
