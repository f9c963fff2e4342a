-- ===== src/App/Service/Settling.antt =====
-- `ParseLog` of log-services/app/core/service.go, where no log is being processed before it.
use microservice_log_parser.Prelude.{[], ◌≡◌, refl, inl, inr, true, Bool-cases}
use microservice_log_parser.Prelude.Eq.{◌==◌}
use microservice_log_parser.Prelude.Int.{ℤ, is_positive}
use microservice_log_parser.Prelude.Text.{Text, text_eq, trim_space}
use microservice_log_parser.Prelude.Result.{Result, ok, err, Result-cases}
use microservice_log_parser.App.Model.{
  Error, error_text, ParsedLog, ParseLogResult, SaveParsedLogResult,
}
use microservice_log_parser.App.Service.{
  Call, Ports, fail_log, or_fail_log, parse_created, parse_log,
}

module _ {S : Type 0} (p : Ports S) (IsSettled : S → Type 0) (IsPending : ℤ → S → Type 0) where
  -- What the calls of the services do between a state in which no log is being processed and one in which
  -- only the log with the id may be.
  pub record Settles : Type 0 where
    pub created_id :
        (path : Text) (s : S) (id : ℤ) → (p.create_log path s).0 ≡ ok id → is_positive id ≡ true
    pub created :
        (path : Text) (s : S) (id : ℤ)
        → IsSettled s
        → (p.create_log path s).0 ≡ ok id
        → IsPending id (p.create_log path s).1
    pub not_created :
        (path : Text) (s : S) (e : Error)
        → IsSettled s
        → (p.create_log path s).0 ≡ err e
        → IsSettled (p.create_log path s).1
    pub parsing : (path : Text) (s : S) (id : ℤ) → IsPending id s → IsPending id (p.parse path s).1
    pub saved :
        (id : ℤ) (parsed : ParsedLog) (s : S) (r : SaveParsedLogResult)
        → IsPending id s
        → (p.save_parsed_log id parsed s).0 ≡ ok r
        → IsSettled (p.save_parsed_log id parsed s).1
    pub not_saved :
        (id : ℤ) (parsed : ParsedLog) (s : S) (e : Error)
        → IsPending id s
        → (p.save_parsed_log id parsed s).0 ≡ err e
        → IsPending id (p.save_parsed_log id parsed s).1
    pub failing :
        (id : ℤ) (text : Text) (s : S)
        → is_positive id ≡ true
        → IsPending id s
        → IsSettled (p.fail_log id text s).1

  module _ (k : Settles) (id : ℤ) (is_pos : is_positive id ≡ true) where
    or_fail_log-Settled :
        {A : Type 0} (m : Result Error A × S) (f : A → Call S ParseLogResult)
        → ((e : Error) → m.0 ≡ err e → IsPending id m.1)
        → ((a : A) → m.0 ≡ ok a → IsSettled (f a m.1).1)
        → IsSettled (or_fail_log p id m f).1
    unfolding or_fail_log fail_log
    or_fail_log-Settled (ok a, s) f pending next = next a refl
    or_fail_log-Settled (err e, s) f pending next =
        let failed = k.failing id (error_text e) s is_pos (pending e refl) in
        rw (is_pos, fail_log) failed

    parse_created-Settled :
        (path : Text) (s : S) → IsPending id s → IsSettled (parse_created p path id s).1
    unfolding parse_created
    parse_created-Settled path s h =
        let parsed = k.parsing path s id h in
        or_fail_log-Settled (p.parse path s) _ (λ e fails. parsed)
          λ log given.
            or_fail_log-Settled (p.save_parsed_log id log (p.parse path s).1) _
              (λ e refused. k.not_saved id log (p.parse path s).1 e parsed refused)
              λ r done. k.saved id log (p.parse path s).1 r parsed done

  pub parse_log-Settled :
      Settles → (path : Text) (s : S) → IsSettled s → IsSettled (parse_log p path s).1
  unfolding parse_log
  parse_log-Settled k path s h = elim (Bool-cases (trim_space path == [])) [
    | inl blank ↦ rw (blank) h
    | inr given ↦ elim (Result-cases (p.create_log (trim_space path) s).0) [
      | inl (id, made) ↦
          let after =
            parse_created-Settled k id (k.created_id (trim_space path) s id made) (trim_space path)
              (p.create_log (trim_space path) s).1 (k.created (trim_space path) s id h made) in
          rw (given, made) after
      | inr (e, fails) ↦
          let after = k.not_created (trim_space path) s e h fails in rw (given, fails) after
    ]
  ]
