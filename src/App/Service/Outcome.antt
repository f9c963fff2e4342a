-- ===== src/App/Service/Outcome.antt =====
-- What `ParseLog` leaves of the log that it creates.
use microservice_log_parser.Prelude.{
  [], ◌≡◌, refl, ap, ◌∙◌, ◌⊎◌, inl, inr, true, false, Option, some,
}
use microservice_log_parser.Prelude.Eq.{◌==◌}
use microservice_log_parser.Prelude.Int.{ℤ, is_positive}
use microservice_log_parser.Prelude.Text.{Text, text_eq, trim_space}
use microservice_log_parser.Prelude.Result.{Result, ok, err, Result-cases}
use microservice_log_parser.App.Model.{
  Error, error_text, ParsedLog, ParseLogResult, SaveParsedLogResult, log_status_processing,
  log_status_parsed, log_status_failed,
}
use microservice_log_parser.App.Service.{
  Call, Ports, parse_log_result, fail_log, or_fail_log, parse_created, parse_log,
}

-- What the gateway relies on: a status for each log id that only the repository's calls change, each
-- as it says. A created log is known to be processing only in a state that is good.
pub record Keeps {S : Type 0} (p : Ports S) (status : S → ℤ → Option Text) (IsGood : S → Type 0)
    : Type 0 where
  pub created_id :
      (path : Text) (s : S) (id : ℤ) → (p.create_log path s).0 ≡ ok id → is_positive id ≡ true
  pub created :
      (path : Text) (s : S) (id : ℤ)
      → IsGood s
      → (p.create_log path s).0 ≡ ok id
      → status (p.create_log path s).1 id ≡ some log_status_processing
  pub parsing : (path : Text) (s : S) (id : ℤ) → status (p.parse path s).1 id ≡ status s id
  pub saved :
      (log_id : ℤ) (parsed : ParsedLog) (s : S) (r : SaveParsedLogResult)
      → (p.save_parsed_log log_id parsed s).0 ≡ ok r
      → (r.log_id ≡ log_id)
        × (status (p.save_parsed_log log_id parsed s).1 log_id ≡ some log_status_parsed)
  pub not_saved :
      (log_id : ℤ) (parsed : ParsedLog) (s : S) (e : Error)
      → (p.save_parsed_log log_id parsed s).0 ≡ err e
      → status (p.save_parsed_log log_id parsed s).1 log_id ≡ status s log_id
  pub failed :
      (log_id : ℤ) (text : Text) (s : S)
      → status s log_id ≡ some log_status_processing
      → (p.fail_log log_id text s).0 ≡ ok tt
      → status (p.fail_log log_id text s).1 log_id ≡ some log_status_failed
  pub not_failed :
      (log_id : ℤ) (text : Text) (s : S) (e : Error)
      → (p.fail_log log_id text s).0 ≡ err e
      → status (p.fail_log log_id text s).1 log_id ≡ status s log_id

module _ {S : Type 0} (p : Ports S) (status : S → ℤ → Option Text) where
  -- The error of the parser, or of saving what it parsed, for the log that was created with the state
  -- `s`, and the state that the call left.
  abbrev pub Stopped : Text → ℤ → S → Error → S → Type 0
  Stopped path id s e t =
      (p.parse path s ≡ (err e, t))
      ⊎ ((parsed : ParsedLog) × ((p.parse path s).0 ≡ ok parsed)
          × (p.save_parsed_log id parsed (p.parse path s).1 ≡ (err e, t)))

  -- Where a result is returned, it tells of what was parsed and saved, and the log is parsed. Where an error is, it is that of the parser or of
  -- saving, and `FailLog` has been called next with its text: the log is failed, or `FailLog` has failed
  -- itself and the log is still processing.
  abbrev pub Finished : Text → ℤ → S → Result Error ParseLogResult × S → Type 0
  Finished path id s (ok r, s') =
      (r.log_id ≡ id)
      × (status s' id ≡ some log_status_parsed)
      × (parsed : ParsedLog) × (saved : SaveParsedLogResult) × ((p.parse path s).0 ≡ ok parsed)
      × (p.save_parsed_log id parsed (p.parse path s).1 ≡ (ok saved, s'))
      × (r ≡ parse_log_result parsed saved)
  Finished path id s (err e, s') =
      (t : S) × Stopped path id s e t
      × (((p.fail_log id (error_text e) t ≡ (ok tt, s')) × (status s' id ≡ some log_status_failed))
          ⊎ ((x : Error) × (p.fail_log id (error_text e) t ≡ (err x, s'))
              × (status s' id ≡ some log_status_processing)))

module _ {S : Type 0} (p : Ports S) (status : S → ℤ → Option Text) (IsGood : S → Type 0)
    (k : Keeps p status IsGood) (path : Text) (id : ℤ) (s : S)
    (is_pos : is_positive id ≡ true) where
  fail_log-Finished :
      (e : Error) (t : S)
      → Stopped p status path id s e t
      → status t id ≡ some log_status_processing
      → Finished p status path id s (err e, fail_log p id e t)
  unfolding fail_log
  fail_log-Finished e t stopped st =
      let after = (p.fail_log id (error_text e) t).1 in
      elim (Result-cases (p.fail_log id (error_text e) t).0) [
        | inl (tt, done) ↦
            rw (is_pos, fail_log)
              (t, stopped, inl (ap (λ r. (r, after)) done, k.failed id (error_text e) t st done))
        | inr (x, refused) ↦
            rw (is_pos, fail_log)
              (
                t,
                stopped,
                inr (
                  x,
                  ap (λ r. (r, after)) refused,
                  k.not_failed id (error_text e) t x refused ∙ st,
                ),
              )
      ]

  or_fail_log-Finished :
      {A : Type 0} (m : Result Error A × S) (f : A → Call S ParseLogResult)
      → ((a : A) → m.0 ≡ ok a → Finished p status path id s (f a m.1))
      → ((e : Error)
          → m ≡ (err e, m.1)
          → Stopped p status path id s e m.1 × (status m.1 id ≡ some log_status_processing))
      → Finished p status path id s (or_fail_log p id m f)
  unfolding or_fail_log
  or_fail_log-Finished (ok a, t) f good bad = good a refl
  or_fail_log-Finished (err e, t) f good bad =
      let (stopped, st) = bad e refl in fail_log-Finished e t stopped st

  parse_created-Finished :
      status s id ≡ some log_status_processing
      → Finished p status path id s (parse_created p path id s)
  unfolding parse_created
  parse_created-Finished st =
      or_fail_log-Finished (p.parse path s) _
        (λ parsed given.
          or_fail_log-Finished (p.save_parsed_log id parsed (p.parse path s).1) _
            (λ saved done.
              let (same, st) = k.saved id parsed (p.parse path s).1 saved done in
              (
                same,
                st,
                parsed,
                saved,
                given,
                ap (λ a. (a, (p.save_parsed_log id parsed (p.parse path s).1).1)) done,
                refl,
              ))
            (λ e refused. (
              inr (parsed, given, refused),
              k.not_saved id parsed (p.parse path s).1 e (ap (λ r. r.0) refused) ∙ parsing,
            )))
        (λ e fails. (inl fails, parsing))
    where
      parsing : status (p.parse path s).1 id ≡ some log_status_processing
      parsing = k.parsing path s id ∙ st

module _ {S : Type 0} (p : Ports S) (status : S → ℤ → Option Text) (IsGood : S → Type 0) where
  -- For services that keep the laws of `Keeps`, a good state, and a path that is not blank: either
  -- `CreateLog` fails and its answer is the whole outcome, or a log is created for the trimmed path and
  -- `ParseLog` finishes it. Then the parser and `SaveParsedLog` succeed, the result is made
  -- of what both returned, with the id of the log, which is parsed, and the state of `SaveParsedLog` is the
  -- last; or the error of the parser or of
  -- `SaveParsedLog` is returned, whichever failed. With the text of that error and in the state that the
  -- failed call left, `FailLog` is then called, and its state is the last: it succeeds and the log is
  -- failed, or it answers with an error and the log is still being processed.
  pub parse_log-Finished :
      Keeps p status IsGood
      → (path : Text) (s : S) → IsGood s
      → (trim_space path == []) ≡ false
      → ((e : Error) × ((p.create_log (trim_space path) s).0 ≡ err e)
          × (parse_log p path s ≡ (err e, (p.create_log (trim_space path) s).1)))
        ⊎ ((id : ℤ) × ((p.create_log (trim_space path) s).0 ≡ ok id)
            × Finished p status
                (trim_space path)
                id
                (p.create_log (trim_space path) s).1
                (parse_log p path s))
  unfolding parse_log
  parse_log-Finished k path s good given =
      elim (Result-cases (p.create_log (trim_space path) s).0) [
        | inr (e, fails) ↦ inl (e, fails, rw (given, fails) refl)
        | inl (id, made) ↦ inr (
          id,
          made,
          rw (given, made)
              (parse_created-Finished p status IsGood k (trim_space path) id
                (p.create_log (trim_space path) s).1 (k.created_id (trim_space path) s id made)
                (k.created (trim_space path) s id good made)),
        )
      ]
