-- ===== src/Parser/Engine/Parsed.antt =====
-- What a parse that succeeds returns; log-services/parser/core/service.go and parser/engine.go.
use microservice_log_parser.Prelude.{
  ℕ, List, [], ◌∷◌, ◌≡◌, ◌≢◌, inl, inr, subst, Bool, Option, Bool-cases, arith,
}
use microservice_log_parser.Prelude.Eq.{◌==◌}
use microservice_log_parser.Prelude.Text.{Text, text_eq, trim_space}
use microservice_log_parser.Prelude.Result.{Result, ok, Result-cases, ok_injective}
use microservice_log_parser.Parser.Model.{Error, Node, ParsedLog, SourceFile}
use microservice_log_parser.Parser.Finalize.{finalize_parsed_log}
use microservice_log_parser.Parser.Finalize.Consistent.{IsConsistent, finalize-IsConsistent}
use microservice_log_parser.Parser.Sections.{Row}
use microservice_log_parser.Parser.Engine.{
  with_nodes, finish_parse, parse_files, engine_parse, parse,
}

with_nodes-ok :
    (final parsed : ParsedLog) (nodes : List Node)
    → with_nodes final nodes ≡ ok parsed
    → (nodes ≢ []) × (final ≡ parsed)
unfolding with_nodes
with_nodes-ok final parsed [] e = absurd (cc e)
with_nodes-ok final parsed (n ∷ nodes) e = ((λ p. cc p), ok_injective final parsed e)

finish_parse-ok :
    (raw parsed : ParsedLog)
    → finish_parse raw ≡ ok parsed
    → (parsed.nodes ≢ []) × IsConsistent parsed
unfolding finish_parse
finish_parse-ok raw parsed e =
    let final = finalize_parsed_log raw in
    let (some_node, same) = with_nodes-ok final parsed final.nodes e in
    (subst (λ p. p.nodes ≢ []) same some_node, subst IsConsistent same (finalize-IsConsistent raw))

module _ (read_all : ℕ → Text → Option (List Row)) (done : SourceFile → Bool) where
  module _ (source_of : Text → Result Error (List SourceFile)) where
    engine_parse-ok :
        (path : Text) (parsed : ParsedLog)
        → engine_parse read_all done source_of path ≡ ok parsed
        → (parsed.nodes ≢ []) × IsConsistent parsed
    unfolding engine_parse
    engine_parse-ok path parsed e = elim (Result-cases (source_of path)) [
      | inr (x, f) ↦ absurd (ground (arith, f))
      | inl (files, f) ↦ elim (Result-cases (parse_files read_all done files)) [
        | inr (x, g) ↦ absurd (ground (arith, f, g))
        | inl (raw, g) ↦ finish_parse-ok raw parsed (rw (f, g) at e)
      ]
    ]

    -- Whatever files a path leads to, in whichever format each is and however its CSV reads: a log that
    -- the parser service returns has a node, and is consistent. The GUIDs of its nodes are distinct
    -- and not empty, no two infos are of one node, and every info and every port has the GUID of a
    -- node of the log.
    pub parse-IsConsistent :
        (path : Text) (parsed : ParsedLog)
        → parse read_all done source_of path ≡ ok parsed
        → (parsed.nodes ≢ []) × IsConsistent parsed
    unfolding parse
    parse-IsConsistent path parsed e = elim (Bool-cases (trim_space path == [])) [
      | inl blank ↦ absurd (ground (arith, blank))
      | inr given ↦ engine_parse-ok path parsed (rw (given) at e)
    ]
