-- ===== src/Topology/Kinds.antt =====
-- Node kinds: `normalizeKind`, `groupName` and `title` of log-services/topology/core/service.go.
use microservice_log_parser.Prelude.{[], ◌∷◌, ◌++◌, if◌then◌else◌}
use microservice_log_parser.Prelude.Eq.{◌==◌}
use microservice_log_parser.Prelude.Text.{
  Text, codes, text_beq, text_eq, trim_space, to_lower, to_upper,
}

abbrev pub host : Text
host = codes "host"

abbrev pub switch : Text
switch = codes "switch"

abbrev pub unknown : Text
unknown = codes "unknown"

or_unknown : Text → Text
or_unknown [] = unknown
or_unknown (c ∷ s) = c ∷ s

unfoldable pub normalize_kind : Text → Text
unfolding or_unknown trim_space to_lower
normalize_kind kind = or_unknown (to_lower (trim_space kind))

capitalize : Text → Text
unfolding to_upper
capitalize [] = []
capitalize (c ∷ s) = to_upper (c ∷ []) ++ s

unfoldable pub title : Text → Text
unfolding capitalize trim_space
title value = capitalize (trim_space value)

unfoldable pub group_name : Text → Text
unfolding title text_beq
group_name kind =
    if kind == host
    then codes "Hosts"
    else if kind == switch
    then codes "Switches"
    else if kind == unknown
    then codes "Unknown"
    else title kind
