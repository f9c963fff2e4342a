-- ===== src/Parser/Record.antt =====
-- Records of keys and values: log-services/parser/parser/raw.go, with the look-ups of section.go. A
-- record is a `map[string]string`; json.Marshal writes its keys in order.
use microservice_log_parser.Prelude.{
  ℕ, ◌+◌, ◌-◌, ◌/◌, ◌%◌, List, [], ◌∷◌, ◌++◌, Bool, true, false, not, ◌||◌, Option, none, some,
  select, ltb, if◌then◌else◌,
}
use microservice_log_parser.Prelude.Eq.{◌==◌, nat_eq}
use microservice_log_parser.Prelude.Int.{ℤ, pos, int_eq}
use microservice_log_parser.Prelude.Text.{
  Text, codes, text_beq, text_eq, text_lt, trim_space, to_lower, trim, text_contains,
}
use microservice_log_parser.Prelude.Assoc.{Assoc, lookup, insert}
use microservice_log_parser.Prelude.Sort.{sort_by}
use microservice_log_parser.Prelude.Result.{Result, ok, err}
use microservice_log_parser.Parser.Model.{Error, parse_error}
use microservice_log_parser.Parser.Number.{parse_int32}

abbrev pub Record : Type 0
Record = Assoc Text Text

-- The bytes that the replacer of `normalizeKey` drops: _ - blank . / \
is_dropped : ℕ → Bool
is_dropped c =
    (c == b'_') || ((c == b'-') || ((c == b' ') || ((c == b'.') || ((c == b'/') || (c == b'\\')))))

unfoldable pub normalize_key : Text → Text
unfolding is_dropped to_lower trim_space
normalize_key s = select (λ c. not (is_dropped c)) (to_lower (trim_space s))

-- The loop of `normalizeRecord`. Where two keys normalise alike, the source's order is not fixed; here
-- the later entry wins.
normalize_entries : Record → Record → Record
unfolding normalize_key insert trim_space text_beq
normalize_entries [] out = out
normalize_entries ((key, value) ∷ rest) out =
    normalize_entries rest (insert (normalize_key key) (trim_space value) out)

unfoldable pub normalize_record : Record → Record
unfolding normalize_entries
normalize_record rec = normalize_entries rec []

-- `getExisting`: the value of the first key that is there.
unfoldable pub get_existing : Record → List Text → Option Text
unfolding lookup normalize_key text_beq
get_existing rec [] = none
get_existing rec (key ∷ keys) = elim (lookup (normalize_key key) rec) [
  | none ↦ get_existing rec keys
  | some value ↦ some value
]

-- `get` is the same loop, with the empty text where no key is there.
unfoldable pub get : Record → List Text → Text
unfolding get_existing
get rec keys = elim (get_existing rec keys) [ none ↦ [] | some value ↦ value ]

unfoldable pub has_any : Record → List Text → Bool
unfolding get_existing
has_any rec keys = elim (get_existing rec keys) [ none ↦ false | some value ↦ true ]

-- The quotes that are cut off both ends of a value: " and '
abbrev pub is_quote : ℕ → Bool
is_quote c = (c == 34) || (c == 39)

int_or_error : Option ℤ → Result Error ℤ
int_or_error none = err parse_error
int_or_error (some n) = ok n

-- `parseOptionalInt32` on the value that was found.
optional_int : Option Text → Result Error ℤ
unfolding int_or_error parse_int32 trim_space trim text_beq
optional_int none = ok (pos 0)
optional_int (some value) =
    let raw = trim_space value in
    if raw == [] then ok (pos 0) else int_or_error (parse_int32 (trim is_quote raw))

unfoldable pub parse_optional_int32 : Record → List Text → Result Error ℤ
unfolding optional_int get_existing
parse_optional_int32 rec keys = optional_int (get_existing rec keys)

hex_digit : ℕ → ℕ
hex_digit n = if ltb n 10 then 48 + n else 97 + (n - 10)

-- A byte in a JSON text, as encoding/json escapes it for HTML too.
json_byte : ℕ → Text
unfolding hex_digit
json_byte c =
    if (c == 34) || (c == 92)
    then 92 ∷ c ∷ []
    else if c == 10
    then codes "\\n"
    else if c == 13
    then codes "\\r"
    else if c == 9
    then codes "\\t"
    else if c == 8
    then codes "\\b"
    else if c == 12
    then codes "\\f"
    else if ltb c 32 || ((c == b'<') || ((c == b'>') || (c == b'&')))
    then codes "\\u00" ++ (hex_digit (c / 16) ∷ hex_digit (c % 16) ∷ [])
    else c ∷ []

json_bytes : Text → Text
unfolding json_byte
json_bytes [] = []
json_bytes (c ∷ s) = json_byte c ++ json_bytes s

json_text : Text → Text
unfolding json_bytes
json_text s = 34 ∷ (json_bytes s ++ 34 ∷ [])

json_entries : Record → Text
unfolding json_text
json_entries [] = []
json_entries ((k, v) ∷ []) = json_text k ++ (b':' ∷ json_text v)
json_entries ((k, v) ∷ e ∷ rest) =
    json_text k ++ (b':' ∷ (json_text v ++ (b',' ∷ json_entries (e ∷ rest))))

-- `rawJSON`
unfoldable pub raw_json : Record → Text
unfolding json_entries sort_by text_lt
raw_json rec = b'{' ∷ (json_entries (sort_by (λ a b. text_lt a.0 b.0) rec) ++ b'}' ∷ [])

contains_any : List Text → Text → Bool
unfolding text_contains
contains_any [] s = false
contains_any (t ∷ ts) s = text_contains s t || contains_any ts s

-- `deriveNodeKind`
unfoldable pub derive_node_kind : Text → Text → ℤ → Text
unfolding to_lower trim_space contains_any text_beq
derive_node_kind kind desc node_type =
    let given = to_lower (trim_space kind) in
    let text = to_lower desc in
    if not (given == [])
    then given
    else if contains_any (codes "switch" ∷ codes "sw" ∷ []) text
    then codes "switch"
    else if contains_any (codes "host" ∷ codes "hca" ∷ codes "ca" ∷ []) text
    then codes "host"
    else if node_type == pos 2
    then codes "switch"
    else if node_type == pos 1
    then codes "host"
    else codes "unknown"
