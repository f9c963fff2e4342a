-- ===== src/App/Rest/Pagination.antt =====
-- `parsePagination`, `paginatePorts`, `parseInt64PathValue` and `includeRaw` of
-- log-services/app/adapters/rest/data.go, on the text of the query and path values.
pub mod Pages
use microservice_log_parser.Prelude.{
  ℕ, zero, suc, ◌+◌, ◌-◌, ◌*◌, ◌≤◌, List, [], ◌∷◌, Bool, true, false, not, ◌&&◌, ◌||◌, Option, none,
  some, ltb, leb, length, take, drop, if◌then◌else◌,
}
use microservice_log_parser.Prelude.Eq.{◌==◌, nat_eq}
use microservice_log_parser.Prelude.Int.{ℤ, pos, negsuc, is_positive, ltb_ℤ}
use microservice_log_parser.Prelude.Text.{Text, codes, text_beq, text_eq, trim_space, to_lower}
use microservice_log_parser.Prelude.Result.{Result, ok, err, ◌>>=◌}
use microservice_log_parser.App.Model.{Error, bad_arguments, Port}

abbrev pub default_ports_limit : ℕ
default_ports_limit = 100

abbrev pub max_ports_limit : ℕ
max_ports_limit = 500

read_decimal : Text → ℕ → Option ℕ
read_decimal [] n = some n
read_decimal (c ∷ s) n =
    let rest = read_decimal s (n * 10 + (c - 48)) in if leb b'0' c && leb c b'9' then rest else none

-- A number with at least one digit.
decimal : Text → Option ℕ
unfolding read_decimal
decimal [] = none
decimal (c ∷ s) = read_decimal (c ∷ s) 0

signed64 : Bool → Option ℕ → Option ℤ
signed64 neg none = none
signed64 false (some n) = if ltb n 9223372036854775808 then some (pos n) else none
signed64 true (some zero) = some (pos 0)
signed64 true (some (suc n)) = if ltb n 9223372036854775808 then some (negsuc n) else none

-- `strconv.Atoi(s)` and `strconv.ParseInt(s, 10, 64)`: a sign, digits, the range of `int64`.
unfoldable pub parse_int64 : Text → Option ℤ
unfolding signed64 decimal
parse_int64 [] = none
parse_int64 (c ∷ s) =
    if c == b'+'
    then signed64 false (decimal s)
    else if c == b'-'
    then signed64 true (decimal s)
    else signed64 false (decimal (c ∷ s))

-- `value, err := strconv.Atoi(raw)` with the checks of a limit.
limit_of : Option ℤ → Result Error ℕ
limit_of none = err bad_arguments
limit_of (some (negsuc n)) = err bad_arguments
limit_of (some (pos zero)) = err bad_arguments
limit_of (some (pos (suc n))) =
    if ltb max_ports_limit (suc n) then err bad_arguments else ok (suc n)

parse_limit : Text → Result Error ℕ
unfolding limit_of parse_int64 text_beq
parse_limit raw = if raw == [] then ok default_ports_limit else limit_of (parse_int64 raw)

offset_of : Option ℤ → Result Error ℕ
offset_of none = err bad_arguments
offset_of (some (negsuc n)) = err bad_arguments
offset_of (some (pos n)) = ok n

parse_offset : Text → Result Error ℕ
unfolding offset_of parse_int64 text_beq
parse_offset raw = if raw == [] then ok 0 else offset_of (parse_int64 raw)

-- `parsePagination`, on the values of the keys `limit` and `offset`.
unfoldable pub parse_pagination : Text → Text → Result Error (ℕ × ℕ)
unfolding parse_limit parse_offset trim_space
parse_pagination limit_value offset_value = do
  limit ← parse_limit (trim_space limit_value)
  offset ← parse_offset (trim_space offset_value)
  ok (limit, offset)

-- `offset + limit` on a 64-bit `int`, for summands that are not negative.
unfoldable pub add_int : ℕ → ℕ → ℤ
add_int a b =
    if ltb (a + b) 9223372036854775808
    then pos (a + b)
    else negsuc (18446744073709551616 - (a + b) - 1)

abbrev end_of : ℤ → ℕ → ℤ
end_of end total = if ltb_ℤ (pos total) end then pos total else end

-- `ports[offset:end]`; none is the panic of a bound that is out of range.
slice : List Port → ℕ → ℤ → Option (List Port)
slice ports offset (negsuc n) = none
slice ports offset (pos end) =
    if leb offset end && leb end (length ports)
    then some (take (end - offset) (drop offset ports))
    else none

-- `paginatePorts`
unfoldable pub paginate_ports : List Port → ℕ → ℕ → Option (List Port)
unfolding slice add_int
paginate_ports ports limit offset =
    if leb (length ports) offset
    then some []
    else slice ports offset (end_of (add_int offset limit) (length ports))

-- `parseInt64PathValue`
positive_of : Option ℤ → Result Error ℤ
positive_of none = err bad_arguments
positive_of (some n) = if is_positive n then ok n else err bad_arguments

unfoldable pub parse_path_value : Text → Result Error ℤ
unfolding positive_of parse_int64 trim_space text_beq
parse_path_value value =
    let raw = trim_space value in
    if raw == [] then err bad_arguments else positive_of (parse_int64 raw)

-- `includeRaw`, on the value of the key `include_raw`; `EqualFold` against an ASCII word.
unfoldable pub include_raw : Text → Bool
unfolding to_lower trim_space text_beq
include_raw value = to_lower (trim_space value) == codes "true"
