-- ===== src/Parser/Number.antt =====
-- `strconv.ParseInt(s, 0, 32)` as log-services/parser/parser/section.go calls it: an optional sign, a
-- base prefix, underscores between digits, and the range of `int32`.
use microservice_log_parser.Prelude.{
  ℕ, zero, suc, ◌+◌, ◌-◌, ◌*◌, [], ◌∷◌, Bool, true, false, not, ◌&&◌, ◌||◌, Option, none, some, ltb,
  leb, if◌then◌else◌,
}
use microservice_log_parser.Prelude.Eq.{◌==◌, nat_eq}
use microservice_log_parser.Prelude.Int.{ℤ, pos, negsuc}
use microservice_log_parser.Prelude.Text.{Text, lower_byte}

is_decimal : ℕ → Bool
is_decimal c = leb b'0' c && leb c b'9'

-- The value of a digit, of a letter as in base 36; none for any other byte.
digit_value : ℕ → Option ℕ
unfolding is_decimal
digit_value c =
    let l = lower_byte c in
    if is_decimal c
    then some (c - 48)
    else if leb b'a' l && leb l b'z'
    then some (l - 97 + 10)
    else none

-- The loop of `ParseUint`, from the number read so far; underscores are passed over, since the base
-- was given as 0.
read_digits : ℕ → Text → ℕ → Option ℕ
unfolding digit_value
read_digits base [] n = some n
read_digits base (c ∷ s) n = elim (c == b'_') [
  | true ↦ read_digits base s n
  | false ↦ elim (digit_value c) [
    | none ↦ none
    | some d ↦ elim (ltb d base) [ true ↦ read_digits base s (n * base + d) | false ↦ none ]
  ]
]

-- The base, and the text behind its prefix.
base_of : Text → ℕ × Text
base_of (c ∷ p ∷ d ∷ s) =
    if not (c == b'0')
    then (10, c ∷ p ∷ d ∷ s)
    else if lower_byte p == b'b'
    then (2, d ∷ s)
    else if lower_byte p == b'o'
    then (8, d ∷ s)
    else if lower_byte p == b'x'
    then (16, d ∷ s)
    else (8, p ∷ d ∷ s)
base_of (c ∷ s) = if c == b'0' then (8, s) else (10, c ∷ s)
base_of [] = (10, [])

-- What the last byte of the text was, for `underscoreOK`.
pub data Saw : Type 0 where
  saw_digit saw_underscore saw_other saw_nothing : Saw

is_hex_letter : ℕ → Bool
is_hex_letter c = leb b'a' (lower_byte c) && leb (lower_byte c) b'f'

underscores_from : Bool → Text → Saw → Bool
unfolding is_decimal is_hex_letter
underscores_from hex [] saw_underscore = false
underscores_from hex [] _ = true
underscores_from hex (c ∷ s) saw = elim (is_decimal c || (hex && is_hex_letter c)) [
  | true ↦ underscores_from hex s saw_digit
  | false ↦ elim (c == b'_') [
    | true ↦ elim saw [ saw_digit ↦ underscores_from hex s saw_underscore | _ ↦ false ]
    | false ↦ elim saw [ saw_underscore ↦ false | _ ↦ underscores_from hex s saw_other ]
  ]
]

-- `underscoreOK`, on the text behind the sign.
underscores_ok : Text → Bool
unfolding underscores_from
underscores_ok (c ∷ p ∷ s) =
    let l = lower_byte p in
    if (c == b'0') && ((l == b'b') || ((l == b'o') || (l == b'x')))
    then underscores_from (l == b'x') s saw_digit
    else underscores_from false (c ∷ p ∷ s) saw_nothing
underscores_ok s = underscores_from false s saw_nothing

has_underscore : Text → Bool
has_underscore [] = false
has_underscore (c ∷ s) = (c == b'_') || has_underscore s

-- `ParseUint(s, 0, 32)` but for its own range check, which is looser than that of `ParseInt`.
parse_uint : Text → Option ℕ
unfolding read_digits base_of underscores_ok has_underscore
parse_uint [] = none
parse_uint (c ∷ s) =
    let r = base_of (c ∷ s) in
    if has_underscore (c ∷ s) && not (underscores_ok (c ∷ s)) then none else read_digits r.0 r.1 0

signed : Bool → Option ℕ → Option ℤ
signed neg none = none
signed false (some n) = if ltb n 2147483648 then some (pos n) else none
signed true (some zero) = some (pos 0)
signed true (some (suc n)) = if ltb n 2147483648 then some (negsuc n) else none

-- `none` is an error of syntax or of range.
unfoldable pub parse_int32 : Text → Option ℤ
unfolding signed parse_uint
parse_int32 [] = none
parse_int32 (c ∷ s) =
    if c == b'+'
    then signed false (parse_uint s)
    else if c == b'-'
    then signed true (parse_uint s)
    else signed false (parse_uint (c ∷ s))
