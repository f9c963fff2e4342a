-- ===== src/App/Rest/Pagination/Pages.antt =====
-- The pages that the handlers cut.
use microservice_log_parser.Prelude.{
  ℕ, zero, suc, ◌+◌, ◌-◌, ◌≤◌, ◌<◌, List, [], ◌∷◌, ◌≡◌, refl, sym, ap, subst, ◌∙◌, ltb, inl, inr,
  Option, none, some, arith, length, take, drop, Bool-cases, leb, leb→le, leb-false→lt, length-drop,
}
use microservice_log_parser.Prelude.Eq.{◌==◌}
use microservice_log_parser.Prelude.Int.{ℤ, pos, negsuc}
use microservice_log_parser.Prelude.Text.{Text, text_eq, trim_space}
use microservice_log_parser.Prelude.Result.{ok, Result-cases}
use microservice_log_parser.App.Model.{Port}
use microservice_log_parser.App.Rest.Pagination.{
  parse_pagination, parse_limit, parse_offset, limit_of, parse_int64, paginate_ports, slice, end_of,
  add_int, max_ports_limit,
}

drop-past : (n : ℕ) (xs : List Port) → length xs ≤ n → drop n xs ≡ []
drop-past zero [] h = refl
drop-past zero (x ∷ xs) h = absurd (omega arith)
drop-past (suc n) [] h = refl
drop-past (suc n) (x ∷ xs) h = drop-past n xs (omega arith)

take-nil : (n : ℕ) → take {A = Port} n [] ≡ []
take-nil zero = refl
take-nil (suc n) = refl

take-all : (n m : ℕ) (xs : List Port) → length xs ≤ n → length xs ≤ m → take n xs ≡ take m xs
take-all n m [] h k = take-nil n ∙ sym (take-nil m)
take-all zero m (x ∷ xs) h k = absurd (omega arith)
take-all (suc n) zero (x ∷ xs) h k = absurd (omega arith)
take-all (suc n) (suc m) (x ∷ xs) h k = ap (◌∷◌ x) (take-all n m xs (omega arith) (omega arith))

-- The end of a slice that starts in the list.
slice-end_of :
    (ports : List Port) (limit offset : ℕ)
    → offset ≤ length ports
    → slice ports offset (end_of (pos (offset + limit)) (length ports))
      ≡ some (take limit (drop offset ports))
unfolding slice
slice-end_of ports limit offset h = elim (Bool-cases (ltb (length ports) (offset + limit))) [
  | inl past ↦ ground (
    arith,
    past,
    take-all (length ports - offset) limit (drop offset ports)
        (omega (arith, length-drop offset ports)) (ground (arith, length-drop offset ports, past)),
  )
  | inr within ↦
      let n : offset + limit - offset ≡ limit = omega arith in
      ground (arith, within, ap (λ k. take k (drop offset ports)) n)
]

-- Unless the list and the limit overflow an `int` together, `paginatePorts` does not panic, whatever
-- the offset, and its page is the elements from the offset on, as many as the limit.
pub paginate_ports-take-drop :
    (ports : List Port) (limit offset : ℕ)
    → length ports + limit < 9223372036854775808
    → paginate_ports ports limit offset ≡ some (take limit (drop offset ports))
unfolding paginate_ports
paginate_ports-take-drop ports limit offset h = elim (Bool-cases (leb (length ports) offset)) [
  | inl past ↦ rw (past, drop-past offset ports (leb→le _ _ past), take-nil limit) refl
  | inr inside ↦
      let fits : add_int offset limit ≡ pos (offset + limit) =
        unfold add_int in ground (arith, leb-false→lt _ _ inside) in
      rw (inside, fits) (slice-end_of ports limit offset (omega (arith, leb-false→lt _ _ inside)))
]

limit_of-bounds : (o : Option ℤ) (n : ℕ) → limit_of o ≡ ok n → (1 ≤ n) × (n ≤ max_ports_limit)
unfolding limit_of
limit_of-bounds none n h = cc
limit_of-bounds (some (negsuc k)) n h = cc
limit_of-bounds (some (pos zero)) n h = cc
limit_of-bounds (some (pos (suc k))) n h = ground arith

parse_limit-bounds : (raw : Text) (n : ℕ) → parse_limit raw ≡ ok n → (1 ≤ n) × (n ≤ max_ports_limit)
unfolding parse_limit
parse_limit-bounds raw n h = elim (Bool-cases (raw == [])) [
  | inl default ↦ ground (arith, default)
  | inr given ↦ limit_of-bounds (parse_int64 raw) n (ground (arith, given))
]

-- Whatever the query, the limit that is read lies between 1 and `max_ports_limit`.
pub parse_pagination-bounds :
    (limit_value offset_value : Text) (limit offset : ℕ)
    → parse_pagination limit_value offset_value ≡ ok (limit, offset)
    → (1 ≤ limit) × (limit ≤ max_ports_limit)
unfolding parse_pagination
parse_pagination-bounds l o limit offset h = elim (Result-cases (parse_limit (trim_space l))) [
  | inr (e, fails) ↦ absurd (ground (arith, fails))
  | inl (n, reads) ↦ elim (Result-cases (parse_offset (trim_space o))) [
    | inr (e, fails) ↦ absurd (ground (arith, reads, fails))
    | inl (m, reads') ↦
        let same : n ≡ limit = ground (arith, reads, reads') in
        subst (λ k. (1 ≤ k) × (k ≤ max_ports_limit)) same
          (parse_limit-bounds (trim_space l) n reads)
  ]
]
