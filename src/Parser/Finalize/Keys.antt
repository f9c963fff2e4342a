-- ===== src/Parser/Finalize/Keys.antt =====
-- The numbers in the keys of ports, of `finalizeParsedLog` in log-services/parser/parser/section.go.
use microservice_log_parser.Prelude.{
  ℕ, zero, suc, ◌+◌, ◌*◌, ◌-◌, ◌/◌, ◌%◌, ◌≤◌, [], ◌∷◌, ◌++◌, ◌≡◌, refl, sym, ap, ◌∙◌, inl, inr,
  false, Bool-cases, ltb, arith,
}
use microservice_log_parser.Prelude.Int.{ℤ, pos, negsuc}
use microservice_log_parser.Prelude.Text.{Text}
use microservice_log_parser.Parser.Model.{Port}
use microservice_log_parser.Parser.Finalize.{digits, itoa, port_key}

tenth : (n f : ℕ) → n ≤ suc f → ltb n 10 ≡ false → n / 10 ≤ f
tenth n f h e = ground (arith, e, h)

-- The number that decimal digits make, behind one that is read already.
value : Text → ℕ → ℕ
value [] n = n
value (c ∷ s) n = value s (n * 10 + (c - 48))

value-append_one : (s : Text) (c n : ℕ) → value (s ++ c ∷ []) n ≡ value s n * 10 + (c - 48)
unfolding value
value-append_one [] c n = refl
value-append_one (d ∷ s) c n = value-append_one s c (n * 10 + (d - 48))

value-digits : (f n : ℕ) → n ≤ f → value (digits f n) 0 ≡ n
unfolding value digits
value-digits zero n h = omega (arith, h)
value-digits (suc f) n h = elim (Bool-cases (ltb n 10)) [
  | inl small ↦ rw (small) (omega arith)
  | inr large ↦
      let rest = value-digits f (n / 10) (tenth n f h large) in
      let last = value-append_one (digits f (n / 10)) (48 + n % 10) 0 in
      rw (large) (omega (arith, rest, last))
]

-- The first digit, so no sign.
head : Text → ℕ
head [] = 48
head (c ∷ s) = c

head-append : (s t : Text) → 48 ≤ head s → 48 ≤ head t → 48 ≤ head (s ++ t)
unfolding head
head-append [] t h k = k
head-append (c ∷ s) t h k = h

head-digits : (f n : ℕ) → 48 ≤ head (digits f n)
unfolding head digits
head-digits zero n = omega arith
head-digits (suc f) n = elim (Bool-cases (ltb n 10)) [
  | inl small ↦ rw (small) (omega arith)
  | inr large ↦
      rw (large) (head-append (digits f (n / 10)) _ (head-digits f (n / 10)) (omega arith))
]

itoa_injective : (a b : ℤ) → itoa a ≡ itoa b → a ≡ b
unfolding itoa head
itoa_injective (pos m) (pos n) h =
    ap pos (
      sym (value-digits m m (omega arith)) ∙ ap (λ s. value s 0) h ∙ value-digits n n (omega arith))
itoa_injective (negsuc m) (negsuc n) h =
    let same : digits (suc m) (suc m) ≡ digits (suc n) (suc n) = cc h in
    let sucs =
      sym (value-digits (suc m) (suc m) (omega arith))
      ∙ ap (λ s. value s 0) same
      ∙ value-digits (suc n) (suc n) (omega arith) in
    ap negsuc (omega (arith, sucs))
itoa_injective (pos m) (negsuc n) h = absurd (omega (arith, head-digits m m, ap head h))
itoa_injective (negsuc m) (pos n) h = absurd (omega (arith, head-digits n n, ap head h))

append_cancel : (s t u : Text) → s ++ t ≡ s ++ u → t ≡ u
append_cancel [] t u h = h
append_cancel (c ∷ s) t u h = append_cancel s t u (cc h)

-- Two ports of one node GUID and one port GUID have the same key only if they have the same number:
-- the decimal text of a port number, of either sign, tells it.
pub port_key-port_num :
    (p q : Port)
    → p.node_guid ≡ q.node_guid
    → p.port_guid ≡ q.port_guid
    → port_key p ≡ port_key q
    → p.port_num ≡ q.port_num
unfolding port_key
port_key-port_num p q nodes ports h =
    let rest =
      append_cancel q.node_guid (b'|' ∷ (p.port_guid ++ (b'|' ∷ itoa p.port_num)))
        (b'|' ∷ (q.port_guid ++ (b'|' ∷ itoa q.port_num))) (rw (nodes) at h) in
    let tail : p.port_guid ++ (b'|' ∷ itoa p.port_num) ≡ q.port_guid ++ (b'|' ∷ itoa q.port_num) =
      cc rest in
    let last =
      append_cancel q.port_guid (b'|' ∷ itoa p.port_num) (b'|' ∷ itoa q.port_num)
        (rw (ports) at tail) in
    itoa_injective p.port_num q.port_num (cc last)
