-- ===== src/Wire/Status.antt =====
-- gRPC statuses, told by their code, and what the servers and clients have in common. A message is a
-- pointer in the source: none is nil.
use microservice_log_parser.Prelude.{List, [], ◌∷◌, ◌≡◌, refl, ap, Option, none, some, map}
use microservice_log_parser.Prelude.Result.{Result, ok, err}

-- The codes of google.golang.org/grpc/codes, but for OK.
pub data Code : Type 0 where
  canceled unknown_code invalid_argument deadline_exceeded already_exists : Code
  missing permission_denied resource_exhausted failed_precondition aborted : Code
  out_of_range unimplemented internal unreachable data_loss unauthenticated : Code

module _ {A B : Type 0} where
  -- The loops of the `…FromProto` functions: nil elements are skipped.
  unfoldable pub each : (A → B) → List (Option A) → List B
  each f [] = []
  each f (none ∷ xs) = each f xs
  each f (some x ∷ xs) = f x ∷ each f xs

  -- The loops of the `…ToProto` functions.
  unfoldable pub all_some : (A → B) → List A → List (Option B)
  all_some f [] = []
  all_some f (x ∷ xs) = some (f x) ∷ all_some f xs

  -- A call whose error and value are converted on the way.
  abbrev pub convert : {E F : Type 0} → (E → F) → (A → B) → Result E A → Result F B
  convert f g (ok a) = ok (g a)
  convert f g (err e) = err (f e)

  abbrev pub relay :
      {E F S : Type 0} → (E → F) → (A → B) → (S → Result E A × S) → S → Result F B × S
  relay f g call s = (convert f g (call s).0, (call s).1)

module _ {A B C : Type 0} where
  -- What was sent as a list arrives as a list.
  pub each-all_some :
      (g : B → C) (f : A → B) (xs : List A) → each g (all_some f xs) ≡ map (λ x. g (f x)) xs
  unfolding each all_some
  each-all_some g f [] = refl
  each-all_some g f (x ∷ xs) = ap (◌∷◌ (g (f x))) (each-all_some g f xs)

module _ {A : Type 0} where
  pub map-id : (f : A → A) → ((a : A) → f a ≡ a) → (xs : List A) → map f xs ≡ xs
  map-id f h [] = refl
  map-id f h (x ∷ xs) = λ i. h x i ∷ map-id f h xs i
