-- ===== src/Repository/World/Calm.antt =====
-- The calls of log-services/repository/adapters/db/storage.go where no statement fails any more.

use microservice_log_parser.Prelude.{[], ◌≡◌, refl, inl, inr, ◌∙◌, ap}
use microservice_log_parser.Prelude.Result.{Result, ok, err, Result-cases}
use microservice_log_parser.Repository.Model.{Error}
use microservice_log_parser.Repository.World.{
  World, Database, M, continue, ◌>>=◌, statement, finish, in_transaction,
}

-- The schedule of faults is used up.
abbrev pub IsCalm : World → Type 0
IsCalm w = w.faults ≡ []

-- Whatever its result, an action brings no faults.
abbrev pub KeepsCalm : {A : Type 0} → M A → Type 0
KeepsCalm m = (w : World) → IsCalm w → IsCalm (m w).1

module _ {A B : Type 0} where
  continue-KeepsCalm :
      (r : Result Error A) (f : A → M B) (w : World)
      → ((a : A) → KeepsCalm (f a))
      → IsCalm w
      → IsCalm (continue r f w).1
  continue-KeepsCalm (ok a) f w h calm = h a w calm
  continue-KeepsCalm (err e) f w h calm = calm

  pub >>=-KeepsCalm :
      (m : M A) (f : A → M B) → KeepsCalm m → ((a : A) → KeepsCalm (f a)) → KeepsCalm (m >>= f)
  >>=-KeepsCalm m f h k w calm = continue-KeepsCalm (m w).0 f (m w).1 k (h w calm)

-- Then a statement succeeds and does nothing else.
pub statement_succeeds : (w : World) → IsCalm w → statement w ≡ (ok tt, w)
unfolding statement
statement_succeeds w calm = rw (calm) refl

pub statement-KeepsCalm : KeepsCalm statement
statement-KeepsCalm w calm = ap (λ r. r.1.faults) (statement_succeeds w calm) ∙ calm

finish-KeepsCalm :
    {A : Type 0} (before : Database) (r : Result Error A × World)
    → IsCalm r.1
    → IsCalm (finish before r).1
unfolding finish
finish-KeepsCalm before (err e, w) calm = calm
finish-KeepsCalm before (ok a, w) calm = elim (Result-cases (statement w).0) [
  | inl (u, e) ↦ rw (e, finish) (statement-KeepsCalm w calm)
  | inr (x, e) ↦ rw (e, finish) (statement-KeepsCalm w calm)
]

pub in_transaction-KeepsCalm :
    {A : Type 0} (body : M A) → KeepsCalm body → KeepsCalm (in_transaction body)
unfolding in_transaction
in_transaction-KeepsCalm body k w calm = elim (Result-cases (statement w).0) [
  | inl (u, e) ↦
      let run =
        finish-KeepsCalm w.db (body (statement w).1)
          (k (statement w).1 (statement-KeepsCalm w calm)) in
      rw (e, in_transaction) run
  | inr (x, e) ↦ rw (e, in_transaction) (statement-KeepsCalm w calm)
]
