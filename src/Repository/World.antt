-- ===== src/Repository/World.antt =====
-- The database as the queries of log-services/repository/adapters/db/storage.go see it: the tables and
-- constraints of its migrations, the sequences of the ids, and a schedule of faults. Each statement
-- takes one entry of the schedule and fails if it is true; when the schedule is used up, no statement
-- fails.
pub mod Calm
pub mod Rules
use microservice_log_parser.Prelude.{ℕ, suc, List, [], ◌∷◌, Bool, true, false, if◌then◌else◌}
use microservice_log_parser.Prelude.Int.{ℤ, pos}
use microservice_log_parser.Prelude.Text.{Text}
use microservice_log_parser.Prelude.Result.{Result, ok, err}
use microservice_log_parser.Repository.Model.{Error, other}
use microservice_log_parser.Repository.Rows.{LogRow, NodeRow, NodeInfoRow, PortRow}

pub record Database : Type 0 where
  pub logs : List LogRow
  pub nodes : List NodeRow
  pub infos : List NodeInfoRow
  pub ports : List PortRow

-- The last ids that the four sequences gave out. A rollback does not take them back.
pub record Sequences : Type 0 where
  pub last_log : ℕ
  pub last_node : ℕ
  pub last_info : ℕ
  pub last_port : ℕ

pub record World : Type 0 where
  pub db : Database
  pub seq : Sequences
  pub now : Text
  pub faults : List Bool

abbrev pub M : Type 0 → Type 0
M A = World → Result Error A × World

abbrev continue : {A B : Type 0} → Result Error A → (A → M B) → M B
continue (ok a) f w = f a w
continue (err e) f w = (err e, w)

infixl 5 ◌>>=◌ ◌>>◌
abbrev pub ◌>>=◌ : {A B : Type 0} → M A → (A → M B) → M B
◌>>=◌ m f w = continue (m w).0 f (m w).1

abbrev pub ◌>>◌ : {A B : Type 0} → M A → M B → M B
m >> n = m >>= λ _. n

abbrev pub pure : {A : Type 0} → A → M A
pure a w = (ok a, w)

abbrev pub fail : {A : Type 0} → Error → M A
fail e w = (err e, w)

abbrev pub gets : {A : Type 0} → (Database → A) → M A
gets f w = (ok (f w.db), w)

-- One round trip to the database.
unfoldable pub statement : M Unit
statement w = elim w.faults [
  | [] ↦ (ok tt, w)
  | fault ∷ rest ↦ (if fault then err other else ok tt, record w { faults = rest })
]

module _ {A : Type 0} where
  -- `tx.Commit()`, or `tx.Rollback()` where the body has failed: the tables are those of before.
  unfoldable pub finish : Database → Result Error A × World → Result Error A × World
  unfolding statement
  finish before (err e, w) = (err e, record w { db = before })
  finish before (ok a, w) = elim (statement w).0 [
    | ok _ ↦ (ok a, (statement w).1)
    | err e ↦ (err e, record ((statement w).1) { db = before })
  ]

  -- `BeginTxx`, the body, and the commit or the deferred rollback.
  unfoldable pub in_transaction : M A → M A
  unfolding finish statement
  in_transaction body w = elim (statement w).0 [
    | err e ↦ (err e, (statement w).1)
    | ok _ ↦ finish w.db (body (statement w).1)
  ]
