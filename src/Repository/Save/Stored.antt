-- ===== src/Repository/Save/Stored.antt =====
-- The nodes that `SaveParsedLog` of log-services/repository/adapters/db/storage.go stores.
use microservice_log_parser.Prelude.{List, [], ◌∷◌, ◌++◌, ◌≡◌, not, select}
use microservice_log_parser.Prelude.Eq.{◌==◌}
use microservice_log_parser.Prelude.Int.{ℤ, int_eq}
use microservice_log_parser.Prelude.Text.{Text, text_eq}
use microservice_log_parser.Prelude.Assoc.{Assoc}
use microservice_log_parser.Repository.Model.{Node, ParsedLog}
use microservice_log_parser.Repository.Rows.{NodeRow}
use microservice_log_parser.Repository.World.{World}
use microservice_log_parser.Repository.Save.{node_row}

-- A row for each node, in order, with every column.
unfoldable pub AreRows : ℤ → List NodeRow → List Node → Type 0
unfolding node_row
AreRows log_id [] [] = Unit
AreRows log_id [] (node ∷ nodes) = ⊥
AreRows log_id (row ∷ rows) [] = ⊥
AreRows log_id (row ∷ rows) (node ∷ nodes) =
    (row ≡ node_row row.id log_id node) × AreRows log_id rows nodes

abbrev pub of_other_logs : ℤ → List NodeRow → List NodeRow
of_other_logs log_id = select (λ row. not (row.log_id == log_id))

abbrev Stores : ℤ → ParsedLog → World → World → Type 0
Stores log_id parsed w w' =
    (rows : List NodeRow) × (w'.db.nodes ≡ of_other_logs log_id w.db.nodes ++ rows)
    × AreRows log_id rows parsed.nodes
