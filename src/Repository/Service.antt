-- ===== src/Repository/Service.antt =====
-- log-services/repository/core/service.go: the checks of the arguments before each call of the
-- database.
use microservice_log_parser.Prelude.{List, [], not, if◌then◌else◌}
use microservice_log_parser.Prelude.Eq.{◌==◌}
use microservice_log_parser.Prelude.Int.{ℤ, is_positive}
use microservice_log_parser.Prelude.Text.{Text, text_beq, text_eq, trim_space}
use microservice_log_parser.Repository.Model.{
  bad_arguments, Log, Node, Port, ParsedLog, SaveParsedLogResult, TopologyData,
}
use microservice_log_parser.Repository.World.{M, fail}
use microservice_log_parser.Repository.Save
use microservice_log_parser.Repository.Logs
use microservice_log_parser.Repository.Queries

-- `if id <= 0 { return …, ErrBadArguments }`
abbrev checked : {A : Type 0} → ℤ → M A → M A
checked id m = if not (is_positive id) then fail bad_arguments else m

unfoldable pub create_log : Text → M ℤ
unfolding trim_space text_beq Logs.create_log
create_log file_path =
    if trim_space file_path == [] then fail bad_arguments else Logs.create_log file_path

unfoldable pub save_parsed_log : ℤ → ParsedLog → M SaveParsedLogResult
unfolding Save.save_parsed_log
save_parsed_log log_id parsed = checked log_id (Save.save_parsed_log log_id parsed)

unfoldable pub fail_log : ℤ → Text → M Unit
unfolding Logs.fail_log
fail_log log_id error_text = checked log_id (Logs.fail_log log_id error_text)

unfoldable pub get_log : ℤ → M Log
unfolding Logs.get_log
get_log log_id = checked log_id (Logs.get_log log_id)

unfoldable pub get_node : ℤ → M Node
unfolding Queries.get_node
get_node node_id = checked node_id (Queries.get_node node_id)

unfoldable pub get_ports_by_node : ℤ → M (List Port)
unfolding Queries.get_ports_by_node
get_ports_by_node node_id = checked node_id (Queries.get_ports_by_node node_id)

unfoldable pub get_nodes_by_log : ℤ → M (List Node)
unfolding Queries.get_nodes_by_log
get_nodes_by_log log_id = checked log_id (Queries.get_nodes_by_log log_id)

unfoldable pub get_ports_by_log : ℤ → M (List Port)
unfolding Queries.get_ports_by_log
get_ports_by_log log_id = checked log_id (Queries.get_ports_by_log log_id)

unfoldable pub get_topology_data : ℤ → M TopologyData
unfolding Queries.get_topology_data
get_topology_data log_id = checked log_id (Queries.get_topology_data log_id)
