-- ===== src/Tests/Parser.antt =====
-- The parser of log-services/parser/parser on small inputs.
use microservice_log_parser.Prelude.{
  List, [], ◌∷◌, ◌≡◌, refl, true, false, none, some, All, ◌≤◌, length,
}
use microservice_log_parser.Prelude.Int.{pos}
use microservice_log_parser.Prelude.Text.{Text, codes}
use microservice_log_parser.Prelude.Result.{ok, err}
use microservice_log_parser.Parser.Model.{Node, NodeInfo, Port, ParsedLog, parse_error}
use microservice_log_parser.Parser.Number.{parse_int32}
use microservice_log_parser.Parser.Merge.{merge_node}
use microservice_log_parser.Parser.Table.{Table, upsert}
use microservice_log_parser.Parser.Table.Refines.{IsIndexed, merge_in, numbered, upsert-merge_in}
use microservice_log_parser.Parser.Finalize.{bare_node, finalize_parsed_log}
use microservice_log_parser.Parser.Finalize.Consistent.{
  IsConsistent, node_guids, finalize-IsConsistent,
}
use microservice_log_parser.Parser.Finalize.Nodes.{first_places, named_guids, finalize-guids}
use microservice_log_parser.Parser.Finalize.Reference.{reference, finalize-reference}
use microservice_log_parser.Parser.Archive.{
  Entry, Reading, nothing_read, read_entries, max_file_size, max_files, max_total_bytes,
}
use microservice_log_parser.Parser.Archive.Entries.{declared, files_in, seen, read_entries_reads}
use microservice_log_parser.Parser.Sections.{Row, Section, split_sections}
use microservice_log_parser.Parser.Sections.Closed.{IsFilled, split_sections-IsFilled}

abbrev named : Text → Node
named guid = record (bare_node guid) { node_desc = guid }

abbrev info : Text → NodeInfo
info guid = record {
  node_guid = guid;
  serial_number = codes "s";
  part_number = [];
  revision = [];
  product_name = [];
  raw_json = [];
}

abbrev port : Text → Port
port guid = record {
  node_guid = guid;
  port_guid = codes "p";
  port_num = pos 1;
  lid = pos 0;
  local_port_num = pos 0;
  port_state = pos 4;
  port_phy_state = pos 5;
  link_width_active = pos 2;
  link_speed_active = pos 4;
  raw_json = [];
}

-- A node twice, an info of a node that has no record, and a port without a GUID.
abbrev sample : ParsedLog
sample = record {
  nodes = named (codes "a") ∷ named (codes " a ") ∷ named [] ∷ [];
  ports = port (codes "c") ∷ port [] ∷ port (codes "a") ∷ [];
  nodes_info = info (codes "b") ∷ [];
}

finalized : node_guids (finalize_parsed_log sample).nodes ≡ codes "a" ∷ codes "b" ∷ codes "c" ∷ []
unfolding finalize_parsed_log
finalized = refl

finalize-IsConsistent_example : IsConsistent (finalize_parsed_log sample)
finalize-IsConsistent_example = finalize-IsConsistent sample

finalize-guids_example :
    node_guids (finalize_parsed_log sample).nodes ≡ first_places (named_guids sample) []
finalize-guids_example = finalize-guids sample

finalize-reference_example :
    ((finalize_parsed_log sample).nodes ≡ (reference sample).nodes)
    × ((finalize_parsed_log sample).nodes_info ≡ (reference sample).infos)
finalize-reference_example = finalize-reference sample

abbrev one_node : Table Node
one_node = record { index = (codes "a", 0) ∷ []; items = named (codes "a") ∷ [] }

one_node-IsIndexed : IsIndexed (λ n. n.node_guid) one_node
unfolding numbered
one_node-IsIndexed = refl

merge_node-keeps : (b a : Node) → (merge_node b a).node_guid ≡ b.node_guid
unfolding merge_node
merge_node-keeps b a = refl

upsert-merge_in_example :
    IsIndexed (λ n. n.node_guid) (upsert merge_node (codes "b") (named (codes "b")) one_node)
    × ((upsert merge_node (codes "b") (named (codes "b")) one_node).items
        ≡ merge_in (λ n. n.node_guid) merge_node (named (codes "b")) one_node.items)
upsert-merge_in_example =
    upsert-merge_in (λ n. n.node_guid) merge_node merge_node-keeps (named (codes "b")) one_node
      one_node-IsIndexed

too_large : parse_int32 (codes "2147483648") ≡ none
unfolding parse_int32
too_large = refl

abbrev entries : List Entry
entries =
    record { name = codes "d"; cancelled = false; is_dir = true; size = pos 0; content = none }
    ∷ record {
      name = codes "d/f";
      cancelled = false;
      is_dir = false;
      size = pos 3;
      content = some (codes "abc");
    }
    ∷ []

abbrev read : Reading
read = record {
  sources = record { name = codes "d/f"; content = codes "abc" } ∷ [];
  limits = record { files = 1; total = 3 };
}

read_entries-ok : read_entries entries nothing_read ≡ ok read
unfolding read_entries
read_entries-ok = refl

read_entries_reads_example :
    (declared entries ≤ max_total_bytes)
    × (length (files_in entries) ≤ max_files)
    × (seen read.sources ≡ files_in entries)
    × All (λ f. length f.content ≤ max_file_size) read.sources
read_entries_reads_example = read_entries_reads entries read read_entries-ok

abbrev rows : List Row
rows =
    (codes "START_NODES" ∷ [])
    ∷ (codes "NodeGUID" ∷ codes "NodeDesc" ∷ [])
    ∷ (codes "# a comment" ∷ [])
    ∷ (codes "0x1" ∷ codes "one" ∷ [])
    ∷ (codes "end_nodes" ∷ [])
    ∷ (codes "START_EMPTY" ∷ [])
    ∷ (codes "END_EMPTY" ∷ [])
    ∷ []

abbrev sections : List Section
sections =
    record {
      name = codes "nodes";
      records = ((codes "NodeGUID", codes "0x1") ∷ (codes "NodeDesc", codes "one") ∷ []) ∷ [];
    }
    ∷ []

rows_split : split_sections rows ≡ ok sections
unfolding split_sections
rows_split = refl

not_closed : split_sections ((codes "START_NODES" ∷ []) ∷ []) ≡ err parse_error
unfolding split_sections
not_closed = refl

split_sections-IsFilled_example : All IsFilled sections
split_sections-IsFilled_example = split_sections-IsFilled rows sections rows_split
