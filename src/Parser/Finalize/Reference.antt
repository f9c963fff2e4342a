-- ===== src/Parser/Finalize/Reference.antt =====
-- The nodes and infos of `finalizeParsedLog` of log-services/parser/parser/section.go without its maps: the
-- same loops over plain lists that are searched from the front. The ports are not part of this: a key
-- of two GUIDs that are joined by a bar need not stay a merged port's key.
use microservice_log_parser.Prelude.{
  List, [], ◌∷◌, ◌≡◌, inl, inr, refl, ap, ◌∙◌, Bool-cases, if◌then◌else◌,
}
use microservice_log_parser.Prelude.Eq.{◌==◌}
use microservice_log_parser.Prelude.Text.{Text, text_eq}
use microservice_log_parser.Parser.Model.{Node, NodeInfo, Port, ParsedLog}
use microservice_log_parser.Parser.Merge.{merge_node, merge_node_info}
use microservice_log_parser.Parser.Table.Refines.{
  IsIndexed, merge_in, add_in, numbered, upsert-merge_in, ensure-add_in,
}
use microservice_log_parser.Parser.Finalize.{
  Tables, no_tables, bare_node, ensure_node, trim_node, trim_info, trim_port, add_node, add_info,
  add_port, add_nodes, add_infos, add_ports, tables_of, finalize_parsed_log,
}

-- The nodes and the infos of the log so far.
pub record Plain : Type 0 where
  pub nodes : List Node
  pub infos : List NodeInfo

abbrev node_key : Node → Text
node_key node = node.node_guid

abbrev info_key : NodeInfo → Text
info_key info = info.node_guid

-- One record, with its GUID trimmed, into the log so far. A record without a GUID is dropped; an info
-- and a port first add a node with its GUID, unless there is one.
unfoldable pub put_node : Node → Plain → Plain
unfolding merge_in
put_node node log =
    if node.node_guid == []
    then log
    else record log { nodes = merge_in node_key merge_node node log.nodes }

unfoldable pub put_info : NodeInfo → Plain → Plain
unfolding merge_in add_in
put_info info log = if info.node_guid == [] then log else record log {
  nodes = add_in node_key (bare_node info.node_guid) log.nodes;
  infos = merge_in info_key merge_node_info info log.infos;
}

unfoldable pub put_port : Port → Plain → Plain
unfolding add_in
put_port port log =
    if port.node_guid == []
    then log
    else record log { nodes = add_in node_key (bare_node port.node_guid) log.nodes }

unfoldable pub put_nodes : List Node → Plain → Plain
unfolding put_node
put_nodes [] log = log
put_nodes (node ∷ nodes) log = put_nodes nodes (put_node (trim_node node) log)

unfoldable pub put_infos : List NodeInfo → Plain → Plain
unfolding put_info
put_infos [] log = log
put_infos (info ∷ infos) log = put_infos infos (put_info (trim_info info) log)

unfoldable pub put_ports : List Port → Plain → Plain
unfolding put_port
put_ports [] log = log
put_ports (port ∷ ports) log = put_ports ports (put_port (trim_port port) log)

unfoldable pub reference : ParsedLog → Plain
unfolding put_nodes put_infos put_ports
reference parsed =
    put_ports parsed.ports
      (put_infos parsed.nodes_info (put_nodes parsed.nodes (record { nodes = []; infos = [] })))

-- The maps hold the positions of the keys, and the slices hold the log.
record Holds (t : Tables) (log : Plain) : Type 0 where
  nodes_indexed : IsIndexed node_key t.nodes
  infos_indexed : IsIndexed info_key t.infos
  nodes_same : t.nodes.items ≡ log.nodes
  infos_same : t.infos.items ≡ log.infos

add_node-Holds :
    (n : Node) (t : Tables) (log : Plain) → Holds t log → Holds (add_node n t) (put_node n log)
unfolding add_node put_node merge_node
add_node-Holds n t log h = elim (Bool-cases (n.node_guid == [])) [
  | inl empty ↦ rw (empty, add_node, put_node) h
  | inr named ↦
      let (indexed, same) =
        upsert-merge_in node_key merge_node (λ b a. refl) n t.nodes h.nodes_indexed in
      rw (named, add_node, put_node)
        (record {
          nodes_indexed = indexed;
          infos_indexed = h.infos_indexed;
          nodes_same = same ∙ ap (merge_in node_key merge_node n) h.nodes_same;
          infos_same = h.infos_same;
        })
]

add_info-Holds :
    (i : NodeInfo) (t : Tables) (log : Plain) → Holds t log → Holds (add_info i t) (put_info i log)
unfolding add_info put_info ensure_node merge_node_info
add_info-Holds i t log h = elim (Bool-cases (i.node_guid == [])) [
  | inl empty ↦ rw (empty, add_info, put_info) h
  | inr named ↦
      let (added, same_nodes) =
        ensure-add_in node_key (bare_node i.node_guid) t.nodes h.nodes_indexed in
      let (indexed, same) =
        upsert-merge_in info_key merge_node_info (λ b a. refl) i t.infos h.infos_indexed in
      rw (named, add_info, put_info)
        (record {
          nodes_indexed = added;
          infos_indexed = indexed;
          nodes_same = same_nodes ∙ ap (add_in node_key (bare_node i.node_guid)) h.nodes_same;
          infos_same = same ∙ ap (merge_in info_key merge_node_info i) h.infos_same;
        })
]

add_port-Holds :
    (p : Port) (t : Tables) (log : Plain) → Holds t log → Holds (add_port p t) (put_port p log)
unfolding add_port put_port ensure_node
add_port-Holds p t log h = elim (Bool-cases (p.node_guid == [])) [
  | inl empty ↦ rw (empty, add_port, put_port) h
  | inr named ↦
      let (added, same_nodes) =
        ensure-add_in node_key (bare_node p.node_guid) t.nodes h.nodes_indexed in
      rw (named, add_port, put_port)
        (record {
          nodes_indexed = added;
          infos_indexed = h.infos_indexed;
          nodes_same = same_nodes ∙ ap (add_in node_key (bare_node p.node_guid)) h.nodes_same;
          infos_same = h.infos_same;
        })
]

add_nodes-Holds :
    (ns : List Node) (t : Tables) (log : Plain)
    → Holds t log
    → Holds (add_nodes ns t) (put_nodes ns log)
unfolding add_nodes put_nodes
add_nodes-Holds [] t log h = h
add_nodes-Holds (n ∷ ns) t log h = add_nodes-Holds ns _ _ (add_node-Holds (trim_node n) t log h)

add_infos-Holds :
    (is : List NodeInfo) (t : Tables) (log : Plain)
    → Holds t log
    → Holds (add_infos is t) (put_infos is log)
unfolding add_infos put_infos
add_infos-Holds [] t log h = h
add_infos-Holds (i ∷ is) t log h = add_infos-Holds is _ _ (add_info-Holds (trim_info i) t log h)

add_ports-Holds :
    (ps : List Port) (t : Tables) (log : Plain)
    → Holds t log
    → Holds (add_ports ps t) (put_ports ps log)
unfolding add_ports put_ports
add_ports-Holds [] t log h = h
add_ports-Holds (p ∷ ps) t log h = add_ports-Holds ps _ _ (add_port-Holds (trim_port p) t log h)

-- The maps of `finalizeParsedLog` change nothing of its nodes and infos but the time they take: these are
-- what the same loops make on plain lists, where a record is merged into the first one with its
-- GUID, or appended if there is none.
pub finalize-reference :
    (parsed : ParsedLog)
    → ((finalize_parsed_log parsed).nodes ≡ (reference parsed).nodes)
      × ((finalize_parsed_log parsed).nodes_info ≡ (reference parsed).infos)
unfolding finalize_parsed_log tables_of reference numbered
finalize-reference parsed =
    let none_yet : Holds no_tables (record { nodes = []; infos = [] }) = record {
      nodes_indexed = refl;
      infos_indexed = refl;
      nodes_same = refl;
      infos_same = refl;
    } in
    let h =
      add_ports-Holds parsed.ports _ _
        (add_infos-Holds parsed.nodes_info _ _ (add_nodes-Holds parsed.nodes _ _ none_yet)) in
    (h.nodes_same, h.infos_same)
