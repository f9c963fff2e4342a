-- ===== src/Parser/Finalize/Nodes.antt =====
-- Which nodes the finalised log has, and in which order.
use microservice_log_parser.Prelude.{
  List, [], ◌∷◌, ◌++◌, map, ◌≡◌, refl, sym, ap, ◌∙◌, inl, inr, false, Bool-cases, if◌then◌else◌,
}
use microservice_log_parser.Prelude.Eq.{◌==◌}
use microservice_log_parser.Prelude.Text.{Text, text_eq, trim_space}
use microservice_log_parser.Parser.Model.{Node, NodeInfo, Port, ParsedLog}
use microservice_log_parser.Parser.Merge.{merge_node}
use microservice_log_parser.Parser.Table.Keys.{add_key, upsert-keys, ensure-keys}
use microservice_log_parser.Parser.Finalize.{
  Tables, no_tables, bare_node, ensure_node, trim_node, trim_info, trim_port, add_node, add_info,
  add_port, add_nodes, add_infos, add_ports, tables_of, finalize_parsed_log,
}
use microservice_log_parser.Parser.Finalize.Consistent.{
  Inv, node_guids, add_node-Inv, add_info-Inv, add_port-Inv, no_tables-Inv,
}

-- The GUIDs of a list that are not empty, each at its first place, behind those of `seen`.
abbrev pub first_places : List Text → List Text → List Text
first_places [] seen = seen
first_places (g ∷ gs) seen = first_places gs (if g == [] then seen else add_key g seen)

-- The trimmed GUIDs of all records: of the nodes, then of the infos, then of the ports.
abbrev pub named_guids : ParsedLog → List Text
named_guids parsed =
    map (λ n. trim_space n.node_guid) parsed.nodes
    ++ (map (λ i. trim_space i.node_guid) parsed.nodes_info
        ++ map (λ p. trim_space p.node_guid) parsed.ports)

abbrev grow : Text → List Text → List Text
grow g seen = if g == [] then seen else add_key g seen

first_places-append :
    (gs hs seen : List Text) → first_places (gs ++ hs) seen ≡ first_places hs (first_places gs seen)
first_places-append [] hs seen = refl
first_places-append (g ∷ gs) hs seen = first_places-append gs hs (grow g seen)

add_node-guids :
    (n : Node) (t : Tables)
    → Inv t
    → node_guids (add_node n t).nodes.items ≡ grow n.node_guid (node_guids t.nodes.items)
unfolding add_node merge_node
add_node-guids n t v = elim (Bool-cases (n.node_guid == [])) [
  | inl empty ↦ rw (empty, add_node) refl
  | inr named ↦
      rw (named, add_node)
        (upsert-keys (λ n. n.node_guid) merge_node (λ b a. refl) n t.nodes v.nodes_indexed)
]

ensure_node-guids :
    (k : Text) (t : Tables)
    → (k == []) ≡ false
    → Inv t
    → node_guids (ensure_node k t.nodes).items ≡ add_key k (node_guids t.nodes.items)
unfolding ensure_node
ensure_node-guids k t named v =
    rw named (ensure-keys (λ n. n.node_guid) (bare_node k) t.nodes v.nodes_indexed)

add_info-guids :
    (i : NodeInfo) (t : Tables)
    → Inv t
    → node_guids (add_info i t).nodes.items ≡ grow i.node_guid (node_guids t.nodes.items)
unfolding add_info
add_info-guids i t v = elim (Bool-cases (i.node_guid == [])) [
  | inl empty ↦ rw (empty, add_info) refl
  | inr named ↦ rw (named, add_info) (ensure_node-guids i.node_guid t named v)
]

add_port-guids :
    (p : Port) (t : Tables)
    → Inv t
    → node_guids (add_port p t).nodes.items ≡ grow p.node_guid (node_guids t.nodes.items)
unfolding add_port
add_port-guids p t v = elim (Bool-cases (p.node_guid == [])) [
  | inl empty ↦ rw (empty, add_port) refl
  | inr named ↦ rw (named, add_port) (ensure_node-guids p.node_guid t named v)
]

-- From `t` to `t'` the nodes grew by the GUIDs `gs`.
record Grown (gs : List Text) (t t' : Tables) : Type 0 where
  inv : Inv t'
  guids : node_guids t'.nodes.items ≡ first_places gs (node_guids t.nodes.items)

add_nodes-Grown :
    (ns : List Node) (t : Tables)
    → Inv t
    → Grown (map (λ n. trim_space n.node_guid) ns) t (add_nodes ns t)
unfolding add_nodes
add_nodes-Grown [] t v = record { inv = v; guids = refl }
add_nodes-Grown (n ∷ ns) t v =
    let rest = add_nodes-Grown ns (add_node (trim_node n) t) (add_node-Inv (trim_node n) t v) in
    record {
      inv = rest.inv;
      guids =
          rest.guids
          ∙ ap (first_places (map (λ n. trim_space n.node_guid) ns))
              (add_node-guids (trim_node n) t v);
    }

add_infos-Grown :
    (is : List NodeInfo) (t : Tables)
    → Inv t
    → Grown (map (λ i. trim_space i.node_guid) is) t (add_infos is t)
unfolding add_infos
add_infos-Grown [] t v = record { inv = v; guids = refl }
add_infos-Grown (i ∷ is) t v =
    let rest = add_infos-Grown is (add_info (trim_info i) t) (add_info-Inv (trim_info i) t v) in
    record {
      inv = rest.inv;
      guids =
          rest.guids
          ∙ ap (first_places (map (λ i. trim_space i.node_guid) is))
              (add_info-guids (trim_info i) t v);
    }

add_ports-Grown :
    (ps : List Port) (t : Tables)
    → Inv t
    → Grown (map (λ p. trim_space p.node_guid) ps) t (add_ports ps t)
unfolding add_ports
add_ports-Grown [] t v = record { inv = v; guids = refl }
add_ports-Grown (p ∷ ps) t v =
    let rest = add_ports-Grown ps (add_port (trim_port p) t) (add_port-Inv (trim_port p) t v) in
    record {
      inv = rest.inv;
      guids =
          rest.guids
          ∙ ap (first_places (map (λ p. trim_space p.node_guid) ps))
              (add_port-guids (trim_port p) t v);
    }

-- The nodes of the finalised log are those that any record names: their GUIDs are the trimmed GUIDs
-- of the node, info and port records, in this order, without the empty ones, each at its first place.
pub finalize-guids :
    (parsed : ParsedLog)
    → node_guids (finalize_parsed_log parsed).nodes ≡ first_places (named_guids parsed) []
unfolding finalize_parsed_log tables_of
finalize-guids parsed =
    let ns = add_nodes-Grown parsed.nodes no_tables no_tables-Inv in
    let is = add_infos-Grown parsed.nodes_info _ ns.inv in
    let ps = add_ports-Grown parsed.ports _ is.inv in
    let nodes = map (λ n. trim_space n.node_guid) parsed.nodes in
    let infos = map (λ i. trim_space i.node_guid) parsed.nodes_info in
    let ports = map (λ p. trim_space p.node_guid) parsed.ports in
    ps.guids
    ∙ ap (first_places ports) (is.guids ∙ ap (first_places infos) ns.guids)
    ∙ sym (
        first_places-append nodes (infos ++ ports) []
        ∙ first_places-append infos ports (first_places nodes []))
