-- ===== src/Parser/Finalize/Consistent.antt =====
-- The finalised log is consistent: what the repository asks of a log to save it.
use microservice_log_parser.Prelude.{
  List, [], ◌∷◌, map, ◌≡◌, refl, inl, inr, true, false, arith, All, All-map, Bool-cases,
}
use microservice_log_parser.Prelude.Eq.{◌==◌, contains, Distinct}
use microservice_log_parser.Prelude.Text.{Text, text_eq}
use microservice_log_parser.Parser.Model.{Node, NodeInfo, Port, ParsedLog}
use microservice_log_parser.Parser.Merge.{merge_node, merge_node_info, merge_port}
use microservice_log_parser.Parser.Table.{Table, upsert}
use microservice_log_parser.Parser.Table.Refines.{
  IsIndexed, upsert-merge_in, ensure-add_in, numbered,
}
use microservice_log_parser.Parser.Table.Keys.{
  add_key, contains-add_key, Distinct-add_key, All-add_key, upsert-keys, ensure-keys, upsert-All,
}
use microservice_log_parser.Parser.Finalize.{
  Tables, no_tables, bare_node, ensure_node, trim_node, trim_info, trim_port, port_key, add_node,
  add_info, add_port, add_nodes, add_infos, add_ports, tables_of, finalize_parsed_log,
}

abbrev pub node_guids : List Node → List Text
node_guids = map λ n. n.node_guid

abbrev pub info_guids : List NodeInfo → List Text
info_guids = map λ i. i.node_guid

-- The GUIDs of the nodes are distinct and not empty, no two infos are of one node, and every info
-- and every port belongs to a node of the log.
pub record IsConsistent (parsed : ParsedLog) : Type 0 where
  pub nodes_distinct : Distinct (node_guids parsed.nodes)
  pub nodes_named : All (λ g. (g == []) ≡ false) (node_guids parsed.nodes)
  pub infos_distinct : Distinct (info_guids parsed.nodes_info)
  pub infos_known :
      All (λ i. contains (node_guids parsed.nodes) i.node_guid ≡ true) parsed.nodes_info
  pub ports_known : All (λ p. contains (node_guids parsed.nodes) p.node_guid ≡ true) parsed.ports

pub record Inv (t : Tables) : Type 0 where
  pub nodes_indexed : IsIndexed (λ n. n.node_guid) t.nodes
  pub infos_indexed : IsIndexed (λ i. i.node_guid) t.infos
  nodes_distinct : Distinct (node_guids t.nodes.items)
  nodes_named : All (λ g. (g == []) ≡ false) (node_guids t.nodes.items)
  infos_distinct : Distinct (info_guids t.infos.items)
  infos_known : All (λ i. contains (node_guids t.nodes.items) i.node_guid ≡ true) t.infos.items
  ports_known : All (λ p. contains (node_guids t.nodes.items) p.node_guid ≡ true) t.ports.items

-- What holds of a table of nodes whose GUIDs grew by `k`.
record NodesGrow (k : Text) (t t' : Table Node) : Type 0 where
  indexed : IsIndexed (λ n. n.node_guid) t'
  keys : node_guids t'.items ≡ add_key k (node_guids t.items)

upsert-NodesGrow :
    (n : Node) (t : Table Node)
    → IsIndexed (λ n. n.node_guid) t
    → NodesGrow n.node_guid t (upsert merge_node n.node_guid n t)
unfolding merge_node
upsert-NodesGrow n t v = record {
  indexed = (upsert-merge_in (λ n. n.node_guid) merge_node (λ b a. refl) n t v).0;
  keys = upsert-keys (λ n. n.node_guid) merge_node (λ b a. refl) n t v;
}

ensure_node-NodesGrow :
    (k : Text) (t : Table Node)
    → (k == []) ≡ false
    → IsIndexed (λ n. n.node_guid) t
    → NodesGrow k t (ensure_node k t)
unfolding ensure_node
ensure_node-NodesGrow k t named v = rw named (record {
  indexed = (ensure-add_in (λ n. n.node_guid) (bare_node k) t v).0;
  keys = ensure-keys (λ n. n.node_guid) (bare_node k) t v;
})

module _ (k : Text) (t t' : Table Node) (g : NodesGrow k t t') where
  grown_known :
      (j : Text) → contains (node_guids t.items) j ≡ true → contains (node_guids t'.items) j ≡ true
  grown_known j h = rw g.keys (ground (arith, contains-add_key k j (node_guids t.items)))

  grown_self : contains (node_guids t'.items) k ≡ true
  grown_self =
      rw g.keys (ground (arith, contains-add_key k k (node_guids t.items), text_eq.means k k))

  grown-Distinct : Distinct (node_guids t.items) → Distinct (node_guids t'.items)
  grown-Distinct d = rw g.keys (Distinct-add_key k (node_guids t.items) d)

  grown_named :
      (k == []) ≡ false
      → All (λ g. (g == []) ≡ false) (node_guids t.items)
      → All (λ g. (g == []) ≡ false) (node_guids t'.items)
  grown_named named h =
      rw g.keys (All-add_key (λ g. (g == []) ≡ false) k (node_guids t.items) h named)

pub add_node-Inv : (n : Node) (t : Tables) → Inv t → Inv (add_node n t)
unfolding add_node
add_node-Inv n t v = elim (Bool-cases (n.node_guid == [])) [
  | inl empty ↦ rw (empty, add_node) v
  | inr named ↦
      let g = upsert-NodesGrow n t.nodes v.nodes_indexed in
      let known = grown_known n.node_guid _ _ g in
      rw (named, add_node)
        (record {
          nodes_indexed = g.indexed;
          infos_indexed = v.infos_indexed;
          nodes_distinct = grown-Distinct n.node_guid _ _ g v.nodes_distinct;
          nodes_named = grown_named n.node_guid _ _ g named v.nodes_named;
          infos_distinct = v.infos_distinct;
          infos_known = All-map (λ i. known i.node_guid) t.infos.items v.infos_known;
          ports_known = All-map (λ p. known p.node_guid) t.ports.items v.ports_known;
        })
]

pub add_info-Inv : (i : NodeInfo) (t : Tables) → Inv t → Inv (add_info i t)
unfolding add_info merge_node_info
add_info-Inv i t v = elim (Bool-cases (i.node_guid == [])) [
  | inl empty ↦ rw (empty, add_info) v
  | inr named ↦
      let g = ensure_node-NodesGrow i.node_guid t.nodes named v.nodes_indexed in
      let known = grown_known i.node_guid _ _ g in
      let infos =
        upsert-keys (λ i. i.node_guid) merge_node_info (λ b a. refl) i t.infos v.infos_indexed in
      rw (named, add_info)
        (record {
          nodes_indexed = g.indexed;
          infos_indexed =
              (upsert-merge_in (λ i. i.node_guid) merge_node_info (λ b a. refl) i t.infos
                v.infos_indexed).0;
          nodes_distinct = grown-Distinct i.node_guid _ _ g v.nodes_distinct;
          nodes_named = grown_named i.node_guid _ _ g named v.nodes_named;
          infos_distinct =
              rw infos (Distinct-add_key i.node_guid (info_guids t.infos.items) v.infos_distinct);
          infos_known =
              upsert-All
                (λ i'.
                  contains (node_guids (ensure_node i.node_guid t.nodes).items) i'.node_guid ≡ true)
                merge_node_info i.node_guid i t.infos (λ b h. h) (grown_self i.node_guid _ _ g)
                (All-map (λ i. known i.node_guid) t.infos.items v.infos_known);
          ports_known = All-map (λ p. known p.node_guid) t.ports.items v.ports_known;
        })
]

pub add_port-Inv : (p : Port) (t : Tables) → Inv t → Inv (add_port p t)
unfolding add_port merge_port
add_port-Inv p t v = elim (Bool-cases (p.node_guid == [])) [
  | inl empty ↦ rw (empty, add_port) v
  | inr named ↦
      let g = ensure_node-NodesGrow p.node_guid t.nodes named v.nodes_indexed in
      let known = grown_known p.node_guid _ _ g in
      rw (named, add_port)
        (record {
          nodes_indexed = g.indexed;
          infos_indexed = v.infos_indexed;
          nodes_distinct = grown-Distinct p.node_guid _ _ g v.nodes_distinct;
          nodes_named = grown_named p.node_guid _ _ g named v.nodes_named;
          infos_distinct = v.infos_distinct;
          infos_known = All-map (λ i. known i.node_guid) t.infos.items v.infos_known;
          ports_known =
              upsert-All
                (λ p'.
                  contains (node_guids (ensure_node p.node_guid t.nodes).items) p'.node_guid ≡ true)
                merge_port (port_key p) p t.ports (λ b h. h) (grown_self p.node_guid _ _ g)
                (All-map (λ p. known p.node_guid) t.ports.items v.ports_known);
        })
]

add_nodes-Inv : (ns : List Node) (t : Tables) → Inv t → Inv (add_nodes ns t)
unfolding add_nodes
add_nodes-Inv [] t v = v
add_nodes-Inv (n ∷ ns) t v = add_nodes-Inv ns _ (add_node-Inv (trim_node n) t v)

add_infos-Inv : (is : List NodeInfo) (t : Tables) → Inv t → Inv (add_infos is t)
unfolding add_infos
add_infos-Inv [] t v = v
add_infos-Inv (i ∷ is) t v = add_infos-Inv is _ (add_info-Inv (trim_info i) t v)

add_ports-Inv : (ps : List Port) (t : Tables) → Inv t → Inv (add_ports ps t)
unfolding add_ports
add_ports-Inv [] t v = v
add_ports-Inv (p ∷ ps) t v = add_ports-Inv ps _ (add_port-Inv (trim_port p) t v)

pub no_tables-Inv : Inv no_tables
unfolding numbered
no_tables-Inv = record {
  nodes_indexed = refl;
  infos_indexed = refl;
  nodes_distinct = tt;
  nodes_named = tt;
  infos_distinct = tt;
  infos_known = tt;
  ports_known = tt;
}

tables_of-Inv : (parsed : ParsedLog) → Inv (tables_of parsed)
unfolding tables_of
tables_of-Inv parsed =
    add_ports-Inv parsed.ports _
      (add_infos-Inv parsed.nodes_info _ (add_nodes-Inv parsed.nodes no_tables no_tables-Inv))

-- Whatever was parsed, the finalised log is consistent: its nodes have distinct GUIDs that are not
-- empty, its infos have distinct GUIDs, and each info and each port has the GUID of a node of it.
pub finalize-IsConsistent : (parsed : ParsedLog) → IsConsistent (finalize_parsed_log parsed)
unfolding finalize_parsed_log
finalize-IsConsistent parsed = record {
  nodes_distinct = (tables_of-Inv parsed).nodes_distinct;
  nodes_named = (tables_of-Inv parsed).nodes_named;
  infos_distinct = (tables_of-Inv parsed).infos_distinct;
  infos_known = (tables_of-Inv parsed).infos_known;
  ports_known = (tables_of-Inv parsed).ports_known;
}
