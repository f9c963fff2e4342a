-- ===== src/Topology/Edges/Disjoint.antt =====
-- No switch port stands in two edges, and every edge joins ports that may be joined.
use microservice_log_parser.Prelude.{List, [], ◌∷◌, ◌≡◌, sym, true, All, Among, All-map, All-weaken}
use microservice_log_parser.Prelude.Eq.{Distinct}
use microservice_log_parser.Prelude.Int.{int_eq}
use microservice_log_parser.Prelude.Text.{Text, text_eq}
use microservice_log_parser.Prelude.Assoc.{lookup_or, All-lookup, All-lookup_or, lookup_or-some}
use microservice_log_parser.Prelude.Sort.{sort_by, All-sort_by}
use microservice_log_parser.Topology.Model.{Node, Port}
use microservice_log_parser.Topology.Kinds.{host, switch, normalize_kind}
use microservice_log_parser.Topology.Ports.{
  is_active_port, active_ports_for_kinds, sort_ports, group_ports_by_node_id,
}
use microservice_log_parser.Topology.Ports.Grouping.{
  IsUsable, active_ports-IsUsable, All-sort_ports, group_ports_by_node_id-All,
}
use microservice_log_parser.Topology.Edges.{
  NodeMaps, no_edges, no_nodes, zero_node, node_less, index_nodes, edges_from, build_edges,
}
use microservice_log_parser.Topology.Edges.Index.{index_nodes-IsIndex}
use microservice_log_parser.Topology.Edges.Steps.{connect_hosts-Traced, connect_switches-Traced}
use microservice_log_parser.Topology.Edges.Trace.{
  Link, host_link, backbone_link, edges_of, switch_port_ids, Traced, Traced-trans,
}

-- An active port of the list, on a node of the list that has the given kind.
pub record IsAttached (kind : Text) (nodes : List Node) (ports : List Port) (n : Node) (p : Port)
    : Type 0 where
  pub of_nodes : Among n nodes
  pub of_kind : normalize_kind n.node_kind ≡ kind
  pub of_ports : Among p ports
  pub active : is_active_port p ≡ true
  pub own : p.node_id ≡ n.id

-- A host edge joins a host to a switch, a backbone edge joins two switches.
abbrev pub IsJoined : List Node → List Port → Link → Type 0
IsJoined nodes ports (host_link a p b q) =
    IsAttached host nodes ports a p × IsAttached switch nodes ports b q
IsJoined nodes ports (backbone_link a p b q) =
    IsAttached switch nodes ports a p × IsAttached switch nodes ports b q

module _ (nodes : List Node) (ports : List Port) where
  maps : NodeMaps
  maps = index_nodes nodes no_nodes

  -- The node that the map holds for a usable port.
  usable-IsAttached :
      (kind : Text) (p : Port)
      → Among p ports
      → IsUsable kind maps.nodes_by_id p
      → IsAttached kind nodes ports (lookup_or zero_node p.node_id maps.nodes_by_id) p
  unfolding maps
  usable-IsAttached kind p m u =
      let e = All-lookup _ p.node_id u.node _ (index_nodes-IsIndex nodes).by_id u.known in
      rw (lookup_or-some zero_node u.node p.node_id maps.nodes_by_id u.known) (record {
        of_nodes = e.1;
        of_kind = u.kind_of;
        of_ports = m;
        active = u.active;
        own = sym e.0;
      })

  abbrev UsableAmong : Text → Port → Type 0
  UsableAmong kind p = Among p ports × IsUsable kind maps.nodes_by_id p

  usable_ports :
      (kind : Text)
      → All
          (UsableAmong kind)
          (sort_ports (active_ports_for_kinds ports maps.nodes_by_id (kind ∷ [])))
  usable_ports kind =
      All-sort_ports _ _
        (active_ports-IsUsable kind maps.nodes_by_id _ ports (All-weaken ports (λ p m. m)))

  -- A switch of the map, and one of the ports that are filed under it.
  abbrev SwitchPort : Node → Port → Type 0
  SwitchPort a p = IsAttached switch nodes ports a p

  switches_attached :
      All
        (λ a. All (SwitchPort a) (
          lookup_or [] a.id (
            group_ports_by_node_id
              (sort_ports (active_ports_for_kinds ports maps.nodes_by_id (switch ∷ []))))))
        (sort_by node_less (lookup_or [] switch maps.nodes_by_kind))
  unfolding maps
  switches_attached =
      All-map
        (λ a ha.
          All-map
            (λ p hp. record {
              of_nodes = ha.1;
              of_kind = ha.0;
              of_ports = hp.0.0;
              active = hp.0.1.active;
              own = hp.1;
            })
            _ (group_ports_by_node_id-All _ _ a.id (usable_ports switch)))
        _
        (All-sort_by node_less _ _ (
          All-lookup_or (λ e. All (λ n. (normalize_kind n.node_kind ≡ e.0) × Among n nodes) e.1) []
            switch _ (index_nodes-IsIndex nodes).by_kind tt))

  edges-Traced : Traced (IsJoined nodes ports) no_edges (
      edges_from maps
        (sort_ports (active_ports_for_kinds ports maps.nodes_by_id (host ∷ [])))
        (sort_ports (active_ports_for_kinds ports maps.nodes_by_id (switch ∷ []))))
  unfolding edges_from
  edges-Traced =
      Traced-trans
        (connect_hosts-Traced _ _ _ no_edges (
          All-map
            (λ h hh.
              All-map
                (λ s hs. (usable-IsAttached host h hh.0 hh.1, usable-IsAttached switch s hs.0 hs.1))
                _ (usable_ports switch))
            _ (usable_ports host)))
        (connect_switches-Traced SwitchPort (λ a p b q hp hq. (hp, hq)) _ _ _ switches_attached)

  -- The edges are made of links. No switch port, told by its id, is used twice, by one link or by
  -- two, and each link joins a host to a switch or two switches, by active ports of the input that
  -- are the nodes' own.
  pub build_edges_disjoint :
      (links : List Link) × (build_edges nodes ports ≡ edges_of links)
      × Distinct (switch_port_ids links)
      × All (IsJoined nodes ports) links
  unfolding build_edges maps
  build_edges_disjoint =
      (edges-Traced.links, edges-Traced.made, edges-Traced.once, edges-Traced.sound)
