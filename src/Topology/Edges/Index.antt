-- ===== src/Topology/Edges/Index.antt =====
-- What the maps of the nodes hold.
use microservice_log_parser.Prelude.{List, [], ◌∷◌, ◌≡◌, refl, All, All-append, All-weaken, Among}
use microservice_log_parser.Prelude.Int.{int_eq}
use microservice_log_parser.Prelude.Text.{Text, text_eq}
use microservice_log_parser.Prelude.Assoc.{lookup_or, All-insert, All-lookup_or}
use microservice_log_parser.Topology.Model.{Node}
use microservice_log_parser.Topology.Kinds.{normalize_kind}
use microservice_log_parser.Topology.Edges.{NodeMaps, no_nodes, index_nodes}

-- Every entry is a node of the list under its own id, every list holds nodes of its kind.
pub record IsIndex (nodes : List Node) (m : NodeMaps) : Type 0 where
  pub by_id : All (λ e. (e.1.id ≡ e.0) × Among e.1 nodes) m.nodes_by_id
  pub by_kind :
      All (λ e. All (λ n. (normalize_kind n.node_kind ≡ e.0) × Among n nodes) e.1) m.nodes_by_kind

index_nodes-from :
    (all rest : List Node) (m : NodeMaps)
    → All (λ n. Among n all) rest
    → IsIndex all m
    → IsIndex all (index_nodes rest m)
unfolding index_nodes
index_nodes-from all [] m h v = v
index_nodes-from all (n ∷ rest) m h v = index_nodes-from all rest _ h.1 (record {
  by_id = All-insert _ n.id n m.nodes_by_id v.by_id (refl, h.0);
  by_kind = All-insert _ kind _ m.nodes_by_kind v.by_kind (
      All-append _ (lookup_or [] kind m.nodes_by_kind) (n ∷ [])
        (All-lookup_or (λ e. All (λ n. (normalize_kind n.node_kind ≡ e.0) × Among n all) e.1) []
          kind m.nodes_by_kind v.by_kind tt)
        ((refl, h.0), tt));
})
  where
    kind : Text
    kind = normalize_kind n.node_kind

pub index_nodes-IsIndex : (nodes : List Node) → IsIndex nodes (index_nodes nodes no_nodes)
index_nodes-IsIndex nodes =
    index_nodes-from nodes nodes no_nodes (All-weaken nodes (λ n m. m))
      (record { by_id = tt; by_kind = tt })
