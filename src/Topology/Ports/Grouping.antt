-- ===== src/Topology/Ports/Grouping.antt =====
-- What holds of every port holds of the ports that are filtered, sorted and grouped.
use microservice_log_parser.Prelude.{
  List, [], ◌∷◌, map, ◌≡◌, refl, inl, inr, true, some, arith, All, All-append, Bool-cases,
  Option-cases,
}
use microservice_log_parser.Prelude.Eq.{contains}
use microservice_log_parser.Prelude.Int.{ℤ, int_eq}
use microservice_log_parser.Prelude.Text.{Text, text_eq}
use microservice_log_parser.Prelude.Assoc.{Assoc, lookup, lookup_or, All-insert, All-lookup_or}
use microservice_log_parser.Prelude.Sort.{All-sort_by}
use microservice_log_parser.Topology.Model.{Node, Port}
use microservice_log_parser.Topology.Kinds.{normalize_kind}
use microservice_log_parser.Topology.Ports.{
  is_active_port, active_for, active_ports_for_kinds, port_less, sort_ports, collect_by_node_id,
  group_ports_by_node_id,
}

-- An active port whose node is known and of the given kind.
pub record IsUsable (kind : Text) (m : Assoc ℤ Node) (p : Port) : Type 0 where
  pub node : Node
  pub active : is_active_port p ≡ true
  pub known : lookup p.node_id m ≡ some node
  pub kind_of : normalize_kind node.node_kind ≡ kind

contains-one : (k j : Text) → contains (k ∷ []) j ≡ true → j ≡ k
unfolding contains
contains-one k j h = ground (arith, text_eq.means k j)

active_for-IsUsable :
    (kind : Text) (m : Assoc ℤ Node) (p : Port)
    → active_for (kind ∷ []) m p ≡ true
    → IsUsable kind m p
unfolding active_for
active_for-IsUsable kind m p h = elim (Option-cases (lookup p.node_id m)) [
  | inl absent ↦ absurd (ground (arith, absent))
  | inr (n, found) ↦ record {
    node = n;
    active = ground arith;
    known = found;
    kind_of = contains-one kind _ (ground (arith, found));
  }
]

pub active_ports-IsUsable :
    (kind : Text) (m : Assoc ℤ Node) (Q : Port → Type 0) (ports : List Port)
    → All Q ports
    → All (λ p. Q p × IsUsable kind m p) (active_ports_for_kinds ports m (kind ∷ []))
unfolding active_ports_for_kinds
active_ports-IsUsable kind m Q [] q = tt
active_ports-IsUsable kind m Q (p ∷ ports) q = elim (Bool-cases (active_for (kind ∷ []) m p)) [
  | inl act ↦
      rw act ((q.0, active_for-IsUsable kind m p act), active_ports-IsUsable kind m Q ports q.1)
  | inr out ↦ rw out (active_ports-IsUsable kind m Q ports q.1)
]

pub All-sort_ports :
    (P : Port → Type 0) (ports : List Port) → All P ports → All P (sort_ports ports)
unfolding sort_ports
All-sort_ports P ports h = All-sort_by port_less P ports h

-- Each list of the map holds ports of its key, all of which satisfy `P`.
abbrev Grouped : (Port → Type 0) → Assoc ℤ (List Port) → Type 0
Grouped P = All (λ e. All (λ p. P p × (p.node_id ≡ e.0)) e.1)

collect_by_node_id-Grouped :
    (P : Port → Type 0) (ports : List Port) (out : Assoc ℤ (List Port))
    → All P ports
    → Grouped P out
    → Grouped P (collect_by_node_id ports out)
unfolding collect_by_node_id
collect_by_node_id-Grouped P [] out h g = g
collect_by_node_id-Grouped P (p ∷ ports) out h g = collect_by_node_id-Grouped P ports _ h.1 (
    All-insert _ p.node_id _ out g (
      All-append _ (lookup_or [] p.node_id out) (p ∷ [])
        (All-lookup_or (λ e. All (λ q. P q × (q.node_id ≡ e.0)) e.1) [] p.node_id out g tt)
        ((h.0, refl), tt)))

sort_each-Grouped :
    (P : Port → Type 0) (out : Assoc ℤ (List Port))
    → Grouped P out
    → Grouped P (map (λ e. (e.0, sort_ports e.1)) out)
sort_each-Grouped P [] g = tt
sort_each-Grouped P (e ∷ out) g = (All-sort_ports _ e.1 g.0, sort_each-Grouped P out g.1)

-- The ports filed under a node are ports of that node.
pub group_ports_by_node_id-All :
    (P : Port → Type 0) (ports : List Port) (k : ℤ)
    → All P ports
    → All (λ p. P p × (p.node_id ≡ k)) (lookup_or [] k (group_ports_by_node_id ports))
unfolding group_ports_by_node_id
group_ports_by_node_id-All P ports k h =
    All-lookup_or (λ e. All (λ q. P q × (q.node_id ≡ e.0)) e.1) [] k _
      (sort_each-Grouped P _ (collect_by_node_id-Grouped P ports [] h tt)) tt
