-- ===== src/Topology/Groups/Members.antt =====
-- Which nodes the groups of a topology hold, and what the summary counts; for
-- log-services/topology/core/service.go.
use microservice_log_parser.Prelude.{
  ℕ, suc, ◌+◌, ◌<◌, List, [], ◌∷◌, ◌++◌, ◌≡◌, inl, inr, refl, sym, ap, ◌∙◌, Bool-cases, Option,
  none, some, Option-cases, map, select, length, All, All-append, All-map, if◌then◌else◌, arith,
}
use microservice_log_parser.Prelude.Eq.{◌==◌, ==_sound}
use microservice_log_parser.Prelude.Int.{ℤ, pos, int_eq, to_int32, to_int32-pos, ◌+ℤ◌}
use microservice_log_parser.Prelude.Text.{Text, text_eq, text_lt}
use microservice_log_parser.Prelude.Assoc.{
  Assoc, keys, lookup, lookup_or, lookup-insert, All-insert, All-lookup, All-lookup_or,
}
use microservice_log_parser.Prelude.Sort.{sort_by}
use microservice_log_parser.Topology.Model.{Node, TopologyGroup}
use microservice_log_parser.Topology.Kinds.{host, switch, normalize_kind}
use microservice_log_parser.Topology.Ports.{increment}
use microservice_log_parser.Topology.Groups.{
  PortCounts, BuildState, empty_build, new_group, join_group, add_node, add_nodes, groups_in,
  groups_from_map, kind_order, unlisted,
}

-- The nodes whose kind is this one once it is normalised, in order.
abbrev pub of_kind : Text → List Node → List Node
of_kind kind nodes = select (λ n. normalize_kind n.node_kind == kind) nodes

abbrev pub ids_of : Option TopologyGroup → List ℤ
ids_of none = []
ids_of (some group) = group.node_ids

abbrev pub ids : Text → Assoc Text TopologyGroup → List ℤ
ids kind m = ids_of (lookup kind m)

lookup_or-ids :
    (kind : Text) (m : Assoc Text TopologyGroup)
    → (lookup_or (new_group kind) kind m).node_ids ≡ ids kind m
unfolding lookup_or
lookup_or-ids kind m = elim (Option-cases (lookup kind m)) [
  | inl e ↦ rw (lookup_or, e)
  | inr (g, e) ↦ rw (lookup_or, e)
]

join_group-ids :
    (kind j : Text) (node : Node) (m : Assoc Text TopologyGroup)
    → ids j (join_group kind node m) ≡ (if kind == j then ids j m ++ node.id ∷ [] else ids j m)
unfolding join_group
join_group-ids kind j node m = elim (Bool-cases (kind == j)) [
  | inl e ↦
      let same = ap (λ k. ids k m ++ node.id ∷ []) (==_sound kind j e) in
      let joined = ap (λ l. l ++ node.id ∷ []) (lookup_or-ids kind m) in
      rw (lookup-insert kind j _ m, e) (joined ∙ same)
  | inr e ↦ rw (lookup-insert kind j _ m, e) refl
]

append_assoc : (xs ys zs : List ℤ) → (xs ++ ys) ++ zs ≡ xs ++ (ys ++ zs)
append_assoc [] ys zs = refl
append_assoc (x ∷ xs) ys zs = ap (◌∷◌ x) (append_assoc xs ys zs)

append_nil : (xs : List ℤ) → xs ++ [] ≡ xs
append_nil [] = refl
append_nil (x ∷ xs) = ap (◌∷◌ x) (append_nil xs)

pub add_nodes-ids :
    (c : PortCounts) (nodes : List Node) (st : BuildState) (kind : Text)
    → ids kind (add_nodes c nodes st).groups_by_kind
      ≡ ids kind st.groups_by_kind ++ map (λ n. n.id) (of_kind kind nodes)
unfolding add_nodes add_node
add_nodes-ids c [] st kind = sym (append_nil (ids kind st.groups_by_kind))
add_nodes-ids c (node ∷ nodes) st kind =
    let rest = add_nodes-ids c nodes (add_node c st node) kind in
    let here = join_group-ids (normalize_kind node.node_kind) kind node st.groups_by_kind in
    elim (Bool-cases (normalize_kind node.node_kind == kind)) [
      | inl e ↦
          let joined = rw (e) at here in
          let moved =
            append_assoc (ids kind st.groups_by_kind) (node.id ∷ [])
              (map (λ n. n.id) (of_kind kind nodes)) in
          rw (e) (rest ∙ ap (λ l. l ++ map (λ n. n.id) (of_kind kind nodes)) joined ∙ moved)
      | inr e ↦
          let left = rw (e) at here in
          rw (e) (rest ∙ ap (λ l. l ++ map (λ n. n.id) (of_kind kind nodes)) left)
    ]

-- Every group stands under its own kind.
abbrev pub IsKeyed : Text × TopologyGroup → Type 0
IsKeyed (kind, group) = group.kind ≡ kind

join_group-IsKeyed :
    (kind : Text) (node : Node) (m : Assoc Text TopologyGroup)
    → All IsKeyed m
    → All IsKeyed (join_group kind node m)
unfolding join_group
join_group-IsKeyed kind node m h =
    All-insert IsKeyed kind _ m h (All-lookup_or IsKeyed (new_group kind) kind m h refl)

pub add_nodes-IsKeyed :
    (c : PortCounts) (nodes : List Node) (st : BuildState)
    → All IsKeyed st.groups_by_kind
    → All IsKeyed (add_nodes c nodes st).groups_by_kind
unfolding add_nodes add_node
add_nodes-IsKeyed c [] st h = h
add_nodes-IsKeyed c (node ∷ nodes) st h =
    add_nodes-IsKeyed c nodes (add_node c st node)
      (join_group-IsKeyed (normalize_kind node.node_kind) node st.groups_by_kind h)

groups_in-found :
    (kinds : List Text) (m : Assoc Text TopologyGroup)
    → All IsKeyed m
    → All (λ g. g.node_ids ≡ ids g.kind m) (groups_in kinds m)
unfolding groups_in
groups_in-found [] m h = tt
groups_in-found (kind ∷ kinds) m h = elim (Option-cases (lookup kind m)) [
  | inl e ↦ rw (groups_in, e) (groups_in-found kinds m h)
  | inr (g, e) ↦
      let keyed = All-lookup IsKeyed kind g m h e in
      let found = ap ids_of (ap (λ k. lookup k m) keyed ∙ e) in
      rw (groups_in, e) (sym found, groups_in-found kinds m h)
]

pub groups_from_map-members :
    (c : PortCounts) (nodes : List Node)
    → All
        (λ g. g.node_ids ≡ map (λ n. n.id) (of_kind g.kind nodes))
        (groups_from_map (add_nodes c nodes empty_build).groups_by_kind)
unfolding groups_from_map
groups_from_map-members c nodes =
    let m = (add_nodes c nodes empty_build).groups_by_kind in
    let keyed = add_nodes-IsKeyed c nodes empty_build tt in
    let found =
      All-append (λ g. g.node_ids ≡ ids g.kind m) (groups_in kind_order m)
        (groups_in (sort_by text_lt (unlisted (keys m))) m) (groups_in-found kind_order m keyed)
        (groups_in-found (sort_by text_lt (unlisted (keys m))) m keyed) in
    All-map (λ g e. e ∙ add_nodes-ids c nodes empty_build g.kind) (groups_from_map m) found

increment-pos : (n : ℕ) → n < 2147483647 → increment (pos n) ≡ pos (suc n)
unfolding increment
increment-pos n h =
    let sum : pos n +ℤ pos 1 ≡ pos (suc n) = unfold ◌+ℤ◌ in ground arith in
    ap to_int32 sum ∙ to_int32-pos (suc n) (omega (arith, h))

pub add_nodes-hosts :
    (c : PortCounts) (nodes : List Node) (st : BuildState) (n : ℕ)
    → st.hosts_count ≡ pos n
    → n + length nodes < 2147483648
    → (add_nodes c nodes st).hosts_count ≡ pos (n + length (of_kind host nodes))
unfolding add_nodes add_node
add_nodes-hosts c [] st n h fits = rw (h) (ap pos (omega arith))
add_nodes-hosts c (node ∷ nodes) st n h fits =
    elim (Bool-cases (normalize_kind node.node_kind == host)) [
      | inl e ↦
          let now : (add_node c st node).hosts_count ≡ pos (suc n) =
            rw (e, h) (increment-pos n (omega (arith, fits))) in
          let rest =
            add_nodes-hosts c nodes (add_node c st node) (suc n) now (omega (arith, fits)) in
          rw (e) (rest ∙ ap pos (omega arith))
      | inr e ↦
          let now : (add_node c st node).hosts_count ≡ pos n = rw (e) h in
          let rest = add_nodes-hosts c nodes (add_node c st node) n now (omega (arith, fits)) in
          rw (e) rest
    ]

pub add_nodes-switches :
    (c : PortCounts) (nodes : List Node) (st : BuildState) (n : ℕ)
    → st.switches_count ≡ pos n
    → n + length nodes < 2147483648
    → (add_nodes c nodes st).switches_count ≡ pos (n + length (of_kind switch nodes))
unfolding add_nodes add_node
add_nodes-switches c [] st n h fits = rw (h) (ap pos (omega arith))
add_nodes-switches c (node ∷ nodes) st n h fits =
    elim (Bool-cases (normalize_kind node.node_kind == switch)) [
      | inl e ↦
          let now : (add_node c st node).switches_count ≡ pos (suc n) =
            rw (e, h) (increment-pos n (omega (arith, fits))) in
          let rest =
            add_nodes-switches c nodes (add_node c st node) (suc n) now (omega (arith, fits)) in
          rw (e) (rest ∙ ap pos (omega arith))
      | inr e ↦
          let now : (add_node c st node).switches_count ≡ pos n = rw (e) h in
          let rest = add_nodes-switches c nodes (add_node c st node) n now (omega (arith, fits)) in
          rw (e) rest
    ]
