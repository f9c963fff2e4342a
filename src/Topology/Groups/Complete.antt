-- ===== src/Topology/Groups/Complete.antt =====
-- Every node of a topology stands in a group; for `GetTopology` and `groupsFromMap` of
-- log-services/topology/core/service.go.
use microservice_log_parser.Prelude.{
  List, [], ◌∷◌, ◌++◌, ◌≡◌, inl, inr, refl, sym, ap, subst, ◌∙◌, true, false, Bool-cases, some,
  Option-cases, map, Among,
}
use microservice_log_parser.Prelude.Eq.{◌==◌, ==_sound, ==_refl, contains}
use microservice_log_parser.Prelude.Text.{Text, text_eq, text_lt}
use microservice_log_parser.Prelude.Assoc.{Assoc, keys, lookup, All-lookup}
use microservice_log_parser.Prelude.Sort.{insert_sorted, sort_by}
use microservice_log_parser.Topology.Model.{Node, TopologyGroup}
use microservice_log_parser.Topology.Kinds.{normalize_kind}
use microservice_log_parser.Topology.Groups.{
  PortCounts, empty_build, add_nodes, groups_in, groups_from_map, kind_order, unlisted,
}
use microservice_log_parser.Topology.Groups.Members.{
  of_kind, ids, ids_of, IsKeyed, add_nodes-ids, add_nodes-IsKeyed,
}

module _ {A : Type 0} where
  Among-left : (a : A) (xs ys : List A) → Among a xs → Among a (xs ++ ys)
  Among-left a [] ys m = absurd m
  Among-left a (x ∷ xs) ys (inl e) = inl e
  Among-left a (x ∷ xs) ys (inr m) = inr (Among-left a xs ys m)

  Among-right : (a : A) (xs ys : List A) → Among a ys → Among a (xs ++ ys)
  Among-right a [] ys m = m
  Among-right a (x ∷ xs) ys m = inr (Among-right a xs ys m)

contains-Among : (xs : List Text) (a : Text) → contains xs a ≡ true → Among a xs
unfolding contains
contains-Among [] a h = absurd (cc h)
contains-Among (x ∷ xs) a h = elim (Bool-cases (x == a)) [
  | inl e ↦ inl (sym (==_sound x a e))
  | inr e ↦ inr (contains-Among xs a (rw (e) at h))
]

behind :
    (x y : Text) (ys : List Text) (a : Text)
    → (Among a (x ∷ ys) → Among a (insert_sorted text_lt x ys))
    → Among a (x ∷ y ∷ ys)
    → Among a (y ∷ insert_sorted text_lt x ys)
behind x y ys a rest (inl same) = inr (rest (inl same))
behind x y ys a rest (inr (inl same)) = inl same
behind x y ys a rest (inr (inr later)) = inr (rest (inr later))

insert_sorted-Among :
    (x : Text) (xs : List Text) (a : Text) → Among a (x ∷ xs) → Among a (insert_sorted text_lt x xs)
unfolding insert_sorted
insert_sorted-Among x [] a m = m
insert_sorted-Among x (y ∷ ys) a m =
    let put = behind x y ys a (insert_sorted-Among x ys a) m in
    elim (Bool-cases (text_lt y x)) [
      | inl e ↦ rw (insert_sorted, e) put
      | inr e ↦ rw (insert_sorted, e) m
    ]

sort_by-Among : (xs : List Text) (a : Text) → Among a xs → Among a (sort_by text_lt xs)
unfolding sort_by
sort_by-Among [] a m = m
sort_by-Among (x ∷ xs) a (inl e) = insert_sorted-Among x (sort_by text_lt xs) a (inl e)
sort_by-Among (x ∷ xs) a (inr m) =
    insert_sorted-Among x (sort_by text_lt xs) a (inr (sort_by-Among xs a m))

lookup-Among :
    (k : Text) (g : TopologyGroup) (m : Assoc Text TopologyGroup)
    → lookup k m ≡ some g
    → Among k (keys m)
unfolding lookup
lookup-Among k g [] h = absurd (cc h)
lookup-Among k g ((j, v) ∷ m) h = elim (Bool-cases (j == k)) [
  | inl e ↦ inl (sym (==_sound j k e))
  | inr e ↦ inr (lookup-Among k g m (rw (e) at h))
]

unlisted-Among :
    (ks : List Text) (k : Text) → contains kind_order k ≡ false → Among k ks → Among k (unlisted ks)
unfolding unlisted
unlisted-Among [] k h m = absurd m
unlisted-Among (x ∷ ks) k h (inl e) =
    let here : contains kind_order x ≡ false = ap (contains kind_order) (sym e) ∙ h in
    rw (unlisted, here) (inl e)
unlisted-Among (x ∷ ks) k h (inr m) = elim (Bool-cases (contains kind_order x)) [
  | inl e ↦ rw (unlisted, e) (unlisted-Among ks k h m)
  | inr e ↦ rw (unlisted, e) (inr (unlisted-Among ks k h m))
]

groups_in-Among :
    (kinds : List Text) (k : Text) (g : TopologyGroup) (m : Assoc Text TopologyGroup)
    → lookup k m ≡ some g
    → Among k kinds
    → Among g (groups_in kinds m)
unfolding groups_in
groups_in-Among [] k g m h a = absurd a
groups_in-Among (x ∷ kinds) k g m h (inl e) =
    let here : lookup x m ≡ some g = ap (λ j. lookup j m) (sym e) ∙ h in
    rw (groups_in, here) (inl refl)
groups_in-Among (x ∷ kinds) k g m h (inr a) = elim (Option-cases (lookup x m)) [
  | inl e ↦ rw (groups_in, e) (groups_in-Among kinds k g m h a)
  | inr (v, e) ↦ rw (groups_in, e) (inr (groups_in-Among kinds k g m h a))
]

of_kind-Among :
    (kind : Text) (n : Node) (nodes : List Node)
    → normalize_kind n.node_kind ≡ kind
    → Among n nodes
    → Among n.id (map (λ n. n.id) (of_kind kind nodes))
of_kind-Among kind n [] k m = absurd m
of_kind-Among kind n (x ∷ nodes) k (inl e) =
    let here : (normalize_kind x.node_kind == kind) ≡ true =
      ap (λ j. j == kind) (ap (λ y. normalize_kind y.node_kind) (sym e) ∙ k) ∙ ==_refl kind in
    rw (here) (inl (ap (λ y. y.id) e))
of_kind-Among kind n (x ∷ nodes) k (inr m) =
    elim (Bool-cases (normalize_kind x.node_kind == kind)) [
      | inl e ↦ rw (e) (inr (of_kind-Among kind n nodes k m))
      | inr e ↦ rw (e) (of_kind-Among kind n nodes k m)
    ]

-- A group that stands in the map stands in the list that is made of it.
groups_from_map-Among :
    (k : Text) (g : TopologyGroup) (m : Assoc Text TopologyGroup)
    → lookup k m ≡ some g
    → Among g (groups_from_map m)
unfolding groups_from_map
groups_from_map-Among k g m h =
    let rest = sort_by text_lt (unlisted (keys m)) in
    elim (Bool-cases (contains kind_order k)) [
      | inl e ↦
          Among-left g (groups_in kind_order m) (groups_in rest m)
            (groups_in-Among kind_order k g m h (contains-Among kind_order k e))
      | inr e ↦ Among-right g (groups_in kind_order m) (groups_in rest m) (
          groups_in-Among rest k g m h (
            sort_by-Among (unlisted (keys m)) k
              (unlisted-Among (keys m) k e (lookup-Among k g m h))))
    ]

pub groups_from_map_complete :
    (c : PortCounts) (nodes : List Node) (n : Node)
    → Among n nodes
    → (g : TopologyGroup) × Among g (groups_from_map (add_nodes c nodes empty_build).groups_by_kind)
      × (g.kind ≡ normalize_kind n.node_kind)
      × Among n.id g.node_ids
unfolding lookup
groups_from_map_complete c nodes n m =
    let kind = normalize_kind n.node_kind in
    let groups = (add_nodes c nodes empty_build).groups_by_kind in
    let in_ids : Among n.id (ids kind groups) =
      subst (Among n.id) (sym (add_nodes-ids c nodes empty_build kind))
        (of_kind-Among kind n nodes refl m) in
    elim (Option-cases (lookup kind groups)) [
      | inl e ↦ absurd (subst (Among n.id) (ap ids_of e) in_ids)
      | inr (g, e) ↦ (
        g,
        groups_from_map-Among kind g groups e,
        All-lookup IsKeyed kind g groups (add_nodes-IsKeyed c nodes empty_build tt) e,
        subst (Among n.id) (ap ids_of e) in_ids,
      )
    ]
