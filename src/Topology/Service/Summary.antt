-- ===== src/Topology/Service/Summary.antt =====
-- What the result of `GetTopology` in log-services/topology/core/service.go says of the nodes that were
-- loaded.
use microservice_log_parser.Prelude.{
  ◌<◌, ◌≡◌, ◌⊎◌, inl, inr, refl, ap, ◌∙◌, map, length, All, All-weaken, Among, List, arith, true,
  false, Bool-cases,
}
use microservice_log_parser.Prelude.Eq.{◌==◌, ==_sound}
use microservice_log_parser.Prelude.Int.{ℤ, pos, is_positive, to_int32-pos}
use microservice_log_parser.Prelude.Text.{text_eq}
use microservice_log_parser.Prelude.Result.{Result, ok, err, Result-cases}
use microservice_log_parser.Topology.Model.{
  Error, Node, TopologyGroup, bad_arguments, log_not_parsed, TopologyData, TopologyResult,
  log_status_parsed,
}
use microservice_log_parser.Topology.Kinds.{host, switch, normalize_kind}
use microservice_log_parser.Topology.Groups.{count_ports, no_ports, empty_build}
use microservice_log_parser.Topology.Groups.Members.{
  of_kind, groups_from_map-members, add_nodes-hosts, add_nodes-switches,
}
use microservice_log_parser.Topology.Groups.Complete.{groups_from_map_complete}
use microservice_log_parser.Topology.Service.{build_topology, get_topology, topology_of}

abbrev pub HasGroup : Node → List TopologyGroup → Type 0
HasGroup n groups =
    (g : TopologyGroup) × Among g groups
    × (g.kind ≡ normalize_kind n.node_kind)
    × Among n.id g.node_ids

-- The result agrees with the nodes: the summary counts them and those of two kinds, and each group
-- lists the ids of the nodes of its kind, in order, and every node has a group of its kind.
abbrev pub Summarises : TopologyData → TopologyResult → Type 0
Summarises loaded result =
    (result.summary.nodes_count ≡ pos (length loaded.nodes))
    × (result.summary.hosts_count ≡ pos (length (of_kind host loaded.nodes)))
    × (result.summary.switches_count ≡ pos (length (of_kind switch loaded.nodes)))
    × All (λ g. g.node_ids ≡ map (λ n. n.id) (of_kind g.kind loaded.nodes)) result.groups
    × All (λ n. HasGroup n result.groups) loaded.nodes

build_topology-Summarises :
    (log_id : ℤ) (loaded : TopologyData)
    → length loaded.nodes < 2147483648
    → Summarises loaded (build_topology log_id loaded)
unfolding build_topology
build_topology-Summarises log_id loaded fits =
    let c = count_ports loaded.ports no_ports in
    (
      to_int32-pos (length loaded.nodes) fits,
      add_nodes-hosts c loaded.nodes empty_build 0 refl (omega (arith, fits))
          ∙ ap pos (omega arith),
      add_nodes-switches c loaded.nodes empty_build 0 refl (omega (arith, fits))
          ∙ ap pos (omega arith),
      groups_from_map-members c loaded.nodes,
      All-weaken loaded.nodes (groups_from_map_complete c loaded.nodes),
    )

-- What `GetTopology` answers, by what the repository answers.
abbrev pub Answers : Result Error TopologyData → Result Error TopologyResult → Type 0
Answers (err e) answer = answer ≡ err e
Answers (ok loaded) answer =
    ((loaded.log.status ≡ log_status_parsed)
      × (result : TopologyResult) × (answer ≡ ok result)
      × Summarises loaded result)
    ⊎ (((loaded.log.status == log_status_parsed) ≡ false) × (answer ≡ err log_not_parsed))

topology_of-Answers :
    (log_id : ℤ) (loaded : TopologyData)
    → length loaded.nodes < 2147483648
    → Answers (ok loaded) (topology_of log_id loaded)
unfolding topology_of
topology_of-Answers log_id loaded fits =
    elim (Bool-cases (loaded.log.status == log_status_parsed)) [
      | inl e ↦ inl (
        ==_sound loaded.log.status log_status_parsed e,
        build_topology log_id loaded,
        rw (e) refl,
        build_topology-Summarises log_id loaded fits,
      )
      | inr e ↦ inr (e, rw (e) refl)
    ]

-- Every answer of `GetTopology`, for a repository that returns fewer than 2^31 nodes. An id that is not
-- positive is refused before the repository is asked. An error of the repository is passed on. A log
-- whose status is not "parsed" is refused. Else the result counts the nodes, the hosts and the
-- switches that were loaded, and each of its groups lists the ids of exactly the nodes of its kind,
-- in the order in which they were loaded, and every node has a group of its kind that lists it; a
-- node's kind is the normalised one.
pub get_topology-Answers :
    (get_topology_data : ℤ → Result Error TopologyData) (log_id : ℤ)
    → ((loaded : TopologyData)
        → get_topology_data log_id ≡ ok loaded
        → length loaded.nodes < 2147483648)
    → ((is_positive log_id ≡ false) × (get_topology get_topology_data log_id ≡ err bad_arguments))
      ⊎ ((is_positive log_id ≡ true)
          × Answers (get_topology_data log_id) (get_topology get_topology_data log_id))
unfolding get_topology
get_topology-Answers client log_id fits = elim (Bool-cases (is_positive log_id)) [
  | inr e ↦ inl (e, rw (e) refl)
  | inl e ↦ elim (Result-cases (client log_id)) [
    | inr (x, f) ↦ inr (e, rw (e, f) refl)
    | inl (loaded, f) ↦ inr (e, rw (e, f) (topology_of-Answers log_id loaded (fits loaded f)))
  ]
]
