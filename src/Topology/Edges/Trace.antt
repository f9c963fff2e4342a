-- ===== src/Topology/Edges/Trace.antt =====
-- Which ports the edges were made of: the loops of `buildEdges` replayed as lists of links.
use mathlib.Core.List.{append_assoc, append-nil, map-append}
use microservice_log_parser.Prelude.{
  List, [], ◌∷◌, ◌++◌, map, ◌≡◌, refl, sym, true, false, arith, All, All-append, All-map,
}
use microservice_log_parser.Prelude.Eq.{contains, Distinct, Fresh, Marked, Distinct-append}
use microservice_log_parser.Prelude.Int.{ℤ, int_eq}
use microservice_log_parser.Topology.Model.{Node, Port, TopologyEdge}
use microservice_log_parser.Topology.Edges.{
  EdgeState, edge_between, inferred_host_switch, inferred_switch_backbone,
}

-- A host's port with the switch port picked for it, or the ports of two neighbouring switches, each
-- port behind its node.
pub data Link : Type 0 where
  host_link : Node → Port → Node → Port → Link
  backbone_link : Node → Port → Node → Port → Link

abbrev pub edge_of : Link → TopologyEdge
edge_of (host_link a p b q) = edge_between inferred_host_switch a p b q
edge_of (backbone_link a p b q) = edge_between inferred_switch_backbone a p b q

abbrev pub edges_of : List Link → List TopologyEdge
edges_of = map edge_of

abbrev pub switch_port_ids : List Link → List ℤ
switch_port_ids [] = []
switch_port_ids (host_link a p b q ∷ ls) = q.id ∷ switch_port_ids ls
switch_port_ids (backbone_link a p b q ∷ ls) = p.id ∷ q.id ∷ switch_port_ids ls

switch_port_ids-append :
    (ks ls : List Link) → switch_port_ids (ks ++ ls) ≡ switch_port_ids ks ++ switch_port_ids ls
switch_port_ids-append [] ls = refl
switch_port_ids-append (host_link a p b q ∷ ks) ls = rw (switch_port_ids-append ks ls)
switch_port_ids-append (backbone_link a p b q ∷ ks) ls = rw (switch_port_ids-append ks ls)

abbrev pub Keeps : List ℤ → List ℤ → Type 0
Keeps used used' = (i : ℤ) → contains used i ≡ true → contains used' i ≡ true

-- From `st` to `st'` the loops made edges of `links`, each switch port of them free before and used
-- once, and each link satisfies `P`.
pub record Traced (P : Link → Type 0) (st st' : EdgeState) : Type 0 where
  pub links : List Link
  pub made : st'.edges ≡ st.edges ++ edges_of links
  pub once : Distinct (switch_port_ids links)
  pub free_before : Fresh st.used (switch_port_ids links)
  pub used_after : Marked st'.used (switch_port_ids links)
  pub keeps : Keeps st.used st'.used
  pub sound : All P links

Fresh-Keeps : (u u' xs : List ℤ) → Keeps u u' → Fresh u' xs → Fresh u xs
Fresh-Keeps u u' [] k f = tt
Fresh-Keeps u u' (x ∷ xs) k f = (still_fresh, Fresh-Keeps u u' xs k f.1)
  where
    still_fresh : contains u x ≡ false
    still_fresh = ground (arith, k x, f.0)

module _ {P : Link → Type 0} where
  pub Traced-refl : (st : EdgeState) → Traced P st st
  Traced-refl st = record {
    links = [];
    made = sym (append-nil st.edges);
    once = tt;
    free_before = tt;
    used_after = tt;
    keeps = λ i h. h;
    sound = tt;
  }

  pub Traced-trans : {r s t : EdgeState} → Traced P r s → Traced P s t → Traced P r t
  Traced-trans {r} {s} {t} f g = record {
    links = f.links ++ g.links;
    made =
        rw (g.made, f.made, map-append edge_of f.links g.links)
          (append_assoc r.edges (edges_of f.links) (edges_of g.links));
    once = rw ids (
        Distinct-append s.used (switch_port_ids f.links) (switch_port_ids g.links) f.once g.once
          f.used_after g.free_before);
    free_before = rw ids (
        All-append _ (switch_port_ids f.links) (switch_port_ids g.links) f.free_before
          (Fresh-Keeps r.used s.used (switch_port_ids g.links) f.keeps g.free_before));
    used_after = rw ids (
        All-append _ (switch_port_ids f.links) (switch_port_ids g.links)
          (All-map g.keeps (switch_port_ids f.links) f.used_after) g.used_after);
    keeps = λ i h. g.keeps i (f.keeps i h);
    sound = All-append P f.links g.links f.sound g.sound;
  }
    where
      ids :
          switch_port_ids (f.links ++ g.links) ≡ switch_port_ids f.links ++ switch_port_ids g.links
      ids = switch_port_ids-append f.links g.links
