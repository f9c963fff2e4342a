-- ===== src/Topology/Edges/Steps.antt =====
-- The steps of the loops of `buildEdges`, traced.
use mathlib.Core.List.{append-nil}
use microservice_log_parser.Prelude.{
  List, [], ◌∷◌, ◌≡◌, refl, sym, true, false, Option, none, some, arith, All, All-Among, All-map,
}
use microservice_log_parser.Prelude.Eq.{contains, ==_refl}
use microservice_log_parser.Prelude.Int.{ℤ, int_eq}
use microservice_log_parser.Prelude.Text.{text_eq}
use microservice_log_parser.Prelude.Assoc.{Assoc, lookup_or}
use microservice_log_parser.Topology.Model.{Node, Port}
use microservice_log_parser.Topology.Ports.Choice.{
  FirstUnused, first_unused_port-FirstUnused, Picks, pick_switch_port-Picks,
}
use microservice_log_parser.Topology.Edges.{
  EdgeState, zero_node, host_edge, connect_host, connect_hosts, connect_target, connect_source,
  connect_pair, connect_from, connect_switches,
}
use microservice_log_parser.Topology.Edges.Trace.{
  Link, host_link, backbone_link, Keeps, Traced, Traced-refl, Traced-trans,
}

Keeps-cons : (used : List ℤ) (i : ℤ) → Keeps used (i ∷ used)
unfolding contains
Keeps-cons used i j h = ground arith

contains_self : (used : List ℤ) (i : ℤ) → contains (i ∷ used) i ≡ true
unfolding contains
contains_self used i = rw (==_refl i)

module _ {P : Link → Type 0} where
  host_step :
      (m : Assoc ℤ Node) (h s : Port) (st : EdgeState)
      → contains st.used s.id ≡ false
      → P (host_link (lookup_or zero_node h.node_id m) h (lookup_or zero_node s.node_id m) s)
      → Traced P st (connect_host m h (some s) st)
  unfolding connect_host host_edge contains
  host_step m h s st free ok = record {
    links = host_link (lookup_or zero_node h.node_id m) h (lookup_or zero_node s.node_id m) s ∷ [];
    made = refl;
    once = (refl, tt);
    free_before = (free, tt);
    used_after = (contains_self st.used s.id, tt);
    keeps = Keeps-cons st.used s.id;
    sound = (ok, tt);
  }

  -- The loop over the host ports, for ports of which every pair may be joined.
  pub connect_hosts-Traced :
      (m : Assoc ℤ Node) (ss hs : List Port) (st : EdgeState)
      → All
          (λ h.
            All
              (λ s.
                P (
                  host_link
                    (lookup_or zero_node h.node_id m)
                    h
                    (lookup_or zero_node s.node_id m)
                    s))
              ss)
          hs
      → Traced P st (connect_hosts m ss hs st)
  unfolding connect_hosts
  connect_hosts-Traced m ss [] st ok = Traced-refl st
  connect_hosts-Traced m ss (h ∷ hs) st ok =
      Traced-trans (step _ (pick_switch_port-Picks h ss st.used))
        (connect_hosts-Traced m ss hs _ ok.1)
    where
      step : (o : Option Port) → Picks h ss st.used o → Traced P st (connect_host m h o st)
      step none p = unfold connect_host in Traced-refl st
      step (some s) p = host_step m h s st p.1 (
          All-Among
            (λ s.
              P (host_link (lookup_or zero_node h.node_id m) h (lookup_or zero_node s.node_id m) s))
            ss ok.0 p.0)

  target_step :
      (a : Node) (p : Port) (b : Node) (st : EdgeState) (qs : List Port)
      → contains st.used p.id ≡ false
      → All (λ q. P (backbone_link a p b q)) qs
      → (o : Option Port) → FirstUnused qs (p.id ∷ st.used) o
      → Traced P st (connect_target a p b o (record st { used = p.id ∷ st.used }))
  unfolding connect_target contains
  target_step a p b st qs free ok none f = record {
    links = [];
    made = sym (append-nil st.edges);
    once = tt;
    free_before = tt;
    used_after = tt;
    keeps = Keeps-cons st.used p.id;
    sound = tt;
  }
  target_step a p b st qs free ok (some q) f = record {
    links = backbone_link a p b q ∷ [];
    made = refl;
    once = (ground (arith, f.1, int_eq.means p.id q.id, int_eq.means q.id p.id), (refl, tt));
    free_before = (free, (ground (arith, f.1), tt));
    used_after =
        (ground (arith, contains_self st.used p.id), (contains_self (p.id ∷ st.used) q.id, tt));
    keeps = λ i h. Keeps-cons (p.id ∷ st.used) q.id i (Keeps-cons st.used p.id i h);
    sound = (All-Among (λ q. P (backbone_link a p b q)) qs ok f.0, tt);
  }

  source_step :
      (a b : Node) (ps qs : List Port) (st : EdgeState)
      → All (λ p. All (λ q. P (backbone_link a p b q)) qs) ps
      → (o : Option Port) → FirstUnused ps st.used o
      → Traced P st (connect_source a o b qs st)
  unfolding connect_source
  source_step a b ps qs st ok none f = Traced-refl st
  source_step a b ps qs st ok (some p) f =
      target_step a p b st qs f.1
        (All-Among (λ p. All (λ q. P (backbone_link a p b q)) qs) ps ok f.0) _
        (first_unused_port-FirstUnused qs (p.id ∷ st.used))

abbrev pub HasPorts : (Node → Port → Type 0) → Assoc ℤ (List Port) → Node → Type 0
HasPorts Q m a = All (Q a) (lookup_or [] a.id m)

-- The loop over the switches, where each port filed under a switch may be joined.
module _ {P : Link → Type 0} (Q : Node → Port → Type 0)
    (join : (a : Node) (p : Port) (b : Node) (q : Port) → Q a p → Q b q → P (backbone_link a p b q))
    (m : Assoc ℤ (List Port)) where
  pair_step :
      (a b : Node) (st : EdgeState)
      → HasPorts Q m a
      → HasPorts Q m b
      → Traced P st (connect_pair m a b st)
  unfolding connect_pair
  pair_step a b st ha hb =
      source_step a b (lookup_or [] a.id m) (lookup_or [] b.id m) st
        (All-map (λ p hp. All-map (λ q hq. join a p b q hp hq) (lookup_or [] b.id m) hb)
          (lookup_or [] a.id m) ha)
        _ (first_unused_port-FirstUnused (lookup_or [] a.id m) st.used)

  connect_from-Traced :
      (a : Node) (ns : List Node) (st : EdgeState)
      → HasPorts Q m a
      → All (HasPorts Q m) ns
      → Traced P st (connect_from m a ns st)
  unfolding connect_from
  connect_from-Traced a [] st ha hs = Traced-refl st
  connect_from-Traced a (b ∷ ns) st ha hs =
      Traced-trans (pair_step a b st ha hs.0)
        (connect_from-Traced b ns (connect_pair m a b st) hs.0 hs.1)

  pub connect_switches-Traced :
      (ns : List Node) (st : EdgeState)
      → All (HasPorts Q m) ns
      → Traced P st (connect_switches m ns st)
  unfolding connect_switches
  connect_switches-Traced [] st hs = Traced-refl st
  connect_switches-Traced (a ∷ ns) st hs = connect_from-Traced a ns st hs.0 hs.1
