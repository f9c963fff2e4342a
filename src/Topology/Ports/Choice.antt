-- ===== src/Topology/Ports/Choice.antt =====
-- What `pickSwitchPort` and `firstUnusedPort` choose.
use microservice_log_parser.Prelude.{
  List, [], ◌∷◌, ◌≡◌, refl, ◌⊎◌, inl, inr, true, false, Option, none, some, All, Among, Bool-cases,
}
use microservice_log_parser.Prelude.Eq.{contains}
use microservice_log_parser.Prelude.Int.{ℤ, int_eq}
use microservice_log_parser.Topology.Model.{Port}
use microservice_log_parser.Topology.Ports.{
  same_link_characteristics, pick_same_link, first_unused_port, pick_switch_port,
}

-- A free port of the list, or none is free.
abbrev pub FirstUnused : List Port → List ℤ → Option Port → Type 0
FirstUnused ports used none = All (λ p. contains used p.id ≡ true) ports
FirstUnused ports used (some p) = Among p ports × (contains used p.id ≡ false)

abbrev SameLink : Port → List Port → List ℤ → Option Port → Type 0
SameLink h ports used none =
    All (λ q. (contains used q.id ≡ true) ⊎ (same_link_characteristics h q ≡ false)) ports
SameLink h ports used (some p) =
    Among p ports × (contains used p.id ≡ false) × (same_link_characteristics h p ≡ true)

abbrev pub Picks : Port → List Port → List ℤ → Option Port → Type 0
Picks h ports used none = All (λ p. contains used p.id ≡ true) ports
Picks h ports used (some p) =
    Among p ports
    × (contains used p.id ≡ false)
    × ((same_link_characteristics h p ≡ true)
        ⊎ All (λ q. (contains used q.id ≡ true) ⊎ (same_link_characteristics h q ≡ false)) ports)

FirstUnused-cons :
    (x : Port) (ports : List Port) (used : List ℤ) (o : Option Port)
    → contains used x.id ≡ true
    → FirstUnused ports used o
    → FirstUnused (x ∷ ports) used o
FirstUnused-cons x ports used none u h = (u, h)
FirstUnused-cons x ports used (some p) u h = (inr h.0, h.1)

pub first_unused_port-FirstUnused :
    (ports : List Port) (used : List ℤ) → FirstUnused ports used (first_unused_port ports used)
unfolding first_unused_port
first_unused_port-FirstUnused [] used = tt
first_unused_port-FirstUnused (x ∷ ports) used = elim (Bool-cases (contains used x.id)) [
  | inl u ↦ rw u (FirstUnused-cons x ports used _ u (first_unused_port-FirstUnused ports used))
  | inr f ↦ rw f (inl refl, f)
]

SameLink-cons :
    (h x : Port) (ports : List Port) (used : List ℤ) (o : Option Port)
    → (contains used x.id ≡ true) ⊎ (same_link_characteristics h x ≡ false)
    → SameLink h ports used o
    → SameLink h (x ∷ ports) used o
SameLink-cons h x ports used none u s = (u, s)
SameLink-cons h x ports used (some p) u s = (inr s.0, s.1, s.2)

pick_same_link-SameLink :
    (h : Port) (ports : List Port) (used : List ℤ)
    → SameLink h ports used (pick_same_link h ports used)
unfolding pick_same_link
pick_same_link-SameLink h [] used = tt
pick_same_link-SameLink h (x ∷ ports) used = elim (Bool-cases (contains used x.id)) [
  | inl u ↦ rw u (SameLink-cons h x ports used _ (inl u) (pick_same_link-SameLink h ports used))
  | inr f ↦ elim (Bool-cases (same_link_characteristics h x)) [
    | inl s ↦ rw (f, s) (inl refl, f, s)
    | inr n ↦
        rw (f, n) (SameLink-cons h x ports used _ (inr n) (pick_same_link-SameLink h ports used))
  ]
]

Picks-fallback :
    (h : Port) (ports : List Port) (used : List ℤ) (o : Option Port)
    → SameLink h ports used none
    → FirstUnused ports used o
    → Picks h ports used o
Picks-fallback h ports used none s f = f
Picks-fallback h ports used (some p) s f = (f.0, f.1, inr s)

-- `pickSwitchPort` finds nothing exactly if every port is used. Otherwise it returns a free port of
-- the list, and one whose link does not match the host port's only if no free port's does.
pub pick_switch_port-Picks :
    (h : Port) (ports : List Port) (used : List ℤ)
    → Picks h ports used (pick_switch_port h ports used)
unfolding pick_switch_port
pick_switch_port-Picks h ports used =
    by_first (pick_same_link h ports used) (pick_same_link-SameLink h ports used)
  where
    by_first :
        (o : Option Port)
        → SameLink h ports used o
        → Picks h ports used (elim o [ some p ↦ some p | none ↦ first_unused_port ports used ])
    by_first none s = Picks-fallback h ports used _ s (first_unused_port-FirstUnused ports used)
    by_first (some p) s = (s.0, s.1, inl s.2)
