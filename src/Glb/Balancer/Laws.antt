-- ===== src/Glb/Balancer/Laws.antt =====
-- What the load balancer promises, for any strategy that chooses from its list.
use gk.Common.{
  ◌≡◌, inl, inr, refl, ap, ◌∙◌, List, [], ◌∷◌, none, some, arith, if◌then◌else◌, Option-cases, Bool,
  true, false,
}
use gk.Common.Maps.{lookup}
use gk.Common.Str.{Str, Str_discrete}
use gk.Glb.Instances.{Instance, Choice, no_instances, chosen, Listed, Strategy, ChoosesListed}
use gk.Glb.Balancer.{
  Discovered, failed, Answer, discovery_failed, no_available_instances, from_strategy, healthy_only,
  LoadBalancer, Healthy, get_healthy_instances, choose, get_instance, refresh_instances,
}

healthy_only_cons :
    (i j : Instance) (l : List Instance)
    → (Listed i (healthy_only l) → Listed i l × (i.healthy ≡ true))
    → (b : Bool) → j.healthy ≡ b
    → Listed i (if b then j ∷ healthy_only l else healthy_only l)
    → Listed i (j ∷ l) × (i.healthy ≡ true)
healthy_only_cons i j l ih true well (inl same) = (inl same, ap (λ x. x.healthy) same ∙ well)
healthy_only_cons i j l ih true well (inr later) = let (there, w) = ih later in (inr there, w)
healthy_only_cons i j l ih false ill later = let (there, w) = ih later in (inr there, w)

healthy_only-Listed :
    (i : Instance) (l : List Instance) → Listed i (healthy_only l) → Listed i l × (i.healthy ≡ true)
unfolding healthy_only
healthy_only-Listed i [] h = absurd h
healthy_only-Listed i (j ∷ l) h = healthy_only_cons i j l (healthy_only-Listed i l) j.healthy refl h

choice_of : Answer → Choice
choice_of (from_strategy c) = c
choice_of (discovery_failed message) = no_instances
choice_of no_available_instances = no_instances

module _ (strategy : Strategy) where
  choose-Listed :
      ChoosesListed strategy
      → (lb : LoadBalancer strategy) (m : List Instance) (i : Instance)
      → (choose strategy lb (Healthy.healthy m)).1 ≡ from_strategy (chosen (some i))
      → Listed i m
  unfolding choose choice_of
  choose-Listed listed lb [] i h = ground (arith, h)
  choose-Listed listed lb (j ∷ m) i h = listed lb.state (j ∷ m) i (ap choice_of h)

  -- The list that a call works on.
  abbrev pub known : Str → Discovered → LoadBalancer strategy → List Instance
  known service answer lb = elim (lookup Str_discrete service lb.instances) [
    | some l ↦ l
    | none ↦ elim answer [ failed message ↦ [] | Discovered.instances l ↦ l ]
  ]

  -- If the strategy chooses from the list that it is given, an instance that is returned is healthy, and is one of those that are stored for the service, or
  -- that the discovery gave where none were.
  pub get_instance-healthy :
      ChoosesListed strategy
      → (service : Str) (answer : Discovered) (lb : LoadBalancer strategy) (i : Instance)
      → (get_instance strategy service answer lb).1 ≡ from_strategy (chosen (some i))
      → Listed i (known service answer lb) × (i.healthy ≡ true)
  unfolding get_instance get_healthy_instances choose
  get_instance-healthy listed service answer lb i h =
      elim (Option-cases (lookup Str_discrete service lb.instances)) [
        | inl missing ↦ by_answer answer missing h
        | inr (l, stored) ↦
            rw (stored, known)
              (healthy_only-Listed i l (
                choose-Listed listed lb (healthy_only l) i
                  (rw (stored, get_instance, get_healthy_instances) at h)))
      ]
    where
      by_answer :
          (answer : Discovered)
          → lookup Str_discrete service lb.instances ≡ none
          → (get_instance strategy service answer lb).1 ≡ from_strategy (chosen (some i))
          → Listed i (known service answer lb) × (i.healthy ≡ true)
      by_answer (failed message) missing h = ground (arith, missing, h)
      by_answer (Discovered.instances l) missing h =
          rw (missing, known)
            (healthy_only-Listed i l (
              choose-Listed listed (refresh_instances strategy service l lb) (healthy_only l) i
                (rw (missing, get_instance, get_healthy_instances) at h)))
