-- ===== src/Glb/Balancer.antt =====
-- `LoadBalancer`: loadbalancer.go. The discovery service is the caller's: its answers are arguments.
pub mod Laws
use gk.Common.{
  ℕ, ◌≡◌, ◌≢◌, ◌⊎◌, inl, inr, refl, sym, ap, ◌∙◌, List, [], ◌∷◌, Option, none, some, arith, ite,
  if◌then◌else◌, Bool-cases, Option-cases, Bool, true, false,
}
use gk.Common.Maps.{Map, lookup, insert, lookup-insert}
use gk.Common.Str.{Str, Str_discrete}
use gk.Glb.Instances.{Instance, Choice, no_instances, chosen, Listed, Strategy}

-- An error of the discovery service, by its text.
pub data Discovered : Type 0 where
  failed : Str → Discovered
  instances : List Instance → Discovered

pub data Answer : Type 0 where
  discovery_failed : Str → Answer
  no_available_instances : Answer
  from_strategy : Choice → Answer

-- The loop that keeps the healthy instances.
unfoldable pub healthy_only : List Instance → List Instance
healthy_only [] = []
healthy_only (i ∷ l) = let rest = healthy_only l in if i.healthy then i ∷ rest else rest

module _ (strategy : Strategy) where
  open strategy use {State, next}

  pub record LoadBalancer : Type 0 where
    pub instances : Map Str (List Instance)
    pub state : State

  pub data Healthy : Type 0 where
    refused : Str → Healthy
    healthy : List Instance → Healthy

  unfoldable pub refresh_instances : Str → List Instance → LoadBalancer → LoadBalancer
  refresh_instances service l lb = record lb {
    instances = insert Str_discrete service l lb.instances;
  }

  -- The list that is stored for the service, or what the discovery answers, which is stored then.
  unfoldable pub get_healthy_instances : Str → Discovered → LoadBalancer → LoadBalancer × Healthy
  get_healthy_instances service answer lb = elim (lookup Str_discrete service lb.instances) [
    | some l ↦ (lb, Healthy.healthy (healthy_only l))
    | none ↦ elim answer [
      | failed message ↦ (lb, Healthy.refused message)
      | Discovered.instances l ↦ (refresh_instances service l lb, Healthy.healthy (healthy_only l))
    ]
  ]

  choose : LoadBalancer → Healthy → LoadBalancer × Answer
  choose lb (Healthy.refused message) = (lb, discovery_failed message)
  choose lb (Healthy.healthy []) = (lb, no_available_instances)
  choose lb (Healthy.healthy (i ∷ l)) =
      let (state', choice) = next lb.state (i ∷ l) in
      (record lb { state = state' }, from_strategy choice)

  unfoldable pub get_instance : Str → Discovered → LoadBalancer → LoadBalancer × Answer
  unfolding choose
  get_instance service answer lb =
      let (lb', found) = get_healthy_instances service answer lb in choose lb' found

  -- One list from the channel of `StartWatching`.
  unfoldable pub watched : Str → List Instance → LoadBalancer → LoadBalancer
  watched service l lb = record lb { instances = insert Str_discrete service l lb.instances }
