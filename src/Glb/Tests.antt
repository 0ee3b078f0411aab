-- ===== src/Glb/Tests.antt =====
-- Runs of the load balancer, and its theorems at concrete inputs.
use gk.Common.{◌≡◌, refl, [], ◌∷◌, arith, some, true, false, ℕ_discrete}
use gk.Common.Maps.{lookup, insert}
use gk.Common.Str.{str, Str_discrete}
use gk.Common.Int64.{pos, add64, sub64, neg64, to_bits, from_bits}
use gk.Glb.Instances.{Instance, chosen, Listed}
use gk.Glb.RoundRobin.{
  new_round_robin, round_robin-ChoosesListed, round_robin_next, round_robin, Generator, random_next,
  position, calls, in_turn,
}
use gk.Glb.Weighted.{new_weighted, counter, weighted_next, total_weight, select, wrapped}
use gk.Glb.Weighted.Laws
use gk.Glb.Weighted.Laws.{sum, blocks, weighted_calls, weighted_calls-in_turn, weighted_next-zero}
use gk.Glb.LeastConnections.{
  LeastConnections, connections_of, least, least_next, increase_connections, decrease_connections,
  AtMost, least_next_least,
}
use gk.Glb.Balancer.{
  LoadBalancer, failed, healthy_only, get_instance, get_healthy_instances, refresh_instances,
}
use gk.Glb.Balancer.Laws.{known, get_instance-healthy}

balancer : Unit {0}
unfolding lookup insert Str_discrete ℕ_discrete round_robin_next position calls in_turn random_next
    counter weighted_next total_weight select wrapped weighted_calls Laws.in_turn blocks
    connections_of least least_next increase_connections decrease_connections healthy_only
    get_instance get_healthy_instances refresh_instances add64 sub64 neg64 to_bits from_bits
balancer = tt

abbrev a : Instance
a = record { address = str "a:1"; healthy = true; weight = pos 2; metadata = [] }

abbrev b : Instance
b = record { address = str "b:1"; healthy = false; weight = pos 1; metadata = [] }

abbrev c : Instance
c = record { address = str "c:1"; healthy = true; weight = pos 0; metadata = [] }

-- A generator that always answers 0.
abbrev zero_generator : Generator
zero_generator = record { Seed = Unit {0}; intn = λ n s. (0, s); intn_lt = λ n s h. h }

turns :
    calls 4 new_round_robin (a ∷ b ∷ c ∷ [])
    ≡ chosen (some a) ∷ chosen (some b) ∷ chosen (some c) ∷ chosen (some a) ∷ []
unfolding balancer
turns = refl

weighted_turns :
    weighted_calls 4 new_weighted (a ∷ b ∷ c ∷ [])
    ≡ chosen (some a) ∷ chosen (some a) ∷ chosen (some b) ∷ chosen (some a) ∷ []
unfolding balancer
weighted_turns = refl

weighted_calls-in_turn_example :
    weighted_calls 4 new_weighted (a ∷ b ∷ c ∷ [])
    ≡ Laws.in_turn 4 0 (sum (2 ∷ 1 ∷ 0 ∷ [])) (blocks (a ∷ b ∷ c ∷ []) (2 ∷ 1 ∷ 0 ∷ []))
unfolding balancer
weighted_calls-in_turn_example =
    weighted_calls-in_turn 4 new_weighted a (b ∷ c ∷ []) (2 ∷ 1 ∷ 0 ∷ []) 0
      (refl, (refl, (refl, tt))) (omega arith) (omega arith) refl (omega arith)

abbrev quiet : LeastConnections
quiet = record { connections = [] }

least_next_least_example :
    (j : Instance) × (least_next quiet (a ∷ b ∷ []) ≡ (quiet, chosen (some j)))
    × Listed j (a ∷ b ∷ [])
    × AtMost (λ address. 0) 0 (a ∷ b ∷ [])
unfolding balancer
least_next_least_example = least_next_least quiet (λ address. 0) a (b ∷ []) (λ address. refl)

abbrev lb : LoadBalancer round_robin
lb = record { instances = (str "web", b ∷ c ∷ []) ∷ []; state = new_round_robin }

get_instance-healthy_example :
    Listed c (known round_robin (str "web") (failed (str "down")) lb) × (c.healthy ≡ true)
unfolding balancer
get_instance-healthy_example =
    get_instance-healthy round_robin round_robin-ChoosesListed (str "web") (failed (str "down")) lb
      c refl
