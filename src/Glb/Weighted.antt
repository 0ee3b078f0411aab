-- ===== src/Glb/Weighted.antt =====
-- `WeightedRoundRobinStrategy`: strategy.go. Weights and counters are int64.
pub mod Laws
use gk.Common.{
  ℕ, zero, suc, ◌+◌, ◌-◌, ◌<◌, ◌≤◌, ◌^◌, ◌≡◌, refl, sym, ap, ◌∙◌, List, [], ◌∷◌, Option, none, some,
  arith, ite, if◌then◌else◌, not, Bool-cases, inl, inr, Bool, true, false, ltb, ◌++◌,
}
use gk.Common.Maps.{Map, lookup, insert, lookup-insert}
use gk.Common.Str.{Str, Str_discrete}
use gk.Common.Int64.{ℤ, pos, negsuc, add64, sub64, lt64, add64_pos, sub64_pos}
use gk.Glb.Instances.{Instance, Choice, no_instances, chosen, Listed, Strategy}

pub record Weighted : Type 0 where
  pub current_weights : Map Str ℤ

abbrev pub new_weighted : Weighted
new_weighted = record { current_weights = [] }

abbrev pub or_zero : Option ℤ → ℤ
or_zero none = pos 0
or_zero (some n) = n

unfoldable pub counter : Str → Weighted → ℤ
counter key s = or_zero (lookup Str_discrete key s.current_weights)

-- The first loop.
unfoldable pub total_weight : ℤ → List Instance → ℤ
total_weight acc [] = acc
total_weight acc (i ∷ l) = total_weight (add64 acc i.weight) l

-- The second loop: `none` if it ends without a selection.
unfoldable pub select : ℤ → List Instance → Option Instance
select current [] = none
select current (i ∷ l) =
    let rest = select (sub64 current i.weight) l in if lt64 current i.weight then some i else rest

-- The counter that a call uses, which starts again at the total weight.
unfoldable pub wrapped : ℤ → ℤ → ℤ
wrapped counter total = if lt64 counter total then counter else pos 0

unfoldable pub weighted_next : Weighted → List Instance → Weighted × Choice
weighted_next s [] = (s, no_instances)
weighted_next s (first ∷ others) =
    let key = first.address in
    let current = wrapped (counter key s) (total_weight (pos 0) (first ∷ others)) in
    (
      record s {
        current_weights = insert Str_discrete key (add64 current (pos 1)) s.current_weights;
      },
      chosen (select current (first ∷ others)),
    )
