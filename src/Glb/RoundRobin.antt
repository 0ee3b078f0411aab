-- ===== src/Glb/RoundRobin.antt =====
-- `RoundRobinStrategy` and `RandomStrategy`: strategy.go.
use gk.Common.{
  ℕ, zero, suc, ◌+◌, ◌%◌, ◌<◌, ◌≡◌, refl, sym, ap, ap₂, inr, ◌∙◌, List, [], ◌∷◌, Option, none, some,
  length, get_elem?, get_elem?-some, arith,
}
use native.Mathlib.Nat.{mod-add-mod, mod-mod}
use gk.Common.Maps.{Map, lookup, insert, lookup-insert}
use gk.Common.Str.{Str, Str_discrete}
use gk.Glb.Instances.{Instance, Choice, no_instances, chosen, Listed, Strategy, ChoosesListed}

-- `index`, which is 0 for a key that is not there.
pub record RoundRobin : Type 0 where
  pub index : Map Str ℕ

abbrev pub new_round_robin : RoundRobin
new_round_robin = record { index = [] }

abbrev pub or_zero : Option ℕ → ℕ
or_zero none = 0
or_zero (some n) = n

unfoldable pub position : Str → RoundRobin → ℕ
position key s = or_zero (lookup Str_discrete key s.index)

unfoldable pub round_robin_next : RoundRobin → List Instance → RoundRobin × Choice
round_robin_next s [] = (s, no_instances)
round_robin_next s (first ∷ others) =
    let instances = first ∷ others in
    let key = first.address in
    let index = position key s in
    (
      record s { index = insert Str_discrete key ((index + 1) % length instances) s.index },
      chosen (get_elem? instances (index % length instances)),
    )

-- The random generator, which is not part of the repository: a state and `Intn`, which stays below its
-- argument.
pub record Generator : Type 1 where
  pub Seed : Type 0
  pub intn : ℕ → Seed → ℕ × Seed
  pub intn_lt : (n : ℕ) (s : Seed) → 0 < n → (intn n s).0 < n

unfoldable pub random_next : (g : Generator) → g.Seed → List Instance → g.Seed × Choice
random_next g s [] = (s, no_instances)
random_next g s (first ∷ others) =
    let (i, s') = g.intn (length (first ∷ others)) s in (s', chosen (get_elem? (first ∷ others) i))

-- A random choice from a list that is not empty is an instance, never nil.
pub random_next_total :
    (g : Generator) (s : g.Seed) (first : Instance) (others : List Instance)
    → (i : Instance) × ((random_next g s (first ∷ others)).1 ≡ chosen (some i))
unfolding random_next
random_next_total g s first others =
    let (i, at) =
      get_elem?-some (first ∷ others) _ (g.intn_lt (length (first ∷ others)) s (omega arith)) in
    (i, ap chosen at)

pub get_elem?-Listed :
    (l : List Instance) (n : ℕ) (i : Instance) → get_elem? l n ≡ some i → Listed i l
get_elem?-Listed [] n i h = absurd (ground arith)
get_elem?-Listed (j ∷ l) zero i h = ground arith
get_elem?-Listed (j ∷ l) (suc n) i h = inr (get_elem?-Listed l n i h)

abbrev pub round_robin : Strategy
round_robin = record { State = RoundRobin; next = round_robin_next }

pub round_robin-ChoosesListed : ChoosesListed round_robin
unfolding round_robin_next
round_robin-ChoosesListed s [] i h = cc
round_robin-ChoosesListed s (first ∷ others) i h =
    get_elem?-Listed (first ∷ others) (position first.address s % length (first ∷ others)) i
      (ground arith)

abbrev pub random : Generator → Strategy
random g = record { State = g.Seed; next = random_next g }

pub random-ChoosesListed : (g : Generator) → ChoosesListed (random g)
unfolding random_next
random-ChoosesListed g s [] i h = cc
random-ChoosesListed g s (first ∷ others) i h =
    get_elem?-Listed (first ∷ others) (g.intn (length (first ∷ others)) s).0 i (ground arith)

-- The choices of a number of calls over one list.
unfoldable pub calls : ℕ → RoundRobin → List Instance → List Choice
calls zero s l = []
calls (suc n) s l = let (s', c) = round_robin_next s l in c ∷ calls n s' l

-- The instances from a position on, wrapping around.
unfoldable pub in_turn : ℕ → ℕ → List Instance → List Choice
in_turn zero p l = []
in_turn (suc n) p l = chosen (get_elem? l (p % length l)) ∷ in_turn n (p + 1) l

in_turn_mod :
    (n p q : ℕ) (l : List Instance) → p % length l ≡ q % length l → in_turn n p l ≡ in_turn n q l
unfolding in_turn
in_turn_mod zero p q l h = refl
in_turn_mod (suc n) p q l h =
    ap₂ (λ i r. chosen (get_elem? l i) ∷ r) h
      (in_turn_mod n (p + 1) (q + 1) l (
        sym (mod-add-mod p (length l) 1)
        ∙ ap (λ r. (r + 1) % length l) h
        ∙ mod-add-mod q (length l) 1))

-- Calls over one list choose its instances in turn, from the stored position on, whatever else the
-- strategy has served.
pub calls-in_turn :
    (n : ℕ) (s : RoundRobin) (first : Instance) (others : List Instance)
    → calls n s (first ∷ others) ≡ in_turn n (position first.address s) (first ∷ others)
unfolding calls in_turn round_robin_next
calls-in_turn zero s first others = refl
calls-in_turn (suc n) s first others =
    let l = first ∷ others in
    let p = position first.address s in
    let s' = (round_robin_next s l).0 in
    let moved : position first.address s' ≡ (p + 1) % length l =
      unfold position in
      ground (
        arith,
        lookup-insert Str_discrete first.address first.address ((p + 1) % length l) s.index,
      ) in
    ap (◌∷◌ (chosen (get_elem? l (p % length l)))) (
      calls-in_turn n s' first others
      ∙ ap (λ q. in_turn n q l) moved
      ∙ in_turn_mod n ((p + 1) % length l) (p + 1) l (mod-mod (p + 1) (length l)))
