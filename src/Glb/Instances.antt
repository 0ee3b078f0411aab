-- ===== src/Glb/Instances.antt =====
-- Service instances: loadbalancer.go. The interface `Instance` has one implementation in the source.
use gk.Common.{Bool, List, [], ◌∷◌, Option, some, ◌≡◌, ◌⊎◌}
use gk.Common.Maps.{Map}
use gk.Common.Str.{Str}
use gk.Common.Int64.{ℤ}

pub record Instance : Type 0 where
  pub address : Str
  pub healthy : Bool
  pub weight : ℤ
  pub metadata : Map Str Str

-- What `Next` returns: an error, or an instance, which may be nil.
pub data Choice : Type 0 where
  no_instances : Choice
  chosen : Option Instance → Choice

-- The instance stands in the list.
abbrev pub Listed : Instance → List Instance → Type 0
Listed i [] = ⊥
Listed i (j ∷ l) = (i ≡ j) ⊎ Listed i l

-- The interface `Strategy`: a state that `Next` changes. It promises nothing of the choice.
pub record Strategy : Type 1 where
  pub State : Type 0
  pub next : State → List Instance → State × Choice

-- What a strategy may do: choose from the list that it is given.
abbrev pub ChoosesListed : Strategy → Type 0
ChoosesListed strategy =
    (s : strategy.State) (l : List Instance) (i : Instance)
    → (strategy.next s l).1 ≡ chosen (some i)
    → Listed i l
