-- ===== src/Common/Maps.antt =====
-- A Go map as an association list: reads, writes, `delete` and `len`, for keys with a decidable
-- equality. `Distinct` says that no key stands twice.
use Prim.Native.Nat.{◌+◌}
use mathlib.Core.Path.{◌≡◌, refl}
use mathlib.Core.Logic.{ite}
use mathlib.Core.List.{List, [], ◌∷◌}
use mathlib.Core.Option.{Option, none, some}
use native.Mathlib.Omega.{arith}
use gk.Common.Lists.{length}

abbrev pub Map : Type 0 → Type 0 → Type 0
Map K V = List (K × V)

module _ {K V : Type 0} (dec : Discrete K) where
  -- `v, ok := m[k]`
  unfoldable pub lookup : K → Map K V → Option V
  lookup k [] = none
  lookup k ((j, v) ∷ m) = ite (dec j k) (some v) (lookup k m)

  -- `m[k] = v`
  unfoldable pub insert : K → V → Map K V → Map K V
  insert k v [] = (k, v) ∷ []
  insert k v ((j, w) ∷ m) = ite (dec j k) ((j, v) ∷ m) ((j, w) ∷ insert k v m)

  -- `delete(m, k)`
  unfoldable pub delete : K → Map K V → Map K V
  delete k [] = []
  delete k ((j, w) ∷ m) = let rest = delete k m in ite (dec j k) rest ((j, w) ∷ rest)

  abbrev pub Distinct : Map K V → Type 0
  Distinct [] = Unit
  Distinct ((j, v) ∷ m) = (lookup j m ≡ none) × Distinct m

module _ {K V : Type 0} (dec : Discrete K) where
  pub lookup-insert :
      (k q : K) (v : V) (m : Map K V)
      → lookup dec q (insert dec k v m) ≡ ite (dec k q) (some v) (lookup dec q m)
  unfolding lookup insert
  lookup-insert k q v [] = refl
  lookup-insert k q v ((j, w) ∷ m) = ground (arith, lookup-insert k q v m)

  pub lookup-delete :
      (k q : K) (m : Map K V) → lookup dec q (delete dec k m) ≡ ite (dec k q) none (lookup dec q m)
  unfolding lookup delete
  lookup-delete k q [] = ground arith
  lookup-delete k q ((j, w) ∷ m) = ground (arith, lookup-delete k q m)

  pub insert-Distinct :
      (k : K) (v : V) (m : Map K V) → Distinct dec m → Distinct dec (insert dec k v m)
  unfolding lookup insert
  insert-Distinct k v [] h = (refl, tt)
  insert-Distinct k v ((j, w) ∷ m) (new, h) =
      ground (arith, insert-Distinct k v m h, lookup-insert k j v m)

  pub delete-Distinct : (k : K) (m : Map K V) → Distinct dec m → Distinct dec (delete dec k m)
  unfolding lookup delete
  delete-Distinct k [] h = tt
  delete-Distinct k ((j, w) ∷ m) (new, h) =
      ground (arith, delete-Distinct k m h, lookup-delete k j m)

  pub delete_absent : (k : K) (m : Map K V) → lookup dec k m ≡ none → delete dec k m ≡ m
  unfolding lookup delete
  delete_absent k [] h = refl
  delete_absent k ((j, w) ∷ m) h = ground (arith, delete_absent k m)

  pub length-insert_new :
      (k : K) (v : V) (m : Map K V)
      → lookup dec k m ≡ none
      → length (insert dec k v m) ≡ length m + 1
  unfolding lookup insert
  length-insert_new k v [] h = omega arith
  length-insert_new k v ((j, w) ∷ m) h = ground (arith, length-insert_new k v m)

  pub length-insert_old :
      (k : K) (v w : V) (m : Map K V)
      → lookup dec k m ≡ some w
      → length (insert dec k v m) ≡ length m
  unfolding lookup insert
  length-insert_old k v w [] h = absurd (ground arith)
  length-insert_old k v w ((j, u) ∷ m) h = ground (arith, length-insert_old k v w m)

  pub length-delete_old :
      (k : K) (w : V) (m : Map K V)
      → Distinct dec m
      → lookup dec k m ≡ some w
      → length (delete dec k m) + 1 ≡ length m
  unfolding lookup delete
  length-delete_old k w [] d h = absurd (ground arith)
  length-delete_old k w ((j, u) ∷ m) (new, d) h =
      ground (arith, length-delete_old k w m d, delete_absent k m)

  pub insert-insert :
      (k : K) (v w : V) (m : Map K V) → insert dec k v (insert dec k w m) ≡ insert dec k v m
  unfolding insert
  insert-insert k v w [] = ground arith
  insert-insert k v w ((j, u) ∷ m) = ground (arith, insert-insert k v w m)
