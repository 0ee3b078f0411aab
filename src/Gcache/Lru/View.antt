-- ===== src/Gcache/Lru/View.antt =====
-- The abstract view of the cache: the entries from the most recently used one on, each with the number
-- of its element.
use gk.Common.{
  ℕ, suc, ◌≡◌, refl, ap, List, [], ◌∷◌, Option, none, some, length, arith, ite, ℕ_discrete, true,
}
use gk.Common.Maps.{Map, lookup, delete, Distinct, delete_absent}
use gk.Common.Str.{Str, Str_discrete}
use gk.Gcache.Linked.{contains, remove}
use gk.Gcache.Lru.{LruEntry}

module _ {V : Type 0} where
  abbrev pub ids : Map ℕ (LruEntry V) → List ℕ
  ids [] = []
  ids ((i, e) ∷ z) = i ∷ ids z

  abbrev pub view : Map ℕ (LruEntry V) → Map Str V
  view [] = []
  view ((i, e) ∷ z) = (e.key, e.value) ∷ view z

  -- The element whose entry has the key.
  unfoldable pub find_id : Str → Map ℕ (LruEntry V) → Option ℕ
  find_id k [] = none
  find_id k ((i, e) ∷ z) = ite (Str_discrete e.key k) (some i) (find_id k z)

  pub remove-ids : (i : ℕ) (z : Map ℕ (LruEntry V)) → remove i (ids z) ≡ ids (delete ℕ_discrete i z)
  unfolding remove delete
  remove-ids i [] = refl
  remove-ids i ((j, e) ∷ z) = ground (arith, remove-ids i z)

  pub contains-ids :
      (i : ℕ) (e : LruEntry V) (z : Map ℕ (LruEntry V))
      → lookup ℕ_discrete i z ≡ some e
      → contains i (ids z) ≡ true
  unfolding contains lookup
  contains-ids i e [] h = cc
  contains-ids i e ((j, d) ∷ z) h = ground (arith, contains-ids i e z)

  pub find_id-view :
      (k : Str) (z : Map ℕ (LruEntry V))
      → find_id k z ≡ none
      → lookup Str_discrete k (view z) ≡ none
  unfolding find_id lookup
  find_id-view k [] h = refl
  find_id-view k ((i, e) ∷ z) h = ground (arith, find_id-view k z)

  pub find_id-none :
      (k : Str) (z : Map ℕ (LruEntry V))
      → lookup Str_discrete k (view z) ≡ none
      → find_id k z ≡ none
  unfolding find_id lookup
  find_id-none k [] h = refl
  find_id-none k ((i, e) ∷ z) h = ground (arith, find_id-none k z)

  -- What is found is an entry with the key, and it is the one that a lookup by the key reads.
  pub find_id-some :
      (k : Str) (i : ℕ) (z : Map ℕ (LruEntry V))
      → Distinct ℕ_discrete z
      → find_id k z ≡ some i
      → (e : LruEntry V) × (lookup ℕ_discrete i z ≡ some e)
        × (e.key ≡ k)
        × (lookup Str_discrete k (view z) ≡ some e.value)
  unfolding find_id lookup
  find_id-some k i [] d h = absurd (ground arith)
  find_id-some k i ((j, e) ∷ z) (new, d) h = elim (Str_discrete e.key k) [
    | yes p ↦ (e, ground arith, p, ground arith)
    | no p ↦
        let (x, at, named, seen) = find_id-some k i z d (ground arith) in
        (x, ground arith, named, ground arith)
  ]

  -- Taking the element away takes the key away, and no other.
  pub view-delete :
      (k : Str) (i : ℕ) (z : Map ℕ (LruEntry V))
      → Distinct ℕ_discrete z
      → Distinct Str_discrete (view z)
      → find_id k z ≡ some i
      → view (delete ℕ_discrete i z) ≡ delete Str_discrete k (view z)
  unfolding find_id lookup delete
  view-delete k i [] d v h = refl
  view-delete k i ((j, e) ∷ z) (new, d) (fresh, v) h = elim (Str_discrete e.key k) [
    | yes p ↦ ground (arith, delete_absent ℕ_discrete i z, delete_absent Str_discrete k (view z))
    | no p ↦
        let (x, at, named, seen) = find_id-some k i z d (ground arith) in
        ground (arith, view-delete k i z d v)
  ]

  pub find_id-delete :
      (k q : Str) (i : ℕ) (z : Map ℕ (LruEntry V))
      → Distinct ℕ_discrete z
      → Distinct Str_discrete (view z)
      → find_id k z ≡ some i
      → find_id q (delete ℕ_discrete i z) ≡ ite (Str_discrete k q) none (find_id q z)
  unfolding find_id lookup delete
  find_id-delete k q i [] d v h = absurd (ground arith)
  find_id-delete k q i ((j, e) ∷ z) (new, d) (fresh, v) h = elim (Str_discrete e.key k) [
    | yes p ↦ ground (arith, delete_absent ℕ_discrete i z, find_id-none k z)
    | no p ↦
        let (x, at, named, seen) = find_id-some k i z d (ground arith) in
        ground (arith, find_id-delete k q i z d v)
  ]

  pub length-ids : (z : Map ℕ (LruEntry V)) → length (ids z) ≡ length (view z)
  length-ids [] = refl
  length-ids ((i, e) ∷ z) = ap suc (length-ids z)
