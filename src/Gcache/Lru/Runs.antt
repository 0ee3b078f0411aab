-- ===== src/Gcache/Lru/Runs.antt =====
-- The cache against the ideal one, over any sequence of calls.
use gk.Common.{
  ℕ, zero, suc, ◌≤◌, ◌<◌, ◌≡◌, refl, ap, ◌∙◌, List, [], ◌∷◌, Option, none, some, length, arith,
  Option-cases, inl, inr,
}
use gk.Common.Maps.{Map, lookup}
use gk.Common.Str.{Str, Str_discrete}
use gk.Common.Int64.{ℤ, pos, negsuc}
use gk.Gcache.Lru.{LruEntry, LruCache, new_lru_cache, clamped, lru_get, lru_set, lru_len, ◌>>=◌}
use gk.Gcache.Lru.View.{view, find_id, find_id-view, length-ids}
use gk.Gcache.Lru.Refine.{Repr, ideal_get, ideal_set, get_hit-Repr, set_hit-Repr}
use gk.Gcache.Lru.Evict.{set_miss-Repr}

pub data Call (V : Type 0) : Type 0 where
  get : Str → Call V
  set : Str → V → Call V

module _ {V : Type 0} where
  -- The answers of the reads, in order.
  unfoldable pub run : List (Call V) → LruCache V → Option (LruCache V × List (Option V))
  run [] c = some (c, [])
  run (get k ∷ calls) c = do (c', v) ← lru_get k c; (c'', vs) ← run calls c'; some (c'', v ∷ vs)
  run (set k v ∷ calls) c = do c' ← lru_set k v c; run calls c'

  unfoldable pub ideal_run : ℕ → List (Call V) → Map Str V → Map Str V × List (Option V)
  ideal_run capacity [] m = (m, [])
  ideal_run capacity (get k ∷ calls) m =
      let (m', vs) = ideal_run capacity calls (ideal_get k m) in (m', lookup Str_discrete k m ∷ vs)
  ideal_run capacity (set k v ∷ calls) m = ideal_run capacity calls (ideal_set capacity k v m)

  lru_get-Repr :
      (k : Str) (c : LruCache V) (z : Map ℕ (LruEntry V))
      → Repr c z
      → (c' : LruCache V) × (z' : Map ℕ (LruEntry V)) × (lru_get k c
          ≡ some (c', lookup Str_discrete k (view z)))
        × Repr c' z'
        × (view z' ≡ ideal_get k (view z))
        × (c'.capacity ≡ c.capacity)
  lru_get-Repr k c z r = elim (Option-cases (find_id k z)) [
    | inr (i, found) ↦ get_hit-Repr k i c z r found
    | inl missing ↦
        let unseen : lookup Str_discrete k (view z) ≡ none = find_id-view k z missing in
        let absent : lookup Str_discrete k c.cache ≡ none = r.index k ∙ missing in
        (
          c,
          z,
          unfold lru_get in ground arith,
          r,
          unfold ideal_get in rw (unseen, ideal_get) refl,
          refl,
        )
  ]

  lru_set-Repr :
      (k : Str) (value : V) (c : LruCache V) (z : Map ℕ (LruEntry V))
      → Repr c z
      → (c' : LruCache V) × (z' : Map ℕ (LruEntry V)) × (lru_set k value c ≡ some c')
        × Repr c' z'
        × (view z' ≡ ideal_set c.capacity k value (view z))
        × (c'.capacity ≡ c.capacity)
  lru_set-Repr k value c z r = elim (Option-cases (find_id k z)) [
    | inr (i, found) ↦ set_hit-Repr k value i c z r found
    | inl missing ↦ set_miss-Repr k value c z r missing
  ]

  -- From a cache that stands for a list, any sequence of calls runs without a nil dereference, answers
  -- as the ideal cache does, and ends in a cache that stands for the ideal list and is within its capacity.
  pub run-ideal_run :
      (calls : List (Call V)) (c : LruCache V) (z : Map ℕ (LruEntry V))
      → Repr c z
      → (c' : LruCache V) × (z' : Map ℕ (LruEntry V)) × (run calls c
          ≡ some (c', (ideal_run c.capacity calls (view z)).1))
        × Repr c' z'
        × (view z' ≡ (ideal_run c.capacity calls (view z)).0)
        × (lru_len c' ≤ c.capacity)
  unfolding run ideal_run
  run-ideal_run [] c z r = (
    c,
    z,
    refl,
    r,
    refl,
    unfold lru_len in omega (arith, ap length r.order, length-ids z, r.bounded),
  )
  run-ideal_run (get k ∷ calls) c z r =
      let (c1, z1, got, r1, shown, cap) = lru_get-Repr k c z r in
      let (c2, z2, ran, r2, shown2, short) = run-ideal_run calls c1 z1 r1 in
      let ran' : run calls c1 ≡ some (c2, (ideal_run c.capacity calls (ideal_get k (view z))).1) =
        rw (cap, shown) at ran in
      (c2, z2, rw got (rw ran' refl), r2, rw (cap, shown) at shown2, rw cap at short)
  run-ideal_run (set k v ∷ calls) c z r =
      let (c1, z1, did, r1, shown, cap) = lru_set-Repr k v c z r in
      let (c2, z2, ran, r2, shown2, short) = run-ideal_run calls c1 z1 r1 in
      let ran' : run calls c1
          ≡ some (c2, (ideal_run c.capacity calls (ideal_set c.capacity k v (view z))).1) =
        rw (cap, shown) at ran in
      (c2, z2, rw did ran', r2, rw (cap, shown) at shown2, rw cap at short)

  -- A new cache stands for the empty list.
  pub new_lru_cache-Repr : (capacity : ℤ) → Repr (new_lru_cache {V = V} capacity) []
  unfolding new_lru_cache lookup find_id
  new_lru_cache-Repr capacity = record {
    order = refl;
    distinct = tt;
    keys = tt;
    heap = λ i e h. cc;
    index = λ k. refl;
    below = λ i e h. cc;
    bounded = omega arith;
    positive = positive_capacity capacity;
  }
    where
      positive_capacity : (z : ℤ) → 0 < clamped z
      positive_capacity (pos zero) = omega arith
      positive_capacity (pos (suc n)) = omega arith
      positive_capacity (negsuc n) = omega arith
