-- ===== src/Gcache/Lru/Refine.antt =====
-- How the linked list, the map and the heap stand for one list of keys and values in order of use.
use gk.Common.{
  ℕ, ◌≤◌, ◌<◌, ◌≡◌, refl, sym, ap, ◌∙◌, [], ◌∷◌, Option, none, some, length, arith, ite, ℕ_discrete,
  leb, if◌then◌else◌,
}
use mathlib.Core.Path.{subst}
use gk.Common.Maps.{
  Map, lookup, insert, delete, Distinct, lookup-insert, lookup-delete, delete-Distinct,
  length-delete_old,
}
use gk.Common.Str.{Str, Str_discrete}
use gk.Gcache.Linked.{move_to_front}
use gk.Gcache.Lru.{LruEntry, LruCache, lru_get, lru_set}
use gk.Gcache.Lru.View.{
  ids, view, find_id, remove-ids, contains-ids, find_id-some, view-delete, find_id-delete,
}

module _ {V : Type 0} where
  -- The ideal cache: a list of keys and values, the most recently used first.
  abbrev pub last_key : Map Str V → Option Str
  last_key [] = none
  last_key ((k, v) ∷ []) = some k
  last_key ((k, v) ∷ e ∷ m) = last_key (e ∷ m)

  abbrev pub without_last : Map Str V → Map Str V
  without_last m = elim (last_key m) [ none ↦ m | some k ↦ delete Str_discrete k m ]

  unfoldable pub ideal_get : Str → Map Str V → Map Str V
  ideal_get key m = elim (lookup Str_discrete key m) [
    | none ↦ m
    | some v ↦ (key, v) ∷ delete Str_discrete key m
  ]

  unfoldable pub ideal_set : ℕ → Str → V → Map Str V → Map Str V
  ideal_set capacity key value m = elim (lookup Str_discrete key m) [
    | some old ↦ (key, value) ∷ delete Str_discrete key m
    | none ↦ (key, value) ∷ (if leb capacity (length m) then without_last m else m)
  ]

  -- How a cache stands for the list `view z`.
  pub record Repr (c : LruCache V) (z : Map ℕ (LruEntry V)) : Type 0 where
    pub order : c.ll ≡ ids z
    pub distinct : Distinct ℕ_discrete z
    pub keys : Distinct Str_discrete (view z)
    pub heap :
        (i : ℕ) (e : LruEntry V)
        → lookup ℕ_discrete i z ≡ some e
        → lookup ℕ_discrete i c.heap ≡ some e
    pub index : (k : Str) → lookup Str_discrete k c.cache ≡ find_id k z
    pub below : (i : ℕ) (e : LruEntry V) → lookup ℕ_discrete i z ≡ some e → i < c.next
    pub bounded : length (view z) ≤ c.capacity
    pub positive : 0 < c.capacity

  -- An element that moves to the front, maybe with a new value.
  module _ (k : Str) (i : ℕ) (e : LruEntry V) (z : Map ℕ (LruEntry V))
      (distinct : Distinct ℕ_discrete z) (keys : Distinct Str_discrete (view z))
      (found : find_id k z ≡ some i) (named : e.key ≡ k) where
    front_order :
        (old : LruEntry V)
        → lookup ℕ_discrete i z ≡ some old
        → move_to_front i (ids z) ≡ ids ((i, e) ∷ delete ℕ_discrete i z)
    unfolding move_to_front
    front_order old at = rw (contains-ids i old z at, remove-ids i z) refl

    front_view :
        view ((i, e) ∷ delete ℕ_discrete i z) ≡ (k, e.value) ∷ delete Str_discrete k (view z)
    front_view = rw (named, view-delete k i z distinct keys found) refl

    front-Distinct : Distinct ℕ_discrete ((i, e) ∷ delete ℕ_discrete i z)
    front-Distinct =
        (ground (arith, lookup-delete ℕ_discrete i i z), delete-Distinct ℕ_discrete i z distinct)

    front_keys : Distinct Str_discrete (view ((i, e) ∷ delete ℕ_discrete i z))
    front_keys = subst (Distinct Str_discrete) (sym front_view) (
      ground (arith, lookup-delete Str_discrete k k (view z)),
      delete-Distinct Str_discrete k (view z) keys,
    )

    front_index : (q : Str) → find_id q ((i, e) ∷ delete ℕ_discrete i z) ≡ find_id q z
    unfolding find_id
    front_index q = ground (arith, find_id-delete k q i z distinct keys found)

    front_lookup :
        (j : ℕ)
        → lookup ℕ_discrete j ((i, e) ∷ delete ℕ_discrete i z)
          ≡ ite (ℕ_discrete i j) (some e) (lookup ℕ_discrete j z)
    unfolding lookup
    front_lookup j = ground (arith, lookup-delete ℕ_discrete i j z)

    front_length :
        (v : V)
        → lookup Str_discrete k (view z) ≡ some v
        → length (view ((i, e) ∷ delete ℕ_discrete i z)) ≡ length (view z)
    front_length v seen =
        ap length front_view ∙ omega (arith, length-delete_old Str_discrete k v (view z) keys seen)

  -- A cached key: the read returns its value and brings it to the front.
  pub get_hit-Repr :
      (k : Str) (i : ℕ) (c : LruCache V) (z : Map ℕ (LruEntry V))
      → Repr c z
      → find_id k z ≡ some i
      → (c' : LruCache V) × (z' : Map ℕ (LruEntry V)) × (lru_get k c
          ≡ some (c', lookup Str_discrete k (view z)))
        × Repr c' z'
        × (view z' ≡ ideal_get k (view z))
        × (c'.capacity ≡ c.capacity)
  unfolding lru_get ideal_get
  get_hit-Repr k i c z r found =
      let (e, at, named, seen) = find_id-some k i z r.distinct found in
      let z' = (i, e) ∷ delete ℕ_discrete i z in
      let indexed : lookup Str_discrete k c.cache ≡ some i = r.index k ∙ found in
      let stored : lookup ℕ_discrete i c.heap ≡ some e = r.heap i e at in
      let split = front_lookup k i e z r.distinct r.keys found named in
      (
        record c { ll = move_to_front i c.ll },
        z',
        ground arith,
        record {
          order =
              ap (move_to_front i) r.order ∙ front_order k i e z r.distinct r.keys found named e at;
          distinct = front-Distinct k i e z r.distinct r.keys found named;
          keys = front_keys k i e z r.distinct r.keys found named;
          heap = λ j x h. r.heap j x (ground (arith, split j));
          index = λ q. r.index q ∙ sym (front_index k i e z r.distinct r.keys found named q);
          below = λ j x h. r.below j x (ground (arith, split j));
          bounded = rw (front_length k i e z r.distinct r.keys found named e.value seen) r.bounded;
          positive = r.positive;
        },
        front_view k i e z r.distinct r.keys found named ∙ rw (seen, ideal_get) refl,
        refl,
      )

  -- A cached key: the write stores the value and brings the key to the front.
  pub set_hit-Repr :
      (k : Str) (value : V) (i : ℕ) (c : LruCache V) (z : Map ℕ (LruEntry V))
      → Repr c z
      → find_id k z ≡ some i
      → (c' : LruCache V) × (z' : Map ℕ (LruEntry V)) × (lru_set k value c ≡ some c')
        × Repr c' z'
        × (view z' ≡ ideal_set c.capacity k value (view z))
        × (c'.capacity ≡ c.capacity)
  unfolding lru_set ideal_set
  set_hit-Repr k value i c z r found =
      let (old, at, named, seen) = find_id-some k i z r.distinct found in
      let e = record old { value = value } in
      let z' = (i, e) ∷ delete ℕ_discrete i z in
      let indexed : lookup Str_discrete k c.cache ≡ some i = r.index k ∙ found in
      let stored : lookup ℕ_discrete i c.heap ≡ some old = r.heap i old at in
      let split = front_lookup k i e z r.distinct r.keys found named in
      (
        record c { ll = move_to_front i c.ll; heap = insert ℕ_discrete i e c.heap },
        z',
        ground arith,
        record {
          order =
              ap (move_to_front i) r.order
              ∙ front_order k i e z r.distinct r.keys found named old at;
          distinct = front-Distinct k i e z r.distinct r.keys found named;
          keys = front_keys k i e z r.distinct r.keys found named;
          heap =
              λ j x h. ground (arith, split j, lookup-insert ℕ_discrete i j e c.heap, r.heap j x);
          index = λ q. r.index q ∙ sym (front_index k i e z r.distinct r.keys found named q);
          below = λ j x h. ground (arith, split j, r.below j x, r.below i old at);
          bounded =
              rw (front_length k i e z r.distinct r.keys found named old.value seen) r.bounded;
          positive = r.positive;
        },
        front_view k i e z r.distinct r.keys found named ∙ rw (seen, ideal_set) refl,
        refl,
      )
