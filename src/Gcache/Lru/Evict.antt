-- ===== src/Gcache/Lru/Evict.antt =====
-- Eviction, and the insertion of a new key.
use mathlib.Core.Path.{subst}
use gk.Common.{
  ℕ, ◌<◌, ◌≡◌, refl, sym, ap, ◌∙◌, [], ◌∷◌, none, some, length, arith, ℕ_discrete, leb,
  if◌then◌else◌, Option-cases, Bool-cases, inl, inr, true, false,
}
use gk.Common.Maps.{
  Map, lookup, delete, Distinct, lookup-insert, lookup-delete, delete-Distinct, length-delete_old,
}
use gk.Common.Str.{Str, Str_discrete}
use gk.Gcache.Linked.{remove, back}
use gk.Gcache.Lru.{LruEntry, LruCache, lru_set, make_room, push_new}
use gk.Gcache.Lru.View.{
  length-ids, ids, view, find_id, remove-ids, find_id-view, find_id-none, find_id-some, view-delete,
  find_id-delete,
}
use gk.Gcache.Lru.Refine.{Repr, last_key, without_last, ideal_set}

module _ {V : Type 0} where
  -- The element at the back holds the key that was used least recently.
  last_element :
      (j : ℕ) (d : LruEntry V) (z : Map ℕ (LruEntry V))
      → Distinct ℕ_discrete ((j, d) ∷ z)
      → Distinct Str_discrete (view ((j, d) ∷ z))
      → (b : ℕ) × (e : LruEntry V) × (back (ids ((j, d) ∷ z)) ≡ some b)
        × (lookup ℕ_discrete b ((j, d) ∷ z) ≡ some e)
        × (find_id e.key ((j, d) ∷ z) ≡ some b)
        × (last_key (view ((j, d) ∷ z)) ≡ some e.key)
  unfolding back lookup find_id
  last_element j d [] u v = (j, d, refl, ground arith, ground arith, refl)
  last_element j d ((j', d') ∷ z) (new, u) (fresh, v) =
      let (b, e, at_back, at, found, last) = last_element j' d' z u v in
      let (x, at', named, seen) = find_id-some e.key b ((j', d') ∷ z) u found in
      (b, e, at_back, ground arith, ground arith, last)

  -- The state between the eviction and the insertion: there is room.
  record Roomy (c : LruCache V) (z : Map ℕ (LruEntry V)) : Type 0 where
    order : c.ll ≡ ids z
    distinct : Distinct ℕ_discrete z
    keys : Distinct Str_discrete (view z)
    heap :
        (i : ℕ) (e : LruEntry V)
        → lookup ℕ_discrete i z ≡ some e
        → lookup ℕ_discrete i c.heap ≡ some e
    index : (k : Str) → lookup Str_discrete k c.cache ≡ find_id k z
    below : (i : ℕ) (e : LruEntry V) → lookup ℕ_discrete i z ≡ some e → i < c.next
    room : length (view z) < c.capacity

  evict-Roomy :
      (c : LruCache V) (b : ℕ) (e : LruEntry V) (z : Map ℕ (LruEntry V))
      → Repr c z
      → lookup ℕ_discrete b z ≡ some e
      → find_id e.key z ≡ some b
      → Roomy
          (record c { ll = remove b c.ll; cache = delete Str_discrete e.key c.cache })
          (delete ℕ_discrete b z)
  evict-Roomy c b e z r at found =
      let (x, at', named, seen) = find_id-some e.key b z r.distinct found in
      let same : view (delete ℕ_discrete b z) ≡ delete Str_discrete e.key (view z) =
        view-delete e.key b z r.distinct r.keys found in
      record {
        order = ap (remove b) r.order ∙ remove-ids b z;
        distinct = delete-Distinct ℕ_discrete b z r.distinct;
        keys =
            subst (Distinct Str_discrete) (sym same)
              (delete-Distinct Str_discrete e.key (view z) r.keys);
        heap = λ i y h. r.heap i y (ground (arith, lookup-delete ℕ_discrete b i z));
        index = λ q. ground (
          arith,
          lookup-delete Str_discrete e.key q c.cache,
          r.index q,
          find_id-delete e.key q b z r.distinct r.keys found,
        );
        below = λ i y h. r.below i y (ground (arith, lookup-delete ℕ_discrete b i z));
        room = omega (
          arith,
          ap length same,
          length-delete_old Str_discrete e.key x.value (view z) r.keys seen,
          r.bounded,
        );
      }

  roomy :
      (c : LruCache V) (z : Map ℕ (LruEntry V))
      → Repr c z
      → length (view z) < c.capacity
      → Roomy c z
  roomy c z r h = record {
    order = r.order;
    distinct = r.distinct;
    keys = r.keys;
    heap = r.heap;
    index = r.index;
    below = r.below;
    room = h;
  }

  evicts :
      (c : LruCache V) (w : Map ℕ (LruEntry V)) (b : ℕ) (e : LruEntry V)
      → length c.ll ≡ length (view w)
      → leb c.capacity (length (view w)) ≡ true
      → back c.ll ≡ some b
      → lookup ℕ_discrete b c.heap ≡ some e
      → make_room c
        ≡ some (record c { ll = remove b c.ll; cache = delete Str_discrete e.key c.cache })
  unfolding make_room
  evicts c w b e same full at_back stored = ground arith

  make_room-Roomy :
      (c : LruCache V) (z : Map ℕ (LruEntry V))
      → Repr c z
      → (c' : LruCache V) × (z' : Map ℕ (LruEntry V)) × (make_room c ≡ some c')
        × Roomy c' z'
        × (view z' ≡ (if leb c.capacity (length (view z)) then without_last (view z) else view z))
        × (c'.capacity ≡ c.capacity)
  unfolding make_room
  make_room-Roomy c [] r =
      let empty_list : c.ll ≡ [] = r.order in
      let no_room : leb c.capacity 0 ≡ false = ground (arith, r.positive) in
      (c, [], rw (empty_list, no_room, make_room) refl, roomy c [] r r.positive, ground arith, refl)
  make_room-Roomy c ((j, d) ∷ z) r =
      let w = (j, d) ∷ z in
      let same : length c.ll ≡ length (view w) = ap length r.order ∙ length-ids w in
      elim (Bool-cases (leb c.capacity (length (view w)))) [
        | inr short ↦ (
          c,
          w,
          rw (same, short, make_room) refl,
          roomy c w r (ground arith),
          rw short refl,
          refl,
        )
        | inl full ↦
            let (b, e, at_back, at, found, last) = last_element j d z r.distinct r.keys in
            let (x, at', named, seen) = find_id-some e.key b w r.distinct found in
            (
              record c { ll = remove b c.ll; cache = delete Str_discrete e.key c.cache },
              delete ℕ_discrete b w,
              evicts c w b e same full (ap back r.order ∙ at_back) (r.heap b e at),
              evict-Roomy c b e w r at found,
              view-delete e.key b w r.distinct r.keys found ∙ rw (full, last, without_last) refl,
              refl,
            )
      ]

  lookup-without_last :
      (k : Str) (m : Map Str V)
      → lookup Str_discrete k m ≡ none
      → lookup Str_discrete k (without_last m) ≡ none
  lookup-without_last k m h = elim (Option-cases (last_key m)) [
    | inl nothing ↦ rw (nothing, without_last) h
    | inr (q, last) ↦ rw (last, without_last) (ground (arith, lookup-delete Str_discrete q k m))
  ]

  push_new-Repr :
      (k : Str) (value : V) (c : LruCache V) (z : Map ℕ (LruEntry V))
      → Roomy c z
      → find_id k z ≡ none
      → Repr (push_new k value c) ((c.next, record { key = k; value = value }) ∷ z)
  unfolding push_new find_id lookup
  push_new-Repr k value c z r missing = record {
    order = ap (◌∷◌ c.next) r.order;
    distinct = (new_id, r.distinct);
    keys = (find_id-view k z missing, r.keys);
    heap = λ i e h. ground (
      arith,
      lookup-insert ℕ_discrete c.next i (record { key = k; value = value }) c.heap,
      r.heap i e,
    );
    index = λ q. ground (arith, lookup-insert Str_discrete k q c.next c.cache, r.index q);
    below = λ i e h. ground (arith, r.below i e);
    bounded = r.room;
    positive = omega (arith, r.room);
  }
    where
      new_id : lookup ℕ_discrete c.next z ≡ none
      new_id = elim (Option-cases (lookup ℕ_discrete c.next z)) [
        | inl free ↦ free
        | inr (e, taken) ↦ absurd (omega (arith, r.below c.next e taken))
      ]

  -- A new key: the least recently used one makes room if there is none.
  pub set_miss-Repr :
      (k : Str) (value : V) (c : LruCache V) (z : Map ℕ (LruEntry V))
      → Repr c z
      → find_id k z ≡ none
      → (c' : LruCache V) × (z' : Map ℕ (LruEntry V)) × (lru_set k value c ≡ some c')
        × Repr c' z'
        × (view z' ≡ ideal_set c.capacity k value (view z))
        × (c'.capacity ≡ c.capacity)
  unfolding lru_set
  set_miss-Repr k value c z r missing =
      let (c', z', made, roomy', shown, cap) = make_room-Roomy c z r in
      let unseen : lookup Str_discrete k (view z) ≡ none = find_id-view k z missing in
      let absent : lookup Str_discrete k c.cache ≡ none = r.index k ∙ missing in
      let still : lookup Str_discrete k (view z') ≡ none =
        ap (lookup Str_discrete k) shown ∙ ground (arith, lookup-without_last k (view z)) in
      (
        push_new k value c',
        (c'.next, record { key = k; value = value }) ∷ z',
        ground arith,
        push_new-Repr k value c' z' roomy' (find_id-none k z' still),
        ap (◌∷◌ (k, value)) shown ∙ unfold ideal_set in rw (unseen, ideal_set) refl,
        unfold push_new in cap,
      )
