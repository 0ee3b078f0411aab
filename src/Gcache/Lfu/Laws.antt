-- ===== src/Gcache/Lfu/Laws.antt =====
-- What a key leads to after a read or a write, in the cache of lfu.go.
use mathlib.Core.Path.{subst}
use gk.Common.{
  ℕ, ◌+◌, ◌≡◌, ◌⊎◌, inl, inr, refl, ap, ◌∙◌, false, ◌==◌, List, Option, none, some, arith,
  ℕ_discrete, if_pos,
}
use gk.Common.Maps.{Map, lookup, insert, lookup-insert}
use gk.Common.Str.{Str, Str_discrete}
use gk.Gcache.Lru.{◌>>=◌}
use gk.Gcache.Lfu.{
  LfuEntry, LfuCache, push_entry, taken_out, increment_frequency, entry_of, get_hit, lfu_get,
  make_room, push_new, set_hit, set_miss, lfu_set,
}

Option-cases : {A : Type 0} (x : Option A) → ((a : A) × (x ≡ some a)) ⊎ (x ≡ none)
Option-cases (some a) = inl (a, refl)
Option-cases none = inr refl

pub inserted :
    {K V : Type 0} (dec : Discrete K) (k : K) (v : V) (m : Map K V)
    → lookup dec k (insert dec k v m) ≡ some v
inserted dec k v m = lookup-insert dec k k v m ∙ if_pos (dec k k) refl _ _

-- The element still points to its entry, whose new element may have its number.
pointed_still :
    (next elem id : ℕ) (m : Map ℕ ℕ)
    → lookup ℕ_discrete elem m ≡ some id
    → lookup ℕ_discrete elem (insert ℕ_discrete next id m) ≡ some id
pointed_still next elem id m here = ground (arith, lookup-insert ℕ_discrete next elem id m, here)

pub bind_some :
    {A B : Type 0} (x : Option A) (f : A → Option B) (b : B)
    → (x >>= f) ≡ some b
    → (a : A) × (x ≡ some a) × (f a ≡ some b)
bind_some none f b same = absurd (cc same)
bind_some (some a) f b same = (a, refl, same)

abbrev pub or_else : {A : Type 0} → A → Option A → A
or_else d none = d
or_else d (some a) = a

module _ {V : Type 0} where
  -- The key has an element, whose entry has the value and stands under its frequency.
  pub record Holds (key : Str) (value : V) (c : LfuCache V) : Type 0 where
    pub elem : ℕ
    pub id : ℕ
    pub freq : ℕ
    pub l : List ℕ
    pub mapped : lookup Str_discrete key c.cache ≡ some elem
    pub pointed : lookup ℕ_discrete elem c.elements ≡ some id
    pub stored :
        lookup ℕ_discrete id c.entries ≡ some (record { key = key; value = value; freq = freq })
    pub listed : lookup ℕ_discrete freq c.freq_to_list ≡ some l

  push_entry-Holds :
      (id : ℕ) (e : LfuEntry V) (c : LfuCache V) → Holds e.key e.value (push_entry id e c)
  unfolding push_entry
  push_entry-Holds id e c = record {
    elem = c.next_element;
    id = id;
    freq = e.freq;
    l = _;
    mapped = inserted Str_discrete e.key c.next_element c.cache;
    pointed = inserted ℕ_discrete c.next_element id c.elements;
    stored = inserted ℕ_discrete id e c.entries;
    listed = inserted ℕ_discrete e.freq _ c.freq_to_list;
  }

  pub lfu_get-Holds :
      (key : Str) (value : V) (c : LfuCache V)
      → Holds key value c
      → (c' : LfuCache V) × (lfu_get key c ≡ some (c', some value))
  unfolding lfu_get get_hit increment_frequency entry_of push_entry taken_out
  lfu_get-Holds key value c h =
      let c1 = taken_out h.elem h.freq h.l c in
      let e : LfuEntry V = record { key = key; value = value; freq = h.freq + 1 } in
      let c2 = push_entry h.id e c1 in
      let same : increment_frequency h.elem c ≡ some c2 =
        rw (h.pointed, increment_frequency, h.stored, h.listed) refl in
      let found : entry_of h.elem c2 ≡ some e =
        rw
          (
            pointed_still c.next_element h.elem h.id c.elements h.pointed,
            inserted ℕ_discrete h.id e c.entries,
          )
          refl in
      (c2, rw (h.mapped, lfu_get, get_hit, same, found) refl)

  moved-Holds :
      (key : Str) (value : V) (c c' : LfuCache V)
      → some c ≡ some c'
      → Holds key value c
      → Holds key value c'
  moved-Holds key value c c' same h = subst (Holds key value) (ap (or_else c) same) h

  increment_frequency-Holds :
      (elem id : ℕ) (e : LfuEntry V) (c c' : LfuCache V)
      → increment_frequency elem c ≡ some c'
      → lookup ℕ_discrete elem c.elements ≡ some id
      → lookup ℕ_discrete id c.entries ≡ some e
      → Holds e.key e.value c'
  unfolding increment_frequency
  increment_frequency-Holds elem id e c c' same pointed stored =
      let (l, listed, rest) =
        bind_some (lookup ℕ_discrete e.freq c.freq_to_list)
          (λ l. some (push_entry id (record e { freq = e.freq + 1 }) (taken_out elem e.freq l c)))
          c' (rw (pointed, increment_frequency, stored) at same) in
      moved-Holds e.key e.value _ c' rest
        (push_entry-Holds id (record e { freq = e.freq + 1 }) (taken_out elem e.freq l c))

  push_new-Holds : (key : Str) (value : V) (c : LfuCache V) → Holds key value (push_new key value c)
  unfolding push_new
  push_new-Holds key value c =
      let e : LfuEntry V = record { key = key; value = value; freq = 1 } in
      let h = push_entry-Holds c.next_entry e c in
      record {
        elem = h.elem;
        id = h.id;
        freq = h.freq;
        l = h.l;
        mapped = h.mapped;
        pointed = h.pointed;
        stored = h.stored;
        listed = h.listed;
      }

  set_hit-Holds :
      (key : Str) (elem : ℕ) (value : V) (c c' : LfuCache V)
      → ((e : LfuEntry V) → entry_of elem c ≡ some e → e.key ≡ key)
      → set_hit elem value c ≡ some c'
      → Holds key value c'
  unfolding set_hit entry_of
  set_hit-Holds key elem value c c' keyed same =
      let (id, pointed, rest) = bind_some (lookup ℕ_discrete elem c.elements) _ c' same in
      let (e, stored, last) = bind_some (lookup ℕ_discrete id c.entries) _ c' rest in
      let its_key : e.key ≡ key = keyed e (rw (pointed, stored) refl) in
      let e' : LfuEntry V = record e { value = value } in
      let c1 = record c { entries = insert ℕ_discrete id e' c.entries } in
      subst (λ k. Holds k value c') its_key
        (increment_frequency-Holds elem id e' c1 c' last pointed
          (inserted ℕ_discrete id e' c.entries))

  set_miss-Holds :
      (key : Str) (value : V) (c c' : LfuCache V)
      → set_miss key value c ≡ some c'
      → Holds key value c'
  unfolding set_miss
  set_miss-Holds key value c c' same =
      let (c1, roomy, rest) =
        bind_some (make_room c) (λ c1. some (push_new key value c1)) c' same in
      moved-Holds key value (push_new key value c1) c' rest (push_new-Holds key value c1)

  pub lfu_set-Holds :
      (key : Str) (value : V) (c c' : LfuCache V)
      → (c.capacity == 0) ≡ false
      → ((elem : ℕ) (e : LfuEntry V)
          → lookup Str_discrete key c.cache ≡ some elem
          → entry_of elem c ≡ some e
          → e.key ≡ key)
      → lfu_set key value c ≡ some c'
      → Holds key value c'
  unfolding lfu_set
  lfu_set-Holds key value c c' roomy keyed same =
      elim (Option-cases (lookup Str_discrete key c.cache)) [
        | inl (elem, found) ↦
            set_hit-Holds key elem value c c' (λ e. keyed elem e found)
              (rw (roomy, lfu_set, found) at same)
        | inr absent ↦ set_miss-Holds key value c c' (rw (roomy, lfu_set, absent) at same)
      ]
