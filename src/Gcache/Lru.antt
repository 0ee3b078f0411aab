-- ===== src/Gcache/Lru.antt =====
-- `LRUCache`: lru.go. Elements and the entries that they point to are numbers into a heap, so that the
-- map and the linked list share them as in the source. `none` is a nil dereference.
pub mod View
pub mod Refine
pub mod Runs
pub mod Evict
use mathlib.Core.Option
use gk.Common.{
  ℕ, zero, suc, ◌+◌, List, [], ◌∷◌, Option, none, some, length, leb, if◌then◌else◌, ℕ_discrete,
}
use gk.Common.Maps.{Map, lookup, insert, delete}
use gk.Common.Str.{Str, Str_discrete}
use gk.Common.Int64.{ℤ, pos, negsuc}
use gk.Gcache.Linked.{remove, push_front, move_to_front, back}

pub record LruEntry (V : Type 0) : Type 0 where
  pub key : Str
  pub value : V

pub record LruCache (V : Type 0) : Type 0 where
  pub capacity : ℕ
  pub ll : List ℕ
  pub cache : Map Str ℕ
  pub heap : Map ℕ (LruEntry V)
  pub next : ℕ

-- A capacity that is not positive counts as 1.
abbrev pub clamped : ℤ → ℕ
clamped (pos zero) = 1
clamped (pos (suc n)) = suc n
clamped (negsuc n) = 1

unfoldable pub new_lru_cache : {V : Type 0} → ℤ → LruCache V
new_lru_cache capacity = record {
  capacity = clamped capacity;
  ll = [];
  cache = [];
  heap = [];
  next = 0;
}

infixl 5 ◌>>=◌
abbrev pub ◌>>=◌ : {A B : Type 0} → Option A → (A → Option B) → Option B
none >>= f = none
some a >>= f = f a

module _ {V : Type 0} where
  get_hit : ℕ → LruCache V → Option (LruCache V × Option V)
  get_hit id c = do
    e ← lookup ℕ_discrete id c.heap
    some (record c { ll = move_to_front id c.ll }, some e.value)

  unfoldable pub lru_get : Str → LruCache V → Option (LruCache V × Option V)
  unfolding get_hit
  lru_get key c = elim (lookup Str_discrete key c.cache) [
    | none ↦ some (c, none)
    | some id ↦ get_hit id c
  ]

  -- An existing key: the element moves to the front and its entry is written.
  set_hit : ℕ → V → LruCache V → Option (LruCache V)
  set_hit id value c = do
    e ← lookup ℕ_discrete id c.heap
    some (record c {
      ll = move_to_front id c.ll;
      heap = insert ℕ_discrete id (record e { value = value }) c.heap;
    })

  -- The element at the back goes, with the key of its entry.
  evict_back : LruCache V → Option ℕ → Option (LruCache V)
  evict_back c none = some c
  evict_back c (some id) = do
    e ← lookup ℕ_discrete id c.heap
    some (record c { ll = remove id c.ll; cache = delete Str_discrete e.key c.cache })

  unfoldable pub make_room : LruCache V → Option (LruCache V)
  unfolding evict_back
  make_room c = if leb c.capacity (length c.ll) then evict_back c (back c.ll) else some c

  unfoldable pub push_new : Str → V → LruCache V → LruCache V
  push_new key value c = record c {
    ll = push_front c.next c.ll;
    cache = insert Str_discrete key c.next c.cache;
    heap = insert ℕ_discrete c.next (record { key = key; value = value }) c.heap;
    next = c.next + 1;
  }

  set_miss : Str → V → LruCache V → Option (LruCache V)
  set_miss key value c = do c' ← make_room c; some (push_new key value c')

  unfoldable pub lru_set : Str → V → LruCache V → Option (LruCache V)
  unfolding set_hit set_miss
  lru_set key value c = elim (lookup Str_discrete key c.cache) [
    | none ↦ set_miss key value c
    | some id ↦ set_hit id value c
  ]

  unfoldable pub lru_len : LruCache V → ℕ
  lru_len c = length c.ll
