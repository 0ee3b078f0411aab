-- ===== src/Gcache/Lfu.antt =====
-- `LFUCache`: lfu.go. Elements and entries are numbers into two heaps, so that the map and the lists of
-- the frequencies share them as in the source: an element of a list points to an entry, and a higher
-- frequency gives the entry a new element. `none` is a nil dereference.
pub mod Laws
pub mod Invariant
pub mod Wf
pub mod Moves
pub mod Writes
mod Tests
use gk.Common.{
  ℕ, zero, suc, ◌+◌, ◌-◌, Bool, ◌&&◌, ◌==◌, List, [], ◌∷◌, Option, none, some, length, leb,
  if◌then◌else◌, ℕ_discrete,
}
use gk.Common.Maps.{Map, lookup, insert, delete}
use gk.Common.Str.{Str, Str_discrete}
use gk.Common.Int64.{ℤ}
use gk.Gcache.Linked.{remove, push_front, back}
use gk.Gcache.Lru.{clamped, ◌>>=◌}

pub record LfuEntry (V : Type 0) : Type 0 where
  pub key : Str
  pub value : V
  pub freq : ℕ

pub record LfuCache (V : Type 0) : Type 0 where
  pub capacity : ℕ
  pub min_freq : ℕ
  pub cache : Map Str ℕ
  pub freq_to_list : Map ℕ (List ℕ)
  pub elements : Map ℕ ℕ
  pub entries : Map ℕ (LfuEntry V)
  pub next_element : ℕ
  pub next_entry : ℕ

unfoldable pub new_lfu_cache : {V : Type 0} → ℤ → LfuCache V
new_lfu_cache capacity = record {
  capacity = clamped capacity;
  min_freq = 0;
  cache = [];
  freq_to_list = [];
  elements = [];
  entries = [];
  next_element = 0;
  next_entry = 0;
}

-- The list of a frequency, which is made if it is not there yet.
unfoldable pub list_of : Option (List ℕ) → List ℕ
list_of none = []
list_of (some l) = l

module _ {V : Type 0} where
  -- An entry gets a new element at the front of the list of its frequency, and the map points to it.
  unfoldable pub push_entry : ℕ → LfuEntry V → LfuCache V → LfuCache V
  unfolding list_of lookup insert
  push_entry id e c = record c {
    cache = insert Str_discrete e.key c.next_element c.cache;
    freq_to_list =
        insert ℕ_discrete e.freq
          (push_front c.next_element (list_of (lookup ℕ_discrete e.freq c.freq_to_list)))
          c.freq_to_list;
    elements = insert ℕ_discrete c.next_element id c.elements;
    entries = insert ℕ_discrete id e c.entries;
    next_element = c.next_element + 1;
  }

  -- The element goes from the list of its frequency, whose end may raise the least frequency.
  unfoldable pub taken_out : ℕ → ℕ → List ℕ → LfuCache V → LfuCache V
  unfolding remove insert
  taken_out elem freq l c =
      let l' = remove elem l in
      record c {
        freq_to_list = insert ℕ_discrete freq l' c.freq_to_list;
        min_freq = if length l' == 0 && freq == c.min_freq then c.min_freq + 1 else c.min_freq;
      }

  unfoldable pub increment_frequency : ℕ → LfuCache V → Option (LfuCache V)
  unfolding taken_out push_entry lookup
  increment_frequency elem c = do
    id ← lookup ℕ_discrete elem c.elements
    e ← lookup ℕ_discrete id c.entries
    l ← lookup ℕ_discrete e.freq c.freq_to_list
    some (push_entry id (record e { freq = e.freq + 1 }) (taken_out elem e.freq l c))

  -- `elem.Value.(*lfuEntry)`
  unfoldable pub entry_of : ℕ → LfuCache V → Option (LfuEntry V)
  unfolding lookup
  entry_of elem c = do id ← lookup ℕ_discrete elem c.elements; lookup ℕ_discrete id c.entries

  unfoldable pub get_hit : ℕ → LfuCache V → Option (LfuCache V × Option V)
  unfolding increment_frequency entry_of
  get_hit elem c = do c' ← increment_frequency elem c; e ← entry_of elem c'; some (c', some e.value)

  unfoldable pub lfu_get : Str → LfuCache V → Option (LfuCache V × Option V)
  unfolding get_hit
  lfu_get key c = elim (lookup Str_discrete key c.cache) [
    | none ↦ some (c, none)
    | some elem ↦ get_hit elem c
  ]

  -- The element at the back of the list of the least frequency goes, with the key of its entry.
  unfoldable pub evict_back : List ℕ → LfuCache V → Option ℕ → Option (LfuCache V)
  unfolding entry_of
  evict_back l c none = some c
  evict_back l c (some elem) = do
    e ← entry_of elem c
    some (record c {
      freq_to_list = insert ℕ_discrete c.min_freq (remove elem l) c.freq_to_list;
      cache = delete Str_discrete e.key c.cache;
    })

  unfoldable pub evict : LfuCache V → Option (LfuCache V)
  unfolding evict_back back
  evict c = elim (lookup ℕ_discrete c.min_freq c.freq_to_list) [
    | none ↦ some c
    | some l ↦ evict_back l c (back l)
  ]

  -- An existing key: its entry is written, and its frequency goes up.
  unfoldable pub set_hit : ℕ → V → LfuCache V → Option (LfuCache V)
  unfolding increment_frequency
  set_hit elem value c = do
    id ← lookup ℕ_discrete elem c.elements
    e ← lookup ℕ_discrete id c.entries
    increment_frequency elem
        (record c { entries = insert ℕ_discrete id (record e { value = value }) c.entries })

  unfoldable pub push_new : Str → V → LfuCache V → LfuCache V
  unfolding push_entry
  push_new key value c =
      let c' = push_entry c.next_entry (record { key = key; value = value; freq = 1 }) c in
      record c' { min_freq = 1; next_entry = c.next_entry + 1 }

  unfoldable pub make_room : LfuCache V → Option (LfuCache V)
  unfolding evict
  make_room c = if leb c.capacity (length c.cache) then evict c else some c

  unfoldable pub set_miss : Str → V → LfuCache V → Option (LfuCache V)
  unfolding make_room push_new
  set_miss key value c = do c' ← make_room c; some (push_new key value c')

  unfoldable pub lfu_set : Str → V → LfuCache V → Option (LfuCache V)
  unfolding set_hit set_miss
  lfu_set key value c = if c.capacity == 0 then some c else elim (lookup Str_discrete key c.cache) [
    | none ↦ set_miss key value c
    | some elem ↦ set_hit elem value c
  ]

  unfoldable pub lfu_len : LfuCache V → ℕ
  lfu_len c = length c.cache
