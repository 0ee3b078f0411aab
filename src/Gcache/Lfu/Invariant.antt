-- ===== src/Gcache/Lfu/Invariant.antt =====
-- The invariant of the cache of lfu.go: every element that the map or a list leads to points to an entry.
use gk.Common.{ℕ, ◌<◌, ◌≡◌, ◌⊎◌, inr, ◌∙◌, List, [], ◌∷◌, some, arith, ℕ_discrete, if_pos, if_neg}
use gk.Common.Maps.{Map, lookup, insert, delete, lookup-insert, lookup-delete}
use gk.Common.Str.{Str, Str_discrete}
use gk.Common.Int64.{ℤ}
use gk.Gcache.Linked.{remove, back}
use gk.Gcache.Lfu.{LfuEntry, LfuCache, new_lfu_cache}

abbrev pub Among : ℕ → List ℕ → Type 0
Among x [] = ⊥
Among x (y ∷ l) = (x ≡ y) ⊎ Among x l

pub Among-remove : (x i : ℕ) (l : List ℕ) → Among x (remove i l) → Among x l
unfolding remove
Among-remove x i [] h = h
Among-remove x i (y ∷ l) h = ground (arith, Among-remove x i l)

pub back-Among : (l : List ℕ) (x : ℕ) → back l ≡ some x → Among x l
unfolding back
back-Among [] x h = absurd (cc h)
back-Among (y ∷ []) x h = ground arith
back-Among (y ∷ z ∷ l) x h = inr (back-Among (z ∷ l) x h)

module _ {K V : Type 0} (dec : Discrete K) where
  -- What is found after an insertion is what was inserted, or was there.
  pub insert_found :
      (k q : K) (v w : V) (m : Map K V)
      → lookup dec q (insert dec k v m) ≡ some w
      → ((k ≡ q) × (v ≡ w)) ⊎ (lookup dec q m ≡ some w)
  insert_found k q v w m h = ground (arith, lookup-insert dec k q v m)

  pub insert_kept :
      (k q : K) (v w : V) (m : Map K V)
      → lookup dec q m ≡ some w
      → (w' : V) × (lookup dec q (insert dec k v m) ≡ some w')
  insert_kept k q v w m h = elim (dec k q) [
    | yes same ↦ (v, lookup-insert dec k q v m ∙ if_pos (dec k q) same _ _)
    | no other ↦ (w, lookup-insert dec k q v m ∙ if_neg (dec k q) other _ _ ∙ h)
  ]

  pub delete_found :
      (k q : K) (w : V) (m : Map K V)
      → lookup dec q (delete dec k m) ≡ some w
      → lookup dec q m ≡ some w
  delete_found k q w m h = ground (arith, lookup-delete dec k q m)

module _ {V : Type 0} where
  -- The element points to an entry with the key, which stands under a frequency that has a list.
  pub record PointsBy (key : Str) (elem : ℕ) (elements : Map ℕ ℕ) (entries : Map ℕ (LfuEntry V))
      (lists : Map ℕ (List ℕ)) : Type 0 where
    pub id : ℕ
    pub e : LfuEntry V
    pub pointed : lookup ℕ_discrete elem elements ≡ some id
    pub stored : lookup ℕ_discrete id entries ≡ some e
    pub keyed : e.key ≡ key
    pub l : List ℕ
    pub listed : lookup ℕ_discrete e.freq lists ≡ some l

  abbrev pub Points : Str → ℕ → LfuCache V → Type 0
  Points key elem c = PointsBy key elem c.elements c.entries c.freq_to_list

  -- The element of each key points to an entry with that key, each element of a list points to an
  -- entry, and the numbers of the next element and of the next entry are new.
  pub record IsWf (c : LfuCache V) : Type 0 where
    pub mapped :
        (key : Str) (elem : ℕ) → lookup Str_discrete key c.cache ≡ some elem → Points key elem c
    pub in_lists :
        (freq : ℕ) (l : List ℕ) (elem : ℕ)
        → lookup ℕ_discrete freq c.freq_to_list ≡ some l
        → Among elem l
        → (key : Str) × Points key elem c
    pub new_element :
        (elem id : ℕ) → lookup ℕ_discrete elem c.elements ≡ some id → elem < c.next_element
    pub new_entry :
        (id : ℕ) (e : LfuEntry V) → lookup ℕ_discrete id c.entries ≡ some e → id < c.next_entry

  pub new_lfu_cache-IsWf : (n : ℤ) → IsWf (new_lfu_cache n)
  unfolding new_lfu_cache lookup
  new_lfu_cache-IsWf n = record {
    mapped = λ key elem h. absurd (cc h);
    in_lists = λ freq l elem h. absurd (cc h);
    new_element = λ elem id h. absurd (cc h);
    new_entry = λ id e h. absurd (cc h);
  }
