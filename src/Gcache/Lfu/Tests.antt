-- ===== src/Gcache/Lfu/Tests.antt =====
-- Runs of the LFU cache, and its theorem at a concrete input.
use mathlib.Core.Path.{subst}
use gk.Common.{sym, ap, ◌∙◌, ℕ, ◌≡◌, refl, none, some, Option, ℕ_discrete}
use gk.Common.Maps.{lookup, insert, delete}
use gk.Common.Str.{Str, str, Str_discrete}
use gk.Common.Int64.{pos}
use gk.Gcache.Linked.{remove, back}
use gk.Gcache.Lfu.{
  LfuCache, new_lfu_cache, list_of, push_entry, taken_out, increment_frequency, entry_of, get_hit,
  lfu_get, evict_back, evict, set_hit, push_new, make_room, set_miss, lfu_set, lfu_len,
}
use gk.Gcache.Lfu.Laws.{or_else}
use gk.Gcache.Lfu.Invariant.{IsWf, new_lfu_cache-IsWf}
use gk.Gcache.Lfu.Wf.{some_inj}
use gk.Gcache.Lfu.Writes.{lfu_set-IsWf, lfu_get-IsWf, lfu_get-lfu_set}

lfu_runs : Unit {0}
unfolding lookup insert delete Str_discrete ℕ_discrete remove back new_lfu_cache list_of push_entry
    taken_out increment_frequency entry_of get_hit lfu_get evict_back evict set_hit push_new
    make_room set_miss lfu_set lfu_len
lfu_runs = tt

abbrev set : Str → ℕ → LfuCache ℕ → LfuCache ℕ
set key value c = or_else c (lfu_set key value c)

abbrev get : Str → LfuCache ℕ → LfuCache ℕ × Option ℕ
get key c = or_else (c, none) (lfu_get key c)

-- Two keys, of which the first was read.
abbrev full_cache : LfuCache ℕ
full_cache = (get (str "a") (set (str "b") 2 (set (str "a") 1 (new_lfu_cache (pos 2))))).0

evicted : (get (str "b") (set (str "c") 3 full_cache)).1 ≡ none
unfolding lfu_runs
evicted = refl

kept : (get (str "a") (set (str "c") 3 full_cache)).1 ≡ some 1
unfolding lfu_runs
kept = refl

set-IsWf :
    (key : Str) (value : ℕ) (c c' : LfuCache ℕ) → IsWf c → lfu_set key value c ≡ some c' → IsWf c'
set-IsWf key value c c' wf same =
    let (c1, out, wf1) = lfu_set-IsWf key value c wf in subst IsWf (some_inj (sym out ∙ same)) wf1

get-IsWf :
    (key : Str) (found : Option ℕ) (c c' : LfuCache ℕ)
    → IsWf c
    → lfu_get key c ≡ some (c', found)
    → IsWf c'
get-IsWf key found c c' wf same =
    let (c1, found1, out, wf1) = lfu_get-IsWf key c wf in
    subst IsWf (ap (λ r. r.0) (some_inj (sym out ∙ same))) wf1

full_cache-IsWf : IsWf full_cache
unfolding lfu_runs
full_cache-IsWf =
    let c0 : LfuCache ℕ = new_lfu_cache (pos 2) in
    let c1 = set (str "a") 1 c0 in
    let c2 = set (str "b") 2 c1 in
    get-IsWf (str "a") (some 1) c2 full_cache
      (set-IsWf (str "b") 2 c1 c2 (set-IsWf (str "a") 1 c0 c1 (new_lfu_cache-IsWf (pos 2)) refl)
        refl)
      refl

-- The key is there, and is written again.
lfu_get-lfu_set_example :
    (c' : LfuCache ℕ) × (lfu_set (str "a") 3 full_cache ≡ some c')
    × IsWf c'
    × (c'' : LfuCache ℕ) × (lfu_get (str "a") c' ≡ some (c'', some 3))
    × IsWf c''
unfolding lfu_runs
lfu_get-lfu_set_example = lfu_get-lfu_set (str "a") 3 full_cache full_cache-IsWf refl
