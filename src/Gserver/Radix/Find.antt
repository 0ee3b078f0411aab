-- ===== src/Gserver/Radix/Find.antt =====
-- `find`, `search` and `searchInto`: radix.go. The parameters are the map behind the pointer `params`,
-- `none` while it is nil; the map as the search leaves it is returned beside the entry.
use gk.Common.{List, [], ◌∷◌, Option, none, some}
use gk.Common.Maps
use gk.Common.Maps.{Map}
use gk.Common.Str.{Str, Str_discrete, join}
use gk.Gserver.Entry.{Entry, MatchResult, split_path_segments, to_result}
use gk.Gserver.Radix.{
  Node, Slot, empty, full, Tree, children, param_child, wildcard_child, param_name, entry,
  get_child,
}

abbrev pub Params : Type 0
Params = Option (Map Str Str)

abbrev pub ensure_params : Params → Map Str Str
ensure_params none = []
ensure_params (some m) = m

unfoldable pub put_param : Str → Str → Params → Params
put_param name value ps = some (Maps.insert Str_discrete name value (ensure_params ps))

unfoldable pub drop_param : Str → Params → Params
drop_param name ps = some (Maps.delete Str_discrete name (ensure_params ps))

abbrev pub Found : Type 0
Found = Option Entry × Params

-- The wildcard case, which takes `value` if the child has an entry.
unfoldable pub take_wild : Str → Slot → Params → Found
unfolding put_param
take_wild value empty ps = (none, ps)
take_wild value (full w) ps = elim (entry w) [
  | none ↦ (none, ps)
  | some e ↦ (some e, put_param (param_name w) value ps)
]

-- The first result if it is an entry, or else what follows on the parameters that it leaves.
abbrev pub or_else : Found → (Params → Found) → Found
or_else (some e, ps) next = (some e, ps)
or_else (none, ps) next = next ps

-- The static child, if there is one, with the search below it.
abbrev pub in_static : (Node → Params → Found) → Option Node → Params → Found
in_static go none ps = (none, ps)
in_static go (some child) ps = go child ps

-- The parameter child: the parameter is set, and deleted again if the search below fails.
unfoldable pub in_param : (Node → Params → Found) → Str → Slot → Params → Found
unfolding put_param drop_param
in_param go segment empty ps = (none, ps)
in_param go segment (full child) ps =
    or_else (go child (put_param (param_name child) segment ps))
      (λ ps'. (none, drop_param (param_name child) ps'))

unfoldable pub find : List Str → Node → Params → Found
unfolding take_wild in_param
find [] n ps = elim (entry n) [ some e ↦ (some e, ps) | none ↦ take_wild [] (wildcard_child n) ps ]
find ([] ∷ rest) n ps = take_wild (join ([] ∷ rest)) (wildcard_child n) ps
find ((c ∷ s) ∷ rest) n ps =
    or_else
      (or_else (in_static (find rest) (get_child (c ∷ s) (children n)) ps)
        (in_param (find rest) (c ∷ s) (param_child n)))
      (take_wild (join ((c ∷ s) ∷ rest)) (wildcard_child n))

unfoldable pub search : Str → Tree → Option MatchResult
unfolding find split_path_segments
search path t =
    let (found, ps) = find (split_path_segments path) t.root none in
    elim found [ none ↦ none | some e ↦ some (to_result e ps) ]

unfoldable pub search_into : Str → Map Str Str → Tree → Option Entry × Map Str Str
unfolding find split_path_segments
search_into path dst t =
    let (found, ps) = find (split_path_segments path) t.root (some dst) in (found, ensure_params ps)
