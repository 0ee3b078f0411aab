-- ===== src/Gserver/Method/Lookup.antt =====
-- What a method's lookups return.
use mathlib.Core.List.{head?}
use gk.Common.{
  ℕ, ◌≡◌, refl, sym, ap, ap₂, ◌∙◌, List, [], Option, none, some, Option-cases, inl, inr,
}
use gk.Common.Maps.{Map, lookup}
use gk.Common.Str.{Str, Str_discrete}
use gk.Gserver.Entry.{Entry, MatchResult, split_path_segments, to_result}
use gk.Gserver.Radix.{Tree}
use gk.Gserver.Radix.Find.{Found, find, search, search_into}
use gk.Gserver.Radix.Matching.{find-serving, serving}
use gk.Gserver.Method.{
  MethodMatcher, match_path, match_into, in_index, in_index_into, or_else, or_else_into,
}
use gk.Gserver.Method.Laws.{IsSound}

-- The part of a result that a caller uses to run the request.
abbrev pub target : MatchResult → List ℕ × Str
target r = (r.handlers, r.path)

abbrev pub entry_target : Entry → List ℕ × Str
entry_target e = (e.handlers, e.path)

abbrev pub targets : Option Entry → Option (List ℕ × Str)
targets none = none
targets (some e) = some (entry_target e)

abbrev pub result_targets : Option MatchResult → Option (List ℕ × Str)
result_targets none = none
result_targets (some r) = some (target r)

search-target :
    (path : Str) (t : Tree)
    → result_targets (search path t) ≡ targets (head? (serving (split_path_segments path) t.root))
unfolding search to_result
search-target path t =
    by_entry (find (split_path_segments path) t.root none) (find-serving _ _ none)
  where
    by_entry :
        {o : Option Entry} (r : Found)
        → r.0 ≡ o
        → result_targets (elim r.0 as (λ _. Option MatchResult) [
          | none ↦ none
          | some e ↦ some (to_result e r.1)
        ])
          ≡ targets o
    by_entry (none, ps) h = rw (← h) refl
    by_entry (some e, ps) h = rw (← h) refl

search_into-target :
    (path : Str) (ps : Map Str Str) (t : Tree)
    → targets (search_into path ps t).0
      ≡ targets (head? (serving (split_path_segments path) t.root))
unfolding search_into
search_into-target path ps t = rw (find-serving (split_path_segments path) t.root (some ps)) refl

index-target :
    (path : Str) (o : Option Tree)
    → result_targets (in_index path o) ≡ targets (in_index_into path o).0
unfolding in_index in_index_into
index-target path none = refl
index-target path (some t) = search-target path t ∙ sym (search_into-target path [] t)

or_else-target :
    (r : Option MatchResult) (next : Option MatchResult) (q : Option Entry × Map Str Str)
    (after : Map Str Str → Option Entry × Map Str Str)
    → result_targets r ≡ targets q.0
    → ((ps : Map Str Str) → result_targets next ≡ targets (after ps).0)
    → result_targets (or_else r next) ≡ targets (or_else_into q after).0
or_else-target none next (none, ps) after h k = k ps
or_else-target none next (some e, ps) after h k = cc
or_else-target (some r) next (none, ps) after h k = cc
or_else-target (some r) next (some e, ps) after h k = h

-- The lookup that writes into the caller's map finds the same handlers and the same route as the
-- lookup that allocates, whatever the map held before.
pub match_into-match_path :
    (path : Str) (params : Map Str Str) (m : MethodMatcher)
    → IsSound m
    → targets (match_into path params m).0 ≡ result_targets (match_path path m)
unfolding match_path match_into
match_into-match_path path params m h =
    elim (Option-cases (lookup Str_discrete path m.static_group)) [
      | inr (e, found) ↦
          rw (found, targets, result_targets)
            (ap some (ap₂ (λ hs p. (hs, p)) refl (h.keyed path e found)))
      | inl missing ↦
          rw (missing, targets, result_targets)
            (sym (
              or_else-target _ _ _ _ (index-target path _) (λ ps.
                search-target path m.radix_tree ∙ sym (search_into-target path ps m.radix_tree))))
    ]
