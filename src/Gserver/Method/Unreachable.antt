-- ===== src/Gserver/Method/Unreachable.antt =====
-- Registering a route with an empty inner segment, such as "/a//:id".
use mathlib.Core.List.{head?}
use gk.Common.{
  ℕ, suc, ◌≡◌, ◌≢◌, refl, sym, ap, ◌∙◌, List, [], ◌∷◌, arith, length, none, some, true, false,
  ℕ_discrete, map,
}
use gk.Common.Maps.{lookup, insert, lookup-insert}
use gk.Common.Str.{Str}
use gk.Gserver.Entry.{Entry, Kind, kind, kinds, new_route_entry, split_path_segments}
use gk.Gserver.Radix.{Tree, new_tree, insert_entry}
use gk.Gserver.Radix.Find.{find, search}
use gk.Gserver.Radix.Matching.{find-serving, serving}
use gk.Gserver.Radix.Unreachable.{depth, NoWild, serving-insert_at, insert_at-new_ok}
use gk.Gserver.PathCheck.{check_path_valid}
use gk.Gserver.Method.{
  extract_path_feature, MethodMatcher, returns, any_param, any_wild, add_route, match_path,
  path_segment_count, in_index, add_to_index,
}
use gk.Gserver.Method.Counting.{path_segment_count_lem}

search-none : (q : Str) (t : Tree) → serving (split_path_segments q) t.root ≡ [] → search q t ≡ none
unfolding search
search-none q t h =
    let nothing : (find (split_path_segments q) t.root none).0 ≡ none =
      find-serving (split_path_segments q) t.root none ∙ ap head? h in
    rw (nothing, search) refl

any_wild-NoWild : (ks : List Kind) → any_wild ks ≡ false → NoWild ks
unfolding any_wild
any_wild-NoWild [] h = tt
any_wild-NoWild (Kind.wild name ∷ ks) h = cc
any_wild-NoWild (Kind.skip ∷ ks) h = any_wild-NoWild ks h
any_wild-NoWild (Kind.param name ∷ ks) h = any_wild-NoWild ks h
any_wild-NoWild (Kind.lit s ∷ ks) h = any_wild-NoWild ks h

length-map : (segs : List Str) → length (map kind segs) ≡ length segs
length-map [] = refl
length-map (s ∷ segs) = ap suc (length-map segs)

length-kinds : (path : Str) → length (kinds path) ≡ length (split_path_segments path)
unfolding kinds
length-kinds path = length-map (split_path_segments path)

insert_new-ok : (e : Entry) → NoWild (kinds e.path) → (insert_entry (some e) new_tree).1 ≡ none
unfolding insert_entry
insert_new-ok e w = insert_at-new_ok (kinds e.path) e [] w

search-insert_new :
    (e : Entry) (q : Str)
    → NoWild (kinds e.path)
    → length (split_path_segments q) ≢ depth (kinds e.path)
    → search q (insert_entry (some e) new_tree).0 ≡ none
unfolding insert_entry
search-insert_new e q w h =
    search-none q _ (serving-insert_at (kinds e.path) (split_path_segments q) e [] w h)

module _ (path : Str) (handlers : List ℕ) (m : MethodMatcher) where
  abbrev cnt : ℕ
  cnt = length (split_path_segments path)

  abbrev grown_tree : Tree
  grown_tree = (insert_entry (some (new_route_entry path handlers)) new_tree).0

  abbrev added : MethodMatcher
  added = record m { segment_index = insert ℕ_discrete cnt grown_tree m.segment_index }

  -- Take a route with parameters and no catch-all that has an empty inner segment, and is the first
  -- of its number of segments. It is registered with no error, and yet no lookup changes.
  pub add_route_unreachable :
      check_path_valid path ≡ none
      → any_param (kinds path) ≡ true
      → any_wild (kinds path) ≡ false
      → depth (kinds path) ≢ length (kinds path)
      → lookup ℕ_discrete (length (split_path_segments path)) m.segment_index ≡ none
      → (m' : MethodMatcher) × (add_route path handlers m ≡ returns m' none)
        × ((q : Str) → match_path q m' ≡ match_path q m)
  unfolding add_route add_to_index extract_path_feature new_route_entry match_path in_index
  add_route_unreachable valid has_param no_wild skips first = (added, registered, unchanged)
    where
      plain : NoWild (kinds path)
      plain = any_wild-NoWild (kinds path) no_wild

      registered : add_route path handlers m ≡ returns added none
      registered = ground (arith, insert_new-ok (new_route_entry path handlers) plain)

      other_count : (q : Str) → path_segment_count q ≡ cnt → search q grown_tree ≡ none
      other_count q same =
          search-insert_new (new_route_entry path handlers) q plain
            (λ d. skips (sym d ∙ sym (path_segment_count_lem q) ∙ same ∙ sym (length-kinds path)))

      unchanged : (q : Str) → match_path q added ≡ match_path q m
      unchanged q = ground (
        arith,
        other_count q,
        lookup-insert ℕ_discrete cnt (path_segment_count q) grown_tree m.segment_index,
      )
