-- ===== src/Gserver/Tests.antt =====
-- Runs of the router, and its theorems at concrete inputs.
use mathlib.Core.List.{head?}
use gk.Common.{ℕ, not, ◌≡◌, refl, List, [], ◌∷◌, arith, length, none, some, ℕ_discrete, inl}
use gk.Common.Maps.{lookup, insert, delete}
use gk.Common.Str.{Str, str, Str_discrete, slashes}
use gk.Gserver.Entry.{Entry, Kind, kinds, new_route_entry, split_path_segments, to_result}
use gk.Gserver.Radix.{get_child, set_child, Node, new_tree, new_node, insert_at, insert_entry}
use gk.Gserver.Radix.Find.{find, search}
use gk.Gserver.Radix.Remove.{remove_node, remove_path}
use gk.Gserver.Radix.Remove.Laws
use gk.Gserver.Radix.Routes.{Shape, stop, text, shape, entry_at}
use gk.Gserver.Radix.Routes
use gk.Gserver.Radix.Count.{
  IsCounted, new_tree-IsCounted, insert_entry-IsCounted, remove_path-IsCounted,
}
use gk.Gserver.Radix.Matching.{serving, find-serving, find-Serves, find_complete}
use gk.Gserver.PathCheck.{check_path_valid}
use gk.Gserver.Method.{
  MethodMatcher, new_method_matcher, returns, any_param, any_wild, add_route, match_path,
  match_into, remove_route, path_segment_count, extract_path_feature,
}
use gk.Gserver.Method.Counting.{path_segment_count_lem}
use gk.Gserver.Method.Laws.{
  IsSound, after, new_method_matcher-IsSound, add_route-IsSound, remove_route-IsSound,
}
use gk.Gserver.Method.Lookup.{result_targets}
use gk.Gserver.Method.Unknown.{panicked, registered, add_routes, remove_route-panicked}
use gk.Gserver.Method.Unreachable.{add_route_unreachable}
use gk.Gserver.Radix.Unreachable.{depth}
use gk.Gserver.Server.{
  ServerMatcher, new_server_matcher, server_lookup, lookup_into, server_add_route,
  server_remove_route,
}
use gk.Gserver.Server.Laws.{IsServing, lookup_into-server_lookup, server_add_route-IsServing}

router : Unit {0}
unfolding slashes get_child set_child to_result lookup insert delete Str_discrete ℕ_discrete kinds
    split_path_segments new_route_entry insert_entry insert_at find search remove_node remove_path
    shape entry_at serving check_path_valid any_param any_wild extract_path_feature
    path_segment_count add_route match_path match_into remove_route depth server_lookup lookup_into
    server_add_route server_remove_route
router = tt

abbrev user_entry : Entry
user_entry = record { path = str "/user/:id"; handlers = 1 ∷ []; param_names = str "id" ∷ [] }

abbrev user_kinds : List Kind
user_kinds = Kind.lit (str "user") ∷ Kind.param (str "id") ∷ []

abbrev root : Node
root = new_node []

abbrev user_root : Node
user_root = (insert_at user_kinds user_entry root).0

abbrev user_path : List Str
user_path = str "user" ∷ str "7" ∷ []

abbrev m0 : MethodMatcher
m0 = new_method_matcher

abbrev m1 : MethodMatcher
m1 = after (add_route (str "/user/:id") (1 ∷ []) m0)

user_route :
    (kinds (str "/user/:id") ≡ user_kinds)
    × (new_route_entry (str "/user/:id") (1 ∷ []) ≡ user_entry)
unfolding router
user_route = (refl, refl)

lookups :
    (match_path (str "/user/7") m1
      ≡ some (record {
        path = str "/user/:id";
        handlers = 1 ∷ [];
        path_params = some ((str "id", str "7") ∷ []);
      }))
    × (match_path (str "/user") m1 ≡ none)
    × (check_path_valid (str "/a/*rest") ≡ none)
unfolding router
lookups = (refl, refl, refl)

insert_at-entry_at_example :
    (entry_at (shape user_kinds) root ≡ none)
    × (entry_at (shape user_kinds) user_root ≡ some user_entry)
unfolding router
insert_at-entry_at_example = Routes.insert_at-entry_at user_kinds user_entry root refl

insert_at-entry_at_ne_example : entry_at stop user_root ≡ entry_at stop root
unfolding router
insert_at-entry_at_ne_example =
    Routes.insert_at-entry_at_ne user_kinds stop user_entry root (λ e. cc)

remove_node-entry_at_example :
    entry_at (shape user_kinds) (remove_node user_kinds user_root).left ≡ none
unfolding router
remove_node-entry_at_example = Laws.remove_node-entry_at user_kinds user_root refl

remove_node-entry_at_ne_example :
    entry_at stop (remove_node user_kinds user_root).left ≡ entry_at stop user_root
unfolding router
remove_node-entry_at_ne_example =
    Laws.remove_node-entry_at_ne user_kinds stop user_root (inl (λ e. cc))

insert_entry-IsCounted_example : IsCounted (insert_entry (some user_entry) new_tree).0
insert_entry-IsCounted_example =
    insert_entry-IsCounted (some user_entry) new_tree new_tree-IsCounted

remove_path-IsCounted_example :
    IsCounted (remove_path (str "/user/:id") (insert_entry (some user_entry) new_tree).0).0
remove_path-IsCounted_example =
    remove_path-IsCounted (str "/user/:id") (insert_entry (some user_entry) new_tree).0
      (insert_entry-IsCounted (some user_entry) new_tree new_tree-IsCounted)

find-serving_example : (find user_path user_root none).0 ≡ head? (serving user_path user_root)
find-serving_example = find-serving user_path user_root none

find_complete_example : (found : Entry) × ((find user_path user_root none).0 ≡ some found)
unfolding router
find_complete_example =
    find_complete user_path user_root none (find-Serves user_path user_root none refl)

path_segment_count_example :
    path_segment_count (str "//a/b/") ≡ length (split_path_segments (str "//a/b/"))
path_segment_count_example = path_segment_count_lem (str "//a/b/")

add_route-IsSound_example : IsSound m1
add_route-IsSound_example =
    add_route-IsSound (str "/user/:id") (1 ∷ []) m0 new_method_matcher-IsSound

remove_route-IsSound_example : IsSound (after (remove_route (str "/user/:id") m1))
remove_route-IsSound_example =
    remove_route-IsSound (str "/user/:id") m1
      (add_route-IsSound (str "/user/:id") (1 ∷ []) m0 new_method_matcher-IsSound)

-- Only the first two are kept in the index, with two segments each.
abbrev registrations : List (Str × List ℕ)
registrations =
    (str "/user/:id", 1 ∷ [])
    ∷ (str "/:a/b", 2 ∷ [])
    ∷ (str "/x/y/z", 3 ∷ [])
    ∷ (str "/:c/d/*rest", 4 ∷ [])
    ∷ []

remove_route-panicked_example :
    panicked (remove_route (str "/a/:b/c") (add_routes registrations))
    ≡ not (registered (length (split_path_segments (str "/a/:b/c"))) registrations)
unfolding router
remove_route-panicked_example = remove_route-panicked (str "/a/:b/c") registrations refl refl

add_route_unreachable_example :
    (m' : MethodMatcher) × (add_route (str "/a//:id") (3 ∷ []) m1 ≡ returns m' none)
    × ((q : Str) → match_path q m' ≡ match_path q m1)
unfolding router
add_route_unreachable_example =
    add_route_unreachable (str "/a//:id") (3 ∷ []) m1 refl refl refl (omega arith) refl

abbrev s1 : ServerMatcher
s1 = after (server_add_route (str "GET") (str "/user/:id") (1 ∷ []) new_server_matcher)

s0-IsServing : IsServing new_server_matcher
unfolding lookup
s0-IsServing = record { sound = λ method m found. cc }

s1-IsServing : IsServing s1
s1-IsServing =
    server_add_route-IsServing (str "GET") (str "/user/:id") (1 ∷ []) new_server_matcher
      s0-IsServing

lookup_into-server_lookup_example :
    (lookup_into (str "GET") (str "/user/7") [] s1).0
    ≡ result_targets (server_lookup (str "GET") (str "/user/7") s1)
lookup_into-server_lookup_example =
    lookup_into-server_lookup (str "GET") (str "/user/7") [] s1 s1-IsServing
