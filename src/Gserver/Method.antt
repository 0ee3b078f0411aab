-- ===== src/Gserver/Method.antt =====
-- `MethodMatcher`: method_matcher.go. A handler's panic is an outcome of its own.
pub mod Counting
pub mod Laws
pub mod Static
pub mod Unreachable
pub mod Unknown
pub mod Lookup
use gk.Common.{
  ℕ, suc, ◌+◌, Bool, true, false, List, [], ◌∷◌, Option, none, some, ◌==◌, if◌then◌else◌, not, ◌||◌,
  ◌&&◌, ℕ_discrete, length, reverse,
}
use gk.Common.Maps.{Map, lookup, insert, delete}
use gk.Common.Str.{Str, Str_discrete, trim_left, slashes}
use gk.Gserver.Entry.{Entry, MatchResult, Kind, kinds, split_path_segments, new_route_entry}
use gk.Gserver.Radix.{RouteError, not_found, Tree, new_tree, insert_entry}
use gk.Gserver.Radix.Find.{search, search_into}
use gk.Gserver.Radix.Remove.{remove_path}
use gk.Gserver.PathCheck.{PathPanic, check_path_valid}

pub record PathFeature : Type 0 where
  pub length : ℕ
  pub segment_cnt : ℕ
  pub has_param : Bool
  pub has_wild : Bool

pub record MethodMatcher : Type 0 where
  pub static_group : Map Str Entry
  pub segment_index : Map ℕ Tree
  pub radix_tree : Tree

abbrev pub new_method_matcher : MethodMatcher
new_method_matcher = record { static_group = []; segment_index = []; radix_tree = new_tree }

unfoldable pub any_param : List Kind → Bool
any_param [] = false
any_param (Kind.param name ∷ ks) = true
any_param (_ ∷ ks) = any_param ks

unfoldable pub any_wild : List Kind → Bool
any_wild [] = false
any_wild (Kind.wild name ∷ ks) = true
any_wild (_ ∷ ks) = any_wild ks

unfoldable pub extract_path_feature : Str → PathFeature
extract_path_feature path = record {
  length = length path;
  segment_cnt = length (split_path_segments path);
  has_param = any_param (kinds path);
  has_wild = any_wild (kinds path);
}

pub data RouterPanic : Type 0 where
  bad_path : PathPanic → RouterPanic
  nil_tree : RouterPanic

pub data MethodError : Type 0 where
  duplicate_static static_not_found : Str → MethodError
  in_tree : RouteError → MethodError

-- How a call ends: it returns a new state and an error or nil, or it panics and leaves a
-- state behind.
pub data Outcome (S E : Type 0) : Type 0 where
  returns : S → Option E → Outcome S E
  panics : S → RouterPanic → Outcome S E

abbrev tree_error : Option RouteError → Option MethodError
tree_error none = none
tree_error (some err) = some (in_tree err)

abbrev tree_or_new : Option Tree → Tree
tree_or_new none = new_tree
tree_or_new (some t) = t

add_to_radix : Entry → MethodMatcher → Outcome MethodMatcher MethodError
add_to_radix e m =
    let (t, err) = insert_entry (some e) m.radix_tree in
    returns (record m { radix_tree = t }) (tree_error err)

add_to_index : ℕ → Entry → MethodMatcher → Outcome MethodMatcher MethodError
add_to_index cnt e m =
    let (t, err) = insert_entry (some e) (tree_or_new (lookup ℕ_discrete cnt m.segment_index)) in
    returns (record m { segment_index = insert ℕ_discrete cnt t m.segment_index }) (tree_error err)

add_static : Str → Entry → MethodMatcher → Outcome MethodMatcher MethodError
add_static path e m = elim (lookup Str_discrete path m.static_group) [
  | some old ↦ returns m (some (duplicate_static path))
  | none ↦ returns (record m { static_group = insert Str_discrete path e m.static_group }) none
]

unfoldable pub add_route : Str → List ℕ → MethodMatcher → Outcome MethodMatcher MethodError
unfolding add_static add_to_radix add_to_index
add_route path handlers m = elim (check_path_valid path) [
  | some p ↦ panics m (bad_path p)
  | none ↦
      let e = new_route_entry path handlers in
      let feature = extract_path_feature path in
      if not feature.has_param && not feature.has_wild
      then add_static path e m
      else if feature.has_wild
      then add_to_radix e m
      else add_to_index feature.segment_cnt e m
]

-- The two index loops take the slashes off both ends, and the last one counts those that are left.
unfoldable pub path_segment_count : Str → ℕ
path_segment_count path = elim (reverse (trim_left (reverse (trim_left path)))) [
  | [] ↦ 0
  | c ∷ s ↦ 1 + slashes (c ∷ s)
]

abbrev pub or_else : Option MatchResult → Option MatchResult → Option MatchResult
or_else none next = next
or_else (some r) next = some r

in_index : Str → Option Tree → Option MatchResult
in_index path none = none
in_index path (some t) = search path t

unfoldable pub match_path : Str → MethodMatcher → Option MatchResult
unfolding in_index
match_path path m = elim (lookup Str_discrete path m.static_group) [
  | some e ↦ some (record { path = path; handlers = e.handlers; path_params = none })
  | none ↦
      or_else (in_index path (lookup ℕ_discrete (path_segment_count path) m.segment_index))
        (search path m.radix_tree)
]

-- The entries of `params` are deleted first, then each search writes into the same map.
in_index_into : Str → Option Tree → Option Entry × Map Str Str
in_index_into path none = (none, [])
in_index_into path (some t) = search_into path [] t

abbrev pub or_else_into :
    Option Entry × Map Str Str
    → (Map Str Str → Option Entry × Map Str Str)
    → Option Entry × Map Str Str
or_else_into (some e, ps) next = (some e, ps)
or_else_into (none, ps) next = next ps

unfoldable pub match_into : Str → Map Str Str → MethodMatcher → Option Entry × Map Str Str
unfolding in_index_into
match_into path params m = elim (lookup Str_discrete path m.static_group) [
  | some e ↦ (some e, [])
  | none ↦
      or_else_into
        (in_index_into path (lookup ℕ_discrete (path_segment_count path) m.segment_index))
        (λ ps. search_into path ps m.radix_tree)
]

remove_static : Str → MethodMatcher → Outcome MethodMatcher MethodError
remove_static path m = elim (lookup Str_discrete path m.static_group) [
  | some old ↦ returns (record m { static_group = delete Str_discrete path m.static_group }) none
  | none ↦ returns m (some (static_not_found path))
]

-- `entries.remove` on a nil tree locks a nil pointer.
remove_from_index : Str → ℕ → Option Tree → MethodMatcher → Outcome MethodMatcher MethodError
remove_from_index path cnt none m = panics m nil_tree
remove_from_index path cnt (some t) m =
    let (t', err) = remove_path path t in
    returns (record m { segment_index = insert ℕ_discrete cnt t' m.segment_index }) (tree_error err)

remove_from_radix : Str → MethodMatcher → Outcome MethodMatcher MethodError
remove_from_radix path m =
    let (t, err) = remove_path path m.radix_tree in
    returns (record m { radix_tree = t }) (tree_error err)

unfoldable pub remove_route : Str → MethodMatcher → Outcome MethodMatcher MethodError
unfolding remove_static remove_from_radix remove_from_index
remove_route path m =
    let feature = extract_path_feature path in
    if not feature.has_param && not feature.has_wild
    then remove_static path m
    else if feature.has_wild
    then remove_from_radix path m
    else remove_from_index path feature.segment_cnt
        (lookup ℕ_discrete feature.segment_cnt m.segment_index) m
