-- ===== src/Gserver/Method/Laws.antt =====
-- The invariant of a method's routes, and the agreement of the two ways to look a path up.

use mathlib.Core.Path.{subst}
use gk.Common.{
  ℕ, ◌≡◌, inl, inr, refl, List, arith, Option, none, some, Bool, true, false, Option-cases,
  ℕ_discrete, if◌then◌else◌, not, ◌&&◌,
}
use gk.Common.Maps.{Map, lookup, insert, lookup-insert, lookup-delete}
use gk.Common.Str.{Str, Str_discrete}
use gk.Gserver.Entry.{Entry, new_route_entry}
use gk.Gserver.Radix.{Tree}
use gk.Gserver.Radix.Count.{
  IsCounted, new_tree-IsCounted, insert_entry-IsCounted, remove_path-IsCounted,
}
use gk.Gserver.Method.{
  new_method_matcher, MethodMatcher, MethodError, Outcome, returns, panics, add_route, remove_route,
  extract_path_feature, tree_or_new, add_static, add_to_index, add_to_radix, remove_static,
  remove_from_index, remove_from_radix,
}
use gk.Gserver.PathCheck.{check_path_valid}

-- Every tree's counter is right, and a static entry stands under its own path.
pub record IsSound (m : MethodMatcher) : Type 0 where
  pub keyed :
      (path : Str) (e : Entry) → lookup Str_discrete path m.static_group ≡ some e → e.path ≡ path
  pub indexed : (cnt : ℕ) (t : Tree) → lookup ℕ_discrete cnt m.segment_index ≡ some t → IsCounted t
  pub radix : IsCounted m.radix_tree

-- The state that an outcome leaves.
abbrev pub after : {S E : Type 0} → Outcome S E → S
after (returns s err) = s
after (panics s p) = s

if-IsSound :
    (b : Bool) (x y : Outcome MethodMatcher MethodError)
    → IsSound (after x)
    → IsSound (after y)
    → IsSound (after (if b then x else y))
if-IsSound true x y h k = h
if-IsSound false x y h k = k

tree_or_new-IsCounted :
    (o : Option Tree) → ((t : Tree) → o ≡ some t → IsCounted t) → IsCounted (tree_or_new o)
tree_or_new-IsCounted none h = new_tree-IsCounted
tree_or_new-IsCounted (some t) h = h t refl

-- One tree of the index is written.
index-IsCounted :
    (cnt : ℕ) (t' : Tree) (index : Map ℕ Tree)
    → ((c : ℕ) (t : Tree) → lookup ℕ_discrete c index ≡ some t → IsCounted t)
    → IsCounted t'
    → (c : ℕ) (t : Tree) → lookup ℕ_discrete c (insert ℕ_discrete cnt t' index) ≡ some t
    → IsCounted t
index-IsCounted cnt t' index h w c t e = elim (ℕ_discrete cnt c) [
  | yes p ↦
      let same : t' ≡ t = ground (arith, lookup-insert ℕ_discrete cnt c t' index) in
      subst IsCounted same w
  | no p ↦ h c t (ground (arith, lookup-insert ℕ_discrete cnt c t' index))
]

add_static-IsSound :
    (path : Str) (e : Entry) (m : MethodMatcher)
    → e.path ≡ path
    → IsSound m
    → IsSound (after (add_static path e m))
unfolding add_static
add_static-IsSound path e m named h =
    elim (Option-cases (lookup Str_discrete path m.static_group)) [
      | inl new ↦
          rw (new, after)
            (record {
              keyed = λ q o found. elim (Str_discrete path q) [
                | yes p ↦ ground (arith, lookup-insert Str_discrete path q e m.static_group)
                | no p ↦
                    h.keyed q o (ground (arith, lookup-insert Str_discrete path q e m.static_group))
              ];
              indexed = h.indexed;
              radix = h.radix;
            })
      | inr (old, found) ↦ rw (found, after) h
    ]

add_to_index-IsSound :
    (cnt : ℕ) (e : Entry) (m : MethodMatcher) → IsSound m → IsSound (after (add_to_index cnt e m))
unfolding add_to_index
add_to_index-IsSound cnt e m h = record {
  keyed = h.keyed;
  indexed = index-IsCounted cnt _ m.segment_index h.indexed (
      insert_entry-IsCounted (some e) _
        (tree_or_new-IsCounted (lookup ℕ_discrete cnt m.segment_index) (h.indexed cnt)));
  radix = h.radix;
}

add_to_radix-IsSound :
    (e : Entry) (m : MethodMatcher) → IsSound m → IsSound (after (add_to_radix e m))
unfolding add_to_radix
add_to_radix-IsSound e m h = record {
  keyed = h.keyed;
  indexed = h.indexed;
  radix = insert_entry-IsCounted (some e) m.radix_tree h.radix;
}

-- `addRoute` keeps the invariant of the matcher, whether it returns, fails or panics.
pub add_route-IsSound :
    (path : Str) (handlers : List ℕ) (m : MethodMatcher)
    → IsSound m
    → IsSound (after (add_route path handlers m))
unfolding add_route new_route_entry
add_route-IsSound path handlers m h = elim (Option-cases (check_path_valid path)) [
  | inr (p, bad) ↦ rw (bad, after) h
  | inl valid ↦
      let e = new_route_entry path handlers in
      let f = extract_path_feature path in
      rw (valid, after)
        (if-IsSound (not f.has_param && not f.has_wild) _ _ (add_static-IsSound path e m refl h) (
          if-IsSound f.has_wild _ _ (add_to_radix-IsSound e m h)
            (add_to_index-IsSound f.segment_cnt e m h)))
]

remove_static-IsSound :
    (path : Str) (m : MethodMatcher) → IsSound m → IsSound (after (remove_static path m))
unfolding remove_static
remove_static-IsSound path m h = elim (Option-cases (lookup Str_discrete path m.static_group)) [
  | inl missing ↦ rw (missing, after) h
  | inr (old, found) ↦
      rw (found, after)
        (record {
          keyed = λ q o e.
              h.keyed q o (ground (arith, lookup-delete Str_discrete path q m.static_group));
          indexed = h.indexed;
          radix = h.radix;
        })
]

remove_from_index-IsSound :
    (path : Str) (cnt : ℕ) (o : Option Tree) (m : MethodMatcher)
    → lookup ℕ_discrete cnt m.segment_index ≡ o
    → IsSound m
    → IsSound (after (remove_from_index path cnt o m))
unfolding remove_from_index
remove_from_index-IsSound path cnt none m found h = h
remove_from_index-IsSound path cnt (some t) m found h = record {
  keyed = h.keyed;
  indexed =
      index-IsCounted cnt _ m.segment_index h.indexed
        (remove_path-IsCounted path t (h.indexed cnt t found));
  radix = h.radix;
}

remove_from_radix-IsSound :
    (path : Str) (m : MethodMatcher) → IsSound m → IsSound (after (remove_from_radix path m))
unfolding remove_from_radix
remove_from_radix-IsSound path m h = record {
  keyed = h.keyed;
  indexed = h.indexed;
  radix = remove_path-IsCounted path m.radix_tree h.radix;
}

-- `removeRoute` keeps the invariant of the matcher, whether it returns, fails or panics.
pub remove_route-IsSound :
    (path : Str) (m : MethodMatcher) → IsSound m → IsSound (after (remove_route path m))
unfolding remove_route
remove_route-IsSound path m h =
    let f = extract_path_feature path in
    if-IsSound (not f.has_param && not f.has_wild) _ _ (remove_static-IsSound path m h) (
      if-IsSound f.has_wild _ _ (remove_from_radix-IsSound path m h)
        (remove_from_index-IsSound path f.segment_cnt _ m refl h))

-- A new matcher meets it.
pub new_method_matcher-IsSound : IsSound new_method_matcher
unfolding lookup
new_method_matcher-IsSound = record {
  keyed = λ path e found. cc;
  indexed = λ cnt t found. cc;
  radix = new_tree-IsCounted;
}
