-- ===== src/Gserver/Method/Unknown.antt =====
-- The removal of a route with parameters after any registrations.
use gk.Common.{
  ℕ, ◌≡◌, refl, ap, ◌∙◌, List, [], ◌∷◌, arith, length, Option, none, some, Bool, true, false, not,
  ◌&&◌, ◌||◌, ◌==◌, ℕ_discrete, Option-cases, Bool-cases, inl, inr,
}
use gk.Common.Maps.{Map, lookup, insert, lookup-insert}
use gk.Common.Str.{Str, Str_discrete}
use gk.Gserver.Entry.{Entry, kinds, new_route_entry, split_path_segments}
use gk.Gserver.Radix.{Tree}
use gk.Gserver.PathCheck.{check_path_valid}
use gk.Gserver.Method.{
  MethodMatcher, MethodError, Outcome, returns, panics, new_method_matcher, any_param, any_wild,
  extract_path_feature, add_route, add_static, add_to_index, add_to_radix, remove_route,
  remove_from_index,
}
use gk.Gserver.Method.Laws.{after}

abbrev pub panicked : Outcome MethodMatcher MethodError → Bool
panicked (returns m err) = false
panicked (panics m p) = true

abbrev is_none : {A : Type 0} → Option A → Bool
is_none none = true
is_none (some a) = false

-- The registrations of a program, one after the other, whatever each of them answers.
abbrev pub add_routes : List (Str × List ℕ) → MethodMatcher
add_routes [] = new_method_matcher
add_routes ((path, handlers) ∷ routes) = after (add_route path handlers (add_routes routes))

-- A valid path with parameters, without a catch-all, and with this number of segments.
abbrev is_indexed : ℕ → Str → Bool
is_indexed n path =
    is_none (check_path_valid path)
    && any_param (kinds path)
    && not (any_wild (kinds path))
    && length (split_path_segments path) == n

-- Such a path is among the registrations.
abbrev pub registered : ℕ → List (Str × List ℕ) → Bool
registered n [] = false
registered n ((path, handlers) ∷ routes) = is_indexed n path || registered n routes

abbrev has_tree : ℕ → MethodMatcher → Bool
has_tree n m = not (is_none (lookup ℕ_discrete n m.segment_index))

has_tree-add_static :
    (n : ℕ) (path : Str) (e : Entry) (m : MethodMatcher)
    → has_tree n (after (add_static path e m)) ≡ has_tree n m
unfolding add_static
has_tree-add_static n path e m = elim (Option-cases (lookup Str_discrete path m.static_group)) [
  | inl new ↦ rw (new, after) refl
  | inr (old, found) ↦ rw (found, after) refl
]

has_tree-insert :
    (n cnt : ℕ) (t : Tree) (index : Map ℕ Tree)
    → not (is_none (lookup ℕ_discrete n (insert ℕ_discrete cnt t index)))
      ≡ (cnt == n) || not (is_none (lookup ℕ_discrete n index))
has_tree-insert n cnt t index = ground (arith, lookup-insert ℕ_discrete cnt n t index)

has_tree-add_to_index :
    (n cnt : ℕ) (e : Entry) (m : MethodMatcher)
    → has_tree n (after (add_to_index cnt e m)) ≡ (cnt == n) || has_tree n m
unfolding add_to_index
has_tree-add_to_index n cnt e m = has_tree-insert n cnt _ m.segment_index

has_tree-add_route :
    (n : ℕ) (path : Str) (handlers : List ℕ) (m : MethodMatcher)
    → has_tree n (after (add_route path handlers m)) ≡ is_indexed n path || has_tree n m
unfolding add_route extract_path_feature add_static add_to_index add_to_radix
has_tree-add_route n path handlers m = elim (Option-cases (check_path_valid path)) [
  | inr (p, bad) ↦ rw (bad, after) refl
  | inl valid ↦ elim (Bool-cases (any_wild (kinds path))) [
    | inl wild ↦ ground (arith, valid, wild)
    | inr no_wild ↦ elim (Bool-cases (any_param (kinds path))) [
      | inl has_param ↦
          rw (valid, has_param, no_wild, after)
            (has_tree-add_to_index n (length (split_path_segments path))
              (new_route_entry path handlers) m)
      | inr no_param ↦
          rw (valid, no_param, no_wild, after)
            (has_tree-add_static n path (new_route_entry path handlers) m)
    ]
  ]
]

has_tree-add_routes :
    (n : ℕ) (routes : List (Str × List ℕ)) → has_tree n (add_routes routes) ≡ registered n routes
unfolding lookup
has_tree-add_routes n [] = refl
has_tree-add_routes n ((path, handlers) ∷ routes) =
    has_tree-add_route n path handlers (add_routes routes)
    ∙ ap (λ b. is_indexed n path || b) (has_tree-add_routes n routes)

panicked-remove_route :
    (path : Str) (m : MethodMatcher)
    → any_param (kinds path) ≡ true
    → any_wild (kinds path) ≡ false
    → panicked (remove_route path m) ≡ not (has_tree (length (split_path_segments path)) m)
unfolding remove_route remove_from_index extract_path_feature
panicked-remove_route path m has_param no_wild =
    elim (Option-cases (lookup ℕ_discrete (length (split_path_segments path)) m.segment_index)) [
      | inl missing ↦ ground (arith, missing)
      | inr (t, found) ↦ ground (arith, found)
    ]

-- After any registrations, removing a path with parameters and without a catch-all panics exactly if no
-- valid path of that kind with its number of segments was registered.
pub remove_route-panicked :
    (path : Str) (routes : List (Str × List ℕ))
    → any_param (kinds path) ≡ true
    → any_wild (kinds path) ≡ false
    → panicked (remove_route path (add_routes routes))
      ≡ not (registered (length (split_path_segments path)) routes)
remove_route-panicked path routes has_param no_wild =
    panicked-remove_route path (add_routes routes) has_param no_wild
    ∙ ap not (has_tree-add_routes (length (split_path_segments path)) routes)
