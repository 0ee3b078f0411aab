-- ===== src/Gserver/Method/Static.antt =====
-- Static routes.
use gk.Common.{ℕ, ◌≡◌, ◌≢◌, List, arith, none, some, false, ite}
use gk.Common.Maps.{lookup, insert, delete, lookup-insert, lookup-delete}
use gk.Common.Str.{Str, Str_discrete}
use gk.Gserver.Entry.{kinds, new_route_entry}
use gk.Gserver.PathCheck.{check_path_valid}
use gk.Gserver.Method.{
  MethodMatcher, duplicate_static, returns, any_param, any_wild, extract_path_feature, add_route,
  add_static, match_path, remove_route, remove_static,
}

-- A path with neither a parameter nor a catch-all.
abbrev pub IsStatic : Str → Type 0
IsStatic path = (any_param (kinds path) ≡ false) × (any_wild (kinds path) ≡ false)

module _ (path : Str) (handlers : List ℕ) (m : MethodMatcher) (valid : check_path_valid path ≡ none)
    (static : IsStatic path) (new : lookup Str_discrete path m.static_group ≡ none) where
  abbrev added : MethodMatcher
  added = record m {
    static_group = insert Str_discrete path (new_route_entry path handlers) m.static_group;
  }

  -- A valid static path that is new is registered, and from then on it is what its own path finds,
  -- with no parameters; every other path finds what it found before.
  pub add_route_static :
      (m' : MethodMatcher) × (add_route path handlers m ≡ returns m' none)
      × (match_path path m'
          ≡ some (record { path = path; handlers = handlers; path_params = none }))
      × ((q : Str) → q ≢ path → match_path q m' ≡ match_path q m)
  unfolding add_route add_static extract_path_feature new_route_entry match_path
  add_route_static = (
    added,
    ground arith,
    ground (
      arith,
      lookup-insert Str_discrete path path (new_route_entry path handlers) m.static_group,
    ),
    λ q other.
        ground
          (arith, lookup-insert Str_discrete path q (new_route_entry path handlers) m.static_group),
  )

  -- Registering the path a second time fails and changes nothing; removing it gives every path back
  -- what it found before it was registered.
  abbrev removed : MethodMatcher
  removed = record added { static_group = delete Str_discrete path added.static_group }

  -- Take a valid path without wildcards that is not registered. It is registered with no error;
  -- registering it again fails and changes nothing; removing it gives every path back what it found
  -- before.
  pub add_route_static_again :
      (m' : MethodMatcher) × (add_route path handlers m ≡ returns m' none)
      × ((hs : List ℕ) → add_route path hs m' ≡ returns m' (some (duplicate_static path)))
      × ((m'' : MethodMatcher) × (remove_route path m' ≡ returns m'' none)
          × ((q : Str) → match_path q m'' ≡ match_path q m))
  unfolding add_route add_static extract_path_feature new_route_entry match_path remove_route
      remove_static
  add_route_static_again = (
    added,
    ground arith,
    λ hs. ground (arith, stored path),
    (
      removed,
      ground (arith, stored path),
      λ q. ground (arith, stored q, lookup-delete Str_discrete path q added.static_group),
    ),
  )
    where
      stored :
          (q : Str)
          → lookup Str_discrete q added.static_group
            ≡ ite
                (Str_discrete path q)
                (some (new_route_entry path handlers))
                (lookup Str_discrete q m.static_group)
      stored q = lookup-insert Str_discrete path q (new_route_entry path handlers) m.static_group
