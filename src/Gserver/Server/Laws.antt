-- ===== src/Gserver/Server/Laws.antt =====
-- The methods of a server, side by side.
use gk.Common.{ℕ, ◌≡◌, ◌≢◌, refl, List, arith, Option, none, some, Option-cases, inl, inr}
use mathlib.Core.Path.{subst}
use gk.Common.Maps.{Map, lookup, insert, lookup-insert}
use gk.Common.Str.{Str, Str_discrete}
use gk.Gserver.Method.{
  MethodMatcher, MethodError, Outcome, returns, panics, add_route, remove_route,
}
use gk.Gserver.Method.Laws.{
  IsSound, after, new_method_matcher-IsSound, add_route-IsSound, remove_route-IsSound,
}
use gk.Gserver.Method.Lookup.{result_targets, match_into-match_path}
use gk.Gserver.Server.{
  ServerMatcher, server_lookup, lookup_into, server_add_route, server_remove_route, stored,
  matcher_or_new,
}

-- Every method's matcher is sound.
pub record IsServing (s : ServerMatcher) : Type 0 where
  pub sound :
      (method : Str) (m : MethodMatcher)
      → lookup Str_discrete method s.method_matcher ≡ some m
      → IsSound m

stored-other :
    (method other path : Str) (o : Outcome MethodMatcher MethodError) (s : ServerMatcher)
    → other ≢ method
    → server_lookup other path (after (stored method o s)) ≡ server_lookup other path s
unfolding stored server_lookup
stored-other method other path (returns m err) s h =
    ground (arith, lookup-insert Str_discrete method other m s.method_matcher)
stored-other method other path (panics m p) s h =
    ground (arith, lookup-insert Str_discrete method other m s.method_matcher)

-- Registering a route for one method changes no lookup of another, also where it fails or panics.
pub server_add_route-other :
    (method other path q : Str) (handlers : List ℕ) (s : ServerMatcher)
    → other ≢ method
    → server_lookup other q (after (server_add_route method path handlers s))
      ≡ server_lookup other q s
unfolding server_add_route
server_add_route-other method other path q handlers s h = stored-other method other q _ s h

-- Nor does removing one.
pub server_remove_route-other :
    (method other path q : Str) (s : ServerMatcher)
    → other ≢ method
    → server_lookup other q (after (server_remove_route method path s)) ≡ server_lookup other q s
unfolding server_remove_route
server_remove_route-other method other path q s h =
    elim (Option-cases (lookup Str_discrete method s.method_matcher)) [
      | inl missing ↦ rw (missing, after) refl
      | inr (m, found) ↦ rw (found, after) (stored-other method other q (remove_route path m) s h)
    ]

write-IsServing :
    (method : Str) (m : MethodMatcher) (s : ServerMatcher)
    → IsServing s
    → IsSound m
    → IsServing (record s { method_matcher = insert Str_discrete method m s.method_matcher })
write-IsServing method m s h w = record {
  sound = λ q m' found. elim (Str_discrete method q) [
    | yes p ↦
        let same : m ≡ m' =
          ground (arith, lookup-insert Str_discrete method q m s.method_matcher) in
        subst IsSound same w
    | no p ↦ h.sound q m' (ground (arith, lookup-insert Str_discrete method q m s.method_matcher))
  ];
}

stored-IsServing :
    (method : Str) (o : Outcome MethodMatcher MethodError) (s : ServerMatcher)
    → IsServing s
    → IsSound (after o)
    → IsServing (after (stored method o s))
unfolding stored
stored-IsServing method (returns m err) s h w = write-IsServing method m s h w
stored-IsServing method (panics m p) s h w = write-IsServing method m s h w

-- Registering and removing routes keep every method's matcher sound.
pub server_add_route-IsServing :
    (method path : Str) (handlers : List ℕ) (s : ServerMatcher)
    → IsServing s
    → IsServing (after (server_add_route method path handlers s))
unfolding server_add_route
server_add_route-IsServing method path handlers s h =
    stored-IsServing method (add_route path handlers (matcher_or_new found)) s h
      (add_route-IsSound path handlers (matcher_or_new found) (or_new found (h.sound method)))
  where
    found : Option MethodMatcher
    found = lookup Str_discrete method s.method_matcher

    or_new :
        (o : Option MethodMatcher)
        → ((m : MethodMatcher) → o ≡ some m → IsSound m)
        → IsSound (matcher_or_new o)
    or_new none k = new_method_matcher-IsSound
    or_new (some m) k = k m refl

pub server_remove_route-IsServing :
    (method path : Str) (s : ServerMatcher)
    → IsServing s
    → IsServing (after (server_remove_route method path s))
unfolding server_remove_route
server_remove_route-IsServing method path s h =
    elim (Option-cases (lookup Str_discrete method s.method_matcher)) [
      | inl missing ↦ rw (missing, after) h
      | inr (m, found) ↦
          rw (found, after)
            (stored-IsServing method (remove_route path m) s h
              (remove_route-IsSound path m (h.sound method m found)))
    ]

-- From a sound state, `LookupInto` finds the handlers and the full path that `Lookup` finds.
pub lookup_into-server_lookup :
    (method path : Str) (dst : Map Str Str) (s : ServerMatcher)
    → IsServing s
    → (lookup_into method path dst s).0 ≡ result_targets (server_lookup method path s)
unfolding lookup_into server_lookup
lookup_into-server_lookup method path dst s h =
    elim (Option-cases (lookup Str_discrete method s.method_matcher)) [
      | inl missing ↦ rw (missing, result_targets, lookup_into) refl
      | inr (m, found) ↦
          rw (found, result_targets, lookup_into)
            (ground (arith, match_into-match_path path dst m (h.sound method m found)))
    ]
