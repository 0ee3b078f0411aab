-- ===== src/Gserver/Server.antt =====
-- `serverMatcher`: matcher.go. The map from HTTP methods to their matchers. `stats` is never written.
pub mod Laws
use gk.Common.{ℕ, List, [], ◌∷◌, Option, none, some}
use gk.Common.Maps.{Map, lookup, insert}
use gk.Common.Str.{Str, Str_discrete}
use gk.Gserver.Entry.{Entry, MatchResult}
use gk.Gserver.Method.{
  MethodMatcher, new_method_matcher, MethodError, Outcome, returns, panics, add_route, match_path,
  match_into, remove_route,
}

pub record ServerMatcher : Type 0 where
  pub method_matcher : Map Str MethodMatcher

abbrev pub new_server_matcher : ServerMatcher
new_server_matcher = record { method_matcher = [] }

unfoldable pub server_lookup : Str → Str → ServerMatcher → Option MatchResult
server_lookup method path s = elim (lookup Str_discrete method s.method_matcher) [
  | none ↦ none
  | some m ↦ match_path path m
]

-- The handlers and the full path, and the parameters as the call leaves them.
unfoldable pub lookup_into :
    Str → Str → Map Str Str → ServerMatcher → Option (List ℕ × Str) × Map Str Str
lookup_into method path dst s = elim (lookup Str_discrete method s.method_matcher) [
  | none ↦ (none, dst)
  | some m ↦
      let (found, ps) = match_into path dst m in
      elim found [ none ↦ (none, ps) | some e ↦ (some (e.handlers, e.path), ps) ]
]

pub data ServerError : Type 0 where
  no_routes : Str → ServerError
  in_method : MethodError → ServerError

abbrev matcher_or_new : Option MethodMatcher → MethodMatcher
matcher_or_new none = new_method_matcher
matcher_or_new (some m) = m

abbrev method_error : Option MethodError → Option ServerError
method_error none = none
method_error (some err) = some (in_method err)

-- The matcher of the method is shared by pointer, so the map sees what the call did to it.
stored : Str → Outcome MethodMatcher MethodError → ServerMatcher → Outcome ServerMatcher ServerError
stored method (panics m p) s =
    panics (record s { method_matcher = insert Str_discrete method m s.method_matcher }) p
stored method (returns m err) s =
    returns (record s { method_matcher = insert Str_discrete method m s.method_matcher })
      (method_error err)

unfoldable pub server_add_route :
    Str → Str → List ℕ → ServerMatcher → Outcome ServerMatcher ServerError
unfolding stored
server_add_route method path handlers s =
    stored method
      (add_route path handlers (matcher_or_new (lookup Str_discrete method s.method_matcher))) s

unfoldable pub server_remove_route : Str → Str → ServerMatcher → Outcome ServerMatcher ServerError
unfolding stored
server_remove_route method path s = elim (lookup Str_discrete method s.method_matcher) [
  | none ↦ returns s (some (no_routes method))
  | some m ↦ stored method (remove_route path m) s
]
