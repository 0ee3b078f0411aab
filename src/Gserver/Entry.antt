-- ===== src/Gserver/Entry.antt =====
-- Route entries and path segments: matcher.go. Paths are lists of bytes. A handler is named by a
-- number, since the router stores handlers and never calls them.
use gk.Common.{ℕ, List, [], ◌∷◌, Option, ◌==◌, map, if◌then◌else◌}
use gk.Common.Maps.{Map}
use gk.Common.Str.{Str, split, trim}

pub record Entry : Type 0 where
  pub path : Str
  pub handlers : List ℕ
  pub param_names : List Str

pub record MatchResult : Type 0 where
  pub path : Str
  pub handlers : List ℕ
  pub path_params : Option (Map Str Str)

-- The switch on the first byte of a segment, with its remaining bytes.
pub data Kind : Type 0 where
  skip : Kind
  param : Str → Kind
  wild : Str → Kind
  lit : Str → Kind

unfoldable pub kind : Str → Kind
kind [] = Kind.skip
kind (c ∷ s) =
    if c == b':' then Kind.param s else if c == b'*' then Kind.wild s else Kind.lit (c ∷ s)

unfoldable pub split_path_segments : Str → List Str
unfolding split trim
split_path_segments path = elim (trim path) [ [] ↦ [] | c ∷ s ↦ split (c ∷ s) ]

-- The segments of a path, each by its kind.
unfoldable pub kinds : Str → List Kind
unfolding kind split_path_segments
kinds path = map kind (split_path_segments path)

-- The loop of `extractParamNames`.
names_of : List Str → List Str
unfolding kind
names_of [] = []
names_of (seg ∷ segs) =
    let names = names_of segs in
    elim (kind seg) [
      | Kind.skip ↦ names
      | Kind.param name ↦ name ∷ names
      | Kind.wild name ↦ name ∷ names
      | Kind.lit _ ↦ names
    ]

unfoldable pub extract_param_names : Str → List Str
unfolding names_of split_path_segments
extract_param_names path = names_of (split_path_segments path)

unfoldable pub new_route_entry : Str → List ℕ → Entry
unfolding extract_param_names
new_route_entry path handlers = record {
  path = path;
  handlers = handlers;
  param_names = extract_param_names path;
}

unfoldable pub to_result : Entry → Option (Map Str Str) → MatchResult
to_result r params = record { path = r.path; handlers = r.handlers; path_params = params }
