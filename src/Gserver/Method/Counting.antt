-- ===== src/Gserver/Method/Counting.antt =====
-- The counter of segments beside the splitting.

use gk.Common.{ℕ, ◌+◌, ◌≡◌, refl, List, [], ◌∷◌, arith, length, reverse}
use gk.Common.Str.{Str, split, trim_left, slashes, length-split}
use gk.Gserver.Entry.{split_path_segments}
use gk.Gserver.Method.{path_segment_count}

-- `pathSegmentCount` counts the segments without splitting the path.
pub path_segment_count_lem :
    (path : Str) → path_segment_count path ≡ length (split_path_segments path)
unfolding path_segment_count split_path_segments
path_segment_count_lem path = by_cases (reverse (trim_left (reverse (trim_left path))))
  where
    by_cases :
        (s : Str)
        → (elim s as (λ _. ℕ) [ [] ↦ 0 | c ∷ s' ↦ 1 + slashes (c ∷ s') ])
          ≡ length (elim s as (λ _. List Str) [ [] ↦ [] | c ∷ s' ↦ split (c ∷ s') ])
    by_cases [] = refl
    by_cases (c ∷ s) = omega (arith, length-split (c ∷ s))
