-- ===== src/Gserver/Radix/Unreachable.antt =====
-- Routes with an empty inner segment, such as "/a//:id". `insert` skips the empty segment, while a
-- request's path keeps its own, so the number of segments differs.
use gk.Common.{ℕ, suc, List, [], ◌∷◌, none, ◌≡◌, ◌≢◌, refl, arith, length}
use gk.Common.Str.{Str}
use gk.Gserver.Entry.{Entry, Kind}
use gk.Gserver.Radix.{new_node, get_child, set_child, insert_at}
use gk.Gserver.Radix.Matching.{serving}

-- The number of segments that `insert` keeps.
unfoldable pub depth : List Kind → ℕ
depth [] = 0
depth (Kind.skip ∷ ks) = depth ks
depth (_ ∷ ks) = suc (depth ks)

abbrev pub NoWild : List Kind → Type 0
NoWild [] = Unit
NoWild (Kind.wild name ∷ ks) = ⊥
NoWild (_ ∷ ks) = NoWild ks

-- A path with another number of segments than the route keeps is served by nothing, where the
-- route is the only one.
pub serving-insert_at :
    (p : List Kind) (segs : List Str) (e : Entry) (name : Str)
    → NoWild p
    → length segs ≢ depth p
    → serving segs (insert_at p e (new_node name)).0 ≡ []
unfolding serving insert_at depth get_child set_child
serving-insert_at [] [] e name w h = absurd (h refl)
serving-insert_at [] ([] ∷ rest) e name w h = refl
serving-insert_at [] ((c ∷ s) ∷ rest) e name w h = refl
serving-insert_at (Kind.skip ∷ ks) segs e name w h = serving-insert_at ks segs e name w h
serving-insert_at (Kind.param n ∷ ks) [] e name w h = refl
serving-insert_at (Kind.param n ∷ ks) ([] ∷ rest) e name w h = refl
serving-insert_at (Kind.param n ∷ ks) ((c ∷ s) ∷ rest) e name w h =
    rw (serving-insert_at ks rest e n w (omega arith)) refl
serving-insert_at (Kind.wild n ∷ ks) segs e name w h = absurd w
serving-insert_at (Kind.lit t ∷ ks) [] e name w h = refl
serving-insert_at (Kind.lit t ∷ ks) ([] ∷ rest) e name w h = refl
serving-insert_at (Kind.lit t ∷ ks) ((c ∷ s) ∷ rest) e name w h =
    ground (arith, serving-insert_at ks rest e [] w (omega arith))

pub insert_at-new_ok :
    (p : List Kind) (e : Entry) (name : Str) → NoWild p → (insert_at p e (new_node name)).1 ≡ none
unfolding insert_at get_child
insert_at-new_ok [] e name w = refl
insert_at-new_ok (Kind.skip ∷ ks) e name w = insert_at-new_ok ks e name w
insert_at-new_ok (Kind.param n ∷ ks) e name w = insert_at-new_ok ks e n w
insert_at-new_ok (Kind.wild n ∷ ks) e name w = absurd w
insert_at-new_ok (Kind.lit t ∷ ks) e name w = insert_at-new_ok ks e [] w
