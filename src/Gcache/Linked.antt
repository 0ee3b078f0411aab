-- ===== src/Gcache/Linked.antt =====
-- The operations of Go's `container/list` that lru.go calls. A list holds the numbers of its
-- elements from front to back; the values that the elements point to lie in a heap of the caller.
use gk.Common.{
  ℕ, Bool, false, List, [], ◌∷◌, Option, none, some, ite, ℕ_discrete, ◌==◌, ◌||◌, if◌then◌else◌,
}

unfoldable pub contains : ℕ → List ℕ → Bool
contains i [] = false
contains i (j ∷ l) = j == i || contains i l

-- `l.Remove(e)`, which does nothing to an element of another list.
unfoldable pub remove : ℕ → List ℕ → List ℕ
remove i [] = []
remove i (j ∷ l) = let rest = remove i l in ite (ℕ_discrete j i) rest (j ∷ rest)

abbrev pub push_front : ℕ → List ℕ → List ℕ
push_front i l = i ∷ l

-- `l.MoveToFront(e)`, likewise.
unfoldable pub move_to_front : ℕ → List ℕ → List ℕ
unfolding contains remove
move_to_front i l = if contains i l then i ∷ remove i l else l

-- `l.Back()`
unfoldable pub back : List ℕ → Option ℕ
back [] = none
back (i ∷ []) = some i
back (i ∷ j ∷ l) = back (j ∷ l)
