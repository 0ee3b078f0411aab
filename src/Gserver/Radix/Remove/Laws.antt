-- ===== src/Gserver/Radix/Remove/Laws.antt =====
-- What a removal does to the table of routes.

use gk.Common.{
  Option-cases, inl, inr, ◌⊎◌, true, false, List, [], ◌∷◌, none, some, ◌≡◌, ◌≢◌, refl, arith,
}
use gk.Gserver.Entry.{Entry, Kind}
use gk.Gserver.Radix.{Node, node, empty, full, nil, get_child, is_empty}
use gk.Gserver.Radix.Remove.{remove_node}
use gk.Gserver.Radix.Routes.{
  Shape, stop, rest_of_path, any, text, shape, entry_at, get_child-set_child,
  get_child-delete_child,
}

-- A node that is pruned has no routes.
pub is_empty-entry_at : (q : Shape) (n : Node) → is_empty n ≡ true → entry_at q n ≡ none
unfolding is_empty entry_at get_child
is_empty-entry_at stop (node nil empty empty name none) h = refl
is_empty-entry_at rest_of_path (node nil empty empty name none) h = refl
is_empty-entry_at (any q) (node nil empty empty name none) h = refl
is_empty-entry_at (text t q) (node nil empty empty name none) h = refl
is_empty-entry_at q _ h = absurd (ground arith)

pub prune-is_empty :
    (p : List Kind) (n : Node)
    → (remove_node p n).prune ≡ true
    → is_empty (remove_node p n).left ≡ true
unfolding remove_node
prune-is_empty [] (node cs pc w name none) h = ground arith
prune-is_empty [] (node cs pc w name (some e)) h = h
prune-is_empty (Kind.skip ∷ rest) n h = ground arith
prune-is_empty (Kind.param name ∷ rest) (node cs empty w pname o) h = ground arith
prune-is_empty (Kind.param name ∷ rest) (node cs (full c) w pname o) h = ground arith
prune-is_empty (Kind.wild name ∷ []) (node cs pc empty pname o) h = ground arith
prune-is_empty (Kind.wild name ∷ []) (node cs pc (full (node c1 p1 w1 n1 none)) pname o) h =
    ground arith
prune-is_empty (Kind.wild name ∷ []) (node cs pc (full (node c1 p1 w1 n1 (some e))) pname o) h =
    ground arith
prune-is_empty (Kind.wild name ∷ _ ∷ _) n h = ground arith
prune-is_empty (Kind.lit t ∷ rest) (node cs pc w pname o) h = ground arith

-- A removal at a node that succeeds empties the place of its route.
pub remove_node-entry_at :
    (p : List Kind) (n : Node)
    → (remove_node p n).removed ≡ true
    → entry_at (shape p) (remove_node p n).left ≡ none
unfolding remove_node entry_at shape
remove_node-entry_at [] (node cs pc w name none) h = ground arith
remove_node-entry_at [] (node cs pc w name (some e)) h = refl
remove_node-entry_at (Kind.skip ∷ rest) n h = absurd (ground arith)
remove_node-entry_at (Kind.param name ∷ rest) (node cs empty w pname o) h = absurd (ground arith)
remove_node-entry_at (Kind.param name ∷ rest) (node cs (full c) w pname o) h =
    ground (arith, remove_node-entry_at rest c)
remove_node-entry_at (Kind.wild name ∷ []) (node cs pc empty pname o) h = absurd (ground arith)
remove_node-entry_at (Kind.wild name ∷ []) (node cs pc (full (node c1 p1 w1 n1 none)) pname o) h =
    absurd (ground arith)
remove_node-entry_at (Kind.wild name ∷ []) (node cs pc (full (node c1 p1 w1 n1 (some e))) pname o)
      h =
    ground arith
remove_node-entry_at (Kind.wild name ∷ _ ∷ _) n h = absurd (ground arith)
remove_node-entry_at (Kind.lit t ∷ rest) (node cs pc w pname o) h =
    elim (Option-cases (get_child t cs)) [
      | inl missing ↦ absurd (ground arith)
      | inr (c, found) ↦ ground (
        arith,
        remove_node-entry_at rest c,
        get_child-set_child t t (remove_node rest c).left cs,
        get_child-delete_child t t cs,
      )
    ]

-- A removal at a node leaves the places of all other routes alone, and every place if it fails.
pub remove_node-entry_at_ne :
    (p : List Kind) (q : Shape) (n : Node)
    → (q ≢ shape p) ⊎ ((remove_node p n).removed ≡ false)
    → entry_at q (remove_node p n).left ≡ entry_at q n
unfolding remove_node entry_at shape
remove_node-entry_at_ne [] stop (node cs pc w name none) h = refl
remove_node-entry_at_ne [] stop (node cs pc w name (some e)) h = ground arith
remove_node-entry_at_ne [] rest_of_path (node cs pc w name o) h = ground arith
remove_node-entry_at_ne [] (any q) (node cs pc w name o) h = ground arith
remove_node-entry_at_ne [] (text t q) (node cs pc w name o) h = ground arith
remove_node-entry_at_ne (Kind.skip ∷ rest) q n h = refl
remove_node-entry_at_ne (Kind.param name ∷ rest) q (node cs empty w pname o) h = refl
remove_node-entry_at_ne (Kind.param name ∷ rest) (any q) (node cs (full c) w pname o) h = ground (
  arith,
  remove_node-entry_at_ne rest q c,
  prune-is_empty rest c,
  is_empty-entry_at q (remove_node rest c).left,
)
remove_node-entry_at_ne (Kind.param name ∷ rest) stop (node cs (full c) w pname o) h = ground arith
remove_node-entry_at_ne (Kind.param name ∷ rest) rest_of_path (node cs (full c) w pname o) h =
    ground arith
remove_node-entry_at_ne (Kind.param name ∷ rest) (text t q) (node cs (full c) w pname o) h =
    ground arith
remove_node-entry_at_ne (Kind.wild name ∷ []) q (node cs pc empty pname o) h = refl
remove_node-entry_at_ne (Kind.wild name ∷ []) stop (node cs pc (full (node c1 p1 w1 n1 o1)) pname o)
      h =
    ground arith
remove_node-entry_at_ne (Kind.wild name ∷ []) rest_of_path
      (node cs pc (full (node c1 p1 w1 n1 o1)) pname o) h =
    ground arith
remove_node-entry_at_ne (Kind.wild name ∷ []) (any q)
      (node cs pc (full (node c1 p1 w1 n1 o1)) pname o) h =
    ground arith
remove_node-entry_at_ne (Kind.wild name ∷ []) (text t q)
      (node cs pc (full (node c1 p1 w1 n1 o1)) pname o) h =
    ground arith
remove_node-entry_at_ne (Kind.wild name ∷ _ ∷ _) q n h = refl
remove_node-entry_at_ne (Kind.lit t ∷ rest) (text t' q) (node cs pc w pname o) h =
    elim (Option-cases (get_child t cs)) [
      | inl missing ↦ ground arith
      | inr (c, found) ↦ ground (
        arith,
        remove_node-entry_at_ne rest q c,
        prune-is_empty rest c,
        is_empty-entry_at q (remove_node rest c).left,
        get_child-set_child t t' (remove_node rest c).left cs,
        get_child-delete_child t t' cs,
      )
    ]
remove_node-entry_at_ne (Kind.lit t ∷ rest) stop (node cs pc w pname o) h = ground arith
remove_node-entry_at_ne (Kind.lit t ∷ rest) rest_of_path (node cs pc w pname o) h = ground arith
remove_node-entry_at_ne (Kind.lit t ∷ rest) (any q) (node cs pc w pname o) h = ground arith

-- A pattern of literals and parameters only.
abbrev pub IsPlain : List Kind → Type 0
IsPlain [] = Unit
IsPlain (Kind.skip ∷ rest) = ⊥
IsPlain (Kind.wild name ∷ rest) = ⊥
IsPlain (Kind.param name ∷ rest) = IsPlain rest
IsPlain (Kind.lit t ∷ rest) = IsPlain rest

-- A route of literals and parameters that has an entry at the node is removed.
pub remove_node_present :
    (p : List Kind) (n : Node) (e : Entry)
    → IsPlain p
    → entry_at (shape p) n ≡ some e
    → (remove_node p n).removed ≡ true
unfolding remove_node entry_at shape
remove_node_present [] (node cs pc w name none) e plain h = absurd (ground arith)
remove_node_present [] (node cs pc w name (some o)) e plain h = refl
remove_node_present (Kind.skip ∷ rest) n e plain h = absurd plain
remove_node_present (Kind.wild name ∷ rest) n e plain h = absurd plain
remove_node_present (Kind.param name ∷ rest) (node cs empty w pname o) e plain h =
    absurd (ground arith)
remove_node_present (Kind.param name ∷ rest) (node cs (full c) w pname o) e plain h =
    ground (arith, remove_node_present rest c e plain h)
remove_node_present (Kind.lit t ∷ rest) (node cs pc w pname o) e plain h =
    elim (Option-cases (get_child t cs)) [
      | inl missing ↦ absurd (ground arith)
      | inr (c, found) ↦
          ground
            (arith, λ (k : entry_at (shape rest) c ≡ some e). remove_node_present rest c e plain k)
    ]
