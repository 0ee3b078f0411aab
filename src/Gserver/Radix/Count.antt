-- ===== src/Gserver/Radix/Count.antt =====
-- `routeCount`: the counter that the tree keeps, and the number of its entries.

use gk.Common.{
  Bool-cases, Option-cases, inl, inr, true, false, List, [], ◌∷◌, Option, none, some, ◌≡◌, refl,
  arith, ℕ, ◌+◌, Bool,
}
use gk.Common.Str.{Str}
use gk.Gserver.Entry.{Kind, Entry, kinds}
use gk.Gserver.Radix.{
  Node, node, Slot, empty, full, Children, nil, cons, get_child, set_child, delete_child, is_empty,
  insert_at, new_node, Tree, new_tree, insert_entry, grown,
}
use gk.Gserver.Radix.Remove.{remove_node, remove_path}
use gk.Gserver.Radix.Remove.Laws.{prune-is_empty}
use gk.Gserver.Radix.Wf.{
  IsWf, IsWfChildren, new_node-IsWf, get_child-IsWf, insert_at-IsWf, remove_node-IsWf,
}

-- `routeCount` reads the counter.
abbrev pub route_count : Tree → ℕ
route_count t = t.size

abbrev one : Option Entry → ℕ
one none = 0
one (some e) = 1

unfoldable mutual
  pub routes : Node → ℕ
  routes (node cs p w name e) = one e + routes_children cs + routes_slot p + routes_slot w

  pub routes_children : Children → ℕ
  routes_children nil = 0
  routes_children (cons k n cs) = routes n + routes_children cs

  pub routes_slot : Slot → ℕ
  routes_slot empty = 0
  routes_slot (full n) = routes n

abbrev routes_option : Option Node → ℕ
routes_option none = 0
routes_option (some n) = routes n

routes-set_child :
    (k : Str) (n : Node) (cs : Children)
    → routes_children (set_child k n cs) + routes_option (get_child k cs)
      ≡ routes_children cs + routes n
unfolding routes set_child get_child
routes-set_child k n nil = omega arith
routes-set_child k n (cons j m cs) = ground (arith, routes-set_child k n cs)

-- Keys of children are looked up once, so the first child with a key is the one that counts.
insert_at-routes :
    (p : List Kind) (e : Entry) (n : Node)
    → routes (insert_at p e n).0 ≡ grown (insert_at p e n).1 (routes n)
unfolding insert_at routes
insert_at-routes [] e (node cs pc w name none) = omega arith
insert_at-routes [] e (node cs pc w name (some old)) = refl
insert_at-routes (Kind.skip ∷ rest) e n = insert_at-routes rest e n
insert_at-routes (Kind.param name ∷ rest) e (node cs empty w pname o) =
    ground (arith, insert_at-routes rest e (new_node name))
insert_at-routes (Kind.param name ∷ rest) e (node cs (full c) w pname o) =
    ground (arith, insert_at-routes rest e c)
insert_at-routes (Kind.wild name ∷ []) e (node cs pc empty pname o) = ground arith
insert_at-routes (Kind.wild name ∷ []) e (node cs pc (full (node c1 p1 w1 n1 none)) pname o) =
    ground arith
insert_at-routes (Kind.wild name ∷ []) e (node cs pc (full (node c1 p1 w1 n1 (some old))) pname o) =
    ground arith
insert_at-routes (Kind.wild name ∷ _ ∷ _) e n = refl
insert_at-routes (Kind.lit t ∷ rest) e (node cs pc w pname o) =
    elim (Option-cases (get_child t cs)) [
      | inl missing ↦ ground (
        arith,
        insert_at-routes rest e (new_node []),
        routes-set_child t (insert_at rest e (new_node [])).0 cs,
      )
      | inr (c, found) ↦
          ground (arith, insert_at-routes rest e c, routes-set_child t (insert_at rest e c).0 cs)
    ]

-- A node that is pruned counts for nothing.
is_empty-routes : (n : Node) → is_empty n ≡ true → routes n ≡ 0
unfolding is_empty routes
is_empty-routes (node nil empty empty name none) h = refl
is_empty-routes _ h = absurd (ground arith)

routes_delete_absent : (k : Str) (cs : Children) → get_child k cs ≡ none → delete_child k cs ≡ cs
unfolding delete_child get_child
routes_delete_absent k nil h = refl
routes_delete_absent k (cons j m cs) h = ground (arith, routes_delete_absent k cs)

routes-delete_child :
    (k : Str) (cs : Children)
    → IsWfChildren cs
    → routes_children (delete_child k cs) + routes_option (get_child k cs) ≡ routes_children cs
unfolding routes delete_child get_child IsWf
routes-delete_child k nil h = refl
routes-delete_child k (cons j m cs) (new, here, rest) =
    ground (arith, routes-delete_child k cs rest, routes_delete_absent k cs)

abbrev counted : Bool → ℕ
counted true = 1
counted false = 0

remove_node-routes :
    (p : List Kind) (n : Node)
    → IsWf n
    → routes (remove_node p n).left + counted (remove_node p n).removed ≡ routes n
unfolding remove_node routes IsWf
remove_node-routes [] (node cs pc w name none) h = ground arith
remove_node-routes [] (node cs pc w name (some e)) h = ground arith
remove_node-routes (Kind.skip ∷ rest) n h = ground arith
remove_node-routes (Kind.param name ∷ rest) (node cs empty w pname o) h = ground arith
remove_node-routes (Kind.param name ∷ rest) (node cs (full c) w pname o) (hc, hp, hw) = ground (
  arith,
  remove_node-routes rest c hp,
  prune-is_empty rest c,
  is_empty-routes (remove_node rest c).left,
)
remove_node-routes (Kind.wild name ∷ []) (node cs pc empty pname o) h = ground arith
remove_node-routes (Kind.wild name ∷ []) (node cs pc (full (node c1 p1 w1 n1 none)) pname o) h =
    ground arith
remove_node-routes (Kind.wild name ∷ []) (node cs pc (full (node c1 p1 w1 n1 (some e))) pname o) h =
    ground (arith, is_empty-routes (node c1 p1 w1 n1 none))
remove_node-routes (Kind.wild name ∷ _ ∷ _) n h = ground arith
remove_node-routes (Kind.lit t ∷ rest) (node cs pc w pname o) (hc, hp, hw) =
    elim (Option-cases (get_child t cs)) [
      | inl missing ↦ ground arith
      | inr (c, found) ↦ ground (
        arith,
        remove_node-routes rest c (get_child-IsWf t cs c hc found),
        prune-is_empty rest c,
        is_empty-routes (remove_node rest c).left,
        routes-set_child t (remove_node rest c).left cs,
        routes-delete_child t cs hc,
      )
    ]

-- The state of a tree that the router can reach.
pub record IsCounted (t : Tree) : Type 0 where
  pub wf : IsWf t.root
  pub count : t.size ≡ routes t.root

pub new_tree-IsCounted : IsCounted new_tree
unfolding routes
new_tree-IsCounted = record { wf = new_node-IsWf []; count = refl }

-- An insertion, also one that fails, keeps the tree well formed, with its counter equal to the
-- number of its entries.
pub insert_entry-IsCounted :
    (e : Option Entry) (t : Tree) → IsCounted t → IsCounted (insert_entry e t).0
unfolding insert_entry
insert_entry-IsCounted none t h = h
insert_entry-IsCounted (some e) t h = record {
  wf = insert_at-IsWf (kinds e.path) e t.root h.wf;
  count = rw (insert_at-routes, h.count) refl;
}

-- A removal, also one that fails, keeps the tree well formed, with its counter equal to the number
-- of its entries.
pub remove_path-IsCounted : (path : Str) (t : Tree) → IsCounted t → IsCounted (remove_path path t).0
unfolding remove_path
remove_path-IsCounted path t h = elim (Bool-cases (remove_node (kinds path) t.root).removed) [
  | inl gone ↦ rw gone (record {
    wf = remove_node-IsWf (kinds path) t.root h.wf;
    count = ground (arith, remove_node-routes (kinds path) t.root h.wf);
  })
  | inr kept ↦ rw kept (record {
    wf = remove_node-IsWf (kinds path) t.root h.wf;
    count = ground (arith, remove_node-routes (kinds path) t.root h.wf);
  })
]
