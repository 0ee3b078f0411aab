-- ===== src/Gserver/Radix/Routes.antt =====
-- The routes of a tree, seen as a table: a route's pattern without the names of its parameters
-- leads to one entry.
use gk.Common.{List, [], ◌∷◌, Option, none, some, ◌≡◌, ◌≢◌, refl, ite, arith, ap, ◌∙◌}
use gk.Common.Str.{Str, Str_discrete}
use gk.Gserver.Entry.{Entry, Kind}
use gk.Gserver.Radix.{
  Node, node, Slot, empty, full, Children, nil, cons, children, param_child, wildcard_child, entry,
  get_child, set_child, delete_child, insert_at, put_entry, put_wild, new_node, or_new, slot_or_new,
}

-- What distinguishes two patterns.
pub data Shape : Type 0 where
  stop rest_of_path : Shape
  any : Shape → Shape
  text : Str → Shape → Shape

unfoldable pub shape : List Kind → Shape
shape [] = stop
shape (Kind.skip ∷ rest) = shape rest
shape (Kind.param name ∷ rest) = any (shape rest)
shape (Kind.wild name ∷ rest) = rest_of_path
shape (Kind.lit s ∷ rest) = text s (shape rest)

abbrev pub slot_entry : Slot → Option Entry
slot_entry empty = none
slot_entry (full n) = entry n

-- The entry that a pattern leads to.
unfoldable pub entry_at : Shape → Node → Option Entry
entry_at stop n = entry n
entry_at rest_of_path n = slot_entry (wildcard_child n)
entry_at (any s) n = elim (param_child n) [ empty ↦ none | full child ↦ entry_at s child ]
entry_at (text t s) n = elim (get_child t (children n)) [
  | none ↦ none
  | some child ↦ entry_at s child
]

pub get_child-set_child :
    (k q : Str) (n : Node) (cs : Children)
    → get_child q (set_child k n cs) ≡ ite (Str_discrete k q) (some n) (get_child q cs)
unfolding get_child set_child
get_child-set_child k q n nil = refl
get_child-set_child k q n (cons j m cs) = ground (arith, get_child-set_child k q n cs)

pub get_child-delete_child :
    (k q : Str) (cs : Children)
    → get_child q (delete_child k cs) ≡ ite (Str_discrete k q) none (get_child q cs)
unfolding get_child delete_child
get_child-delete_child k q nil = ground arith
get_child-delete_child k q (cons j m cs) = ground (arith, get_child-delete_child k q cs)

-- A new node has no routes.
pub entry_at-new : (s : Shape) (name : Str) → entry_at s (new_node name) ≡ none
unfolding entry_at get_child
entry_at-new stop name = refl
entry_at-new rest_of_path name = refl
entry_at-new (any s) name = refl
entry_at-new (text t s) name = refl

entry_at-or_new :
    (s : Shape) (o : Option Node) (name : Str)
    → entry_at s (or_new name o) ≡ elim o [ none ↦ none | some n ↦ entry_at s n ]
entry_at-or_new s none name = entry_at-new s name
entry_at-or_new s (some n) name = refl

entry_at-slot_or_new :
    (s : Shape) (o : Slot) (name : Str)
    → entry_at s (slot_or_new name o) ≡ elim o [ empty ↦ none | full n ↦ entry_at s n ]
entry_at-slot_or_new s empty name = entry_at-new s name
entry_at-slot_or_new s (full n) name = refl

-- An insertion at a node that reports no error fills the place of its route, which was free.
pub insert_at-entry_at :
    (p : List Kind) (e : Entry) (n : Node)
    → (insert_at p e n).1 ≡ none
    → (entry_at (shape p) n ≡ none) × (entry_at (shape p) (insert_at p e n).0 ≡ some e)
unfolding insert_at entry_at shape
insert_at-entry_at [] e (node cs pc w name none) h = (refl, refl)
insert_at-entry_at [] e (node cs pc w name (some old)) h = absurd (ground arith)
insert_at-entry_at (Kind.skip ∷ rest) e n h = insert_at-entry_at rest e n h
insert_at-entry_at (Kind.param name ∷ rest) e (node cs pc w pname o) h = ground (
  arith,
  insert_at-entry_at rest e (slot_or_new name pc) h,
  entry_at-slot_or_new (shape rest) pc name,
)
insert_at-entry_at (Kind.wild name ∷ []) e (node cs pc empty pname o) h = (refl, refl)
insert_at-entry_at (Kind.wild name ∷ []) e (node cs pc (full (node c1 p1 w1 n1 none)) pname o) h =
    (refl, refl)
insert_at-entry_at (Kind.wild name ∷ []) e (node cs pc (full (node c1 p1 w1 n1 (some old))) pname o)
      h =
    absurd (ground arith)
insert_at-entry_at (Kind.wild name ∷ _ ∷ _) e n h = absurd (ground arith)
insert_at-entry_at (Kind.lit t ∷ rest) e (node cs pc w pname o) h =
    let child = or_new [] (get_child t cs) in
    ground (
      arith,
      insert_at-entry_at rest e child h,
      entry_at-or_new (shape rest) (get_child t cs) [],
      get_child-set_child t t (insert_at rest e child).0 cs,
    )

put_entry-entry_at_ne :
    (q : Shape) (e : Entry) (n : Node) → q ≢ stop → entry_at q (put_entry e n).0 ≡ entry_at q n
unfolding put_entry entry_at
put_entry-entry_at_ne stop e (node cs pc w name o) h = absurd (h refl)
put_entry-entry_at_ne rest_of_path e (node cs pc w name none) h = refl
put_entry-entry_at_ne rest_of_path e (node cs pc w name (some old)) h = refl
put_entry-entry_at_ne (any q) e (node cs pc w name none) h = refl
put_entry-entry_at_ne (any q) e (node cs pc w name (some old)) h = refl
put_entry-entry_at_ne (text t q) e (node cs pc w name none) h = refl
put_entry-entry_at_ne (text t q) e (node cs pc w name (some old)) h = refl

put_wild-entry_at_ne :
    (name : Str) (q : Shape) (e : Entry) (n : Node)
    → q ≢ rest_of_path
    → entry_at q (put_wild name e n).0 ≡ entry_at q n
unfolding put_wild entry_at
put_wild-entry_at_ne name stop e (node cs pc w pname o) h = refl
put_wild-entry_at_ne name rest_of_path e (node cs pc w pname o) h = absurd (h refl)
put_wild-entry_at_ne name (any q) e (node cs pc w pname o) h = refl
put_wild-entry_at_ne name (text t q) e (node cs pc w pname o) h = refl

-- An insertion at a node, whether or not it reports an error, leaves the places of all other routes
-- alone.
pub insert_at-entry_at_ne :
    (p : List Kind) (q : Shape) (e : Entry) (n : Node)
    → q ≢ shape p
    → entry_at q (insert_at p e n).0 ≡ entry_at q n
unfolding insert_at entry_at shape
insert_at-entry_at_ne [] q e n h = put_entry-entry_at_ne q e n h
insert_at-entry_at_ne (Kind.skip ∷ rest) q e n h = insert_at-entry_at_ne rest q e n h
insert_at-entry_at_ne (Kind.param name ∷ rest) (any q) e (node cs pc w pname o) h =
    insert_at-entry_at_ne rest q e (slot_or_new name pc) (λ same. h (ap any same))
    ∙ entry_at-slot_or_new q pc name
insert_at-entry_at_ne (Kind.param name ∷ rest) stop e (node cs pc w pname o) h = refl
insert_at-entry_at_ne (Kind.param name ∷ rest) rest_of_path e (node cs pc w pname o) h = refl
insert_at-entry_at_ne (Kind.param name ∷ rest) (text t q) e (node cs pc w pname o) h = refl
insert_at-entry_at_ne (Kind.wild name ∷ []) q e n h = put_wild-entry_at_ne name q e n h
insert_at-entry_at_ne (Kind.wild name ∷ _ ∷ _) q e n h = refl
insert_at-entry_at_ne (Kind.lit t ∷ rest) (text t' q) e (node cs pc w pname o) h =
    let child = or_new [] (get_child t cs) in
    ground (
      arith,
      λ (d : q ≢ shape rest). insert_at-entry_at_ne rest q e child d,
      entry_at-or_new q (get_child t cs) [],
      get_child-set_child t t' (insert_at rest e child).0 cs,
    )
insert_at-entry_at_ne (Kind.lit t ∷ rest) stop e (node cs pc w pname o) h = refl
insert_at-entry_at_ne (Kind.lit t ∷ rest) rest_of_path e (node cs pc w pname o) h = refl
insert_at-entry_at_ne (Kind.lit t ∷ rest) (any q) e (node cs pc w pname o) h = refl
