-- ===== src/Gserver/Radix.antt =====
-- `CompressedRadixTree`: radix.go. A pointer to a child is a `Slot`; the map of static children is
-- the list `Children`. The tree's root is never nil, since `newCompressedRadixTree` sets it.
pub mod Find
pub mod Remove
pub mod Unreachable
pub mod Matching
pub mod Wf
pub mod Count
pub mod Routes
use gk.Common.{
  ℕ, ◌+◌, ◌-◌, Bool, true, false, List, [], ◌∷◌, ◌++◌, Option, none, some, ite, ◌&&◌, not,
}
use gk.Common.Maps.{Map, lookup, insert, delete}
use gk.Common.Str.{Str, Str_discrete, join}
use gk.Gserver.Entry.{Entry, MatchResult, Kind, kinds, to_result}

mutual
  pub data Node : Type 0 where
    node :
        (children : Children) (param_child wildcard_child : Slot) (param_name : Str)
        (entry : Option Entry)
        → Node

  pub data Children : Type 0 where
    nil : Children
    cons : Str → Node → Children → Children

  pub data Slot : Type 0 where
    empty : Slot
    full : Node → Slot

abbrev pub children : Node → Children
children (node cs p w name e) = cs

abbrev pub param_child : Node → Slot
param_child (node cs p w name e) = p

abbrev pub wildcard_child : Node → Slot
wildcard_child (node cs p w name e) = w

abbrev pub param_name : Node → Str
param_name (node cs p w name e) = name

abbrev pub entry : Node → Option Entry
entry (node cs p w name e) = e

abbrev pub set_children : Children → Node → Node
set_children cs' (node cs p w name e) = node cs' p w name e

abbrev pub set_param_child : Slot → Node → Node
set_param_child p' (node cs p w name e) = node cs p' w name e

abbrev pub set_wildcard_child : Slot → Node → Node
set_wildcard_child w' (node cs p w name e) = node cs p w' name e

abbrev pub set_entry : Option Entry → Node → Node
set_entry e' (node cs p w name e) = node cs p w name e'

-- `newRadixNode`, with the parameter's name that `insert` sets afterwards.
abbrev pub new_node : Str → Node
new_node name = node nil empty empty name none

unfoldable pub get_child : Str → Children → Option Node
get_child k nil = none
get_child k (cons j n cs) = ite (Str_discrete j k) (some n) (get_child k cs)

unfoldable pub set_child : Str → Node → Children → Children
set_child k n nil = cons k n nil
set_child k n (cons j m cs) = ite (Str_discrete j k) (cons j n cs) (cons j m (set_child k n cs))

unfoldable pub delete_child : Str → Children → Children
delete_child k nil = nil
delete_child k (cons j m cs) =
    let rest = delete_child k cs in ite (Str_discrete j k) rest (cons j m rest)

pub data RouteError : Type 0 where
  nil_entry : RouteError
  duplicate catch_all_not_last : Str → RouteError
  not_found : RouteError

abbrev or_new : Str → Option Node → Node
or_new name none = new_node name
or_new name (some n) = n

abbrev slot_or_new : Str → Slot → Node
slot_or_new name empty = new_node name
slot_or_new name (full n) = n

-- The end of `insert`: the duplicate test and `current.entry = entry`.
put_entry : Entry → Node → Node × Option RouteError
put_entry e (node cs p w name none) = (node cs p w name (some e), none)
put_entry e (node cs p w name (some old)) = (node cs p w name (some old), some (duplicate e.path))

-- The catch-all case: the child is created before the duplicate test.
put_wild : Str → Entry → Node → Node × Option RouteError
unfolding put_entry
put_wild name e n =
    let (child, err) = put_entry e (slot_or_new name (wildcard_child n)) in
    (set_wildcard_child (full child) n, err)

-- The loop over the segments, each by its kind. The node that an error leaves behind is returned
-- beside it.
unfoldable pub insert_at : List Kind → Entry → Node → Node × Option RouteError
unfolding put_entry put_wild
insert_at [] e n = put_entry e n
insert_at (Kind.skip ∷ rest) e n = insert_at rest e n
insert_at (Kind.param name ∷ rest) e n =
    let (child, err) = insert_at rest e (slot_or_new name (param_child n)) in
    (set_param_child (full child) n, err)
insert_at (Kind.wild name ∷ []) e n = put_wild name e n
insert_at (Kind.wild name ∷ _ ∷ _) e n = (n, some (catch_all_not_last e.path))
insert_at (Kind.lit text ∷ rest) e n =
    let (child, err) = insert_at rest e (or_new [] (get_child text (children n))) in
    (set_children (set_child text child (children n)) n, err)

pub record Tree : Type 0 where
  pub root : Node
  pub size : ℕ

abbrev pub new_tree : Tree
new_tree = record { root = new_node []; size = 0 }

abbrev grown : Option RouteError → ℕ → ℕ
grown none n = n + 1
grown (some err) n = n

unfoldable pub insert_entry : Option Entry → Tree → Tree × Option RouteError
unfolding insert_at kinds
insert_entry none t = (t, some nil_entry)
insert_entry (some e) t =
    let (root', err) = insert_at (kinds e.path) e t.root in
    (record { root = root'; size = grown err t.size }, err)

unfoldable pub is_empty : Node → Bool
is_empty (node nil empty empty name none) = true
is_empty _ = false
