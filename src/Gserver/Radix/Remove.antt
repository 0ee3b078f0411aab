-- ===== src/Gserver/Radix/Remove.antt =====
-- `remove` and `removeRadixNode`: radix.go. The error of `removeRadixNode` is nil on every branch.
pub mod Laws
use gk.Common.{ℕ, ◌-◌, Bool, true, false, List, [], ◌∷◌, Option, none, some, if◌then◌else◌, ite}
use mathlib.Core.Option
use gk.Common.Str.{Str, Str_discrete}
use gk.Gserver.Entry.{Entry, Kind, kinds}
use gk.Gserver.Radix.{
  Node, node, Slot, empty, full, RouteError, not_found, Tree, children, param_child, wildcard_child,
  set_children, set_param_child, set_wildcard_child, get_child, set_child, delete_child, is_empty,
}

-- The results (removed, prune), and the node as it was left.
pub record Removal : Type 0 where
  pub removed : Bool
  pub prune : Bool
  pub left : Node

abbrev kept : Node → Removal
kept n = record { removed = false; prune = false; left = n }

abbrev gone : Node → Removal
unfolding is_empty
gone n = record { removed = true; prune = is_empty n; left = n }

remove_entry : Node → Removal
remove_entry (node cs p w name none) = kept (node cs p w name none)
remove_entry (node cs p w name (some e)) = gone (node cs p w name none)

-- What the caller does with the result for a static child, and for the parameter child.
unfoldable pub after_static : Str → Node → Removal → Removal
unfolding gone
after_static text n r =
    if r.removed
    then gone (
        set_children
          (if r.prune then delete_child text (children n) else set_child text r.left (children n))
          n)
    else kept (set_children (set_child text r.left (children n)) n)

unfoldable pub after_param : Node → Removal → Removal
unfolding gone
after_param n r =
    if r.removed
    then gone (set_param_child (if r.prune then empty else full r.left) n)
    else kept (set_param_child (full r.left) n)

-- The wildcard child's entry is cleared, and an empty child dropped.
clear_wild : Node → Node → Removal
clear_wild n (node cs p w name none) = kept n
clear_wild n (node cs p w name (some e)) =
    let child = node cs p w name none in
    gone (set_wildcard_child (if is_empty child then empty else full child) n)

unfoldable pub remove_wild : Str → Node → Slot → Removal
unfolding clear_wild gone
remove_wild name n empty = kept n
remove_wild name n (full (node cs p w pname e)) =
    ite (Str_discrete pname name) (clear_wild n (node cs p w pname e)) (kept n)

-- A literal segment, with the call for its child.
in_static : Str → Node → Option Removal → Removal
unfolding after_static
in_static text n none = kept n
in_static text n (some r) = after_static text n r

in_param : Node → Option Removal → Removal
unfolding after_param
in_param n none = kept n
in_param n (some r) = after_param n r

abbrev pub slot_node : Slot → Option Node
slot_node empty = none
slot_node (full n) = some n

unfoldable pub remove_node : List Kind → Node → Removal
unfolding remove_entry in_static in_param remove_wild gone
remove_node [] n = remove_entry n
remove_node (Kind.skip ∷ rest) n = kept n
remove_node (Kind.lit text ∷ rest) n =
    in_static text n (Option.map (remove_node rest) (get_child text (children n)))
remove_node (Kind.param name ∷ rest) n =
    in_param n (Option.map (remove_node rest) (slot_node (param_child n)))
remove_node (Kind.wild name ∷ []) n = remove_wild name n (wildcard_child n)
remove_node (Kind.wild name ∷ _ ∷ _) n = kept n

unfoldable pub remove_path : Str → Tree → Tree × Option RouteError
unfolding remove_node kinds
remove_path path t =
    let r = remove_node (kinds path) t.root in
    if r.removed
    then (record t { root = r.left; size = t.size - 1 }, none)
    else (record t { root = r.left }, some not_found)
