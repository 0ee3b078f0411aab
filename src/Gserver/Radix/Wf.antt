-- ===== src/Gserver/Radix/Wf.antt =====
-- Well-formed trees: as in a Go map, no key stands twice among the static children of a node.

use gk.Common.{
  Bool-cases, if_pos, if_neg, Option-cases, inl, inr, true, false, List, [], ◌∷◌, Option, none,
  some, ◌≡◌, refl, arith, if◌then◌else◌, Bool,
}
use gk.Common.Str.{Str, Str_discrete}
use gk.Gserver.Entry.{Kind, Entry}
use gk.Gserver.Radix.{
  Node, node, Slot, empty, full, Children, nil, cons, get_child, set_child, delete_child, is_empty,
  insert_at, put_entry, new_node, or_new, slot_or_new, wildcard_child,
}
use gk.Gserver.Radix.Remove.{Removal, remove_node, after_param, after_static, remove_wild}
use gk.Gserver.Radix.Routes.{get_child-set_child, get_child-delete_child}

unfoldable mutual
  pub IsWf : Node → Type 0
  IsWf (node cs p w name o) = IsWfChildren cs × IsWfSlot p × IsWfSlot w

  pub IsWfChildren : Children → Type 0
  IsWfChildren nil = Unit
  IsWfChildren (cons k n cs) = (get_child k cs ≡ none) × IsWf n × IsWfChildren cs

  pub IsWfSlot : Slot → Type 0
  IsWfSlot empty = Unit
  IsWfSlot (full n) = IsWf n

pub new_node-IsWf : (name : Str) → IsWf (new_node name)
unfolding IsWf
new_node-IsWf name = (tt, tt, tt)

pub get_child-IsWf :
    (k : Str) (cs : Children) (n : Node) → IsWfChildren cs → get_child k cs ≡ some n → IsWf n
unfolding IsWf get_child
get_child-IsWf k nil n h e = absurd (ground arith)
get_child-IsWf k (cons j m cs) n (new, here, rest) e = ground (arith, get_child-IsWf k cs n rest)

set_child-IsWf :
    (k : Str) (n : Node) (cs : Children)
    → IsWfChildren cs
    → IsWf n
    → IsWfChildren (set_child k n cs)
unfolding IsWf set_child get_child
set_child-IsWf k n nil h w = (refl, w, tt)
set_child-IsWf k n (cons j m cs) (new, here, rest) w = elim (Str_discrete j k) [
  | yes p ↦ rw (if_pos _ p) (new, w, rest)
  | no p ↦
      rw (if_neg _ p)
        (ground (arith, get_child-set_child k j n cs), here, set_child-IsWf k n cs rest w)
]

delete_child-IsWf : (k : Str) (cs : Children) → IsWfChildren cs → IsWfChildren (delete_child k cs)
unfolding IsWf delete_child get_child
delete_child-IsWf k nil h = tt
delete_child-IsWf k (cons j m cs) (new, here, rest) = elim (Str_discrete j k) [
  | yes p ↦ rw (if_pos _ p) (delete_child-IsWf k cs rest)
  | no p ↦
      rw (if_neg _ p)
        (ground (arith, get_child-delete_child k j cs), here, delete_child-IsWf k cs rest)
]

or_new-IsWf : (name k : Str) (cs : Children) → IsWfChildren cs → IsWf (or_new name (get_child k cs))
or_new-IsWf name k cs h = elim (Option-cases (get_child k cs)) [
  | inl missing ↦ rw missing (new_node-IsWf name)
  | inr (c, found) ↦ rw found (get_child-IsWf k cs c h found)
]

slot_or_new-IsWf : (name : Str) (s : Slot) → IsWfSlot s → IsWf (slot_or_new name s)
unfolding IsWf
slot_or_new-IsWf name empty h = new_node-IsWf name
slot_or_new-IsWf name (full n) h = h

put_entry-IsWf : (e : Entry) (n : Node) → IsWf n → IsWf (put_entry e n).0
unfolding IsWf put_entry
put_entry-IsWf e (node cs p w name none) h = h
put_entry-IsWf e (node cs p w name (some o)) h = h

-- An insertion keeps a tree well formed, also one that reports an error.
pub insert_at-IsWf : (p : List Kind) (e : Entry) (n : Node) → IsWf n → IsWf (insert_at p e n).0
unfolding insert_at IsWf
insert_at-IsWf [] e n h = put_entry-IsWf e n h
insert_at-IsWf (Kind.skip ∷ rest) e n h = insert_at-IsWf rest e n h
insert_at-IsWf (Kind.param name ∷ rest) e (node cs pc w pname o) (hc, hp, hw) =
    (hc, insert_at-IsWf rest e (slot_or_new name pc) (slot_or_new-IsWf name pc hp), hw)
insert_at-IsWf (Kind.wild name ∷ []) e (node cs pc w pname o) (hc, hp, hw) =
    (hc, hp, put_entry-IsWf e (slot_or_new name w) (slot_or_new-IsWf name w hw))
insert_at-IsWf (Kind.wild name ∷ _ ∷ _) e n h = h
insert_at-IsWf (Kind.lit t ∷ rest) e (node cs pc w pname o) (hc, hp, hw) =
    let child = or_new [] (get_child t cs) in
    (set_child-IsWf t _ cs hc (insert_at-IsWf rest e child (or_new-IsWf [] t cs hc)), hp, hw)

if-IsWf_children :
    (b : Bool) (xs ys : Children)
    → IsWfChildren xs
    → IsWfChildren ys
    → IsWfChildren (if b then xs else ys)
if-IsWf_children true xs ys h k = h
if-IsWf_children false xs ys h k = k

if-IsWf_slot :
    (b : Bool) (xs ys : Slot) → IsWfSlot xs → IsWfSlot ys → IsWfSlot (if b then xs else ys)
if-IsWf_slot true xs ys h k = h
if-IsWf_slot false xs ys h k = k

after_param-IsWf : (n : Node) (r : Removal) → IsWf n → IsWf r.left → IsWf (after_param n r).left
unfolding after_param IsWf
after_param-IsWf (node cs pc w name o) r (hc, hp, hw) h = elim (Bool-cases r.removed) [
  | inl gone ↦ rw gone (hc, if-IsWf_slot r.prune empty (full r.left) tt h, hw)
  | inr kept ↦ rw kept (hc, h, hw)
]

after_static-IsWf :
    (t : Str) (n : Node) (r : Removal) → IsWf n → IsWf r.left → IsWf (after_static t n r).left
unfolding after_static IsWf
after_static-IsWf t (node cs pc w name o) r (hc, hp, hw) h = elim (Bool-cases r.removed) [
  | inl gone ↦ rw gone (
    if-IsWf_children r.prune _ _ (delete_child-IsWf t cs hc) (set_child-IsWf t r.left cs hc h),
    hp,
    hw,
  )
  | inr kept ↦ rw kept (set_child-IsWf t r.left cs hc h, hp, hw)
]

remove_wild-IsWf :
    (name : Str) (cs : Children) (pc w : Slot) (pname : Str) (o : Option Entry)
    → IsWf (node cs pc w pname o)
    → IsWf (remove_wild name (node cs pc w pname o) w).left
unfolding remove_wild IsWf
remove_wild-IsWf name cs pc empty pname o h = h
remove_wild-IsWf name cs pc (full (node c1 p1 w1 n1 none)) pname o h =
    let n = node cs pc (full (node c1 p1 w1 n1 none)) pname o in
    let same : (remove_wild name n (wildcard_child n)).left ≡ n = ground arith in rw same h
remove_wild-IsWf name cs pc (full (node c1 p1 w1 n1 (some e))) pname o (hc, hp, hw) =
    let child = node c1 p1 w1 n1 none in
    let n = node cs pc (full (node c1 p1 w1 n1 (some e))) pname o in
    let w' = if is_empty child then empty else full child in
    elim (Str_discrete n1 name) [
      | yes p ↦
          let cleared : (remove_wild name n (wildcard_child n)).left ≡ node cs pc w' pname o =
            ground arith in
          rw cleared (hc, hp, if-IsWf_slot (is_empty child) empty (full child) tt hw)
      | no p ↦
          let same : (remove_wild name n (wildcard_child n)).left ≡ n = ground arith in
          rw same (hc, hp, hw)
    ]

-- So does a removal.
pub remove_node-IsWf : (p : List Kind) (n : Node) → IsWf n → IsWf (remove_node p n).left
unfolding remove_node IsWf
remove_node-IsWf [] (node cs pc w name none) h = h
remove_node-IsWf [] (node cs pc w name (some o)) h = h
remove_node-IsWf (Kind.skip ∷ rest) n h = h
remove_node-IsWf (Kind.param name ∷ rest) (node cs empty w pname o) h = h
remove_node-IsWf (Kind.param name ∷ rest) (node cs (full c) w pname o) (hc, hp, hw) =
    after_param-IsWf (node cs (full c) w pname o) (remove_node rest c) (hc, hp, hw)
      (remove_node-IsWf rest c hp)
remove_node-IsWf (Kind.wild name ∷ []) (node cs pc w pname o) h =
    remove_wild-IsWf name cs pc w pname o h
remove_node-IsWf (Kind.wild name ∷ _ ∷ _) n h = h
remove_node-IsWf (Kind.lit t ∷ rest) (node cs pc w pname o) h =
    elim (Option-cases (get_child t cs)) [
      | inl missing ↦ rw missing h
      | inr (c, found) ↦ rw found (
          after_static-IsWf t (node cs pc w pname o) (remove_node rest c) h
            (remove_node-IsWf rest c (get_child-IsWf t cs c h.0 found)))
    ]
