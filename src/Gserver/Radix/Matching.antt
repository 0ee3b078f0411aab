-- ===== src/Gserver/Radix/Matching.antt =====
-- What the backtracking search finds, against the list of all entries that a path may be served by.
use mathlib.Core.List.{head?, Mem, mem-cons_self, mem-append, not-mem-nil}
use mathlib.Core.Logic.Or
use mathlib.Core.Path.{subst}
use gk.Common.{List, [], ◌∷◌, ◌++◌, Option, none, some, ◌≡◌, ◌≢◌, refl, sym, All, ◌∙◌, ap₂}
use gk.Common.Str.{Str}
use gk.Gserver.Entry.{Entry}
use gk.Gserver.Radix.{
  Node, node, Slot, empty, full, children, param_child, wildcard_child, entry, get_child,
}
use gk.Gserver.Radix.Routes.{slot_entry}
use gk.Gserver.Radix.Find.{Params, Found, find, or_else, take_wild, in_static, in_param}

abbrev pub of_option : Option Entry → List Entry
of_option none = []
of_option (some e) = e ∷ []

abbrev or_option : Option Entry → Option Entry → Option Entry
or_option none o = o
or_option (some e) o = some e

All-of_option :
    (P : Entry → Type 0) (o : Option Entry) → ((e : Entry) → o ≡ some e → P e) → All P (of_option o)
All-of_option P none h = tt
All-of_option P (some e) h = (h e refl, tt)

All-append : (P : Entry → Type 0) (xs ys : List Entry) → All P xs → All P ys → All P (xs ++ ys)
All-append P [] ys hx hy = hy
All-append P (x ∷ xs) ys (h, hx) hy = (h, All-append P xs ys hx hy)

All-imp :
    (P Q : Entry → Type 0) → ((e : Entry) → P e → Q e) → (xs : List Entry) → All P xs → All Q xs
All-imp P Q f [] h = tt
All-imp P Q f (x ∷ xs) (p, h) = (f x p, All-imp P Q f xs h)

-- A route serves the segments of a path: a literal one serves its segment, a parameter any segment
-- that is not empty, and a catch-all what is left, which may be nothing.
pub data Serves : Node → List Str → Entry → Type 0 where
  at_end : {n : Node} {e : Entry} → entry n ≡ some e → Serves n [] e
  by_wild :
      {n : Node} {segs : List Str} {e : Entry}
      → slot_entry (wildcard_child n) ≡ some e
      → Serves n segs e
  by_static :
      {n c : Node} {seg : Str} {rest : List Str} {e : Entry}
      → seg ≢ []
      → get_child seg (children n) ≡ some c
      → Serves c rest e
      → Serves n (seg ∷ rest) e
  by_param :
      {n c : Node} {seg : Str} {rest : List Str} {e : Entry}
      → seg ≢ []
      → param_child n ≡ full c
      → Serves c rest e
      → Serves n (seg ∷ rest) e

abbrev below_option : (Node → List Entry) → Option Node → List Entry
below_option below none = []
below_option below (some child) = below child

abbrev below_slot : (Node → List Entry) → Slot → List Entry
below_slot below empty = []
below_slot below (full child) = below child

-- The entries that serve the segments, the preferred ones first: literal segments before
-- parameters, and catch-alls last.
unfoldable pub serving : List Str → Node → List Entry
serving [] n = of_option (entry n) ++ of_option (slot_entry (wildcard_child n))
serving ([] ∷ rest) n = of_option (slot_entry (wildcard_child n))
serving ((c ∷ s) ∷ rest) n =
    below_option (serving rest) (get_child (c ∷ s) (children n))
    ++ (below_slot (serving rest) (param_child n) ++ of_option (slot_entry (wildcard_child n)))

take_wild-entry : (value : Str) (s : Slot) (ps : Params) → (take_wild value s ps).0 ≡ slot_entry s
unfolding take_wild
take_wild-entry value empty ps = refl
take_wild-entry value (full (node cs p w name none)) ps = refl
take_wild-entry value (full (node cs p w name (some e))) ps = refl

or_else-entry :
    (r : Found) (next : Params → Found) (o : Option Entry)
    → ((ps : Params) → (next ps).0 ≡ o)
    → (or_else r next).0 ≡ or_option r.0 o
or_else-entry (none, ps) next o h = h ps
or_else-entry (some e, ps) next o h = refl

or_else-fails : (r : Found) (f : Params → Params) → (or_else r (λ ps. (none, f ps))).0 ≡ r.0
or_else-fails (none, ps) f = refl
or_else-fails (some e, ps) f = refl

head?-append : (xs ys : List Entry) → head? (xs ++ ys) ≡ or_option (head? xs) (head? ys)
head?-append [] ys = refl
head?-append (x ∷ xs) ys = refl

or_option-head? :
    (xs ys zs : List Entry)
    → or_option (or_option (head? xs) (head? ys)) (head? zs) ≡ head? (xs ++ (ys ++ zs))
or_option-head? [] ys zs = sym (head?-append ys zs)
or_option-head? (x ∷ xs) ys zs = refl

head?-of_option : (o : Option Entry) → head? (of_option o) ≡ o
head?-of_option none = refl
head?-of_option (some e) = refl

module _ (go : Node → Params → Found) (below : Node → List Entry)
    (ih : (n : Node) (ps : Params) → (go n ps).0 ≡ head? (below n)) where
  in_static-entry :
      (o : Option Node) (ps : Params) → (in_static go o ps).0 ≡ head? (below_option below o)
  in_static-entry none ps = refl
  in_static-entry (some child) ps = ih child ps

  in_param-entry :
      (seg : Str) (s : Slot) (ps : Params) → (in_param go seg s ps).0 ≡ head? (below_slot below s)
  unfolding in_param
  in_param-entry seg empty ps = refl
  in_param-entry seg (full child) ps = or_else-fails _ _ ∙ ih child _

-- The search returns the first entry of `serving`, the list of all entries of the tree that serve
-- the segments in the order of preference, whatever parameters it starts from.
pub find-serving :
    (segs : List Str) (n : Node) (ps : Params) → (find segs n ps).0 ≡ head? (serving segs n)
unfolding find serving
find-serving [] (node cs p w name (some e)) ps = refl
find-serving [] (node cs p w name none) ps =
    take_wild-entry [] w ps ∙ sym (head?-of_option (slot_entry w))
find-serving ([] ∷ rest) n ps =
    take_wild-entry _ (wildcard_child n) ps ∙ sym (head?-of_option (slot_entry (wildcard_child n)))
find-serving ((c ∷ s) ∷ rest) (node cs pc w name o) ps =
    or_else-entry _ _ (slot_entry w) (take_wild-entry _ w)
    ∙ ap₂ or_option
        (or_else-entry _ _ _
            (in_param-entry (find rest) (serving rest) (find-serving rest) (c ∷ s) pc)
          ∙ ap₂ or_option
              (in_static-entry (find rest) (serving rest) (find-serving rest) (get_child (c ∷ s) cs)
                ps)
              refl)
        (sym (head?-of_option (slot_entry w)))
    ∙ or_option-head? (below_option (serving rest) (get_child (c ∷ s) cs))
        (below_slot (serving rest) pc) _

-- Every entry in the list serves the segments.
serving-Serves : (segs : List Str) (n : Node) → All (Serves n segs) (serving segs n)
unfolding serving
serving-Serves [] (node cs pc w name o) =
    All-append _ _ _ (All-of_option _ o (λ e h. at_end h))
      (All-of_option _ (slot_entry w) (λ e h. by_wild h))
serving-Serves ([] ∷ rest) (node cs pc w name o) = All-of_option _ (slot_entry w) (λ e h. by_wild h)
serving-Serves ((c ∷ s) ∷ rest) (node cs pc w name o) =
    All-append _ _ _ (statics (serving-Serves rest) (get_child (c ∷ s) cs) refl) (
      All-append _ _ _ (params (serving-Serves rest) pc refl)
        (All-of_option _ (slot_entry w) (λ e h. by_wild h)))
  where
    statics :
        ((m : Node) → All (Serves m rest) (serving rest m))
        → (found : Option Node) → get_child (c ∷ s) cs ≡ found
        → All (Serves (node cs pc w name o) ((c ∷ s) ∷ rest)) (below_option (serving rest) found)
    statics ih none same = tt
    statics ih (some child) same =
        All-imp _ _ (λ e h. by_static (λ x. cc) same h) (serving rest child) (ih child)

    params :
        ((m : Node) → All (Serves m rest) (serving rest m))
        → (found : Slot) → pc ≡ found
        → All (Serves (node cs pc w name o) ((c ∷ s) ∷ rest)) (below_slot (serving rest) found)
    params ih empty same = tt
    params ih (full child) same =
        All-imp _ _ (λ e h. by_param (λ x. cc) same h) (serving rest child) (ih child)

mem_left : (e : Entry) (xs ys : List Entry) → Mem e xs → Mem e (xs ++ ys)
mem_left e xs ys m = mem-append.1 (Or.inl m)

mem_right : (e : Entry) (xs ys : List Entry) → Mem e ys → Mem e (xs ++ ys)
mem_right e xs ys m = mem-append.1 (Or.inr m)

mem-of_option : (e : Entry) (o : Option Entry) → o ≡ some e → Mem e (of_option o)
mem-of_option e o h = rw h mem-cons_self

-- A route that serves the segments is in the list.
Serves-serving : {n : Node} {segs : List Str} {e : Entry} → Serves n segs e → Mem e (serving segs n)
unfolding serving
Serves-serving (at_end {e} h) = mem_left e _ _ (mem-of_option e _ h)
Serves-serving (by_wild {segs = []} {e} h) = mem_right e _ _ (mem-of_option e _ h)
Serves-serving (by_wild {segs = [] ∷ rest} {e} h) = mem-of_option e _ h
Serves-serving (by_wild {segs = (c ∷ s) ∷ rest} {e} h) =
    mem_right e _ _ (mem_right e _ _ (mem-of_option e _ h))
Serves-serving (by_static {seg = []} ne found h) = absurd (ne refl)
Serves-serving (by_static {n} {seg = c ∷ s} {rest} {e} ne found h) =
    mem_left e _ _
      (subst (λ o. Mem e (below_option (serving rest) o)) (sym found) (Serves-serving h))
Serves-serving (by_param {seg = []} ne found h) = absurd (ne refl)
Serves-serving (by_param {n} {seg = c ∷ s} {rest} {e} ne found h) = mem_right e _ _ (
    mem_left e _ _
      (subst (λ o. Mem e (below_slot (serving rest) o)) (sym found) (Serves-serving h)))

serving-of_head :
    (P : Entry → Type 0) (xs : List Entry) (e : Entry) → All P xs → head? xs ≡ some e → P e
serving-of_head P [] e h same = cc
serving-of_head P (x ∷ xs) e (h, hs) same = let eq : x ≡ e = cc in subst P eq h

-- An entry that the search returns serves the segments.
pub find-Serves :
    (segs : List Str) (n : Node) (ps : Params) {e : Entry}
    → (find segs n ps).0 ≡ some e
    → Serves n segs e
find-Serves segs n ps h =
    serving-of_head (Serves n segs) (serving segs n) _ (serving-Serves segs n)
      (sym (find-serving segs n ps) ∙ h)

-- If some route serves the segments, the search returns an entry.
pub find_complete :
    (segs : List Str) (n : Node) (ps : Params) {e : Entry}
    → Serves n segs e
    → (found : Entry) × ((find segs n ps).0 ≡ some found)
find_complete segs n ps {e} h =
    nonempty (serving segs n) (Serves-serving h) (find-serving segs n ps)
  where
    nonempty :
        (xs : List Entry)
        → Mem e xs
        → (find segs n ps).0 ≡ head? xs
        → (found : Entry) × ((find segs n ps).0 ≡ some found)
    nonempty [] m same = absurd (not-mem-nil m)
    nonempty (x ∷ xs) m same = (x, same)
