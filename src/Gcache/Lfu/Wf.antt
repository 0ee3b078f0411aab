-- ===== src/Gcache/Lfu/Wf.antt =====
-- A new element in the cache of lfu.go keeps the invariant.
use mathlib.Core.Path.{subst}
use gk.Common.{
  ℕ, ◌<◌, ◌≡◌, inl, inr, refl, sym, ap, ◌∙◌, List, Option, none, some, arith, ℕ_discrete, if_pos,
  if_neg,
}
use gk.Common.Maps.{lookup, insert, lookup-insert}
use gk.Common.Str.{Str, Str_discrete}
use gk.Gcache.Linked.{push_front}
use gk.Gcache.Lfu.{LfuEntry, LfuCache, list_of, push_entry, push_new}
use gk.Gcache.Lfu.Laws.{or_else, inserted}
use gk.Gcache.Lfu.Invariant.{Among, insert_found, insert_kept, Points, IsWf}

pub some_inj : {A : Type 0} {x y : A} → some x ≡ some y → x ≡ y
some_inj {x = x} same = ap (or_else x) same

module _ {V : Type 0} where
  -- A new element for an entry: the entry is new, or had the same key.
  module _ (id : ℕ) (e : LfuEntry V) (c : LfuCache V)
      (same_key : (e0 : LfuEntry V) → lookup ℕ_discrete id c.entries ≡ some e0 → e0.key ≡ e.key)
      (new_element : (elem i : ℕ)
        → lookup ℕ_discrete elem c.elements ≡ some i
        → elem < c.next_element) where
    push_entry-Points_new : Points e.key c.next_element (push_entry id e c)
    unfolding push_entry
    push_entry-Points_new = record {
      id = id;
      e = e;
      pointed = inserted ℕ_discrete c.next_element id c.elements;
      stored = inserted ℕ_discrete id e c.entries;
      keyed = refl;
      l = _;
      listed = inserted ℕ_discrete e.freq _ c.freq_to_list;
    }

    push_entry-Points :
        (key : Str) (elem : ℕ) → Points key elem c → Points key elem (push_entry id e c)
    unfolding push_entry
    push_entry-Points key elem h =
        let there : lookup ℕ_discrete elem (insert ℕ_discrete c.next_element id c.elements)
            ≡ some h.id =
          lookup-insert ℕ_discrete c.next_element elem id c.elements
          ∙ if_neg (ℕ_discrete c.next_element elem)
              (λ same. omega (arith, same, new_element elem h.id h.pointed)) _ _
          ∙ h.pointed in
        elim (ℕ_discrete id h.id) [
          | yes same ↦ record {
            id = h.id;
            e = e;
            pointed = there;
            stored =
                lookup-insert ℕ_discrete id h.id e c.entries ∙ if_pos (ℕ_discrete id h.id) same _ _;
            keyed = sym (same_key h.e (rw same h.stored)) ∙ h.keyed;
            l = _;
            listed = inserted ℕ_discrete e.freq _ c.freq_to_list;
          }
          | no other ↦
              let (l, listed) =
                insert_kept ℕ_discrete e.freq h.e.freq _ h.l c.freq_to_list h.listed in
              record {
                id = h.id;
                e = h.e;
                pointed = there;
                stored =
                    lookup-insert ℕ_discrete id h.id e c.entries
                    ∙ if_neg (ℕ_discrete id h.id) other _ _
                    ∙ h.stored;
                keyed = h.keyed;
                l = l;
                listed = listed;
              }
        ]

    push_entry-mapped :
        ((key : Str) (elem : ℕ) → lookup Str_discrete key c.cache ≡ some elem → Points key elem c)
        → (key : Str) (elem : ℕ) → lookup Str_discrete key (push_entry id e c).cache ≡ some elem
        → Points key elem (push_entry id e c)
    push_entry-mapped old key elem h =
        elim (insert_found Str_discrete e.key key c.next_element elem c.cache
          (unfold push_entry in h)) [
            | inl (same, it) ↦
                subst (λ k. Points k elem (push_entry id e c)) same
                  (subst (λ x. Points e.key x (push_entry id e c)) it push_entry-Points_new)
            | inr before ↦ push_entry-Points key elem (old key elem before)
          ]

    in_front :
        ((freq : ℕ) (l : List ℕ) (elem : ℕ)
          → lookup ℕ_discrete freq c.freq_to_list ≡ some l
          → Among elem l
          → (key : Str) × Points key elem c)
        → (elem : ℕ) (o : Option (List ℕ)) → lookup ℕ_discrete e.freq c.freq_to_list ≡ o
        → Among elem (push_front c.next_element (list_of o))
        → (key : Str) × Points key elem (push_entry id e c)
    unfolding list_of
    in_front old elem o at_freq (inl first) =
        (e.key, subst (λ x. Points e.key x (push_entry id e c)) (sym first) push_entry-Points_new)
    in_front old elem none at_freq (inr later) = absurd later
    in_front old elem (some m) at_freq (inr later) =
        let (key, p) = old e.freq m elem at_freq later in (key, push_entry-Points key elem p)

    push_entry-in_lists :
        ((freq : ℕ) (l : List ℕ) (elem : ℕ)
          → lookup ℕ_discrete freq c.freq_to_list ≡ some l
          → Among elem l
          → (key : Str) × Points key elem c)
        → (freq : ℕ) (l : List ℕ) (elem : ℕ)
        → lookup ℕ_discrete freq (push_entry id e c).freq_to_list ≡ some l
        → Among elem l
        → (key : Str) × Points key elem (push_entry id e c)
    unfolding push_entry
    push_entry-in_lists old freq l elem h there =
        elim (insert_found ℕ_discrete e.freq freq
          (push_front c.next_element (list_of (lookup ℕ_discrete e.freq c.freq_to_list))) l
          c.freq_to_list h) [
            | inl (same, it) ↦
                in_front old elem (lookup ℕ_discrete e.freq c.freq_to_list) refl
                  (subst (Among elem) (sym it) there)
            | inr before ↦
                let (key, p) = old freq l elem before there in (key, push_entry-Points key elem p)
          ]

    push_entry-new_element :
        (elem i : ℕ)
        → lookup ℕ_discrete elem (push_entry id e c).elements ≡ some i
        → elem < (push_entry id e c).next_element
    push_entry-new_element elem i h =
        elim (insert_found ℕ_discrete c.next_element elem id i c.elements
          (unfold push_entry in h)) [
            | inl (same, it) ↦ unfold push_entry in omega (arith, same)
            | inr before ↦ unfold push_entry in omega (arith, new_element elem i before)
          ]

  pub pushed_entry :
      (id : ℕ) (e0 e : LfuEntry V) (c : LfuCache V)
      → IsWf c
      → lookup ℕ_discrete id c.entries ≡ some e0
      → (i : ℕ) (e1 : LfuEntry V) → lookup ℕ_discrete i (insert ℕ_discrete id e c.entries) ≡ some e1
      → i < c.next_entry
  pushed_entry id e0 e c wf found i e1 h = elim (insert_found ℕ_discrete id i e e1 c.entries h) [
    | inl (same, it) ↦ omega (arith, same, wf.new_entry id e0 found)
    | inr before ↦ wf.new_entry i e1 before
  ]

  pub push_old-IsWf :
      (id : ℕ) (e0 e : LfuEntry V) (c : LfuCache V)
      → IsWf c
      → lookup ℕ_discrete id c.entries ≡ some e0
      → e0.key ≡ e.key
      → IsWf (push_entry id e c)
  unfolding push_entry
  push_old-IsWf id e0 e c wf found same =
      let keys : (e1 : LfuEntry V) → lookup ℕ_discrete id c.entries ≡ some e1 → e1.key ≡ e.key =
        λ e1 h. ap (λ x. x.key) (some_inj (sym h ∙ found)) ∙ same in
      record {
        mapped = push_entry-mapped id e c keys wf.new_element wf.mapped;
        in_lists = push_entry-in_lists id e c keys wf.new_element wf.in_lists;
        new_element = push_entry-new_element id e c keys wf.new_element;
        new_entry = λ i e1 h. pushed_entry id e0 e c wf found i e1 h;
      }

  pub push_new-IsWf :
      (key : Str) (value : V) (c : LfuCache V) → IsWf c → IsWf (push_new key value c)
  unfolding push_new push_entry
  push_new-IsWf key value c wf =
      let e : LfuEntry V = record { key = key; value = value; freq = 1 } in
      let keys : (e1 : LfuEntry V)
          → lookup ℕ_discrete c.next_entry c.entries ≡ some e1
          → e1.key ≡ e.key =
        λ e1 h. absurd (omega (arith, wf.new_entry c.next_entry e1 h)) in
      record {
        mapped = push_entry-mapped c.next_entry e c keys wf.new_element wf.mapped;
        in_lists = push_entry-in_lists c.next_entry e c keys wf.new_element wf.in_lists;
        new_element = push_entry-new_element c.next_entry e c keys wf.new_element;
        new_entry = λ i e1 h. elim (insert_found ℕ_discrete c.next_entry i e e1 c.entries h) [
          | inl (same, it) ↦ omega (arith, same)
          | inr before ↦ omega (arith, wf.new_entry i e1 before)
        ];
      }
