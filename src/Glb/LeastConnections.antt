-- ===== src/Glb/LeastConnections.antt =====
-- `LeastConnectionsStrategy`: strategy.go.
use gk.Common.{
  ℕ, ◌+◌, ◌-◌, ◌<◌, ◌≤◌, ◌^◌, ◌≡◌, ◌⊎◌, refl, sym, ap, List, [], ◌∷◌, Option, none, some, arith,
  ite, if◌then◌else◌, ◌||◌, Bool-cases, inl, inr, ltb,
}
use gk.Common.Maps.{Map, lookup, insert, lookup-insert}
use gk.Common.Str.{Str, Str_discrete}
use gk.Common.Int64.{ℤ, pos, negsuc, add64, sub64, lt64, eq64, add64_pos, sub64_pos}
use gk.Glb.Instances.{Instance, Choice, no_instances, chosen, Listed}

pub record LeastConnections : Type 0 where
  pub connections : Map Str ℤ

abbrev or_zero : Option ℤ → ℤ
or_zero none = pos 0
or_zero (some n) = n

unfoldable pub connections_of : Str → LeastConnections → ℤ
connections_of address s = or_zero (lookup Str_discrete address s.connections)

-- The loop, with `selected` and `minConnections`, which is -1 at first.
unfoldable pub least : LeastConnections → Option Instance → ℤ → List Instance → Option Instance
least s selected fewest [] = selected
least s selected fewest (i ∷ l) =
    let conns = connections_of i.address s in
    let take = least s (some i) conns l in
    let keep = least s selected fewest l in
    if eq64 fewest (negsuc 0) || lt64 conns fewest then take else keep

unfoldable pub least_next : LeastConnections → List Instance → LeastConnections × Choice
least_next s [] = (s, no_instances)
least_next s (first ∷ others) = (s, chosen (least s none (negsuc 0) (first ∷ others)))

unfoldable pub increase_connections : Str → LeastConnections → LeastConnections
increase_connections address s = record s {
  connections =
      insert Str_discrete address (add64 (connections_of address s) (pos 1)) s.connections;
}

unfoldable pub decrease_connections : Str → LeastConnections → LeastConnections
decrease_connections address s =
    if lt64 (pos 0) (connections_of address s)
    then record s {
      connections =
          insert Str_discrete address (sub64 (connections_of address s) (pos 1)) s.connections;
    }
    else s

-- The number of connections of an address, where it is a natural number.
abbrev pub Counts : LeastConnections → (Str → ℕ) → Type 0
Counts s count = (address : Str) → connections_of address s ≡ pos (count address)

abbrev pub AtMost : (Str → ℕ) → ℕ → List Instance → Type 0
AtMost count n [] = Unit
AtMost count n (i ∷ l) = (n ≤ count i.address) × AtMost count n l

AtMost-trans :
    (count : Str → ℕ) (m n : ℕ) (l : List Instance) → m ≤ n → AtMost count n l → AtMost count m l
AtMost-trans count m n [] le h = tt
AtMost-trans count m n (i ∷ l) le (h, hs) = (omega arith, AtMost-trans count m n l le hs)

least-AtMost :
    (s : LeastConnections) (count : Str → ℕ) (i : Instance) (l : List Instance)
    → Counts s count
    → (j : Instance) × (least s (some i) (pos (count i.address)) l ≡ some j)
      × ((i ≡ j) ⊎ Listed j l)
      × (count j.address ≤ count i.address)
      × AtMost count (count j.address) l
unfolding least
least-AtMost s count i [] h = (i, refl, inl refl, omega arith, tt)
least-AtMost s count i (k ∷ l) h = elim (Bool-cases (ltb (count k.address) (count i.address))) [
  | inl fewer ↦
      let (j, found, listed, le, all) = least-AtMost s count k l h in
      (j, rw (h k.address, fewer) found, inr (of_tail listed), ground arith, (le, all))
  | inr more ↦
      let (j, found, listed, le, all) = least-AtMost s count i l h in
      (j, rw (h k.address, more) found, weaken listed, le, (ground arith, all))
]
  where
    of_tail : {j : Instance} → (k ≡ j) ⊎ Listed j l → Listed j (k ∷ l)
    of_tail (inl same) = inl (sym same)
    of_tail (inr later) = inr later

    weaken : {j : Instance} → (i ≡ j) ⊎ Listed j l → (i ≡ j) ⊎ Listed j (k ∷ l)
    weaken (inl same) = inl same
    weaken (inr later) = inr (inr later)

-- Where no count of connections is negative, an instance of a list that is not empty is chosen, no
-- instance of the list has fewer connections, and the connections stay as they are.
pub least_next_least :
    (s : LeastConnections) (count : Str → ℕ) (first : Instance) (others : List Instance)
    → Counts s count
    → (j : Instance) × (least_next s (first ∷ others) ≡ (s, chosen (some j)))
      × Listed j (first ∷ others)
      × AtMost count (count j.address) (first ∷ others)
unfolding least_next least
least_next_least s count first others h =
    let (j, found, listed, le, all) = least-AtMost s count first others h in
    (j, rw (h first.address) (ap (λ o. (s, chosen o)) found), listed_first listed, (le, all))
  where
    listed_first : {j : Instance} → (first ≡ j) ⊎ Listed j others → Listed j (first ∷ others)
    listed_first (inl same) = inl (sym same)
    listed_first (inr later) = inr later

-- Starting and ending a connection changes the count of its address by one, and no other count,
-- where the counts are natural numbers below the largest int64; a count of 0 stays at 0 when a
-- connection ends.
pub increase_connections_lem :
    (s : LeastConnections) (address q : Str) (n k : ℕ)
    → connections_of address s ≡ pos n
    → n + 1 < 2 ^ 63
    → connections_of q s ≡ pos k
    → (connections_of q (increase_connections address s)
        ≡ pos (ite (Str_discrete address q) (n + 1) k))
      × (connections_of q (decrease_connections address s)
          ≡ pos (ite (Str_discrete address q) (n - 1) k))
unfolding increase_connections decrease_connections connections_of
increase_connections_lem s address q n k at fits other = (
  ground (
    arith,
    at,
    other,
    add64_pos n 1 fits,
    lookup-insert Str_discrete address q (add64 (pos n) (pos 1)) s.connections,
  ),
  elim (Bool-cases (ltb 0 n)) [
    | inl some_left ↦ ground (
      arith,
      at,
      other,
      sub64_pos n 1,
      lookup-insert Str_discrete address q (sub64 (pos n) (pos 1)) s.connections,
    )
    | inr none_left ↦ ground (arith, at, other)
  ],
)
