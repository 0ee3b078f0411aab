-- ===== src/Glb/Weighted/Laws.antt =====
-- The order in which the weighted strategy chooses.
use native.Mathlib.Nat.{mod-add-mod, mod-eq_of_lt, mod_self, mod-lt}
use gk.Common.{
  ℕ, zero, suc, ◌+◌, ◌-◌, ◌%◌, ◌<◌, ◌≤◌, ◌^◌, ◌≡◌, refl, sym, ap, ap₂, ◌∙◌, List, [], ◌∷◌, Option,
  none, some, arith, if◌then◌else◌, ltb→lt, Bool-cases, inl, inr, ltb, get_elem?,
}
use gk.Common.Maps.{insert, lookup-insert}
use gk.Common.Str.{Str_discrete}
use gk.Common.Int64.{pos, add64, add64_pos, sub64_pos}
use gk.Glb.Instances.{Instance, Choice, chosen}
use gk.Glb.Weighted.{Weighted, counter, total_weight, select, wrapped, weighted_next}

-- The weights as natural numbers, where none is negative.
abbrev pub Weighs : List Instance → List ℕ → Type 0
Weighs [] [] = Unit
Weighs [] (w ∷ ws) = ⊥
Weighs (i ∷ l) [] = ⊥
Weighs (i ∷ l) (w ∷ ws) = (i.weight ≡ pos w) × Weighs l ws

abbrev pub sum : List ℕ → ℕ
sum [] = 0
sum (w ∷ ws) = w + sum ws

-- The instances, each as often as its weight says.
abbrev pub repeated : ℕ → Instance → List (Option Instance) → List (Option Instance)
repeated zero i l = l
repeated (suc n) i l = some i ∷ repeated n i l

unfoldable pub blocks : List Instance → List ℕ → List (Option Instance)
blocks [] ws = []
blocks (i ∷ l) [] = []
blocks (i ∷ l) (w ∷ ws) = repeated w i (blocks l ws)

total_weight-sum :
    (acc : ℕ) (l : List Instance) (ws : List ℕ)
    → Weighs l ws
    → acc + sum ws < 2 ^ 63
    → total_weight (pos acc) l ≡ pos (acc + sum ws)
unfolding total_weight
total_weight-sum acc [] [] w h = ap pos (omega arith)
total_weight-sum acc [] (x ∷ ws) w h = absurd w
total_weight-sum acc (i ∷ l) [] w h = absurd w
total_weight-sum acc (i ∷ l) (x ∷ ws) (same, w) h =
    rw (same, add64_pos acc x (omega arith))
      (total_weight-sum (acc + x) l ws w (omega arith) ∙ ap pos (omega arith))

get_elem?-repeated :
    (w : ℕ) (i : Instance) (r : List (Option Instance)) (c : ℕ)
    → get_elem? (repeated w i r) c ≡ (if ltb c w then some (some i) else get_elem? r (c - w))
get_elem?-repeated zero i r c = ground arith
get_elem?-repeated (suc w) i r zero = ground arith
get_elem?-repeated (suc w) i r (suc c) = get_elem?-repeated w i r c ∙ ground arith

-- The second loop finds the block that the counter falls into.
select-blocks :
    (c : ℕ) (l : List Instance) (ws : List ℕ)
    → Weighs l ws
    → c < sum ws
    → sum ws < 2 ^ 63
    → get_elem? (blocks l ws) c ≡ some (select (pos c) l)
unfolding select blocks
select-blocks c [] [] w h b = absurd (omega arith)
select-blocks c [] (x ∷ ws) w h b = absurd w
select-blocks c (i ∷ l) [] w h b = absurd w
select-blocks c (i ∷ l) (x ∷ ws) (same, w) h b = elim (Bool-cases (ltb c x)) [
  | inl here ↦ get_elem?-repeated x i (blocks l ws) c ∙ rw (same, here) refl
  | inr later ↦
      get_elem?-repeated x i (blocks l ws) c
      ∙ rw (same, later, sub64_pos c x (ground arith) (omega arith))
          (select-blocks (c - x) l ws w (ground arith) (omega arith))
]

select-none : (l : List Instance) (ws : List ℕ) → Weighs l ws → sum ws ≡ 0 → select (pos 0) l ≡ none
unfolding select
select-none [] ws w h = refl
select-none (i ∷ l) [] w h = absurd w
select-none (i ∷ l) (x ∷ ws) (same, w) h =
    let weightless : x ≡ 0 = omega arith in
    rw (same, weightless, sub64_pos 0 0 (omega arith) (omega arith))
      (select-none l ws w (omega arith))

abbrev picked : Option (Option Instance) → Option Instance
picked none = none
picked (some o) = o

-- The choices from a position on, wrapping around at the total weight.
unfoldable pub in_turn : ℕ → ℕ → ℕ → List (Option Instance) → List Choice
in_turn zero p total bs = []
in_turn (suc n) p total bs = chosen (picked (get_elem? bs (p % total))) ∷ in_turn n (p + 1) total bs

in_turn_mod :
    (n p q total : ℕ) (bs : List (Option Instance))
    → p % total ≡ q % total
    → in_turn n p total bs ≡ in_turn n q total bs
unfolding in_turn
in_turn_mod zero p q total bs h = refl
in_turn_mod (suc n) p q total bs h =
    ap₂ (λ i r. chosen (picked (get_elem? bs i)) ∷ r) h
      (in_turn_mod n (p + 1) (q + 1) total bs
        (sym (mod-add-mod p total 1) ∙ ap (λ r. (r + 1) % total) h ∙ mod-add-mod q total 1))

-- The choices of a number of calls over one list.
unfoldable pub weighted_calls : ℕ → Weighted → List Instance → List Choice
weighted_calls zero s l = []
weighted_calls (suc n) s l = let (s', c) = weighted_next s l in c ∷ weighted_calls n s' l

wrapped-mod : (c total : ℕ) → 0 < total → c ≤ total → wrapped (pos c) (pos total) ≡ pos (c % total)
unfolding wrapped
wrapped-mod c total h le = elim (Bool-cases (ltb c total)) [
  | inl below ↦ rw (below, mod-eq_of_lt (ltb→lt c total below)) refl
  | inr at ↦ let full : c ≡ total = ground arith in rw at (rw full (ap pos (sym (mod_self total))))
]

-- What one call does, where the weights are not negative and their sum is positive and fits.
weighted_next-turn :
    (s : Weighted) (first : Instance) (others : List Instance) (ws : List ℕ) (c : ℕ)
    → Weighs (first ∷ others) ws
    → 0 < sum ws
    → sum ws < 2 ^ 63
    → counter first.address s ≡ pos c
    → c ≤ sum ws
    → (counter first.address (weighted_next s (first ∷ others)).0 ≡ pos (c % sum ws + 1))
      × ((weighted_next s (first ∷ others)).1
          ≡ chosen (picked (get_elem? (blocks (first ∷ others) ws) (c % sum ws))))
unfolding weighted_next
weighted_next-turn s first others ws c w some_weight fits at le =
    let l = first ∷ others in
    let k = c % sum ws in
    let small : k < sum ws = mod-lt c some_weight in
    let total : total_weight (pos 0) l ≡ pos (sum ws) =
      total_weight-sum 0 l ws w (omega arith) ∙ ap pos (omega arith) in
    let used : wrapped (counter first.address s) (total_weight (pos 0) l) ≡ pos k =
      ap₂ wrapped at total ∙ wrapped-mod c (sum ws) some_weight le in
    (
      ap
            (λ t. counter first.address (record {
              current_weights =
                  insert Str_discrete first.address (add64 t (pos 1)) s.current_weights;
            }))
            used
          ∙ unfold counter in
            ground (
              arith,
              lookup-insert Str_discrete first.address first.address (add64 (pos k) (pos 1))
                  s.current_weights,
              add64_pos k 1 (omega arith),
            ),
      ap (λ t. chosen (select t l)) used
          ∙ ap (λ o. chosen (picked o)) (sym (select-blocks k l ws w small fits)),
    )

-- Where the weights are not negative and their sum is positive and fits in an int64, calls over one list
-- choose by the blocks in turn, from the stored counter on; a block repeats an instance as often as its
-- weight says.
pub weighted_calls-in_turn :
    (n : ℕ) (s : Weighted) (first : Instance) (others : List Instance) (ws : List ℕ) (c : ℕ)
    → Weighs (first ∷ others) ws
    → 0 < sum ws
    → sum ws < 2 ^ 63
    → counter first.address s ≡ pos c
    → c ≤ sum ws
    → weighted_calls n s (first ∷ others) ≡ in_turn n c (sum ws) (blocks (first ∷ others) ws)
unfolding weighted_calls in_turn
weighted_calls-in_turn zero s first others ws c w some_weight fits at le = refl
weighted_calls-in_turn (suc n) s first others ws c w some_weight fits at le =
    let l = first ∷ others in
    let k = c % sum ws in
    let small : k < sum ws = mod-lt c some_weight in
    let (moved, choice) = weighted_next-turn s first others ws c w some_weight fits at le in
    ap₂ ◌∷◌ choice (
      weighted_calls-in_turn n (weighted_next s l).0 first others ws (k + 1) w some_weight fits
        moved (omega arith)
      ∙ in_turn_mod n (k + 1) (c + 1) (sum ws) (blocks l ws) (mod-add-mod c (sum ws) 1))

-- Where every weight is 0 and the counter is at 0, the strategy returns a nil instance and no error.
pub weighted_next-zero :
    (s : Weighted) (first : Instance) (others : List Instance) (ws : List ℕ)
    → Weighs (first ∷ others) ws
    → sum ws ≡ 0
    → counter first.address s ≡ pos 0
    → (weighted_next s (first ∷ others)).1 ≡ chosen none
unfolding weighted_next
weighted_next-zero s first others ws w none_weighs at =
    let l = first ∷ others in
    let total : total_weight (pos 0) l ≡ pos (sum ws) =
      total_weight-sum 0 l ws w (omega arith) ∙ ap pos (omega arith) in
    let used : wrapped (counter first.address s) (total_weight (pos 0) l) ≡ pos 0 =
      ap₂ wrapped at (total ∙ ap pos none_weighs) ∙ unfold wrapped in refl in
    ap (λ t. chosen (select t l)) used ∙ ap chosen (select-none l ws w none_weighs)
