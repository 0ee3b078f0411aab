-- ===== src/Common/Int64.antt =====
-- Go's int64 with its wrap-around, and `strconv.FormatInt` and `strconv.ParseInt` in base 10.
use Prim.Native.Nat.{ℕ, zero, suc, ◌+◌, ◌-◌, ◌*◌, ◌/◌, ◌%◌, ◌^◌, ◌≤◌, ◌<◌}
use mathlib.Core.Path.{◌≡◌, refl, ap}
use mathlib.Core.Bool.{Bool, true, false, ◌&&◌}
use mathlib.Core.Option
use mathlib.Core.Option.{Option, none, some}
use mathlib.Core.List.{[], ◌∷◌, ◌++◌}
use mathlib.Core.Logic.{inl, inr}
use native.Mathlib.Omega.{arith}
use gk.Common.Tests.{ltb, leb, ◌==◌, if◌then◌else◌, Bool-cases}
use gk.Common.Str.{Str}

-- `negsuc n` is -(n + 1).
pub data ℤ : Type 0 where
  pos negsuc : ℕ → ℤ

-- The values of an int64.
abbrev pub InRange : ℤ → Type 0
InRange (pos n) = n < 2 ^ 63
InRange (negsuc n) = n < 2 ^ 63

-- The two's complement, and the integer that a bit pattern stands for.
unfoldable pub to_bits : ℤ → ℕ
to_bits (pos n) = n % 2 ^ 64
to_bits (negsuc n) = 2 ^ 64 - 1 - n % 2 ^ 64

unfoldable pub from_bits : ℕ → ℤ
from_bits b = if ltb b (2 ^ 63) then pos b else negsuc (2 ^ 64 - 1 - b)

unfoldable pub add64 : ℤ → ℤ → ℤ
add64 a b = from_bits ((to_bits a + to_bits b) % 2 ^ 64)

unfoldable pub mul64 : ℤ → ℤ → ℤ
mul64 a b = from_bits ((to_bits a * to_bits b) % 2 ^ 64)

unfoldable pub neg64 : ℤ → ℤ
neg64 a = from_bits ((2 ^ 64 - to_bits a) % 2 ^ 64)

pub add64-InRange : (a b : ℤ) → InRange (add64 a b)
unfolding add64 from_bits
add64-InRange a b = by_bits ((to_bits a + to_bits b) % 2 ^ 64) (omega arith)
  where
    by_bits : (x : ℕ) → x < 2 ^ 64 → InRange (from_bits x)
    by_bits x h = elim (Bool-cases (ltb x (2 ^ 63))) [
      | inl small ↦ rw small (ground arith)
      | inr large ↦ rw large (ground arith)
    ]

pub to_bits-from_bits : (b : ℕ) → b < 2 ^ 64 → to_bits (from_bits b) ≡ b
unfolding to_bits from_bits
to_bits-from_bits b h = elim (Bool-cases (ltb b (2 ^ 63))) [
  | inl small ↦ rw small (omega arith)
  | inr large ↦ rw large (ground arith)
]

-- The order of additions does not matter, also where they wrap around.
pub add64_assoc : (a b c : ℤ) → add64 (add64 a b) c ≡ add64 a (add64 b c)
unfolding add64
add64_assoc a b c =
    let x = (to_bits a + to_bits b) % 2 ^ 64 in
    let y = (to_bits b + to_bits c) % 2 ^ 64 in
    let left : to_bits (from_bits x) ≡ x = to_bits-from_bits x (omega arith) in
    let right : to_bits (from_bits y) ≡ y = to_bits-from_bits y (omega arith) in
    ap from_bits (omega (arith, left, right))

-- A sum that fits is the sum.
pub add64_pos : (a b : ℕ) → a + b < 2 ^ 63 → add64 (pos a) (pos b) ≡ pos (a + b)
unfolding add64 to_bits from_bits
add64_pos a b h = ground arith

-- The digits of a number, on fuel above its value.
unfoldable pub digits : ℕ → ℕ → Str
digits zero n = []
digits (suc f) n =
    let rest = digits f (n / 10) in
    if ltb n 10 then (b'0' + n) ∷ [] else rest ++ (b'0' + n % 10) ∷ []

unfoldable pub format_int : ℤ → Str
unfolding digits
format_int (pos n) = digits (suc n) n
format_int (negsuc n) = b'-' ∷ digits (suc (suc n)) (suc n)

is_digit : ℕ → Bool
is_digit c = leb b'0' c && leb c b'9'

unfoldable pub parse_digits : ℕ → Str → Option ℕ
unfolding is_digit
parse_digits acc [] = some acc
parse_digits acc (c ∷ s) =
    let rest = parse_digits (acc * 10 + (c - b'0')) s in if is_digit c then rest else none

positive : Option ℕ → Option ℤ
positive none = none
positive (some n) = if ltb n (2 ^ 63) then some (pos n) else none

negative : Option ℕ → Option ℤ
negative none = none
negative (some zero) = some (pos 0)
negative (some (suc n)) = if ltb n (2 ^ 63) then some (negsuc n) else none

-- At least one digit.
some_digits : Str → Option ℕ
some_digits [] = none
some_digits (c ∷ s) = parse_digits 0 (c ∷ s)

-- `none` is an error, of syntax or of range.
unfoldable pub parse_int : Str → Option ℤ
unfolding positive negative some_digits
parse_int [] = none
parse_int (c ∷ s) =
    if c == b'-'
    then negative (some_digits s)
    else if c == b'+'
    then positive (some_digits s)
    else positive (some_digits (c ∷ s))

parse_digits-append :
    (acc d : ℕ) (s : Str)
    → d < 10
    → parse_digits acc (s ++ (b'0' + d) ∷ []) ≡ Option.map (λ v. v * 10 + d) (parse_digits acc s)
unfolding parse_digits
parse_digits-append acc d [] h = ground arith
parse_digits-append acc d (c ∷ s) h =
    ground (arith, parse_digits-append (acc * 10 + (c - b'0')) d s h)

parse_digits-digits : (f n : ℕ) → n < f → parse_digits 0 (digits f n) ≡ some n
unfolding digits
parse_digits-digits zero n h = elim h [ ]
parse_digits-digits (suc f) n h = elim (Bool-cases (ltb n 10)) [
  | inl small ↦ rw small (unfold parse_digits in ground arith)
  | inr large ↦
      rw (large, parse_digits-append 0 (n % 10) (digits f (n / 10)) (omega arith))
        (rw (parse_digits-digits f (n / 10) (ground arith)) (ap some (omega arith)))
]

digits-head : (f n : ℕ) → n < f → (c : ℕ) × (s : Str) × (digits f n ≡ c ∷ s) × (b'0' ≤ c)
unfolding digits
digits-head zero n h = elim h [ ]
digits-head (suc f) n h = elim (Bool-cases (ltb n 10)) [
  | inl small ↦ (b'0' + n, [], rw small refl, omega arith)
  | inr large ↦
      let (c, s, same, bound) = digits-head f (n / 10) (ground arith) in
      (c, s ++ (b'0' + n % 10) ∷ [], rw (large, same) refl, bound)
]

-- Parsing what was printed gives every int64 back.
pub parse_int-format_int : (z : ℤ) → InRange z → parse_int (format_int z) ≡ some z
unfolding format_int parse_int
parse_int-format_int (pos n) h =
    let (c, s, same, bound) = digits-head (suc n) n (omega arith) in
    let value : parse_digits 0 (c ∷ s) ≡ some n =
      rw same at (parse_digits-digits (suc n) n (omega arith)) in
    rw same (ground arith)
parse_int-format_int (negsuc n) h =
    let (c, s, same, bound) = digits-head (suc (suc n)) (suc n) (omega arith) in
    let value : parse_digits 0 (c ∷ s) ≡ some (suc n) =
      rw same at (parse_digits-digits (suc (suc n)) (suc n) (omega arith)) in
    rw same (ground arith)

-- `<`, `==` and `>=` on int64.
abbrev pub lt64 : ℤ → ℤ → Bool
lt64 (pos a) (pos b) = ltb a b
lt64 (pos a) (negsuc b) = false
lt64 (negsuc a) (pos b) = true
lt64 (negsuc a) (negsuc b) = ltb b a

abbrev pub eq64 : ℤ → ℤ → Bool
eq64 (pos a) (pos b) = a == b
eq64 (negsuc a) (negsuc b) = a == b
eq64 (pos a) (negsuc b) = false
eq64 (negsuc a) (pos b) = false

unfoldable pub sub64 : ℤ → ℤ → ℤ
unfolding neg64 add64
sub64 a b = add64 a (neg64 b)

-- A difference that is not negative is the difference.
pub sub64_pos : (a b : ℕ) → b ≤ a → a < 2 ^ 63 → sub64 (pos a) (pos b) ≡ pos (a - b)
unfolding sub64 to_bits from_bits
sub64_pos a b le h = ground arith
