-- ===== src/Common/Str.antt =====
-- Go strings as lists of bytes, and the functions of Go's package `strings` that the router calls.
use Prim.Native.String.{String}
use Prim.Native.Char.{code}
use Prim.Native.Nat.{ℕ, ◌+◌, ◌<◌}
use mathlib.Core.Path.{◌≡◌, refl}
use mathlib.Core.List.{List, [], ◌∷◌, ◌++◌, reverse}
use native.Mathlib.Decide.{ℕ_discrete}
use native.Mathlib.Omega.{arith}
use gk.Common.Lists.{length}
use gk.Common.Tests.{◌==◌, if◌then◌else◌}

abbrev pub Str : Type 0
Str = List ℕ

unfoldable pub Str_discrete : Discrete Str
Str_discrete = hlevel ℕ_discrete

-- The bytes of an ASCII literal.
abbrev pub str : String → Str
str String.[] = []
str (String.◌∷◌ c s) = code c ∷ str s

abbrev cons_head : ℕ → List Str → List Str
cons_head c [] = (c ∷ []) ∷ []
cons_head c (w ∷ ws) = (c ∷ w) ∷ ws

-- `strings.Split(s, "/")`
unfoldable pub split : Str → List Str
split [] = [] ∷ []
split (c ∷ s) = let rest = split s in if c == b'/' then [] ∷ rest else cons_head c rest

-- `strings.Join(parts, "/")`
unfoldable pub join : List Str → Str
join [] = []
join (w ∷ []) = w
join (w ∷ v ∷ ws) = w ++ b'/' ∷ join (v ∷ ws)

-- `strings.TrimLeft(s, "/")` and `strings.Trim(s, "/")`
unfoldable pub trim_left : Str → Str
trim_left [] = []
trim_left (c ∷ s) = if c == b'/' then trim_left s else c ∷ s

unfoldable pub trim : Str → Str
unfolding trim_left
trim s = reverse (trim_left (reverse (trim_left s)))

-- The number of slashes of a text.
unfoldable pub slashes : Str → ℕ
slashes [] = 0
slashes (c ∷ s) = slashes s + (if c == b'/' then 1 else 0)

length-cons_head : (c : ℕ) (ws : List Str) → 0 < length ws → length (cons_head c ws) ≡ length ws
length-cons_head c [] h = elim h [ ]
length-cons_head c (w ∷ ws) h = refl

-- Splitting gives one part more than there are slashes.
pub length-split : (s : Str) → length (split s) ≡ slashes s + 1
unfolding split slashes
length-split [] = refl
length-split (c ∷ s) = ground (arith, length-split s, length-cons_head c (split s))

join-cons_head : (c : ℕ) (ws : List Str) → 0 < length ws → join (cons_head c ws) ≡ c ∷ join ws
unfolding join
join-cons_head c [] h = elim h [ ]
join-cons_head c (w ∷ []) h = refl
join-cons_head c (w ∷ v ∷ ws) h = refl

join-empty_head : (ws : List Str) → 0 < length ws → join ([] ∷ ws) ≡ b'/' ∷ join ws
unfolding join
join-empty_head [] h = elim h [ ]
join-empty_head (w ∷ ws) h = refl

-- Joining the parts again gives the text back.
pub join-split : (s : Str) → join (split s) ≡ s
unfolding split join
join-split [] = refl
join-split (c ∷ s) =
    ground
      (arith, join-split s, length-split s, join-cons_head c (split s), join-empty_head (split s))
