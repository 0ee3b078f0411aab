-- ===== src/Gnet/Bytes.antt =====
-- Bytes, slices, byte orders and reads from a stream, as the packages of gnet use them. A stream is the
-- list of the bytes that are left in it.
use gk.Common.{
  ℕ, zero, suc, ◌+◌, ◌-◌, ◌*◌, ◌/◌, ◌%◌, ◌^◌, ◌≤◌, ◌<◌, ◌≡◌, refl, sym, ap, ◌∙◌, true, false, List,
  [], ◌∷◌, ◌++◌, arith, length, length-append, leb, ◌⊎◌, if◌then◌else◌, Bool-cases, inl, inr,
}

pub data ByteOrder : Type 0 where
  little big : ByteOrder

unfoldable pub put16 : ByteOrder → ℕ → List ℕ
put16 little x = (x % 2 ^ 8) ∷ (x / 2 ^ 8 % 2 ^ 8) ∷ []
put16 big x = (x / 2 ^ 8 % 2 ^ 8) ∷ (x % 2 ^ 8) ∷ []

unfoldable pub put32 : ByteOrder → ℕ → List ℕ
put32 little x =
    (x % 2 ^ 8) ∷ (x / 2 ^ 8 % 2 ^ 8) ∷ (x / 2 ^ 16 % 2 ^ 8) ∷ (x / 2 ^ 24 % 2 ^ 8) ∷ []
put32 big x = (x / 2 ^ 24 % 2 ^ 8) ∷ (x / 2 ^ 16 % 2 ^ 8) ∷ (x / 2 ^ 8 % 2 ^ 8) ∷ (x % 2 ^ 8) ∷ []

-- The high half comes first in the big order.
unfoldable pub put64 : ByteOrder → ℕ → List ℕ
unfolding put32
put64 little x = put32 little (x % 2 ^ 32) ++ put32 little (x / 2 ^ 32 % 2 ^ 32)
put64 big x = put32 big (x / 2 ^ 32 % 2 ^ 32) ++ put32 big (x % 2 ^ 32)

-- The reads of slices that are long enough; a shorter slice is a panic in Go, and 0 here.
unfoldable pub u16 : ByteOrder → List ℕ → ℕ
u16 little (a ∷ b ∷ _) = a + b * 2 ^ 8
u16 big (a ∷ b ∷ _) = a * 2 ^ 8 + b
u16 _ _ = 0

unfoldable pub u32 : ByteOrder → List ℕ → ℕ
u32 little (a ∷ b ∷ c ∷ d ∷ _) = a + b * 2 ^ 8 + c * 2 ^ 16 + d * 2 ^ 24
u32 big (a ∷ b ∷ c ∷ d ∷ _) = a * 2 ^ 24 + b * 2 ^ 16 + c * 2 ^ 8 + d
u32 _ _ = 0

-- A read of eight bytes: two halves.
unfoldable pub u64 : ByteOrder → List ℕ → ℕ
unfolding u32
u64 little (a ∷ b ∷ c ∷ d ∷ rest) = u32 little (a ∷ b ∷ c ∷ d ∷ []) + u32 little rest * 2 ^ 32
u64 big (a ∷ b ∷ c ∷ d ∷ rest) = u32 big (a ∷ b ∷ c ∷ d ∷ []) * 2 ^ 32 + u32 big rest
u64 _ _ = 0

module _ {ℓ} {A : Type ℓ} where
  abbrev pub take : ℕ → List A → List A
  take zero xs = []
  take (suc n) [] = []
  take (suc n) (x ∷ xs) = x ∷ take n xs

  abbrev pub drop : ℕ → List A → List A
  drop zero xs = xs
  drop (suc n) [] = []
  drop (suc n) (x ∷ xs) = drop n xs

  pub take-append-drop : (n : ℕ) (xs : List A) → take n xs ++ drop n xs ≡ xs
  take-append-drop zero xs = refl
  take-append-drop (suc n) [] = refl
  take-append-drop (suc n) (x ∷ xs) = ap (◌∷◌ x) (take-append-drop n xs)

  pub length-take : (n : ℕ) (xs : List A) → n ≤ length xs → length (take n xs) ≡ n
  length-take zero xs h = refl
  length-take (suc n) [] h = absurd (omega arith)
  length-take (suc n) (x ∷ xs) h = omega (arith, length-take n xs (omega arith))

  pub length-drop : (n : ℕ) (xs : List A) → length (drop n xs) ≡ length xs - n
  length-drop zero xs = omega arith
  length-drop (suc n) [] = omega arith
  length-drop (suc n) (x ∷ xs) = omega (arith, length-drop n xs)

  pub take-append : (n : ℕ) (xs ys : List A) → length xs ≡ n → take n (xs ++ ys) ≡ xs
  take-append zero [] ys h = refl
  take-append zero (x ∷ xs) ys h = absurd (omega arith)
  take-append (suc n) [] ys h = absurd (omega arith)
  take-append (suc n) (x ∷ xs) ys h = ap (◌∷◌ x) (take-append n xs ys (omega arith))

  drop-nil : (n : ℕ) → drop n [] ≡ []
  drop-nil zero = refl
  drop-nil (suc n) = refl

  pub drop-append : (n : ℕ) (xs ys : List A) → length xs ≡ n → drop n (xs ++ ys) ≡ ys
  drop-append zero [] ys h = refl
  drop-append zero (x ∷ xs) ys h = absurd (omega arith)
  drop-append (suc n) [] ys h = absurd (omega arith)
  drop-append (suc n) (x ∷ xs) ys h = drop-append n xs ys (omega arith)

  pub drop-add : (m n : ℕ) (xs : List A) → drop (m + n) xs ≡ drop n (drop m xs)
  drop-add zero n xs = ap (λ k. drop k xs) (omega arith)
  drop-add (suc m) n [] = drop-nil (suc m + n) ∙ sym (drop-nil n)
  drop-add (suc m) n (x ∷ xs) =
      let more : suc m + n ≡ suc (m + n) = omega arith in
      ap (λ k. drop k (x ∷ xs)) more ∙ drop-add m n xs

-- `data[low:high]`
abbrev pub slice : ℕ → ℕ → List ℕ → List ℕ
slice low high bytes = take (high - low) (drop low bytes)

pub u16-put16 : (o : ByteOrder) (x : ℕ) → x < 2 ^ 16 → u16 o (put16 o x) ≡ x
unfolding u16 put16
u16-put16 little x h = omega arith
u16-put16 big x h = omega arith

pub u32-put32 : (o : ByteOrder) (x : ℕ) → x < 2 ^ 32 → u32 o (put32 o x) ≡ x
unfolding u32 put32
u32-put32 little x h = omega arith
u32-put32 big x h = omega arith

pub u64-put64 : (o : ByteOrder) (x : ℕ) → x < 2 ^ 64 → u64 o (put64 o x) ≡ x
unfolding u64 put64 u32 put32
u64-put64 little x h = omega arith
u64-put64 big x h = omega arith

pub length-put16 : (o : ByteOrder) (x : ℕ) → length (put16 o x) ≡ 2
unfolding put16
length-put16 little x = refl
length-put16 big x = refl

pub length-put32 : (o : ByteOrder) (x : ℕ) → length (put32 o x) ≡ 4
unfolding put32
length-put32 little x = refl
length-put32 big x = refl

pub length-put64 : (o : ByteOrder) (x : ℕ) → length (put64 o x) ≡ 8
unfolding put64 put32
length-put64 little x = refl
length-put64 big x = refl

-- `io.ReadFull` of a number of bytes: what was read and what is left, or why not.
pub data ReadFull : Type 0 where
  full : List ℕ → List ℕ → ReadFull
  eof unexpected_eof : ReadFull

short_read : List ℕ → ReadFull
short_read [] = eof
short_read (b ∷ bytes) = unexpected_eof

unfoldable pub read_full : ℕ → List ℕ → ReadFull
unfolding short_read
read_full n bytes =
    if leb n (length bytes) then full (take n bytes) (drop n bytes) else short_read bytes

pub read_full-append :
    (n : ℕ) (front back : List ℕ) → length front ≡ n → read_full n (front ++ back) ≡ full front back
unfolding read_full
read_full-append n front back h =
    let enough : leb n (length (front ++ back)) ≡ true = ground (arith, length-append front back) in
    rw (enough, take-append n front back h, drop-append n front back h) refl

-- A read takes as many bytes as were asked for.
pub read_full-length :
    (n : ℕ) (bytes front back : List ℕ)
    → read_full n bytes ≡ full front back
    → length back + n ≡ length bytes
unfolding read_full
read_full-length n bytes front back e = elim (Bool-cases (leb n (length bytes))) [
  | inl enough ↦ ground (arith, length-drop n bytes)
  | inr short ↦ by_length bytes e short
]
  where
    by_length :
        (b : List ℕ)
        → read_full n b ≡ full front back
        → leb n (length b) ≡ false
        → length back + n ≡ length b
    by_length [] e short = ground (arith, e, short)
    by_length (x ∷ b) e short = ground (arith, e, short)

pub ReadFull-cases :
    (x : ReadFull)
    → ((front : List ℕ) × (back : List ℕ) × (x ≡ full front back))
      ⊎ (x ≡ eof)
      ⊎ (x ≡ unexpected_eof)
ReadFull-cases (full front back) = inl (front, back, refl)
ReadFull-cases eof = inr (inl refl)
ReadFull-cases unexpected_eof = inr (inr refl)
