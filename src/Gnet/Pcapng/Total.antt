-- ===== src/Gnet/Pcapng/Total.antt =====
-- The loop of `parseOptions` in reader.go, and its fuel.
use gk.Common.{
  ℕ, zero, suc, ◌+◌, ◌≤◌, ◌<◌, ◌≡◌, inl, inr, refl, ap, Bool, true, false, ◌==◌, ltb, List, [],
  arith, length, Bool-cases,
}
use gk.Gnet.Bytes.{
  ByteOrder, u16, slice, drop, length-drop, read_full, ReadFull-cases, read_full-length,
}
use gk.Gnet.Pcapng.{PcapngError, stuck, Result, ok, err, ◌>>=◌, BlockOption, padding}
use gk.Gnet.Pcapng.Options.{
  discard, read_value, before, read_option, end_of_options, options_loop, parse_options,
}

abbrev pub is_stuck : PcapngError → Bool
is_stuck stuck = true
is_stuck e = false

-- Whether the fuel was short.
abbrev pub stuck_of {ℓ} : {A : Type ℓ} → Result A → Bool
stuck_of (ok a) = false
stuck_of (err e) = is_stuck e

pub bind_total :
    {A B : Type 0} (x : Result A) (f : A → Result B)
    → stuck_of x ≡ false
    → ((a : A) → x ≡ ok a → stuck_of (f a) ≡ false)
    → stuck_of (x >>= f) ≡ false
bind_total (ok a) f h g = g a refl
bind_total (err e) f h g = h

before_total :
    (opt : BlockOption) (x : Result (List BlockOption))
    → stuck_of x ≡ false
    → stuck_of (before opt x) ≡ false
before_total opt (ok opts) h = refl
before_total opt (err e) h = h

discard_total : (n : ℕ) (bytes : List ℕ) → stuck_of (discard n bytes) ≡ false
unfolding discard
discard_total n bytes = elim (Bool-cases (ltb (length bytes) n)) [
  | inl short ↦ rw (short, discard) refl
  | inr enough ↦ rw (enough, discard) refl
]

discard_shorter :
    (n : ℕ) (bytes rest : List ℕ) → discard n bytes ≡ ok rest → length rest ≤ length bytes
unfolding discard
discard_shorter n bytes rest e = elim (Bool-cases (ltb (length bytes) n)) [
  | inl short ↦ absurd (cc (rw (short, discard) at e))
  | inr enough ↦
      omega (arith, ap (λ x. length (rest_or x)) (rw (enough, discard) at e), length-drop n bytes)
]
  where
    rest_or : Result (List ℕ) → List ℕ
    rest_or (ok l) = l
    rest_or (err x) = []

read_value_total : (n : ℕ) (bytes : List ℕ) → stuck_of (read_value n bytes) ≡ false
unfolding read_value
read_value_total n bytes = elim (ReadFull-cases (read_full n bytes)) [
  | inl (front, back, read) ↦ rw (read, read_value) refl
  | inr (inl ended) ↦ rw (ended, read_value) refl
  | inr (inr cut) ↦ rw (cut, read_value) refl
]

read_value_shorter :
    (n : ℕ) (bytes : List ℕ) (x : List ℕ × List ℕ)
    → read_value n bytes ≡ ok x
    → length (x.1) ≤ length bytes
unfolding read_value
read_value_shorter n bytes x e = elim (ReadFull-cases (read_full n bytes)) [
  | inl (front, back, read) ↦ omega (
    arith,
    ap (λ y. length (rest_or y)) (rw (read, read_value) at e),
    read_full-length n bytes front back read,
  )
  | inr (inl ended) ↦ absurd (cc (rw (ended, read_value) at e))
  | inr (inr cut) ↦ absurd (cc (rw (cut, read_value) at e))
]
  where
    rest_or : Result (List ℕ × List ℕ) → List ℕ
    rest_or (ok y) = y.1
    rest_or (err y) = []

read_option_total :
    (code size : ℕ) (bytes : List ℕ) (next : List ℕ → Result (List BlockOption))
    → ((rest : List ℕ) → length rest ≤ length bytes → stuck_of (next rest) ≡ false)
    → stuck_of (read_option code size bytes next) ≡ false
unfolding read_option
read_option_total code size bytes next ends =
    bind_total (read_value size bytes) _ (read_value_total size bytes) λ x read.
      bind_total (discard (padding size) (x.1)) _ (discard_total (padding size) (x.1))
        λ rest skipped. before_total _ (next rest) (
          ends rest (
            omega (
              arith,
              read_value_shorter size bytes x read,
              discard_shorter (padding size) (x.1) rest skipped,
            )))

options_loop_total :
    (fuel : ℕ) (o : ByteOrder) (bytes : List ℕ)
    → length bytes < fuel
    → stuck_of (options_loop fuel o bytes) ≡ false
unfolding options_loop
options_loop_total zero o bytes lt = absurd (omega arith)
options_loop_total (suc fuel) o bytes lt = elim (Bool-cases (ltb (length bytes) 4)) [
  | inl short ↦ rw (short, options_loop) refl
  | inr long ↦ elim (Bool-cases (u16 o (slice 0 2 bytes) == 0)) [
    | inl end ↦
        rw (long, end, options_loop)
          (unfold end_of_options in
            bind_total
              (discard (u16 o (slice 2 4 bytes) + padding (u16 o (slice 2 4 bytes))) (drop 4 bytes))
              (λ rest. ok []) (discard_total _ (drop 4 bytes)) λ rest e. refl)
    | inr more ↦
        rw (long, more, options_loop)
          (read_option_total (u16 o (slice 0 2 bytes)) (u16 o (slice 2 4 bytes)) (drop 4 bytes)
            (options_loop fuel o)
            λ rest shorter.
              options_loop_total fuel o rest (ground (arith, long, length-drop 4 bytes)))
  ]
]

pub parse_options_total :
    (o : ByteOrder) (bytes : List ℕ) → stuck_of (parse_options o bytes) ≡ false
unfolding parse_options
parse_options_total o bytes = options_loop_total (suc (length bytes)) o bytes (omega arith)
