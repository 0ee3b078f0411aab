-- ===== src/Gnet/Pcapng/Options.antt =====
-- Options of a block: `encodeOptions` of writer.go, `parseOptions` and `discard` of reader.go.
use mathlib.Core.List.{append_assoc, append-nil}
use gk.Common.{
  ℕ, zero, suc, ◌+◌, ◌^◌, ◌≤◌, ◌<◌, ◌≡◌, refl, sym, ap, ◌∙◌, false, ◌==◌, ltb, List, [], ◌∷◌, ◌++◌,
  arith, length, length-append, if◌then◌else◌, All,
}
use gk.Gnet.Bytes.{
  ByteOrder, little, big, put16, u16, slice, drop, drop-append, read_full, ReadFull, full,
  u16-put16, read_full-append,
}
use gk.Gnet.Pcapng.{
  eof, unexpected_eof, invalid_block_length, stuck, Result, ok, err, ◌>>=◌, BlockOption, padding,
  zeros,
}

unfoldable pub encode_option : ByteOrder → BlockOption → List ℕ
unfolding put16 padding
encode_option o opt =
    put16 o opt.code
    ++ (put16 o (length opt.value) ++ (opt.value ++ zeros (padding (length opt.value))))

-- The options, and the end of options.
unfoldable pub encode_options : ByteOrder → List BlockOption → List ℕ
unfolding encode_option
encode_options o [] = put16 o 0 ++ put16 o 0
encode_options o (opt ∷ opts) = encode_option o opt ++ encode_options o opts

unfoldable pub discard : ℕ → List ℕ → Result (List ℕ)
discard n bytes = if ltb (length bytes) n then err invalid_block_length else ok (drop n bytes)

unfoldable pub read_value : ℕ → List ℕ → Result (List ℕ × List ℕ)
unfolding read_full
read_value n bytes = elim (read_full n bytes) [
  | full value rest ↦ ok (value, rest)
  | ReadFull.eof ↦ err eof
  | ReadFull.unexpected_eof ↦ err unexpected_eof
]

abbrev pub before : BlockOption → Result (List BlockOption) → Result (List BlockOption)
before opt (ok opts) = ok (opt ∷ opts)
before opt (err e) = err e

-- One option and its padding, with what is left; the loop on that follows.
unfoldable pub read_option :
    ℕ → ℕ → List ℕ → (List ℕ → Result (List BlockOption)) → Result (List BlockOption)
unfolding read_value discard padding
read_option code size bytes next = do
  (value, rest) ← read_value size bytes
  rest' ← discard (padding size) rest
  before (record { code = code; value = value }) (next rest')

-- The end of options: what its length says is skipped.
unfoldable pub end_of_options : ℕ → List ℕ → Result (List BlockOption)
unfolding discard padding
end_of_options size bytes = do rest ← discard (size + padding size) bytes; ok []

-- The loop takes four bytes at least each time, so that fuel above the number of bytes is enough.
unfoldable pub options_loop : ℕ → ByteOrder → List ℕ → Result (List BlockOption)
unfolding u16 read_option end_of_options
options_loop zero o bytes = err stuck
options_loop (suc fuel) o bytes =
    if ltb (length bytes) 4
    then ok []
    else if u16 o (slice 0 2 bytes) == 0
    then end_of_options (u16 o (slice 2 4 bytes)) (drop 4 bytes)
    else read_option (u16 o (slice 0 2 bytes)) (u16 o (slice 2 4 bytes)) (drop 4 bytes)
        (options_loop fuel o)

unfoldable pub parse_options : ByteOrder → List ℕ → Result (List BlockOption)
unfolding options_loop
parse_options o bytes = options_loop (suc (length bytes)) o bytes

-- An option that fits its fields and is not the end.
pub record IsOption (opt : BlockOption) : Type 0 where
  pub code_fits : opt.code < 2 ^ 16
  pub not_end : 0 < opt.code
  pub value_fits : length opt.value < 2 ^ 16

pub length-zeros : (n : ℕ) → length (zeros n) ≡ n
length-zeros zero = refl
length-zeros (suc n) = ap suc (length-zeros n)

pub read_value-append :
    (value rest : List ℕ) → read_value (length value) (value ++ rest) ≡ ok (value, rest)
unfolding read_value
read_value-append value rest = rw (read_full-append (length value) value rest refl, read_value) refl

pub discard-zeros : (n : ℕ) (rest : List ℕ) → discard n (zeros n ++ rest) ≡ ok rest
unfolding discard
discard-zeros n rest =
    let enough : ltb (length (zeros n ++ rest)) n ≡ false =
      ground (arith, length-append (zeros n) rest, length-zeros n) in
    rw (enough, drop-append n (zeros n) rest (length-zeros n)) refl

-- One option is read back.
read_option-encoded :
    (code : ℕ) (value rest : List ℕ) (next : List ℕ → Result (List BlockOption))
    → read_option code (length value) (value ++ (zeros (padding (length value)) ++ rest)) next
      ≡ before (record { code = code; value = value }) (next rest)
unfolding read_option
read_option-encoded code value rest next =
    let left = zeros (padding (length value)) ++ rest in
    rw (read_value-append value left, discard-zeros (padding (length value)) rest, read_option) refl

-- The two fields in front of an option.
abbrev by_fields : ByteOrder → ℕ → List ℕ → ℕ → ℕ → Result (List BlockOption)
by_fields o fuel tail code size =
    if code == 0 then end_of_options size tail else read_option code size tail (options_loop fuel o)

options_loop-fields :
    (fuel : ℕ) (o : ByteOrder) (code size : ℕ) (tail : List ℕ)
    → code < 2 ^ 16
    → size < 2 ^ 16
    → options_loop (suc fuel) o (put16 o code ++ (put16 o size ++ tail))
      ≡ by_fields o fuel tail code size
unfolding options_loop put16
options_loop-fields fuel little code size tail c s =
    let enough : ltb (suc (suc (suc (suc (length tail))))) 4 ≡ false = ground arith in
    λ i.
      if enough i
      then ok []
      else by_fields little fuel tail (u16-put16 little code c i) (u16-put16 little size s i)
options_loop-fields fuel big code size tail c s =
    let enough : ltb (suc (suc (suc (suc (length tail))))) 4 ≡ false = ground arith in
    λ i.
      if enough i
      then ok []
      else by_fields big fuel tail (u16-put16 big code c i) (u16-put16 big size s i)

encode_option-append :
    (o : ByteOrder) (opt : BlockOption) (rest : List ℕ)
    → encode_option o opt ++ rest
      ≡ put16 o opt.code
        ++ (put16 o (length opt.value)
            ++ (opt.value ++ (zeros (padding (length opt.value)) ++ rest)))
unfolding encode_option
encode_option-append o opt rest = simp append_assoc

options_loop-option :
    (fuel : ℕ) (o : ByteOrder) (opt : BlockOption) (rest : List ℕ)
    → IsOption opt
    → options_loop (suc fuel) o (encode_option o opt ++ rest)
      ≡ before opt (options_loop fuel o rest)
options_loop-option fuel o opt rest fit =
    let tail = opt.value ++ (zeros (padding (length opt.value)) ++ rest) in
    let more : (opt.code == 0) ≡ false = ground (arith, fit.not_end) in
    rw
      (
        encode_option-append o opt rest,
        options_loop-fields fuel o opt.code (length opt.value) tail fit.code_fits fit.value_fits,
        more,
      )
      (read_option-encoded opt.code opt.value rest (options_loop fuel o))

pub length-encode_options :
    (o : ByteOrder) (opts : List BlockOption) → length opts ≤ length (encode_options o opts)
unfolding encode_options encode_option put16
length-encode_options o [] = omega arith
length-encode_options little (opt ∷ opts) = ground (
  arith,
  length-append (encode_option little opt) (encode_options little opts),
  length-encode_options little opts,
)
length-encode_options big (opt ∷ opts) = ground (
  arith,
  length-append (encode_option big opt) (encode_options big opts),
  length-encode_options big opts,
)

options_loop-encode_options :
    (fuel : ℕ) (o : ByteOrder) (opts : List BlockOption)
    → All IsOption opts
    → length opts < fuel
    → options_loop fuel o (encode_options o opts) ≡ ok opts
unfolding encode_options
options_loop-encode_options zero o opts all lt = absurd (omega arith)
options_loop-encode_options (suc fuel) o [] all lt =
    ap (λ l. options_loop (suc fuel) o (put16 o 0 ++ l)) (sym (append-nil (put16 o 0)))
    ∙ options_loop-fields fuel o 0 0 [] (omega arith) (omega arith)
    ∙ (unfold end_of_options discard padding in refl)
options_loop-encode_options (suc fuel) o (opt ∷ opts) (fit, all) lt =
    options_loop-option fuel o opt (encode_options o opts) fit
    ∙ ap (before opt) (options_loop-encode_options fuel o opts all (omega arith))

-- Options that fit their fields are read as they were written, in order.
pub parse_options-encode_options :
    (o : ByteOrder) (opts : List BlockOption)
    → All IsOption opts
    → parse_options o (encode_options o opts) ≡ ok opts
unfolding parse_options
parse_options-encode_options o opts all =
    options_loop-encode_options (suc (length (encode_options o opts))) o opts all
      (ground (arith, length-encode_options o opts))
