-- ===== src/Gnet/Pcapng/Timestamps.antt =====
-- Times of packets and resolutions of interfaces: writer.go and reader.go.
use mathlib.Core.List.{append-nil}
use mathlib.Core.Path.{subst}
use gk.Common.{
  ℕ, ◌+◌, ◌*◌, ◌/◌, ◌%◌, ◌^◌, ◌<◌, ◌≡◌, ◌⊎◌, inl, inr, refl, sym, ap, ◌∙◌, true, false, ◌==◌, List,
  [], ◌∷◌, ◌++◌, arith, if◌then◌else◌, Bool-cases, All,
}
use gk.Common.Int64.{pos, to_bits}
use gk.Gnet.Times.{Time, time_unix, nanosecond, microsecond, second}
use gk.Gnet.Pcapng.{ok, BlockOption, timestamp_of}
use gk.Gnet.Pcapng.Writer.{InterfaceConfig, parse_timestamp_resolution}
use gk.Gnet.Pcapng.Packets.{
  encode_timestamp, halves, encode_timestamp_resolution, adds_option, interface_options,
}
use gk.Gnet.Pcapng.Reader.{extract_timestamp_resolution}

abbrev pub IsResolution : ℕ → Type 0
IsResolution d = (d ≡ nanosecond) ⊎ (d ≡ microsecond)

-- The number of units since 1970.
abbrev pub units : ℕ → ℕ → ℕ → ℕ
units res sec nanos = sec * (second / res) + nanos / res

halves_joined : (v : ℕ) → v < 2 ^ 64 → (halves v).0 * 2 ^ 32 + (halves v).1 ≡ v
unfolding halves
halves_joined v h = omega arith

module _ (sec nanos : ℕ) where
  abbrev at_time : Time
  at_time = record { unix = pos sec; nanos = nanos }

  encode_timestamp-nanosecond :
      units nanosecond sec nanos < 2 ^ 64
      → encode_timestamp at_time nanosecond ≡ ok (halves (units nanosecond sec nanos))
  unfolding encode_timestamp to_bits
  encode_timestamp-nanosecond fits =
      let value : (sec % 2 ^ 64 * 1000000000 + nanos) % 2 ^ 64 ≡ units nanosecond sec nanos =
        omega arith in
      ap (λ v. ok (halves v)) value

  encode_timestamp-microsecond :
      units microsecond sec nanos < 2 ^ 64
      → encode_timestamp at_time microsecond ≡ ok (halves (units microsecond sec nanos))
  unfolding encode_timestamp to_bits
  encode_timestamp-microsecond fits =
      let value : (sec % 2 ^ 64 * 1000000 + nanos / 1000) % 2 ^ 64 ≡ units microsecond sec nanos =
        omega arith in
      ap (λ v. ok (halves v)) value

  timestamp_of-nanosecond :
      nanos < second
      → timestamp_of (units nanosecond sec nanos) nanosecond
        ≡ record { unix = pos sec; nanos = nanos / nanosecond * nanosecond }
  unfolding timestamp_of time_unix
  timestamp_of-nanosecond subsecond = λ i. record { unix = pos (whole i); nanos = part i }
    where
      whole :
          units nanosecond sec nanos / 1000000000 + units nanosecond sec nanos % 1000000000 / second
          ≡ sec
      whole = omega arith

      part : units nanosecond sec nanos % 1000000000 % second ≡ nanos / nanosecond * nanosecond
      part = omega arith

  timestamp_of-microsecond :
      nanos < second
      → timestamp_of (units microsecond sec nanos) microsecond
        ≡ record { unix = pos sec; nanos = nanos / microsecond * microsecond }
  unfolding timestamp_of time_unix
  timestamp_of-microsecond subsecond = λ i. record { unix = pos (whole i); nanos = part i }
    where
      whole :
          units microsecond sec nanos / 1000000
            + units microsecond sec nanos % 1000000 * 1000 / second
          ≡ sec
      whole = omega arith

      part :
          units microsecond sec nanos % 1000000 * 1000 % second ≡ nanos / microsecond * microsecond
      part = omega arith

  -- The time is encoded, and decoded as it was, but for the part of a unit.
  abbrev pub Encodes : ℕ → Type 0
  Encodes d =
      (encode_timestamp at_time d ≡ ok (halves (units d sec nanos)))
      × (timestamp_of ((halves (units d sec nanos)).0 * 2 ^ 32 + (halves (units d sec nanos)).1) d
          ≡ record { unix = pos sec; nanos = nanos / d * d })

  -- A time since 1970 whose number of nanoseconds, or of microseconds, fits 64 bits is encoded, in
  -- two halves, and is decoded as it was, but for the part of a unit.
  pub timestamp_of-encode_timestamp :
      (res : ℕ) → IsResolution res → nanos < second → units res sec nanos < 2 ^ 64 → Encodes res
  timestamp_of-encode_timestamp res (inl is) subsecond fits =
      subst (λ d. units d sec nanos < 2 ^ 64 → Encodes d) (sym is)
        (λ h. (
          encode_timestamp-nanosecond h,
          ap (λ v. timestamp_of v nanosecond) (halves_joined (units nanosecond sec nanos) h)
              ∙ timestamp_of-nanosecond subsecond,
        ))
        fits
  timestamp_of-encode_timestamp res (inr is) subsecond fits =
      subst (λ d. units d sec nanos < 2 ^ 64 → Encodes d) (sym is)
        (λ h. (
          encode_timestamp-microsecond h,
          ap (λ v. timestamp_of v microsecond) (halves_joined (units microsecond sec nanos) h)
              ∙ timestamp_of-microsecond subsecond,
        ))
        fits

-- The resolution that the reader has for an interface.
abbrev pub read_resolution : List BlockOption → ℕ
read_resolution opts =
    if extract_timestamp_resolution opts == 0
    then microsecond
    else extract_timestamp_resolution opts

abbrev IsOther : BlockOption → Type 0
IsOther opt = (opt.code == 9) ≡ false

extract-append :
    (opts more : List BlockOption)
    → All IsOther opts
    → extract_timestamp_resolution (opts ++ more) ≡ extract_timestamp_resolution more
unfolding extract_timestamp_resolution
extract-append [] more all = refl
extract-append (opt ∷ opts) more (other, all) =
    rw (other, extract_timestamp_resolution) (extract-append opts more all)

-- An interface without a resolution among its other options.
pub record IsPlain (c : InterfaceConfig) : Type 0 where
  pub unset : c.has_ts_option ≡ false
  pub others : All IsOther c.options

abbrev resolution_option : ℕ → BlockOption
resolution_option value = record { code = 9; value = value ∷ [] }

encoded_resolution :
    (res : ℕ)
    → IsResolution res
    → (value : ℕ) × (encode_timestamp_resolution res ≡ ok value)
      × (value < 2 ^ 8)
      × (read_resolution (resolution_option value ∷ []) ≡ res)
unfolding encode_timestamp_resolution extract_timestamp_resolution parse_timestamp_resolution
encoded_resolution res (inl is) = (9, ap encode_timestamp_resolution is, omega arith, sym is)
encoded_resolution res (inr is) = (6, ap encode_timestamp_resolution is, omega arith, sym is)

-- With no option of its own, the resolution is the default of the reader.
adds_no_option :
    (c : InterfaceConfig) (res : ℕ)
    → c.has_ts_option ≡ false
    → adds_option c res ≡ false
    → res ≡ microsecond
unfolding adds_option
adds_no_option c res unset none_added = ground arith

interface_options-added :
    (c : InterfaceConfig) (res value : ℕ)
    → adds_option c res ≡ true
    → encode_timestamp_resolution res ≡ ok value
    → interface_options c res ≡ ok (c.options ++ (resolution_option value ∷ []))
unfolding interface_options
interface_options-added c res value added encoded = rw (added, encoded, interface_options) refl

interface_options-plain :
    (c : InterfaceConfig) (res : ℕ)
    → adds_option c res ≡ false
    → interface_options c res ≡ ok c.options
unfolding interface_options
interface_options-plain c res plain = rw (plain, interface_options) refl

read_resolution-append :
    (opts more : List BlockOption)
    → All IsOther opts
    → read_resolution (opts ++ more) ≡ read_resolution more
read_resolution-append opts more all = rw (extract-append opts more all) refl

-- The reader has the resolution of a plain interface that the writer has.
pub interface_options-read_resolution :
    (c : InterfaceConfig) (res : ℕ)
    → IsPlain c
    → IsResolution res
    → (opts : List BlockOption) × (interface_options c res ≡ ok opts) × (read_resolution opts ≡ res)
unfolding extract_timestamp_resolution
interface_options-read_resolution c res plain is = elim (Bool-cases (adds_option c res)) [
  | inl added ↦
      let (value, encoded, small, read) = encoded_resolution res is in
      (
        c.options ++ (resolution_option value ∷ []),
        interface_options-added c res value added encoded,
        read_resolution-append c.options (resolution_option value ∷ []) plain.others ∙ read,
      )
  | inr none_added ↦ (
    c.options,
    interface_options-plain c res none_added,
    ap read_resolution (sym (append-nil c.options))
        ∙ read_resolution-append c.options [] plain.others
        ∙ sym (adds_no_option c res plain.unset none_added),
  )
]
