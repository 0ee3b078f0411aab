-- ===== src/Gnet/Pcapng/Headers.antt =====
-- What the parsers of reader.go make of section headers and interfaces of writer.go.
use gk.Common.{
  ℕ, suc, ap, ◌∙◌, ◌%◌, ◌+◌, ◌-◌, ◌^◌, ◌≤◌, ◌<◌, ◌≡◌, refl, true, false, ◌||◌, ◌==◌, ltb, List,
  ◌++◌, arith, length, length-append, if◌then◌else◌, All,
}
use gk.Common.Int64.{ℤ, pos, negsuc, from_bits}
use gk.Gnet.Bytes.{
  ByteOrder, little, big, put16, put32, put64, u32, u16-put16, u32-put32, u64-put64, length-put32,
  take-append, drop-append, read_full-append,
}
use gk.Gnet.Pcapng.{
  invalid_section, invalid_block_length, ok, err, ◌>>=◌, BlockOption, SectionHeaderBlock,
}
use gk.Gnet.Pcapng.Options.{IsOption, encode_options, parse_options, parse_options-encode_options}
use gk.Gnet.Pcapng.Writer.{Writer, section_payload, magic_of, section_length_bits}
use gk.Gnet.Pcapng.Blocks.{read_body, payload_of, section_fields, interface_fields}

-- A body is read up to the end of its block.
pub read_body-append :
    (total : ℕ) (front back rest : List ℕ)
    → length (front ++ back) + 8 ≡ total
    → 4 ≤ length (front ++ back)
    → read_body total front (back ++ rest) ≡ (rest, ok (front ++ back))
unfolding read_body
read_body-append total front back rest size least =
    let enough : (ltb total 12 || ltb (total - 8) (length front)) ≡ false =
      ground (arith, size, least, length-append front back) in
    let exact : length back ≡ total - 8 - length front =
      omega (arith, size, length-append front back) in
    rw (enough, read_full-append (total - 8 - length front) back rest exact) refl

pub payload_of-append :
    (least total : ℕ) (o : ByteOrder) (payload : List ℕ)
    → least ≤ length payload + 4
    → total < 2 ^ 32
    → payload_of least total o (payload ++ put32 o total) ≡ ok payload
unfolding payload_of
payload_of-append least total o payload size fits =
    let size_of : length (payload ++ put32 o total) ≡ length payload + 4 =
      omega (arith, length-append payload (put32 o total), length-put32 o total) in
    let enough : ltb (length (payload ++ put32 o total)) least ≡ false =
      ground (arith, size_of, size) in
    let cut : length payload ≡ length (payload ++ put32 o total) - 4 = omega (arith, size_of) in
    let again : (u32 o (put32 o total) == total) ≡ true = ground (arith, u32-put32 o total fits) in
    rw
      (
        enough,
        drop-append (length (payload ++ put32 o total) - 4) payload (put32 o total) cut,
        take-append (length (payload ++ put32 o total) - 4) payload (put32 o total) cut,
        again,
      )
      refl

-- The length that is read: an int64 as it is, and -1 where it is negative.
abbrev pub read_length : ℤ → ℤ
read_length (pos n) = from_bits (n % 2 ^ 64)
read_length (negsuc n) = negsuc 0

read_length_lem : (z : ℤ) → from_bits (section_length_bits z) ≡ read_length z
unfolding section_length_bits from_bits
read_length_lem (pos n) = refl
read_length_lem (negsuc n) = refl

abbrev pub section_block : ℕ → Writer → SectionHeaderBlock
section_block total w = record {
  total_length = total;
  byte_order_magic = magic_of w.order;
  major_version = w.major;
  minor_version = w.minor;
  section_length = read_length w.section_length;
  options = w.section_opts;
}

section_length_fits : (z : ℤ) → section_length_bits z < 2 ^ 64
unfolding section_length_bits
section_length_fits (pos n) = omega arith
section_length_fits (negsuc n) = omega arith

-- Lengths of lists that begin with eight, or sixteen, bytes.
abbrev plus8 : ℕ → ℕ
plus8 n = suc (suc (suc (suc (suc (suc (suc (suc n)))))))

abbrev pub plus16 : ℕ → ℕ
plus16 n = plus8 (plus8 n)

magic_fits : (o : ByteOrder) → magic_of o < 2 ^ 32
unfolding magic_of
magic_fits little = omega arith
magic_fits big = omega arith

section_fields-append :
    (o : ByteOrder) (total magic major minor len : ℕ) (tail : List ℕ) (opts : List BlockOption)
    → magic < 2 ^ 32
    → major < 2 ^ 16
    → minor < 2 ^ 16
    → len < 2 ^ 64
    → parse_options o tail ≡ ok opts
    → section_fields total o
        (put32 big magic ++ (put16 o major ++ (put16 o minor ++ (put64 o len ++ tail))))
      ≡ ok (record {
        total_length = total;
        byte_order_magic = magic;
        major_version = major;
        minor_version = minor;
        section_length = from_bits len;
        options = opts;
      })
unfolding section_fields put16 put32 put64
section_fields-append little total magic major minor len tail opts m a b l parsed =
    let enough : ltb (plus16 (length tail)) 16 ≡ false = ground arith in
    λ i. (if enough i then err invalid_section else parsed i) >>= λ options. ok (record {
      total_length = total;
      byte_order_magic = u32-put32 big magic m i;
      major_version = u16-put16 little major a i;
      minor_version = u16-put16 little minor b i;
      section_length = from_bits (u64-put64 little len l i);
      options = options;
    })
section_fields-append big total magic major minor len tail opts m a b l parsed =
    let enough : ltb (plus16 (length tail)) 16 ≡ false = ground arith in
    λ i. (if enough i then err invalid_section else parsed i) >>= λ options. ok (record {
      total_length = total;
      byte_order_magic = u32-put32 big magic m i;
      major_version = u16-put16 big major a i;
      minor_version = u16-put16 big minor b i;
      section_length = from_bits (u64-put64 big len l i);
      options = options;
    })

pub section_fields-section_payload :
    (total : ℕ) (w : Writer)
    → w.major < 2 ^ 16
    → w.minor < 2 ^ 16
    → All IsOption w.section_opts
    → section_fields total w.order (section_payload w) ≡ ok (section_block total w)
unfolding section_payload
section_fields-section_payload total w major minor all =
    section_fields-append w.order total (magic_of w.order) w.major w.minor
      (section_length_bits w.section_length) (encode_options w.order w.section_opts) w.section_opts
      (magic_fits w.order) major minor (section_length_fits w.section_length)
      (parse_options-encode_options w.order w.section_opts all)
    ∙ ap (λ l. ok (record (section_block total w) { section_length = l }))
        (read_length_lem w.section_length)

pub interface_fields-append :
    (o : ByteOrder) (total link snap : ℕ) (tail : List ℕ) (opts : List BlockOption)
    → link < 2 ^ 16
    → snap < 2 ^ 32
    → parse_options o tail ≡ ok opts
    → interface_fields total o (put16 o link ++ (put16 o 0 ++ (put32 o snap ++ tail)))
      ≡ ok (record {
        total_length = total;
        id = 0;
        link_type = link;
        reserved = 0;
        snap_len = snap;
        options = opts;
      })
unfolding interface_fields put16 put32
interface_fields-append little total link snap tail opts l s parsed =
    let enough : ltb (plus8 (length tail)) 8 ≡ false = ground arith in
    λ i. (if enough i then err invalid_block_length else parsed i) >>= λ options. ok (record {
      total_length = total;
      id = 0;
      link_type = u16-put16 little link l i;
      reserved = u16-put16 little 0 (omega arith) i;
      snap_len = u32-put32 little snap s i;
      options = options;
    })
interface_fields-append big total link snap tail opts l s parsed =
    let enough : ltb (plus8 (length tail)) 8 ≡ false = ground arith in
    λ i. (if enough i then err invalid_block_length else parsed i) >>= λ options. ok (record {
      total_length = total;
      id = 0;
      link_type = u16-put16 big link l i;
      reserved = u16-put16 big 0 (omega arith) i;
      snap_len = u32-put32 big snap s i;
      options = options;
    })
