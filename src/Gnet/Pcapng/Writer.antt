-- ===== src/Gnet/Pcapng/Writer.antt =====
-- `Writer`: writer.go. What the writer has given to its stream, or to the buffer before it, is a list of
-- bytes; a stream that fails is left out, and so are durations below 0.
use gk.Common.{
  ℕ, ◌+◌, ◌/◌, ◌%◌, ◌^◌, Bool, true, ◌||◌, ◌==◌, ltb, leb, List, [], ◌∷◌, ◌++◌, length,
  if◌then◌else◌,
}
use gk.Common.Int64.{ℤ, pos, negsuc}
use gk.Common.Maps.{Map}
use gk.Gnet.Bytes.{ByteOrder, little, big, put16, put32, put64}
use gk.Gnet.Times.{nanosecond, microsecond, second}
use gk.Gnet.Pcapng.{
  unsupported_resolution, version_not_positive, buffer_not_positive, Result, ok, err, ◌>>=◌,
  BlockOption, section_header_block_type, byte_order_magic_little, byte_order_magic_big,
}
use gk.Gnet.Pcapng.Options.{encode_options}

pub record WriterConfig : Type 0 where
  pub byte_order : ByteOrder
  pub major : ℕ
  pub minor : ℕ
  pub section_length : ℤ
  pub section_opts : List BlockOption
  pub default_res : ℕ
  pub buffer_size : ℕ

abbrev pub WriterOption : Type 0
WriterOption = WriterConfig → Result WriterConfig

-- There are no byte orders but the two.
unfoldable pub with_byte_order : ByteOrder → WriterOption
with_byte_order o c = ok (record c { byte_order = o })

unfoldable pub with_section_version : ℕ → ℕ → WriterOption
with_section_version major minor c =
    if major == 0 then err version_not_positive else ok (record c { major = major; minor = minor })

unfoldable pub with_section_length : ℤ → WriterOption
with_section_length n c = ok (record c { section_length = n })

unfoldable pub with_section_option : BlockOption → WriterOption
with_section_option opt c = ok (record c { section_opts = c.section_opts ++ (opt ∷ []) })

unfoldable pub with_default_timestamp_resolution : ℕ → WriterOption
with_default_timestamp_resolution d c =
    if d == microsecond || d == nanosecond
    then ok (record c { default_res = d })
    else err (unsupported_resolution d)

unfoldable pub with_buffer : ℕ → WriterOption
with_buffer n c = if n == 0 then err buffer_not_positive else ok (record c { buffer_size = n })

-- The time resolution that one byte gives.
unfoldable pub parse_timestamp_resolution : ℕ → ℕ
parse_timestamp_resolution raw =
    if ltb raw 128
    then (if raw == 6
        then microsecond
        else if raw == 9
        then nanosecond
        else if leb raw 9
        then second / 10 ^ raw
        else microsecond)
    else if leb (raw % 128) 30
    then second / 2 ^ (raw % 128)
    else microsecond

pub record InterfaceConfig : Type 0 where
  pub options : List BlockOption
  pub ts_resolution : ℕ
  pub has_ts_option : Bool

abbrev pub InterfaceOption : Type 0
InterfaceOption = InterfaceConfig → InterfaceConfig

first_resolution : List ℕ → ℕ → ℕ
first_resolution [] d = d
first_resolution (b ∷ value) d = parse_timestamp_resolution b

unfoldable pub with_interface_option : ℕ → List ℕ → InterfaceOption
unfolding first_resolution parse_timestamp_resolution
with_interface_option code value c =
    let c' = record c { options = c.options ++ (record { code = code; value = value } ∷ []) } in
    if code == 9
    then record c' { has_ts_option = true; ts_resolution = first_resolution value c.ts_resolution }
    else c'

unfoldable pub with_interface_timestamp_resolution : ℕ → InterfaceOption
with_interface_timestamp_resolution d c = record c { ts_resolution = d }

pub record InterfaceWriterInfo : Type 0 where
  pub link_type : ℕ
  pub snap_len : ℕ
  pub ts_res : ℕ

pub record Writer : Type 0 where
  pub order : ByteOrder
  pub section_length : ℤ
  pub section_opts : List BlockOption
  pub default_res : ℕ
  pub interfaces : Map ℕ InterfaceWriterInfo
  pub next_interface : ℕ
  pub major : ℕ
  pub minor : ℕ
  pub written : List ℕ

-- A block of a type, with its length at both ends; `uint32` takes the length modulo 2 ^ 32.
unfoldable pub total_length : List ℕ → ℕ
total_length payload = (8 + length payload + 4) % 2 ^ 32

unfoldable pub block_bytes : ByteOrder → ℕ → List ℕ → List ℕ
unfolding put32 total_length
block_bytes o type payload =
    put32 o type ++ (put32 o (total_length payload) ++ (payload ++ put32 o (total_length payload)))

unfoldable pub write : List ℕ → Writer → Writer
write bytes w = record w { written = w.written ++ bytes }

unfoldable pub magic_of : ByteOrder → ℕ
magic_of little = byte_order_magic_little
magic_of big = byte_order_magic_big

-- The length of the section is unknown when it is negative.
unfoldable pub section_length_bits : ℤ → ℕ
section_length_bits (pos n) = n % 2 ^ 64
section_length_bits (negsuc n) = 0xffffffffffffffff

-- The magic is always written in the big order.
unfoldable pub section_payload : Writer → List ℕ
unfolding put16 put32 put64 magic_of section_length_bits encode_options
section_payload w =
    put32 big (magic_of w.order)
    ++ (put16 w.order w.major
        ++ (put16 w.order w.minor
            ++ (put64 w.order (section_length_bits w.section_length)
                ++ encode_options w.order w.section_opts)))

unfoldable pub write_section_header : Writer → Writer
unfolding write block_bytes section_payload
write_section_header w = write (block_bytes w.order section_header_block_type (section_payload w)) w

unfoldable pub configured : List WriterOption → WriterConfig → Result WriterConfig
configured [] c = ok c
configured (opt ∷ opts) c = do c' ← opt c; configured opts c'

abbrev pub default_config : WriterConfig
default_config = record {
  byte_order = little;
  major = 1;
  minor = 0;
  section_length = negsuc 0;
  section_opts = [];
  default_res = microsecond;
  buffer_size = 0;
}

abbrev pub writer_of : WriterConfig → Writer
writer_of c = record {
  order = c.byte_order;
  section_length = c.section_length;
  section_opts = c.section_opts;
  default_res = c.default_res;
  interfaces = [];
  next_interface = 0;
  major = c.major;
  minor = c.minor;
  written = [];
}

unfoldable pub new_writer : List WriterOption → Result Writer
unfolding configured write_section_header
new_writer opts = do c ← configured opts default_config; ok (write_section_header (writer_of c))
