-- ===== src/Gnet/Pcapng/Reader.antt =====
-- `Reader`: reader.go. A stream that fails for another reason than its end is left out. A read that fails
-- takes what is left of the stream.
use gk.Common.{
  ℕ, zero, suc, ◌+◌, ◌%◌, ◌^◌, ◌==◌, List, [], ◌∷◌, Option, none, some, length, if◌then◌else◌,
  ℕ_discrete,
}
use gk.Common.Maps.{Map, lookup, insert}
use gk.Gnet.Bytes.{ByteOrder, little, big, u32, slice, read_full, ReadFull, full}
use gk.Gnet.Times.{Time, microsecond}
use gk.Gnet.Pcapng.{
  eof, unexpected_eof, invalid_section, unsupported_block, stuck, Result, ok, err, ◌>>=◌,
  BlockOption, SectionHeaderBlock, InterfaceDescriptionBlock, EnhancedPacketBlock, Block,
  section_header, interface_description, enhanced_packet, section_header_block_type,
  interface_description_block_type, enhanced_packet_block_type, byte_order_magic_little,
  byte_order_magic_big, timestamp,
}
use gk.Gnet.Pcapng.Blocks.{
  read_body, parse_section_header_block, parse_interface_description_block,
  parse_enhanced_packet_block,
}
use gk.Gnet.Pcapng.Writer.{parse_timestamp_resolution}

pub record InterfaceInfo : Type 0 where
  pub block : InterfaceDescriptionBlock
  pub ts_res : ℕ

pub record Reader : Type 0 where
  pub stream : List ℕ
  pub order : Option ByteOrder
  pub section : Option SectionHeaderBlock
  pub interfaces : Map ℕ InterfaceInfo
  pub next_interface : ℕ
  pub default_res : ℕ

pub record Packet : Type 0 where
  pub interface_id : ℕ
  pub bytes : List ℕ
  pub timestamp : Time
  pub captured_len : ℕ
  pub original_len : ℕ
  pub options : List BlockOption

unfoldable pub new_reader : List ℕ → Reader
new_reader stream = record {
  stream = stream;
  order = none;
  section = none;
  interfaces = [];
  next_interface = 0;
  default_res = microsecond;
}

-- The link type, the limit and the time resolution of an interface.
unfoldable pub interface_info : ℕ → Reader → Option (ℕ × ℕ × ℕ)
unfolding lookup
interface_info id r = elim (lookup ℕ_discrete id r.interfaces) [
  | none ↦ none
  | some info ↦ some (info.block.link_type, info.block.snap_len, info.ts_res)
]

-- The first option that has code 9 and a value.
unfoldable pub extract_timestamp_resolution : List BlockOption → ℕ
unfolding parse_timestamp_resolution
extract_timestamp_resolution [] = 0
extract_timestamp_resolution (opt ∷ opts) =
    let rest = extract_timestamp_resolution opts in
    if opt.code == 9 then with_value opt.value rest else rest
  where
    with_value : List ℕ → ℕ → ℕ
    with_value [] rest = rest
    with_value (raw ∷ value) rest = parse_timestamp_resolution raw

unfoldable pub order_of_magic : ℕ → Option ByteOrder
order_of_magic magic =
    if magic == byte_order_magic_little
    then some little
    else if magic == byte_order_magic_big
    then some big
    else none

-- A new section has its byte order and no interfaces.
unfoldable pub section_on :
    ByteOrder → ℕ → List ℕ × Result (List ℕ) → Reader → Reader × Result Block
unfolding parse_section_header_block
section_on o total (rest, err e) r = (record r { stream = rest }, err e)
section_on o total (rest, ok body) r = elim (parse_section_header_block total o body) [
  | err e ↦ (record r { stream = rest }, err e)
  | ok block ↦ (
    record r {
      stream = rest;
      order = some o;
      section = some block;
      interfaces = [];
      next_interface = 0;
    },
    ok (section_header block),
  )
]

unfoldable pub next_section : List ℕ → List ℕ → Reader → Reader × Result Block
unfolding read_full order_of_magic read_body section_on u32
next_section hdr stream r = elim (read_full 4 stream) [
  | ReadFull.eof ↦ (record r { stream = [] }, err eof)
  | ReadFull.unexpected_eof ↦ (record r { stream = [] }, err unexpected_eof)
  | full bom rest ↦ elim (order_of_magic (u32 big bom)) [
    | none ↦ (record r { stream = rest }, err invalid_section)
    | some o ↦ let total = u32 o (slice 4 8 hdr) in section_on o total (read_body total bom rest) r
  ]
]

-- The resolution that the options of an interface give, or else the reader's own.
unfoldable pub registered : InterfaceDescriptionBlock → Reader → Reader
unfolding insert extract_timestamp_resolution
registered block r =
    let res = extract_timestamp_resolution block.options in
    record r {
      next_interface = (r.next_interface + 1) % 2 ^ 32;
      interfaces =
          insert ℕ_discrete block.id
            (record { block = block; ts_res = if res == 0 then r.default_res else res })
            r.interfaces;
    }

unfoldable pub interface_on :
    ByteOrder → ℕ → List ℕ × Result (List ℕ) → Reader → Reader × Result Block
unfolding parse_interface_description_block registered
interface_on o total (rest, err e) r = (record r { stream = rest }, err e)
interface_on o total (rest, ok body) r = elim (parse_interface_description_block total o body) [
  | err e ↦ (record r { stream = rest }, err e)
  | ok parsed ↦
      let block = record parsed { id = r.next_interface } in
      (registered block (record r { stream = rest }), ok (interface_description block))
]

unfoldable pub packet_block_on :
    ByteOrder → ℕ → List ℕ × Result (List ℕ) → Reader → Reader × Result Block
unfolding parse_enhanced_packet_block
packet_block_on o total (rest, err e) r = (record r { stream = rest }, err e)
packet_block_on o total (rest, ok body) r = (
  record r { stream = rest },
  parse_enhanced_packet_block total o body >>= λ block. ok (enhanced_packet block),
)

unfoldable pub skipped_block : ℕ → List ℕ × Result (List ℕ) → Reader → Reader × Result Block
skipped_block type (rest, err e) r = (record r { stream = rest }, err e)
skipped_block type (rest, ok body) r = (record r { stream = rest }, err (unsupported_block type))

-- A block in a section.
unfoldable pub block_on : ByteOrder → List ℕ → List ℕ → Reader → Reader × Result Block
unfolding next_section read_body interface_on packet_block_on skipped_block u32
block_on o hdr stream r =
    let type = u32 o (slice 0 4 hdr) in
    let total = u32 o (slice 4 8 hdr) in
    if type == section_header_block_type
    then next_section hdr stream r
    else if type == interface_description_block_type
    then interface_on o total (read_body total [] stream) r
    else if type == enhanced_packet_block_type
    then packet_block_on o total (read_body total [] stream) r
    else skipped_block type (read_body total [] stream) r

-- The first block of all, which is a section header. Its type is the same in both byte orders.
unfoldable pub first_block : List ℕ → List ℕ → Reader → Reader × Result Block
unfolding next_section u32
first_block hdr stream r =
    if u32 little (slice 0 4 hdr) == section_header_block_type
    then next_section hdr stream r
    else (record r { stream = stream }, err invalid_section)

unfoldable pub block_in : Option ByteOrder → List ℕ → List ℕ → Reader → Reader × Result Block
unfolding first_block block_on
block_in none hdr stream r = first_block hdr stream r
block_in (some o) hdr stream r = block_on o hdr stream r

unfoldable pub next_block : Reader → Reader × Result Block
unfolding read_full block_in
next_block r = elim (read_full 8 r.stream) [
  | ReadFull.eof ↦ (r, err eof)
  | ReadFull.unexpected_eof ↦ (record r { stream = [] }, err unexpected_eof)
  | full hdr stream ↦ block_in r.order hdr stream r
]

abbrev pub packet_resolution : ℕ → Option InterfaceInfo → ℕ
packet_resolution default none = default
packet_resolution default (some info) = if info.ts_res == 0 then default else info.ts_res

unfoldable pub packet_of : Reader → EnhancedPacketBlock → Packet
unfolding lookup timestamp
packet_of r block = record {
  interface_id = block.interface_id;
  bytes = block.packet_data;
  timestamp =
      timestamp block
        (packet_resolution r.default_res (lookup ℕ_discrete block.interface_id r.interfaces));
  captured_len = block.captured_len;
  original_len = block.original_len;
  options = block.options;
}

-- What follows a block, with the loop on the rest.
unfoldable pub packet_or :
    (Reader → Reader × Result Packet) → Reader × Result Block → Reader × Result Packet
unfolding packet_of
packet_or next (r, err e) = (r, err e)
packet_or next (r, ok (enhanced_packet block)) = (r, ok (packet_of r block))
packet_or next (r, ok (section_header block)) = next r
packet_or next (r, ok (interface_description block)) = next r

-- Blocks are read until a packet comes. Each block takes bytes, so that fuel above their number is enough.
unfoldable pub packet_loop : ℕ → Reader → Reader × Result Packet
unfolding next_block packet_or
packet_loop zero r = (r, err stuck)
packet_loop (suc fuel) r = packet_or (packet_loop fuel) (next_block r)

unfoldable pub read_packet : Reader → Reader × Result Packet
unfolding packet_loop
read_packet r = packet_loop (suc (length r.stream)) r
