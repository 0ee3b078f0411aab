-- ===== src/Gnet/Pcapng/Blocks.antt =====
-- The bodies of blocks: `readBody` and the parsers of reader.go. A stream that fails for another reason than its end is left out. A read that fails
-- takes what is left of the stream.
use gk.Common.{ℕ, ◌+◌, ◌-◌, ◌||◌, ◌==◌, ltb, List, [], ◌++◌, length, if◌then◌else◌}
use gk.Common.Int64.{from_bits}
use gk.Gnet.Bytes.{ByteOrder, big, u16, u32, u64, slice, take, drop, read_full, ReadFull, full}
use gk.Gnet.Pcapng.{
  eof, unexpected_eof, invalid_block_length, invalid_section, Result, ok, err, ◌>>=◌,
  SectionHeaderBlock, InterfaceDescriptionBlock, EnhancedPacketBlock, padding,
}
use gk.Gnet.Pcapng.Options.{parse_options}

-- The body of a block after the part of it that was read, with what is left of the stream.
unfoldable pub read_body : ℕ → List ℕ → List ℕ → List ℕ × Result (List ℕ)
unfolding read_full
read_body total front stream =
    if ltb total 12 || ltb (total - 8) (length front)
    then (stream, err invalid_block_length)
    else elim (read_full (total - 8 - length front) stream) [
      | full bytes rest ↦ (rest, ok (front ++ bytes))
      | ReadFull.eof ↦ ([], err eof)
      | ReadFull.unexpected_eof ↦ ([], err unexpected_eof)
    ]

-- The payload of a body of some bytes at least, if the length stands at its end again.
unfoldable pub payload_of : ℕ → ℕ → ByteOrder → List ℕ → Result (List ℕ)
unfolding u32
payload_of least total o body =
    if ltb (length body) least
    then err invalid_block_length
    else if u32 o (drop (length body - 4) body) == total
    then ok (take (length body - 4) body)
    else err invalid_block_length

-- The fields in front of the options of a section.
unfoldable pub section_fields : ℕ → ByteOrder → List ℕ → Result SectionHeaderBlock
unfolding u16 u32 u64 from_bits parse_options
section_fields total o payload = do
  options ←
      (if ltb (length payload) 16 then err invalid_section else parse_options o (drop 16 payload))
  ok (record {
    total_length = total;
    byte_order_magic = u32 big (slice 0 4 payload);
    major_version = u16 o (slice 4 6 payload);
    minor_version = u16 o (slice 6 8 payload);
    section_length = from_bits (u64 o (slice 8 16 payload));
    options = options;
  })

unfoldable pub parse_section_header_block : ℕ → ByteOrder → List ℕ → Result SectionHeaderBlock
unfolding payload_of section_fields
parse_section_header_block total o body = do
  payload ← payload_of 20 total o body
  section_fields total o payload

-- Those of an interface.
unfoldable pub interface_fields : ℕ → ByteOrder → List ℕ → Result InterfaceDescriptionBlock
unfolding u16 u32 parse_options
interface_fields total o payload = do
  options ←
      (if ltb (length payload) 8
        then err invalid_block_length
        else parse_options o (drop 8 payload))
  ok (record {
    total_length = total;
    id = 0;
    link_type = u16 o (slice 0 2 payload);
    reserved = u16 o (slice 2 4 payload);
    snap_len = u32 o (slice 4 8 payload);
    options = options;
  })

unfoldable pub parse_interface_description_block :
    ℕ → ByteOrder → List ℕ → Result InterfaceDescriptionBlock
unfolding payload_of interface_fields
parse_interface_description_block total o body = do
  payload ← payload_of 12 total o body
  interface_fields total o payload

-- The bytes captured, their padding and the options.
unfoldable pub packet_on : ℕ → ByteOrder → List ℕ → ℕ → Result EnhancedPacketBlock
unfolding u32 padding parse_options
packet_on total o payload captured =
    if ltb (length payload - 20) captured || ltb (length payload) (20 + captured + padding captured)
    then err invalid_block_length
    else (do
      options ← parse_options o (drop (20 + captured + padding captured) payload)
      ok (record {
        total_length = total;
        interface_id = u32 o (slice 0 4 payload);
        timestamp_high = u32 o (slice 4 8 payload);
        timestamp_low = u32 o (slice 8 12 payload);
        captured_len = captured;
        original_len = u32 o (slice 16 20 payload);
        packet_data = slice 20 (20 + captured) payload;
        options = options;
      }))

unfoldable pub packet_fields : ℕ → ByteOrder → List ℕ → Result EnhancedPacketBlock
unfolding packet_on u32
packet_fields total o payload =
    if ltb (length payload) 20
    then err invalid_block_length
    else packet_on total o payload (u32 o (slice 12 16 payload))

unfoldable pub parse_enhanced_packet_block : ℕ → ByteOrder → List ℕ → Result EnhancedPacketBlock
unfolding payload_of packet_fields
parse_enhanced_packet_block total o body = do
  payload ← payload_of 24 total o body
  packet_fields total o payload
