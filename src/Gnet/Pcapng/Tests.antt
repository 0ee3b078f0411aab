-- ===== src/Gnet/Pcapng/Tests.antt =====
-- Runs of the pcapng writer and reader, and their theorems at concrete inputs.
use gk.Common.{ℕ, ◌≡◌, ◌≢◌, refl, [], ◌∷◌, ◌++◌, List, arith, some, ℕ_discrete, ◌≤◌, inr, length}
use gk.Common.Maps.{lookup, insert}
use gk.Common.Int64.{pos, to_bits}
use gk.Gnet.Bytes.{big, put16, put32, put64}
use gk.Gnet.Times.{Time, is_zero, nanosecond, microsecond}
use gk.Gnet.Pcapng.{stuck, ok, err, BlockOption, section_header, section_header_block_type, padding}
use gk.Gnet.Pcapng.Options.{
  encode_option, encode_options, parse_options, parse_options-encode_options,
}
use gk.Gnet.Pcapng.Writer.{
  Writer, total_length, block_bytes, write, magic_of, section_length_bits, section_payload,
  write_section_header, configured, default_config, writer_of, new_writer,
  with_interface_timestamp_resolution,
}
use gk.Gnet.Pcapng.Packets.{
  encode_timestamp_resolution, halves, encode_timestamp, interface_configured, resolution_of,
  adds_option, interface_options, interface_payload, write_interface_block, registered,
  add_interface, packet_payload, write_enhanced_packet, captured_length, packet_resolution,
  write_packet_on, write_packet,
}
use gk.Gnet.Pcapng.Reader.{Reader, new_reader, next_block, read_packet}
use gk.Gnet.Pcapng.Headers.{section_block}
use gk.Gnet.Pcapng.Sections.{next_block-section_payload}
use gk.Gnet.Pcapng.Loop.{read_packet_total}
use gk.Gnet.Pcapng.Timestamps.{Encodes, timestamp_of-encode_timestamp}
use gk.Gnet.Pcapng.Files.{
  Operation, interface_operation, packet_operation, stored_packets, AreGood, operate, operate_each,
}

written : Unit {0}
unfolding lookup insert ℕ_discrete to_bits put16 put32 put64 is_zero padding encode_option
    encode_options total_length block_bytes write magic_of section_length_bits section_payload
    write_section_header configured new_writer encode_timestamp_resolution halves encode_timestamp
    interface_configured resolution_of adds_option interface_options interface_payload
    write_interface_block registered add_interface packet_payload write_enhanced_packet
    captured_length packet_resolution write_packet_on write_packet
    with_interface_timestamp_resolution operate operate_each stored_packets AreGood
written = tt

abbrev at : Time
at = record { unix = pos 5; nanos = 7001 }

abbrev comment : BlockOption
comment = record { code = 1; value = 104 ∷ 105 ∷ [] }

abbrev calls : List Operation
calls =
    interface_operation 1 2 (with_interface_timestamp_resolution nanosecond ∷ [])
    ∷ packet_operation 0 (10 ∷ 20 ∷ 30 ∷ []) at (comment ∷ [])
    ∷ []

abbrev cut_file : List ℕ
cut_file = 10 ∷ 13 ∷ 13 ∷ 10 ∷ 0 ∷ 0 ∷ 0 ∷ 12 ∷ 1 ∷ []

read_packet_total_example :
    ((read_packet (new_reader cut_file)).1 ≢ err stuck)
    × (length (read_packet (new_reader cut_file)).0.stream ≤ length cut_file)
unfolding new_reader
read_packet_total_example = read_packet_total (new_reader cut_file)

parse_options-encode_options_example :
    parse_options big (encode_options big (comment ∷ [])) ≡ ok (comment ∷ [])
parse_options-encode_options_example =
    parse_options-encode_options big (comment ∷ [])
      (record { code_fits = omega arith; not_end = omega arith; value_fits = omega arith }, tt)

timestamp_of-encode_timestamp_example : Encodes 5 7001 microsecond
timestamp_of-encode_timestamp_example =
    timestamp_of-encode_timestamp 5 7001 microsecond (inr refl) (omega arith) (omega arith)

abbrev w : Writer
w = writer_of default_config

abbrev r : Reader
r = new_reader []

next_block-section_payload_example :
    next_block (record r {
      stream = block_bytes w.order section_header_block_type (section_payload w) ++ 9 ∷ [];
    })
    ≡ (
      record r {
        stream = 9 ∷ [];
        order = some w.order;
        section = some (section_block (total_length (section_payload w)) w);
        interfaces = [];
        next_interface = 0;
      },
      ok (section_header (section_block (total_length (section_payload w)) w)),
    )
unfolding written
next_block-section_payload_example =
    next_block-section_payload w (9 ∷ []) r (omega arith) (omega arith) (omega arith) tt
