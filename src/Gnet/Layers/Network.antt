-- ===== src/Gnet/Layers/Network.antt =====
-- Packets of IP: ipv4.go and ipv6.go.
use gk.Common.{
  ℕ, ◌+◌, ◌-◌, ◌*◌, ◌/◌, ◌%◌, ◌^◌, ◌||◌, ◌==◌, ltb, List, [], length, if◌then◌else◌, not,
}
use gk.Gnet.Bytes.{big, u16, slice, take}
use gk.Gnet.Layers.{
  ipv4_type, ipv6_type, too_short, total_length_too_small, header_too_short, invalid_version,
  invalid_header_length, Decoded, ok, err, Layer, ipv4, ipv6, byte_at,
}

abbrev pub protocol_icmp : ℕ
protocol_icmp = 1

abbrev pub protocol_tcp : ℕ
protocol_tcp = 6

abbrev pub protocol_udp : ℕ
protocol_udp = 17

-- The length that the header gives, or that of the bytes if there are fewer.
unfoldable pub at_most : ℕ → List ℕ → ℕ
at_most n bytes = if ltb (length bytes) n then length bytes else n

-- The options of a header, after its first 20 bytes.
unfoldable pub header_options : ℕ → List ℕ → List ℕ
header_options size bytes = if ltb 0 (size - 20) then slice 20 size bytes else []

unfoldable pub ipv4_on : List ℕ → ℕ → ℕ → Decoded Layer
unfolding u16 header_options byte_at
ipv4_on bytes size total =
    if ltb total size
    then err total_length_too_small
    else ok (
        ipv4 (record {
          base = record { contents = take size bytes; payload_data = slice size total bytes };
          version = byte_at 0 bytes / 2 ^ 4;
          ihl = byte_at 0 bytes % 2 ^ 4;
          tos = byte_at 1 bytes;
          total_length = total % 2 ^ 16;
          id = u16 big (slice 4 6 bytes);
          flags = u16 big (slice 6 8 bytes) / 2 ^ 13 % 2 ^ 8;
          frag_offset = u16 big (slice 6 8 bytes) % 2 ^ 13;
          ttl = byte_at 8 bytes;
          protocol = byte_at 9 bytes;
          checksum = u16 big (slice 10 12 bytes);
          src_ip = slice 12 16 bytes;
          dst_ip = slice 16 20 bytes;
          options = header_options size bytes;
        }))

unfoldable pub decode_ipv4 : List ℕ → Decoded Layer
unfolding ipv4_on at_most byte_at u16
decode_ipv4 bytes =
    let size = byte_at 0 bytes % 2 ^ 4 * 4 in
    if ltb (length bytes) 20
    then err (too_short ipv4_type (length bytes))
    else if not (byte_at 0 bytes / 2 ^ 4 == 4)
    then err (invalid_version ipv4_type (byte_at 0 bytes / 2 ^ 4))
    else if ltb size 20 || ltb (length bytes) size
    then err (invalid_header_length ipv4_type size)
    else ipv4_on bytes size (at_most (u16 big (slice 2 4 bytes)) bytes)

abbrev pub ipv6_header_len : ℕ
ipv6_header_len = 40

unfoldable pub decode_ipv6 : List ℕ → Decoded Layer
unfolding at_most byte_at u16
decode_ipv6 bytes =
    let payload_len = u16 big (slice 4 6 bytes) in
    if ltb (length bytes) ipv6_header_len
    then err header_too_short
    else if not (byte_at 0 bytes / 2 ^ 4 == 6)
    then err (invalid_version ipv6_type (byte_at 0 bytes / 2 ^ 4))
    else ok (
        ipv6 (record {
          base = record {
            contents = take ipv6_header_len bytes;
            payload_data =
                slice ipv6_header_len (at_most (ipv6_header_len + payload_len) bytes) bytes;
          };
          version = byte_at 0 bytes / 2 ^ 4;
          traffic_class = byte_at 0 bytes % 2 ^ 4 * 2 ^ 4 + byte_at 1 bytes / 2 ^ 4;
          flow_label = byte_at 1 bytes % 2 ^ 4 * 2 ^ 16 + byte_at 2 bytes * 2 ^ 8 + byte_at 3 bytes;
          payload_len = payload_len;
          next_header = byte_at 6 bytes;
          hop_limit = byte_at 7 bytes;
          src_ip = slice 8 24 bytes;
          dst_ip = slice 24 40 bytes;
        }))
