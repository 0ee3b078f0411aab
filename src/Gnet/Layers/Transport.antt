-- ===== src/Gnet/Layers/Transport.antt =====
-- Segments, datagrams and messages: tcp.go, udp.go and icmp.go.
use gk.Common.{ℕ, ◌+◌, ◌*◌, ◌/◌, ◌%◌, ◌^◌, ◌||◌, ◌&&◌, ltb, leb, List, length, if◌then◌else◌}
use gk.Gnet.Bytes.{big, u16, u32, slice, take, drop}
use gk.Gnet.Layers.{
  tcp_type, udp_type, icmp_type, too_short, invalid_header_length, Decoded, ok, err, Layer, tcp,
  udp, icmp, byte_at,
}
use gk.Gnet.Layers.Network.{header_options}

unfoldable pub decode_tcp : List ℕ → Decoded Layer
unfolding u16 u32 byte_at header_options
decode_tcp bytes =
    let size = byte_at 12 bytes / 2 ^ 4 * 4 in
    if ltb (length bytes) 20
    then err (too_short tcp_type (length bytes))
    else if ltb size 20 || ltb (length bytes) size
    then err (invalid_header_length tcp_type size)
    else ok (
        tcp (record {
          base = record { contents = take size bytes; payload_data = drop size bytes };
          src_port = u16 big (slice 0 2 bytes);
          dst_port = u16 big (slice 2 4 bytes);
          seq = u32 big (slice 4 8 bytes);
          ack = u32 big (slice 8 12 bytes);
          data_offset = byte_at 12 bytes / 2 ^ 4;
          flags = byte_at 12 bytes % 2 * 2 ^ 8 + byte_at 13 bytes;
          window = u16 big (slice 14 16 bytes);
          checksum = u16 big (slice 16 18 bytes);
          urgent = u16 big (slice 18 20 bytes);
          options = header_options size bytes;
        }))

-- The end of the payload: the length of the header, if it is one for these bytes.
unfoldable pub payload_end : ℕ → ℕ → ℕ
payload_end size total =
    let end = if leb 8 size && leb size total then size else total in if ltb end 8 then 8 else end

unfoldable pub decode_udp : List ℕ → Decoded Layer
unfolding u16 payload_end
decode_udp bytes =
    let size = u16 big (slice 4 6 bytes) in
    if ltb (length bytes) 8
    then err (too_short udp_type (length bytes))
    else ok (
        udp (record {
          base = record {
            contents = take 8 bytes;
            payload_data = slice 8 (payload_end size (length bytes)) bytes;
          };
          src_port = u16 big (slice 0 2 bytes);
          dst_port = u16 big (slice 2 4 bytes);
          packet_length = size;
          checksum = u16 big (slice 6 8 bytes);
        }))

unfoldable pub decode_icmp : List ℕ → Decoded Layer
unfolding u16 byte_at
decode_icmp bytes =
    if ltb (length bytes) 4
    then err (too_short icmp_type (length bytes))
    else ok (
        icmp (record {
          base = record { contents = take 4 bytes; payload_data = drop 4 bytes };
          type = byte_at 0 bytes;
          code = byte_at 1 bytes;
          checksum = u16 big (slice 2 4 bytes);
          rest = drop 4 bytes;
        }))
