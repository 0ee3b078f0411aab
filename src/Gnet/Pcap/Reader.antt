-- ===== src/Gnet/Pcap/Reader.antt =====
-- `Reader`: reader.go. A stream that fails for another reason than its end is left out.
use gk.Common.{ℕ, ◌*◌, Bool, ◌&&◌, ◌||◌, ◌==◌, ltb, List, [], if◌then◌else◌}
use gk.Gnet.Bytes.{ByteOrder, big, u16, u32, slice, read_full, ReadFull, full}
use gk.Gnet.Times.{time_unix, microsecond}
use gk.Gnet.Pcap.{
  FileHeader, PacketHeader, Packet, Result, ok, err, eof, unexpected_eof, invalid_magic_number,
  invalid_packet_header, snap_length_exceeded, magic_microseconds, magic_microseconds_swapped,
  magic_nanoseconds, magic_nanoseconds_swapped, byte_order, timestamp_resolution,
}

pub record Reader : Type 0 where
  pub stream : List ℕ
  pub header : FileHeader
  pub byte_order : ByteOrder
  pub ts_unit : ℕ

unfoldable pub is_magic : ℕ → Bool
is_magic m =
    m == magic_microseconds
    || m == magic_nanoseconds
    || m == magic_microseconds_swapped
    || m == magic_nanoseconds_swapped

unfoldable pub parse_header : ByteOrder → ℕ → List ℕ → FileHeader
unfolding u16 u32
parse_header o magic b = record {
  magic_number = magic;
  version_major = u16 o (slice 4 6 b);
  version_minor = u16 o (slice 6 8 b);
  this_zone = u32 o (slice 8 12 b);
  sig_figs = u32 o (slice 12 16 b);
  snap_len = u32 o (slice 16 20 b);
  network = u32 o (slice 20 24 b);
}

-- The byte order and the resolution depend on the magic number only.
abbrev pub of_magic : ℕ → FileHeader
of_magic magic = record {
  magic_number = magic;
  version_major = 0;
  version_minor = 0;
  this_zone = 0;
  sig_figs = 0;
  snap_len = 0;
  network = 0;
}

unfoldable pub reader_on : List ℕ → List ℕ → Result Reader
unfolding is_magic parse_header byte_order timestamp_resolution
reader_on b rest =
    let magic = u32 big (slice 0 4 b) in
    let o = byte_order (of_magic magic) in
    let h = parse_header o magic b in
    if is_magic magic
    then ok (record { stream = rest; header = h; byte_order = o; ts_unit = timestamp_resolution h })
    else err invalid_magic_number

unfoldable pub new_reader : List ℕ → Result Reader
unfolding reader_on read_full
new_reader stream = elim (read_full 24 stream) [
  | full b rest ↦ reader_on b rest
  | ReadFull.eof ↦ err eof
  | ReadFull.unexpected_eof ↦ err unexpected_eof
]

unfoldable pub parse_packet_header : ByteOrder → List ℕ → PacketHeader
unfolding u32
parse_packet_header o b = record {
  ts_sec = u32 o (slice 0 4 b);
  ts_usec = u32 o (slice 4 8 b);
  incl_len = u32 o (slice 8 12 b);
  orig_len = u32 o (slice 12 16 b);
}

-- The fraction of a second, in nanoseconds.
unfoldable pub sub_second : ℕ → ℕ → ℕ
sub_second unit usec = if unit == microsecond then usec * 1000 else usec * 1

unfoldable pub packet_on : Reader → PacketHeader → List ℕ → Reader × Result Packet
unfolding read_full time_unix sub_second
packet_on r h rest =
    if ltb 0 r.header.snap_len && ltb r.header.snap_len h.incl_len
    then (record r { stream = rest }, err (snap_length_exceeded h.incl_len r.header.snap_len))
    else elim (read_full h.incl_len rest) [
      | full bytes rest' ↦ (
        record r { stream = rest' },
        ok (record {
          header = h;
          bytes = bytes;
          timestamp = time_unix h.ts_sec (sub_second r.ts_unit h.ts_usec);
        }),
      )
      | ReadFull.eof ↦ (record r { stream = [] }, err invalid_packet_header)
      | ReadFull.unexpected_eof ↦ (record r { stream = [] }, err invalid_packet_header)
    ]

-- A read that fails takes what is left of the stream.
unfoldable pub read_packet : Reader → Reader × Result Packet
unfolding packet_on parse_packet_header read_full
read_packet r = elim (read_full 16 r.stream) [
  | full b rest ↦ packet_on r (parse_packet_header r.byte_order b) rest
  | ReadFull.eof ↦ (r, err eof)
  | ReadFull.unexpected_eof ↦ (record r { stream = [] }, err invalid_packet_header)
]
