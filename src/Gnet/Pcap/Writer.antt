-- ===== src/Gnet/Pcap/Writer.antt =====
-- `Writer`: writer.go. What the writer has given to its stream, or to the buffer before it, is a list of
-- bytes. A stream that fails is left out.
use gk.Common.{
  ℕ, ◌%◌, ◌^◌, ◌&&◌, ◌||◌, ◌==◌, ltb, List, [], ◌∷◌, ◌++◌, Option, none, some, length,
  if◌then◌else◌,
}
use gk.Gnet.Bytes.{ByteOrder, little, big, put16, put32, take}
use gk.Gnet.Times.{Time, is_zero, nanosecond, microsecond}
use gk.Gnet.Pcap.{
  FileHeader, PacketHeader, Packet, Result, ok, err, ◌>>=◌, nil_packet, short_packet,
  snap_length_not_positive, buffer_not_positive, version_not_positive, unsupported_resolution,
  magic_microseconds, magic_microseconds_swapped, magic_nanoseconds, magic_nanoseconds_swapped,
  set_timestamp,
}

pub record WriterConfig : Type 0 where
  pub byte_order : ByteOrder
  pub resolution : ℕ
  pub version_maj : ℕ
  pub version_min : ℕ
  pub this_zone : ℕ
  pub sig_figs : ℕ
  pub snap_len : ℕ
  pub network : ℕ
  pub buffer_size : ℕ

abbrev pub WriterOption : Type 0
WriterOption = WriterConfig → Result WriterConfig

abbrev pub default_config : WriterConfig
default_config = record {
  byte_order = little;
  resolution = microsecond;
  version_maj = 2;
  version_min = 4;
  this_zone = 0;
  sig_figs = 0;
  snap_len = 65535;
  network = 1;
  buffer_size = 0;
}

unfoldable pub with_snap_len : ℕ → WriterOption
with_snap_len n c = if n == 0 then err snap_length_not_positive else ok (record c { snap_len = n })

unfoldable pub with_link_type : ℕ → WriterOption
with_link_type n c = ok (record c { network = n })

unfoldable pub with_buffer : ℕ → WriterOption
with_buffer n c = if n == 0 then err buffer_not_positive else ok (record c { buffer_size = n })

-- There are no byte orders but the two.
unfoldable pub with_byte_order : ByteOrder → WriterOption
with_byte_order o c = ok (record c { byte_order = o })

unfoldable pub with_timestamp_resolution : ℕ → WriterOption
with_timestamp_resolution d c =
    if d == microsecond || d == nanosecond
    then ok (record c { resolution = d })
    else err (unsupported_resolution d)

unfoldable pub with_version : ℕ → ℕ → WriterOption
with_version major minor c =
    if major == 0
    then err version_not_positive
    else ok (record c { version_maj = major; version_min = minor })

unfoldable pub with_time_zone : ℕ → WriterOption
with_time_zone zone c = ok (record c { this_zone = zone })

unfoldable pub with_sig_figs : ℕ → WriterOption
with_sig_figs n c = ok (record c { sig_figs = n })

unfoldable pub configured : List WriterOption → WriterConfig → Result WriterConfig
configured [] c = ok c
configured (opt ∷ opts) c = do c' ← opt c; configured opts c'

unfoldable pub select_magic : ByteOrder → ℕ → ℕ
select_magic big resolution =
    if resolution == nanosecond then magic_nanoseconds else magic_microseconds
select_magic little resolution =
    if resolution == nanosecond then magic_nanoseconds_swapped else magic_microseconds_swapped

unfoldable pub header_of : WriterConfig → FileHeader
unfolding select_magic
header_of c = record {
  magic_number = select_magic c.byte_order c.resolution;
  version_major = c.version_maj;
  version_minor = c.version_min;
  this_zone = c.this_zone;
  sig_figs = c.sig_figs;
  snap_len = c.snap_len;
  network = c.network;
}

pub record Writer : Type 0 where
  pub header : FileHeader
  pub byte_order : ByteOrder
  pub ts_unit : ℕ
  pub written : List ℕ

-- The magic number is always written in the big order.
unfoldable pub file_header_bytes : ByteOrder → FileHeader → List ℕ
unfolding put16 put32
file_header_bytes o h =
    put32 big h.magic_number
    ++ (put16 o h.version_major
        ++ (put16 o h.version_minor
            ++ (put32 o h.this_zone
                ++ (put32 o h.sig_figs ++ (put32 o h.snap_len ++ put32 o h.network)))))

unfoldable pub write_header : Writer → Writer
unfolding file_header_bytes
write_header w = record w { written = w.written ++ file_header_bytes w.byte_order w.header }

unfoldable pub new_writer : List WriterOption → Result Writer
unfolding configured header_of write_header
new_writer opts = do
  c ← configured opts default_config
  ok (
      write_header (record {
        header = header_of c;
        byte_order = c.byte_order;
        ts_unit = c.resolution;
        written = [];
      }))

-- The time of the packet, or else of its header, or else the present.
unfoldable pub stamped : Time → ℕ → Packet → PacketHeader
unfolding set_timestamp is_zero
stamped now unit p =
    if is_zero p.timestamp
    then (if p.header.ts_sec == 0 && p.header.ts_usec == 0
        then set_timestamp now unit p.header
        else p.header)
    else set_timestamp p.timestamp unit p.header

-- The lengths that are 0 are filled in. `uint32(len)` is the length modulo 2 ^ 32.
unfoldable pub filled : List ℕ → PacketHeader → PacketHeader
filled bytes h = record h {
  incl_len = if h.incl_len == 0 then length bytes % 2 ^ 32 else h.incl_len;
  orig_len = if h.orig_len == 0 then length bytes % 2 ^ 32 else h.orig_len;
}

unfoldable pub packet_header_bytes : ByteOrder → PacketHeader → List ℕ
unfolding put32
packet_header_bytes o h =
    put32 o h.ts_sec ++ (put32 o h.ts_usec ++ (put32 o h.incl_len ++ put32 o h.orig_len))

-- A packet of the writer, with its header as it is written.
unfoldable pub packet_bytes : ByteOrder → PacketHeader → List ℕ → List ℕ
unfolding packet_header_bytes
packet_bytes o h bytes = packet_header_bytes o h ++ take h.incl_len bytes

unfoldable pub write_packet : Time → Option Packet → Writer → Writer × Result (Unit {0})
unfolding stamped filled packet_bytes
write_packet now none w = (w, err nil_packet)
write_packet now (some p) w =
    let h = stamped now w.ts_unit p in
    if ltb (length p.bytes % 2 ^ 32) h.incl_len then (w, err short_packet) else (
      record w { written = w.written ++ packet_bytes w.byte_order (filled p.bytes h) p.bytes },
      ok tt,
    )

unfoldable pub write_packet_data : Time → List ℕ → Time → Writer → Writer × Result (Unit {0})
unfolding write_packet
write_packet_data now bytes timestamp w =
    write_packet now
      (some (record {
        header = record { ts_sec = 0; ts_usec = 0; incl_len = 0; orig_len = 0 };
        bytes = bytes;
        timestamp = timestamp;
      }))
      w
