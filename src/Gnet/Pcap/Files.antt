-- ===== src/Gnet/Pcap/Files.antt =====
-- Whole files: packets that are written one after the other, and read until an error.
use mathlib.Core.List.{append_assoc, append-nil}
use gk.Common.{
  ℕ, zero, suc, ◌%◌, ◌^◌, ◌<◌, ◌≡◌, refl, sym, ap, ◌∙◌, false, ltb, List, [], ◌∷◌, ◌++◌, Option,
  none, some, arith, length, map, All,
}
use gk.Gnet.Bytes.{ByteOrder, read_full}
use gk.Gnet.Times.{Time}
use gk.Gnet.Pcap.{PacketHeader, Packet, PcapError, eof, Result, ok, err, ◌>>=◌}
use gk.Gnet.Pcap.Writer.{
  WriterOption, WriterConfig, default_config, configured, header_of, Writer, write_header,
  new_writer, stamped, filled, packet_bytes, write_packet,
}
use gk.Gnet.Pcap.Reader.{Reader, new_reader, read_packet}
use gk.Gnet.Pcap.Header.{IsConfig, new_reader-file_header_bytes}
use gk.Gnet.Pcap.RoundTrip.{IsReadable, read_back, read_packet-packet_bytes}

abbrev pub written_then :
    Writer × Result (Unit {0}) → (Writer → Writer × Result (Unit {0})) → Writer × Result (Unit {0})
written_then (w, ok u) next = next w
written_then (w, err e) next = (w, err e)

-- Packets are written until one is refused.
unfoldable pub write_packets : Time → List Packet → Writer → Writer × Result (Unit {0})
write_packets now [] w = (w, ok tt)
write_packets now (p ∷ ps) w = written_then (write_packet now (some p) w) (write_packets now ps)

abbrev pub Read : Type 0
Read = Option (List Packet × PcapError)

abbrev pub with_packet : Packet → Read → Read
with_packet p none = none
with_packet p (some (ps, e)) = some (p ∷ ps, e)

abbrev pub read_then : Reader × Result Packet → (Reader → Read) → Read
read_then (r, ok p) next = with_packet p (next r)
read_then (r, err e) next = some ([], e)

-- Packets are read until an error, which is the end of a good file; `none` says that the fuel was short.
unfoldable pub read_packets : ℕ → Reader → Read
read_packets zero r = none
read_packets (suc fuel) r = read_then (read_packet r) (read_packets fuel)

-- The header of a packet in the file.
abbrev pub stored : Time → ℕ → Packet → PacketHeader
stored now unit p = filled p.bytes (stamped now unit p)

abbrev pub IsStorable : Time → ℕ → ℕ → Packet → Type 0
IsStorable now unit snap p = (length p.bytes < 2 ^ 32) × IsReadable snap (stored now unit p) p.bytes

unfoldable pub stream_of : Time → ByteOrder → ℕ → List Packet → List ℕ
stream_of now o unit [] = []
stream_of now o unit (p ∷ ps) =
    packet_bytes o (stored now unit p) p.bytes ++ stream_of now o unit ps

pub write_packet-stored :
    (now : Time) (w : Writer) (p : Packet) (snap : ℕ)
    → IsStorable now w.ts_unit snap p
    → write_packet now (some p) w ≡ (
      record w {
        written = w.written ++ packet_bytes w.byte_order (stored now w.ts_unit p) p.bytes;
      },
      ok tt,
    )
unfolding write_packet
write_packet-stored now w p snap (short, ready) =
    let fits : ltb (length p.bytes % 2 ^ 32) (stamped now w.ts_unit p).incl_len ≡ false =
      unfold filled in ground (arith, ready.enough) in
    rw (fits, write_packet) refl

write_packets-stream_of :
    (now : Time) (ps : List Packet) (w : Writer) (snap : ℕ)
    → All (IsStorable now w.ts_unit snap) ps
    → write_packets now ps w
      ≡ (record w { written = w.written ++ stream_of now w.byte_order w.ts_unit ps }, ok tt)
unfolding write_packets stream_of
write_packets-stream_of now [] w snap all =
    ap (λ l. (record w { written = l }, ok tt)) (sym (append-nil w.written))
write_packets-stream_of now (p ∷ ps) w snap (good, all) =
    let w' = record w {
      written = w.written ++ packet_bytes w.byte_order (stored now w.ts_unit p) p.bytes;
    } in
    ap (λ out. written_then out (write_packets now ps)) (write_packet-stored now w p snap good)
    ∙ write_packets-stream_of now ps w' snap all
    ∙ ap (λ l. (record w { written = l }, ok tt))
        (append_assoc w.written (packet_bytes w.byte_order (stored now w.ts_unit p) p.bytes)
          (stream_of now w.byte_order w.ts_unit ps))

pub read_packets-stream_of :
    (now : Time) (ps : List Packet) (r : Reader) (fuel : ℕ)
    → All (IsStorable now r.ts_unit r.header.snap_len) ps
    → length ps < fuel
    → read_packets fuel (record r { stream = stream_of now r.byte_order r.ts_unit ps })
      ≡ some (map (λ p. read_back r.ts_unit (stored now r.ts_unit p) p.bytes) ps, eof)
unfolding read_packets stream_of
read_packets-stream_of now ps r zero all lt = absurd (omega arith)
read_packets-stream_of now [] r (suc fuel) all lt = unfold read_packet read_full in refl
read_packets-stream_of now (p ∷ ps) r (suc fuel) (good, all) lt =
    ap (λ out. read_then out (read_packets fuel))
      (read_packet-packet_bytes r (stored now r.ts_unit p) p.bytes
        (stream_of now r.byte_order r.ts_unit ps) good.1)
    ∙ ap (with_packet (read_back r.ts_unit (stored now r.ts_unit p) p.bytes))
        (read_packets-stream_of now ps r fuel all (omega arith))

-- A file written and read back, with fuel for the packets.
abbrev pub written_and_read : ℕ → List WriterOption → Time → List Packet → Result Read
written_and_read fuel opts now ps = do
  w ← new_writer opts
  r ← new_reader (write_packets now ps w).0.written
  ok (read_packets fuel r)

-- If the options give a good configuration, every packet fits it and the fuel is above the number of
-- packets, the reader gives back every packet that was written, in order, with its header as it was
-- stored, its captured bytes and its time, and then the end of the file.
pub read_packets-write_packets :
    (opts : List WriterOption) (c : WriterConfig) (now : Time) (ps : List Packet) (fuel : ℕ)
    → configured opts default_config ≡ ok c
    → IsConfig c
    → All (IsStorable now c.resolution c.snap_len) ps
    → length ps < fuel
    → written_and_read fuel opts now ps
      ≡ ok (some (map (λ p. read_back c.resolution (stored now c.resolution p) p.bytes) ps, eof))
unfolding new_writer write_header
read_packets-write_packets opts c now ps fuel set good all lt =
    let w : Writer = write_header (record {
      header = header_of c;
      byte_order = c.byte_order;
      ts_unit = c.resolution;
      written = [];
    }) in
    let r : Reader = record {
      stream = stream_of now c.byte_order c.resolution ps;
      header = header_of c;
      byte_order = c.byte_order;
      ts_unit = c.resolution;
    } in
    let made : new_writer opts ≡ ok w =
      ap
        (λ m. m >>= λ c'. ok (
          write_header (record {
            header = header_of c';
            byte_order = c'.byte_order;
            ts_unit = c'.resolution;
            written = [];
          })))
        set in
    ap
      (λ m. m >>= λ w'.
        new_reader (write_packets now ps w').0.written >>= λ r'. ok (read_packets fuel r'))
      made
    ∙ ap (λ out. new_reader (out.0.written) >>= λ r'. ok (read_packets fuel r'))
        (write_packets-stream_of now ps w c.snap_len all)
    ∙ ap (λ m. m >>= λ r'. ok (read_packets fuel r'))
        (new_reader-file_header_bytes c (stream_of now c.byte_order c.resolution ps) good)
    ∙ ap ok (read_packets-stream_of now ps r fuel (unfold header_of in all) lt)
