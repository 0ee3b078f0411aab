-- ===== src/Gnet/Pcap/Copying.antt =====
-- `FilterCopy` from one file to another.
use gk.Common.{
  ℕ, suc, ◌+◌, ◌≤◌, ◌<◌, ◌≡◌, inl, inr, refl, ap, ap₂, ◌∙◌, false, ◌==◌, List, [], ◌∷◌, ◌++◌, none,
  some, arith, length, length-append, map, All, Bool-cases,
}
use gk.Gnet.Bytes.{ByteOrder, little, take}
use gk.Gnet.Times.{Time, microsecond}
use gk.Gnet.Pcap.{Packet, eof, Result, ok, ◌>>=◌}
use gk.Gnet.Pcap.Writer.{
  WriterConfig, default_config, configured, header_of, Writer, write_header, file_header_bytes,
  with_snap_len, with_link_type, new_writer, packet_header_bytes, packet_bytes,
}
use gk.Gnet.Pcap.Reader.{Reader, new_reader}
use gk.Gnet.Pcap.Header.{IsConfig, new_reader-file_header_bytes}
use gk.Gnet.Pcap.RoundTrip.{length-packet_header_bytes}
use gk.Gnet.Pcap.Files.{stored, stream_of, Read, read_packets, read_packets-stream_of}
use gk.Gnet.Pcap.Filter.{filter_copy, filter_copy-copy_loop}
use gk.Gnet.Pcap.Kept.{answers, kept, read_backs, copy_loop-kept}
use gk.Gnet.Pcap.Whole.{
  Fits, IsUnit, came_back, IsStorable-All, map-came_back, came_back-All, read_back-stored,
}

-- The bytes of a file.
abbrev pub file_of : Time → WriterConfig → List Packet → List ℕ
file_of now c ps =
    file_header_bytes c.byte_order (header_of c) ++ stream_of now c.byte_order c.resolution ps

-- All packets of a file, with fuel for its bytes.
abbrev pub read_file : List ℕ → Result Read
read_file file = do r ← new_reader file; ok (read_packets (suc (length file)) r)

-- The configuration of a copy: the limit and the link type are those of the file.
abbrev pub copy_config : WriterConfig → WriterConfig
copy_config c = record default_config { snap_len = c.snap_len; network = c.network }

length-stream_of :
    (now : Time) (o : ByteOrder) (unit : ℕ) (ps : List Packet)
    → length ps ≤ length (stream_of now o unit ps)
unfolding stream_of packet_bytes
length-stream_of now o unit [] = omega arith
length-stream_of now o unit (p ∷ ps) =
    let h = stored now unit p in
    let rest = stream_of now o unit ps in
    let body = take h.incl_len p.bytes in
    let whole : length ((packet_header_bytes o h ++ body) ++ rest)
        ≡ length (packet_header_bytes o h ++ body) + length rest =
      length-append (packet_header_bytes o h ++ body) rest in
    omega (
      arith,
      whole,
      length-append (packet_header_bytes o h) body,
      length-packet_header_bytes o h,
      length-stream_of now o unit ps,
    )

length-file_of :
    (now : Time) (c : WriterConfig) (ps : List Packet) → length ps < suc (length (file_of now c ps))
length-file_of now c ps =
    let head = file_header_bytes c.byte_order (header_of c) in
    omega (
      arith,
      length-append head (stream_of now c.byte_order c.resolution ps),
      length-stream_of now c.byte_order c.resolution ps,
    )

read_file-file_of :
    (now : Time) (c : WriterConfig) (ps : List Packet)
    → IsConfig c
    → All (Fits c.snap_len) ps
    → read_file (file_of now c ps) ≡ ok (some (map (came_back c.resolution) ps, eof))
read_file-file_of now c ps good all =
    let o = c.byte_order in
    let rest = stream_of now o c.resolution ps in
    let r : Reader = record {
      stream = rest;
      header = header_of c;
      byte_order = o;
      ts_unit = c.resolution;
    } in
    let fuel = suc (length (file_of now c ps)) in
    ap (λ m. m >>= λ r'. ok (read_packets fuel r')) (new_reader-file_header_bytes c rest good)
    ∙ ap ok (
        read_packets-stream_of now ps r fuel
          (unfold header_of in IsStorable-All now c.resolution c.snap_len good.unit ps all)
          (length-file_of now c ps))
    ∙ ap (λ l. ok (some (l, eof))) (map-came_back now c.resolution c.snap_len good.unit ps all)

copy_config-IsConfig : (c : WriterConfig) → IsConfig c → IsConfig (copy_config c)
copy_config-IsConfig c good = record {
  maj = omega arith;
  min = omega arith;
  zone = omega arith;
  figs = omega arith;
  snap = good.snap;
  net = good.net;
  unit = inl refl;
}

module _ (keep : List ℕ → ℕ) (now : Time) where
  read_backs-came_back :
      (unit snap : ℕ)
      → IsUnit unit
      → (ps : List Packet) → All (Fits snap) ps
      → read_backs keep now unit ps ≡ map (came_back unit) ps
  unfolding read_backs
  read_backs-came_back unit snap u [] all = refl
  read_backs-came_back unit snap u (p ∷ ps) (fits, all) =
      ap₂ ◌∷◌ (read_back-stored now unit snap p u fits) (read_backs-came_back unit snap u ps all)

  kept-All : (P : Packet → Type 0) (ps : List Packet) → All P ps → All P (kept keep now ps)
  unfolding kept
  kept-All P [] all = tt
  kept-All P (p ∷ ps) (fits, all) = elim (Bool-cases (keep p.bytes == 0)) [
    | inl drop ↦ rw drop (kept-All P ps all)
    | inr keeps ↦ rw keeps (fits, kept-All P ps all)
  ]

  -- The packets that the machine keeps of a file.
  abbrev pub chosen : WriterConfig → List Packet → List Packet
  chosen c ps = kept keep now (map (came_back c.resolution) ps)

  filter_copy-file_of :
      (c : WriterConfig) (ps : List Packet)
      → IsConfig c
      → 0 < c.snap_len
      → All (Fits c.snap_len) ps
      → filter_copy (ok (answers keep now)) now (file_of now c ps)
        ≡ some (record {
          written = file_of now (copy_config c) (chosen c ps);
          count = length (chosen c ps);
          error = none;
        })
  unfolding header_of with_snap_len with_link_type new_writer configured write_header
  filter_copy-file_of c ps good limited all =
      let o = c.byte_order in
      let unit = c.resolution in
      let r : Reader = record {
        stream = stream_of now o unit ps;
        header = header_of c;
        byte_order = o;
        ts_unit = unit;
      } in
      let c' = copy_config c in
      let w : Writer = record {
        header = header_of c';
        byte_order = little;
        ts_unit = microsecond;
        written = file_header_bytes little (header_of c');
      } in
      let made : new_writer (with_snap_len c.snap_len ∷ with_link_type c.network ∷ []) ≡ ok w =
        (let positive : (c.snap_len == 0) ≡ false = ground (arith, limited) in
          rw (positive, new_writer) refl) in
      let backs = read_backs-came_back unit c.snap_len good.unit ps all in
      filter_copy-copy_loop (answers keep now) now (file_of now c ps) r w
        (new_reader-file_header_bytes c r.stream good) made
      ∙ copy_loop-kept keep now ps (suc (length (file_of now c ps))) r w c.snap_len 0
          (length-file_of now c ps) (IsStorable-All now unit c.snap_len good.unit ps all)
          (rw backs (
            IsStorable-All now microsecond c.snap_len (inl refl) (chosen c ps) (
              kept-All (Fits c.snap_len) (map (came_back unit) ps)
                (came_back-All now unit c.snap_len good.unit ps all))))
      ∙ rw backs (
          ap
            (λ n. some (record { written = file_of now c' (chosen c ps); count = n; error = none }))
            (omega arith))

  -- If the machine answers every packet, and the file has a good header, a limit that is not 0 and
  -- packets that fit the limit, with times since 1970 whose seconds fit 32 bits, then `FilterCopy` ends without an error, with the number of the packets
  -- that the machine keeps, and what it writes is a good file of its own: of the same limit and link
  -- type, little-endian and in microseconds. Read to its end, the copy gives the packets that the machine
  -- keeps of the file, in order, each with its time but for the part of a microsecond.
  pub filter_copy-kept :
      (c : WriterConfig) (ps : List Packet)
      → IsConfig c
      → 0 < c.snap_len
      → All (Fits c.snap_len) ps
      → (copy : List ℕ) × (filter_copy (ok (answers keep now)) now (file_of now c ps)
          ≡ some (record { written = copy; count = length (chosen c ps); error = none }))
        × (copy ≡ file_of now (copy_config c) (chosen c ps))
        × (read_file copy ≡ ok (some (map (came_back microsecond) (chosen c ps), eof)))
  filter_copy-kept c ps good limited all = (
    file_of now (copy_config c) (chosen c ps),
    filter_copy-file_of c ps good limited all,
    refl,
    read_file-file_of now (copy_config c) (chosen c ps) (copy_config-IsConfig c good) (
        kept-All (Fits c.snap_len) (map (came_back c.resolution) ps)
          (came_back-All now c.resolution c.snap_len good.unit ps all)),
  )
