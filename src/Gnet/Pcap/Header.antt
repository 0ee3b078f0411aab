-- ===== src/Gnet/Pcap/Header.antt =====
-- What the reader makes of the file header that the writer gives.
use gk.Common.{ℕ, ◌^◌, ◌<◌, ◌≡◌, ◌⊎◌, inl, inr, refl, ap, ap₂, ◌∙◌, true, List, ◌++◌, arith, length}
use gk.Gnet.Bytes.{
  ByteOrder, little, big, put16, put32, u16, u32, u16-put16, u32-put32, slice, read_full-append,
}
use gk.Gnet.Times.{nanosecond, microsecond}
use gk.Gnet.Pcap.{FileHeader, ok, byte_order, timestamp_resolution}
use gk.Gnet.Pcap.Writer.{WriterConfig, header_of, select_magic, file_header_bytes}
use gk.Gnet.Pcap.Reader.{of_magic, is_magic, parse_header, reader_on, new_reader}

-- The numbers of the configuration fit their fields, and the resolution is one of the two.
pub record IsConfig (c : WriterConfig) : Type 0 where
  pub maj : c.version_maj < 2 ^ 16
  pub min : c.version_min < 2 ^ 16
  pub zone : c.this_zone < 2 ^ 32
  pub figs : c.sig_figs < 2 ^ 32
  pub snap : c.snap_len < 2 ^ 32
  pub net : c.network < 2 ^ 32
  pub unit : (c.resolution ≡ microsecond) ⊎ (c.resolution ≡ nanosecond)

parse_header-file_header_bytes :
    (o : ByteOrder) (c : WriterConfig)
    → IsConfig c
    → parse_header o (header_of c).magic_number (file_header_bytes o (header_of c)) ≡ header_of c
unfolding parse_header file_header_bytes header_of put32 u32 put16 u16
parse_header-file_header_bytes little c k = λ i. record {
  magic_number = select_magic c.byte_order c.resolution;
  version_major = u16-put16 little c.version_maj k.maj i;
  version_minor = u16-put16 little c.version_min k.min i;
  this_zone = u32-put32 little c.this_zone k.zone i;
  sig_figs = u32-put32 little c.sig_figs k.figs i;
  snap_len = u32-put32 little c.snap_len k.snap i;
  network = u32-put32 little c.network k.net i;
}
parse_header-file_header_bytes big c k = λ i. record {
  magic_number = select_magic c.byte_order c.resolution;
  version_major = u16-put16 big c.version_maj k.maj i;
  version_minor = u16-put16 big c.version_min k.min i;
  this_zone = u32-put32 big c.this_zone k.zone i;
  sig_figs = u32-put32 big c.sig_figs k.figs i;
  snap_len = u32-put32 big c.snap_len k.snap i;
  network = u32-put32 big c.network k.net i;
}

length-file_header_bytes : (o : ByteOrder) (h : FileHeader) → length (file_header_bytes o h) ≡ 24
unfolding file_header_bytes put32 put16
length-file_header_bytes little h = refl
length-file_header_bytes big h = refl

select_magic_lem :
    (o : ByteOrder) (unit : ℕ)
    → (unit ≡ microsecond) ⊎ (unit ≡ nanosecond)
    → (select_magic o unit < 2 ^ 32)
      × (is_magic (select_magic o unit) ≡ true)
      × (byte_order (of_magic (select_magic o unit)) ≡ o)
      × (timestamp_resolution (of_magic (select_magic o unit)) ≡ unit)
unfolding select_magic is_magic byte_order timestamp_resolution
select_magic_lem little unit (inl micro) = rw micro (omega arith, refl, refl, refl)
select_magic_lem little unit (inr nano) = rw nano (omega arith, refl, refl, refl)
select_magic_lem big unit (inl micro) = rw micro (omega arith, refl, refl, refl)
select_magic_lem big unit (inr nano) = rw nano (omega arith, refl, refl, refl)

magic-file_header_bytes :
    (o : ByteOrder) (h : FileHeader)
    → h.magic_number < 2 ^ 32
    → u32 big (slice 0 4 (file_header_bytes o h)) ≡ h.magic_number
unfolding file_header_bytes put32 u32
magic-file_header_bytes o h k = u32-put32 big h.magic_number k

reader_on-magic :
    (b rest : List ℕ) (magic : ℕ)
    → u32 big (slice 0 4 b) ≡ magic
    → is_magic magic ≡ true
    → reader_on b rest
      ≡ ok (record {
        stream = rest;
        header = parse_header (byte_order (of_magic magic)) magic b;
        byte_order = byte_order (of_magic magic);
        ts_unit = timestamp_resolution (of_magic magic);
      })
unfolding reader_on timestamp_resolution parse_header
reader_on-magic b rest magic e good = rw (e, reader_on) (rw good refl)

-- A file header of the writer is accepted, and gives the writer's header, byte order and unit back.
pub new_reader-file_header_bytes :
    (c : WriterConfig) (rest : List ℕ)
    → IsConfig c
    → new_reader (file_header_bytes c.byte_order (header_of c) ++ rest)
      ≡ ok (record {
        stream = rest;
        header = header_of c;
        byte_order = c.byte_order;
        ts_unit = c.resolution;
      })
unfolding new_reader header_of
new_reader-file_header_bytes c rest k =
    let o = c.byte_order in
    let h = header_of c in
    let front = file_header_bytes o h in
    let (fits, known, order, unit) = select_magic_lem o c.resolution k.unit in
    rw (read_full-append 24 front rest (length-file_header_bytes o h), new_reader)
      (reader_on-magic front rest h.magic_number (magic-file_header_bytes o h fits) known
        ∙ ap₂
            (λ o' unit'. ok (record {
              stream = rest;
              header = parse_header o' h.magic_number front;
              byte_order = o';
              ts_unit = unit';
            }))
            order unit
        ∙ ap
            (λ h'.
              ok (record { stream = rest; header = h'; byte_order = o; ts_unit = c.resolution }))
            (parse_header-file_header_bytes o c k))
