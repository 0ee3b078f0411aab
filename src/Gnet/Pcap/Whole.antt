-- ===== src/Gnet/Pcap/Whole.antt =====
-- What comes back of a packet that is written to a file, in terms of the packet alone.
use gk.Common.{
  ℕ, ◌*◌, ◌/◌, ◌%◌, ◌^◌, ◌≤◌, ◌<◌, ◌≡◌, ◌⊎◌, inl, inr, refl, ap, ap₂, ◌∙◌, ◌==◌, List, [], ◌∷◌,
  some, arith, length, map, All, if◌then◌else◌,
}
use gk.Common.Int64.{ℤ, pos, negsuc, to_bits}
use gk.Gnet.Bytes.{take, length-take}
use gk.Gnet.Times.{Time, is_zero, time_unix, nanosecond, microsecond, second}
use gk.Gnet.Pcap.{Packet, eof, ok, set_timestamp}
use gk.Gnet.Pcap.Writer.{WriterOption, WriterConfig, default_config, configured, stamped, filled}
use gk.Gnet.Pcap.Reader.{sub_second}
use gk.Gnet.Pcap.Header.{IsConfig}
use gk.Gnet.Pcap.RoundTrip.{read_back}
use gk.Gnet.Pcap.Files.{stored, IsStorable, written_and_read, read_packets-write_packets}

abbrev or_length : ℕ → List ℕ → ℕ
or_length n bytes = if n == 0 then length bytes else n

-- The number of bytes that the header says are captured, or all where it says 0.
abbrev pub captured : Packet → ℕ
captured p = or_length p.header.incl_len p.bytes

abbrev seconds : ℤ → ℕ
seconds (pos n) = n
seconds (negsuc n) = 0

-- The packet that is read: its time loses the part of a unit, its bytes those that are not captured, and
-- its header says what was written.
abbrev pub came_back : ℕ → Packet → Packet
came_back unit p = record {
  header = record {
    ts_sec = seconds p.timestamp.unix;
    ts_usec = p.timestamp.nanos / unit;
    incl_len = captured p;
    orig_len = or_length p.header.orig_len p.bytes;
  };
  bytes = take (captured p) p.bytes;
  timestamp = record { unix = p.timestamp.unix; nanos = p.timestamp.nanos / unit * unit };
}

-- The time is since 1970, and its seconds and the lengths fit 32 bits; no more bytes are captured than
-- there are, or than the limit of the file, where it has one.
pub record Fits (snap : ℕ) (p : Packet) : Type 0 where
  pub sec : ℕ
  pub since : p.timestamp.unix ≡ pos sec
  pub early : sec < 2 ^ 32
  pub subsecond : p.timestamp.nanos < second
  pub short : length p.bytes < 2 ^ 32
  pub original : p.header.orig_len < 2 ^ 32
  pub enough : p.header.incl_len ≤ length p.bytes
  pub within : (snap ≡ 0) ⊎ (captured p ≤ snap)

abbrev pub IsUnit : ℕ → Type 0
IsUnit unit = (unit ≡ microsecond) ⊎ (unit ≡ nanosecond)

module _ (now : Time) (unit snap : ℕ) (p : Packet) (u : IsUnit unit) (fits : Fits snap p) where
  sec_eq : to_bits p.timestamp.unix % 2 ^ 32 ≡ seconds p.timestamp.unix
  unfolding to_bits
  sec_eq = rw (fits.since) (omega (arith, fits.early))

  fraction :
      (if unit == nanosecond then p.timestamp.nanos else p.timestamp.nanos / 1000)
      ≡ p.timestamp.nanos / unit
  fraction = elim u [ inl micro ↦ rw micro refl | inr nano ↦ rw nano (omega arith) ]

  stamped_lem :
      stamped now unit p
      ≡ record p.header { ts_sec = seconds p.timestamp.unix; ts_usec = p.timestamp.nanos / unit }
  unfolding stamped set_timestamp is_zero
  stamped_lem = ground (arith, fits.since, sec_eq, fraction)

  stored_lem : stored now unit p ≡ (came_back unit p).header
  unfolding filled
  stored_lem = rw stamped_lem (ground (arith, fits.short))

  pub read_back-stored : read_back unit (stored now unit p) p.bytes ≡ came_back unit p
  unfolding time_unix sub_second
  read_back-stored = rw stored_lem (elim u [
    | inl micro ↦ ground (arith, micro, fits.since, fits.subsecond)
    | inr nano ↦ ground (arith, nano, fits.since, fits.subsecond)
  ])

  pub IsStorable-Fits : IsStorable now unit snap p
  IsStorable-Fits = rw stored_lem (
    fits.short,
    record {
      wordy = record {
        sec = rw fits.since fits.early;
        usec = elim u [
          | inl micro ↦ rw micro (omega (arith, fits.subsecond))
          | inr nano ↦ rw nano (omega (arith, fits.subsecond))
        ];
        incl = ground (arith, fits.short, fits.enough);
        orig = ground (arith, fits.short, fits.original);
      };
      enough = ground (arith, fits.enough);
      within = fits.within;
    },
  )

  length-came_back : length (came_back unit p).bytes ≡ captured p
  length-came_back = length-take (captured p) p.bytes (ground (arith, fits.enough))

  captured-came_back : captured (came_back unit p) ≡ captured p
  captured-came_back = ground (arith, length-came_back)

  -- What came back fits the same limit.
  pub came_back-Fits : Fits snap (came_back unit p)
  came_back-Fits = record {
    sec = fits.sec;
    since = fits.since;
    early = fits.early;
    subsecond = elim u [
      | inl micro ↦ rw micro (omega (arith, fits.subsecond))
      | inr nano ↦ rw nano (omega (arith, fits.subsecond))
    ];
    short = rw length-came_back (ground (arith, fits.short, fits.enough));
    original = ground (arith, fits.short, fits.original);
    enough = rw length-came_back (omega arith);
    within = rw captured-came_back fits.within;
  }

pub IsStorable-All :
    (now : Time) (unit snap : ℕ)
    → IsUnit unit
    → (ps : List Packet) → All (Fits snap) ps
    → All (IsStorable now unit snap) ps
IsStorable-All now unit snap u [] all = tt
IsStorable-All now unit snap u (p ∷ ps) (fits, all) =
    (IsStorable-Fits now unit snap p u fits, IsStorable-All now unit snap u ps all)

pub map-came_back :
    (now : Time) (unit snap : ℕ)
    → IsUnit unit
    → (ps : List Packet) → All (Fits snap) ps
    → map (λ p. read_back unit (stored now unit p) p.bytes) ps ≡ map (came_back unit) ps
map-came_back now unit snap u [] all = refl
map-came_back now unit snap u (p ∷ ps) (fits, all) =
    ap₂ ◌∷◌ (read_back-stored now unit snap p u fits) (map-came_back now unit snap u ps all)

pub came_back-All :
    (now : Time) (unit snap : ℕ)
    → IsUnit unit
    → (ps : List Packet) → All (Fits snap) ps
    → All (Fits snap) (map (came_back unit) ps)
came_back-All now unit snap u [] all = tt
came_back-All now unit snap u (p ∷ ps) (fits, all) =
    (came_back-Fits now unit snap p u fits, came_back-All now unit snap u ps all)

-- If the options give a good configuration, every packet has a time since 1970 whose seconds fit 32 bits
-- and lengths that fit its header and the limit, and the fuel is above the number of packets, then a file
-- that is written with them is read back as these packets, in order, and then the end of the file. Each
-- has its time but for the part of a unit, its captured bytes, and a header with the seconds, the units
-- and the lengths, where a length that was 0 is the number of its bytes.
pub written_and_read_lem :
    (opts : List WriterOption) (c : WriterConfig) (now : Time) (ps : List Packet) (fuel : ℕ)
    → configured opts default_config ≡ ok c
    → IsConfig c
    → All (Fits c.snap_len) ps
    → length ps < fuel
    → written_and_read fuel opts now ps ≡ ok (some (map (came_back c.resolution) ps, eof))
written_and_read_lem opts c now ps fuel set good all lt =
    read_packets-write_packets opts c now ps fuel set good
      (IsStorable-All now c.resolution c.snap_len good.unit ps all) lt
    ∙ ap (λ l. ok (some (l, eof))) (map-came_back now c.resolution c.snap_len good.unit ps all)
