-- ===== src/Gnet/Pcap/Filter.antt =====
-- `FilterCopy`: filter.go. The machine of the package bpf is the caller's: what it makes of a packet is
-- an argument, and so is its refusal of the program. The copy goes on until the end of the stream, with
-- fuel above the number of its bytes.
use gk.Common.{
  ℕ, zero, suc, ◌+◌, ◌≤◌, ◌<◌, ◌≡◌, refl, ap, ◌∙◌, true, false, ◌==◌, ltb, List, [], ◌∷◌, Option,
  none, some, arith, length, Bool-cases, inl, inr, ◌&&◌, ◌⊎◌,
}
use gk.Gnet.Bytes.{big, u32, slice, read_full, drop, ReadFull-cases, read_full-length}
use gk.Gnet.Times.{Time}
use gk.Gnet.Pcap.{PacketHeader, Packet, PcapError, Result, ok, err}
use gk.Gnet.Pcap.Writer.{Writer, new_writer, with_snap_len, with_link_type, write_packet}
use gk.Gnet.Pcap.Reader.{
  Reader, reader_on, is_magic, new_reader, read_packet, packet_on, parse_packet_header,
}

-- What was written, the number of packets that were kept, and the error.
pub record Copied : Type 0 where
  pub written : List ℕ
  pub count : ℕ
  pub error : Option PcapError

unless_eof : PcapError → Option PcapError
unless_eof PcapError.eof = none
unless_eof e = some e

packet_on_shorter :
    (r r' : Reader) (h : PacketHeader) (rest : List ℕ) (p : Packet)
    → packet_on r h rest ≡ (r', ok p)
    → length r'.stream ≤ length rest
unfolding packet_on
packet_on_shorter r r' h rest p e =
    elim (Bool-cases (ltb 0 r.header.snap_len && ltb r.header.snap_len h.incl_len)) [
      | inl exceeded ↦ absurd (cc (rw (exceeded, packet_on) at e))
      | inr within ↦ elim (ReadFull-cases (read_full h.incl_len rest)) [
        | inl (bytes, back, read) ↦
            let same : back ≡ r'.stream =
              ap (λ o. o.0.stream) (rw (within, read, packet_on) at e) in
            omega (arith, ap length same, read_full-length h.incl_len rest bytes back read)
        | inr (inl ended) ↦ absurd (cc (rw (within, ended, packet_on) at e))
        | inr (inr cut) ↦ absurd (cc (rw (within, cut, packet_on) at e))
      ]
    ]

-- A packet takes 16 bytes at least.
read_packet_shorter :
    (r r' : Reader) (p : Packet) → read_packet r ≡ (r', ok p) → length r'.stream < length r.stream
unfolding read_packet
read_packet_shorter r r' p e = elim (ReadFull-cases (read_full 16 r.stream)) [
  | inl (b, rest, read) ↦
      let shorter =
        packet_on_shorter r r' (parse_packet_header r.byte_order b) rest p
          (rw (read, read_packet) at e) in
      omega (arith, read_full-length 16 r.stream b rest read)
  | inr (inl ended) ↦ absurd (cc (rw (ended, read_packet) at e))
  | inr (inr cut) ↦ absurd (cc (rw (cut, read_packet) at e))
]

Result-cases :
    {A : Type 0} (x : Result A) → ((a : A) × (x ≡ ok a)) ⊎ ((e : PcapError) × (x ≡ err e))
Result-cases (ok a) = inl (a, refl)
Result-cases (err e) = inr (e, refl)

module _ (run : List ℕ → Result ℕ) (now : Time) where
  after_write :
      (Reader → Writer → ℕ → Option Copied)
      → Reader
      → ℕ
      → Writer × Result (Unit {0})
      → Option Copied
  after_write next r count (w, ok u) = next r w (count + 1)
  after_write next r count (w, err e) =
      some (record { written = w.written; count = count; error = some e })

  -- What follows one read, with the loop on the rest. A packet that the machine answers with 0 is dropped.
  unfoldable pub after_read :
      (Reader → Writer → ℕ → Option Copied) → Reader × Result Packet → Writer → ℕ → Option Copied
  unfolding unless_eof after_write
  after_read next (r, err e) w count =
      some (record { written = w.written; count = count; error = unless_eof e })
  after_read next (r, ok p) w count = elim (run p.bytes) [
    | err e ↦ some (record { written = w.written; count = count; error = some e })
    | ok keep ↦ elim (keep == 0) [
      | true ↦ next r w count
      | false ↦ after_write next r count (write_packet now (some p) w)
    ]
  ]

  unfoldable pub copy_loop : ℕ → Reader → Writer → ℕ → Option Copied
  copy_loop zero r w count = none
  copy_loop (suc fuel) r w count = after_read (copy_loop fuel) (read_packet r) w count

  -- One turn of the loop on a packet that the machine drops, and on one that it keeps.
  pub after_read_dropped :
      (next : Reader → Writer → ℕ → Option Copied) (r : Reader) (p : Packet) (w : Writer)
      (count k : ℕ)
      → run p.bytes ≡ ok k
      → (k == 0) ≡ true
      → after_read next (r, ok p) w count ≡ next r w count
  unfolding after_read
  after_read_dropped next r p w count k answered drop = rw (answered, drop, after_read) refl

  pub after_read_kept :
      (next : Reader → Writer → ℕ → Option Copied) (r : Reader) (p : Packet) (w w' : Writer)
      (count k : ℕ)
      → run p.bytes ≡ ok k
      → (k == 0) ≡ false
      → write_packet now (some p) w ≡ (w', ok tt)
      → after_read next (r, ok p) w count ≡ next r w' (count + 1)
  unfolding after_read
  after_read_kept next r p w w' count k answered kept wrote =
      rw (answered, kept, after_read) (ap (after_write next r count) wrote)

  abbrev Ends : ℕ → (Reader → Writer → ℕ → Option Copied) → Type 0
  Ends fuel next =
      (r : Reader) (w : Writer) (count : ℕ)
      → length r.stream < fuel
      → (out : Copied) × (next r w count ≡ some out)

  after_write_total :
      (fuel : ℕ) (next : Reader → Writer → ℕ → Option Copied) (r : Reader) (count : ℕ)
      → Ends fuel next
      → length r.stream < fuel
      → (x : Writer × Result (Unit {0})) → (out : Copied) × (after_write next r count x ≡ some out)
  unfolding after_write
  after_write_total fuel next r count ends lt (w, ok u) = ends r w (count + 1) lt
  after_write_total fuel next r count ends lt (w, err e) = (_, refl)

  after_read_total :
      (fuel : ℕ) (next : Reader → Writer → ℕ → Option Copied)
      → Ends fuel next
      → (x : Reader × Result Packet)
      → ((r : Reader) (p : Packet) → x ≡ (r, ok p) → length r.stream < fuel)
      → (w : Writer) (count : ℕ) → (out : Copied) × (after_read next x w count ≡ some out)
  unfolding after_read
  after_read_total fuel next ends (r, err e) shorter w count = (_, refl)
  after_read_total fuel next ends (r, ok p) shorter w count = elim (Result-cases (run p.bytes)) [
    | inr (e, failed) ↦ (
      record { written = w.written; count = count; error = some e },
      rw (failed, after_read) refl,
    )
    | inl (keep, answered) ↦ elim (Bool-cases (keep == 0)) [
      | inl drop ↦
          let (out, same) = ends r w count (shorter r p refl) in
          (out, rw (answered, drop, after_read) same)
      | inr kept ↦
          let (out, same) =
            after_write_total fuel next r count ends (shorter r p refl)
              (write_packet now (some p) w) in
          (out, rw (answered, kept, after_read) same)
    ]
  ]

  -- The loop ends, with fuel above the number of bytes that are left, whatever they are and whatever the
  -- machine answers.
  pub copy_loop_total :
      (fuel : ℕ) (r : Reader) (w : Writer) (count : ℕ)
      → length r.stream < fuel
      → (out : Copied) × (copy_loop fuel r w count ≡ some out)
  unfolding copy_loop
  copy_loop_total zero r w count lt = absurd (omega arith)
  copy_loop_total (suc fuel) r w count lt =
      after_read_total fuel (copy_loop fuel) (copy_loop_total fuel) (read_packet r)
        (λ r' p e. omega (arith, read_packet_shorter r r' p e)) w count

-- `FilterCopy`, with the machine, or with the refusal of the program.
started : Result (List ℕ → Result ℕ) → Time → ℕ → Reader → Writer → Option Copied
started (err e) now fuel r w = some (record { written = w.written; count = 0; error = some e })
started (ok run) now fuel r w = copy_loop run now fuel r w 0

with_writer : Result (List ℕ → Result ℕ) → Time → ℕ → Reader → Result Writer → Option Copied
unfolding started
with_writer vm now fuel r (err e) = some (record { written = []; count = 0; error = some e })
with_writer vm now fuel r (ok w) = started vm now fuel r w

with_reader : Result (List ℕ → Result ℕ) → Time → ℕ → Result Reader → Option Copied
unfolding with_writer
with_reader vm now fuel (err e) = some (record { written = []; count = 0; error = some e })
with_reader vm now fuel (ok r) =
    with_writer vm now fuel r
      (new_writer (with_snap_len r.header.snap_len ∷ with_link_type r.header.network ∷ []))

unfoldable pub filter_copy : Result (List ℕ → Result ℕ) → Time → List ℕ → Option Copied
unfolding with_reader
filter_copy vm now stream = with_reader vm now (suc (length stream)) (new_reader stream)

reader_on_stream : (b rest : List ℕ) (r : Reader) → reader_on b rest ≡ ok r → rest ≡ r.stream
unfolding reader_on
reader_on_stream b rest r e = elim (Bool-cases (is_magic (u32 big (slice 0 4 b)))) [
  | inl good ↦ ap stream_or (rw (good, reader_on) at e)
  | inr bad ↦ absurd (cc (rw (bad, reader_on) at e))
]
  where
    stream_or : Result Reader → List ℕ
    stream_or (ok r') = r'.stream
    stream_or (err e') = []

new_reader_shorter :
    (stream : List ℕ) (r : Reader) → new_reader stream ≡ ok r → length r.stream ≤ length stream
unfolding new_reader
new_reader_shorter stream r e = elim (ReadFull-cases (read_full 24 stream)) [
  | inl (b, rest, read) ↦
      let same = reader_on_stream b rest r (rw (read, new_reader) at e) in
      omega (arith, ap length same, read_full-length 24 stream b rest read)
  | inr (inl ended) ↦ absurd (cc (rw (ended, new_reader) at e))
  | inr (inr cut) ↦ absurd (cc (rw (cut, new_reader) at e))
]

with_writer_total :
    (vm : Result (List ℕ → Result ℕ)) (now : Time) (fuel : ℕ) (r : Reader) (w : Result Writer)
    → length r.stream < fuel
    → (out : Copied) × (with_writer vm now fuel r w ≡ some out)
unfolding with_writer
with_writer_total vm now fuel r (err e) lt = (_, refl)
with_writer_total (err e) now fuel r (ok w) lt = (_, refl)
with_writer_total (ok run) now fuel r (ok w) lt = copy_loop_total run now fuel r w 0 lt

-- `FilterCopy` ends on every stream, whatever the machine answers: the fuel is enough.
pub filter_copy_total :
    (vm : Result (List ℕ → Result ℕ)) (now : Time) (stream : List ℕ)
    → (out : Copied) × (filter_copy vm now stream ≡ some out)
unfolding filter_copy
filter_copy_total vm now stream = elim (Result-cases (new_reader stream)) [
  | inl (r, opened) ↦
      let (out, same) =
        with_writer_total vm now (suc (length stream)) r
          (new_writer (with_snap_len r.header.snap_len ∷ with_link_type r.header.network ∷ []))
          (omega (arith, new_reader_shorter stream r opened)) in
      (out, rw (opened, filter_copy, with_reader) same)
  | inr (e, refused) ↦ (
    record { written = []; count = 0; error = some e },
    rw (refused, filter_copy, with_reader) refl,
  )
]

-- Where the file and the options of the copy are good, the loop runs on what follows the header.
pub filter_copy-copy_loop :
    (run : List ℕ → Result ℕ) (now : Time) (stream : List ℕ) (r : Reader) (w : Writer)
    → new_reader stream ≡ ok r
    → new_writer (with_snap_len r.header.snap_len ∷ with_link_type r.header.network ∷ []) ≡ ok w
    → filter_copy (ok run) now stream ≡ copy_loop run now (suc (length stream)) r w 0
unfolding filter_copy with_reader with_writer started
filter_copy-copy_loop run now stream r w opened made =
    ap (with_reader (ok run) now (suc (length stream))) opened
    ∙ ap (with_writer (ok run) now (suc (length stream)) r) made
