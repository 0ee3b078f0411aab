-- ===== src/Gnet/Pcapng/Filter.antt =====
-- `FilterCopy`: filter.go. The machine of the package bpf is the caller's: what it makes of a packet is
-- an argument, and so is its refusal of the program. The copy goes on until the end of the stream, with
-- fuel above the number of its bytes.
use gk.Common.{
  ℕ, zero, suc, ◌+◌, ◌<◌, ◌≡◌, ◌⊎◌, inl, inr, refl, true, false, Bool-cases, ◌==◌, List, [], ◌∷◌,
  Option, none, some, arith, length, if◌then◌else◌, ℕ_discrete,
}
use gk.Common.Maps.{Map, lookup, insert}
use gk.Gnet.Times.{Time, microsecond}
use gk.Gnet.Pcapng.{PcapngError, Result, ok, err}
use gk.Gnet.Pcapng.Writer.{Writer, new_writer, with_interface_timestamp_resolution}
use gk.Gnet.Pcapng.Packets.{add_interface, write_packet}
use gk.Gnet.Pcapng.Reader.{Reader, Packet, new_reader, interface_info, read_packet}
use gk.Gnet.Pcapng.Loop.{read_packet_shorter}

-- What was written, the number of packets that were kept, and the error.
pub record Copied : Type 0 where
  pub written : List ℕ
  pub count : ℕ
  pub error : Option PcapngError

unless_eof : PcapngError → Option PcapngError
unless_eof PcapngError.eof = none
unless_eof e = some e

-- The link type, the limit and the resolution for the interface of the copy.
unfoldable pub copied_info : Option (ℕ × ℕ × ℕ) → ℕ × ℕ × ℕ
copied_info none = (1, 65535, microsecond)
copied_info (some (link, snap, res)) = (link, snap, if res == 0 then microsecond else res)

-- The state of the loop: the writer, the numbers of the interfaces in the copy, and the count.
pub record Copying : Type 0 where
  pub writer : Writer
  pub ids : Map ℕ ℕ
  pub count : ℕ

-- The interface of a packet in the copy, which is added if it is not there yet.
unfoldable pub interface_for : Reader → ℕ → Copying → Copying × Result ℕ
unfolding lookup insert copied_info interface_info add_interface
interface_for r id c = elim (lookup ℕ_discrete id c.ids) [
  | some new ↦ (c, ok new)
  | none ↦ added (copied_info (interface_info id r))
]
  where
    registered : Writer × Result ℕ → Copying × Result ℕ
    registered (w, err e) = (record c { writer = w }, err e)
    registered (w, ok new) = (record c { writer = w; ids = insert ℕ_discrete id new c.ids }, ok new)

    added : ℕ × ℕ × ℕ → Copying × Result ℕ
    added (link, snap, res) =
        registered (add_interface link snap (with_interface_timestamp_resolution res ∷ []) c.writer)

abbrev ended : Copying → Option PcapngError → Option Copied
ended c e = some (record { written = c.writer.written; count = c.count; error = e })

Result-cases :
    {A : Type 0} (x : Result A) → ((a : A) × (x ≡ ok a)) ⊎ ((e : PcapngError) × (x ≡ err e))
Result-cases (ok a) = inl (a, refl)
Result-cases (err e) = inr (e, refl)

module _ (run : List ℕ → Result ℕ) (now : Time) where
  after_write :
      (Reader → Copying → Option Copied)
      → Reader
      → Copying
      → Writer × Result (Unit {0})
      → Option Copied
  after_write next r c (w, ok u) = next r (record c { writer = w; count = c.count + 1 })
  after_write next r c (w, err e) = ended (record c { writer = w }) (some e)

  -- What the machine answers, once the packet has an interface. A packet that it answers with 0 is dropped.
  after_interface :
      (Reader → Copying → Option Copied) → Reader → Packet → Copying × Result ℕ → Option Copied
  unfolding after_write write_packet
  after_interface next r p (c, err e) = ended c (some e)
  after_interface next r p (c, ok id) = elim (run p.bytes) [
    | err e ↦ ended c (some e)
    | ok keep ↦ elim (keep == 0) [
      | true ↦ next r c
      | false ↦ after_write next r c (write_packet now id p.bytes p.timestamp [] c.writer)
    ]
  ]

  after_read : (Reader → Copying → Option Copied) → Reader × Result Packet → Copying → Option Copied
  unfolding unless_eof after_interface interface_for
  after_read next (r, err e) c = ended c (unless_eof e)
  after_read next (r, ok p) c = after_interface next r p (interface_for r p.interface_id c)

  unfoldable pub copy_loop : ℕ → Reader → Copying → Option Copied
  unfolding after_read read_packet
  copy_loop zero r c = none
  copy_loop (suc fuel) r c = after_read (copy_loop fuel) (read_packet r) c

  abbrev Ends : ℕ → (Reader → Copying → Option Copied) → Type 0
  Ends fuel next =
      (r : Reader) (c : Copying) → length r.stream < fuel → (out : Copied) × (next r c ≡ some out)

  after_write_total :
      (fuel : ℕ) (next : Reader → Copying → Option Copied) (r : Reader) (c : Copying)
      → Ends fuel next
      → length r.stream < fuel
      → (x : Writer × Result (Unit {0})) → (out : Copied) × (after_write next r c x ≡ some out)
  unfolding after_write
  after_write_total fuel next r c ends lt (w, ok u) =
      ends r (record c { writer = w; count = c.count + 1 }) lt
  after_write_total fuel next r c ends lt (w, err e) = (_, refl)

  after_interface_total :
      (fuel : ℕ) (next : Reader → Copying → Option Copied) (r : Reader) (p : Packet)
      → Ends fuel next
      → length r.stream < fuel
      → (x : Copying × Result ℕ) → (out : Copied) × (after_interface next r p x ≡ some out)
  unfolding after_interface
  after_interface_total fuel next r p ends lt (c, err e) = (_, refl)
  after_interface_total fuel next r p ends lt (c, ok id) = elim (Result-cases (run p.bytes)) [
    | inr (e, failed) ↦ (
      record { written = c.writer.written; count = c.count; error = some e },
      rw (failed, after_interface) refl,
    )
    | inl (keep, answered) ↦ elim (Bool-cases (keep == 0)) [
      | inl drop ↦ let (out, same) = ends r c lt in (out, rw (answered, drop, after_interface) same)
      | inr kept ↦
          let (out, same) =
            after_write_total fuel next r c ends lt
              (write_packet now id p.bytes p.timestamp [] c.writer) in
          (out, rw (answered, kept, after_interface) same)
    ]
  ]

  after_read_total :
      (fuel : ℕ) (next : Reader → Copying → Option Copied)
      → Ends fuel next
      → (x : Reader × Result Packet)
      → ((r : Reader) (p : Packet) → x ≡ (r, ok p) → length r.stream < fuel)
      → (c : Copying) → (out : Copied) × (after_read next x c ≡ some out)
  unfolding after_read
  after_read_total fuel next ends (r, err e) shorter c = (_, refl)
  after_read_total fuel next ends (r, ok p) shorter c =
      after_interface_total fuel next r p ends (shorter r p refl) (interface_for r p.interface_id c)

  copy_loop_total :
      (fuel : ℕ) (r : Reader) (c : Copying)
      → length r.stream < fuel
      → (out : Copied) × (copy_loop fuel r c ≡ some out)
  unfolding copy_loop
  copy_loop_total zero r c lt = absurd (omega arith)
  copy_loop_total (suc fuel) r c lt =
      after_read_total fuel (copy_loop fuel) (copy_loop_total fuel) (read_packet r)
        (λ r' p e. omega (arith, read_packet_shorter r r' p e)) c

-- `FilterCopy`, with the machine, or with the refusal of the program.
started : Result (List ℕ → Result ℕ) → Time → List ℕ → Result Writer → Option Copied
unfolding new_reader copy_loop
started vm now stream (err e) = some (record { written = []; count = 0; error = some e })
started (err e) now stream (ok w) = some (record { written = w.written; count = 0; error = some e })
started (ok run) now stream (ok w) =
    copy_loop run now (suc (length stream)) (new_reader stream)
      (record { writer = w; ids = []; count = 0 })

unfoldable pub filter_copy : Result (List ℕ → Result ℕ) → Time → List ℕ → Option Copied
unfolding started
filter_copy vm now stream = started vm now stream (new_writer [])

started_total :
    (vm : Result (List ℕ → Result ℕ)) (now : Time) (stream : List ℕ) (w : Result Writer)
    → (out : Copied) × (started vm now stream w ≡ some out)
unfolding started new_reader
started_total vm now stream (err e) = (_, refl)
started_total (err e) now stream (ok w) = (_, refl)
started_total (ok run) now stream (ok w) =
    copy_loop_total run now (suc (length stream)) (new_reader stream)
      (record { writer = w; ids = []; count = 0 }) (omega arith)

-- The copy of a pcapng stream ends on every stream, whatever the machine answers: the fuel is enough.
pub filter_copy_ng_total :
    (vm : Result (List ℕ → Result ℕ)) (now : Time) (stream : List ℕ)
    → (out : Copied) × (filter_copy vm now stream ≡ some out)
unfolding filter_copy
filter_copy_ng_total vm now stream = started_total vm now stream (new_writer [])
