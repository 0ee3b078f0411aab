-- ===== src/Gnet/Pcap/Kept.antt =====
-- `FilterCopy` on a good file.
use mathlib.Core.List.{append_assoc, append-nil}
use gk.Common.{
  ℕ, zero, suc, ◌+◌, ◌<◌, ◌≡◌, refl, sym, ap, ap₂, ◌∙◌, ◌==◌, List, [], ◌∷◌, ◌++◌, none, some,
  arith, length, if◌then◌else◌, Bool-cases, inl, inr, All,
}
use gk.Gnet.Bytes.{read_full}
use gk.Gnet.Times.{Time}
use gk.Gnet.Pcap.{Packet, Result, ok}
use gk.Gnet.Pcap.Writer.{Writer, packet_bytes}
use gk.Gnet.Pcap.Reader.{Reader, read_packet}
use gk.Gnet.Pcap.RoundTrip.{read_back, read_packet-packet_bytes}
use gk.Gnet.Pcap.Files.{stored, stream_of, IsStorable, write_packet-stored}
use gk.Gnet.Pcap.Filter.{after_read, after_read_dropped, after_read_kept, copy_loop}

module _ (keep : List ℕ → ℕ) (now : Time) where
  -- A machine that answers every packet.
  abbrev pub answers : List ℕ → Result ℕ
  answers bytes = ok (keep bytes)

  unfoldable pub kept : List Packet → List Packet
  kept [] = []
  kept (p ∷ ps) = let rest = kept ps in if keep p.bytes == 0 then rest else p ∷ rest

  -- The packets as the reader gives them.
  unfoldable pub read_backs : ℕ → List Packet → List Packet
  read_backs unit [] = []
  read_backs unit (p ∷ ps) = read_back unit (stored now unit p) p.bytes ∷ read_backs unit ps

  -- If the machine answers every packet, the packets of the stream fit the reader, those that are
  -- kept fit the writer, and the fuel is above the number of packets, then exactly the packets that
  -- the machine keeps are written, in order, and counted, and there is no error.
  pub copy_loop-kept :
      (ps : List Packet) (fuel : ℕ) (r : Reader) (w : Writer) (snap count : ℕ)
      → length ps < fuel
      → All (IsStorable now r.ts_unit r.header.snap_len) ps
      → All (IsStorable now w.ts_unit snap) (kept (read_backs r.ts_unit ps))
      → copy_loop answers now fuel
          (record r { stream = stream_of now r.byte_order r.ts_unit ps })
          w
          count
        ≡ some (record {
          written =
              w.written ++ stream_of now w.byte_order w.ts_unit (kept (read_backs r.ts_unit ps));
          count = count + length (kept (read_backs r.ts_unit ps));
          error = none;
        })
  unfolding copy_loop stream_of kept read_backs
  copy_loop-kept ps zero r w snap count lt all good = absurd (omega arith)
  copy_loop-kept [] (suc fuel) r w snap count lt all good =
      unfold read_packet read_full after_read in
      ap₂ (λ l n. some (record { written = l; count = n; error = none }))
        (sym (append-nil w.written)) (omega arith)
  copy_loop-kept (p ∷ ps) (suc fuel) r w snap count lt (fine, all) good =
      let q = read_back r.ts_unit (stored now r.ts_unit p) p.bytes in
      let r' = record r { stream = stream_of now r.byte_order r.ts_unit ps } in
      let later = kept (read_backs r.ts_unit ps) in
      ap (λ x. after_read answers now (copy_loop answers now fuel) x w count)
        (read_packet-packet_bytes r (stored now r.ts_unit p) p.bytes
          (stream_of now r.byte_order r.ts_unit ps) fine.1)
      ∙ elim (Bool-cases (keep q.bytes == 0)) [
        | inl drop ↦ rw drop (
            after_read_dropped answers now (copy_loop answers now fuel) r' q w count (keep q.bytes)
              refl drop
            ∙ copy_loop-kept ps fuel r w snap count (omega arith) all (rw drop at good))
        | inr keeps ↦
            let (fit, goods) : IsStorable now w.ts_unit snap q
                × All (IsStorable now w.ts_unit snap) later =
              rw keeps at good in
            let w' = record w {
              written = w.written ++ packet_bytes w.byte_order (stored now w.ts_unit q) q.bytes;
            } in
            rw keeps (
              after_read_kept answers now (copy_loop answers now fuel) r' q w w' count
                (keep q.bytes) refl keeps (write_packet-stored now w q snap fit)
              ∙ copy_loop-kept ps fuel r w' snap (count + 1) (omega arith) all goods
              ∙ ap₂ (λ l n. some (record { written = l; count = n; error = none }))
                  (append_assoc w.written
                    (packet_bytes w.byte_order (stored now w.ts_unit q) q.bytes)
                    (stream_of now w.byte_order w.ts_unit later))
                  (omega arith))
      ]
