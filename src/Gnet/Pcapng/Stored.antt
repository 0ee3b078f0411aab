-- ===== src/Gnet/Pcapng/Stored.antt =====
-- One packet through the file: what the writer stores of it and what the reader makes of that.
use gk.Common.{
  zero, suc, leb, if◌then◌else◌, ℕ, ◌*◌, ◌/◌, ◌%◌, ◌^◌, ◌≤◌, ◌<◌, ◌≡◌, inl, inr, refl, ap, ◌∙◌,
  List, ◌++◌, some, arith, length, All, ℕ_discrete,
}
use gk.Common.Int64.{pos}
use gk.Common.Maps.{lookup}
use gk.Gnet.Bytes.{ByteOrder, take, length-take}
use gk.Gnet.Times.{Time, is_zero, second}
use gk.Gnet.Pcapng.{
  ok, BlockOption, EnhancedPacketBlock, enhanced_packet, enhanced_packet_block_type, timestamp,
}
use gk.Gnet.Pcapng.Options.{IsOption}
use gk.Gnet.Pcapng.Writer.{InterfaceWriterInfo, Writer, block_bytes, write}
use gk.Gnet.Pcapng.Packets.{
  encode_timestamp, halves, captured_length, packet_payload, write_enhanced_packet, write_packet_on,
  write_packet,
}
use gk.Gnet.Pcapng.Packets
use gk.Gnet.Pcapng.Reader.{
  Reader, InterfaceInfo, Packet, packet_of, packet_or, next_block, read_packet,
}
use gk.Gnet.Pcapng.Reader
use gk.Gnet.Pcapng.RoundTrip.{IsPacket, packet_block, next_block-packet_payload}
use gk.Gnet.Pcapng.Envelope.{Fits}
use gk.Gnet.Pcapng.Loop.{read_packet_step}
use gk.Gnet.Pcapng.Timestamps.{IsResolution, units, timestamp_of-encode_timestamp}

-- A number of bytes under a limit, where 0 is no limit.
abbrev pub under_limit : ℕ → ℕ → ℕ
under_limit zero n = n
under_limit (suc limit) n = if leb n (suc limit) then n else suc limit

captured_length_lem : (limit n : ℕ) → captured_length limit n ≡ under_limit limit n
unfolding captured_length
captured_length_lem zero n = ground arith
captured_length_lem (suc limit) n = ground arith

-- The packet that is read where a packet was written: the bytes that the limit of the interface leaves,
-- and the time but for a part of a unit.
abbrev pub stored_packet : InterfaceWriterInfo → ℕ → List ℕ → Time → List BlockOption → Packet
stored_packet info id bytes t opts = record {
  interface_id = id;
  bytes = take (under_limit info.snap_len (length bytes)) bytes;
  timestamp = record { unix = t.unix; nanos = t.nanos / info.ts_res * info.ts_res };
  captured_len = under_limit info.snap_len (length bytes);
  original_len = length bytes;
  options = opts;
}

-- The payload of the block that is written for it.
abbrev pub stored_payload :
    ByteOrder → InterfaceWriterInfo → ℕ → List ℕ → ℕ → ℕ → List BlockOption → List ℕ
stored_payload o info id bytes sec nanos opts =
    packet_payload o id (halves (units info.ts_res sec nanos))
      (captured_length info.snap_len (length bytes)) (length bytes)
      (take (captured_length info.snap_len (length bytes)) bytes) opts

-- A packet since 1970 that fits its fields.
pub record IsStorable (o : ByteOrder) (info : InterfaceWriterInfo) (id : ℕ) (bytes : List ℕ)
    (sec nanos : ℕ) (opts : List BlockOption) : Type 0 where
  pub id_fits : id < 2 ^ 32
  pub bytes_fit : length bytes < 2 ^ 32
  pub subsecond : nanos < second
  pub time_fits : units info.ts_res sec nanos < 2 ^ 64
  pub options_fit : All IsOption opts
  pub block_fits : Fits (stored_payload o info id bytes sec nanos opts)

captured_length_le : (snap n : ℕ) → captured_length snap n ≤ n
unfolding captured_length
captured_length_le snap n = ground arith

resolution_kept :
    (w : Writer) (info : InterfaceWriterInfo)
    → IsResolution info.ts_res
    → Packets.packet_resolution w info ≡ info.ts_res
unfolding Packets.packet_resolution
resolution_kept w info (inl is) = ground (arith, is)
resolution_kept w info (inr is) = ground (arith, is)

pub write_packet_on-stored :
    (now : Time) (w : Writer) (info : InterfaceWriterInfo) (id : ℕ) (bytes : List ℕ) (sec nanos : ℕ)
    (opts : List BlockOption)
    → IsResolution info.ts_res
    → IsStorable w.order info id bytes sec nanos opts
    → write_packet_on now id info bytes (record { unix = pos sec; nanos = nanos }) opts w ≡ (
      write
          (block_bytes w.order enhanced_packet_block_type
            (stored_payload w.order info id bytes sec nanos opts))
          w,
      ok tt,
    )
unfolding write_packet_on write_enhanced_packet is_zero
write_packet_on-stored now w info id bytes sec nanos opts is fit =
    let whole : length bytes % 2 ^ 32 ≡ length bytes = omega (arith, fit.bytes_fit) in
    let encoded =
      (timestamp_of-encode_timestamp sec nanos info.ts_res is fit.subsecond fit.time_fits).0 in
    rw (resolution_kept w info is, write_packet_on, encoded, whole) refl

halves-IsPacket :
    (info : InterfaceWriterInfo) (id : ℕ) (bytes : List ℕ) (v : ℕ)
    → id < 2 ^ 32
    → length bytes < 2 ^ 32
    → IsPacket id
        (halves v)
        (captured_length info.snap_len (length bytes))
        (length bytes)
        (take (captured_length info.snap_len (length bytes)) bytes)
unfolding halves
halves-IsPacket info id bytes v id_fits bytes_fit =
    let le = captured_length_le info.snap_len (length bytes) in
    record {
      id_fits = id_fits;
      high_fits = omega arith;
      low_fits = omega arith;
      captured_fits = omega arith;
      original_fits = bytes_fit;
      size = length-take (captured_length info.snap_len (length bytes)) bytes le;
    }

resolution_read :
    (r : Reader) (id : ℕ) (i : InterfaceInfo) (res : ℕ)
    → lookup ℕ_discrete id r.interfaces ≡ some i
    → i.ts_res ≡ res
    → IsResolution res
    → Reader.packet_resolution r.default_res (lookup ℕ_discrete id r.interfaces) ≡ res
resolution_read r id i res found same (inl is) = rw found (ground (arith, is, same))
resolution_read r id i res found same (inr is) = rw found (ground (arith, is, same))

module _ (r : Reader) (w : Writer) (info : InterfaceWriterInfo) (i : InterfaceInfo) (id : ℕ)
    (bytes : List ℕ) (sec nanos : ℕ) (opts : List BlockOption) (in_order : r.order ≡ some w.order)
    (found : lookup ℕ_discrete id r.interfaces ≡ some i) (same : i.ts_res ≡ info.ts_res)
    (is : IsResolution info.ts_res) (fit : IsStorable w.order info id bytes sec nanos opts) where
  abbrev block_of_packet : EnhancedPacketBlock
  block_of_packet =
      packet_block w.order id (halves (units info.ts_res sec nanos))
        (captured_length info.snap_len (length bytes)) (length bytes)
        (take (captured_length info.snap_len (length bytes)) bytes) opts

  packet_of-stored :
      packet_of r block_of_packet
      ≡ stored_packet info id bytes (record { unix = pos sec; nanos = nanos }) opts
  unfolding packet_of timestamp
  packet_of-stored =
      let back =
        (timestamp_of-encode_timestamp sec nanos info.ts_res is fit.subsecond fit.time_fits).1 in
      rw
        (
          resolution_read r id i info.ts_res found same is,
          back,
          captured_length_lem info.snap_len (length bytes),
        )
        refl

  -- A packet that is stored is read back.
  pub read_packet-stored :
      (rest : List ℕ)
      → read_packet (record r {
        stream =
            block_bytes w.order enhanced_packet_block_type
              (stored_payload w.order info id bytes sec nanos opts)
            ++ rest;
      })
        ≡ (
          record r { stream = rest },
          ok (stored_packet info id bytes (record { unix = pos sec; nanos = nanos }) opts),
        )
  unfolding packet_or
  read_packet-stored rest =
      let stamp = halves (units info.ts_res sec nanos) in
      let captured = captured_length info.snap_len (length bytes) in
      let fields =
        halves-IsPacket info id bytes (units info.ts_res sec nanos) fit.id_fits fit.bytes_fit in
      read_packet_step _ (record r { stream = rest }) (enhanced_packet block_of_packet)
        (next_block-packet_payload r w.order id stamp captured (length bytes) (take captured bytes)
          opts rest in_order fit.block_fits fields fit.options_fit)
      ∙ ap (λ p. (record r { stream = rest }, ok p)) packet_of-stored
