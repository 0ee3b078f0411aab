-- ===== src/Gnet/Pcapng/Packets.antt =====
-- The writer's interfaces and packets: `AddInterface` and `WritePacket` of writer.go. No clock is read
-- but through an argument.
use gk.Common.{
  ℕ, ◌+◌, ◌*◌, ◌/◌, ◌%◌, ◌^◌, Bool, true, false, ◌&&◌, ◌==◌, ltb, List, [], ◌∷◌, ◌++◌, none, some,
  length, if◌then◌else◌, ℕ_discrete, not,
}
use gk.Common.Int64.{to_bits}
use gk.Common.Maps.{lookup, insert}
use gk.Gnet.Bytes.{ByteOrder, put16, put32, take}
use gk.Gnet.Times.{Time, is_zero, nanosecond, microsecond}
use gk.Gnet.Pcapng.{
  unknown_interface, unsupported_resolution, Result, ok, err, ◌>>=◌, BlockOption,
  interface_description_block_type, enhanced_packet_block_type, padding, zeros,
}
use gk.Gnet.Pcapng.Options.{encode_options}
use gk.Gnet.Pcapng.Writer.{
  InterfaceConfig, InterfaceOption, InterfaceWriterInfo, Writer, block_bytes, write,
}

unfoldable pub encode_timestamp_resolution : ℕ → Result ℕ
encode_timestamp_resolution d =
    if d == nanosecond
    then ok 9
    else if d == microsecond
    then ok 6
    else err (unsupported_resolution d)

-- The high and the low half of a number of units since 1970.
unfoldable pub halves : ℕ → ℕ × ℕ
halves value = (value / 2 ^ 32 % 2 ^ 32, value % 2 ^ 32)

unfoldable pub encode_timestamp : Time → ℕ → Result (ℕ × ℕ)
unfolding halves to_bits
encode_timestamp t resolution =
    if resolution == nanosecond
    then ok (halves ((to_bits t.unix * 1000000000 + t.nanos) % 2 ^ 64))
    else if resolution == microsecond
    then ok (halves ((to_bits t.unix * 1000000 + t.nanos / 1000) % 2 ^ 64))
    else err (unsupported_resolution resolution)

abbrev pub no_interface_config : InterfaceConfig
no_interface_config = record { options = []; ts_resolution = 0; has_ts_option = false }

unfoldable pub interface_configured : List InterfaceOption → InterfaceConfig → InterfaceConfig
interface_configured [] c = c
interface_configured (opt ∷ opts) c = interface_configured opts (opt c)

unfoldable pub resolution_of : Writer → InterfaceConfig → ℕ
resolution_of w c = if c.ts_resolution == 0 then w.default_res else c.ts_resolution

-- Whether the resolution goes into an option of its own.
unfoldable pub adds_option : InterfaceConfig → ℕ → Bool
adds_option c res =
    if c.has_ts_option
    then false
    else if not (c.ts_resolution == 0)
    then true
    else not (res == microsecond)

unfoldable pub interface_options : InterfaceConfig → ℕ → Result (List BlockOption)
unfolding adds_option encode_timestamp_resolution
interface_options c res =
    if adds_option c res
    then (do
      value ← encode_timestamp_resolution res
      ok (c.options ++ (record { code = 9; value = value ∷ [] } ∷ [])))
    else ok c.options

-- The field `Reserved` is 0.
unfoldable pub interface_payload : ByteOrder → ℕ → ℕ → List BlockOption → List ℕ
unfolding put16 put32 encode_options
interface_payload o link_type snap_len opts =
    put16 o link_type ++ (put16 o 0 ++ (put32 o snap_len ++ encode_options o opts))

unfoldable pub write_interface_block : ℕ → ℕ → List BlockOption → Writer → Writer
unfolding write block_bytes interface_payload
write_interface_block link_type snap_len opts w =
    write
      (block_bytes w.order interface_description_block_type
        (interface_payload w.order link_type snap_len opts))
      w

-- The new interface takes the next number, which wraps around.
unfoldable pub registered : InterfaceWriterInfo → Writer → Writer
unfolding insert
registered info w = record w {
  next_interface = (w.next_interface + 1) % 2 ^ 32;
  interfaces = insert ℕ_discrete w.next_interface info w.interfaces;
}

unfoldable pub add_interface : ℕ → ℕ → List InterfaceOption → Writer → Writer × Result ℕ
unfolding interface_configured resolution_of interface_options write_interface_block registered
add_interface link_type snap_len opts w =
    let c = interface_configured opts no_interface_config in
    let res = resolution_of w c in
    elim (interface_options c res) [
      | err e ↦ (w, err e)
      | ok block_opts ↦ (
        registered (record { link_type = link_type; snap_len = snap_len; ts_res = res })
            (write_interface_block link_type snap_len block_opts w),
        ok w.next_interface,
      )
    ]

-- The fields of a packet block, and the bytes captured.
unfoldable pub packet_payload : ByteOrder → ℕ → ℕ × ℕ → ℕ → ℕ → List ℕ → List BlockOption → List ℕ
unfolding put32 padding encode_options
packet_payload o id (high, low) captured original bytes opts =
    put32 o id
    ++ (put32 o high
        ++ (put32 o low
            ++ (put32 o captured
                ++ (put32 o original
                    ++ (bytes ++ (zeros (padding captured) ++ encode_options o opts))))))

unfoldable pub write_enhanced_packet :
    ℕ → ℕ × ℕ → ℕ → ℕ → List ℕ → List BlockOption → Writer → Writer
unfolding write block_bytes packet_payload
write_enhanced_packet id stamp captured original bytes opts w =
    write
      (block_bytes w.order enhanced_packet_block_type
        (packet_payload w.order id stamp captured original bytes opts))
      w

-- The number of bytes that are kept of a packet, under the limit of the interface if it has one.
unfoldable pub captured_length : ℕ → ℕ → ℕ
captured_length snap_len original =
    if ltb 0 snap_len && ltb snap_len original then snap_len else original

unfoldable pub packet_resolution : Writer → InterfaceWriterInfo → ℕ
packet_resolution w info = if info.ts_res == 0 then w.default_res else info.ts_res

-- A packet without a time has the present. `uint32(len)` is the length modulo 2 ^ 32.
unfoldable pub write_packet_on :
    Time
    → ℕ
    → InterfaceWriterInfo
    → List ℕ
    → Time
    → List BlockOption
    → Writer
    → Writer × Result (Unit {0})
unfolding is_zero packet_resolution encode_timestamp captured_length write_enhanced_packet
write_packet_on now id info bytes ts opts w =
    let original = length bytes % 2 ^ 32 in
    let captured = captured_length info.snap_len original in
    elim (encode_timestamp (if is_zero ts then now else ts) (packet_resolution w info)) [
      | err e ↦ (w, err e)
      | ok stamp ↦
          (write_enhanced_packet id stamp captured original (take captured bytes) opts w, ok tt)
    ]

unfoldable pub write_packet :
    Time → ℕ → List ℕ → Time → List BlockOption → Writer → Writer × Result (Unit {0})
unfolding lookup write_packet_on
write_packet now id bytes ts opts w = elim (lookup ℕ_discrete id w.interfaces) [
  | none ↦ (w, err (unknown_interface id))
  | some info ↦ write_packet_on now id info bytes ts opts w
]
