-- ===== src/Gnet/Pcapng/RoundTrip.antt =====
-- What the reader makes of a block that the writer gives.
use gk.Common.{ℕ, ◌+◌, ◌^◌, ◌≤◌, ◌<◌, ◌≡◌, refl, ap, ◌∙◌, List, ◌++◌, some, arith, length, All}
use gk.Gnet.Bytes.{ByteOrder, little, big, put16, put32}
use gk.Gnet.Pcapng.{
  ok, BlockOption, InterfaceDescriptionBlock, EnhancedPacketBlock, interface_description,
  enhanced_packet, interface_description_block_type, enhanced_packet_block_type,
}
use gk.Gnet.Pcapng.Options.{IsOption, encode_options, parse_options-encode_options}
use gk.Gnet.Pcapng.Writer.{total_length, block_bytes}
use gk.Gnet.Pcapng.Packets.{interface_payload, packet_payload}
use gk.Gnet.Pcapng.Blocks.{parse_interface_description_block, parse_enhanced_packet_block}
use gk.Gnet.Pcapng.Reader.{
  Reader, registered, interface_on, packet_block_on, block_on, block_in, next_block,
}
use gk.Gnet.Pcapng.Fields.{packet_fields-append}
use gk.Gnet.Pcapng.Headers.{interface_fields-append}
use gk.Gnet.Pcapng.Envelope.{
  Fits, front_of, body_of, read_full-block_bytes, front_type, front_total, read_body-body_of,
  payload_of-body_of,
}

-- The block of an interface.
abbrev pub interface_block : ByteOrder → ℕ → ℕ → ℕ → List BlockOption → InterfaceDescriptionBlock
interface_block o id link snap opts = record {
  total_length = total_length (interface_payload o link snap opts);
  id = id;
  link_type = link;
  reserved = 0;
  snap_len = snap;
  options = opts;
}

interface_least :
    (o : ByteOrder) (link snap : ℕ) (opts : List BlockOption)
    → 12 ≤ length (interface_payload o link snap opts) + 4
unfolding interface_payload put16 put32
interface_least little link snap opts = omega arith
interface_least big link snap opts = omega arith

parse_interface-body_of :
    (o : ByteOrder) (link snap : ℕ) (opts : List BlockOption)
    → Fits (interface_payload o link snap opts)
    → link < 2 ^ 16
    → snap < 2 ^ 32
    → All IsOption opts
    → parse_interface_description_block
        (total_length (interface_payload o link snap opts))
        o
        (body_of o (interface_payload o link snap opts))
      ≡ ok (interface_block o 0 link snap opts)
unfolding parse_interface_description_block
parse_interface-body_of o link snap opts fits l s all =
    let payload = interface_payload o link snap opts in
    rw (payload_of-body_of 12 o payload fits (interface_least o link snap opts)) (
      unfold interface_payload in
      interface_fields-append o (total_length payload) link snap (encode_options o opts) opts l s
        (parse_options-encode_options o opts all))

-- A block in a section, by its type.
next_block-block_bytes :
    (r : Reader) (o : ByteOrder) (type : ℕ) (payload rest : List ℕ)
    → r.order ≡ some o
    → next_block (record r { stream = block_bytes o type payload ++ rest })
      ≡ block_on o
          (front_of o type payload)
          (body_of o payload ++ rest)
          (record r { stream = block_bytes o type payload ++ rest })
unfolding next_block block_in
next_block-block_bytes r o type payload rest in_order =
    let r' = record r { stream = block_bytes o type payload ++ rest } in
    rw (read_full-block_bytes o type payload rest, next_block)
      (ap (λ m. block_in m (front_of o type payload) (body_of o payload ++ rest) r') in_order)

block_on-interface :
    (o : ByteOrder) (payload rest : List ℕ) (r : Reader)
    → Fits payload
    → block_on o (front_of o interface_description_block_type payload) (body_of o payload ++ rest) r
      ≡ interface_on o (total_length payload) (rest, ok (body_of o payload)) r
unfolding block_on
block_on-interface o payload rest r fits =
    rw
      (
        front_type o interface_description_block_type payload (omega arith),
        front_total o interface_description_block_type payload,
      )
      (ap (λ b. interface_on o (total_length payload) b r) (read_body-body_of o payload rest fits))

block_on-packet :
    (o : ByteOrder) (payload rest : List ℕ) (r : Reader)
    → Fits payload
    → block_on o (front_of o enhanced_packet_block_type payload) (body_of o payload ++ rest) r
      ≡ packet_block_on o (total_length payload) (rest, ok (body_of o payload)) r
unfolding block_on
block_on-packet o payload rest r fits =
    rw
      (
        front_type o enhanced_packet_block_type payload (omega arith),
        front_total o enhanced_packet_block_type payload,
      )
      (ap (λ b. packet_block_on o (total_length payload) b r)
        (read_body-body_of o payload rest fits))

-- An interface that fits its fields is read as it was written, with the next number.
pub next_block-interface_payload :
    (r : Reader) (o : ByteOrder) (link snap : ℕ) (opts : List BlockOption) (rest : List ℕ)
    → r.order ≡ some o
    → Fits (interface_payload o link snap opts)
    → link < 2 ^ 16
    → snap < 2 ^ 32
    → All IsOption opts
    → next_block (record r {
      stream =
          block_bytes o interface_description_block_type (interface_payload o link snap opts)
          ++ rest;
    })
      ≡ (
        registered (interface_block o r.next_interface link snap opts) (record r { stream = rest }),
        ok (interface_description (interface_block o r.next_interface link snap opts)),
      )
unfolding interface_on
next_block-interface_payload r o link snap opts rest in_order fits l s all =
    let payload = interface_payload o link snap opts in
    next_block-block_bytes r o interface_description_block_type payload rest in_order
    ∙ block_on-interface o payload rest
        (record r { stream = block_bytes o interface_description_block_type payload ++ rest }) fits
    ∙ rw (parse_interface-body_of o link snap opts fits l s all, interface_on) refl

-- The block of a packet.
abbrev pub packet_block :
    ByteOrder → ℕ → ℕ × ℕ → ℕ → ℕ → List ℕ → List BlockOption → EnhancedPacketBlock
packet_block o id stamp captured original bytes opts = record {
  total_length = total_length (packet_payload o id stamp captured original bytes opts);
  interface_id = id;
  timestamp_high = stamp.0;
  timestamp_low = stamp.1;
  captured_len = captured;
  original_len = original;
  packet_data = bytes;
  options = opts;
}

packet_least :
    (o : ByteOrder) (id : ℕ) (stamp : ℕ × ℕ) (captured original : ℕ) (bytes : List ℕ)
    (opts : List BlockOption)
    → 24 ≤ length (packet_payload o id stamp captured original bytes opts) + 4
unfolding packet_payload put32
packet_least little id stamp captured original bytes opts = omega arith
packet_least big id stamp captured original bytes opts = omega arith

-- The fields of a packet that are numbers of 32 bits, and the bytes that the header counts.
pub record IsPacket (id : ℕ) (stamp : ℕ × ℕ) (captured original : ℕ) (bytes : List ℕ) : Type 0 where
  pub id_fits : id < 2 ^ 32
  pub high_fits : stamp.0 < 2 ^ 32
  pub low_fits : stamp.1 < 2 ^ 32
  pub captured_fits : captured < 2 ^ 32
  pub original_fits : original < 2 ^ 32
  pub size : length bytes ≡ captured

parse_packet-body_of :
    (o : ByteOrder) (id : ℕ) (stamp : ℕ × ℕ) (captured original : ℕ) (bytes : List ℕ)
    (opts : List BlockOption)
    → Fits (packet_payload o id stamp captured original bytes opts)
    → IsPacket id stamp captured original bytes
    → All IsOption opts
    → parse_enhanced_packet_block
        (total_length (packet_payload o id stamp captured original bytes opts))
        o
        (body_of o (packet_payload o id stamp captured original bytes opts))
      ≡ ok (packet_block o id stamp captured original bytes opts)
unfolding parse_enhanced_packet_block
parse_packet-body_of o id stamp captured original bytes opts fits good all =
    let payload = packet_payload o id stamp captured original bytes opts in
    rw (payload_of-body_of 24 o payload fits (packet_least o id stamp captured original bytes opts))
      (unfold packet_payload in
        packet_fields-append o (total_length payload) id (stamp.0) (stamp.1) captured original bytes
          (encode_options o opts) opts good.id_fits good.high_fits good.low_fits good.captured_fits
          good.original_fits good.size (parse_options-encode_options o opts all))

pub next_block-packet_payload :
    (r : Reader) (o : ByteOrder) (id : ℕ) (stamp : ℕ × ℕ) (captured original : ℕ) (bytes : List ℕ)
    (opts : List BlockOption) (rest : List ℕ)
    → r.order ≡ some o
    → Fits (packet_payload o id stamp captured original bytes opts)
    → IsPacket id stamp captured original bytes
    → All IsOption opts
    → next_block (record r {
      stream =
          block_bytes o enhanced_packet_block_type
            (packet_payload o id stamp captured original bytes opts)
          ++ rest;
    })
      ≡ (
        record r { stream = rest },
        ok (enhanced_packet (packet_block o id stamp captured original bytes opts)),
      )
unfolding packet_block_on
next_block-packet_payload r o id stamp captured original bytes opts rest in_order fits good all =
    let payload = packet_payload o id stamp captured original bytes opts in
    next_block-block_bytes r o enhanced_packet_block_type payload rest in_order
    ∙ block_on-packet o payload rest
        (record r { stream = block_bytes o enhanced_packet_block_type payload ++ rest }) fits
    ∙ rw (parse_packet-body_of o id stamp captured original bytes opts fits good all) refl
