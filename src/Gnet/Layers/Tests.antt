-- ===== src/Gnet/Layers/Tests.antt =====
-- Runs of the decoders, and their theorems at concrete inputs.
use gk.Common.{ℕ, ◌≡◌, ◌≢◌, refl, [], ◌∷◌, List, none, some, ◌≤◌, length}
use gk.Gnet.Bytes.{u16, u32}
use gk.Gnet.Layers.{Layer, ethernet_type, Decoded, ok, err, stuck, payload, byte_at, icmp}
use gk.Gnet.Layers.Link.{is_vlan, vlan_loop, frame_on, decode_ethernet}
use gk.Gnet.Layers.Network.{at_most, header_options, ipv4_on, decode_ipv4}
use gk.Gnet.Layers.Transport.{payload_end, decode_udp}
use gk.Gnet.Layers.Decode.{
  number, register_layer_decoder, layer_decoders, decode_layer, next_protocol, next_layer, followed,
  chain_on, decode_loop, decode_from, Parsed, noted, all_noted, parsed_of, parse_from,
  parsed_payload,
}
use gk.Gnet.Layers.Headers.{HasHeader, decode_layer-HasHeader}
use gk.Gnet.Layers.Chains.{IsChain, decode_from-IsChain}
use gk.Gnet.Layers.Ends.{decode_from_total}
use gk.Gnet.Layers.Body.{Within, parsed_payload-parse_from}

decoded : Unit {0}
unfolding u16 u32 payload byte_at is_vlan vlan_loop frame_on decode_ethernet at_most header_options
    ipv4_on decode_ipv4 payload_end decode_udp number register_layer_decoder layer_decoders
    decode_layer next_protocol next_layer followed chain_on decode_loop decode_from noted all_noted
    parsed_of parse_from parsed_payload
decoded = tt

-- A datagram of one byte in a network, with two bytes of padding.
abbrev frame : List ℕ
frame =
    1 ∷ 2 ∷ 3 ∷ 4 ∷ 5 ∷ 6 ∷ 7 ∷ 8 ∷ 9 ∷ 10 ∷ 11 ∷ 12 ∷ 0x81 ∷ 0 ∷ 0x20 ∷ 5 ∷ 8 ∷ 0 ∷ 0x45 ∷ 0 ∷ 0
    ∷ 29 ∷ 0 ∷ 1 ∷ 0x40 ∷ 0 ∷ 64 ∷ 17 ∷ 0 ∷ 0 ∷ 10 ∷ 0 ∷ 0 ∷ 1 ∷ 10 ∷ 0 ∷ 0 ∷ 2 ∷ 0 ∷ 53 ∷ 0 ∷ 80
    ∷ 0 ∷ 9 ∷ 0 ∷ 0 ∷ 42 ∷ 0 ∷ 0 ∷ []

abbrev payload_or : Decoded Parsed → List ℕ
payload_or (err e) = []
payload_or (ok p) = elim (parsed_payload p) [ none ↦ [] | some body ↦ body ]

datagram : payload_or (parse_from ethernet_type frame) ≡ 42 ∷ []
unfolding decoded
datagram = refl

layers : length (decode_from ethernet_type frame).0 ≡ 3
unfolding decoded
layers = refl

decode_from-IsChain_example : IsChain frame (decode_from ethernet_type frame).0
decode_from-IsChain_example = decode_from-IsChain ethernet_type frame

decode_from_total_example :
    (length (decode_from ethernet_type frame).0 ≤ 3)
    × ((decode_from ethernet_type frame).1 ≢ some stuck)
decode_from_total_example = decode_from_total ethernet_type frame

abbrev parsed_or : Parsed → Decoded Parsed → Parsed
parsed_or d (ok p) = p
parsed_or d (err e) = d

abbrev nothing : Parsed
nothing = record {
  layers = [];
  ether = none;
  ip4 = none;
  ip6 = none;
  segment = none;
  datagram = none;
  final = none;
}

parsed_payload-parse_from_example :
    (body : List ℕ) × (parsed_payload (parsed_or nothing (parse_from ethernet_type frame))
      ≡ some body)
    × Within body frame
unfolding decoded
parsed_payload-parse_from_example =
    parsed_payload-parse_from ethernet_type frame
      (parsed_or nothing (parse_from ethernet_type frame)) refl

abbrev no_message : Layer
no_message = icmp (record {
  base = record { contents = []; payload_data = [] };
  type = 0;
  code = 0;
  checksum = 0;
  rest = [];
})

abbrev layer_or : Decoded Layer → Layer
layer_or (ok l) = l
layer_or (err e) = no_message

decode_layer-HasHeader_example :
    HasHeader (layer_or (decode_layer layer_decoders ethernet_type frame))
unfolding decoded
decode_layer-HasHeader_example =
    decode_layer-HasHeader ethernet_type frame
      (layer_or (decode_layer layer_decoders ethernet_type frame)) refl
