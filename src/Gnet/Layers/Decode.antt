-- ===== src/Gnet/Layers/Decode.antt =====
-- Chains of layers: the decoders of base.go, decode.go and helpers.go. The table of the decoders is the
-- one that the files of the package fill when they are loaded.
use gk.Common.{ℕ, zero, suc, ◌==◌, List, [], ◌∷◌, Option, none, some, if◌then◌else◌}
use gk.Gnet.Layers.{
  LayerType, ethernet_type, ipv4_type, ipv6_type, arp_type, tcp_type, udp_type, icmp_type, dns_type,
  http_type, tls_type, LayerError, decoder_not_found, stuck, Decoded, ok, err, Ethernet, Ipv4, Ipv6,
  Tcp, Udp, Layer, ethernet, ipv4, ipv6, tcp, udp, icmp, Decoder, payload,
}
use gk.Gnet.Layers.Link.{decode_ethernet, ethernet_type_ipv4, ethernet_type_ipv6}
use gk.Gnet.Layers.Network.{decode_ipv4, decode_ipv6, protocol_icmp, protocol_tcp, protocol_udp}
use gk.Gnet.Layers.Transport.{decode_tcp, decode_udp, decode_icmp}

-- The number of a type, by which the table finds it.
unfoldable pub number : LayerType → ℕ
number ethernet_type = 0
number ipv4_type = 1
number ipv6_type = 2
number arp_type = 3
number tcp_type = 4
number udp_type = 5
number icmp_type = 6
number dns_type = 7
number http_type = 8
number tls_type = 9

abbrev pub Table : Type 0
Table = LayerType → Option Decoder

unfoldable pub register_layer_decoder : LayerType → Decoder → Table → Table
unfolding number
register_layer_decoder type d table t = if number t == number type then some d else table t

abbrev empty_table : Table
empty_table t = none

unfoldable pub layer_decoders : Table
unfolding register_layer_decoder
layer_decoders = register_layer_decoder udp_type decode_udp (
    register_layer_decoder tcp_type decode_tcp (
      register_layer_decoder ipv6_type decode_ipv6 (
        register_layer_decoder ipv4_type decode_ipv4 (
          register_layer_decoder icmp_type decode_icmp
            (register_layer_decoder ethernet_type decode_ethernet empty_table)))))

unfoldable pub decode_layer : Table → LayerType → List ℕ → Decoded Layer
decode_layer table type bytes = elim (table type) [
  | none ↦ err (decoder_not_found type)
  | some d ↦ d bytes
]

-- The type of a transport layer, by the number of its protocol.
unfoldable pub next_protocol : ℕ → Option LayerType
next_protocol p =
    if p == protocol_tcp
    then some tcp_type
    else if p == protocol_udp
    then some udp_type
    else if p == protocol_icmp
    then some icmp_type
    else none

-- The type of the layer in the payload of a layer.
unfoldable pub next_layer : Layer → Option LayerType
unfolding next_protocol
next_layer (ethernet l) =
    if l.ether_type == ethernet_type_ipv4
    then some ipv4_type
    else if l.ether_type == ethernet_type_ipv6
    then some ipv6_type
    else none
next_layer (ipv4 l) = next_protocol l.protocol
next_layer (ipv6 l) = next_protocol l.next_header
next_layer (tcp l) = none
next_layer (udp l) = none
next_layer (icmp l) = none

-- The layers that were decoded, and the error that ended the chain.
abbrev pub Chain : Type 0
Chain = List Layer × Option LayerError

abbrev pub before : Layer → Chain → Chain
before l (ls, e) = (l ∷ ls, e)

-- The chain stops where no type follows, and at an empty payload.
unfoldable pub followed : (LayerType → List ℕ → Chain) → Option LayerType → List ℕ → Chain
followed next none bytes = ([], none)
followed next (some type) [] = ([], none)
followed next (some type) (b ∷ bytes) = next type (b ∷ bytes)

-- What follows a layer, with the loop on its payload.
unfoldable pub chain_on : (LayerType → List ℕ → Chain) → Decoded Layer → Chain
unfolding next_layer payload followed
chain_on next (err e) = ([], some e)
chain_on next (ok l) = before l (followed next (next_layer l) (payload l))

unfoldable pub decode_loop : ℕ → Table → LayerType → List ℕ → Chain
unfolding decode_layer chain_on
decode_loop zero table type bytes = ([], some stuck)
decode_loop (suc fuel) table type bytes =
    chain_on (decode_loop fuel table) (decode_layer table type bytes)

-- A frame, a packet and a segment: there are three layers at most.
unfoldable pub decode_from : LayerType → List ℕ → Chain
unfolding decode_loop layer_decoders
decode_from type bytes = decode_loop 3 layer_decoders type bytes

unfoldable pub decode : List ℕ → Chain
unfolding decode_from
decode bytes = decode_from ethernet_type bytes

pub record Parsed : Type 0 where
  pub layers : List Layer
  pub ether : Option Ethernet
  pub ip4 : Option Ipv4
  pub ip6 : Option Ipv6
  pub segment : Option Tcp
  pub datagram : Option Udp
  pub final : Option Layer

unfoldable pub noted : Layer → Parsed → Parsed
noted (ethernet l) p = record p { ether = some l; final = some (ethernet l) }
noted (ipv4 l) p = record p { ip4 = some l; final = some (ipv4 l) }
noted (ipv6 l) p = record p { ip6 = some l; final = some (ipv6 l) }
noted (tcp l) p = record p { segment = some l; final = some (tcp l) }
noted (udp l) p = record p { datagram = some l; final = some (udp l) }
noted (icmp l) p = record p { final = some (icmp l) }

unfoldable pub all_noted : List Layer → Parsed → Parsed
unfolding noted
all_noted [] p = p
all_noted (l ∷ ls) p = all_noted ls (noted l p)

unfoldable pub parsed_of : Chain → Decoded Parsed
unfolding all_noted
parsed_of (ls, some e) = err e
parsed_of (ls, none) = ok (
    all_noted ls (record {
      layers = ls;
      ether = none;
      ip4 = none;
      ip6 = none;
      segment = none;
      datagram = none;
      final = none;
    }))

unfoldable pub parse_from : LayerType → List ℕ → Decoded Parsed
unfolding decode_from parsed_of
parse_from type bytes = parsed_of (decode_from type bytes)

unfoldable pub parse : List ℕ → Decoded Parsed
unfolding parse_from
parse bytes = parse_from ethernet_type bytes

-- `none` is the error that there is no payload.
unfoldable pub parsed_payload : Parsed → Option (List ℕ)
unfolding payload
parsed_payload p = elim p.final [ none ↦ none | some l ↦ some (payload l) ]
