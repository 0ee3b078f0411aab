-- ===== src/Gnet/Layers.antt =====
-- Layers of a frame: base.go, and the types of the layers beside their decoders. MAC and IP addresses are
-- their bytes.
mod Tests
pub mod Link
pub mod Network
pub mod Transport
pub mod Decode
pub mod Headers
pub mod Split
pub mod Chains
pub mod Body
pub mod Ends
use gk.Common.{ℕ, ◌+◌, ◌*◌, ◌==◌, List, [], ◌∷◌, Option, none, some, length}
use gk.Gnet.Bytes.{drop}

pub data LayerType : Type 0 where
  ethernet_type ipv4_type ipv6_type arp_type tcp_type udp_type icmp_type dns_type http_type
        tls_type :
      LayerType

pub data LayerError : Type 0 where
  too_short : LayerType → ℕ → LayerError
  truncated_vlan_tag malformed_ethernet_payload total_length_too_small header_too_short : LayerError
  invalid_version invalid_header_length : LayerType → ℕ → LayerError
  decoder_not_found : LayerType → LayerError
  stuck : LayerError

-- `stuck` is no error of the source: a loop has run out of fuel.
pub data Decoded {ℓ} (A : Type ℓ) : Type ℓ where
  ok : A → Decoded A
  err : LayerError → Decoded A

infixl 5 ◌>>=◌
abbrev pub ◌>>=◌ {ℓ κ} : {A : Type ℓ} {B : Type κ} → Decoded A → (A → Decoded B) → Decoded B
ok a >>= f = f a
err e >>= f = err e

pub record BaseLayer : Type 0 where
  pub contents : List ℕ
  pub payload_data : List ℕ

pub record Ethernet : Type 0 where
  pub base : BaseLayer
  pub src_mac : List ℕ
  pub dst_mac : List ℕ
  pub ether_type : ℕ
  pub vlan_ids : List ℕ

pub record Ipv4 : Type 0 where
  pub base : BaseLayer
  pub version : ℕ
  pub ihl : ℕ
  pub tos : ℕ
  pub total_length : ℕ
  pub id : ℕ
  pub flags : ℕ
  pub frag_offset : ℕ
  pub ttl : ℕ
  pub protocol : ℕ
  pub checksum : ℕ
  pub src_ip : List ℕ
  pub dst_ip : List ℕ
  pub options : List ℕ

pub record Ipv6 : Type 0 where
  pub base : BaseLayer
  pub version : ℕ
  pub traffic_class : ℕ
  pub flow_label : ℕ
  pub payload_len : ℕ
  pub next_header : ℕ
  pub hop_limit : ℕ
  pub src_ip : List ℕ
  pub dst_ip : List ℕ

pub record Tcp : Type 0 where
  pub base : BaseLayer
  pub src_port : ℕ
  pub dst_port : ℕ
  pub seq : ℕ
  pub ack : ℕ
  pub data_offset : ℕ
  pub flags : ℕ
  pub window : ℕ
  pub checksum : ℕ
  pub urgent : ℕ
  pub options : List ℕ

pub record Udp : Type 0 where
  pub base : BaseLayer
  pub src_port : ℕ
  pub dst_port : ℕ
  pub packet_length : ℕ
  pub checksum : ℕ

pub record Icmp : Type 0 where
  pub base : BaseLayer
  pub type : ℕ
  pub code : ℕ
  pub checksum : ℕ
  pub rest : List ℕ

-- The layers that the package decodes. Those of other decoders are left out.
pub data Layer : Type 0 where
  ethernet : Ethernet → Layer
  ipv4 : Ipv4 → Layer
  ipv6 : Ipv6 → Layer
  tcp : Tcp → Layer
  udp : Udp → Layer
  icmp : Icmp → Layer

abbrev pub base_of : Layer → BaseLayer
base_of (ethernet l) = l.base
base_of (ipv4 l) = l.base
base_of (ipv6 l) = l.base
base_of (tcp l) = l.base
base_of (udp l) = l.base
base_of (icmp l) = l.base

unfoldable pub layer_type : Layer → LayerType
layer_type (ethernet l) = ethernet_type
layer_type (ipv4 l) = ipv4_type
layer_type (ipv6 l) = ipv6_type
layer_type (tcp l) = tcp_type
layer_type (udp l) = udp_type
layer_type (icmp l) = icmp_type

-- `Length` and `Payload`.
unfoldable pub layer_length : Layer → ℕ
layer_length l = length (base_of l).contents

unfoldable pub payload : Layer → List ℕ
payload l = (base_of l).payload_data

-- `data[n]`; an index out of range is a panic in Go, and 0 here.
unfoldable pub byte_at : ℕ → List ℕ → ℕ
byte_at n bytes = head_or (drop n bytes)
  where
    head_or : List ℕ → ℕ
    head_or [] = 0
    head_or (b ∷ rest) = b

abbrev pub Decoder : Type 0
Decoder = List ℕ → Decoded Layer
