-- ===== src/Gnet/Layers/Split.antt =====
-- The parts of the bytes that a layer is made of.
use mathlib.Core.List.{append-nil}
use gk.Common.{
  ℕ, ◌+◌, ◌-◌, ◌*◌, ◌/◌, ◌%◌, ◌^◌, ◌≤◌, ◌≡◌, refl, ap, ◌∙◌, Bool, true, false, ◌||◌, ◌==◌, ltb,
  List, [], ◌++◌, arith, length, if◌then◌else◌, not,
}
use gk.Gnet.Bytes.{big, u16, slice, take, drop, take-append-drop, drop-add}
use gk.Gnet.Layers.{
  LayerType, ethernet_type, ipv4_type, ipv6_type, arp_type, tcp_type, udp_type, icmp_type, dns_type,
  http_type, tls_type, LayerError, Decoded, ok, err, ◌>>=◌, Layer, base_of, byte_at,
}
use gk.Gnet.Layers.Link.{vlan_loop, frame_on, decode_ethernet}
use gk.Gnet.Layers.Network.{at_most, ipv4_on, decode_ipv4, decode_ipv6}
use gk.Gnet.Layers.Transport.{decode_tcp, payload_end, decode_udp, decode_icmp}
use gk.Gnet.Layers.Decode.{number, register_layer_decoder, layer_decoders, decode_layer}

-- The contents are the front of the bytes and the payload is next; what is left is a trailer.
abbrev pub Splits : List ℕ → Layer → Type 0
Splits bytes l =
    (trailer : List ℕ) × ((base_of l).contents ++ ((base_of l).payload_data ++ trailer) ≡ bytes)

abbrev pub SplitsIfOk : List ℕ → Decoded Layer → Type 0
SplitsIfOk bytes (ok l) = Splits bytes l
SplitsIfOk bytes (err e) = Unit

slice-drop :
    (low high : ℕ) (bytes : List ℕ)
    → low ≤ high
    → slice low high bytes ++ drop high bytes ≡ drop low bytes
slice-drop low high bytes h =
    let sum : high ≡ low + (high - low) = omega arith in
    ap (λ n. slice low high bytes ++ drop n bytes) sum
    ∙ ap (λ l. slice low high bytes ++ l) (drop-add low (high - low) bytes)
    ∙ take-append-drop (high - low) (drop low bytes)

-- A payload up to the end, and one that ends before.
drop_splits :
    (n : ℕ) (bytes : List ℕ)
    → (trailer : List ℕ) × (take n bytes ++ (drop n bytes ++ trailer) ≡ bytes)
drop_splits n bytes =
    ([], ap (λ l. take n bytes ++ l) (append-nil (drop n bytes)) ∙ take-append-drop n bytes)

slice_splits :
    (low high : ℕ) (bytes : List ℕ)
    → low ≤ high
    → (trailer : List ℕ) × (take low bytes ++ (slice low high bytes ++ trailer) ≡ bytes)
slice_splits low high bytes h = (
  drop high bytes,
  ap (λ l. take low bytes ++ l) (slice-drop low high bytes h) ∙ take-append-drop low bytes,
)

refused :
    (bytes : List ℕ) (c : Bool) (e : LayerError) (x : Decoded Layer)
    → (c ≡ false → SplitsIfOk bytes x)
    → SplitsIfOk bytes (if c then err e else x)
refused bytes true e x h = tt
refused bytes false e x h = h refl

frame_splits :
    (bytes : List ℕ) (x : Decoded (ℕ × ℕ × List ℕ)) → SplitsIfOk bytes (x >>= frame_on bytes)
unfolding frame_on
frame_splits bytes (err e) = tt
frame_splits bytes (ok (type, offset, ids)) =
    refused bytes (ltb (length bytes) offset) _ _ λ long. drop_splits offset bytes

ethernet_splits : (bytes : List ℕ) → SplitsIfOk bytes (decode_ethernet bytes)
unfolding decode_ethernet
ethernet_splits bytes =
    refused bytes (ltb (length bytes) 14) _ _
      λ long. frame_splits bytes (vlan_loop (u16 big (slice 12 14 bytes)) (drop 14 bytes) 14 [])

ipv4_splits : (bytes : List ℕ) → SplitsIfOk bytes (decode_ipv4 bytes)
unfolding decode_ipv4 ipv4_on
ipv4_splits bytes =
    let size = byte_at 0 bytes % 2 ^ 4 * 4 in
    let total = at_most (u16 big (slice 2 4 bytes)) bytes in
    refused bytes (ltb (length bytes) 20) _ _ λ long.
      refused bytes (not (byte_at 0 bytes / 2 ^ 4 == 4)) _ _ λ version.
        refused bytes (ltb size 20 || ltb (length bytes) size) _ _ λ fits.
          refused bytes (ltb total size) _ _
            λ enough. slice_splits size total bytes (not_below total size enough)
  where
    not_below : (a b : ℕ) → ltb a b ≡ false → b ≤ a
    not_below a b e = ground (arith, e)

least : (n : ℕ) (bytes : List ℕ) → ltb (length bytes) 40 ≡ false → 40 ≤ at_most (40 + n) bytes
unfolding at_most
least n bytes long = ground arith

payload_end_least : (size total : ℕ) → 8 ≤ payload_end size total
unfolding payload_end
payload_end_least size total = ground arith

ipv6_splits : (bytes : List ℕ) → SplitsIfOk bytes (decode_ipv6 bytes)
unfolding decode_ipv6
ipv6_splits bytes = refused bytes (ltb (length bytes) 40) _ _ λ long.
    refused bytes (not (byte_at 0 bytes / 2 ^ 4 == 6)) _ _ λ version.
      slice_splits 40 (at_most (40 + u16 big (slice 4 6 bytes)) bytes) bytes
        (least (u16 big (slice 4 6 bytes)) bytes long)

udp_splits : (bytes : List ℕ) → SplitsIfOk bytes (decode_udp bytes)
unfolding decode_udp
udp_splits bytes = refused bytes (ltb (length bytes) 8) _ _ λ long.
    slice_splits 8 (payload_end (u16 big (slice 4 6 bytes)) (length bytes)) bytes
      (payload_end_least (u16 big (slice 4 6 bytes)) (length bytes))

tcp_splits : (bytes : List ℕ) → SplitsIfOk bytes (decode_tcp bytes)
unfolding decode_tcp
tcp_splits bytes =
    let size = byte_at 12 bytes / 2 ^ 4 * 4 in
    refused bytes (ltb (length bytes) 20) _ _ λ long.
      refused bytes (ltb size 20 || ltb (length bytes) size) _ _ λ fits. drop_splits size bytes

icmp_splits : (bytes : List ℕ) → SplitsIfOk bytes (decode_icmp bytes)
unfolding decode_icmp
icmp_splits bytes = refused bytes (ltb (length bytes) 4) _ _ λ long. drop_splits 4 bytes

-- Whatever its type, a layer that is decoded is made of the front of the bytes and of a payload that is
-- next to it.
pub decode_layer-SplitsIfOk :
    (type : LayerType) (bytes : List ℕ) → SplitsIfOk bytes (decode_layer layer_decoders type bytes)
unfolding decode_layer layer_decoders register_layer_decoder number
decode_layer-SplitsIfOk ethernet_type bytes = ethernet_splits bytes
decode_layer-SplitsIfOk ipv4_type bytes = ipv4_splits bytes
decode_layer-SplitsIfOk ipv6_type bytes = ipv6_splits bytes
decode_layer-SplitsIfOk arp_type bytes = tt
decode_layer-SplitsIfOk tcp_type bytes = tcp_splits bytes
decode_layer-SplitsIfOk udp_type bytes = udp_splits bytes
decode_layer-SplitsIfOk icmp_type bytes = icmp_splits bytes
decode_layer-SplitsIfOk dns_type bytes = tt
decode_layer-SplitsIfOk http_type bytes = tt
decode_layer-SplitsIfOk tls_type bytes = tt
