-- ===== src/Gnet/Layers/Headers.antt =====
-- The lengths of headers: `HeaderLength` of ipv4.go and tcp.go.
use gk.Common.{
  ℕ, ◌+◌, ◌-◌, ◌*◌, ◌/◌, ◌%◌, ◌^◌, ◌≤◌, ◌≡◌, inl, inr, refl, ◌∙◌, Bool, true, false, ◌||◌, ◌==◌,
  ltb, List, [], ◌∷◌, ◌++◌, arith, length, length-append, if◌then◌else◌, Bool-cases, not,
}
use mathlib.Core.Path.{subst}
use gk.Gnet.Bytes.{big, u16, slice, drop, length-take, length-drop}
use gk.Gnet.Layers.{
  LayerType, ethernet_type, ipv4_type, ipv6_type, arp_type, tcp_type, udp_type, icmp_type, dns_type,
  http_type, tls_type, LayerError, truncated_vlan_tag, Decoded, ok, err, ◌>>=◌, Layer, Ipv4, Tcp,
  ethernet, ipv4, ipv6, tcp, udp, icmp, layer_length, byte_at,
}
use gk.Gnet.Layers.Link.{is_vlan, vlan_loop, frame_on, decode_ethernet}
use gk.Gnet.Layers.Network.{at_most, header_options, ipv4_on, decode_ipv4, decode_ipv6}
use gk.Gnet.Layers.Transport.{decode_tcp, decode_udp, decode_icmp}
use gk.Gnet.Layers.Decode.{number, register_layer_decoder, layer_decoders, decode_layer}

unfoldable pub ipv4_header_length : Ipv4 → ℕ
ipv4_header_length l = l.ihl * 4

unfoldable pub tcp_header_length : Tcp → ℕ
tcp_header_length l = l.data_offset * 4

-- The contents are as long as the header says: 14 bytes and 4 for each tag of a frame, the length that
-- the header of IPv4 or TCP gives, with its options after the first 20 bytes, and 40, 8 and 4 bytes.
abbrev pub HasHeader : Layer → Type 0
HasHeader (ethernet l) = layer_length (ethernet l) ≡ 14 + 4 * length l.vlan_ids
HasHeader (ipv4 l) =
    (l.version ≡ 4)
    × (layer_length (ipv4 l) ≡ ipv4_header_length l)
    × (length l.options + 20 ≡ ipv4_header_length l)
HasHeader (ipv6 l) = (l.version ≡ 6) × (layer_length (ipv6 l) ≡ 40)
HasHeader (tcp l) =
    (layer_length (tcp l) ≡ tcp_header_length l) × (length l.options + 20 ≡ tcp_header_length l)
HasHeader (udp l) = layer_length (udp l) ≡ 8
HasHeader (icmp l) = layer_length (icmp l) ≡ 4

abbrev HeaderIfOk : Decoded Layer → Type 0
HeaderIfOk (ok l) = HasHeader l
HeaderIfOk (err e) = Unit

refused :
    (c : Bool) (e : LayerError) (x : Decoded Layer)
    → (c ≡ false → HeaderIfOk x)
    → HeaderIfOk (if c then err e else x)
refused true e x h = tt
refused false e x h = h refl

not_below : (a b : ℕ) → ltb a b ≡ false → b ≤ a
not_below a b e = ground (arith, e)

in_bounds : (size n : ℕ) → (ltb size 20 || ltb n size) ≡ false → (20 ≤ size) × (size ≤ n)
in_bounds size n e = ground (arith, e)

length-header_options :
    (size : ℕ) (bytes : List ℕ)
    → 20 ≤ size
    → size ≤ length bytes
    → length (header_options size bytes) + 20 ≡ size
unfolding header_options
length-header_options size bytes least most = elim (Bool-cases (ltb 0 (size - 20))) [
  | inl some_left ↦
      let cut = length-take (size - 20) (drop 20 bytes) (omega (arith, length-drop 20 bytes)) in
      rw (some_left, header_options) (omega (arith, cut))
  | inr none_left ↦
      let same : size ≡ 20 = ground (arith, none_left, least) in
      rw (none_left, header_options) (omega (arith, same))
]

ipv4_header : (bytes : List ℕ) → HeaderIfOk (decode_ipv4 bytes)
unfolding decode_ipv4 ipv4_on ipv4_header_length layer_length
ipv4_header bytes =
    let size = byte_at 0 bytes % 2 ^ 4 * 4 in
    refused (ltb (length bytes) 20) _ _ λ long.
      refused (not (byte_at 0 bytes / 2 ^ 4 == 4)) _ _ λ version.
        refused (ltb size 20 || ltb (length bytes) size) _ _ λ fits.
          refused (ltb (at_most (u16 big (slice 2 4 bytes)) bytes) size) _ _ λ enough.
            let (least, most) = in_bounds size (length bytes) fits in
            (
              is_version (byte_at 0 bytes / 2 ^ 4) 4 version,
              length-take size bytes most,
              length-header_options size bytes least most,
            )
  where
    is_version : (v n : ℕ) → not (v == n) ≡ false → v ≡ n
    is_version v n e = ground (arith, e)

ipv6_header : (bytes : List ℕ) → HeaderIfOk (decode_ipv6 bytes)
unfolding decode_ipv6 layer_length
ipv6_header bytes = refused (ltb (length bytes) 40) _ _ λ long.
    refused (not (byte_at 0 bytes / 2 ^ 4 == 6)) _ _ λ version. (
      is_version (byte_at 0 bytes / 2 ^ 4) 6 version,
      length-take 40 bytes (not_below (length bytes) 40 long),
    )
  where
    is_version : (v n : ℕ) → not (v == n) ≡ false → v ≡ n
    is_version v n e = ground (arith, e)

tcp_header : (bytes : List ℕ) → HeaderIfOk (decode_tcp bytes)
unfolding decode_tcp tcp_header_length layer_length
tcp_header bytes =
    let size = byte_at 12 bytes / 2 ^ 4 * 4 in
    refused (ltb (length bytes) 20) _ _ λ long.
      refused (ltb size 20 || ltb (length bytes) size) _ _ λ fits.
        let (least, most) = in_bounds size (length bytes) fits in
        (length-take size bytes most, length-header_options size bytes least most)

udp_header : (bytes : List ℕ) → HeaderIfOk (decode_udp bytes)
unfolding decode_udp layer_length
udp_header bytes =
    refused (ltb (length bytes) 8) _ _ λ long. length-take 8 bytes (not_below (length bytes) 8 long)

icmp_header : (bytes : List ℕ) → HeaderIfOk (decode_icmp bytes)
unfolding decode_icmp layer_length
icmp_header bytes =
    refused (ltb (length bytes) 4) _ _ λ long. length-take 4 bytes (not_below (length bytes) 4 long)

abbrev Tagged : Decoded (ℕ × ℕ × List ℕ) → Type 0
Tagged (ok (type, offset, ids)) = offset ≡ 14 + 4 * length ids
Tagged (err e) = Unit

test_result :
    (c : Bool) (x y : Decoded (ℕ × ℕ × List ℕ)) → Tagged x → Tagged y → Tagged (if c then x else y)
test_result true x y h g = h
test_result false x y h g = g

vlan_loop-Tagged :
    (type : ℕ) (rest : List ℕ) (offset : ℕ) (ids : List ℕ)
    → offset ≡ 14 + 4 * length ids
    → Tagged (vlan_loop type rest offset ids)
unfolding vlan_loop
vlan_loop-Tagged type [] offset ids h =
    test_result (is_vlan type) (err truncated_vlan_tag) (ok (type, offset, ids)) tt h
vlan_loop-Tagged type (a ∷ []) offset ids h =
    test_result (is_vlan type) (err truncated_vlan_tag) (ok (type, offset, ids)) tt h
vlan_loop-Tagged type (a ∷ b ∷ []) offset ids h =
    test_result (is_vlan type) (err truncated_vlan_tag) (ok (type, offset, ids)) tt h
vlan_loop-Tagged type (a ∷ b ∷ c ∷ []) offset ids h =
    test_result (is_vlan type) (err truncated_vlan_tag) (ok (type, offset, ids)) tt h
vlan_loop-Tagged type (a ∷ b ∷ c ∷ d ∷ rest) offset ids h =
    let more = ids ++ (u16 big (a ∷ b ∷ []) % 2 ^ 12 ∷ []) in
    test_result (is_vlan type) _ (ok (type, offset, ids))
      (vlan_loop-Tagged (u16 big (c ∷ d ∷ [])) rest (offset + 4) more
        (omega (arith, h, length-append ids (u16 big (a ∷ b ∷ []) % 2 ^ 12 ∷ []))))
      h

frame_header :
    (bytes : List ℕ) (x : Decoded (ℕ × ℕ × List ℕ)) → Tagged x → HeaderIfOk (x >>= frame_on bytes)
unfolding frame_on layer_length
frame_header bytes (err e) h = tt
frame_header bytes (ok (type, offset, ids)) h =
    refused (ltb (length bytes) offset) _ _
      λ long. length-take offset bytes (not_below (length bytes) offset long) ∙ h

ethernet_header : (bytes : List ℕ) → HeaderIfOk (decode_ethernet bytes)
unfolding decode_ethernet
ethernet_header bytes = refused (ltb (length bytes) 14) _ _ λ long.
    frame_header bytes (vlan_loop (u16 big (slice 12 14 bytes)) (drop 14 bytes) 14 [])
      (vlan_loop-Tagged (u16 big (slice 12 14 bytes)) (drop 14 bytes) 14 [] refl)

decode_layer_header :
    (type : LayerType) (bytes : List ℕ) → HeaderIfOk (decode_layer layer_decoders type bytes)
unfolding decode_layer layer_decoders register_layer_decoder number
decode_layer_header ethernet_type bytes = ethernet_header bytes
decode_layer_header ipv4_type bytes = ipv4_header bytes
decode_layer_header ipv6_type bytes = ipv6_header bytes
decode_layer_header arp_type bytes = tt
decode_layer_header tcp_type bytes = tcp_header bytes
decode_layer_header udp_type bytes = udp_header bytes
decode_layer_header icmp_type bytes = icmp_header bytes
decode_layer_header dns_type bytes = tt
decode_layer_header http_type bytes = tt
decode_layer_header tls_type bytes = tt

-- The contents of a layer that is decoded are as long as its header says: 14 bytes and 4 for each tag of
-- a frame; the length that IPv4 and TCP headers give, where the options are all but the first 20 bytes;
-- and 40, 8 and 4 bytes for IPv6, UDP and ICMP. The version of IPv4 is 4 and that of IPv6 is 6.
pub decode_layer-HasHeader :
    (type : LayerType) (bytes : List ℕ) (l : Layer)
    → decode_layer layer_decoders type bytes ≡ ok l
    → HasHeader l
decode_layer-HasHeader type bytes l same = subst HeaderIfOk same (decode_layer_header type bytes)
