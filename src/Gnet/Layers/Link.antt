-- ===== src/Gnet/Layers/Link.antt =====
-- Frames of Ethernet: ethernet.go.
use gk.Common.{ℕ, ◌+◌, ◌%◌, ◌^◌, Bool, ◌||◌, ◌==◌, ltb, List, [], ◌∷◌, ◌++◌, length, if◌then◌else◌}
use gk.Gnet.Bytes.{big, u16, slice, take, drop}
use gk.Gnet.Layers.{
  ethernet_type, too_short, truncated_vlan_tag, malformed_ethernet_payload, Decoded, ok, err, ◌>>=◌,
  Layer, ethernet,
}

abbrev pub ethernet_type_ipv4 : ℕ
ethernet_type_ipv4 = 0x0800

abbrev pub ethernet_type_ipv6 : ℕ
ethernet_type_ipv6 = 0x86dd

abbrev pub ethernet_type_vlan : ℕ
ethernet_type_vlan = 0x8100

abbrev pub ethernet_type_qinq : ℕ
ethernet_type_qinq = 0x88a8

unfoldable pub is_vlan : ℕ → Bool
is_vlan type = type == ethernet_type_vlan || type == ethernet_type_qinq

-- The loop over the tags, on the bytes after an offset: the type that follows, the offset of the payload
-- and the numbers of the networks.
unfoldable pub vlan_loop : ℕ → List ℕ → ℕ → List ℕ → Decoded (ℕ × ℕ × List ℕ)
unfolding is_vlan u16
vlan_loop type (a ∷ b ∷ c ∷ d ∷ rest) offset ids =
    let next =
      vlan_loop (u16 big (c ∷ d ∷ [])) rest (offset + 4)
        (ids ++ (u16 big (a ∷ b ∷ []) % 2 ^ 12 ∷ [])) in
    if is_vlan type then next else ok (type, offset, ids)
vlan_loop type _ offset ids =
    if is_vlan type then err truncated_vlan_tag else ok (type, offset, ids)

unfoldable pub frame_on : List ℕ → ℕ × ℕ × List ℕ → Decoded Layer
frame_on bytes (type, offset, ids) =
    if ltb (length bytes) offset
    then err malformed_ethernet_payload
    else ok (
        ethernet (record {
          base = record { contents = take offset bytes; payload_data = drop offset bytes };
          src_mac = slice 6 12 bytes;
          dst_mac = slice 0 6 bytes;
          ether_type = type;
          vlan_ids = ids;
        }))

unfoldable pub decode_ethernet : List ℕ → Decoded Layer
unfolding vlan_loop frame_on u16
decode_ethernet bytes =
    if ltb (length bytes) 14
    then err (too_short ethernet_type (length bytes))
    else (vlan_loop (u16 big (slice 12 14 bytes)) (drop 14 bytes) 14 [] >>= frame_on bytes)
