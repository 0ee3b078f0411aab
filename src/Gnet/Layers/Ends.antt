-- ===== src/Gnet/Layers/Ends.antt =====
-- The length of the chains of decode.go.
use mathlib.Core.Path.{subst}
use gk.Common.{
  ℕ, zero, suc, ◌+◌, ◌*◌, ◌/◌, ◌%◌, ◌^◌, ◌≤◌, ◌<◌, ◌≡◌, ◌≢◌, refl, ap, Bool, true, false, ◌||◌,
  ◌==◌, ltb, List, [], ◌∷◌, ◌++◌, Option, none, some, arith, length, if◌then◌else◌, not,
}
use gk.Gnet.Bytes.{big, u16, slice, drop}
use gk.Gnet.Layers.{
  LayerType, ethernet_type, ipv4_type, ipv6_type, arp_type, tcp_type, udp_type, icmp_type, dns_type,
  http_type, tls_type, LayerError, too_short, truncated_vlan_tag, stuck, Decoded, ok, err, ◌>>=◌,
  Layer, ethernet, ipv4, ipv6, tcp, udp, icmp, layer_type, payload, byte_at,
}
use gk.Gnet.Layers.Link.{is_vlan, vlan_loop, frame_on, decode_ethernet}
use gk.Gnet.Layers.Network.{at_most, ipv4_on, decode_ipv4, decode_ipv6}
use gk.Gnet.Layers.Transport.{decode_tcp, decode_udp, decode_icmp}
use gk.Gnet.Layers.Decode.{
  number, register_layer_decoder, layer_decoders, decode_layer, next_protocol, next_layer, Chain,
  followed, chain_on, decode_loop, decode_from,
}

abbrev is_stuck : LayerError → Bool
is_stuck stuck = true
is_stuck e = false

-- A layer that is decoded has the type that was asked for, and no error is that of a fuel.
abbrev Typed : LayerType → Decoded Layer → Type 0
Typed type (ok l) = layer_type l ≡ type
Typed type (err e) = is_stuck e ≡ false

refused :
    (type : LayerType) (c : Bool) (e : LayerError) (x : Decoded Layer)
    → is_stuck e ≡ false
    → Typed type x
    → Typed type (if c then err e else x)
refused type true e x h g = h
refused type false e x h g = g

-- A test among results that are typed.
either_result :
    {A : Type 0} (P : Decoded A → Type 0) (c : Bool) (x y : Decoded A)
    → P x
    → P y
    → P (if c then x else y)
either_result P true x y h g = h
either_result P false x y h g = g

abbrev Unstuck : {A : Type 0} → Decoded A → Type 0
Unstuck (ok a) = Unit
Unstuck (err e) = is_stuck e ≡ false

vlan_loop_total :
    (type : ℕ) (rest : List ℕ) (offset : ℕ) (ids : List ℕ)
    → Unstuck (vlan_loop type rest offset ids)
unfolding vlan_loop
vlan_loop_total type [] offset ids =
    either_result Unstuck (is_vlan type) (err truncated_vlan_tag) (ok (type, offset, ids)) refl tt
vlan_loop_total type (a ∷ []) offset ids =
    either_result Unstuck (is_vlan type) (err truncated_vlan_tag) (ok (type, offset, ids)) refl tt
vlan_loop_total type (a ∷ b ∷ []) offset ids =
    either_result Unstuck (is_vlan type) (err truncated_vlan_tag) (ok (type, offset, ids)) refl tt
vlan_loop_total type (a ∷ b ∷ c ∷ []) offset ids =
    either_result Unstuck (is_vlan type) (err truncated_vlan_tag) (ok (type, offset, ids)) refl tt
vlan_loop_total type (a ∷ b ∷ c ∷ d ∷ rest) offset ids =
    either_result Unstuck (is_vlan type) _ (ok (type, offset, ids))
      (vlan_loop_total (u16 big (c ∷ d ∷ [])) rest (offset + 4)
        (ids ++ (u16 big (a ∷ b ∷ []) % 2 ^ 12 ∷ [])))
      tt

frame_on-Typed :
    (bytes : List ℕ) (x : Decoded (ℕ × ℕ × List ℕ))
    → Unstuck x
    → Typed ethernet_type (x >>= frame_on bytes)
unfolding frame_on layer_type
frame_on-Typed bytes (err e) h = h
frame_on-Typed bytes (ok (type, offset, ids)) h =
    either_result (Typed ethernet_type) (ltb (length bytes) offset) _ _ refl refl

decode_ethernet-Typed : (bytes : List ℕ) → Typed ethernet_type (decode_ethernet bytes)
unfolding decode_ethernet
decode_ethernet-Typed bytes =
    either_result (Typed ethernet_type) (ltb (length bytes) 14)
      (err (too_short ethernet_type (length bytes)))
      (vlan_loop (u16 big (slice 12 14 bytes)) (drop 14 bytes) 14 [] >>= frame_on bytes) refl
      (frame_on-Typed bytes (vlan_loop (u16 big (slice 12 14 bytes)) (drop 14 bytes) 14 [])
        (vlan_loop_total (u16 big (slice 12 14 bytes)) (drop 14 bytes) 14 []))

decode_ipv4-Typed : (bytes : List ℕ) → Typed ipv4_type (decode_ipv4 bytes)
unfolding decode_ipv4 ipv4_on layer_type
decode_ipv4-Typed bytes =
    let size = byte_at 0 bytes % 2 ^ 4 * 4 in
    either_result (Typed ipv4_type) (ltb (length bytes) 20) _ _ refl (
      either_result (Typed ipv4_type) (not (byte_at 0 bytes / 2 ^ 4 == 4)) _ _ refl (
        either_result (Typed ipv4_type) (ltb size 20 || ltb (length bytes) size) _ _ refl (
          either_result (Typed ipv4_type) (ltb (at_most (u16 big (slice 2 4 bytes)) bytes) size) _ _
            refl refl)))

decode_ipv6-Typed : (bytes : List ℕ) → Typed ipv6_type (decode_ipv6 bytes)
unfolding decode_ipv6 layer_type
decode_ipv6-Typed bytes =
    either_result (Typed ipv6_type) (ltb (length bytes) 40) _ _ refl
      (either_result (Typed ipv6_type) (not (byte_at 0 bytes / 2 ^ 4 == 6)) _ _ refl refl)

decode_tcp-Typed : (bytes : List ℕ) → Typed tcp_type (decode_tcp bytes)
unfolding decode_tcp layer_type
decode_tcp-Typed bytes =
    let size = byte_at 12 bytes / 2 ^ 4 * 4 in
    either_result (Typed tcp_type) (ltb (length bytes) 20) _ _ refl
      (either_result (Typed tcp_type) (ltb size 20 || ltb (length bytes) size) _ _ refl refl)

decode_udp-Typed : (bytes : List ℕ) → Typed udp_type (decode_udp bytes)
unfolding decode_udp layer_type
decode_udp-Typed bytes = either_result (Typed udp_type) (ltb (length bytes) 8) _ _ refl refl

decode_icmp-Typed : (bytes : List ℕ) → Typed icmp_type (decode_icmp bytes)
unfolding decode_icmp layer_type
decode_icmp-Typed bytes = either_result (Typed icmp_type) (ltb (length bytes) 4) _ _ refl refl

decode_layer-Typed :
    (type : LayerType) (bytes : List ℕ) → Typed type (decode_layer layer_decoders type bytes)
unfolding decode_layer layer_decoders register_layer_decoder number
decode_layer-Typed ethernet_type bytes = decode_ethernet-Typed bytes
decode_layer-Typed ipv4_type bytes = decode_ipv4-Typed bytes
decode_layer-Typed ipv6_type bytes = decode_ipv6-Typed bytes
decode_layer-Typed arp_type bytes = refl
decode_layer-Typed tcp_type bytes = decode_tcp-Typed bytes
decode_layer-Typed udp_type bytes = decode_udp-Typed bytes
decode_layer-Typed icmp_type bytes = decode_icmp-Typed bytes
decode_layer-Typed dns_type bytes = refl
decode_layer-Typed http_type bytes = refl
decode_layer-Typed tls_type bytes = refl

-- The number of layers that can follow a layer.
abbrev above : LayerType → ℕ
above ethernet_type = 2
above ipv4_type = 1
above ipv6_type = 1
above type = 0

abbrev Above : ℕ → Option LayerType → Type 0
Above n none = Unit
Above n (some type) = above type < n

either_type :
    (n : ℕ) (c : Bool) (x y : Option LayerType)
    → Above n x
    → Above n y
    → Above n (if c then x else y)
either_type n true x y h g = h
either_type n false x y h g = g

next_protocol-Above : (p : ℕ) → Above 1 (next_protocol p)
unfolding next_protocol
next_protocol-Above p = either_type 1 (p == 6) (some tcp_type) _ (omega arith) (
    either_type 1 (p == 17) (some udp_type) _ (omega arith)
      (either_type 1 (p == 1) (some icmp_type) none (omega arith) tt))

next_layer-Above : (l : Layer) → Above (above (layer_type l)) (next_layer l)
unfolding next_layer layer_type
next_layer-Above (ethernet l) =
    either_type 2 (l.ether_type == 0x0800) (some ipv4_type) _ (omega arith)
      (either_type 2 (l.ether_type == 0x86dd) (some ipv6_type) none (omega arith) tt)
next_layer-Above (ipv4 l) = next_protocol-Above l.protocol
next_layer-Above (ipv6 l) = next_protocol-Above l.next_header
next_layer-Above (tcp l) = tt
next_layer-Above (udp l) = tt
next_layer-Above (icmp l) = tt

abbrev IsShort : ℕ → Chain → Type 0
IsShort n (ls, e) = (length ls ≤ n) × (e ≢ some stuck)

followed-IsShort :
    (n : ℕ) (next : LayerType → List ℕ → Chain) (type : Option LayerType) (bytes : List ℕ)
    → Above n type
    → ((t : LayerType) (b : List ℕ) → above t < n → IsShort n (next t b))
    → IsShort n (followed next type bytes)
unfolding followed
followed-IsShort n next none bytes h g = (omega arith, λ e. absurd (cc e))
followed-IsShort n next (some type) [] h g = (omega arith, λ e. absurd (cc e))
followed-IsShort n next (some type) (b ∷ bytes) h g = g type (b ∷ bytes) h

chain_on-IsShort :
    (type : LayerType) (next : LayerType → List ℕ → Chain) (x : Decoded Layer)
    → Typed type x
    → ((t : LayerType) (b : List ℕ) → above t < above type → IsShort (above type) (next t b))
    → IsShort (suc (above type)) (chain_on next x)
unfolding chain_on
chain_on-IsShort type next (err e) typed g =
    (omega arith, λ same. absurd (cc (ap is_stuck_or same)))
  where
    is_stuck_or : Option LayerError → Bool
    is_stuck_or none = false
    is_stuck_or (some x) = is_stuck x
chain_on-IsShort type next (ok l) typed g =
    let up : Above (above type) (next_layer l) =
      subst (λ t. Above (above t) (next_layer l)) typed (next_layer-Above l) in
    let (few, fine) = followed-IsShort (above type) next (next_layer l) (payload l) up g in
    (omega arith, fine)

decode_loop-IsShort :
    (fuel : ℕ) (type : LayerType) (bytes : List ℕ)
    → above type < fuel
    → IsShort (suc (above type)) (decode_loop fuel layer_decoders type bytes)
unfolding decode_loop
decode_loop-IsShort zero type bytes lt = absurd (omega arith)
decode_loop-IsShort (suc fuel) type bytes lt =
    chain_on-IsShort type (decode_loop fuel layer_decoders) (decode_layer layer_decoders type bytes)
      (decode_layer-Typed type bytes)
      λ t b up. let (few, fine) = decode_loop-IsShort fuel t b (omega arith) in (omega arith, fine)

above_two : (type : LayerType) → above type < 3
above_two ethernet_type = omega arith
above_two ipv4_type = omega arith
above_two ipv6_type = omega arith
above_two arp_type = omega arith
above_two tcp_type = omega arith
above_two udp_type = omega arith
above_two icmp_type = omega arith
above_two dns_type = omega arith
above_two http_type = omega arith
above_two tls_type = omega arith

-- From every type and on all bytes, `DecodeFrom` ends with three layers at most: the fuel is never short.
pub decode_from_total :
    (type : LayerType) (bytes : List ℕ)
    → (length (decode_from type bytes).0 ≤ 3) × ((decode_from type bytes).1 ≢ some stuck)
unfolding decode_from
decode_from_total type bytes =
    let (few, fine) = decode_loop-IsShort 3 type bytes (above_two type) in
    let low = above_two type in (omega arith, fine)
