-- ===== src/Gnet/Layers/Body.antt =====
-- The payload of a whole frame that was parsed.
use mathlib.Core.List.{append_assoc}
use gk.Common.{ℕ, ◌≡◌, refl, sym, ap, ◌∙◌, List, [], ◌∷◌, ◌++◌, none, some}
use gk.Gnet.Layers.{
  LayerType, Decoded, ok, err, Layer, ethernet, ipv4, ipv6, tcp, udp, icmp, base_of, payload,
}
use gk.Gnet.Layers.Decode.{
  layer_decoders, decode_layer, next_layer, Chain, before, followed, chain_on, decode_loop,
  decode_from, Parsed, noted, all_noted, parsed_of, parse_from, parsed_payload,
}
use gk.Gnet.Layers.Split.{Splits}
use gk.Gnet.Layers.Chains.{IsChain, decode_from-IsChain}

-- Some bytes of a frame, next to each other.
abbrev pub Within : List ℕ → List ℕ → Type 0
Within body bytes = (front : List ℕ) × (back : List ℕ) × (front ++ (body ++ back) ≡ bytes)

Within-Splits :
    (body bytes : List ℕ) (l : Layer)
    → Splits bytes l
    → Within body (base_of l).payload_data
    → Within body bytes
Within-Splits body bytes l (trailer, whole) (front, back, inner) =
    let contents = (base_of l).contents in
    (
      contents ++ front,
      back ++ trailer,
      append_assoc contents front (body ++ (back ++ trailer))
          ∙ ap (λ x. contents ++ (front ++ x)) (sym (append_assoc body back trailer))
          ∙ ap (λ x. contents ++ x) (sym (append_assoc front (body ++ back) trailer))
          ∙ ap (λ x. contents ++ (x ++ trailer)) inner
          ∙ whole,
    )

parsed_payload-noted :
    (l : Layer) (p : Parsed) → parsed_payload (noted l p) ≡ some (base_of l).payload_data
unfolding parsed_payload noted payload
parsed_payload-noted (ethernet l) p = refl
parsed_payload-noted (ipv4 l) p = refl
parsed_payload-noted (ipv6 l) p = refl
parsed_payload-noted (tcp l) p = refl
parsed_payload-noted (udp l) p = refl
parsed_payload-noted (icmp l) p = refl

all_noted-Within :
    (l : Layer) (ls : List Layer) (p : Parsed) (bytes : List ℕ)
    → IsChain bytes (l ∷ ls)
    → (body : List ℕ) × (parsed_payload (all_noted (l ∷ ls) p) ≡ some body) × Within body bytes
unfolding all_noted
all_noted-Within l [] p bytes ((trailer, whole), rest) =
    ((base_of l).payload_data, parsed_payload-noted l p, ((base_of l).contents, trailer, whole))
all_noted-Within l (l' ∷ ls) p bytes (splits, rest) =
    let (body, found, within) = all_noted-Within l' ls (noted l p) (base_of l).payload_data rest in
    (body, found, Within-Splits body bytes l splits within)

parsed_of-Within :
    (l : Layer) (c : Chain) (p : Parsed) (bytes : List ℕ)
    → IsChain bytes (l ∷ c.0)
    → parsed_of (before l c) ≡ ok p
    → (body : List ℕ) × (parsed_payload p ≡ some body) × Within body bytes
unfolding parsed_of
parsed_of-Within l (ls, some e) p bytes chain same = absurd (cc same)
parsed_of-Within l (ls, none) p bytes chain same =
    let empty : Parsed = record {
      layers = l ∷ ls;
      ether = none;
      ip4 = none;
      ip6 = none;
      segment = none;
      datagram = none;
      final = none;
    } in
    let (body, found, within) = all_noted-Within l ls empty bytes chain in
    let it : all_noted (l ∷ ls) empty ≡ p = ap (parsed_or empty) same in
    (body, ap parsed_payload (sym it) ∙ found, within)
  where
    parsed_or : Parsed → Decoded Parsed → Parsed
    parsed_or d (ok q) = q
    parsed_or d (err e) = d

chain_on-Within :
    (next : LayerType → List ℕ → Chain) (x : Decoded Layer) (p : Parsed) (bytes : List ℕ)
    → IsChain bytes (chain_on next x).0
    → parsed_of (chain_on next x) ≡ ok p
    → (body : List ℕ) × (parsed_payload p ≡ some body) × Within body bytes
unfolding chain_on
chain_on-Within next (err e) p bytes chain same = unfold parsed_of in absurd (cc same)
chain_on-Within next (ok l) p bytes chain same =
    parsed_of-Within l (followed next (next_layer l) (payload l)) p bytes chain same

-- If the bytes are parsed, there is a payload, and it is a part of these bytes, next to each other and
-- unchanged.
pub parsed_payload-parse_from :
    (type : LayerType) (bytes : List ℕ) (p : Parsed)
    → parse_from type bytes ≡ ok p
    → (body : List ℕ) × (parsed_payload p ≡ some body) × Within body bytes
unfolding parse_from decode_from decode_loop
parsed_payload-parse_from type bytes p same =
    chain_on-Within (decode_loop 2 layer_decoders) (decode_layer layer_decoders type bytes) p bytes
      (decode_from-IsChain type bytes) same
