-- ===== src/Gnet/Layers/Chains.antt =====
-- The chains of layers of decode.go.
use gk.Common.{ℕ, zero, suc, List, [], ◌∷◌, Option, none, some}
use gk.Gnet.Layers.{LayerType, Decoded, ok, err, Layer, base_of, payload}
use gk.Gnet.Layers.Decode.{
  layer_decoders, decode_layer, next_layer, Chain, followed, chain_on, decode_loop, decode_from,
}
use gk.Gnet.Layers.Split.{Splits, SplitsIfOk, decode_layer-SplitsIfOk}

-- Each layer splits the payload of the layer before it, and the first one the bytes.
abbrev pub IsChain : List ℕ → List Layer → Type 0
IsChain bytes [] = Unit
IsChain bytes (l ∷ ls) = Splits bytes l × IsChain (base_of l).payload_data ls

followed-IsChain :
    (next : LayerType → List ℕ → Chain) (type : Option LayerType) (bytes : List ℕ)
    → ((t : LayerType) (b : List ℕ) → IsChain b (next t b).0)
    → IsChain bytes (followed next type bytes).0
unfolding followed
followed-IsChain next none bytes h = tt
followed-IsChain next (some type) [] h = tt
followed-IsChain next (some type) (b ∷ bytes) h = h type (b ∷ bytes)

chain_on-IsChain :
    (next : LayerType → List ℕ → Chain) (bytes : List ℕ) (x : Decoded Layer)
    → SplitsIfOk bytes x
    → ((t : LayerType) (b : List ℕ) → IsChain b (next t b).0)
    → IsChain bytes (chain_on next x).0
unfolding chain_on payload
chain_on-IsChain next bytes (err e) h g = tt
chain_on-IsChain next bytes (ok l) h g =
    (h, followed-IsChain next (next_layer l) (base_of l).payload_data g)

decode_loop-IsChain :
    (fuel : ℕ) (type : LayerType) (bytes : List ℕ)
    → IsChain bytes (decode_loop fuel layer_decoders type bytes).0
unfolding decode_loop
decode_loop-IsChain zero type bytes = tt
decode_loop-IsChain (suc fuel) type bytes =
    chain_on-IsChain (decode_loop fuel layer_decoders) bytes
      (decode_layer layer_decoders type bytes) (decode_layer-SplitsIfOk type bytes)
      (decode_loop-IsChain fuel)

-- Whatever type it starts from and whether or not it ends with an error, the layers that `DecodeFrom`
-- gives follow one another: the contents of the first are the front of the bytes and its payload is next
-- to them, and each other layer is so made of the payload of the layer before it.
pub decode_from-IsChain :
    (type : LayerType) (bytes : List ℕ) → IsChain bytes (decode_from type bytes).0
unfolding decode_from
decode_from-IsChain type bytes = decode_loop-IsChain 3 type bytes
