-- ===== src/Gnet/Pcapng/Fields.antt =====
-- What the parsers make of the payloads that the writer gives.
use gk.Common.{
  ℕ, suc, ◌+◌, ◌-◌, ◌^◌, ◌≤◌, ◌<◌, ◌≡◌, refl, ap, ◌∙◌, false, ◌||◌, ltb, List, ◌++◌, arith, length,
  length-append,
}
use gk.Gnet.Bytes.{
  ByteOrder, little, big, put32, u32, u32-put32, length-drop, drop-add, slice, take, drop,
  take-append, drop-append,
}
use gk.Gnet.Pcapng.{ok, BlockOption, padding, zeros}
use gk.Gnet.Pcapng.Options.{parse_options, length-zeros}
use gk.Gnet.Pcapng.Blocks.{packet_fields, packet_on}
use gk.Gnet.Pcapng.Headers.{plus16}

packet_on-drop :
    (total : ℕ) (o : ByteOrder) (payload bytes tail : List ℕ) (captured : ℕ)
    (opts : List BlockOption)
    → drop 20 payload ≡ bytes ++ (zeros (padding captured) ++ tail)
    → 20 ≤ length payload
    → length bytes ≡ captured
    → parse_options o tail ≡ ok opts
    → packet_on total o payload captured
      ≡ ok (record {
        total_length = total;
        interface_id = u32 o (slice 0 4 payload);
        timestamp_high = u32 o (slice 4 8 payload);
        timestamp_low = u32 o (slice 8 12 payload);
        captured_len = captured;
        original_len = u32 o (slice 16 20 payload);
        packet_data = bytes;
        options = opts;
      })
unfolding packet_on
packet_on-drop total o payload bytes tail captured opts split least size parsed =
    let pad = zeros (padding captured) in
    let sizes : length payload ≡ 20 + captured + padding captured + length tail = omega (
      arith,
      length-drop 20 payload,
      ap length split,
      length-append bytes (pad ++ tail),
      length-append pad tail,
      length-zeros (padding captured),
    ) in
    let enough : (ltb (length payload - 20) captured
          || ltb (length payload) (20 + captured + padding captured))
        ≡ false =
      ground (arith, sizes) in
    let kept : slice 20 (20 + captured) payload ≡ bytes =
      ap (take (20 + captured - 20)) split
      ∙ take-append (20 + captured - 20) bytes (pad ++ tail) (omega arith) in
    let last : drop (20 + captured + padding captured) payload ≡ tail =
      drop-add (20 + captured) (padding captured) payload
      ∙ ap (drop (padding captured)) (
          drop-add 20 captured payload
          ∙ ap (drop captured) split
          ∙ drop-append captured bytes (pad ++ tail) size)
      ∙ drop-append (padding captured) pad tail (length-zeros (padding captured)) in
    rw (enough, last, parsed, kept) refl

abbrev plus20 : ℕ → ℕ
plus20 n = suc (suc (suc (suc (plus16 n))))

plus20_enough : (n : ℕ) → ltb (plus20 n) 20 ≡ false
plus20_enough n = ground arith

plus20_least : (n : ℕ) → 20 ≤ plus20 n
plus20_least n = omega arith

pub packet_fields-append :
    (o : ByteOrder) (total id high low captured original : ℕ) (bytes tail : List ℕ)
    (opts : List BlockOption)
    → id < 2 ^ 32
    → high < 2 ^ 32
    → low < 2 ^ 32
    → captured < 2 ^ 32
    → original < 2 ^ 32
    → length bytes ≡ captured
    → parse_options o tail ≡ ok opts
    → packet_fields total o (
        put32 o id
        ++ (put32 o high
            ++ (put32 o low
                ++ (put32 o captured
                    ++ (put32 o original ++ (bytes ++ (zeros (padding captured) ++ tail)))))))
      ≡ ok (record {
        total_length = total;
        interface_id = id;
        timestamp_high = high;
        timestamp_low = low;
        captured_len = captured;
        original_len = original;
        packet_data = bytes;
        options = opts;
      })
unfolding packet_fields put32
packet_fields-append little total id high low captured original bytes tail opts i h l c g size
      parsed =
    let payload =
      put32 little id
      ++ (put32 little high
          ++ (put32 little low
              ++ (put32 little captured
                  ++ (put32 little original ++ (bytes ++ (zeros (padding captured) ++ tail)))))) in
    let more = bytes ++ (zeros (padding captured) ++ tail) in
    rw (plus20_enough (length more), u32-put32 little captured c)
      (packet_on-drop total little payload bytes tail captured opts refl
          (plus20_least (length more)) size parsed
        ∙ λ k. ok (record {
          total_length = total;
          interface_id = u32-put32 little id i k;
          timestamp_high = u32-put32 little high h k;
          timestamp_low = u32-put32 little low l k;
          captured_len = captured;
          original_len = u32-put32 little original g k;
          packet_data = bytes;
          options = opts;
        }))
packet_fields-append big total id high low captured original bytes tail opts i h l c g size parsed =
    let payload =
      put32 big id
      ++ (put32 big high
          ++ (put32 big low
              ++ (put32 big captured
                  ++ (put32 big original ++ (bytes ++ (zeros (padding captured) ++ tail)))))) in
    let more = bytes ++ (zeros (padding captured) ++ tail) in
    rw (plus20_enough (length more), u32-put32 big captured c)
      (packet_on-drop total big payload bytes tail captured opts refl (plus20_least (length more))
          size parsed
        ∙ λ k. ok (record {
          total_length = total;
          interface_id = u32-put32 big id i k;
          timestamp_high = u32-put32 big high h k;
          timestamp_low = u32-put32 big low l k;
          captured_len = captured;
          original_len = u32-put32 big original g k;
          packet_data = bytes;
          options = opts;
        }))
