-- ===== src/Gnet/Pcapng/Envelope.antt =====
-- The fields around the payload of a block: writer.go and reader.go.
use mathlib.Core.List.{append_assoc}
use gk.Common.{
  ℕ, ◌+◌, ◌^◌, ◌≤◌, ◌<◌, ◌≡◌, refl, sym, ap, ◌∙◌, List, [], ◌++◌, arith, length, length-append,
}
use gk.Gnet.Bytes.{
  ByteOrder, little, big, put32, u32, u32-put32, length-put32, slice, read_full, full,
  read_full-append,
}
use gk.Gnet.Pcapng.{ok}
use gk.Gnet.Pcapng.Writer.{total_length, block_bytes}
use gk.Gnet.Pcapng.Blocks.{read_body, payload_of}
use gk.Gnet.Pcapng.Headers.{read_body-append, payload_of-append}

-- A payload whose block has a length that fits its field.
abbrev pub Fits : List ℕ → Type 0
Fits payload = length payload + 12 < 2 ^ 32

abbrev pub front_of : ByteOrder → ℕ → List ℕ → List ℕ
front_of o type payload = put32 o type ++ put32 o (total_length payload)

abbrev pub body_of : ByteOrder → List ℕ → List ℕ
body_of o payload = payload ++ put32 o (total_length payload)

pub total_length_lem :
    (payload : List ℕ) → Fits payload → total_length payload ≡ length payload + 12
unfolding total_length
total_length_lem payload fits = omega arith

length-front_of :
    (o : ByteOrder) (type : ℕ) (payload : List ℕ) → length (front_of o type payload) ≡ 8
unfolding put32
length-front_of little type payload = refl
length-front_of big type payload = refl

pub length-body_of :
    (o : ByteOrder) (payload : List ℕ) → length (body_of o payload) ≡ length payload + 4
length-body_of o payload = omega (
  arith,
  length-append payload (put32 o (total_length payload)),
  length-put32 o (total_length payload),
)

pub read_full-block_bytes :
    (o : ByteOrder) (type : ℕ) (payload rest : List ℕ)
    → read_full 8 (block_bytes o type payload ++ rest)
      ≡ full (front_of o type payload) (body_of o payload ++ rest)
unfolding block_bytes
read_full-block_bytes o type payload rest =
    ap (λ l. read_full 8 (l ++ rest))
      (sym (append_assoc (put32 o type) (put32 o (total_length payload)) (body_of o payload)))
    ∙ ap (read_full 8) (append_assoc (front_of o type payload) (body_of o payload) rest)
    ∙ read_full-append 8 (front_of o type payload) (body_of o payload ++ rest)
        (length-front_of o type payload)

-- The two fields in front of a block.
pub front_type :
    (o : ByteOrder) (type : ℕ) (payload : List ℕ)
    → type < 2 ^ 32
    → u32 o (slice 0 4 (front_of o type payload)) ≡ type
unfolding put32
front_type little type payload h = u32-put32 little type h
front_type big type payload h = u32-put32 big type h

pub front_total :
    (o : ByteOrder) (type : ℕ) (payload : List ℕ)
    → u32 o (slice 4 8 (front_of o type payload)) ≡ total_length payload
unfolding put32 total_length
front_total little type payload = u32-put32 little (total_length payload) (omega arith)
front_total big type payload = u32-put32 big (total_length payload) (omega arith)

pub read_body-body_of :
    (o : ByteOrder) (payload rest : List ℕ)
    → Fits payload
    → read_body (total_length payload) [] (body_of o payload ++ rest)
      ≡ (rest, ok (body_of o payload))
read_body-body_of o payload rest fits =
    read_body-append (total_length payload) [] (body_of o payload) rest
      (omega (arith, length-body_of o payload, total_length_lem payload fits))
      (omega (arith, length-body_of o payload))

pub payload_of-body_of :
    (least : ℕ) (o : ByteOrder) (payload : List ℕ)
    → Fits payload
    → least ≤ length payload + 4
    → payload_of least (total_length payload) o (body_of o payload) ≡ ok payload
payload_of-body_of least o payload fits size =
    payload_of-append least (total_length payload) o payload size
      (omega (arith, total_length_lem payload fits))
