-- ===== src/Gnet/Pcapng/Sections.antt =====
-- What the reader makes of the section header that the writer gives.
use gk.Common.{
  ℕ, ◌^◌, ◌≤◌, ◌<◌, ◌≡◌, refl, ap, ◌∙◌, List, [], ◌++◌, Option, none, some, arith, length,
  length-append, All,
}
use gk.Gnet.Bytes.{
  ByteOrder, little, big, put16, put32, put64, u32, length-put16, length-put32, length-put64, slice,
  read_full, full, read_full-append,
}
use gk.Gnet.Pcapng.{ok, section_header, section_header_block_type}
use gk.Gnet.Pcapng.Options.{IsOption, encode_options}
use gk.Gnet.Pcapng.Writer.{
  Writer, total_length, block_bytes, section_payload, magic_of, section_length_bits,
}
use gk.Gnet.Pcapng.Blocks.{read_body, parse_section_header_block}
use gk.Gnet.Pcapng.Reader.{
  Reader, order_of_magic, section_on, next_section, block_on, first_block, block_in, next_block,
}
use gk.Gnet.Pcapng.Headers.{section_block, read_body-append, section_fields-section_payload}
use gk.Gnet.Pcapng.Envelope.{
  Fits, front_of, body_of, length-body_of, read_full-block_bytes, front_total, payload_of-body_of,
  total_length_lem,
}

section_tail : Writer → List ℕ
section_tail w =
    put16 w.order w.major
    ++ (put16 w.order w.minor
        ++ (put64 w.order (section_length_bits w.section_length)
            ++ encode_options w.order w.section_opts))

section_payload_lem :
    (w : Writer) → section_payload w ≡ put32 big (magic_of w.order) ++ section_tail w
unfolding section_payload section_tail
section_payload_lem w = refl

section_least : (w : Writer) → 16 ≤ length (section_payload w)
unfolding section_payload
section_least w =
    let o = w.order in
    let opts = encode_options o w.section_opts in
    let len = section_length_bits w.section_length in
    omega (
      arith,
      length-append (put32 big (magic_of o))
          (put16 o w.major ++ (put16 o w.minor ++ (put64 o len ++ opts))),
      length-append (put16 o w.major) (put16 o w.minor ++ (put64 o len ++ opts)),
      length-append (put16 o w.minor) (put64 o len ++ opts),
      length-append (put64 o len) opts,
      length-put32 big (magic_of o),
      length-put16 o w.major,
      length-put16 o w.minor,
      length-put64 o len,
    )

order_of_magic-magic_of :
    (o : ByteOrder) → order_of_magic (u32 big (put32 big (magic_of o))) ≡ some o
unfolding order_of_magic magic_of u32 put32
order_of_magic-magic_of little = refl
order_of_magic-magic_of big = refl

-- The type of a section header reads the same in both orders.
front_section :
    (o order : ByteOrder) (payload : List ℕ)
    → u32 order (slice 0 4 (front_of o section_header_block_type payload))
      ≡ section_header_block_type
unfolding u32 put32
front_section little little payload = refl
front_section little big payload = refl
front_section big little payload = refl
front_section big big payload = refl

parse_section-body_of :
    (w : Writer)
    → Fits (section_payload w)
    → w.major < 2 ^ 16
    → w.minor < 2 ^ 16
    → All IsOption w.section_opts
    → parse_section_header_block
        (total_length (section_payload w))
        w.order
        (body_of w.order (section_payload w))
      ≡ ok (section_block (total_length (section_payload w)) w)
unfolding parse_section_header_block
parse_section-body_of w fits major minor all =
    rw (payload_of-body_of 20 w.order (section_payload w) fits (omega (arith, section_least w)))
      (section_fields-section_payload (total_length (section_payload w)) w major minor all)

read_full-section :
    (w : Writer) (rest : List ℕ)
    → read_full 4 (body_of w.order (section_payload w) ++ rest)
      ≡ full
          (put32 big (magic_of w.order))
          ((section_tail w ++ put32 w.order (total_length (section_payload w))) ++ rest)
unfolding section_payload section_tail put32
read_full-section w rest =
    read_full-append 4 (put32 big (magic_of w.order))
      ((section_tail w ++ put32 w.order (total_length (section_payload w))) ++ rest) refl

read_body-section :
    (w : Writer) (rest : List ℕ)
    → Fits (section_payload w)
    → read_body
        (total_length (section_payload w))
        (put32 big (magic_of w.order))
        ((section_tail w ++ put32 w.order (total_length (section_payload w))) ++ rest)
      ≡ (rest, ok (body_of w.order (section_payload w)))
unfolding section_payload section_tail put32
read_body-section w rest fits =
    let payload = section_payload w in
    let trailer = put32 w.order (total_length payload) in
    let size = length-body_of w.order payload in
    read_body-append (total_length payload) (put32 big (magic_of w.order))
      (section_tail w ++ trailer) rest (omega (arith, size, total_length_lem payload fits))
      (omega (arith, size))

next_section-lem :
    (w : Writer) (rest : List ℕ) (r : Reader)
    → Fits (section_payload w)
    → next_section
        (front_of w.order section_header_block_type (section_payload w))
        (body_of w.order (section_payload w) ++ rest)
        r
      ≡ section_on w.order
          (total_length (section_payload w))
          (rest, ok (body_of w.order (section_payload w)))
          r
unfolding next_section
next_section-lem w rest r fits =
    rw
      (
        read_full-section w rest,
        next_section,
        order_of_magic-magic_of w.order,
        front_total w.order section_header_block_type (section_payload w),
      )
      (ap (λ b. section_on w.order (total_length (section_payload w)) b r)
        (read_body-section w rest fits))

block_in-section :
    (w : Writer) (order : Option ByteOrder) (payload stream : List ℕ) (r : Reader)
    → block_in order (front_of w.order section_header_block_type payload) stream r
      ≡ next_section (front_of w.order section_header_block_type payload) stream r
unfolding block_in block_on first_block
block_in-section w none payload stream r = rw (front_section w.order little payload) refl
block_in-section w (some o) payload stream r = rw (front_section w.order o payload) refl

-- A section header that fits its fields is read as it was written, whatever section the reader was
-- in, and the reader then has its byte order and no interfaces.
pub next_block-section_payload :
    (w : Writer) (rest : List ℕ) (r : Reader)
    → Fits (section_payload w)
    → w.major < 2 ^ 16
    → w.minor < 2 ^ 16
    → All IsOption w.section_opts
    → next_block (record r {
      stream = block_bytes w.order section_header_block_type (section_payload w) ++ rest;
    })
      ≡ (
        record r {
          stream = rest;
          order = some w.order;
          section = some (section_block (total_length (section_payload w)) w);
          interfaces = [];
          next_interface = 0;
        },
        ok (section_header (section_block (total_length (section_payload w)) w)),
      )
unfolding next_block section_on
next_block-section_payload w rest r fits major minor all =
    let payload = section_payload w in
    let r' = record r { stream = block_bytes w.order section_header_block_type payload ++ rest } in
    rw (read_full-block_bytes w.order section_header_block_type payload rest, next_block)
      (block_in-section w r.order payload (body_of w.order payload ++ rest) r'
        ∙ next_section-lem w rest r' fits
        ∙ rw (parse_section-body_of w fits major minor all, section_on) refl)
