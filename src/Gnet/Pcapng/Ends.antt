-- ===== src/Gnet/Pcapng/Ends.antt =====
-- What the reader of reader.go leaves of its stream, block by block.
use gk.Common.{
  ℕ, ◌+◌, ◌-◌, ◌≤◌, ◌≡◌, ◌⊎◌, inl, inr, refl, sym, ap, ◌∙◌, Bool, true, false, ◌||◌, ◌==◌, ltb,
  List, [], Option, none, some, arith, length, if◌then◌else◌, Bool-cases,
}
use gk.Gnet.Bytes.{
  ByteOrder, big, u32, slice, take, drop, read_full, ReadFull-cases, read_full-length,
}
use gk.Gnet.Pcapng.{
  PcapngError, Result, ok, err, padding, invalid_block_length, invalid_section, Block,
  section_header_block_type, interface_description_block_type, enhanced_packet_block_type,
}
use gk.Gnet.Pcapng.Options.{parse_options}
use gk.Gnet.Pcapng.Blocks.{
  read_body, payload_of, section_fields, parse_section_header_block, interface_fields,
  parse_interface_description_block, packet_on, packet_fields, parse_enhanced_packet_block,
}
use gk.Gnet.Pcapng.Reader.{
  Reader, order_of_magic, section_on, next_section, registered, interface_on, packet_block_on,
  skipped_block, block_on, first_block, block_in,
}
use gk.Gnet.Pcapng.Total.{is_stuck, stuck_of, bind_total, parse_options_total}

-- A test that refuses before a result.
refused_total :
    {A : Type 0} (b : Bool) (e : PcapngError) (x : Result A)
    → is_stuck e ≡ false
    → stuck_of x ≡ false
    → stuck_of (if b then err e else x) ≡ false
refused_total true e x h g = h
refused_total false e x h g = g

if_total :
    {A : Type 0} (b : Bool) (x y : Result A)
    → stuck_of x ≡ false
    → stuck_of y ≡ false
    → stuck_of (if b then x else y) ≡ false
if_total true x y h g = h
if_total false x y h g = g

payload_of_total :
    (least total : ℕ) (o : ByteOrder) (body : List ℕ)
    → stuck_of (payload_of least total o body) ≡ false
unfolding payload_of
payload_of_total least total o body =
    if_total _ (err invalid_block_length)
      (if u32 o (drop (length body - 4) body) == total
        then ok (take (length body - 4) body)
        else err invalid_block_length)
      refl (if_total _ (ok (take (length body - 4) body)) (err invalid_block_length) refl refl)

section_total :
    (total : ℕ) (o : ByteOrder) (body : List ℕ)
    → stuck_of (parse_section_header_block total o body) ≡ false
unfolding parse_section_header_block section_fields
section_total total o body =
    bind_total (payload_of 20 total o body) (section_fields total o)
      (payload_of_total 20 total o body)
      λ payload e.
        bind_total
          (if ltb (length payload) 16
            then err invalid_section
            else parse_options o (drop 16 payload))
          _
          (if_total _ (err invalid_section) (parse_options o (drop 16 payload)) refl
            (parse_options_total o (drop 16 payload)))
          λ opts e'. refl

interface_total :
    (total : ℕ) (o : ByteOrder) (body : List ℕ)
    → stuck_of (parse_interface_description_block total o body) ≡ false
unfolding parse_interface_description_block interface_fields
interface_total total o body =
    bind_total (payload_of 12 total o body) (interface_fields total o)
      (payload_of_total 12 total o body)
      λ payload e.
        bind_total
          (if ltb (length payload) 8
            then err invalid_block_length
            else parse_options o (drop 8 payload))
          _
          (if_total _ (err invalid_block_length) (parse_options o (drop 8 payload)) refl
            (parse_options_total o (drop 8 payload)))
          λ opts e'. refl

packet_on_total :
    (total : ℕ) (o : ByteOrder) (payload : List ℕ) (captured : ℕ)
    → stuck_of (packet_on total o payload captured) ≡ false
unfolding packet_on
packet_on_total total o payload captured = if_total _ (err invalid_block_length) _ refl (
    bind_total (parse_options o (drop (20 + captured + padding captured) payload)) _
      (parse_options_total o _) λ opts e. refl)

packet_total :
    (total : ℕ) (o : ByteOrder) (body : List ℕ)
    → stuck_of (parse_enhanced_packet_block total o body) ≡ false
unfolding parse_enhanced_packet_block packet_fields
packet_total total o body =
    bind_total (payload_of 24 total o body) (packet_fields total o)
      (payload_of_total 24 total o body)
      λ payload e.
        if_total _ (err invalid_block_length) _ refl
          (packet_on_total total o payload (u32 o (slice 12 16 payload)))

-- What is left is at most a number of bytes, and no fuel was short.
abbrev pub Fine : ℕ → Reader × Result Block → Type 0
Fine n (r, x) = (length r.stream ≤ n) × (stuck_of x ≡ false)

abbrev FineBody : ℕ → List ℕ × Result (List ℕ) → Type 0
FineBody n (rest, x) = (length rest ≤ n) × (stuck_of x ≡ false)

read_body-FineBody :
    (total : ℕ) (front stream : List ℕ) → FineBody (length stream) (read_body total front stream)
unfolding read_body
read_body-FineBody total front stream =
    elim (Bool-cases (ltb total 12 || ltb (total - 8) (length front))) [
      | inl short ↦ rw (short, read_body) (omega arith, refl)
      | inr long ↦ elim (ReadFull-cases (read_full (total - 8 - length front) stream)) [
        | inl (bytes, back, read) ↦
            rw (long, read, read_body)
              (
                omega (arith, read_full-length (total - 8 - length front) stream bytes back read),
                refl,
              )
        | inr (inl ended) ↦ rw (long, ended, read_body) (omega arith, refl)
        | inr (inr cut) ↦ rw (long, cut, read_body) (omega arith, refl)
      ]
    ]

Result-cases :
    {A : Type 0} (x : Result A) → ((a : A) × (x ≡ ok a)) ⊎ ((e : PcapngError) × (x ≡ err e))
Result-cases (ok a) = inl (a, refl)
Result-cases (err e) = inr (e, refl)

-- An error that a parser gave is none of a fuel.
error_total :
    {A : Type 0} (x : Result A) (e : PcapngError)
    → stuck_of x ≡ false
    → x ≡ err e
    → is_stuck e ≡ false
error_total x e fine failed = sym (ap stuck_of failed) ∙ fine

section_on-Fine :
    (o : ByteOrder) (total n : ℕ) (x : List ℕ × Result (List ℕ)) (r : Reader)
    → FineBody n x
    → Fine n (section_on o total x r)
unfolding section_on
section_on-Fine o total n (rest, err e) r fine = fine
section_on-Fine o total n (rest, ok body) r (shorter, _) =
    elim (Result-cases (parse_section_header_block total o body)) [
      | inl (block, parsed) ↦ rw (parsed, section_on) (shorter, refl)
      | inr (e, failed) ↦
          rw (failed, section_on) (shorter, error_total _ e (section_total total o body) failed)
    ]

interface_on-Fine :
    (o : ByteOrder) (total n : ℕ) (x : List ℕ × Result (List ℕ)) (r : Reader)
    → FineBody n x
    → Fine n (interface_on o total x r)
unfolding interface_on registered
interface_on-Fine o total n (rest, err e) r fine = fine
interface_on-Fine o total n (rest, ok body) r (shorter, _) =
    elim (Result-cases (parse_interface_description_block total o body)) [
      | inl (block, parsed) ↦ rw (parsed, interface_on) (shorter, refl)
      | inr (e, failed) ↦
          rw (failed, interface_on) (shorter, error_total _ e (interface_total total o body) failed)
    ]

packet_block_on-Fine :
    (o : ByteOrder) (total n : ℕ) (x : List ℕ × Result (List ℕ)) (r : Reader)
    → FineBody n x
    → Fine n (packet_block_on o total x r)
unfolding packet_block_on
packet_block_on-Fine o total n (rest, err e) r fine = fine
packet_block_on-Fine o total n (rest, ok body) r (shorter, _) = (
  shorter,
  bind_total (parse_enhanced_packet_block total o body) _ (packet_total total o body)
      λ block e. refl,
)

skipped_block-Fine :
    (type n : ℕ) (x : List ℕ × Result (List ℕ)) (r : Reader)
    → FineBody n x
    → Fine n (skipped_block type x r)
unfolding skipped_block
skipped_block-Fine type n (rest, err e) r fine = fine
skipped_block-Fine type n (rest, ok body) r (shorter, _) = (shorter, refl)

Option-cases : {A : Type 0} (x : Option A) → ((a : A) × (x ≡ some a)) ⊎ (x ≡ none)
Option-cases (some a) = inl (a, refl)
Option-cases none = inr refl

at_most : (m n : ℕ) (x : List ℕ × Result (List ℕ)) → m ≤ n → FineBody m x → FineBody n x
at_most m n x le (shorter, fine) = (omega arith, fine)

next_section-Fine :
    (hdr stream : List ℕ) (r : Reader) → Fine (length stream) (next_section hdr stream r)
unfolding next_section
next_section-Fine hdr stream r = elim (ReadFull-cases (read_full 4 stream)) [
  | inr (inl ended) ↦ rw (ended, next_section) (omega arith, refl)
  | inr (inr cut) ↦ rw (cut, next_section) (omega arith, refl)
  | inl (bom, rest, read) ↦
      let shorter : length rest ≤ length stream =
        omega (arith, read_full-length 4 stream bom rest read) in
      elim (Option-cases (order_of_magic (u32 big bom))) [
        | inr bad ↦ rw (read, next_section, bad) (shorter, refl)
        | inl (o, good) ↦
            rw (read, next_section, good)
              (section_on-Fine o (u32 o (slice 4 8 hdr)) (length stream)
                (read_body (u32 o (slice 4 8 hdr)) bom rest) r
                (at_most (length rest) (length stream) (read_body (u32 o (slice 4 8 hdr)) bom rest)
                  shorter (read_body-FineBody (u32 o (slice 4 8 hdr)) bom rest)))
      ]
]

if-Fine :
    (n : ℕ) (b : Bool) (x y : Reader × Result Block)
    → Fine n x
    → Fine n y
    → Fine n (if b then x else y)
if-Fine n true x y h g = h
if-Fine n false x y h g = g

pub block_in-Fine :
    (order : Option ByteOrder) (hdr stream : List ℕ) (r : Reader)
    → Fine (length stream) (block_in order hdr stream r)
unfolding block_in first_block block_on
block_in-Fine none hdr stream r =
    if-Fine (length stream) _ (next_section hdr stream r)
      (record r { stream = stream }, err invalid_section) (next_section-Fine hdr stream r)
      (omega arith, refl)
block_in-Fine (some o) hdr stream r =
    let n = length stream in
    let type = u32 o (slice 0 4 hdr) in
    let total = u32 o (slice 4 8 hdr) in
    let body = read_body total [] stream in
    let fine = read_body-FineBody total [] stream in
    if-Fine n (type == section_header_block_type) (next_section hdr stream r) _
      (next_section-Fine hdr stream r)
      (if-Fine n (type == interface_description_block_type) (interface_on o total body r) _
        (interface_on-Fine o total n body r fine)
        (if-Fine n (type == enhanced_packet_block_type) (packet_block_on o total body r) _
          (packet_block_on-Fine o total n body r fine) (skipped_block-Fine type n body r fine)))
