-- ===== src/Gnet/Pcapng/Loop.antt =====
-- The loop of `ReadPacket` in reader.go, and its fuel.
use gk.Common.{ℕ, zero, suc, ◌≤◌, ◌<◌, ◌≡◌, ◌≢◌, inl, inr, refl, ap, ◌∙◌, false, arith, length}
use gk.Gnet.Bytes.{read_full, ReadFull-cases, read_full-length}
use gk.Gnet.Pcapng.{
  stuck, Result, ok, err, Block, section_header, interface_description, enhanced_packet,
}
use gk.Gnet.Pcapng.Reader.{
  Reader, Packet, block_in, next_block, packet_or, packet_loop, read_packet,
}
use gk.Gnet.Pcapng.Total.{stuck_of}
use gk.Gnet.Pcapng.Ends.{Fine, block_in-Fine}

next_block-Fine : (r : Reader) → Fine (length r.stream) (next_block r)
unfolding next_block
next_block-Fine r = elim (ReadFull-cases (read_full 8 r.stream)) [
  | inr (inl ended) ↦ rw (ended, next_block) (omega arith, refl)
  | inr (inr cut) ↦ rw (cut, next_block) (omega arith, refl)
  | inl (hdr, rest, read) ↦
      let (shorter, fine) = block_in-Fine r.order hdr rest r in
      rw (read, next_block) (omega (arith, read_full-length 8 r.stream hdr rest read), fine)
]

next_block_shorter :
    (r r' : Reader) (b : Block) → next_block r ≡ (r', ok b) → length r'.stream < length r.stream
unfolding next_block
next_block_shorter r r' b e = elim (ReadFull-cases (read_full 8 r.stream)) [
  | inr (inl ended) ↦ absurd (cc (rw (ended, next_block) at e))
  | inr (inr cut) ↦ absurd (cc (rw (cut, next_block) at e))
  | inl (hdr, rest, read) ↦
      let same : block_in r.order hdr rest r ≡ (r', ok b) = rw (read, next_block) at e in
      let (shorter, fine) = block_in-Fine r.order hdr rest r in
      omega (arith, read_full-length 8 r.stream hdr rest read, ap (λ x. length (x.0.stream)) same)
]

abbrev Ends : ℕ → Reader × Result Packet → Type 0
Ends n (r, x) = (length r.stream ≤ n) × (stuck_of x ≡ false)

packet_or-Ends :
    (n : ℕ) (next : Reader → Reader × Result Packet) (x : Reader × Result Block)
    → Fine n x
    → ((r : Reader) (b : Block) → x ≡ (r, ok b) → Ends n (next r))
    → Ends n (packet_or next x)
unfolding packet_or
packet_or-Ends n next (r, err e) fine ends = fine
packet_or-Ends n next (r, ok (enhanced_packet b)) (shorter, fine) ends = (shorter, refl)
packet_or-Ends n next (r, ok (section_header b)) fine ends = ends r (section_header b) refl
packet_or-Ends n next (r, ok (interface_description b)) fine ends =
    ends r (interface_description b) refl

packet_loop-Ends :
    (fuel : ℕ) (r : Reader) → length r.stream < fuel → Ends (length r.stream) (packet_loop fuel r)
unfolding packet_loop
packet_loop-Ends zero r lt = absurd (omega arith)
packet_loop-Ends (suc fuel) r lt =
    packet_or-Ends (length r.stream) (packet_loop fuel) (next_block r) (next_block-Fine r) λ r' b e.
      let shorter = next_block_shorter r r' b e in
      let (less, fine) = packet_loop-Ends fuel r' (omega arith) in (omega arith, fine)

packet_or_same :
    (f g : Reader → Reader × Result Packet) (x : Reader × Result Block)
    → ((r : Reader) (b : Block) → x ≡ (r, ok b) → f r ≡ g r)
    → packet_or f x ≡ packet_or g x
unfolding packet_or
packet_or_same f g (r, err e) same = refl
packet_or_same f g (r, ok (enhanced_packet b)) same = refl
packet_or_same f g (r, ok (section_header b)) same = same r (section_header b) refl
packet_or_same f g (r, ok (interface_description b)) same = same r (interface_description b) refl

packet_loop_enough :
    (fuel more : ℕ) (r : Reader)
    → length r.stream < fuel
    → length r.stream < more
    → packet_loop fuel r ≡ packet_loop more r
unfolding packet_loop
packet_loop_enough zero more r lt gt = absurd (omega arith)
packet_loop_enough (suc fuel) zero r lt gt = absurd (omega arith)
packet_loop_enough (suc fuel) (suc more) r lt gt =
    packet_or_same (packet_loop fuel) (packet_loop more) (next_block r) λ r' b e.
      let shorter = next_block_shorter r r' b e in
      packet_loop_enough fuel more r' (omega arith) (omega arith)

-- What a read of a packet is after one block.
pub read_packet_step :
    (r r' : Reader) (b : Block)
    → next_block r ≡ (r', ok b)
    → read_packet r ≡ packet_or read_packet (r', ok b)
unfolding read_packet packet_loop
read_packet_step r r' b e =
    let shorter = next_block_shorter r r' b e in
    ap (packet_or (packet_loop (length r.stream))) e
    ∙ packet_or_same (packet_loop (length r.stream)) read_packet (r', ok b)
        λ r'' b' e'.
          let same : length r'.stream ≡ length r''.stream = ap (λ x. length (x.0.stream)) e' in
          packet_loop_enough (length r.stream) (suc (length r''.stream)) r'' (omega arith)
            (omega arith)

-- A read of a packet ends with a packet or an error of the source, whatever the stream: its fuel is
-- never short, in the blocks or in the options. What is left of the stream is no longer than before.
pub read_packet_total :
    (r : Reader)
    → ((read_packet r).1 ≢ err stuck) × (length (read_packet r).0.stream ≤ length r.stream)
unfolding read_packet
read_packet_total r =
    let (shorter, fine) = packet_loop-Ends (suc (length r.stream)) r (omega arith) in
    ((λ e. absurd cc), shorter)

packet_or_shorter :
    (n : ℕ) (next : Reader → Reader × Result Packet) (x : Reader × Result Block) (r : Reader)
    (p : Packet)
    → ((r' : Reader) (b : Block)
        → x ≡ (r', ok b)
        → (length r'.stream < n) × (length (next r').0.stream < n))
    → packet_or next x ≡ (r, ok p)
    → length r.stream < n
unfolding packet_or
packet_or_shorter n next (q, err e) r p shorter same = absurd (cc same)
packet_or_shorter n next (q, ok (enhanced_packet b)) r p shorter same =
    let less = (shorter q (enhanced_packet b) refl).0 in
    omega (arith, ap (λ x. length (x.0.stream)) same)
packet_or_shorter n next (q, ok (section_header b)) r p shorter same =
    let less = (shorter q (section_header b) refl).1 in
    omega (arith, ap (λ x. length (x.0.stream)) same)
packet_or_shorter n next (q, ok (interface_description b)) r p shorter same =
    let less = (shorter q (interface_description b) refl).1 in
    omega (arith, ap (λ x. length (x.0.stream)) same)

-- A packet takes bytes.
pub read_packet_shorter :
    (r r' : Reader) (p : Packet) → read_packet r ≡ (r', ok p) → length r'.stream < length r.stream
unfolding read_packet packet_loop
read_packet_shorter r r' p same =
    packet_or_shorter (length r.stream) (packet_loop (length r.stream)) (next_block r) r' p
      (λ q b e.
        let less = next_block_shorter r q b e in
        let ends = (packet_loop-Ends (length r.stream) q less).0 in (less, omega arith))
      same
