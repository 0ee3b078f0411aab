-- ===== src/Gnet/Pcapng/Follows.antt =====
-- The calls of a writer of writer.go, with the reader of reader.go at the blocks that each adds.
use mathlib.Core.Path.{subst}
use mathlib.Core.List.{append_assoc, append-nil}
use gk.Common.{
  ℕ, zero, suc, ◌^◌, ◌<◌, ◌≡◌, refl, sym, ap, ◌∙◌, List, [], ◌∷◌, ◌++◌, some, arith, length, All,
  ℕ_discrete,
}
use gk.Common.Int64.{pos}
use gk.Common.Maps.{lookup}
use gk.Gnet.Bytes.{read_full}
use gk.Gnet.Times.{Time}
use gk.Gnet.Pcapng.{
  eof, Result, ok, ◌>>=◌, BlockOption, interface_description_block_type, enhanced_packet_block_type,
  interface_description,
}
use gk.Gnet.Pcapng.Options.{IsOption}
use gk.Gnet.Pcapng.Writer.{
  InterfaceOption, InterfaceWriterInfo, Writer, WriterOption, block_bytes, write, new_writer,
}
use gk.Gnet.Pcapng.Packets.{
  interface_payload, write_interface_block, registered, write_packet_on, write_packet,
}
use gk.Gnet.Pcapng.Reader.{
  Reader, InterfaceInfo, Packet, new_reader, next_block, packet_or, packet_loop, read_packet,
}
use gk.Gnet.Pcapng.Reader
use gk.Gnet.Pcapng.RoundTrip.{interface_block, next_block-interface_payload}
use gk.Gnet.Pcapng.Envelope.{Fits}
use gk.Gnet.Pcapng.Loop.{read_packet_step}
use gk.Gnet.Pcapng.Stored.{
  stored_packet, stored_payload, write_packet_on-stored, read_packet-stored,
}
use gk.Gnet.Pcapng.Files.{
  Operation, interface_operation, packet_operation, done, operate, operated_then, operate_each,
  Read, with_packet, read_then, read_packets, stored_packets, IsInterface, IsWritable, AreGood,
}
use gk.Gnet.Pcapng.Writer.{WriterConfig, writer_of, section_payload}
use gk.Gnet.Pcapng.Mirrors.{Mirrors, writer_info, add_interface_good, registered-Mirrors}

-- A file written by calls and read back, with fuel for the packets.
abbrev pub written_and_read : ℕ → List WriterOption → Time → List Operation → Result Read
written_and_read fuel opts now ops = do
  w ← new_writer opts
  ok (read_packets fuel (new_reader (operate_each now ops w).0.written))

-- A configuration whose section header fits its fields.
pub record IsConfig (c : WriterConfig) : Type 0 where
  pub major_fits : c.major < 2 ^ 16
  pub minor_fits : c.minor < 2 ^ 16
  pub options_fit : All IsOption c.section_opts
  pub block_fits : Fits (section_payload (writer_of c))

-- The calls succeed, and these are the bytes that they add.
abbrev Adds : Time → List Operation → Writer → List ℕ → Type 0
Adds now ops w tail =
    ((operate_each now ops w).1 ≡ ok tt) × ((operate_each now ops w).0.written ≡ w.written ++ tail)

-- They do, and the packets that were stored are read from these bytes.
abbrev Follows : Time → List Operation → Writer → Reader → ℕ → Type 0
Follows now ops w r fuel =
    (tail : List ℕ) × Adds now ops w tail
    × (read_packets fuel (record r { stream = tail }) ≡ some (stored_packets now ops w, eof))

operate_each-Adds :
    (now : Time) (op : Operation) (ops : List Operation) (w w' : Writer) (block tail : List ℕ)
    → operate now op w ≡ (w', ok tt)
    → w'.written ≡ w.written ++ block
    → Adds now ops w' tail
    → Adds now (op ∷ ops) w (block ++ tail)
unfolding operate_each
operate_each-Adds now op ops w w' block tail step grown (worked, added) =
    let same : operate_each now (op ∷ ops) w ≡ operate_each now ops w' =
      ap (λ x. operated_then x (operate_each now ops)) step in
    (
      ap (λ x. x.1) same ∙ worked,
      ap (λ x. x.0.written) same
          ∙ added
          ∙ ap (λ l. l ++ tail) grown
          ∙ append_assoc w.written block tail,
    )

packet_follows :
    (now : Time) (id : ℕ) (bytes : List ℕ) (t : Time) (opts : List BlockOption) (w : Writer)
    (r : Reader)
    → Mirrors w r
    → (good : IsWritable w id bytes t opts)
    → let block =
        block_bytes w.order enhanced_packet_block_type
          (stored_payload w.order good.info id bytes good.sec t.nanos opts) in
      (operate now (packet_operation id bytes t opts) w ≡ (write block w, ok tt))
      × ((rest : List ℕ)
          → read_packet (record r { stream = block ++ rest })
            ≡ (record r { stream = rest }, ok (stored_packet good.info id bytes t opts)))
unfolding operate write_packet
packet_follows now id bytes t opts w r m good =
    let (is, i, found, same) = m.known id good.info good.known in
    let at : record { unix = pos good.sec; nanos = t.nanos } ≡ t =
      λ k. record { unix = sym good.since k; nanos = t.nanos } in
    (
      rw (good.known, write_packet)
          (ap (λ t'. write_packet_on now id good.info bytes t' opts w) (sym at)
            ∙ write_packet_on-stored now w good.info id bytes good.sec t.nanos opts is
                good.storable),
      λ rest.
          read_packet-stored r w good.info i id bytes good.sec t.nanos opts m.in_order found same is
            good.storable rest
          ∙ ap (λ t'. (record r { stream = rest }, ok (stored_packet good.info id bytes t' opts)))
              at,
    )

interface_follows :
    (now : Time) (link snap : ℕ) (opts : List InterfaceOption) (w : Writer) (r : Reader)
    → Mirrors w r
    → (good : IsInterface w link snap opts)
    → (operate now (interface_operation link snap opts) w ≡ (
      registered (writer_info w link snap opts) (write_interface_block link snap good.block_opts w),
      ok tt,
    ))
      × ((rest : List ℕ)
          → read_packet (record r {
            stream =
                block_bytes w.order interface_description_block_type
                  (interface_payload w.order link snap good.block_opts)
                ++ rest;
          })
            ≡ read_packet (
                Reader.registered
                  (interface_block w.order r.next_interface link snap good.block_opts)
                  (record r { stream = rest })))
unfolding operate packet_or
interface_follows now link snap opts w r m good = (
  ap done (add_interface_good w link snap opts good),
  λ rest.
      let block = interface_block w.order r.next_interface link snap good.block_opts in
      read_packet_step _ (Reader.registered block (record r { stream = rest }))
        (interface_description block)
        (next_block-interface_payload r w.order link snap good.block_opts rest m.in_order
          good.block_fits good.link_fits good.snap_fits good.options_fit),
)

interface_before :
    (now : Time) (link snap : ℕ) (opts : List InterfaceOption) (ops : List Operation) (w : Writer)
    (r : Reader) (fuel : ℕ)
    → Mirrors w r
    → (good : IsInterface w link snap opts)
    → Follows now ops
        (registered
          (writer_info w link snap opts)
          (write_interface_block link snap good.block_opts w))
        (Reader.registered
          (interface_block w.order r.next_interface link snap good.block_opts)
          (record r { stream = [] }))
        (suc fuel)
    → Follows now (interface_operation link snap opts ∷ ops) w r (suc fuel)
unfolding read_packets stored_packets registered write_interface_block write Reader.registered
interface_before now link snap opts ops w r fuel m good (tail, adds, reads) =
    let (step, next) = interface_follows now link snap opts w r m good in
    let w' =
      registered (writer_info w link snap opts)
        (write_interface_block link snap good.block_opts w) in
    let block =
      block_bytes w.order interface_description_block_type
        (interface_payload w.order link snap good.block_opts) in
    (
      block ++ tail,
      operate_each-Adds now (interface_operation link snap opts) ops w w' block tail step refl adds,
      ap (λ x. read_then x (read_packets fuel)) (next tail)
          ∙ reads
          ∙ ap (λ x. some (stored_packets now ops (x.0), eof)) (sym step),
    )

stored_packets_known :
    (now : Time) (id : ℕ) (bytes : List ℕ) (t : Time) (opts : List BlockOption)
    (ops : List Operation) (w w' : Writer) (info : InterfaceWriterInfo)
    → lookup ℕ_discrete id w.interfaces ≡ some info
    → operate now (packet_operation id bytes t opts) w ≡ (w', ok tt)
    → stored_packets now (packet_operation id bytes t opts ∷ ops) w
      ≡ stored_packet info id bytes t opts ∷ stored_packets now ops w'
unfolding stored_packets
stored_packets_known now id bytes t opts ops w w' info known step =
    rw (known, stored_packets)
      (ap (λ x. stored_packet info id bytes t opts ∷ stored_packets now ops (x.0)) step)

written-Mirrors :
    (block : List ℕ) (w : Writer) (r : Reader) → Mirrors w r → Mirrors (write block w) r
unfolding write
written-Mirrors block w r m = record {
  in_order = m.in_order;
  next = m.next;
  unset = m.unset;
  known = m.known;
}

packet_before :
    (now : Time) (id : ℕ) (bytes : List ℕ) (t : Time) (opts : List BlockOption)
    (ops : List Operation) (w : Writer) (r : Reader) (fuel : ℕ)
    → Mirrors w r
    → (good : IsWritable w id bytes t opts)
    → Follows now ops
        (write
          (block_bytes w.order enhanced_packet_block_type
            (stored_payload w.order good.info id bytes good.sec t.nanos opts))
          w)
        r
        fuel
    → Follows now (packet_operation id bytes t opts ∷ ops) w r (suc fuel)
unfolding read_packets write
packet_before now id bytes t opts ops w r fuel m good (tail, adds, reads) =
    let (step, next) = packet_follows now id bytes t opts w r m good in
    let block =
      block_bytes w.order enhanced_packet_block_type
        (stored_payload w.order good.info id bytes good.sec t.nanos opts) in
    (
      block ++ tail,
      operate_each-Adds now (packet_operation id bytes t opts) ops w (write block w) block tail step
          refl adds,
      ap (λ x. read_then x (read_packets fuel)) (next tail)
          ∙ ap (with_packet (stored_packet good.info id bytes t opts)) reads
          ∙ ap (λ ps. some (ps, eof))
              (sym (
                stored_packets_known now id bytes t opts ops w (write block w) good.info good.known
                  step)),
    )

pub operate_each-Follows :
    (now : Time) (ops : List Operation) (w : Writer) (r : Reader) (fuel : ℕ)
    → Mirrors w r
    → AreGood now ops w
    → length ops < fuel
    → Follows now ops w r fuel
unfolding AreGood
operate_each-Follows now ops w r zero m good lt = absurd (omega arith)
operate_each-Follows now [] w r (suc fuel) m good lt =
    unfold operate_each read_packets stored_packets read_packet packet_loop packet_or next_block
      read_full in
    ([], (refl, sym (append-nil w.written)), refl)
operate_each-Follows now (interface_operation link snap opts ∷ ops) w r (suc fuel) m
      (good, rest_good) lt =
    let (step, next) = interface_follows now link snap opts w r m good in
    interface_before now link snap opts ops w r fuel m good (
      operate_each-Follows now ops _ _ (suc fuel) (registered-Mirrors w r link snap opts [] good m)
        (subst (λ x. AreGood now ops (x.0)) step rest_good) (omega arith))
operate_each-Follows now (packet_operation id bytes t opts ∷ ops) w r (suc fuel) m (good, rest_good)
      lt =
    let (step, next) = packet_follows now id bytes t opts w r m good in
    packet_before now id bytes t opts ops w r fuel m good (
      operate_each-Follows now ops _ r fuel (written-Mirrors _ w r m)
        (subst (λ x. AreGood now ops (x.0)) step rest_good) (omega arith))
