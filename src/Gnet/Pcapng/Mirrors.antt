-- ===== src/Gnet/Pcapng/Mirrors.antt =====
-- The reader of reader.go beside the writer of writer.go.
use mathlib.Core.Path.{subst}
use gk.Common.{
  ℕ, ◌+◌, ◌%◌, ◌^◌, ◌≡◌, refl, sym, ap, ◌∙◌, ◌==◌, List, [], Option, none, some, if◌then◌else◌,
  ℕ_discrete, if_pos, if_neg,
}
use gk.Common.Maps.{Map, lookup, insert, lookup-insert}
use gk.Gnet.Times.{microsecond}
use gk.Gnet.Pcapng.{Result, ok, err, BlockOption}
use gk.Gnet.Pcapng.Writer.{InterfaceOption, InterfaceWriterInfo, Writer, write}
use gk.Gnet.Pcapng.Packets.{
  no_interface_config, interface_configured, resolution_of, write_interface_block, registered,
  add_interface,
}
use gk.Gnet.Pcapng.Reader.{
  Reader, InterfaceInfo, Packet, new_reader, next_block, packet_or, packet_loop, read_packet,
}
use gk.Gnet.Pcapng.Reader
use gk.Gnet.Pcapng.RoundTrip.{interface_block}
use gk.Gnet.Pcapng.Timestamps.{IsResolution, read_resolution, interface_options-read_resolution}
use gk.Gnet.Pcapng.Files.{IsInterface}

-- The reader knows the interfaces that the writer knows.
abbrev pub Known : Map ℕ InterfaceWriterInfo → Map ℕ InterfaceInfo → Type 0
Known ws rs =
    (id : ℕ) (info : InterfaceWriterInfo)
    → lookup ℕ_discrete id ws ≡ some info
    → IsResolution info.ts_res
      × (i : InterfaceInfo) × (lookup ℕ_discrete id rs ≡ some i)
      × (i.ts_res ≡ info.ts_res)

pub record Mirrors (w : Writer) (r : Reader) : Type 0 where
  pub in_order : r.order ≡ some w.order
  pub next : r.next_interface ≡ w.next_interface
  pub unset : r.default_res ≡ microsecond
  pub known : Known w.interfaces r.interfaces

insert-Known :
    (ws : Map ℕ InterfaceWriterInfo) (rs : Map ℕ InterfaceInfo) (n : ℕ) (new : InterfaceWriterInfo)
    (i : InterfaceInfo)
    → IsResolution new.ts_res
    → i.ts_res ≡ new.ts_res
    → Known ws rs
    → Known (insert ℕ_discrete n new ws) (insert ℕ_discrete n i rs)
insert-Known ws rs n new i is same known id info found = elim (ℕ_discrete n id) [
  | yes e ↦
      let at_writer : some new ≡ some info =
        sym (lookup-insert ℕ_discrete n id new ws ∙ if_pos (ℕ_discrete n id) e _ _) ∙ found in
      let it : new ≡ info = ap (info_or new) at_writer in
      (
        subst (λ x. IsResolution x.ts_res) it is,
        i,
        lookup-insert ℕ_discrete n id i rs ∙ if_pos (ℕ_discrete n id) e _ _,
        same ∙ ap (λ x. x.ts_res) it,
      )
  | no ne ↦
      let (was, i', here, same') =
        known id info
          (sym (lookup-insert ℕ_discrete n id new ws ∙ if_neg (ℕ_discrete n id) ne _ _) ∙ found) in
      (
        was,
        i',
        (lookup-insert ℕ_discrete n id i rs ∙ if_neg (ℕ_discrete n id) ne _ _) ∙ here,
        same',
      )
]
  where
    info_or : InterfaceWriterInfo → Option InterfaceWriterInfo → InterfaceWriterInfo
    info_or d none = d
    info_or d (some x) = x

-- The entries of the two for a new interface.
abbrev pub writer_info : Writer → ℕ → ℕ → List InterfaceOption → InterfaceWriterInfo
writer_info w link snap opts = record {
  link_type = link;
  snap_len = snap;
  ts_res = resolution_of w (interface_configured opts no_interface_config);
}

pub add_interface_good :
    (w : Writer) (link snap : ℕ) (opts : List InterfaceOption) (good : IsInterface w link snap opts)
    → add_interface link snap opts w ≡ (
      registered (writer_info w link snap opts) (write_interface_block link snap good.block_opts w),
      ok w.next_interface,
    )
unfolding add_interface
add_interface_good w link snap opts good = rw (good.given, add_interface) refl

-- The resolution that the reader takes from the options.
resolution_taken :
    (w : Writer) (link snap : ℕ) (opts : List InterfaceOption) (good : IsInterface w link snap opts)
    → read_resolution good.block_opts
      ≡ resolution_of w (interface_configured opts no_interface_config)
resolution_taken w link snap opts good =
    let (block_opts, given, read) =
      interface_options-read_resolution (interface_configured opts no_interface_config)
        (resolution_of w (interface_configured opts no_interface_config)) good.plain
        good.resolved in
    let same : block_opts ≡ good.block_opts = ap (opts_or []) (sym given ∙ good.given) in
    ap read_resolution (sym same) ∙ read
  where
    opts_or : List BlockOption → Result (List BlockOption) → List BlockOption
    opts_or d (ok l) = l
    opts_or d (err e) = d

pub registered-Mirrors :
    (w : Writer) (r : Reader) (link snap : ℕ) (opts : List InterfaceOption) (rest : List ℕ)
    → (good : IsInterface w link snap opts) → Mirrors w r
    → Mirrors
        (registered
          (writer_info w link snap opts)
          (write_interface_block link snap good.block_opts w))
        (Reader.registered
          (interface_block w.order r.next_interface link snap good.block_opts)
          (record r { stream = rest }))
unfolding registered Reader.registered write_interface_block write
registered-Mirrors w r link snap opts rest good m =
    let res = Reader.extract_timestamp_resolution good.block_opts in
    let entry : InterfaceInfo = record {
      block = interface_block w.order r.next_interface link snap good.block_opts;
      ts_res = if res == 0 then r.default_res else res;
    } in
    let same : entry.ts_res ≡ resolution_of w (interface_configured opts no_interface_config) =
      ap (λ d. if res == 0 then d else res) m.unset ∙ resolution_taken w link snap opts good in
    record {
      in_order = m.in_order;
      next = ap (λ n. (n + 1) % 2 ^ 32) m.next;
      unset = m.unset;
      known =
          subst
            (λ n.
              Known (insert ℕ_discrete w.next_interface (writer_info w link snap opts) w.interfaces)
                (insert ℕ_discrete n entry r.interfaces))
            (sym m.next)
            (insert-Known w.interfaces r.interfaces w.next_interface (writer_info w link snap opts)
              entry good.resolved same m.known);
    }
