-- ===== src/Gnet/Pcapng/Files.antt =====
-- Whole files: interfaces and packets that are written one after the other, in any order, and packets
-- that are read until an error.
use gk.Common.{ℕ, zero, suc, ◌^◌, ◌<◌, ◌≡◌, List, [], ◌∷◌, Option, none, some, All, ℕ_discrete}
use gk.Common.Int64.{pos}
use gk.Common.Maps.{lookup}
use gk.Gnet.Times.{Time}
use gk.Gnet.Pcapng.{PcapngError, Result, ok, err, BlockOption}
use gk.Gnet.Pcapng.Options.{IsOption}
use gk.Gnet.Pcapng.Writer.{InterfaceOption, InterfaceWriterInfo, Writer}
use gk.Gnet.Pcapng.Packets.{
  no_interface_config, interface_configured, resolution_of, interface_options, interface_payload,
  add_interface, write_packet,
}
use gk.Gnet.Pcapng.Reader.{Reader, Packet, read_packet}
use gk.Gnet.Pcapng.Envelope.{Fits}
use gk.Gnet.Pcapng.Timestamps.{IsResolution, IsPlain}
use gk.Gnet.Pcapng.Stored.{IsStorable, stored_packet}

-- The calls of a writer's client.
pub data Operation : Type 0 where
  interface_operation : ℕ → ℕ → List InterfaceOption → Operation
  packet_operation : ℕ → List ℕ → Time → List BlockOption → Operation

abbrev pub done : Writer × Result ℕ → Writer × Result (Unit {0})
done (w, ok id) = (w, ok tt)
done (w, err e) = (w, err e)

unfoldable pub operate : Time → Operation → Writer → Writer × Result (Unit {0})
unfolding add_interface write_packet
operate now (interface_operation link snap opts) w = done (add_interface link snap opts w)
operate now (packet_operation id bytes t opts) w = write_packet now id bytes t opts w

abbrev pub operated_then :
    Writer × Result (Unit {0}) → (Writer → Writer × Result (Unit {0})) → Writer × Result (Unit {0})
operated_then (w, ok u) next = next w
operated_then (w, err e) next = (w, err e)

-- Calls are made until one is refused.
unfoldable pub operate_each : Time → List Operation → Writer → Writer × Result (Unit {0})
unfolding operate
operate_each now [] w = (w, ok tt)
operate_each now (op ∷ ops) w = operated_then (operate now op w) (operate_each now ops)

abbrev pub Read : Type 0
Read = Option (List Packet × PcapngError)

abbrev pub with_packet : Packet → Read → Read
with_packet p none = none
with_packet p (some (ps, e)) = some (p ∷ ps, e)

abbrev pub read_then : Reader × Result Packet → (Reader → Read) → Read
read_then (r, ok p) next = with_packet p (next r)
read_then (r, err e) next = some ([], e)

-- Packets are read until an error, which is the end of a good file; `none` says that the fuel was short.
unfoldable pub read_packets : ℕ → Reader → Read
unfolding read_packet
read_packets zero r = none
read_packets (suc fuel) r = read_then (read_packet r) (read_packets fuel)

-- What is read where the calls were made.
unfoldable pub stored_packets : Time → List Operation → Writer → List Packet
unfolding operate lookup
stored_packets now [] w = []
stored_packets now (interface_operation link snap opts ∷ ops) w =
    stored_packets now ops (operate now (interface_operation link snap opts) w).0
stored_packets now (packet_operation id bytes t opts ∷ ops) w =
    let rest = stored_packets now ops (operate now (packet_operation id bytes t opts) w).0 in
    stored_on (lookup ℕ_discrete id w.interfaces) rest
  where
    stored_on : Option InterfaceWriterInfo → List Packet → List Packet
    stored_on none rest = rest
    stored_on (some info) rest = stored_packet info id bytes t opts ∷ rest

-- An interface without a resolution among its other options, whose block fits its fields.
pub record IsInterface (w : Writer) (link snap : ℕ) (opts : List InterfaceOption) : Type 0 where
  pub link_fits : link < 2 ^ 16
  pub snap_fits : snap < 2 ^ 32
  pub plain : IsPlain (interface_configured opts no_interface_config)
  pub resolved : IsResolution (resolution_of w (interface_configured opts no_interface_config))
  pub block_opts : List BlockOption
  pub given :
      interface_options
        (interface_configured opts no_interface_config)
        (resolution_of w (interface_configured opts no_interface_config))
      ≡ ok block_opts
  pub options_fit : All IsOption block_opts
  pub block_fits : Fits (interface_payload w.order link snap block_opts)

-- A packet since 1970, on an interface that there is, that fits its fields.
pub record IsWritable (w : Writer) (id : ℕ) (bytes : List ℕ) (t : Time) (opts : List BlockOption)
    : Type 0 where
  pub info : InterfaceWriterInfo
  pub known : lookup ℕ_discrete id w.interfaces ≡ some info
  pub sec : ℕ
  pub since : t.unix ≡ pos sec
  pub storable : IsStorable w.order info id bytes sec t.nanos opts

abbrev pub IsGood : Writer → Operation → Type 0
IsGood w (interface_operation link snap opts) = IsInterface w link snap opts
IsGood w (packet_operation id bytes t opts) = IsWritable w id bytes t opts

-- Every call is good when its turn comes.
unfoldable pub AreGood : Time → List Operation → Writer → Type 0
unfolding operate
AreGood now [] w = Unit
AreGood now (op ∷ ops) w = IsGood w op × AreGood now ops (operate now op w).0
