-- ===== src/Gnet/Pcap.antt =====
-- Files of packets, of the format pcap: types.go and errors.go.
mod Tests
pub mod Writer
pub mod Reader
pub mod Header
pub mod RoundTrip
pub mod Files
pub mod Filter
pub mod Kept
pub mod Whole
pub mod Copying
use gk.Common.{
  ℕ, ◌+◌, ◌*◌, ◌/◌, ◌%◌, ◌^◌, Bool, true, false, ◌||◌, ◌==◌, List, [], ◌∷◌, length, if◌then◌else◌,
}
use gk.Common.Int64.{ℤ, to_bits}
use gk.Gnet.Bytes.{ByteOrder, little, big}
use gk.Gnet.Times.{Time, nanosecond, microsecond, time_unix}

abbrev pub magic_microseconds : ℕ
magic_microseconds = 0xa1b2c3d4

abbrev pub magic_microseconds_swapped : ℕ
magic_microseconds_swapped = 0xd4c3b2a1

abbrev pub magic_nanoseconds : ℕ
magic_nanoseconds = 0xa1b23c4d

abbrev pub magic_nanoseconds_swapped : ℕ
magic_nanoseconds_swapped = 0x4d3cb2a1

-- `this_zone` is the bit pattern of the int32.
pub record FileHeader : Type 0 where
  pub magic_number : ℕ
  pub version_major : ℕ
  pub version_minor : ℕ
  pub this_zone : ℕ
  pub sig_figs : ℕ
  pub snap_len : ℕ
  pub network : ℕ

pub record PacketHeader : Type 0 where
  pub ts_sec : ℕ
  pub ts_usec : ℕ
  pub incl_len : ℕ
  pub orig_len : ℕ

pub record Packet : Type 0 where
  pub header : PacketHeader
  pub bytes : List ℕ
  pub timestamp : Time

pub data PcapError : Type 0 where
  eof unexpected_eof invalid_magic_number invalid_packet_header : PcapError
  snap_length_exceeded : ℕ → ℕ → PcapError
  nil_packet short_packet snap_length_not_positive buffer_not_positive version_not_positive :
      PcapError
  unsupported_resolution : ℕ → PcapError
  filter_error : ℕ → PcapError

pub data Result {ℓ} (A : Type ℓ) : Type ℓ where
  ok : A → Result A
  err : PcapError → Result A

infixl 5 ◌>>=◌
abbrev pub ◌>>=◌ {ℓ κ} : {A : Type ℓ} {B : Type κ} → Result A → (A → Result B) → Result B
ok a >>= f = f a
err e >>= f = err e

unfoldable pub is_little_endian : FileHeader → Bool
is_little_endian h =
    h.magic_number == magic_microseconds_swapped || h.magic_number == magic_nanoseconds_swapped

unfoldable pub byte_order : FileHeader → ByteOrder
unfolding is_little_endian
byte_order h = if is_little_endian h then little else big

unfoldable pub timestamp_resolution : FileHeader → ℕ
timestamp_resolution h =
    if h.magic_number == magic_nanoseconds || h.magic_number == magic_nanoseconds_swapped
    then nanosecond
    else microsecond

-- `GetTimestamp`, which reads microseconds whatever the file says.
unfoldable pub get_timestamp : PacketHeader → Time
unfolding time_unix
get_timestamp h = time_unix h.ts_sec (h.ts_usec * 1000)

unfoldable pub set_timestamp : Time → ℕ → PacketHeader → PacketHeader
unfolding to_bits
set_timestamp t resolution h = record h {
  ts_sec = to_bits t.unix % 2 ^ 32;
  ts_usec = if resolution == nanosecond then t.nanos else t.nanos / 1000;
}

unfoldable pub capture_length : Packet → ℕ
capture_length p = length p.bytes

unfoldable pub original_length : Packet → ℕ
original_length p = if p.header.orig_len == 0 then length p.bytes else p.header.orig_len
