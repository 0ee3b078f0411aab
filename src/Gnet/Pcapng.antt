-- ===== src/Gnet/Pcapng.antt =====
-- Files of packets, of the format pcapng: blocks.go and errors.go.
mod Tests
pub mod Options
pub mod Writer
pub mod Packets
pub mod Blocks
pub mod Reader
pub mod Headers
pub mod Fields
pub mod Envelope
pub mod RoundTrip
pub mod Total
pub mod Ends
pub mod Loop
pub mod Filter
pub mod Timestamps
pub mod Stored
pub mod Files
pub mod Mirrors
pub mod Follows
pub mod Whole
pub mod Sections
use gk.Common.{ℕ, zero, suc, ◌+◌, ◌-◌, ◌*◌, ◌/◌, ◌%◌, ◌^◌, ◌==◌, List, [], ◌∷◌, if◌then◌else◌}
use gk.Common.Int64.{ℤ}
use gk.Gnet.Times.{Time, time_unix, nanosecond}

abbrev pub section_header_block_type : ℕ
section_header_block_type = 0x0a0d0d0a

abbrev pub interface_description_block_type : ℕ
interface_description_block_type = 1

abbrev pub enhanced_packet_block_type : ℕ
enhanced_packet_block_type = 6

abbrev pub byte_order_magic_little : ℕ
byte_order_magic_little = 0x1a2b3c4d

abbrev pub byte_order_magic_big : ℕ
byte_order_magic_big = 0x4d3c2b1a

pub data PcapngError : Type 0 where
  eof unexpected_eof invalid_block_length invalid_section : PcapngError
  unsupported_block unknown_interface unsupported_resolution : ℕ → PcapngError
  version_not_positive buffer_not_positive : PcapngError
  stuck : PcapngError

-- `stuck` is no error of the source: a loop has run out of fuel.
pub data Result {ℓ} (A : Type ℓ) : Type ℓ where
  ok : A → Result A
  err : PcapngError → Result A

infixl 5 ◌>>=◌
abbrev pub ◌>>=◌ {ℓ κ} : {A : Type ℓ} {B : Type κ} → Result A → (A → Result B) → Result B
ok a >>= f = f a
err e >>= f = err e

-- The type `Option`.
pub record BlockOption : Type 0 where
  pub code : ℕ
  pub value : List ℕ

-- The type of a block is its constructor below.
pub record SectionHeaderBlock : Type 0 where
  pub total_length : ℕ
  pub byte_order_magic : ℕ
  pub major_version : ℕ
  pub minor_version : ℕ
  pub section_length : ℤ
  pub options : List BlockOption

pub record InterfaceDescriptionBlock : Type 0 where
  pub total_length : ℕ
  pub id : ℕ
  pub link_type : ℕ
  pub reserved : ℕ
  pub snap_len : ℕ
  pub options : List BlockOption

pub record EnhancedPacketBlock : Type 0 where
  pub total_length : ℕ
  pub interface_id : ℕ
  pub timestamp_high : ℕ
  pub timestamp_low : ℕ
  pub captured_len : ℕ
  pub original_len : ℕ
  pub packet_data : List ℕ
  pub options : List BlockOption

pub data Block : Type 0 where
  section_header : SectionHeaderBlock → Block
  interface_description : InterfaceDescriptionBlock → Block
  enhanced_packet : EnhancedPacketBlock → Block

-- The time that a number of units stands for: nanoseconds, or microseconds for any other resolution.
unfoldable pub timestamp_of : ℕ → ℕ → Time
unfolding time_unix
timestamp_of combined resolution =
    if resolution == nanosecond
    then time_unix (combined / 1000000000) (combined % 1000000000)
    else time_unix (combined / 1000000) (combined % 1000000 * 1000)

unfoldable pub timestamp : EnhancedPacketBlock → ℕ → Time
unfolding timestamp_of
timestamp b resolution = timestamp_of (b.timestamp_high * 2 ^ 32 + b.timestamp_low) resolution

-- The bytes that fill a length up to a multiple of four.
unfoldable pub padding : ℕ → ℕ
padding n = (4 - n % 4) % 4

abbrev pub zeros : ℕ → List ℕ
zeros zero = []
zeros (suc n) = 0 ∷ zeros n
