-- ===== src/Gnet/Pcap/Tests.antt =====
-- Runs of the pcap writer, reader and filter, and their theorems at concrete inputs.
use gk.Common.{All, ℕ, ◌≡◌, refl, [], ◌∷◌, List, arith, none, some, inr, length, map}
use gk.Common.Int64.{pos}
use gk.Gnet.Bytes.{big}
use gk.Gnet.Times.{Time, is_zero, time_unix, nanosecond, microsecond}
use gk.Gnet.Pcap.{Packet, eof, ok, set_timestamp}
use gk.Gnet.Pcap.Writer.{
  WriterOption, WriterConfig, default_config, configured, with_byte_order,
  with_timestamp_resolution, with_snap_len, header_of, stamped, filled, select_magic,
}
use gk.Gnet.Pcap.Reader.{sub_second}
use gk.Gnet.Pcap.Header.{IsConfig}
use gk.Gnet.Pcap.Files.{written_and_read}
use gk.Gnet.Pcap.Filter.{filter_copy}
use gk.Gnet.Pcap.Kept.{answers, kept, read_backs}
use gk.Gnet.Pcap.Whole.{Fits, came_back, written_and_read_lem}
use gk.Gnet.Pcap.Copying.{file_of, read_file, copy_config, chosen, filter_copy-kept}

stored_runs : Unit {0}
unfolding is_zero time_unix sub_second set_timestamp configured with_byte_order
    with_timestamp_resolution with_snap_len header_of stamped filled select_magic kept read_backs
stored_runs = tt

abbrev at : Time
at = record { unix = pos 5; nanos = 7001 }

abbrev packet : Packet
packet = record {
  header = record { ts_sec = 0; ts_usec = 0; incl_len = 0; orig_len = 0 };
  bytes = 10 ∷ 20 ∷ 30 ∷ [];
  timestamp = at;
}

abbrev options : List WriterOption
options = with_byte_order big ∷ with_timestamp_resolution nanosecond ∷ with_snap_len 4 ∷ []

abbrev config : WriterConfig
config = record default_config { byte_order = big; resolution = nanosecond; snap_len = 4 }

config-IsConfig : IsConfig config
config-IsConfig = record {
  maj = omega arith;
  min = omega arith;
  zone = omega arith;
  figs = omega arith;
  snap = omega arith;
  net = omega arith;
  unit = inr refl;
}

packet-Fits : Fits 4 packet
packet-Fits = record {
  sec = 5;
  since = refl;
  early = omega arith;
  subsecond = omega arith;
  short = omega arith;
  original = omega arith;
  enough = omega arith;
  within = inr (omega arith);
}

written_and_read_example :
    written_and_read 2 options at (packet ∷ [])
    ≡ ok (some (map (came_back nanosecond) (packet ∷ []), eof))
unfolding stored_runs
written_and_read_example =
    written_and_read_lem options config at (packet ∷ []) 2 refl config-IsConfig (packet-Fits, tt)
      (omega arith)

-- A machine that keeps packets of three bytes or more.
abbrev keep : List ℕ → ℕ
keep (a ∷ b ∷ c ∷ bytes) = 1
keep _ = 0

-- A packet that is dropped comes before one that is kept.
abbrev two_packets : List Packet
two_packets = record packet { bytes = 7 ∷ [] } ∷ packet ∷ []

two_packets-Fit : All (Fits 4) two_packets
two_packets-Fit = (
  record {
    sec = 5;
    since = refl;
    early = omega arith;
    subsecond = omega arith;
    short = omega arith;
    original = omega arith;
    enough = omega arith;
    within = inr (omega arith);
  },
  (packet-Fits, tt),
)

one_kept : length (chosen keep at config two_packets) ≡ 1
unfolding stored_runs
one_kept = refl

filter_copy-kept_example :
    (copy : List ℕ) × (filter_copy (ok (answers keep at)) at (file_of at config two_packets)
      ≡ some (record {
        written = copy;
        count = length (chosen keep at config two_packets);
        error = none;
      }))
    × (copy ≡ file_of at (copy_config config) (chosen keep at config two_packets))
    × (read_file copy
        ≡ ok (some (map (came_back microsecond) (chosen keep at config two_packets), eof)))
filter_copy-kept_example =
    filter_copy-kept keep at config two_packets config-IsConfig (omega arith) two_packets-Fit
