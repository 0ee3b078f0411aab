-- ===== src/Gnet/Pcap/RoundTrip.antt =====
-- What the reader makes of the bytes that the writer gives.
use mathlib.Core.List.{append_assoc}
use gk.Common.{
  ℕ, ◌^◌, ◌≤◌, ◌<◌, ◌≡◌, ◌⊎◌, inl, inr, refl, ap, ◌∙◌, false, ◌&&◌, ltb, List, ◌++◌, arith, length,
}
use gk.Gnet.Bytes.{
  ByteOrder, little, big, put32, u32, u32-put32, take, length-take, read_full, full,
  read_full-append,
}
use gk.Gnet.Times.{time_unix}
use gk.Gnet.Pcap.{PacketHeader, Packet, ok}
use gk.Gnet.Pcap.Writer.{packet_header_bytes, packet_bytes}
use gk.Gnet.Pcap.Reader.{Reader, parse_packet_header, sub_second, packet_on, read_packet}

pub record IsWordy (h : PacketHeader) : Type 0 where
  pub sec : h.ts_sec < 2 ^ 32
  pub usec : h.ts_usec < 2 ^ 32
  pub incl : h.incl_len < 2 ^ 32
  pub orig : h.orig_len < 2 ^ 32

parse-packet_header_bytes :
    (o : ByteOrder) (h : PacketHeader)
    → IsWordy h
    → parse_packet_header o (packet_header_bytes o h) ≡ h
unfolding parse_packet_header packet_header_bytes u32 put32
parse-packet_header_bytes little h w = λ i. record {
  ts_sec = u32-put32 little h.ts_sec w.sec i;
  ts_usec = u32-put32 little h.ts_usec w.usec i;
  incl_len = u32-put32 little h.incl_len w.incl i;
  orig_len = u32-put32 little h.orig_len w.orig i;
}
parse-packet_header_bytes big h w = λ i. record {
  ts_sec = u32-put32 big h.ts_sec w.sec i;
  ts_usec = u32-put32 big h.ts_usec w.usec i;
  incl_len = u32-put32 big h.incl_len w.incl i;
  orig_len = u32-put32 big h.orig_len w.orig i;
}

pub length-packet_header_bytes :
    (o : ByteOrder) (h : PacketHeader) → length (packet_header_bytes o h) ≡ 16
unfolding packet_header_bytes put32
length-packet_header_bytes little h = refl
length-packet_header_bytes big h = refl

-- The packet that is read where a packet was written with this header.
abbrev pub read_back : ℕ → PacketHeader → List ℕ → Packet
read_back unit h bytes = record {
  header = h;
  bytes = take h.incl_len bytes;
  timestamp = time_unix h.ts_sec (sub_second unit h.ts_usec);
}

-- The lengths fit the header and the limit of the file.
pub record IsReadable (snap_len : ℕ) (h : PacketHeader) (bytes : List ℕ) : Type 0 where
  pub wordy : IsWordy h
  pub enough : h.incl_len ≤ length bytes
  pub within : (snap_len ≡ 0) ⊎ (h.incl_len ≤ snap_len)

not_exceeded : (snap incl : ℕ) → (snap ≡ 0) ⊎ (incl ≤ snap) → (ltb 0 snap && ltb snap incl) ≡ false
not_exceeded snap incl (inl none_set) = ground arith
not_exceeded snap incl (inr within) = ground arith

packet_on-take :
    (r : Reader) (h : PacketHeader) (bytes rest : List ℕ)
    → IsReadable r.header.snap_len h bytes
    → packet_on r h (take h.incl_len bytes ++ rest)
      ≡ (record r { stream = rest }, ok (read_back r.ts_unit h bytes))
unfolding packet_on
packet_on-take r h bytes rest ready =
    rw
      (
        not_exceeded r.header.snap_len h.incl_len ready.within,
        read_full-append h.incl_len (take h.incl_len bytes) rest
            (length-take h.incl_len bytes ready.enough),
        packet_on,
      )
      refl

-- A packet that fits its header and the limit of the file is read as it was written, and the rest of the
-- stream is left.
pub read_packet-packet_bytes :
    (r : Reader) (h : PacketHeader) (bytes rest : List ℕ)
    → IsReadable r.header.snap_len h bytes
    → read_packet (record r { stream = packet_bytes r.byte_order h bytes ++ rest })
      ≡ (record r { stream = rest }, ok (read_back r.ts_unit h bytes))
unfolding read_packet packet_bytes
read_packet-packet_bytes r h bytes rest ready =
    let o = r.byte_order in
    let front = packet_header_bytes o h in
    let body = take h.incl_len bytes in
    let r' = record r { stream = packet_bytes o h bytes ++ rest } in
    let split : read_full 16 ((front ++ body) ++ rest) ≡ full front (body ++ rest) =
      ap (read_full 16) (append_assoc front body rest)
      ∙ read_full-append 16 front (body ++ rest) (length-packet_header_bytes o h) in
    let parsed : parse_packet_header o front ≡ h = parse-packet_header_bytes o h ready.wordy in
    rw (split, read_packet)
      (ap (λ h'. packet_on r' h' (body ++ rest)) parsed ∙ packet_on-take r' h bytes rest ready)
