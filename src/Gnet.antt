-- ===== src/Gnet.antt =====
-- Capture files and packet headers: gnet/pcap, gnet/pcapng and gnet/layers.
pub mod Bytes
pub mod Times
pub mod Pcap
pub mod Pcapng
pub mod Layers
