-- ===== src/Gnet/Pcapng/Whole.antt =====
-- Whole files of writer.go and reader.go, call by call.
use gk.Common.{ℕ, List, [], some}
use gk.Gnet.Times.{microsecond}
use gk.Gnet.Pcapng.Reader.{Reader}
use gk.Gnet.Pcapng.Writer.{WriterConfig, writer_of, section_payload, total_length}
use gk.Gnet.Pcapng.Headers.{section_block}
use gk.Gnet.Pcapng.Mirrors.{Mirrors}

-- The reader after the section header of a new file.
abbrev after_section : WriterConfig → List ℕ → Reader
after_section c stream = record {
  stream = stream;
  order = some c.byte_order;
  section = some (section_block (total_length (section_payload (writer_of c))) (writer_of c));
  interfaces = [];
  next_interface = 0;
  default_res = microsecond;
}
