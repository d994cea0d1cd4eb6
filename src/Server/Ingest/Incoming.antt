-- ===== src/Server/Ingest/Incoming.antt =====
-- A batch on its way in: the stages that `BatchReassembly` goes through.
pub mod Header
pub mod Body
use udp_test.Base.{◌+◌, ◌-◌, ◌≤◌, ◌<◌, ◌≡◌, true, false, some, ◌++◌, length, take, replicate}
use udp_test.Crc.{Bytes}
use udp_test.Packet.{PacketHeader, packet_header_size, read_header}
use udp_test.Packet.Validity.{Accepts}
use udp_test.Server.State.{Receiver}

-- The stages of a batch that is on its way in.
module _ (batch : Bytes) where
  abbrev header : PacketHeader
  header = read_header batch

  abbrev pub front : Bytes
  front = take 20 batch

  -- The receiver once the header is in.
  abbrev pub started : Receiver → Receiver
  started r = record {
    stats = record (r.stats) { wire_batch_total = some header.batch_total };
    reassembly = record (r.reassembly) {
      buffer = front ++ replicate (length batch - 20) 0;
      filled = 20;
      expected = length batch;
      active = true;
    };
  }

  -- An idle receiver with the first bytes of the batch in its buffer.
  abbrev pub Waits : Bytes → Receiver → Type 0
  Waits p r =
      (r.reassembly.active ≡ false)
      × (r.reassembly.buffer ≡ p)
      × (length p < packet_header_size)
      × Accepts r.stats.wire_batch_total header

  -- A receiver with the header and more of the batch, and `q` still to come.
  abbrev pub Gathers : Bytes → Bytes → Receiver → Type 0
  Gathers p q r =
      (r.reassembly.active ≡ true)
      × (r.reassembly.buffer ≡ p ++ replicate (length q) 0)
      × (r.reassembly.filled ≡ length p)
      × (r.reassembly.expected ≡ length batch)
      × (packet_header_size ≤ length p)
      × (r.stats.wire_batch_total ≡ some header.batch_total)
