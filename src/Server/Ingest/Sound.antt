-- ===== src/Server/Ingest/Sound.antt =====
-- The invariant of `BatchReassembly` between rounds of the loop.
use udp_test.Base.{
  ℕ, ◌+◌, ◌-◌, ◌*◌, ◌≤◌, ◌<◌, ◌≡◌, ◌⊎◌, inl, inr, Bool, true, false, Option, [], ◌++◌, arith,
  length, take, drop, replicate, length-append, length-take, length-drop, length-replicate,
  le_cases, min,
}
use udp_test.Crc.{Bytes}
use udp_test.Packet.{packet_header_size, max_packet_length, peek_batch_length}
use udp_test.Server.State.{BatchReassembly, Receiver}
use udp_test.Server.Scan.{find_batch_header_offset, find_next_batch_header_offset}
use udp_test.Server.Scan.Next.{find_next_batch_header_offset-pos}
use udp_test.Server.Ingest.{
  wanted_seq, salvage, realign, resize, pending, Round, leaves, continues, examine_header,
  collect_header, seek_header, activate,
}
use udp_test.Server.Ingest.Fill.{collect_header-full, collect_header-short}

-- With a batch under way the buffer has its announced size, which is that of a batch, and the
-- header is in. Otherwise the buffer holds less than a header.
abbrev pub SoundWhen : Bool → BatchReassembly → Type 0
SoundWhen true re =
    (length re.buffer ≡ re.expected)
    × (packet_header_size ≤ re.filled)
    × (re.filled ≤ re.expected)
    × (re.expected ≤ max_packet_length)
SoundWhen false re = length re.buffer < packet_header_size

abbrev pub IsSound : BatchReassembly → Type 0
IsSound re = SoundWhen re.active re

-- Twice the bytes at hand, and one more while no batch is under way: it falls in every round that
-- leaves bytes to read.
abbrev pub idle : Bool → ℕ
idle true = 0
idle false = 1

abbrev pub weight : Bytes → BatchReassembly → ℕ
weight rest re = 2 * (length rest + pending re) + idle re.active

-- What is carried over is shorter than the batch that it comes from.
pub length-salvage :
    (header : _) (batch_len : ℕ) (buffer : Bytes) (wire : Option ℕ)
    → length buffer ≡ batch_len
    → packet_header_size ≤ batch_len
    → length (salvage header batch_len buffer wire).0 < batch_len
unfolding salvage
length-salvage header batch_len buffer wire whole long =
    let at = (find_next_batch_header_offset (take batch_len buffer) (wanted_seq header) wire).0 in
    ground (
      arith,
      find_next_batch_header_offset-pos (take batch_len buffer) (wanted_seq header) wire,
      length-take batch_len buffer,
      length-drop at buffer,
    )

length-realign : (buffer : Bytes) → 0 < length buffer → length (realign buffer) < length buffer
unfolding realign
length-realign buffer h =
    ground (arith, length-drop (find_batch_header_offset buffer) buffer, length-drop 1 buffer)

length-resize : (n : ℕ) (b : Bytes) → length (resize n b) ≡ n
length-resize n b = omega (
  arith,
  length-append (take n b) (replicate (n - length b) 0),
  length-take n b,
  length-replicate {A = ℕ} (n - length b) 0,
)

-- How a round treats the `held` bytes that it finds, from a state of the given weight: none is
-- invented, and the loop gets nearer to its end.
abbrev pub Advances : ℕ → ℕ → Round → Type 0
Advances held limit (leaves r) = IsSound r.reassembly × (pending r.reassembly ≤ held)
Advances held limit (continues rest r) =
    IsSound r.reassembly
    × (length rest + pending r.reassembly ≤ held)
    × ((rest ≡ []) ⊎ (weight rest r.reassembly < limit))

examine_header-Advances :
    (buffer rest : Bytes) (r : Receiver) (held : ℕ)
    → r.reassembly.active ≡ false
    → length buffer ≡ packet_header_size
    → length rest + packet_header_size ≤ held
    → Advances held (2 * held + 1) (examine_header buffer rest r)
unfolding examine_header activate
examine_header-Advances buffer rest r held idle_now size fits = ground (
  arith,
  length-realign buffer,
  length-drop 1 buffer,
  length-resize (peek_batch_length buffer) buffer,
)

collect_header-Advances :
    (rest : Bytes) (r : Receiver) (held : ℕ)
    → r.reassembly.active ≡ false
    → length r.reassembly.buffer < packet_header_size
    → length rest + length r.reassembly.buffer ≤ held
    → Advances held (2 * held + 1) (collect_header rest r)
collect_header-Advances rest r held idle_now small fits =
    let total = length-append r.reassembly.buffer rest in
    elim (le_cases 20 (length (r.reassembly.buffer ++ rest))) [
      | inl long ↦
          rw (Advances, collect_header-full rest r (omega arith) long)
            (examine_header-Advances (take 20 stream) (drop 20 stream) r held idle_now
              (omega (arith, length-take 20 stream)) (omega (arith, total, length-drop 20 stream)))
      | inr little ↦
          rw (Advances, collect_header-short rest r (omega arith) little) (ground (arith, total))
    ]
  where
    stream : Bytes
    stream = r.reassembly.buffer ++ rest

pub seek_header-Advances :
    (rest : Bytes) (r : Receiver)
    → r.reassembly.active ≡ false
    → length r.reassembly.buffer < packet_header_size
    → let held = length rest + length r.reassembly.buffer in
      Advances held (2 * held + 1) (seek_header rest r)
unfolding seek_header
seek_header-Advances rest r idle_now small =
    let at = find_batch_header_offset rest in
    let held = length rest + length r.reassembly.buffer in
    ground (
      arith,
      collect_header-Advances (drop at rest) r held idle_now small
          (omega (arith, length-drop at rest)),
      collect_header-Advances rest r held idle_now small (omega arith),
      length-drop (length rest - min (length rest) 19) rest,
    )
