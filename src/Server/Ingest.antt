-- ===== src/Server/Ingest.antt =====
-- `ingest_fragment` and `try_complete_batch`, which call one another. What is left of the datagram
-- is `[data + offset, data + length)`. The verbose log is left out.
pub mod Fill
pub mod Sound
pub mod Absorb
pub mod Incoming
pub mod Stream
pub mod Delivery
pub mod Total
pub mod Accounts
pub mod Salvage
use udp_test.Base.{
  [], ℕ, zero, suc, ◌+◌, ◌-◌, ◌*◌, ◌^◌, min, Bool, true, false, not, ◌&&◌, ◌||◌, Option, none, some,
  ◌∷◌, ◌++◌, u32, u64, incr, ltb, leb, ◌==◌, if◌then◌else◌, ◌>>=◌, length, take, drop, replicate,
}
use udp_test.Crc.{Bytes}
use udp_test.Packet.{
  PacketHeader, packet_header_size, read_header, header_meta_plausible, BatchValidation, ok,
  validate_batch, validate_batch_session, peek_batch_length,
}
use udp_test.Server.State.{
  ServerStats, BatchReassembly, Receiver, reset_reassembly, count_fragment, count_bad,
}
use udp_test.Server.Sequence.{track_sequence}
use udp_test.Server.Scan.{max_batch_size, find_batch_header_offset, find_next_batch_header_offset}

abbrev is_ok : BatchValidation → Bool
is_ok ok = true
is_ok _ = false

abbrev pub is_empty : Bytes → Bool
is_empty [] = true
is_empty (b ∷ bs) = false

-- `std::vector::resize`
abbrev resize : ℕ → Bytes → Bytes
resize n b = take n b ++ replicate (n - length b) 0

-- The sequence number looked for behind a corrupt batch.
unfoldable pub wanted_seq : PacketHeader → Option ℕ
wanted_seq header =
    if header_meta_plausible header.seq header.batch_total header.length
    then if ltb (u32 (header.seq + 1)) header.batch_total then some (u32 (header.seq + 1)) else none
    else none

-- The bytes that are carried over from a corrupt batch, and the session's total after the scan.
unfoldable pub salvage : PacketHeader → ℕ → Bytes → Option ℕ → Bytes × Option ℕ
salvage header batch_len buffer wire =
    let (salvage_at, wire') =
      find_next_batch_header_offset (take batch_len buffer) (wanted_seq header) wire in
    let candidate = read_header (drop salvage_at buffer) in
    let complete =
      leb candidate.length (batch_len - salvage_at)
      && is_ok (validate_batch (take candidate.length (drop salvage_at buffer))) in
    if ltb packet_header_size batch_len
    then (if ltb salvage_at batch_len && complete
        then (drop salvage_at buffer, wire')
        else ([], wire'))
    else ([], wire)

abbrev Ingest : Type 0
Ingest = Bytes → Receiver → Option Receiver

-- What is done with a corrupt batch: it is counted, and a complete batch inside it is kept.
unfoldable pub recover : Ingest → PacketHeader → ServerStats → BatchReassembly → Option Receiver
recover ingest header stats reassembly =
    let (carry, wire) =
      salvage header reassembly.expected reassembly.buffer stats.wire_batch_total in
    let r : Receiver = record {
      stats = record (count_bad stats) { wire_batch_total = wire };
      reassembly = reset_reassembly;
    } in
    if is_empty carry then some r else ingest carry r

-- A batch that passed is counted.
unfoldable pub accept : PacketHeader → ServerStats → Receiver
accept header stats =
    let tracked = track_sequence stats header.seq in
    record {
      stats = record tracked { batches = incr tracked.batches };
      reassembly = reset_reassembly;
    }

-- The result and the receiver on return; `ingest` is `ingest_fragment`.
unfoldable pub try_complete_batch : Ingest → Receiver → Option (Bool × Receiver)
try_complete_batch ingest r =
    let header = read_header r.reassembly.buffer in
    let (check, total) = validate_batch_session header r.stats.wire_batch_total in
    let stats : ServerStats = record (r.stats) { wire_batch_total = total } in
    if ltb r.reassembly.expected packet_header_size
    then some (false, record { stats = count_bad r.stats; reassembly = reset_reassembly })
    else if not (is_ok check)
    then some (false, record { stats = count_bad stats; reassembly = reset_reassembly })
    else if not (is_ok (validate_batch (take r.reassembly.expected r.reassembly.buffer)))
    then recover ingest header stats r.reassembly >>= (λ r'. some (false, r'))
    else some (true, accept header stats)

-- How a round of the loop ends: by `return`, or by going on with what is left of the datagram.
pub data Round : Type 0 where
  leaves : Receiver → Round
  continues : Bytes → Receiver → Round

abbrev with_buffer : Receiver → Bytes → Receiver
with_buffer r buffer = record r { reassembly = record (r.reassembly) { buffer = buffer } }

abbrev with_total : Receiver → Option ℕ → Receiver
with_total r total = record r { stats = record (r.stats) { wire_batch_total = total } }

-- The inner loop: bytes go to the buffer until it holds a header or the datagram is used up, in
-- which case the function returns.
pub data Filled : Type 0 where
  short : Bytes → Filled
  full : Bytes → Bytes → Filled

unfoldable pub fill_header : Bytes → Bytes → Filled
fill_header buffer [] =
    if ltb (length buffer) packet_header_size then short buffer else full buffer []
fill_header buffer (b ∷ rest) =
    let more = fill_header (buffer ++ b ∷ []) rest in
    if ltb (length buffer) packet_header_size then more else full buffer (b ∷ rest)

-- The buffer after bytes that are no header: it goes on at the next header in it, or loses a byte.
unfoldable pub realign : Bytes → Bytes
realign buffer =
    let aligned = find_batch_header_offset buffer in
    if ltb 1 (length buffer) && (ltb 0 aligned && ltb aligned (length buffer))
    then drop aligned buffer
    else drop 1 buffer

-- The reassembly of a batch begins.
unfoldable pub activate : ℕ → Bytes → Receiver → Receiver
activate expected_length buffer r = record r {
  reassembly = record (r.reassembly) {
    buffer = resize expected_length buffer;
    filled = packet_header_size;
    expected = expected_length;
    active = true;
  };
}

unfoldable pub examine_header : Bytes → Bytes → Receiver → Round
examine_header buffer rest r =
    let expected_length = peek_batch_length buffer in
    let (check, total) = validate_batch_session (read_header buffer) r.stats.wire_batch_total in
    let checked = with_total r total in
    if expected_length == 0
    then continues rest (with_buffer r (realign buffer))
    else if not (is_ok check)
    then continues rest (with_buffer checked (drop 1 buffer))
    else if ltb expected_length packet_header_size || ltb max_batch_size expected_length
    then continues rest (record { stats = count_bad checked.stats; reassembly = reset_reassembly })
    else continues rest (activate expected_length buffer checked)

abbrev after_fill : Receiver → Filled → Round
after_fill r (short buffer) = leaves (with_buffer r buffer)
after_fill r (full buffer rest) = examine_header buffer rest r

unfoldable pub collect_header : Bytes → Receiver → Round
collect_header rest r = after_fill r (fill_header r.reassembly.buffer rest)

-- A round with no batch under way.
unfoldable pub seek_header : Bytes → Receiver → Round
seek_header rest r =
    let aligned = find_batch_header_offset rest in
    let keep = min (length rest) (packet_header_size - 1) in
    if is_empty r.reassembly.buffer
    then if leb (length rest) aligned
      then leaves (with_buffer r (drop (length rest - keep) rest))
      else collect_header (drop aligned rest) r
    else collect_header rest r

-- The fragment's bytes are copied into the batch that is under way.
unfoldable pub absorb : ℕ → Bytes → BatchReassembly → BatchReassembly
absorb n rest reassembly = record reassembly {
  buffer =
      take reassembly.filled reassembly.buffer
      ++ (take n rest ++ drop (reassembly.filled + n) reassembly.buffer);
  filled = u64 (reassembly.filled + n);
  fragment_sizes = reassembly.fragment_sizes ++ n ∷ [];
}

-- A round with a batch under way.
unfoldable pub continue_batch : Ingest → Bytes → Receiver → Option Round
continue_batch ingest rest r =
    let space = u64 (r.reassembly.expected + 2 ^ 64 - r.reassembly.filled) in
    let n = min (length rest) space in
    let r' : Receiver = record r { reassembly = absorb n rest r.reassembly } in
    if leb r'.reassembly.expected r'.reassembly.filled
    then try_complete_batch ingest r' >>= (λ (done, r''). some (continues (drop n rest) r''))
    else some (continues (drop n rest) r')

unfoldable pub ingest_round : Ingest → Bytes → Receiver → Option Round
ingest_round ingest rest r =
    if r.reassembly.active then continue_batch ingest rest r else some (seek_header rest r)

abbrev pub resume : Ingest → Round → Option Receiver
resume ingest (leaves r) = some r
resume ingest (continues rest r) = ingest rest r

-- The loop `while (offset < length)`. The fuel bounds the rounds, those of inner calls included;
-- `none` if it runs out.
unfoldable pub ingest_loop : ℕ → Ingest
ingest_loop zero rest r = none
ingest_loop (suc fuel) [] r = some r
ingest_loop (suc fuel) (b ∷ rest) r =
    ingest_round (λ carry r'. ingest_loop fuel carry (count_fragment r')) (b ∷ rest) r
    >>= resume (ingest_loop fuel)

-- The bytes that a receiver holds of what is not yet complete.
abbrev pub pending : BatchReassembly → ℕ
pending reassembly = if reassembly.active then reassembly.filled else length reassembly.buffer

abbrev pub enough_fuel : Bytes → Receiver → ℕ
enough_fuel bytes r = 2 * (length bytes + pending r.reassembly) + 3

unfoldable pub ingest_fragment : Ingest
ingest_fragment bytes r = ingest_loop (enough_fuel bytes r) bytes (count_fragment r)
