-- ===== src/Server/Scan.antt =====
-- `find_batch_header_offset` and `find_next_batch_header_offset`. The list is `[data, data + len)`,
-- so both return its length where no header is found.
pub mod First
pub mod Next
use udp_test.Base.{
  ℕ, zero, suc, ◌+◌, ◌-◌, ◌*◌, Bool, true, false, not, ◌&&◌, ◌||◌, Option, none, some, ltb, leb,
  ◌==◌, if◌then◌else◌, length, drop,
}
use udp_test.Crc.{Bytes}
use udp_test.Packet.{
  packet_header_size, read_header, header_meta_plausible, peek_batch_length, ok,
  validate_batch_session,
}

-- `kMaxBatchSize` of common.hpp
abbrev pub max_batch_size : ℕ
max_batch_size = 64 * 1024

-- The test of the first scan.
unfoldable pub is_batch_length : ℕ → Bool
is_batch_length batch_len = leb packet_header_size batch_len && leb batch_len max_batch_size

-- The loop from `i` on, with the number of offsets left.
unfoldable pub scan_from : Bytes → ℕ → ℕ → ℕ
scan_from bytes zero i = length bytes
scan_from bytes (suc left) i =
    let rest = scan_from bytes left (i + 1) in
    if is_batch_length (peek_batch_length (drop i bytes)) then i else rest

unfoldable pub find_batch_header_offset : Bytes → ℕ
find_batch_header_offset bytes =
    if ltb (length bytes) packet_header_size
    then length bytes
    else scan_from bytes (length bytes - packet_header_size + 1) 0

-- An unset option matches every number.
abbrev pub matches : Option ℕ → ℕ → Bool
matches none n = true
matches (some wanted) n = n == wanted

-- One round of the second scan: whether it returns here, and the session's total after it.
unfoldable pub try_offset : Bytes → Option ℕ → Option ℕ → Bool × Option ℕ
try_offset at want_seq wire_batch_total =
    let batch_len = peek_batch_length at in
    let candidate = read_header at in
    if ltb batch_len packet_header_size || ltb max_batch_size batch_len
    then (false, wire_batch_total)
    else if not (header_meta_plausible candidate.seq candidate.batch_total candidate.length)
    then (false, wire_batch_total)
    else if not (matches want_seq candidate.seq)
    then (false, wire_batch_total)
    else if not (matches wire_batch_total candidate.batch_total)
    then (false, wire_batch_total)
    else let (check, total) = validate_batch_session candidate wire_batch_total in
      elim check [ ok ↦ (candidate.length == batch_len, total) | _ ↦ (false, total) ]

unfoldable pub scan_next_from : Bytes → Option ℕ → Option ℕ → ℕ → ℕ → ℕ × Option ℕ
scan_next_from bytes want_seq wire zero i = (length bytes, wire)
scan_next_from bytes want_seq wire (suc left) i =
    let (found, wire') = try_offset (drop i bytes) want_seq wire in
    let rest = scan_next_from bytes want_seq wire' left (i + 1) in
    if found then (i, wire') else rest

-- The offset, and the session's total, which goes by reference. The scan starts at 1.
unfoldable pub find_next_batch_header_offset : Bytes → Option ℕ → Option ℕ → ℕ × Option ℕ
find_next_batch_header_offset bytes want_seq wire =
    if ltb (length bytes) packet_header_size
    then (length bytes, wire)
    else scan_next_from bytes want_seq wire (length bytes - packet_header_size) 1
