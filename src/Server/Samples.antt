-- ===== src/Server/Samples.antt =====
-- A stream of two batches, and what a new session makes of it.
use udp_test.Base.{arith, ◌≡◌, refl, true, some, List, [], ◌∷◌, ◌++◌, take, drop}
use udp_test.Crc.{Bytes, crc32_round, crc32_rounds, crc32_update, crc32_loop, crc32_compute}
use udp_test.Packet.{
  read_u32, u32_bytes, read_header, put_crc32, batch_crc32, header_meta_plausible, validate_batch,
  validate_batch_session, peek_batch_length,
}
use udp_test.Packet.Validity.{validate_batch-ok_iff}
use udp_test.Packet.Samples.{first_batch, second_batch, first_valid, second_valid}
use udp_test.Server.State.{Receiver, fresh_receiver, reset_reassembly}
use udp_test.Server.Sequence.{contains, track_sequence}
use udp_test.Server.Scan.{
  is_batch_length, scan_from, find_batch_header_offset, try_offset, scan_next_from,
  find_next_batch_header_offset,
}
use udp_test.Server.Ingest.{
  wanted_seq, salvage, recover, accept, try_complete_batch, fill_header, realign, activate,
  examine_header, collect_header, seek_header, absorb, continue_batch, ingest_round, ingest_loop,
  ingest_fragment,
}
use udp_test.Server.Ingest.Stream.{IsDeliverable, ingest_all}

-- Two batches in three datagrams.
abbrev pub two_datagrams : List Bytes
two_datagrams =
    take 5 first_batch ∷ (drop 5 first_batch ++ take 23 second_batch) ∷ drop 23 second_batch ∷ []

abbrev pub two_received : Receiver
two_received = record {
  stats = record {
    batches = 2;
    fragments = 3;
    bad_batches = 0;
    lost = 0;
    duplicates = 0;
    out_of_order = 0;
    seen_seq = 1 ∷ 0 ∷ [];
    have_seq = true;
    highest_seq = 1;
    wire_batch_total = some 2;
  };
  reassembly = reset_reassembly;
}

pub receive_two : ingest_all two_datagrams fresh_receiver ≡ some two_received
unfolding ingest_fragment ingest_loop ingest_round continue_batch absorb seek_header collect_header
    examine_header activate realign fill_header try_complete_batch accept recover salvage wanted_seq
    find_next_batch_header_offset scan_next_from try_offset find_batch_header_offset scan_from
    is_batch_length contains track_sequence validate_batch read_header read_u32
    header_meta_plausible batch_crc32 validate_batch_session peek_batch_length crc32_compute
    crc32_loop crc32_update crc32_rounds crc32_round put_crc32 u32_bytes
receive_two = refl

pub IsDeliverable-first : IsDeliverable 2 first_batch
unfolding read_header read_u32
IsDeliverable-first = record {
  valid = (validate_batch-ok_iff first_batch).0 first_valid;
  payload = omega arith;
  totalled = refl;
}

pub IsDeliverable-second : IsDeliverable 2 second_batch
unfolding read_header read_u32
IsDeliverable-second = record {
  valid = (validate_batch-ok_iff second_batch).0 second_valid;
  payload = omega arith;
  totalled = refl;
}
