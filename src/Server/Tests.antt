-- ===== src/Server/Tests.antt =====
-- The receiver on small inputs: two batches cut across datagrams, a damaged one, one with no payload.
use udp_test.Base.{
  ℕ, ◌+◌, ◌^◌, ◌≡◌, refl, inl, arith, ◌<◌, true, Option, none, some, [], ◌∷◌, ◌++◌, take,
}
use udp_test.Crc.{crc32_round, crc32_rounds, crc32_update, crc32_loop, crc32_compute}
use udp_test.Packet.{
  read_u32, u32_bytes, read_header, put_crc32, batch_crc32, header_meta_plausible, validate_batch,
  validate_batch_session, peek_batch_length,
}
use udp_test.Packet.Samples.{first_batch, second_batch, bare_batch}
use udp_test.Server.Samples.{two_datagrams, IsDeliverable-first, IsDeliverable-second}
use udp_test.Server.State.{Receiver, ServerStats, fresh_receiver, fresh_stats}
use udp_test.Server.Sequence.{contains, track_sequence, lost_upper, add_lost, finalize_lost}
use udp_test.Server.Sequence.Lost.{finalize_lost_total, finalize_lost_diverges}
use udp_test.Server.Mss.{count_of, infer_detected_mss}
use udp_test.Server.Mss.Mode.{Dominates, infer_detected_mss-mode}
use udp_test.Server.Scan.{
  is_batch_length, scan_from, find_batch_header_offset, try_offset, scan_next_from,
  find_next_batch_header_offset,
}
use udp_test.Server.Scan.First.{IsFirst, find_batch_header_offset-IsFirst}
use udp_test.Server.Scan.Next.{EndsScan, find_next_batch_header_offset-Ends}
use udp_test.Server.Ingest.{
  wanted_seq, salvage, recover, accept, try_complete_batch, fill_header, realign, activate,
  examine_header, collect_header, seek_header, absorb, continue_batch, ingest_round, ingest_loop,
  ingest_fragment,
}
use udp_test.Server.Ingest.Total.{Ends, ingest_fragment-Ends}
use udp_test.Server.Ingest.Accounts.Loop.{Accounts, ingest_all-Accounts}
use udp_test.Server.Ingest.Stream.{ingest_all}
use udp_test.Server.Ingest.Delivery.{Delivered, ingest_all-Delivered}

abbrev counts : Option Receiver → Option (ℕ × ℕ × ℕ)
counts none = none
counts (some r) = some (r.stats.batches, r.stats.bad_batches, r.reassembly.filled)

-- The last byte of the first batch is wrong: it is counted as bad, and the second as received.
damaged_first :
    counts (ingest_all ((take 23 first_batch ++ 11 ∷ second_batch) ∷ []) fresh_receiver)
    ≡ some (1, 1, 0)
unfolding ingest_fragment ingest_loop ingest_round continue_batch absorb seek_header collect_header
    examine_header activate realign fill_header try_complete_batch accept recover salvage wanted_seq
    find_next_batch_header_offset scan_next_from try_offset find_batch_header_offset scan_from
    is_batch_length contains track_sequence validate_batch read_header read_u32
    header_meta_plausible batch_crc32 validate_batch_session peek_batch_length crc32_compute
    crc32_loop crc32_update crc32_rounds crc32_round put_crc32 u32_bytes
damaged_first = refl

-- The first batch lacks its end: the second, which is inside what is taken for it, is lost with it.
short_first :
    counts (ingest_all ((take 23 first_batch ++ second_batch) ∷ []) fresh_receiver) ≡ some (0, 1, 0)
unfolding ingest_fragment ingest_loop ingest_round continue_batch absorb seek_header collect_header
    examine_header activate realign fill_header try_complete_batch accept recover salvage wanted_seq
    find_next_batch_header_offset scan_next_from try_offset find_batch_header_offset scan_from
    is_batch_length contains track_sequence validate_batch read_header read_u32
    header_meta_plausible batch_crc32 validate_batch_session peek_batch_length crc32_compute
    crc32_loop crc32_update crc32_rounds crc32_round put_crc32 u32_bytes
short_first = refl

-- Bytes in front of a header are skipped.
noise_first : counts (ingest_all ((1 ∷ 2 ∷ 3 ∷ first_batch) ∷ []) fresh_receiver) ≡ some (1, 0, 0)
unfolding ingest_fragment ingest_loop ingest_round continue_batch absorb seek_header collect_header
    examine_header activate realign fill_header try_complete_batch accept recover salvage wanted_seq
    find_next_batch_header_offset scan_next_from try_offset find_batch_header_offset scan_from
    is_batch_length contains track_sequence validate_batch read_header read_u32
    header_meta_plausible batch_crc32 validate_batch_session peek_batch_length crc32_compute
    crc32_loop crc32_update crc32_rounds crc32_round put_crc32 u32_bytes
noise_first = refl

-- Of two batches with no payload the last one stays in the buffer.
bare_last : counts (ingest_all (bare_batch ∷ bare_batch ∷ []) fresh_receiver) ≡ some (1, 0, 20)
unfolding ingest_fragment ingest_loop ingest_round continue_batch absorb seek_header collect_header
    examine_header activate realign fill_header try_complete_batch accept recover salvage wanted_seq
    find_next_batch_header_offset scan_next_from try_offset find_batch_header_offset scan_from
    is_batch_length contains track_sequence validate_batch read_header read_u32
    header_meta_plausible batch_crc32 validate_batch_session peek_batch_length crc32_compute
    crc32_loop crc32_update crc32_rounds crc32_round put_crc32 u32_bytes
bare_last = refl

ingest_all-Delivered_example :
    Delivered 2 fresh_stats
      (first_batch ∷ second_batch ∷ [])
      two_datagrams
      (ingest_all two_datagrams fresh_receiver)
ingest_all-Delivered_example =
    ingest_all-Delivered 2 two_datagrams (first_batch ∷ second_batch ∷ []) fresh_receiver refl
      (IsDeliverable-first, (IsDeliverable-second, tt)) (inl refl) refl refl (omega arith)

ingest_fragment-Ends_example : Ends 24 (ingest_fragment first_batch fresh_receiver)
ingest_fragment-Ends_example = ingest_fragment-Ends first_batch fresh_receiver (omega arith)

-- Number 1 of three is missing.
abbrev gap : ServerStats
gap = record fresh_stats {
  batches = 2;
  seen_seq = 2 ∷ 0 ∷ [];
  have_seq = true;
  highest_seq = 2;
  wire_batch_total = some 3;
}

finalize_lost_total_example :
    (lost : ℕ) × (finalize_lost gap none ≡ some (record gap { lost = lost })) × (lost + 2 ≡ 3)
unfolding contains
finalize_lost_total_example =
    finalize_lost_total gap none 3 refl (omega arith) (omega arith) refl (refl, (refl, tt))
      (omega arith)

finalize_lost_diverges_example :
    ((rounds : ℕ) → add_lost rounds gap (lost_upper (some (2 ^ 32)) gap) ≡ none)
    × (finalize_lost gap (some (2 ^ 32)) ≡ none)
finalize_lost_diverges_example = finalize_lost_diverges gap (2 ^ 32) refl (omega arith)

infer_detected_mss-mode_example :
    (m : ℕ) × (infer_detected_mss (9 ∷ 4 ∷ 9 ∷ []) ≡ some m)
    × (0 < count_of m (9 ∷ 4 ∷ 9 ∷ []))
    × ((v : ℕ) → Dominates (9 ∷ 4 ∷ 9 ∷ []) m v)
infer_detected_mss-mode_example = infer_detected_mss-mode (9 ∷ 4 ∷ 9 ∷ []) (omega arith)

find_batch_header_offset-IsFirst_example :
    IsFirst (1 ∷ 2 ∷ first_batch) 0 (find_batch_header_offset (1 ∷ 2 ∷ first_batch))
find_batch_header_offset-IsFirst_example = find_batch_header_offset-IsFirst (1 ∷ 2 ∷ first_batch)

find_next_batch_header_offset-Ends_example :
    EndsScan
      (first_batch ++ second_batch)
      (some 1)
      (some 2)
      1
      (find_next_batch_header_offset (first_batch ++ second_batch) (some 1) (some 2))
find_next_batch_header_offset-Ends_example =
    find_next_batch_header_offset-Ends (first_batch ++ second_batch) (some 1) (some 2)

ingest_all-Accounts_example : Accounts (ingest_all two_datagrams fresh_receiver)
ingest_all-Accounts_example = ingest_all-Accounts two_datagrams
