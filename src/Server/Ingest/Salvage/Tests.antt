-- ===== src/Server/Ingest/Salvage/Tests.antt =====
-- A run of two batches whose first is damaged: its end is missing, and it takes the second in.
use udp_test.Base.{
  ℕ, zero, suc, ◌+◌, ◌≤◌, ◌<◌, ◌≡◌, refl, ap, inl, inr, Bool, true, arith, eq_cases, ◌==◌, ◌&&◌,
  List, [], ◌∷◌, ◌++◌, drop,
}
use udp_test.Crc.{Bytes, crc32_round, crc32_rounds, crc32_update, crc32_loop, crc32_compute}
use udp_test.Packet.{
  read_u32, u32_bytes, read_header, put_crc32, batch_crc32, header_meta_plausible, validate_batch,
  peek_batch_length, bad_crc,
}
use udp_test.Packet.Validity.{IsHeaderFront, peek_batch_length-found}
use udp_test.Packet.Samples.{second_batch}
use udp_test.Server.Samples.{IsDeliverable-second}
use udp_test.Server.State.{fresh_receiver, fresh_stats}
use udp_test.Server.Ingest.{wanted_seq}
use udp_test.Server.Ingest.Stream.{ingest_all}
use udp_test.Server.Ingest.Salvage.{IsDamaged}
use udp_test.Server.Ingest.Salvage.Run.{Salvaged, ingest_all-Salvaged}

-- The front of the damaged batch: number 0 of 2, 44 bytes long, and its checksum is 0.
abbrev cut_short : Bytes
cut_short = 80 ∷ 68 ∷ 85 ∷ 66 ∷ 0 ∷ 0 ∷ 0 ∷ 0 ∷ 2 ∷ 0 ∷ 0 ∷ 0 ∷ 44 ∷ 0 ∷ 0 ∷ 0 ∷ 0 ∷ 0 ∷ 0 ∷ 0 ∷ []

abbrev outer : Bytes
outer = cut_short ++ second_batch

abbrev none_between : Bytes → ℕ → ℕ → Bool
none_between bytes zero i = true
none_between bytes (suc left) i =
    (peek_batch_length (drop i bytes) == 0) && none_between bytes left (i + 1)

none_between_lem :
    (bytes : Bytes) (left i k : ℕ)
    → none_between bytes left i ≡ true
    → i ≤ k
    → k < i + left
    → peek_batch_length (drop k bytes) ≡ 0
none_between_lem bytes zero i k h low high = absurd (omega arith)
none_between_lem bytes (suc left) i k h low high = elim (eq_cases i k) [
  | inl here ↦ ground (arith, ap (λ n. peek_batch_length (drop n bytes)) here)
  | inr later ↦
      none_between_lem bytes left (i + 1) k (ground arith) (omega (arith, later)) (omega arith)
]

none_before : (i : ℕ) → 0 < i → i < 20 → ¬ IsHeaderFront (drop i outer)
unfolding peek_batch_length read_header read_u32 header_meta_plausible
none_before i low high front = absurd (
    omega (
      arith,
      none_between_lem outer 19 1 i refl (omega arith) (omega arith),
      peek_batch_length-found (drop i outer) front,
      front.meta.holds_header,
    ))

outer_bad : validate_batch outer ≡ bad_crc
unfolding validate_batch read_header read_u32 header_meta_plausible batch_crc32 put_crc32 u32_bytes
    crc32_compute crc32_loop crc32_update crc32_rounds crc32_round
outer_bad = refl

outer-IsDamaged : IsDamaged 2 outer cut_short second_batch []
unfolding read_header read_u32 wanted_seq header_meta_plausible
outer-IsDamaged = record {
  framed = record {
    long = omega arith;
    magic_right = refl;
    length_right = refl;
    meta = record { seq_in = omega arith; holds_header = omega arith; within = omega arith };
  };
  payload = omega arith;
  totalled = refl;
  broken = λ e. ground (arith, outer_bad, e);
  whole = refl;
  behind = omega arith;
  deliverable = IsDeliverable-second;
  wanted = refl;
  none_before = none_before;
}

abbrev three_datagrams : List Bytes
three_datagrams = (80 ∷ 68 ∷ []) ∷ drop 2 cut_short ∷ second_batch ∷ []

ingest_all-Salvaged_example :
    Salvaged 2 fresh_stats
      (second_batch ∷ [])
      three_datagrams
      (ingest_all three_datagrams fresh_receiver)
ingest_all-Salvaged_example =
    ingest_all-Salvaged 2 outer cut_short second_batch [] outer-IsDamaged (second_batch ∷ [])
      (IsDeliverable-second, tt) [] refl three_datagrams fresh_receiver refl (inl refl) refl refl
