-- ===== src/Packet/Tests.antt =====
-- Batches, built, validated and damaged.
use udp_test.Base.{ℕ, ◌≡◌, ◌≢◌, ◌↔◌, refl, arith, [], ◌∷◌, replicate, set, returned}
use udp_test.Crc.{Bytes, crc32_round, crc32_rounds, crc32_update, crc32_loop, crc32_compute}
use udp_test.Packet.{
  read_u32, u32_bytes, read_header, header_bytes, put_crc32, batch_crc32, header_meta_plausible,
  random_bytes, build_batch, validate_batch, peek_batch_length, ok, too_short, bad_crc,
}
use udp_test.Packet.Validity.{IsValidBatch, validate_batch-ok_iff}
use udp_test.Packet.Build.{Built, build_batch-Built}
use udp_test.Packet.Corruption.{validate_batch-set}
use udp_test.Packet.Samples.{counting, first_batch, first_valid}

first_built : build_batch counting (replicate 24 0) 0 2 7 ≡ returned (first_batch, 11)
unfolding build_batch random_bytes header_bytes u32_bytes batch_crc32 put_crc32 crc32_compute
    crc32_loop crc32_update crc32_rounds crc32_round
first_built = refl

damaged : validate_batch (set first_batch 23 11) ≡ bad_crc
unfolding validate_batch read_header read_u32 header_meta_plausible batch_crc32 put_crc32 u32_bytes
    crc32_compute crc32_loop crc32_update crc32_rounds crc32_round
damaged = refl

cut_off : validate_batch (80 ∷ 68 ∷ 85 ∷ 66 ∷ []) ≡ too_short
unfolding validate_batch
cut_off = refl

peeked : peek_batch_length first_batch ≡ 24
unfolding peek_batch_length read_header read_u32 header_meta_plausible
peeked = refl

validate_batch-ok_iff_example : (validate_batch first_batch ≡ ok) ↔ IsValidBatch first_batch
validate_batch-ok_iff_example = validate_batch-ok_iff first_batch

build_batch-Built_example :
    (b : Bytes) × (s' : ℕ) × (build_batch counting (replicate 24 0) 0 2 7 ≡ returned (b, s'))
    × Built counting (replicate 24 0) 0 2 b
build_batch-Built_example =
    build_batch-Built counting (replicate 24 0) 0 2 7 (omega arith) (omega arith) (omega arith)
      (omega arith)

validate_batch-set_example : validate_batch (set first_batch 23 11) ≢ ok
validate_batch-set_example =
    validate_batch-set first_batch 23 11 (omega arith) (omega arith) (omega arith) (omega arith)
      first_valid
