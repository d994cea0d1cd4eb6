-- ===== src/Packet/Samples.antt =====
-- Batches of a run of two, of 24 bytes each, and a batch of 20 bytes that is a run by itself; and the
-- generator whose bytes they hold.
use udp_test.Base.{ℕ, ◌+◌, ◌≡◌, refl, [], ◌∷◌}
use udp_test.Crc.{Bytes, crc32_round, crc32_rounds, crc32_update, crc32_loop, crc32_compute}
use udp_test.Packet.{
  read_u32, u32_bytes, read_header, put_crc32, batch_crc32, header_meta_plausible, validate_batch,
  ok,
}

-- A generator that counts.
abbrev pub counting : ℕ → ℕ × ℕ
counting n = (n, n + 1)

abbrev pub first_batch : Bytes
first_batch =
    80 ∷ 68 ∷ 85 ∷ 66 ∷ 0 ∷ 0 ∷ 0 ∷ 0 ∷ 2 ∷ 0 ∷ 0 ∷ 0 ∷ 24 ∷ 0 ∷ 0 ∷ 0 ∷ 246 ∷ 160 ∷ 146 ∷ 232 ∷ 7
    ∷ 8 ∷ 9 ∷ 10 ∷ []

abbrev pub second_batch : Bytes
second_batch =
    80 ∷ 68 ∷ 85 ∷ 66 ∷ 1 ∷ 0 ∷ 0 ∷ 0 ∷ 2 ∷ 0 ∷ 0 ∷ 0 ∷ 24 ∷ 0 ∷ 0 ∷ 0 ∷ 176 ∷ 155 ∷ 245 ∷ 141 ∷ 7
    ∷ 8 ∷ 9 ∷ 10 ∷ []

abbrev pub bare_batch : Bytes
bare_batch =
    80 ∷ 68 ∷ 85 ∷ 66 ∷ 0 ∷ 0 ∷ 0 ∷ 0 ∷ 1 ∷ 0 ∷ 0 ∷ 0 ∷ 20 ∷ 0 ∷ 0 ∷ 0 ∷ 102 ∷ 186 ∷ 113 ∷ 228 ∷ []

pub first_valid : validate_batch first_batch ≡ ok
unfolding validate_batch read_header read_u32 header_meta_plausible batch_crc32 put_crc32 u32_bytes
    crc32_compute crc32_loop crc32_update crc32_rounds crc32_round
first_valid = refl

pub second_valid : validate_batch second_batch ≡ ok
unfolding validate_batch read_header read_u32 header_meta_plausible batch_crc32 put_crc32 u32_bytes
    crc32_compute crc32_loop crc32_update crc32_rounds crc32_round
second_valid = refl

pub bare_valid : validate_batch bare_batch ≡ ok
unfolding validate_batch read_header read_u32 header_meta_plausible batch_crc32 put_crc32 u32_bytes
    crc32_compute crc32_loop crc32_update crc32_rounds crc32_round
bare_valid = refl
