-- ===== src/Crc/Tests.antt =====
-- The checksum at the standard check value.
use udp_test.Base.{◌≡◌, ◌≢◌, refl, arith, [], ◌∷◌, set}
use udp_test.Crc.{Bytes, crc32_round, crc32_rounds, crc32_update, crc32_loop, crc32_compute}
use udp_test.Crc.Detect.{crc32_compute-set}

abbrev digits_text : Bytes
digits_text = b'1' ∷ b'2' ∷ b'3' ∷ b'4' ∷ b'5' ∷ b'6' ∷ b'7' ∷ b'8' ∷ b'9' ∷ []

check_value : crc32_compute digits_text ≡ 0xCBF43926
unfolding crc32_compute crc32_loop crc32_update crc32_rounds crc32_round
check_value = refl

crc32_compute-set_example : crc32_compute (set digits_text 4 0) ≢ crc32_compute digits_text
crc32_compute-set_example =
    crc32_compute-set digits_text 4 0 (omega arith) (omega arith) (omega arith) (omega arith)
