-- ===== src/Crc.antt =====
-- The checksum of packet.hpp: `crc32_update` and `crc32_compute`, bit by bit on `uint32_t`.
pub mod Bounds
pub mod Detect
mod Tests
use udp_test.Base.{[], ℕ, zero, suc, ◌-◌, ◌/◌, ◌^◌, bit_and, bit_xor, u32, List, ◌∷◌}

-- A buffer: its bytes in order, each below 256.
abbrev pub Bytes : Type 0
Bytes = List ℕ

abbrev pub polynomial : ℕ
polynomial = 0xEDB88320

abbrev pub all_ones : ℕ
all_ones = 0xFFFFFFFF

-- One round of the loop over the bits; the mask is `-(crc & 1u)` on `uint32_t`.
unfoldable pub crc32_round : ℕ → ℕ
crc32_round crc =
    let mask = u32 (2 ^ 32 - bit_and crc 1) in bit_xor (crc / 2) (bit_and polynomial mask)

unfoldable pub crc32_rounds : ℕ → ℕ → ℕ
crc32_rounds zero crc = crc
crc32_rounds (suc bits) crc = crc32_rounds bits (crc32_round crc)

unfoldable pub crc32_update : ℕ → ℕ → ℕ
crc32_update crc byte = crc32_rounds 8 (bit_xor crc byte)

-- The loop of `crc32_compute` from a running value.
unfoldable pub crc32_loop : ℕ → Bytes → ℕ
crc32_loop crc [] = crc
crc32_loop crc (byte ∷ bytes) = crc32_loop (crc32_update crc byte) bytes

unfoldable pub crc32_compute : Bytes → ℕ
crc32_compute bytes = bit_xor (crc32_loop all_ones bytes) all_ones
