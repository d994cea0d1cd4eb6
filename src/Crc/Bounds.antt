-- ===== src/Crc/Bounds.antt =====
-- The range of the values that `crc32_update` and `crc32_compute` go through.
use udp_test.Base.{
  ℕ, zero, suc, ◌/◌, ◌%◌, ◌^◌, ◌<◌, bit_xor, ◌≡◌, sym, inl, inr, [], ◌∷◌, arith, IsByte, IsBytes,
}
use udp_test.Base.Bits.{xor-lt, xor-zero, bit_and-one, parity}
use udp_test.Crc.{
  Bytes, polynomial, all_ones, crc32_round, crc32_rounds, crc32_update, crc32_loop, crc32_compute,
}

-- A round is a shift, with the polynomial mixed in when the lowest bit was set.
pub crc32_round-even : (crc : ℕ) → crc % 2 ≡ 0 → crc32_round crc ≡ crc / 2
unfolding crc32_round
crc32_round-even crc even = rw (sym (bit_and-one crc), even) (xor-zero (crc / 2))

pub crc32_round-odd : (crc : ℕ) → crc % 2 ≡ 1 → crc32_round crc ≡ bit_xor (crc / 2) polynomial
unfolding crc32_round
crc32_round-odd crc odd = rw (sym (bit_and-one crc), odd)

pub crc32_round-lt : (crc : ℕ) → crc < 2 ^ 32 → crc32_round crc < 2 ^ 32
crc32_round-lt crc h = elim (parity crc) [
  | inl even ↦ rw (crc32_round-even crc even) (omega arith)
  | inr odd ↦
      rw (crc32_round-odd crc odd) (xor-lt 32 (crc / 2) polynomial (omega arith) (omega arith))
]

pub crc32_rounds-lt : (bits crc : ℕ) → crc < 2 ^ 32 → crc32_rounds bits crc < 2 ^ 32
unfolding crc32_rounds
crc32_rounds-lt zero crc h = h
crc32_rounds-lt (suc bits) crc h = crc32_rounds-lt bits (crc32_round crc) (crc32_round-lt crc h)

pub xor_byte-lt : (crc byte : ℕ) → crc < 2 ^ 32 → IsByte byte → bit_xor crc byte < 2 ^ 32
xor_byte-lt crc byte h b = xor-lt 32 crc byte h (omega arith)

pub crc32_update-lt : (crc byte : ℕ) → crc < 2 ^ 32 → IsByte byte → crc32_update crc byte < 2 ^ 32
unfolding crc32_update
crc32_update-lt crc byte h b = crc32_rounds-lt 8 (bit_xor crc byte) (xor_byte-lt crc byte h b)

pub crc32_loop-lt :
    (crc : ℕ) (bytes : Bytes) → crc < 2 ^ 32 → IsBytes bytes → crc32_loop crc bytes < 2 ^ 32
unfolding crc32_loop
crc32_loop-lt crc [] h b = h
crc32_loop-lt crc (byte ∷ bytes) h b =
    crc32_loop-lt (crc32_update crc byte) bytes (crc32_update-lt crc byte h b.0) b.1

-- The checksum of any buffer of bytes is below 2 ^ 32.
pub crc32_compute-lt : (bytes : Bytes) → IsBytes bytes → crc32_compute bytes < 2 ^ 32
unfolding crc32_compute
crc32_compute-lt bytes b =
    xor-lt 32 (crc32_loop all_ones bytes) all_ones (crc32_loop-lt all_ones bytes (omega arith) b)
      (omega arith)
