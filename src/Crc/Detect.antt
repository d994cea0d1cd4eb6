-- ===== src/Crc/Detect.antt =====
-- `crc32_compute` on buffers with one byte changed.
use udp_test.Base.{
  ℕ, zero, suc, ◌/◌, ◌%◌, ◌^◌, ◌≤◌, ◌<◌, bit_xor, ◌≡◌, ◌≢◌, sym, ◌∙◌, ◌⊎◌, inl, inr, [], ◌∷◌, arith,
  length, set, get_or, IsByte, IsBytes,
}
use udp_test.Base.Bits.{xor_cancel_left, xor_cancel_right, xor_shift, parity}
use udp_test.Crc.{
  Bytes, polynomial, all_ones, crc32_round, crc32_rounds, crc32_update, crc32_loop, crc32_compute,
}
use udp_test.Crc.Bounds.{
  crc32_round-even, crc32_round-odd, crc32_round-lt, xor_byte-lt, crc32_update-lt,
}

-- The polynomial has its highest bit set, so a round that mixed it in leaves that bit set.
mixed_high : (x : ℕ) → x < 2 ^ 31 → 2 ^ 31 ≤ bit_xor x polynomial
mixed_high x h =
    let top : bit_xor x polynomial / 2 ^ 31 ≡ 1 = xor_shift 31 x polynomial ∙ high_bit in
    omega arith
  where
    high_bit : bit_xor (x / 2 ^ 31) 1 ≡ 1
    high_bit = let z : x / 2 ^ 31 ≡ 0 = omega arith in rw z

-- A round loses nothing.
crc32_round_inj : (x y : ℕ) → x < 2 ^ 32 → y < 2 ^ 32 → crc32_round x ≡ crc32_round y → x ≡ y
crc32_round_inj x y hx hy e = decide_parity (parity x) (parity y)
  where
    decide_parity : (x % 2 ≡ 0) ⊎ (x % 2 ≡ 1) → (y % 2 ≡ 0) ⊎ (y % 2 ≡ 1) → x ≡ y
    decide_parity (inl p) (inl q) = omega (arith, e, crc32_round-even x p, crc32_round-even y q)
    decide_parity (inl p) (inr q) = absurd (
        omega
          (arith, e, crc32_round-even x p, crc32_round-odd y q, mixed_high (y / 2) (omega arith)))
    decide_parity (inr p) (inl q) = absurd (
        omega
          (arith, e, crc32_round-odd x p, crc32_round-even y q, mixed_high (x / 2) (omega arith)))
    decide_parity (inr p) (inr q) = omega (
      arith,
      xor_cancel_right (x / 2) (y / 2) polynomial
          (sym (crc32_round-odd x p) ∙ e ∙ crc32_round-odd y q),
    )

crc32_rounds_inj :
    (bits x y : ℕ) → x < 2 ^ 32 → y < 2 ^ 32 → crc32_rounds bits x ≡ crc32_rounds bits y → x ≡ y
unfolding crc32_rounds
crc32_rounds_inj zero x y hx hy e = e
crc32_rounds_inj (suc bits) x y hx hy e = crc32_round_inj x y hx hy (
    crc32_rounds_inj bits (crc32_round x) (crc32_round y) (crc32_round-lt x hx)
      (crc32_round-lt y hy) e)

crc32_update_inj :
    (x y byte : ℕ)
    → x < 2 ^ 32
    → y < 2 ^ 32
    → IsByte byte
    → crc32_update x byte ≡ crc32_update y byte
    → x ≡ y
unfolding crc32_update
crc32_update_inj x y byte hx hy b e = xor_cancel_right x y byte (
    crc32_rounds_inj 8 (bit_xor x byte) (bit_xor y byte) (xor_byte-lt x byte hx b)
      (xor_byte-lt y byte hy b) e)

crc32_update_byte_inj :
    (crc a b : ℕ)
    → crc < 2 ^ 32
    → IsByte a
    → IsByte b
    → crc32_update crc a ≡ crc32_update crc b
    → a ≡ b
unfolding crc32_update
crc32_update_byte_inj crc a b h ha hb e = xor_cancel_left a b crc (
    crc32_rounds_inj 8 (bit_xor crc a) (bit_xor crc b) (xor_byte-lt crc a h ha)
      (xor_byte-lt crc b h hb) e)

crc32_loop_inj :
    (x y : ℕ) (bytes : Bytes)
    → x < 2 ^ 32
    → y < 2 ^ 32
    → IsBytes bytes
    → crc32_loop x bytes ≡ crc32_loop y bytes
    → x ≡ y
unfolding crc32_loop
crc32_loop_inj x y [] hx hy b e = e
crc32_loop_inj x y (byte ∷ bytes) hx hy b e = crc32_update_inj x y byte hx hy b.0 (
    crc32_loop_inj (crc32_update x byte) (crc32_update y byte) bytes (crc32_update-lt x byte hx b.0)
      (crc32_update-lt y byte hy b.0) b.1 e)

crc32_loop-set_inj :
    (crc : ℕ) (bytes : Bytes) (i v : ℕ)
    → crc < 2 ^ 32
    → IsBytes bytes
    → IsByte v
    → i < length bytes
    → crc32_loop crc (set bytes i v) ≡ crc32_loop crc bytes
    → v ≡ get_or bytes i 0
unfolding crc32_loop
crc32_loop-set_inj crc [] i v h b hv hi e = absurd (omega arith)
crc32_loop-set_inj crc (byte ∷ bytes) zero v h b hv hi e =
    crc32_update_byte_inj crc v byte h hv b.0 (
      crc32_loop_inj (crc32_update crc v) (crc32_update crc byte) bytes (crc32_update-lt crc v h hv)
        (crc32_update-lt crc byte h b.0) b.1 e)
crc32_loop-set_inj crc (byte ∷ bytes) (suc i) v h b hv hi e =
    crc32_loop-set_inj (crc32_update crc byte) bytes i v (crc32_update-lt crc byte h b.0) b.1 hv
      (omega arith) e

-- Two buffers of bytes that differ in exactly one byte, wherever it is, have different checksums.
pub crc32_compute-set :
    (bytes : Bytes) (i v : ℕ)
    → IsBytes bytes
    → IsByte v
    → i < length bytes
    → v ≢ get_or bytes i 0
    → crc32_compute (set bytes i v) ≢ crc32_compute bytes
unfolding crc32_compute
crc32_compute-set bytes i v b hv hi differs e = differs (
    crc32_loop-set_inj all_ones bytes i v (omega arith) b hv hi (
      xor_cancel_right (crc32_loop all_ones (set bytes i v)) (crc32_loop all_ones bytes) all_ones
        e))
