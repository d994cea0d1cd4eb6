-- ===== src/Base/Word.antt =====
-- The fixed widths of the program's integers: `uint32_t`, and a 64-bit `std::size_t`.
use Prim.Native.Nat.{ℕ, ◌+◌, ◌%◌, ◌^◌}

abbrev pub u32 : ℕ → ℕ
u32 n = n % 2 ^ 32

abbrev pub u64 : ℕ → ℕ
u64 n = n % 2 ^ 64

-- `++x` of a `std::size_t`
abbrev pub incr : ℕ → ℕ
incr n = (n + 1) % 2 ^ 64
