-- ===== src/Base/Bits.antt =====
-- Laws of the native exclusive or at variables: the libraries have none.
use Prim.Native.Nat.{
  ℕ, zero, suc, ◌+◌, ◌*◌, ◌/◌, ◌%◌, ◌^◌, ◌≤◌, ◌<◌, min, bit_and, bit_xor, digits, bitwise, differ,
  bit_and-bitwise, bit_xor-bitwise,
}
use mathlib.Core.Path.{◌≡◌, refl, ap, ◌∙◌, sym}
use mathlib.Core.Logic.{◌⊎◌, inl, inr}
use native.Mathlib.Nat.{le_refl, pow-suc, pow-succ', div-one, div-div-eq-div-mul}
use native.Mathlib.Omega.{arith}

-- The fuel of `digits` bounds its first number: any two bounds give the same.
module _ (alone : ℕ → ℕ) (op : ℕ → ℕ → ℕ) where
  digits_bound : (x y k l : ℕ) → x ≤ k → x ≤ l → digits alone op k x y ≡ digits alone op l x y
  digits_bound zero y zero zero hk hl = refl
  digits_bound zero y zero (suc l) hk hl = refl
  digits_bound zero y (suc k) zero hk hl = refl
  digits_bound zero y (suc k) (suc l) hk hl = refl
  digits_bound (suc x) y zero l hk hl = absurd (omega arith)
  digits_bound (suc x) y (suc k) zero hk hl = absurd (omega arith)
  digits_bound (suc x) y (suc k) (suc l) hk hl =
      let low = op (suc x % 2) (y % 2) in
      let half = digits_bound (suc x / 2) (y / 2) k l (omega arith) (omega arith) in
      omega (arith, half)

  -- One digit of the two numbers at a time.
  bitwise_digit :
      (x y : ℕ)
      → op (suc x % 2) (y % 2) + bitwise alone op (suc x / 2) (y / 2) * 2
        ≡ bitwise alone op (suc x) y
  bitwise_digit x y =
      let half = digits_bound (suc x / 2) (y / 2) x (suc x / 2) (omega arith) (omega arith) in
      omega (arith, half)

pub bit_xor_step : (x y : ℕ) → bit_xor x y ≡ bit_xor (x / 2) (y / 2) * 2 + differ (x % 2) (y % 2)
bit_xor_step zero y = simp bit_xor-bitwise (omega arith)
bit_xor_step (suc x) y = simp bit_xor-bitwise (omega (arith, bitwise_digit (λ t. t) differ x y))

-- The two parts of a conjunction, each by its own equation.
bit_and-half : (x y : ℕ) → bit_and x y / 2 ≡ bit_and (x / 2) (y / 2)
bit_and-half zero y = simp bit_and-bitwise (omega arith)
bit_and-half (suc x) y = simp bit_and-bitwise (omega (arith, bitwise_digit (λ t. 0) min x y))

bit_and-low : (x y : ℕ) → bit_and x y % 2 ≡ min (x % 2) (y % 2)
bit_and-low zero y = simp bit_and-bitwise (omega arith)
bit_and-low (suc x) y = simp bit_and-bitwise (omega (arith, bitwise_digit (λ t. 0) min x y))

bit_and-zero : (k x : ℕ) → x ≤ k → bit_and x 0 ≡ 0
bit_and-zero k zero h = refl
bit_and-zero zero (suc x) h = absurd (omega arith)
bit_and-zero (suc k) (suc x) h =
    let rest = bit_and-zero k (suc x / 2) (omega arith) in
    omega (arith, rest, bit_and-half (suc x) 0, bit_and-low (suc x) 0)

abbrev IsBit : ℕ → Type 0
IsBit a = (a ≡ 0) ⊎ (a ≡ 1)

mod_two-IsBit : (a : ℕ) → IsBit (a % 2)
mod_two-IsBit a = omega arith

differ-IsBit : (a b : ℕ) → IsBit a → IsBit b → IsBit (differ a b)
differ-IsBit a b (inl p) (inl q) = rw (p, q) (inl refl)
differ-IsBit a b (inl p) (inr q) = rw (p, q) (inr refl)
differ-IsBit a b (inr p) (inl q) = rw (p, q) (inr refl)
differ-IsBit a b (inr p) (inr q) = rw (p, q) (inl refl)

differ_twice : (a b : ℕ) → IsBit a → IsBit b → differ (differ a b) b ≡ a
differ_twice a b (inl p) (inl q) = rw (p, q)
differ_twice a b (inl p) (inr q) = rw (p, q)
differ_twice a b (inr p) (inl q) = rw (p, q)
differ_twice a b (inr p) (inr q) = rw (p, q)

differ_comm : (a b : ℕ) → IsBit a → IsBit b → differ a b ≡ differ b a
differ_comm a b (inl p) (inl q) = rw (p, q)
differ_comm a b (inl p) (inr q) = rw (p, q)
differ_comm a b (inr p) (inl q) = rw (p, q)
differ_comm a b (inr p) (inr q) = rw (p, q)

xor-IsBit : (a b : ℕ) → IsBit (differ (a % 2) (b % 2))
xor-IsBit a b = differ-IsBit (a % 2) (b % 2) (mod_two-IsBit a) (mod_two-IsBit b)

halves : (a b n : ℕ) → a + b ≤ suc n → (a + b ≡ 0) ⊎ (a / 2 + b / 2 ≤ n)
halves a b n h = omega arith

both_zero : (a b : ℕ) → a + b ≡ 0 → (a ≡ 0) × (b ≡ 0)
both_zero a b h = omega arith

-- The exclusive or with the same number undoes itself.
xor_twice_fuel : (n a b : ℕ) → a + b ≤ n → bit_xor (bit_xor a b) b ≡ a
xor_twice_fuel zero a b h = let z = both_zero a b (omega arith) in rw (z.0, z.1)
xor_twice_fuel (suc n) a b h = elim (halves a b n h) [
  | inl none ↦ let z = both_zero a b none in rw (z.0, z.1)
  | inr less ↦
      let q = bit_xor_step a b in
      let bit = xor-IsBit a b in
      let low = differ_twice (a % 2) (b % 2) (mod_two-IsBit a) (mod_two-IsBit b) in
      let half : bit_xor a b / 2 ≡ bit_xor (a / 2) (b / 2) = omega arith in
      let last : bit_xor a b % 2 ≡ differ (a % 2) (b % 2) = omega arith in
      bit_xor_step (bit_xor a b) b
      ∙ rw (half, last) (omega (arith, xor_twice_fuel n (a / 2) (b / 2) less))
]

pub xor_twice : (a b : ℕ) → bit_xor (bit_xor a b) b ≡ a
xor_twice a b = xor_twice_fuel (a + b) a b (le_refl _)

xor_comm_fuel : (n a b : ℕ) → a + b ≤ n → bit_xor a b ≡ bit_xor b a
xor_comm_fuel zero a b h = let z = both_zero a b (omega arith) in rw (z.0, z.1)
xor_comm_fuel (suc n) a b h = elim (halves a b n h) [
  | inl none ↦ let z = both_zero a b none in rw (z.0, z.1)
  | inr less ↦ omega (
    arith,
    bit_xor_step a b,
    bit_xor_step b a,
    differ_comm (a % 2) (b % 2) (mod_two-IsBit a) (mod_two-IsBit b),
    xor_comm_fuel n (a / 2) (b / 2) less,
  )
]

pub xor_comm : (a b : ℕ) → bit_xor a b ≡ bit_xor b a
xor_comm a b = xor_comm_fuel (a + b) a b (le_refl _)

pub xor_cancel_right : (a b c : ℕ) → bit_xor a c ≡ bit_xor b c → a ≡ b
xor_cancel_right a b c e = sym (xor_twice a c) ∙ ap (λ t. bit_xor t c) e ∙ xor_twice b c

pub xor_cancel_left : (a b c : ℕ) → bit_xor c a ≡ bit_xor c b → a ≡ b
xor_cancel_left a b c e = xor_cancel_right a b c (xor_comm a c ∙ e ∙ xor_comm c b)

div-pow-suc : (a k : ℕ) → a / 2 ^ suc k ≡ a / 2 / 2 ^ k
div-pow-suc a k = rw (pow-succ' 2 k) (sym (div-div-eq-div-mul a 2 (2 ^ k)))

-- Shifting commutes with the exclusive or.
pub xor_shift : (k a b : ℕ) → bit_xor a b / 2 ^ k ≡ bit_xor (a / 2 ^ k) (b / 2 ^ k)
xor_shift zero a b = rw (div-one, div-one, div-one)
xor_shift (suc k) a b =
    let half : bit_xor a b / 2 ≡ bit_xor (a / 2) (b / 2) =
      omega (arith, bit_xor_step a b, xor-IsBit a b) in
    rw (div-pow-suc, div-pow-suc, div-pow-suc, half) (xor_shift k (a / 2) (b / 2))

-- The exclusive or of two k-bit numbers has k bits.
pub xor-lt : (k a b : ℕ) → a < 2 ^ k → b < 2 ^ k → bit_xor a b < 2 ^ k
xor-lt zero a b p q = let z = both_zero a b (omega arith) in rw (z.0, z.1) (omega arith)
xor-lt (suc k) a b p q = omega (
  arith,
  pow-suc 2 k,
  bit_xor_step a b,
  xor-IsBit a b,
  xor-lt k (a / 2) (b / 2) (omega (arith, pow-suc 2 k)) (omega (arith, pow-suc 2 k)),
)

pub xor-zero : (a : ℕ) → bit_xor a 0 ≡ a
xor-zero a = xor_comm a 0 ∙ bit_xor-bitwise 0 a

pub parity : (a : ℕ) → (a % 2 ≡ 0) ⊎ (a % 2 ≡ 1)
parity a = omega arith

-- `x & 1` is the lowest digit.
pub bit_and-one : (x : ℕ) → x % 2 ≡ bit_and x 1
bit_and-one x =
    let rest = bit_and-zero (x / 2) (x / 2) (le_refl _) in
    omega (arith, rest, bit_and-half x 1, bit_and-low x 1)
