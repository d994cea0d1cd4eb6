-- ===== src/Options/Numbers.antt =====
-- The ranges of the numbers on the command line.
use Prim.Native.Char.{code}
use Prim.Native.String.{String, [], ◌∷◌}
use udp_test.Base.{
  ℕ, ◌^◌, ◌≤◌, ◌<◌, Bool, true, false, Option, none, some, arith, ◌==◌, Bool-cases, inl, inr,
}
use udp_test.Packet.{packet_header_size}
use udp_test.Server.Scan.{max_batch_size}
use udp_test.Options.{
  is_space, signed, magnitude, unsigned_number, stoull, stoul, parse_port, parse_batch_size,
  parse_count,
}
use udp_test.Options.Arguments.{OnReturn, bind-OnReturn, then-OnReturn}

abbrev IsU64 : ℕ → Type 0
IsU64 n = n < 2 ^ 64

signed-IsU64 : (negative : Bool) (m : Option ℕ) → OnReturn IsU64 (signed (2 ^ 64) negative m)
signed-IsU64 negative none = tt
signed-IsU64 negative (some value) = ground arith

stoull-IsU64 : (text : String) → OnReturn IsU64 (stoull text)
unfolding unsigned_number
stoull-IsU64 [] = tt
stoull-IsU64 (c ∷ text) = elim (Bool-cases (is_space c)) [
  | inl space ↦ rw space (stoull-IsU64 text)
  | inr other ↦ elim (Bool-cases (code c == 45)) [
    | inl minus ↦ rw (other, minus) (signed-IsU64 true (magnitude text))
    | inr more ↦ elim (Bool-cases (code c == 43)) [
      | inl plus ↦ rw (other, more, plus) (signed-IsU64 false (magnitude text))
      | inr digit ↦ rw (other, more, digit) (signed-IsU64 false (magnitude (c ∷ text)))
    ]
  ]
]

pub parse_port-bound :
    (windows : Bool) (text : String) → OnReturn (λ n. n ≤ 65535) (parse_port windows text)
unfolding parse_port
parse_port-bound windows text =
    then-OnReturn (λ n. n ≤ 65535) (stoul windows text) _ (λ n. ground arith)

pub parse_batch_size-bound :
    (text : String)
    → OnReturn (λ n. (packet_header_size ≤ n) × (n ≤ max_batch_size)) (parse_batch_size text)
unfolding parse_batch_size
parse_batch_size-bound text =
    bind-OnReturn IsU64 (λ n. (packet_header_size ≤ n) × (n ≤ max_batch_size)) (stoull text) _
      (stoull-IsU64 text) (λ n p. ground arith)

pub parse_count-bound : (text : String) → OnReturn (λ n. (0 < n) × (n < 2 ^ 64)) (parse_count text)
unfolding parse_count
parse_count-bound text =
    bind-OnReturn IsU64 (λ n. (0 < n) × (n < 2 ^ 64)) (stoull text) _ (stoull-IsU64 text)
      (λ n p. ground arith)
