-- ===== src/Server/Scan/First.antt =====
-- What `find_batch_header_offset` finds.
use udp_test.Base.{
  ℕ, zero, suc, ◌+◌, ◌-◌, ◌≤◌, ◌<◌, ◌≡◌, refl, ◌⊎◌, inl, inr, true, false, arith, length, drop,
  length-drop, Bool-cases, le_cases, eq_cases, lt→ltb, ltb, sym, ◌∙◌,
}
use mathlib.Core.Bool.{false≢true}
use udp_test.Crc.{Bytes}
use udp_test.Packet.{peek_batch_length}
use udp_test.Packet.Validity.{IsHeaderFront, peek_batch_length-found, IsHeaderFront-peek}
use udp_test.Server.Scan.{is_batch_length, scan_from, find_batch_header_offset}

is_batch_length-found : (b : Bytes) → IsHeaderFront b → is_batch_length (peek_batch_length b) ≡ true
unfolding is_batch_length
is_batch_length-found b h = ground (arith, peek_batch_length-found b h)

is_batch_length-front : (b : Bytes) → is_batch_length (peek_batch_length b) ≡ true → IsHeaderFront b
unfolding is_batch_length
is_batch_length-front b h = IsHeaderFront-peek b (ground arith)

-- The offset `n` is the answer of a search for a header from `i` on.
pub record IsFirst (bytes : Bytes) (i n : ℕ) : Type 0 where
  pub none_before : (j : ℕ) → i ≤ j → j < n → ¬ IsHeaderFront (drop j bytes)
  pub at_end : (n ≡ length bytes) ⊎ IsHeaderFront (drop n bytes)
  pub in_range : n ≤ length bytes

header_fits : (bytes : Bytes) (j : ℕ) → IsHeaderFront (drop j bytes) → j + 20 ≤ length bytes
header_fits bytes j h = omega (arith, h.long, length-drop j bytes)

scan_from-IsFirst :
    (bytes : Bytes) (left i : ℕ)
    → i + left + 19 ≡ length bytes
    → IsFirst bytes i (scan_from bytes left i)
unfolding scan_from
scan_from-IsFirst bytes zero i e = record {
  none_before = λ j p q h. omega (arith, header_fits bytes j h);
  at_end = inl refl;
  in_range = omega arith;
}
scan_from-IsFirst bytes (suc left) i e =
    elim (Bool-cases (is_batch_length (peek_batch_length (drop i bytes)))) [
      | inl found ↦ rw found (record {
        none_before = λ j p q h. absurd (omega arith);
        at_end = inr (is_batch_length-front (drop i bytes) found);
        in_range = omega arith;
      })
      | inr missing ↦
          rw missing (later missing (scan_from-IsFirst bytes left (i + 1) (omega arith)))
    ]
  where
    later :
        is_batch_length (peek_batch_length (drop i bytes)) ≡ false
        → IsFirst bytes (i + 1) (scan_from bytes left (i + 1))
        → IsFirst bytes i (scan_from bytes left (i + 1))
    later missing rest = record {
      none_before = λ j p q. elim (eq_cases j i) [
        | inl same ↦ rw same (λ h. absurd (false≢true (sym missing ∙ is_batch_length-found _ h)))
        | inr other ↦ rest.none_before j (omega arith) q
      ];
      at_end = rest.at_end;
      in_range = rest.in_range;
    }

-- `find_batch_header_offset` gives an offset at which a header names a batch, or the length of the
-- bytes, and at no earlier offset does a header name a batch.
pub find_batch_header_offset-IsFirst :
    (bytes : Bytes) → IsFirst bytes 0 (find_batch_header_offset bytes)
unfolding find_batch_header_offset
find_batch_header_offset-IsFirst bytes = elim (le_cases 20 (length bytes)) [
  | inl long ↦
      let b : ltb (length bytes) 20 ≡ false = ground arith in
      rw b (scan_from-IsFirst bytes (length bytes - 20 + 1) 0 (omega arith))
  | inr short ↦ rw (lt→ltb (length bytes) 20 short) (record {
    none_before = λ j p q h. omega (arith, header_fits bytes j h);
    at_end = inl refl;
    in_range = omega arith;
  })
]
