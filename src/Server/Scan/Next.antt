-- ===== src/Server/Scan/Next.antt =====
-- Where `find_next_batch_header_offset` can end.
use udp_test.Base.{
  ℕ, zero, suc, ◌+◌, ◌-◌, ◌≤◌, ◌<◌, ◌≡◌, ◌⊎◌, inl, inr, refl, true, false, Option, none, some,
  arith, length, drop, Bool-cases, eq_cases, ltb, lt→ltb, le_cases,
}
use udp_test.Packet.{read_header, peek_batch_length, validate_batch_session}
use udp_test.Packet.Validity.{IsHeaderFront, IsHeaderFront-peek, peek_batch_length-found}
use udp_test.Crc.{Bytes}
use udp_test.Server.Scan.{matches, try_offset, scan_next_from, find_next_batch_header_offset}

scan_next_from-pos :
    (bytes : Bytes) (want wire : Option ℕ) (left i : ℕ)
    → 0 < i
    → 0 < length bytes
    → 0 < (scan_next_from bytes want wire left i).0
unfolding scan_next_from
scan_next_from-pos bytes want wire zero i p q = q
scan_next_from-pos bytes want wire (suc left) i p q =
    ground
      (arith, scan_next_from-pos bytes want (try_offset (drop i bytes) want wire).1 left (i + 1))

-- The scan never stays where it is, so what is carried over is shorter than the batch.
pub find_next_batch_header_offset-pos :
    (bytes : Bytes) (want wire : Option ℕ)
    → 0 < length bytes
    → 0 < (find_next_batch_header_offset bytes want wire).0
unfolding find_next_batch_header_offset
find_next_batch_header_offset-pos bytes want wire h =
    ground (arith, scan_next_from-pos bytes want wire (length bytes - 20) 1)

-- A header that the scan may stop at: it names a batch, has the number looked for, and the session
-- has its total.
pub record IsCandidate (at : Bytes) (want wire wire' : Option ℕ) : Type 0 where
  pub front : IsHeaderFront at
  pub wanted : matches want (read_header at).seq ≡ true
  pub in_session : matches wire (read_header at).batch_total ≡ true
  pub session_after : wire' ≡ some (read_header at).batch_total

try_offset-found :
    (at : Bytes) (want wire : Option ℕ)
    → (try_offset at want wire).0 ≡ true
    → IsCandidate at want wire (try_offset at want wire).1
unfolding try_offset validate_batch_session
try_offset-found at want none h = ground (arith, IsHeaderFront-peek at)
try_offset-found at want (some t) h = ground (arith, IsHeaderFront-peek at)

try_offset-missed :
    (at : Bytes) (want wire : Option ℕ)
    → (try_offset at want wire).0 ≡ false
    → (try_offset at want wire).1 ≡ wire
unfolding try_offset validate_batch_session
try_offset-missed at want none h = elim (eq_cases (peek_batch_length at) 0) [
  | inl nothing ↦ ground arith
  | inr found ↦ ground (arith, peek_batch_length-found at (IsHeaderFront-peek at found))
]
try_offset-missed at want (some t) h = ground arith

-- Where the scan ends, and with which total: at the end of the bytes, with the total it began with,
-- or behind the front, at a candidate.
pub record IsCandidateAt (bytes : Bytes) (want wire : Option ℕ) (i n : ℕ) (wire' : Option ℕ)
    : Type 0 where
  pub behind : i ≤ n
  pub candidate : IsCandidate (drop n bytes) want wire wire'

abbrev pub EndsScan : Bytes → Option ℕ → Option ℕ → ℕ → ℕ × Option ℕ → Type 0
EndsScan bytes want wire i (n, wire') =
    ((n ≡ length bytes) × (wire' ≡ wire)) ⊎ IsCandidateAt bytes want wire i n wire'

later :
    (bytes : Bytes) (want wire : Option ℕ) (i : ℕ) (r : ℕ × Option ℕ)
    → EndsScan bytes want wire (i + 1) r
    → EndsScan bytes want wire i r
later bytes want wire i (n, wire') (inl ended) = inl ended
later bytes want wire i (n, wire') (inr c) =
    inr (record { behind = omega (arith, c.behind); candidate = c.candidate })

scan_next_from-Ends :
    (bytes : Bytes) (want wire : Option ℕ) (left i : ℕ)
    → EndsScan bytes want wire i (scan_next_from bytes want wire left i)
unfolding scan_next_from
scan_next_from-Ends bytes want wire zero i = inl (refl, refl)
scan_next_from-Ends bytes want wire (suc left) i =
    let at = drop i bytes in
    elim (Bool-cases (try_offset at want wire).0) [
      | inl hit ↦
          rw hit
            (inr (record { behind = omega arith; candidate = try_offset-found at want wire hit }))
      | inr miss ↦
          rw (miss, try_offset-missed at want wire miss)
            (later bytes want wire i (scan_next_from bytes want wire left (i + 1))
              (scan_next_from-Ends bytes want wire left (i + 1)))
    ]

-- `find_next_batch_header_offset` ends at the end of the bytes, with the session's total as it was,
-- or at an offset of at least 1, at a header that names a batch and has the number looked for and
-- the session's total, which is then set.
pub find_next_batch_header_offset-Ends :
    (bytes : Bytes) (want wire : Option ℕ)
    → EndsScan bytes want wire 1 (find_next_batch_header_offset bytes want wire)
unfolding find_next_batch_header_offset
find_next_batch_header_offset-Ends bytes want wire = elim (le_cases 20 (length bytes)) [
  | inl long ↦
      let b : ltb (length bytes) 20 ≡ false = ground arith in
      rw b (scan_next_from-Ends bytes want wire (length bytes - 20) 1)
  | inr short ↦ rw (lt→ltb (length bytes) 20 short) (inl (refl, refl))
]
