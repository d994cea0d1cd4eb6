-- ===== src/Server/Ingest/Salvage.antt =====
-- What `try_complete_batch` keeps of a batch whose checksum is wrong: a complete batch inside it.
pub mod Recover
pub mod Passed
pub mod Resumes
pub mod Run
mod Tests
use udp_test.Base.{
  ℕ, zero, suc, ◌+◌, ◌-◌, ◌≤◌, ◌<◌, ◌≡◌, ◌≢◌, refl, sym, ap, subst, ◌∙◌, inl, inr, true, false,
  Option, some, ◌++◌, arith, length, drop, length-append, take_all, take-append_self,
  drop-append_self, ltb, leb, eq_cases,
}
use udp_test.Crc.{Bytes}
use udp_test.Packet.{
  PacketHeader, packet_header_size, read_header, validate_batch, validate_batch_session, ok,
}
use udp_test.Packet.Layout.{read_header-append}
use udp_test.Packet.Validity.{
  IsFramed, IsHeaderFront, IsPlausible, plausible, plausible_iff, validate_batch-ok_iff,
  validate_batch_session-ok, peek_batch_length-found, peek_batch_length-missing,
}
use udp_test.Server.Scan.{matches, try_offset, scan_next_from, find_next_batch_header_offset}
use udp_test.Server.Ingest.{wanted_seq, salvage}
use udp_test.Server.Ingest.Stream.{IsDeliverable}

-- A batch of a run that is well framed, but whose checksum is wrong. Inside it stands a complete
-- batch of the run, which has the number that is looked for, and at no offset before that, but the
-- start, is there another header.
pub record IsDamaged (total : ℕ) (outer pre inner tail : Bytes) : Type 0 where
  pub framed : IsFramed outer
  pub payload : packet_header_size < length outer
  pub totalled : (read_header outer).batch_total ≡ total
  pub broken : validate_batch outer ≢ ok
  pub whole : outer ≡ pre ++ (inner ++ tail)
  pub behind : 0 < length pre
  pub deliverable : IsDeliverable total inner
  pub wanted : matches (wanted_seq (read_header outer)) (read_header inner).seq ≡ true
  pub none_before : (i : ℕ) → 0 < i → i < length pre → ¬ IsHeaderFront (drop i outer)

try_offset-no_header :
    (at : Bytes) (want wire : Option ℕ)
    → ¬ IsHeaderFront at
    → try_offset at want wire ≡ (false, wire)
unfolding try_offset
try_offset-no_header at want wire missing = rw (peek_batch_length-missing at missing) refl

-- A header of the session with the number that is looked for passes.
try_offset-candidate :
    (at : Bytes) (want : Option ℕ) (total : ℕ)
    → IsHeaderFront at
    → matches want (read_header at).seq ≡ true
    → (read_header at).batch_total ≡ total
    → try_offset at want (some total) ≡ (true, some total)
unfolding try_offset
try_offset-candidate at want total front wanted totalled =
    ground (arith, peek_batch_length-found at front, likely, session, totalled)
  where
    likely : plausible (read_header at) ≡ true
    likely = (plausible_iff (read_header at)).1 front.meta

    session :
        validate_batch_session (read_header at) (some total)
        ≡ (ok, some (read_header at).batch_total)
    session = validate_batch_session-ok (read_header at) (some total) (front.meta, sym totalled)

-- The scan stops at the first offset that passes, where no header stands in front of it.
scan_next_from-first :
    (bytes : Bytes) (want wire : Option ℕ) (left i k : ℕ)
    → i ≤ k
    → k < i + left
    → ((j : ℕ) → i ≤ j → j < k → ¬ IsHeaderFront (drop j bytes))
    → try_offset (drop k bytes) want wire ≡ (true, wire)
    → scan_next_from bytes want wire left i ≡ (k, wire)
unfolding scan_next_from
scan_next_from-first bytes want wire zero i k before within none_before found = absurd (omega arith)
scan_next_from-first bytes want wire (suc left) i k before within none_before found =
    elim (eq_cases i k) [
      | inl here ↦ rw (here, found) refl
      | inr later ↦
          rw
            (try_offset-no_header (drop i bytes) want wire
              (none_before i (omega arith) (omega (arith, later))))
            (scan_next_from-first bytes want wire left (i + 1) k (omega (arith, later))
              (omega arith) (λ j h. none_before j (omega (arith, h))) found)
    ]

module _ (total : ℕ) (outer pre inner tail : Bytes)
    (damaged : IsDamaged total outer pre inner tail) where
  lengths : length outer ≡ length pre + (length inner + length tail)
  lengths =
      ap length damaged.whole
      ∙ length-append pre (inner ++ tail)
      ∙ ap (λ n. length pre + n) (length-append inner tail)

  at_carry : drop (length pre) outer ≡ inner ++ tail
  at_carry =
      ap (drop (length pre)) damaged.whole ∙ drop-append_self pre (inner ++ tail) (length pre) refl

  read_header-carry : read_header (inner ++ tail) ≡ read_header inner
  read_header-carry = read_header-append inner tail (damaged.deliverable.valid.long)

  pub front-carry : IsHeaderFront (inner ++ tail)
  front-carry =
      let valid = damaged.deliverable.valid in
      record {
        long = omega (arith, length-append inner tail, valid.long);
        magic_right = ap (λ (h : PacketHeader). h.magic) read_header-carry ∙ valid.magic_right;
        meta = subst IsPlausible (sym read_header-carry) valid.meta;
      }

  try_offset-carry :
      try_offset (inner ++ tail) (wanted_seq (read_header outer)) (some total) ≡ (true, some total)
  try_offset-carry =
      try_offset-candidate (inner ++ tail) (wanted_seq (read_header outer)) total front-carry
        (ap (λ (h : PacketHeader). matches (wanted_seq (read_header outer)) h.seq) read_header-carry
          ∙ damaged.wanted)
        (ap (λ (h : PacketHeader). h.batch_total) read_header-carry ∙ damaged.deliverable.totalled)

  find_next-carry :
      find_next_batch_header_offset outer (wanted_seq (read_header outer)) (some total)
      ≡ (length pre, some total)
  unfolding find_next_batch_header_offset
  find_next-carry =
      let long : ltb (length outer) packet_header_size ≡ false =
        ground (arith, damaged.framed.long) in
      rw long (
        scan_next_from-first outer (wanted_seq (read_header outer)) (some total)
          (length outer - packet_header_size) 1 (length pre) (damaged.behind)
          (omega (arith, lengths, damaged.deliverable.valid.long)) damaged.none_before
          (ap (λ at. try_offset at (wanted_seq (read_header outer)) (some total)) at_carry
            ∙ try_offset-carry))

  -- What is carried over: everything from the complete batch on.
  pub salvage-carry :
      salvage (read_header outer) (length outer) outer (some total) ≡ (inner ++ tail, some total)
  unfolding salvage
  salvage-carry =
      rw
        (
          take_all (length outer) outer (omega arith),
          find_next-carry,
          at_carry,
          read_header-carry,
          damaged.deliverable.valid.length_right,
          take-append_self inner tail (length inner) refl,
          (validate_batch-ok_iff inner).1 damaged.deliverable.valid,
          fits,
          inside,
          long,
        )
        refl
    where
      fits : leb (length inner) (length outer - length pre) ≡ true
      fits = ground (arith, lengths)

      inside : ltb (length pre) (length outer) ≡ true
      inside = ground (arith, lengths, damaged.deliverable.valid.long)

      long : ltb packet_header_size (length outer) ≡ true
      long = ground (arith, damaged.payload)
