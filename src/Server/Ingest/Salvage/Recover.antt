-- ===== src/Server/Ingest/Salvage/Recover.antt =====
-- `recover` and `try_complete_batch` on a damaged batch with a complete one inside.
use udp_test.Base.{
  ℕ, ◌≤◌, ◌≡◌, ◌≢◌, refl, sym, ap, ap₂, ◌∙◌, false, some, [], ◌∷◌, ◌++◌, arith, length, take,
  take_all, ltb, ◌>>=◌,
}
use udp_test.Crc.{Bytes}
use udp_test.Packet.{
  packet_header_size, read_header, validate_batch, validate_batch_session, BatchValidation, ok,
}
use udp_test.Packet.Validity.{validate_batch_session-ok}
use udp_test.Server.State.{BatchReassembly, Receiver, ServerStats, reset_reassembly, count_bad}
use udp_test.Server.Ingest.{Ingest, is_ok, is_empty, salvage, recover, try_complete_batch}
use udp_test.Server.Ingest.Salvage.{IsDamaged, front-carry, salvage-carry}

not_ok : (v : BatchValidation) → v ≢ ok → is_ok v ≡ false
not_ok v h = ground arith

-- The receiver that goes on with what is carried over.
abbrev pub counted_bad : ℕ → ServerStats → Receiver
counted_bad total stats = record {
  stats = record (count_bad stats) { wire_batch_total = some total };
  reassembly = reset_reassembly;
}

module _ (total : ℕ) (outer pre inner tail : Bytes)
    (damaged : IsDamaged total outer pre inner tail) where
  recover-carry :
      (ingest : Ingest) (stats : ServerStats) (re : BatchReassembly)
      → re.buffer ≡ outer
      → re.expected ≡ length outer
      → stats.wire_batch_total ≡ some total
      → recover ingest (read_header outer) stats re
        ≡ ingest (inner ++ tail) (counted_bad total stats)
  unfolding recover
  recover-carry ingest stats re full size wire = rw (got, not_empty) refl
    where
      got :
          salvage (read_header outer) re.expected re.buffer stats.wire_batch_total
          ≡ (inner ++ tail, some total)
      got = ap₃ size full wire ∙ salvage-carry total outer pre inner tail damaged
        where
          ap₃ :
              re.expected ≡ length outer
              → re.buffer ≡ outer
              → stats.wire_batch_total ≡ some total
              → salvage (read_header outer) re.expected re.buffer stats.wire_batch_total
                ≡ salvage (read_header outer) (length outer) outer (some total)
          ap₃ a b c = cc

      not_empty : is_empty (inner ++ tail) ≡ false
      not_empty = some_bytes (inner ++ tail) ((front-carry total outer pre inner tail damaged).long)
        where
          some_bytes : (b : Bytes) → packet_header_size ≤ length b → is_empty b ≡ false
          some_bytes [] h = absurd (omega arith)
          some_bytes (x ∷ b) h = refl

  -- The damaged batch is counted as bad, and what is carried over goes in as a fragment.
  pub try_complete_batch-damaged :
      (ingest : Ingest) (r : Receiver)
      → r.reassembly.buffer ≡ outer
      → r.reassembly.expected ≡ length outer
      → r.stats.wire_batch_total ≡ some total
      → try_complete_batch ingest r
        ≡ (ingest (inner ++ tail) (counted_bad total r.stats) >>= (λ r'. some (false, r')))
  unfolding try_complete_batch
  try_complete_batch-damaged ingest r full size wire =
      rw (long, session, bad)
        (ap (λ o. o >>= (λ r'. some (false, r')))
          (ap
              (λ h.
                recover ingest h (record (r.stats) { wire_batch_total = some total }) r.reassembly)
              (ap read_header full)
            ∙ recover-carry ingest (record (r.stats) { wire_batch_total = some total }) r.reassembly
                full size refl))
    where
      long : ltb r.reassembly.expected packet_header_size ≡ false
      long = ground (arith, damaged.framed.long)

      session :
          validate_batch_session (read_header r.reassembly.buffer) r.stats.wire_batch_total
          ≡ (ok, some total)
      session =
          ap₂ validate_batch_session (ap read_header full) wire
          ∙ validate_batch_session-ok (read_header outer) (some total)
              (damaged.framed.meta, sym damaged.totalled)
          ∙ ap (λ n. (ok, some n)) damaged.totalled

      bad : is_ok (validate_batch (take r.reassembly.expected r.reassembly.buffer)) ≡ false
      bad =
          ap₂ (λ n b. is_ok (validate_batch (take n b))) size full
          ∙ ap (λ b. is_ok (validate_batch b)) (take_all (length outer) outer (omega arith))
          ∙ not_ok (validate_batch outer) damaged.broken
