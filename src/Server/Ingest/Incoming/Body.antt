-- ===== src/Server/Ingest/Incoming/Body.antt =====
-- The rounds of the loop on the rest of a complete batch, cut anywhere.
use udp_test.Base.{
  ℕ, ◌-◌, ◌<◌, ◌≡◌, refl, sym, ap, ap₂, ◌∙◌, true, some, [], ◌++◌, append_assoc, append-nil, arith,
  ◌>>=◌, length, take, replicate, length-append, length-replicate, take_all, take-append_self,
  drop-append_self, drop-append_ge, drop-replicate,
}
use udp_test.Crc.{Bytes}
use udp_test.Packet.{read_header, validate_batch, validate_batch_session, ok}
use udp_test.Packet.Validity.{
  IsFramed, IsValidBatch, IsValidBatch-IsFramed, validate_batch-ok_iff, validate_batch_session-ok,
}
use udp_test.Server.State.{Receiver, ServerStats}
use udp_test.Server.Ingest.{Ingest, accept, try_complete_batch, continue_batch, continues}
use udp_test.Server.Ingest.Sound.{SoundWhen}
use udp_test.Server.Ingest.Absorb.{absorbed, continue_batch_partial, continue_batch_complete}
use udp_test.Server.Ingest.Incoming.{header, Gathers}

module _ (batch : Bytes) (framed : IsFramed batch) where
  sound_of :
      (p q : Bytes) (r : Receiver)
      → batch ≡ p ++ q
      → (Gathers batch) p q r
      → SoundWhen true r.reassembly
  sound_of p q r whole g = omega (
    arith,
    ap length g.1,
    ap length whole,
    length-append p q,
    length-append p (replicate (length q) 0),
    length-replicate {A = ℕ} (length q) 0,
    framed.length_right,
    framed.meta.within,
  )

  -- What the copy makes of the buffer.
  buffer_after :
      (n : ℕ) (p q d : Bytes) (r : Receiver)
      → (Gathers batch) p q r
      → (absorbed n d r.reassembly).buffer ≡ p ++ (take n d ++ replicate (length q - n) 0)
  buffer_after n p q d r g = rw (
    g.1,
    g.2,
    take-append_self p (replicate (length q) 0) (length p) refl,
    drop-append_ge p (replicate (length q) 0) n,
    drop-replicate {A = ℕ} n (length q) 0,
  )

  -- The batch goes on beyond the datagram.
  pub continue_batch-part :
      (ingest : Ingest) (p q d : Bytes) (r : Receiver)
      → batch ≡ p ++ (d ++ q)
      → 0 < length q
      → (Gathers batch) p (d ++ q) r
      → (r' : Receiver) × (continue_batch ingest d r ≡ some (continues [] r'))
        × (Gathers batch) (p ++ d) q r'
        × (r'.stats ≡ r.stats)
  continue_batch-part ingest p q d r whole more g = (
    record r { reassembly = absorbed (length d) d r.reassembly },
    continue_batch_partial ingest d r (sound_of p (d ++ q) r whole g)
        (omega (arith, g.2, g.3, ap length whole, length-append p (d ++ q), length-append d q)),
    (
      g.0,
      buffer_after (length d) p (d ++ q) d r g
          ∙ (rw (take_all (length d) d (omega arith), left)
              (sym (append_assoc p d (replicate (length q) 0)))),
      omega (arith, g.2, length-append p d),
      g.3,
      omega (arith, g.4, length-append p d),
      g.5,
    ),
    refl,
  )
    where
      left : length (d ++ q) - length d ≡ length q
      left = omega (arith, length-append d q)

  -- The datagram completes the batch, which is then in the buffer.
  pub continue_batch-full :
      (ingest : Ingest) (p q d : Bytes) (r : Receiver)
      → batch ≡ p ++ q
      → (Gathers batch) p q r
      → (after : Receiver) × (continue_batch ingest (q ++ d) r
          ≡ (try_complete_batch ingest after >>= (λ (done, r'). some (continues d r'))))
        × (after.reassembly.buffer ≡ batch)
        × (after.reassembly.expected ≡ length batch)
        × (after.stats ≡ r.stats)
  continue_batch-full ingest p q d r whole g = (
    after,
    continue_batch_complete ingest (q ++ d) r (sound_of p q r whole g)
          (omega (arith, n, length-append q d))
        ∙ (rw (n, drop-append_self q d (length q) refl) refl),
    full,
    g.3,
    refl,
  )
    where
      n : r.reassembly.expected - r.reassembly.filled ≡ length q
      n = omega (arith, g.2, g.3, ap length whole, length-append p q)

      after : Receiver
      after = record r { reassembly = absorbed (length q) (q ++ d) r.reassembly }

      full : after.reassembly.buffer ≡ batch
      full =
          buffer_after (length q) p q (q ++ d) r g
          ∙ (rw (take-append_self q d (length q) refl, none_left, append-nil q) (sym whole))
        where
          none_left : length q - length q ≡ 0
          none_left = omega arith

module _ (batch : Bytes) (valid : IsValidBatch batch) where
  try_complete_batch-valid :
      (ingest : Ingest) (r : Receiver)
      → r.reassembly.buffer ≡ batch
      → r.reassembly.expected ≡ length batch
      → r.stats.wire_batch_total ≡ some (header batch).batch_total
      → try_complete_batch ingest r
        ≡ some (
          true,
          accept
              (header batch)
              (record (r.stats) { wire_batch_total = some (header batch).batch_total }),
        )
  unfolding try_complete_batch
  try_complete_batch-valid ingest r buf size wire =
      ground (arith, session, checked, ap read_header buf, size, valid.long)
    where
      session :
          validate_batch_session (read_header r.reassembly.buffer) r.stats.wire_batch_total
          ≡ (ok, some (header batch).batch_total)
      session =
          ap₂ validate_batch_session (ap read_header buf) wire
          ∙ validate_batch_session-ok (header batch) (some (header batch).batch_total)
              (valid.meta, refl)

      checked : validate_batch (take r.reassembly.expected r.reassembly.buffer) ≡ ok
      checked =
          ap₂ (λ n b. validate_batch (take n b)) size buf
          ∙ ap validate_batch (take_all (length batch) batch (omega arith))
          ∙ (validate_batch-ok_iff batch).1 valid

  -- The datagram completes the batch: it is counted, and the rest of the datagram remains.
  pub continue_batch-whole :
      (ingest : Ingest) (p q d : Bytes) (r : Receiver)
      → batch ≡ p ++ q
      → (Gathers batch) p q r
      → continue_batch ingest (q ++ d) r
        ≡ some (
            continues d (
              accept
                (header batch)
                (record (r.stats) { wire_batch_total = some (header batch).batch_total })))
  continue_batch-whole ingest p q d r whole g =
      let (after, round, full, size, kept) =
        continue_batch-full batch (IsValidBatch-IsFramed batch valid) ingest p q d r whole g in
      round
      ∙ (rw
          (try_complete_batch-valid ingest after full size
            (ap (λ (s : ServerStats). s.wire_batch_total) kept ∙ g.5))
          (ap
            (λ (s : ServerStats). some (
              continues d (
                accept (header batch)
                  (record s { wire_batch_total = some (header batch).batch_total }))))
            kept))
