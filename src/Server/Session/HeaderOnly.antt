-- ===== src/Server/Session/HeaderOnly.antt =====
-- A batch with no payload, which `--size 20` makes.
use udp_test.Base.{
  ℕ, suc, ◌+◌, ◌*◌, ◌<◌, ◌≡◌, refl, ap, ◌∙◌, false, true, some, [], ◌∷◌, arith, length, drop, incr,
  drop_all, ◌>>=◌,
}
use udp_test.Crc.{Bytes}
use udp_test.Packet.{packet_header_size, read_header}
use udp_test.Packet.Validity.{IsValidBatch, IsValidBatch-IsFramed, Accepts}
use udp_test.Server.State.{Receiver, count_fragment}
use udp_test.Server.Ingest.{
  resume, continues, seek_header, ingest_loop, ingest_fragment, enough_fuel, pending,
}
use udp_test.Server.Session.{drop_incomplete}
use udp_test.Server.Ingest.Incoming.{started}
use udp_test.Server.Ingest.Stream.Stages.{ingest_round-idle}
use udp_test.Server.Ingest.Incoming.Header.{seek_header-start}

loop_of_one :
    (fuel : ℕ) (batch : Bytes) (r after : Receiver)
    → 0 < length batch
    → r.reassembly.active ≡ false
    → seek_header batch r ≡ continues [] after
    → ingest_loop (suc (suc fuel)) batch r ≡ some after
unfolding ingest_loop
loop_of_one fuel [] r after some_bytes idle e = absurd (omega arith)
loop_of_one fuel (b ∷ batch) r after some_bytes idle e =
    ap (λ x. x >>= resume (ingest_loop (suc fuel)))
      (ingest_round-idle _ (b ∷ batch) r idle ∙ ap some e)

-- A complete batch of 20 bytes that comes as one datagram is not counted, by a receiver that holds
-- nothing and whose session accepts it: the call returns with the batch still under way, though all
-- its bytes are in. If the session ends there, the batch is counted as bad.
pub ingest_fragment-header_only :
    (batch : Bytes) (r : Receiver)
    → IsValidBatch batch
    → length batch ≡ packet_header_size
    → r.reassembly.active ≡ false
    → r.reassembly.buffer ≡ []
    → Accepts r.stats.wire_batch_total (read_header batch)
    → (after : Receiver) × (ingest_fragment batch r ≡ some after)
      × (after.reassembly.active ≡ true)
      × (after.reassembly.filled ≡ after.reassembly.expected)
      × (after.stats.batches ≡ r.stats.batches)
      × ((drop_incomplete after).bad_batches ≡ incr r.stats.bad_batches)
unfolding ingest_fragment drop_incomplete
ingest_fragment-header_only batch r valid size idle empty session =
    let counted = count_fragment r in
    let fuel : enough_fuel batch r ≡ suc (suc (2 * (length batch + pending r.reassembly) + 1)) =
      omega arith in
    let front =
      seek_header-start batch (IsValidBatch-IsFramed batch valid) [] batch counted
        (idle, empty, omega arith, session) (omega arith) refl in
    let rest : drop 20 batch ≡ [] = drop_all 20 batch (omega arith) in
    (
      started batch counted,
      rw fuel (
          loop_of_one (2 * (length batch + pending r.reassembly) + 1) batch counted
            (started batch counted) (omega arith) idle
            (front ∙ ap (λ d. continues d (started batch counted)) rest)),
      refl,
      omega arith,
      refl,
      refl,
    )
