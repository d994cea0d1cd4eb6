-- ===== src/Server/Session/Report.antt =====
-- The summary of a session that receives complete batches of one run, in any order.
use udp_test.Base.{
  if◌then◌else◌, ℕ, ◌+◌, ◌^◌, ◌<◌, ◌≡◌, refl, ap, ◌∙◌, ◌⊎◌, inl, inr, none, some, Option, List, [],
  ◌∷◌, arith, length, join, All, u64,
}
use udp_test.Crc.{Bytes}
use udp_test.Packet.{read_header}
use udp_test.Server.State.{count_bad, Receiver, ServerStats, fresh_receiver, fresh_stats}
use udp_test.Server.Sequence.{track_sequence, finalize_lost}
use udp_test.Server.Sequence.History.{Tells, track_sequence-Tells, different, repeats, late, top}
use udp_test.Server.Ingest.Stream.{
  deliver, deliveries, wire-track_sequence, IsDeliverable, ingest_all,
}
use udp_test.Server.Ingest.Delivery.{ingest_all-Delivered}
use udp_test.Server.Session.{drop_incomplete, end_session}
use udp_test.Server.Session.Accounts.{received-IsAccounted, finalize_lost-IsAccounted}

-- The numbers of the batches behind those of `before`, the latest first.
abbrev pub history : List ℕ → List Bytes → List ℕ
history before [] = before
history before (batch ∷ batches) = history ((read_header batch).seq ∷ before) batches

module _ (total : ℕ) where
  -- What the statistics say of the numbers that came, and of the batches.
  record Told (h : List ℕ) (stats : ServerStats) : Type 0 where
    tells : Tells h stats
    batches : stats.batches ≡ u64 (length h)
    none_bad : stats.bad_batches ≡ 0
    wire : (h ≡ []) ⊎ (stats.wire_batch_total ≡ some total)

  same_counts :
      (stats : ServerStats) (seq : ℕ)
      → ((track_sequence stats seq).batches ≡ stats.batches)
        × ((track_sequence stats seq).bad_batches ≡ stats.bad_batches)
  unfolding track_sequence
  same_counts stats seq = ground arith

  deliver-Told :
      (h : List ℕ) (stats : ServerStats) (batch : Bytes)
      → IsDeliverable total batch
      → Told h stats
      → Told ((read_header batch).seq ∷ h) (deliver stats batch)
  deliver-Told h stats batch d t =
      let seq = (read_header batch).seq in
      let joined : ServerStats = record stats {
        wire_batch_total = some (read_header batch).batch_total;
      } in
      let told : Tells h joined = record {
        seen = t.tells.seen;
        size = t.tells.size;
        repeated = t.tells.repeated;
        behind = t.tells.behind;
        highest = t.tells.highest;
        marked = t.tells.marked;
      } in
      let after = track_sequence-Tells h joined seq told in
      record {
        tells = record {
          seen = after.seen;
          size = after.size;
          repeated = after.repeated;
          behind = after.behind;
          highest = after.highest;
          marked = after.marked;
        };
        batches = omega (arith, (same_counts joined seq).0, t.batches);
        none_bad = (same_counts joined seq).1 ∙ t.none_bad;
        wire = inr (wire-track_sequence joined seq ∙ ap some d.totalled);
      }

  deliveries-Told :
      (h : List ℕ) (stats : ServerStats) (batches : List Bytes)
      → All (IsDeliverable total) batches
      → Told h stats
      → Told (history h batches) (deliveries stats batches)
  deliveries-Told h stats [] all t = t
  deliveries-Told h stats (batch ∷ batches) all t =
      deliveries-Told ((read_header batch).seq ∷ h) (deliver stats batch) batches all.1
        (deliver-Told h stats batch all.0 t)

  fresh-Told : Told [] fresh_stats
  fresh-Told = record {
    tells = record {
      seen = λ n. refl;
      size = refl;
      repeated = refl;
      behind = refl;
      highest = refl;
      marked = λ e. refl;
    };
    batches = refl;
    none_bad = refl;
    wire = inl refl;
  }

  length-history :
      (h : List ℕ) (batches : List Bytes) → length (history h batches) ≡ length h + length batches
  length-history h [] = omega arith
  length-history h (batch ∷ batches) =
      omega (arith, length-history ((read_header batch).seq ∷ h) batches)

  -- The summary of a session.
  pub record Reports (batches : List Bytes) (received : Option Receiver) : Type 0 where
    pub r : Receiver
    pub returns : received ≡ some r
    pub stats : ServerStats
    pub printed : end_session none r ≡ some stats
    pub counted : stats.batches ≡ u64 (length batches)
    pub bad_batches : stats.bad_batches ≡ 0
    pub lost : stats.lost + different (history [] batches) ≡ total
    pub duplicates : stats.duplicates ≡ u64 (repeats (history [] batches))
    pub out_of_order : stats.out_of_order ≡ u64 (late (history [] batches))
    pub highest_seq : stats.highest_seq ≡ top (history [] batches)

  -- What a new session without `--count` reports that receives at least one complete batch of a run
  -- of fewer than 2 ^ 32, each larger than a header, in any order and any number of times, as one
  -- stream cut into datagrams anywhere: the calls return, and it ends with statistics in which the
  -- batches are those that came, none bad; what is lost and the different numbers that came make up
  -- the run; the duplicates are the numbers that had come before; and those out of order are the
  -- numbers that came for the first time when a higher one had come. The batches, the duplicates
  -- and those out of order are counted modulo 2 ^ 64; the highest number is the highest that came.
  pub end_session-Reports :
      (datagrams : List Bytes) (batch : Bytes) (batches : List Bytes)
      → join datagrams ≡ join (batch ∷ batches)
      → All (IsDeliverable total) (batch ∷ batches)
      → total < 2 ^ 32
      → Reports (batch ∷ batches) (ingest_all datagrams fresh_receiver)
  unfolding end_session drop_incomplete
  end_session-Reports datagrams batch batches same all fits =
      let d =
        ingest_all-Delivered total datagrams (batch ∷ batches) fresh_receiver same all (inl refl)
          refl refl (omega arith) in
      let t = deliveries-Told [] fresh_stats (batch ∷ batches) all fresh-Told in
      let (lost, finished, sum) =
        finalize_lost-IsAccounted d.r.stats total (received-IsAccounted datagrams d.r d.returns)
          (ap (λ (s : ServerStats). s.wire_batch_total) d.counted_all ∙ joined t.wire)
          (omega (arith, all.0.valid.meta.seq_in, all.0.totalled)) fits in
      record {
        r = d.r;
        returns = d.returns;
        stats = record (d.r.stats) { lost = lost };
        printed =
            ap (λ active. finalize_lost (if active then count_bad d.r.stats else d.r.stats) none)
              d.idle_after
            ∙ finished;
        counted =
            ap (λ (s : ServerStats). s.batches) d.counted_all
            ∙ t.batches
            ∙ ap u64 (length-history [] (batch ∷ batches) ∙ omega arith);
        bad_batches = ap (λ (s : ServerStats). s.bad_batches) d.counted_all ∙ t.none_bad;
        lost =
            omega
              (arith, sum, ap (λ (s : ServerStats). length s.seen_seq) d.counted_all, t.tells.size);
        duplicates = ap (λ (s : ServerStats). s.duplicates) d.counted_all ∙ t.tells.repeated;
        out_of_order = ap (λ (s : ServerStats). s.out_of_order) d.counted_all ∙ t.tells.behind;
        highest_seq = ap (λ (s : ServerStats). s.highest_seq) d.counted_all ∙ t.tells.highest;
      }
    where
      joined :
          (history [] (batch ∷ batches) ≡ [])
            ⊎ ((deliveries fresh_stats (batch ∷ batches)).wire_batch_total ≡ some total)
          → (deliveries fresh_stats (batch ∷ batches)).wire_batch_total ≡ some total
      joined (inl empty) =
          absurd (omega (arith, ap length empty, length-history [] (batch ∷ batches)))
      joined (inr wire) = wire
