-- ===== src/Server/Ingest/Stream/Reach.antt =====
-- One datagram of a stream of complete batches.
use udp_test.Base.{
  ℕ, zero, suc, ◌≤◌, ◌<◌, ◌≡◌, refl, sym, ap, subst, ◌∙◌, ◌⊎◌, inl, inr, Option, some, List, [],
  ◌∷◌, ◌++◌, arith, length, drop, join, append_split, All, length-append, le_cases, ◌>>=◌,
}
use udp_test.Crc.{Bytes}
use udp_test.Packet.{packet_header_size, read_header}
use udp_test.Packet.Validity.{IsFramed, IsValidBatch-IsFramed}
use udp_test.Server.State.{Receiver, ServerStats, reset_reassembly, count_fragment}
use udp_test.Server.Ingest.{
  Ingest, accept, continue_batch, ingest_round, Round, continues, resume, ingest_loop, with_buffer,
}
use udp_test.Server.Ingest.Sound.{weight}
use udp_test.Server.Ingest.Incoming.{Waits, Gathers, started}
use udp_test.Server.Ingest.Incoming.Body.{continue_batch-whole}
use udp_test.Server.Ingest.Stream.Stages.{
  ingest_round-idle, ingest_round-busy, seek_header-Awaits, started-Awaits, continue_batch-Awaits,
}
use udp_test.Server.Ingest.Stream.{
  deliver, deliveries, wire-track_sequence, ingest_loop-nil, IsDeliverable, Joins, Synced, ready,
  Reached, weight-Gathers,
}

module _ (total : ℕ) where
  module _ (fuel : ℕ) where
    abbrev inner : Ingest
    inner = λ carry r. ingest_loop fuel carry (count_fragment r)

    abbrev then_loop : Option Round → Option Receiver
    then_loop round = round >>= resume (ingest_loop fuel)

    -- What the induction gives for the rest of the datagram.
    abbrev Loop : Type 0
    Loop =
        (d left : Bytes) (batches : List Bytes) (r : Receiver)
        → All (IsDeliverable total) batches
        → Joins total r.stats
        → Synced batches (d ++ left) r
        → weight d r.reassembly < fuel
        → Reached total r.stats batches left (ingest_loop fuel d r)

    module _ (batch : Bytes) (batches : List Bytes) (p q d left : Bytes) (r : Receiver)
        (all : All (IsDeliverable total) (batch ∷ batches)) (joins : Joins total r.stats)
        (whole : batch ≡ p ++ q) (more : 0 < length q)
        (coming : d ++ left ≡ q ++ join batches) where
      framed : IsFramed batch
      framed = IsValidBatch-IsFramed batch all.0.valid

      -- The datagram ends inside the header.
      reach_part :
          Waits batch p r
          → length (p ++ d) < packet_header_size
          → Reached total r.stats (batch ∷ batches) left (then_loop (ingest_round inner d r))
      reach_part w h =
          let (round, awaits) =
            seek_header-Awaits batch (join batches) p q d left r framed all.0.payload whole coming w
              h in
          record {
            r = with_buffer r (p ++ d);
            later = batch ∷ batches;
            returns = ap then_loop (ingest_round-idle inner d r w.0 ∙ ap some round);
            synced = awaits;
            deliverable = all;
            joins = joins;
            same = refl;
          }

      -- What is reached from a later state of the same run.
      onward :
          (before : ServerStats) (later : List Bytes) (o : Option Receiver)
          → then_loop (ingest_round inner d r) ≡ o
          → deliveries before later ≡ deliveries r.stats (batch ∷ batches)
          → Reached total before later left o
          → Reached total r.stats (batch ∷ batches) left (then_loop (ingest_round inner d r))
      onward before later o e same x = record {
        r = x.r;
        later = x.later;
        returns = e ∙ x.returns;
        synced = x.synced;
        deliverable = x.deliverable;
        joins = x.joins;
        same = x.same ∙ same;
      }

      -- The datagram completes the header.
      reach_start :
          Loop
          → Waits batch p r
          → packet_header_size ≤ length (p ++ d)
          → weight d r.reassembly < suc fuel
          → Reached total r.stats (batch ∷ batches) left (then_loop (ingest_round inner d r))
      reach_start loop w h light =
          let (round, awaits, lighter) =
            started-Awaits batch (join batches) p q d left r framed all.0.payload whole coming w
              h in
          onward (started batch r).stats (batch ∷ batches)
            (ingest_loop fuel (drop 20 (p ++ d)) (started batch r))
            (ap then_loop (ingest_round-idle inner d r w.0 ∙ ap some round)) refl
            (loop (drop 20 (p ++ d)) left (batch ∷ batches) (started batch r) all
              (inr (ap some all.0.totalled)) awaits (omega (arith, light, lighter)))

      -- The datagram ends inside the batch.
      reach_middle :
          Gathers batch p q r
          → length d < length q
          → 0 < fuel
          → Reached total r.stats (batch ∷ batches) left (then_loop (ingest_round inner d r))
      reach_middle g short pos =
          let (r', round, awaits, kept) =
            continue_batch-Awaits batch (join batches) p q d left r framed all.0.payload whole
              coming inner g short in
          record {
            r = r';
            later = batch ∷ batches;
            returns =
                ap then_loop (ingest_round-busy inner d r g.0 ∙ round)
                ∙ ingest_loop-nil fuel r' pos;
            synced = awaits;
            deliverable = all;
            joins = subst (Joins total) (sym kept) joins;
            same = ap (λ s. deliveries s (batch ∷ batches)) kept;
          }

      counted : Receiver
      counted = record { stats = deliver r.stats batch; reassembly = reset_reassembly }

      counted-eq :
          accept
            (read_header batch)
            (record (r.stats) { wire_batch_total = some (read_header batch).batch_total })
          ≡ counted
      unfolding counted accept
      counted-eq = refl

      counted-Joins : Joins total counted.stats
      unfolding counted
      counted-Joins = inr (wire-track_sequence _ _ ∙ ap some all.0.totalled)

      -- The datagram completes the batch.
      reach_whole :
          Loop
          → (m : Bytes) → d ≡ q ++ m
          → join batches ≡ m ++ left
          → Gathers batch p q r
          → weight d r.reassembly < suc fuel
          → Reached total r.stats (batch ∷ batches) left (then_loop (ingest_round inner d r))
      unfolding counted
      reach_whole loop m cut after g light =
          onward counted.stats batches (ingest_loop fuel m counted)
            (ap then_loop (
              ingest_round-busy inner d r g.0
              ∙ ap (λ x. continue_batch inner x r) cut
              ∙ continue_batch-whole batch all.0.valid inner p q m r whole g
              ∙ ap (λ x. some (continues m x)) counted-eq))
            refl
            (loop m left batches counted all.1 counted-Joins
              (subst (λ x. Synced batches x counted) after
                (ready total batches counted all.1 counted-Joins refl refl))
              (omega (arith, weight-Gathers batch p q d r g, ap length cut, length-append q m)))

      -- Every case of a round on a stream of complete batches.
      reach :
          Loop
          → 0 < length d
          → weight d r.reassembly < suc fuel
          → Waits batch p r ⊎ Gathers batch p q r
          → Reached total r.stats (batch ∷ batches) left (then_loop (ingest_round inner d r))
      reach loop some_bytes light (inl w) = elim (le_cases 20 (length (p ++ d))) [
        | inl long ↦ reach_start loop w long light
        | inr short ↦ reach_part w short
      ]
      reach loop some_bytes light (inr g) = elim (le_cases (length q) (length d)) [
        | inl enough ↦
            let (m, cut, after) = append_split q (join batches) d left (sym coming) enough in
            reach_whole loop m cut after g light
        | inr short ↦ reach_middle g short (omega (arith, weight-Gathers batch p q d r g))
      ]

  -- A datagram of the stream, from any state that is in step with the stream.
  pub reached :
      (fuel : ℕ) (d left : Bytes) (batches : List Bytes) (r : Receiver)
      → All (IsDeliverable total) batches
      → Joins total r.stats
      → Synced batches (d ++ left) r
      → weight d r.reassembly < fuel
      → Reached total r.stats batches left (ingest_loop fuel d r)
  unfolding ingest_loop
  reached zero d left batches r all joins synced light = absurd (omega arith)
  reached (suc fuel) [] left batches r all joins synced light = record {
    r = r;
    later = batches;
    returns = refl;
    synced = synced;
    deliverable = all;
    joins = joins;
    same = refl;
  }
  reached (suc fuel) (b ∷ d) left [] r all joins synced light =
      absurd (omega (arith, ap length synced.0))
  reached (suc fuel) (b ∷ d) left (batch ∷ batches) r all joins synced light =
      reach fuel batch batches synced.p synced.q (b ∷ d) left r all joins synced.whole synced.more
        synced.coming (reached fuel) (omega arith) light synced.shape
