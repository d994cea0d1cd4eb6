-- ===== src/Server/Ingest/Salvage/Run.antt =====
-- `ingest_fragment` on a run of batches of which the first is damaged, with a complete one inside.
use udp_test.Base.{
  incr, ap₂, ℕ, ◌+◌, ◌≡◌, ◌⊎◌, refl, sym, ap, ap₂, ◌∙◌, inl, inr, false, Option, some, List, [],
  ◌∷◌, ◌++◌, arith, length, join, All, length-append, ◌>>=◌, u64,
}
use udp_test.Crc.{Bytes}
use udp_test.Packet.{read_header}
use udp_test.Server.State.{Receiver, ServerStats, count_fragment}
use udp_test.Server.Ingest.{ingest_fragment, enough_fuel}
use udp_test.Server.Ingest.Total.{weight-enough_fuel}
use udp_test.Server.Ingest.Stream.{
  deliveries, ingest_all, Awaits, IsDeliverable, Joins, Joins-Accepts,
}
use udp_test.Server.Ingest.Delivery.{
  count_Awaits, with_fragments, deliveries-with_fragments, fragments-deliveries, Synced-Delivered,
}
use udp_test.Server.Ingest.Salvage.{IsDamaged}
use udp_test.Server.Ingest.Salvage.Passed.{after_bad, Awaiting, Resumed, Passed}
use udp_test.Server.Ingest.Salvage.Resumes.{passes}

-- What has arrived when the stream is through.
pub record Salvaged (total : ℕ) (stats : ServerStats) (batches datagrams : List Bytes)
    (result : Option Receiver) : Type 0 where
  pub r : Receiver
  pub returns : result ≡ some r
  pub idle_after : r.reassembly.active ≡ false
  pub nothing_left : r.reassembly.buffer ≡ []
  pub counted_all : r.stats ≡ record (deliveries (after_bad total stats) batches) {
    fragments = u64 (stats.fragments + length datagrams + 1);
  }

module _ (total : ℕ) (outer pre inner tail : Bytes) (damaged : IsDamaged total outer pre inner tail)
    (batches : List Bytes) (all : All (IsDeliverable total) batches) (rest : Bytes)
    (stream : (inner ++ tail) ++ rest ≡ join batches) where
  -- The state between two datagrams.
  abbrev Waiting : ServerStats → Bytes → Receiver → Type 0
  Waiting = Awaiting total outer rest batches

  abbrev Later : ServerStats → Bytes → Receiver → Type 0
  Later = Resumed total outer rest batches

  -- One datagram, from its count to the end of its loop.
  one_datagram :
      (d left : Bytes) (r : Receiver)
      → Awaits outer rest (d ++ left) r
      → Joins total r.stats
      → Passed total outer rest batches (count_fragment r).stats left (ingest_fragment d r)
  unfolding ingest_fragment
  one_datagram d left r awaits joins =
      passes total outer pre inner tail damaged batches all rest stream (enough_fuel d r) d left
        (count_fragment r) (count_Awaits outer rest (d ++ left) r awaits) joins
        (weight-enough_fuel d r)

  fragments_after :
      (r x : Receiver) (later : List Bytes)
      → deliveries x.stats later ≡ deliveries (after_bad total (count_fragment r).stats) batches
      → x.stats.fragments ≡ incr (incr r.stats.fragments)
  fragments_after r x later same =
      sym (fragments-deliveries x.stats later)
      ∙ ap (λ (s : ServerStats). s.fragments) same
      ∙ fragments-deliveries (after_bad total (count_fragment r).stats) batches

  -- The rest of the stream, from a datagram that leaves the receiver in a given state.
  from_there :
      (ds : List Bytes) (d : Bytes) (r x : Receiver) (n : ℕ)
      → ingest_fragment d r ≡ some x
      → (last : Receiver) → ingest_all ds x ≡ some last
      → last.reassembly.active ≡ false
      → last.reassembly.buffer ≡ []
      → (stats : ServerStats) → last.stats ≡ with_fragments n stats
      → stats ≡ deliveries (after_bad total (count_fragment r).stats) batches
      → n ≡ u64 (r.stats.fragments + length (d ∷ ds) + 1)
      → Salvaged total r.stats batches (d ∷ ds) (ingest_all (d ∷ ds) r)
  from_there ds d r x n one last all_of quiet empty stats counted same number = record {
    r = last;
    returns = ap (λ o. o >>= ingest_all ds) one ∙ all_of;
    idle_after = quiet;
    nothing_left = empty;
    counted_all =
        counted
        ∙ ap₂ with_fragments number same
        ∙ ap (with_fragments (u64 (r.stats.fragments + length (d ∷ ds) + 1))) (
            deliveries-with_fragments (incr (incr r.stats.fragments)) (after_bad total r.stats)
              batches);
  }

  Awaits-Salvaged :
      (datagrams : List Bytes) (r : Receiver)
      → Awaits outer rest (join datagrams) r
      → Joins total r.stats
      → Salvaged total r.stats batches datagrams (ingest_all datagrams r)
  Awaits-Salvaged [] r awaits joins =
      absurd (omega (arith, ap length awaits.coming, length-append awaits.q rest, awaits.more))
  Awaits-Salvaged (d ∷ ds) r awaits joins =
      let step = one_datagram d (join ds) r awaits joins in
      onward step.r step.returns step.stage (Awaits-Salvaged ds step.r)
    where
      onward :
          (x : Receiver)
          → ingest_fragment d r ≡ some x
          → Waiting (count_fragment r).stats (join ds) x
            ⊎ Later (count_fragment r).stats (join ds) x
          → (Awaits outer rest (join ds) x
              → Joins total x.stats
              → Salvaged total x.stats batches ds (ingest_all ds x))
          → Salvaged total r.stats batches (d ∷ ds) (ingest_all (d ∷ ds) r)
      onward x one (inl (awaits', joins', kept)) later =
          let there = later awaits' joins' in
          from_there ds d r x _ one there.r there.returns there.idle_after there.nothing_left
            (deliveries (after_bad total x.stats) batches) there.counted_all
            (ap (λ b. deliveries b batches) kept) (omega (arith, count))
        where
          count : incr x.stats.fragments ≡ incr (incr r.stats.fragments)
          count = ap (λ (b : ServerStats). b.fragments) kept
      onward x one (inr s) later =
          let there =
            Synced-Delivered total ds s.later x s.deliverable s.joins s.synced
              (omega (arith, count)) in
          from_there ds d r x _ one there.r there.returns there.idle_after there.nothing_left
            (deliveries x.stats s.later) there.counted_all s.same (omega (arith, count))
        where
          count : x.stats.fragments ≡ incr (incr r.stats.fragments)
          count = fragments_after r x s.later s.same

  -- A run of complete batches gets through behind a damaged one: all is sent as one stream, cut
  -- into datagrams anywhere. The damaged batch has a header of the run, more than a header, and a
  -- wrong checksum; inside it, with no other header in front, stands a complete batch with the
  -- number that is looked for, and from there the stream is complete batches of the run, each
  -- larger than a header. Then the calls return, the damaged batch is counted once as bad, what is
  -- inside it is taken in as one more fragment, the statistics are those of tracking each complete
  -- batch in order, and nothing is left over. The receiver holds nothing before, and its session
  -- has no total or the run's.
  pub ingest_all-Salvaged :
      (datagrams : List Bytes) (r : Receiver)
      → join datagrams ≡ outer ++ rest
      → Joins total r.stats
      → r.reassembly.active ≡ false
      → r.reassembly.buffer ≡ []
      → Salvaged total r.stats batches datagrams (ingest_all datagrams r)
  ingest_all-Salvaged datagrams r same joins idle_now empty =
      Awaits-Salvaged datagrams r
        (record {
          p = [];
          q = outer;
          whole = refl;
          more = omega (arith, damaged.payload);
          coming = same;
          shape = inl (
            idle_now,
            empty,
            omega arith,
            Joins-Accepts total r.stats.wire_batch_total (read_header outer) damaged.framed.meta
                damaged.totalled joins,
          );
        })
        joins
