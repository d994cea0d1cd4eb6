-- ===== src/Server/Ingest/Delivery.antt =====
-- `ingest_fragment` on a stream of complete batches, cut into datagrams anywhere.
use udp_test.Base.{
  ℕ, ◌+◌, ◌^◌, ◌<◌, ◌≡◌, refl, sym, ap, subst, ap₂, ◌∙◌, false, Option, some, List, [], ◌∷◌, ◌++◌,
  arith, length, join, All, length-append, ◌>>=◌, incr, u64,
}
use udp_test.Crc.{Bytes}
use udp_test.Server.State.{Receiver, ServerStats, count_fragment}
use udp_test.Server.Sequence.{track_sequence}
use udp_test.Server.Ingest.{ingest_fragment, enough_fuel}
use udp_test.Server.Ingest.Total.{weight-enough_fuel}
use udp_test.Server.Ingest.Stream.{
  deliver, deliveries, ingest_all, Awaits, IsDeliverable, Joins, Synced, ready, Reached,
}
use udp_test.Server.Ingest.Stream.Reach.{reached}

-- The count of fragments goes its own way.
abbrev pub with_fragments : ℕ → ServerStats → ServerStats
with_fragments n stats = record stats { fragments = n }

deliver-with_fragments :
    (n : ℕ) (stats : ServerStats) (batch : Bytes)
    → deliver (with_fragments n stats) batch ≡ with_fragments n (deliver stats batch)
unfolding track_sequence
deliver-with_fragments n stats batch = ground arith

pub deliveries-with_fragments :
    (n : ℕ) (stats : ServerStats) (batches : List Bytes)
    → deliveries (with_fragments n stats) batches ≡ with_fragments n (deliveries stats batches)
deliveries-with_fragments n stats [] = refl
deliveries-with_fragments n stats (batch ∷ batches) =
    ap (λ s. deliveries s batches) (deliver-with_fragments n stats batch)
    ∙ deliveries-with_fragments n (deliver stats batch) batches

pub fragments-deliveries :
    (stats : ServerStats) (batches : List Bytes)
    → (deliveries stats batches).fragments ≡ stats.fragments
fragments-deliveries stats batches =
    ap (λ (s : ServerStats). s.fragments) (deliveries-with_fragments stats.fragments stats batches)

same_count :
    (stats : ServerStats)
    → stats.fragments < 2 ^ 64
    → stats ≡ with_fragments (u64 (stats.fragments + 0)) stats
same_count stats small =
    let e : stats.fragments ≡ u64 (stats.fragments + 0) = omega arith in
    ap (λ n. with_fragments n stats) e

fragments_after :
    (r : Receiver) (stats : ServerStats) (batches later : List Bytes)
    → deliveries stats later ≡ deliveries (count_fragment r).stats batches
    → stats.fragments ≡ incr r.stats.fragments
fragments_after r stats batches later same =
    sym (fragments-deliveries stats later)
    ∙ ap (λ (s : ServerStats). s.fragments) same
    ∙ fragments-deliveries (count_fragment r).stats batches

pub count_Awaits :
    (batch rest left : Bytes) (r : Receiver)
    → Awaits batch rest left r
    → Awaits batch rest left (count_fragment r)
count_Awaits batch rest left r s = record {
  p = s.p;
  q = s.q;
  whole = s.whole;
  more = s.more;
  coming = s.coming;
  shape = s.shape;
}

count_Synced :
    (batches : List Bytes) (left : Bytes) (r : Receiver)
    → Synced batches left r
    → Synced batches left (count_fragment r)
count_Synced [] left r s = s
count_Synced (batch ∷ batches) left r s = count_Awaits batch (join batches) left r s

module _ (total : ℕ) where
  -- What has arrived when the stream is through.
  pub record Delivered (stats : ServerStats) (batches datagrams : List Bytes)
      (result : Option Receiver) : Type 0 where
    pub r : Receiver
    pub returns : result ≡ some r
    pub idle_after : r.reassembly.active ≡ false
    pub nothing_left : r.reassembly.buffer ≡ []
    pub counted_all :
        r.stats
        ≡ record (deliveries stats batches) { fragments = u64 (stats.fragments + length datagrams) }

  -- One datagram, from its count to the end of its loop.
  one_datagram :
      (d left : Bytes) (batches : List Bytes) (r : Receiver)
      → All (IsDeliverable total) batches
      → Joins total r.stats
      → Synced batches (d ++ left) r
      → Reached total (count_fragment r).stats batches left (ingest_fragment d r)
  unfolding ingest_fragment
  one_datagram d left batches r all joins synced =
      reached total (enough_fuel d r) d left batches (count_fragment r) all joins
        (count_Synced batches (d ++ left) r synced) (weight-enough_fuel d r)

  pub Synced-Delivered :
      (datagrams batches : List Bytes) (r : Receiver)
      → All (IsDeliverable total) batches
      → Joins total r.stats
      → Synced batches (join datagrams) r
      → r.stats.fragments < 2 ^ 64
      → Delivered r.stats batches datagrams (ingest_all datagrams r)
  Synced-Delivered [] [] r all joins synced small = record {
    r = r;
    returns = refl;
    idle_after = synced.1;
    nothing_left = synced.2;
    counted_all = same_count r.stats small;
  }
  Synced-Delivered [] (batch ∷ batches) r all joins synced small =
      absurd
        (omega (arith, ap length synced.coming, length-append synced.q (join batches), synced.more))
  Synced-Delivered (d ∷ datagrams) batches r all joins synced small =
      let step = one_datagram d (join datagrams) batches r all joins synced in
      let count = fragments_after r step.r.stats batches step.later step.same in
      let rest =
        Synced-Delivered datagrams step.later step.r step.deliverable step.joins step.synced
          (omega (arith, count)) in
      record {
        r = rest.r;
        returns = ap (λ x. x >>= ingest_all datagrams) step.returns ∙ rest.returns;
        idle_after = rest.idle_after;
        nothing_left = rest.nothing_left;
        counted_all =
            rest.counted_all
            ∙ ap₂ with_fragments (omega (arith, count)) step.same
            ∙ ap (with_fragments (u64 (r.stats.fragments + length (d ∷ datagrams))))
                (deliveries-with_fragments (incr r.stats.fragments) r.stats batches);
      }

  -- Complete batches of one run, each larger than a header, sent as one stream that is cut into
  -- datagrams anywhere, are all received: the calls return, the statistics are those of tracking
  -- each batch in order, and nothing is left over. The receiver holds nothing before, its session
  -- has no total or the run's, and its count of fragments has not wrapped.
  pub ingest_all-Delivered :
      (datagrams batches : List Bytes) (r : Receiver)
      → join datagrams ≡ join batches
      → All (IsDeliverable total) batches
      → Joins total r.stats
      → r.reassembly.active ≡ false
      → r.reassembly.buffer ≡ []
      → r.stats.fragments < 2 ^ 64
      → Delivered r.stats batches datagrams (ingest_all datagrams r)
  ingest_all-Delivered datagrams batches r same all joins idle_now empty small =
      Synced-Delivered datagrams batches r all joins
        (subst (λ x. Synced batches x r) (sym same)
          (ready total batches r all joins idle_now empty))
        small
