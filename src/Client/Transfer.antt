-- ===== src/Client/Transfer.antt =====
-- A run of client.cpp that is received by server.cpp.
use udp_test.Base.{
  ℕ, zero, suc, ◌+◌, ◌^◌, ◌≤◌, ◌<◌, ◌≡◌, refl, sym, ap, ◌∙◌, inl, true, false, Option, none, some,
  List, [], ◌∷◌, ◌++◌, arith, length, join, All, u64, Result, returned,
}
use udp_test.Crc.{Bytes}
use udp_test.Packet.{packet_header_size, max_packet_length}
use udp_test.Server.State.{Receiver, ServerStats, fresh_stats, fresh_receiver}
use udp_test.Server.Sequence.{contains, track_sequence, finalize_lost}
use udp_test.Server.Sequence.Tracked.{Distinct}
use udp_test.Server.Sequence.Lost.{finalize_lost_total}
use udp_test.Server.Ingest.Stream.{IsDeliverable, deliver, deliveries, ingest_all}
use udp_test.Server.Ingest.Delivery.{ingest_all-Delivered}
use udp_test.Client.{run_client}
use udp_test.Client.Segments.{SendsAll}
use udp_test.Client.Run.{
  IsNumbered, IsSeries, all_datagrams, join-append, join-all_datagrams, run_client-Ran,
}

-- The numbers below `n`, the last first.
abbrev below : ℕ → List ℕ
below zero = []
below (suc n) = n ∷ below n

contains-below : (n m : ℕ) → n ≤ m → contains (below n) m ≡ false
unfolding contains
contains-below zero m h = refl
contains-below (suc n) m h = ground (arith, contains-below n m (omega arith))

below-Distinct : (n : ℕ) → Distinct (below n)
below-Distinct zero = tt
below-Distinct (suc n) = (contains-below n n (omega arith), below-Distinct n)

All-below : (n m : ℕ) → n ≤ m → All (λ s. s < m) (below n)
All-below zero m h = tt
All-below (suc n) m h = (omega arith, All-below n m (omega arith))

length-below : (n : ℕ) → length (below n) ≡ n
length-below zero = refl
length-below (suc n) = ap suc (length-below n)

-- The statistics after the batches of a run with numbers below `n` came in order.
abbrev in_order : ℕ → ℕ → ServerStats
in_order count zero = fresh_stats
in_order count (suc n) = record {
  batches = suc n;
  fragments = 0;
  bad_batches = 0;
  lost = 0;
  duplicates = 0;
  out_of_order = 0;
  seen_seq = below (suc n);
  have_seq = true;
  highest_seq = n;
  wire_batch_total = some count;
}

deliver-in_order :
    (count size n : ℕ) (b : Bytes)
    → IsNumbered count size n b
    → n < 2 ^ 32
    → deliver (in_order count n) b ≡ in_order count (suc n)
unfolding track_sequence contains
deliver-in_order count size zero b h fits = rw (h.numbered, h.totalled) (ground arith)
deliver-in_order count size (suc n) b h fits =
    rw (h.numbered, h.totalled, contains-below (suc n) (suc n) (omega arith)) (ground arith)

deliveries-in_order :
    (count size n : ℕ) (bs : List Bytes)
    → IsSeries count size n bs
    → n + length bs ≤ 2 ^ 32
    → deliveries (in_order count n) bs ≡ in_order count (n + length bs)
deliveries-in_order count size n [] h fits = ap (in_order count) (omega arith)
deliveries-in_order count size n (b ∷ bs) h fits =
    let next : suc n ≡ n + 1 = omega arith in
    ap (λ s. deliveries s bs)
      (deliver-in_order count size n b h.0 (omega arith) ∙ ap (in_order count) next)
    ∙ deliveries-in_order count size (n + 1) bs h.1 (omega arith)
    ∙ ap (in_order count) (omega arith)

series-IsDeliverable :
    (count size n : ℕ) (bs : List Bytes)
    → packet_header_size < size
    → IsSeries count size n bs
    → All (IsDeliverable count) bs
series-IsDeliverable count size n [] big h = tt
series-IsDeliverable count size n (b ∷ bs) big h = (
  record { valid = h.0.valid; payload = omega (arith, h.0.sized); totalled = h.0.totalled },
  series-IsDeliverable count size (n + 1) bs big h.1,
)

-- What the server ends up with: the batches counted, nothing lost, and nothing left over.
pub record Transferred (count : ℕ) (result : Option Receiver) : Type 0 where
  pub r : Receiver
  pub received : result ≡ some r
  pub finalized : finalize_lost r.stats none ≡ some r.stats
  pub batches : r.stats.batches ≡ count
  pub lost : r.stats.lost ≡ 0
  pub bad_batches : r.stats.bad_batches ≡ 0
  pub duplicates : r.stats.duplicates ≡ 0
  pub out_of_order : r.stats.out_of_order ≡ 0
  pub nothing_pending : r.reassembly.active ≡ false

with_count : ℕ → ℕ → ℕ → ServerStats
with_count fragments count n = record (in_order count n) { fragments = fragments }

finalize_lost-in_order :
    (fragments n : ℕ)
    → suc n < 2 ^ 32
    → finalize_lost (with_count fragments (suc n) (suc n)) none
      ≡ some (with_count fragments (suc n) (suc n))
unfolding with_count
finalize_lost-in_order fragments n fits =
    let stats = with_count fragments (suc n) (suc n) in
    let (lost, returns, total) =
      finalize_lost_total stats none (suc n) refl (omega arith) fits refl (below-Distinct (suc n))
        (All-below (suc n) (suc n) (omega arith)) in
    let none_lost : lost ≡ 0 = omega (arith, total, length-below n) in
    returns ∙ ap (λ k. some (record stats { lost = k })) none_lost

transferred :
    (fragments n : ℕ) (r : Receiver) (result : Option Receiver)
    → suc n < 2 ^ 32
    → result ≡ some r
    → r.stats ≡ with_count fragments (suc n) (suc n)
    → r.reassembly.active ≡ false
    → Transferred (suc n) result
unfolding with_count
transferred fragments n r result fits e stats idle = record {
  r = r;
  received = e;
  finalized = rw stats (finalize_lost-in_order fragments n fits);
  batches = ap (λ (s : ServerStats). s.batches) stats;
  lost = ap (λ (s : ServerStats). s.lost) stats;
  bad_batches = ap (λ (s : ServerStats). s.bad_batches) stats;
  duplicates = ap (λ (s : ServerStats). s.duplicates) stats;
  out_of_order = ap (λ (s : ServerStats). s.out_of_order) stats;
  nothing_pending = idle;
}

-- The series of a run, received by a new session.
pub series-Transferred :
    (n size : ℕ) (batches datagrams : List Bytes)
    → packet_header_size < size
    → suc n < 2 ^ 32
    → IsSeries (suc n) size 0 batches
    → length batches ≡ suc n
    → join datagrams ≡ join batches
    → Transferred (suc n) (ingest_all datagrams fresh_receiver)
unfolding with_count
series-Transferred n size batches datagrams big fits series number same =
    let done =
      ingest_all-Delivered (suc n) datagrams batches fresh_receiver same
        (series-IsDeliverable (suc n) size 0 batches big series) (inl refl) refl refl
        (omega arith) in
    let all = deliveries-in_order (suc n) size 0 batches series (omega arith) in
    let last : in_order (suc n) (length batches) ≡ in_order (suc n) (suc n) =
      ap (in_order (suc n)) number in
    let fragments = u64 (0 + length datagrams) in
    transferred fragments n done.r (ingest_all datagrams fresh_receiver) fits done.returns
      (done.counted_all
        ∙ ap (λ (stats : ServerStats). record stats { fragments = fragments })
            (all
              ∙ ap (in_order (suc n)) {x = 0 + length batches} {y = length batches} (omega arith)
              ∙ last))
      done.idle_after

pub join-append_suffix : (xs ys zs : Bytes) → xs ++ ys ≡ xs ++ zs → ys ≡ zs
join-append_suffix [] ys zs e = e
join-append_suffix (x ∷ xs) ys zs e = join-append_suffix xs ys zs (cc e)

module _ {E W : Type 0} (send_to : Bytes → W → Result E (ℕ × W)) (sent : W → List Bytes)
    (works : SendsAll send_to sent) {S : Type 0} (draw : S → ℕ × S) where
  -- End to end, on a socket that sends each datagram whole: a run of at least one and fewer than 2
  -- ^ 32 batches of 21 to 65536 bytes returns. If the bytes that it has sent reach a new session in
  -- order, cut into datagrams anywhere, the session counts every batch once and none as bad, lost,
  -- duplicate or out of order, and no batch stays under way.
  pub run_client-Transferred :
      (size count mss : ℕ) (s : S) (w : W) (datagrams : List Bytes)
      → packet_header_size < size
      → size ≤ max_packet_length
      → 0 < count
      → count < 2 ^ 32
      → ((w' : W)
          → run_client send_to draw size count mss s w ≡ returned w'
          → join (sent w') ≡ join (sent w) ++ join datagrams)
      → (w' : W) × (run_client send_to draw size count mss s w ≡ returned w')
        × Transferred count (ingest_all datagrams fresh_receiver)
  run_client-Transferred size zero mss s w datagrams big small pos fits arrives =
      absurd (omega arith)
  run_client-Transferred size (suc n) mss s w datagrams big small pos fits arrives =
      let ran =
        run_client-Ran send_to sent works draw size (suc n) mss s w (omega arith) small fits in
      let stream =
        sym (arrives ran.after ran.returns)
        ∙ ap join ran.added
        ∙ join-append (sent w) (all_datagrams mss ran.batches)
        ∙ ap (◌++◌ (join (sent w))) (join-all_datagrams mss ran.batches) in
      (
        ran.after,
        ran.returns,
        series-Transferred n size ran.batches datagrams big fits ran.series ran.number
            (join-append_suffix (join (sent w)) (join datagrams) (join ran.batches) stream),
      )
