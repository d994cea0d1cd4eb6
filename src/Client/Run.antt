-- ===== src/Client/Run.antt =====
-- What a run of `run_client` puts on the wire.
use udp_test.Base.{
  ℕ, zero, suc, ◌+◌, ◌^◌, ◌≤◌, ◌<◌, ◌≡◌, refl, sym, ap, ap₂, subst, ◌∙◌, List, [], ◌∷◌, ◌++◌,
  append_assoc, append-nil, arith, length, join, replicate, length-replicate, u32, Result, returned,
}
use udp_test.Crc.{Bytes}
use udp_test.Packet.{packet_header_size, max_packet_length, read_header}
use udp_test.Packet.Validity.{IsValidBatch}
use udp_test.Packet.Build.{build_batch-Built}
use udp_test.Client.{ClientError, send_batches, run_client}
use udp_test.Client.Segments.{datagrams, join-datagrams, SendsAll, send_batch_fallback-Sent}

-- Batch number `i` of a run of `count`, of `size` bytes.
pub record IsNumbered (count size i : ℕ) (b : Bytes) : Type 0 where
  pub valid : IsValidBatch b
  pub sized : length b ≡ size
  pub numbered : (read_header b).seq ≡ i
  pub totalled : (read_header b).batch_total ≡ count

-- The batches of a run, from number `i` on.
abbrev pub IsSeries : ℕ → ℕ → ℕ → List Bytes → Type 0
IsSeries count size i [] = Unit
IsSeries count size i (b ∷ bs) = IsNumbered count size i b × IsSeries count size (i + 1) bs

-- The datagrams of a run.
abbrev pub all_datagrams : ℕ → List Bytes → List Bytes
all_datagrams mss [] = []
all_datagrams mss (b ∷ bs) = datagrams mss b ++ all_datagrams mss bs

pub join-append : (xs ys : List Bytes) → join (xs ++ ys) ≡ join xs ++ join ys
join-append [] ys = refl
join-append (x ∷ xs) ys = ap (◌++◌ x) (join-append xs ys) ∙ sym (append_assoc x (join xs) (join ys))

pub join-all_datagrams : (mss : ℕ) (bs : List Bytes) → join (all_datagrams mss bs) ≡ join bs
join-all_datagrams mss [] = refl
join-all_datagrams mss (b ∷ bs) =
    join-append (datagrams mss b) (all_datagrams mss bs)
    ∙ ap₂ ◌++◌ (join-datagrams mss b) (join-all_datagrams mss bs)

module _ {E W : Type 0} (send_to : Bytes → W → Result E (ℕ × W)) (sent : W → List Bytes)
    (works : SendsAll send_to sent) {S : Type 0} (draw : S → ℕ × S) where
  -- A run that returns, with the batches that it sent.
  pub record Ran (count size mss i left : ℕ) (w : W) (result : Result (ClientError E) W)
      : Type 0 where
    pub after : W
    pub batches : List Bytes
    pub returns : result ≡ returned after
    pub series : IsSeries count size i batches
    pub number : length batches ≡ left
    pub added : sent after ≡ sent w ++ all_datagrams mss batches

  send_batches-Ran :
      (left i : ℕ) (batch : Bytes) (count mss : ℕ) (s : S) (w : W)
      → packet_header_size ≤ length batch
      → length batch ≤ max_packet_length
      → i + left ≡ count
      → count < 2 ^ 32
      → Ran count (length batch) mss i left w (send_batches send_to draw left i batch count mss s w)
  unfolding send_batches
  send_batches-Ran zero i batch count mss s w long short range fits = record {
    after = w;
    batches = [];
    returns = refl;
    series = tt;
    number = refl;
    added = sym (append-nil (sent w));
  }
  send_batches-Ran (suc left) i batch count mss s w long short range fits =
      let (b, s', built, is_built) =
        build_batch-Built draw batch i count s long short (omega arith) fits in
      let first = send_batch_fallback-Sent send_to sent works b mss w in
      let rest =
        send_batches-Ran left (i + 1) b count mss s' first.after (omega (arith, is_built.same_size))
          (omega (arith, is_built.same_size)) (omega arith) fits in
      let seq : u32 i ≡ i = omega arith in
      let total : u32 count ≡ count = omega arith in
      record {
        after = rest.after;
        batches = b ∷ rest.batches;
        returns = rw (seq, total, built, first.returns, rest.returns) refl;
        series = (
          record {
            valid = is_built.valid;
            sized = is_built.same_size;
            numbered = is_built.numbered;
            totalled = is_built.totalled;
          },
          subst (λ n. IsSeries count n (i + 1) rest.batches) is_built.same_size rest.series,
        );
        number = ap suc rest.number;
        added =
            rest.added
            ∙ ap (λ l. l ++ all_datagrams mss rest.batches) first.added
            ∙ append_assoc (sent w) (datagrams mss b) (all_datagrams mss rest.batches);
      }

  -- On a socket that sends each datagram whole, a run of fewer than 2 ^ 32 batches of 20 to 65536
  -- bytes returns, and has sent the datagrams of that many complete batches of that size, numbered
  -- from 0 in order, each with the run's count.
  pub run_client-Ran :
      (size count mss : ℕ) (s : S) (w : W)
      → packet_header_size ≤ size
      → size ≤ max_packet_length
      → count < 2 ^ 32
      → Ran count size mss 0 count w (run_client send_to draw size count mss s w)
  unfolding run_client
  run_client-Ran size count mss s w long short fits =
      let n : length (replicate {A = ℕ} size 0) ≡ size = length-replicate {A = ℕ} size 0 in
      let run =
        send_batches-Ran count 0 (replicate size 0) count mss s w (omega (arith, n))
          (omega (arith, n)) (omega arith) fits in
      subst
        (λ (k : ℕ).
          Ran count k mss 0 count w
            (send_batches send_to draw count 0 (replicate size 0) count mss s w))
        n run
