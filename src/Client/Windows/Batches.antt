-- ===== src/Client/Windows/Batches.antt =====
-- The batches of a run on Windows: what has gone after each, whatever fails.
use udp_test.Base.{
  ℕ, zero, suc, ◌+◌, ◌^◌, ◌≤◌, ◌<◌, ◌≡◌, refl, sym, ap, subst, arith, Bool, true, false, List, [],
  ◌∷◌, ◌++◌, append_assoc, append-nil, length, replicate, length-replicate, u32,
}
use udp_test.Crc.{Bytes}
use udp_test.Packet.{packet_header_size, max_packet_length}
use udp_test.Packet.Build.{build_batch-Built}
use udp_test.Client.Segments.{datagrams}
use udp_test.Client.Run.{IsNumbered, IsSeries, all_datagrams}
use udp_test.Windows.{Asio, Winsock, Process}
use udp_test.Windows.Ends.{Ends, bind-Ends, change-Ends}
use udp_test.Uso.{UsoSendResult, UsoThrow, Step}
use udp_test.Uso.Buffer.{Sending, send_buffer_uso}
use udp_test.Uso.Wire.{Wire, Never, At, Behaves, IsUnmixed}
use udp_test.Uso.Settled.{Settled, send_buffer_uso-Settled}
use udp_test.Client.Windows.{check_success, send_batch_windows, send_batches_windows}

-- Batches have gone, numbered from `i` on in a run of `count`, as many as the predicate says.
abbrev pub SentBatches :
    {W : Type 0} → Wire W → ℕ → ℕ → ℕ → List Bytes → ℕ → (ℕ → Type 0) → Process W → Type 0
SentBatches wire count size mss ds i many p =
    (bs : List Bytes) × IsSeries count size i bs
    × many (length bs)
    × At wire mss (ds ++ all_datagrams mss bs) p.world

module _ {W Address V4 V6 : Type 0} (os : Winsock W) (asio : Asio Address V4 V6) (waits : ℕ)
    (wire : Wire W) (limit : ℕ) (enough : limit + 2 ≤ waits) where
  module _ (to : Sending Address) (behaves : Behaves os wire to.sock limit)
      (unmixed : to.completion_routine ≡ true → IsUnmixed os) where
    -- A batch goes whole, or not at all, and then the call throws.
    abbrev Went : List Bytes → Bytes → Unit {0} → Process W → Type 0
    Went ds batch done p = At wire to.mss (ds ++ datagrams to.mss batch) p.world

    abbrev NotSent : List Bytes → UsoThrow → Process W → Type 0
    NotSent ds e p = At wire to.mss ds p.world

    check_success-Went :
        (ds : List Bytes) (batch : Bytes) (r : UsoSendResult) (p : Process W)
        → Settled wire to ds batch r p
        → Ends (Went ds batch) (NotSent ds) (check_success os asio waits r p)
    check_success-Went ds batch r p h = go r.success refl h
      where
        go :
            (b : Bool)
            → r.success ≡ b
            → udp_test.Uso.Settled.SettledAs wire to ds batch b r p
            → Ends (Went ds batch) (NotSent ds) (check_success os asio waits r p)
        go true e (told, total, counted, at) = rw e at
        go false e (told, at) = rw e at

    send_batch_windows-Went :
        (ds : List Bytes) (batch : Bytes) (p : Process W)
        → At wire to.mss ds p.world
        → Ends (Went ds batch) (NotSent ds) (send_batch_windows os asio waits to batch p)
    unfolding send_batch_windows
    send_batch_windows-Went ds batch p at =
        bind-Ends (Settled wire to ds batch) (Went ds batch) (NotSent ds)
          (send_buffer_uso os asio waits to batch) _ p
          (change-Ends (Settled wire to ds batch) (Settled wire to ds batch) Never (NotSent ds)
            (send_buffer_uso os asio waits to batch p)
            (send_buffer_uso-Settled wire to ds batch os asio waits limit behaves enough unmixed p
              at)
            (λ r q h. h) (λ e q h. absurd h))
          (check_success-Went ds batch)

    -- All of them where the call returns; where it throws, some of the first ones.
    abbrev AllWent : ℕ → ℕ → List Bytes → ℕ → ℕ → Unit {0} → Process W → Type 0
    AllWent count size ds i left done = SentBatches wire count size to.mss ds i (λ n. n ≡ left)

    abbrev SomeWent : ℕ → ℕ → List Bytes → ℕ → ℕ → UsoThrow → Process W → Type 0
    SomeWent count size ds i left e = SentBatches wire count size to.mss ds i (λ n. n ≤ left)

    none_sent :
        (count size : ℕ) (ds : List Bytes) (i left : ℕ) (p : Process W)
        → At wire to.mss ds p.world
        → SentBatches wire count size to.mss ds i (λ n. n ≤ left) p
    none_sent count size ds i left p at =
        ([], tt, omega arith, subst (λ l. At wire to.mss l p.world) (sym (append-nil ds)) at)

    -- One batch more in front.
    more_sent :
        (many also : ℕ → Type 0) (count size' size : ℕ) (ds : List Bytes) (i : ℕ) (b : Bytes)
        (p : Process W)
        → size' ≡ size
        → IsNumbered count size i b
        → ((n : ℕ) → many n → also (suc n))
        → SentBatches wire count size' to.mss (ds ++ datagrams to.mss b) (i + 1) many p
        → SentBatches wire count size to.mss ds i also p
    more_sent many also count size' size ds i b p same numbered step (bs, series, number, at) = (
      b ∷ bs,
      (numbered, subst (λ n. IsSeries count n (i + 1) bs) same series),
      step (length bs) number,
      subst (λ l. At wire to.mss l p.world)
          (append_assoc ds (datagrams to.mss b) (all_datagrams to.mss bs)) at,
    )

    module _ {S : Type 0} (draw : S → ℕ × S) where
      send_batches_windows-Went :
          (left i : ℕ) (batch : Bytes) (count : ℕ) (s : S) (ds : List Bytes) (p : Process W)
          → packet_header_size ≤ length batch
          → length batch ≤ max_packet_length
          → i + left ≡ count
          → count < 2 ^ 32
          → At wire to.mss ds p.world
          → Ends
              (AllWent count (length batch) ds i left)
              (SomeWent count (length batch) ds i left)
              (send_batches_windows os asio waits draw to left i batch count s p)
      unfolding send_batches_windows
      send_batches_windows-Went zero i batch count s ds p long short range fits at =
          ([], tt, refl, subst (λ l. At wire to.mss l p.world) (sym (append-nil ds)) at)
      send_batches_windows-Went (suc left) i batch count s ds p long short range fits at =
          let (b, s', builds, is_built) =
            build_batch-Built draw batch i count s long short (omega arith) fits in
          let seq : u32 i ≡ i = omega arith in
          let total : u32 count ≡ count = omega arith in
          let size = is_built.same_size in
          let numbered : IsNumbered count (length batch) i b = record {
            valid = is_built.valid;
            sized = size;
            numbered = is_built.numbered;
            totalled = is_built.totalled;
          } in
          let All' = AllWent count (length batch) ds i (suc left) in
          let Some' = SomeWent count (length batch) ds i (suc left) in
          rw (seq, total, builds)
            (bind-Ends (Went ds b) All' Some' (send_batch_windows os asio waits to b) _ p
              (change-Ends (Went ds b) (Went ds b) (NotSent ds) Some'
                (send_batch_windows os asio waits to b p) (send_batch_windows-Went ds b p at)
                (λ done q h. h) (λ e q h. none_sent count (length batch) ds i (suc left) q h))
              (λ done q sent.
                change-Ends (AllWent count (length b) (ds ++ datagrams to.mss b) (i + 1) left) All'
                  (SomeWent count (length b) (ds ++ datagrams to.mss b) (i + 1) left) Some'
                  (send_batches_windows os asio waits draw to left (i + 1) b count s' q)
                  (send_batches_windows-Went left (i + 1) b count s' (ds ++ datagrams to.mss b) q
                    (omega (arith, size)) (omega (arith, size)) (omega arith) fits sent)
                  (λ d r h.
                    more_sent (λ n. n ≡ left) (λ n. n ≡ suc left) count (length b) (length batch) ds
                      i b r size numbered (λ n e. ap suc e) h)
                  (λ e r h.
                    more_sent (λ n. n ≤ left) (λ n. n ≤ suc left) count (length b) (length batch) ds
                      i b r size numbered (λ n few. omega arith) h)))

      -- The run's buffer is of the size that the options say.
      pub run_batches-Went :
          (size count : ℕ) (s : S) (ds : List Bytes) (p : Process W)
          → packet_header_size ≤ size
          → size ≤ max_packet_length
          → count < 2 ^ 32
          → At wire to.mss ds p.world
          → Ends
              (AllWent count size ds 0 count)
              (SomeWent count size ds 0 count)
              (send_batches_windows os asio waits draw to count 0 (replicate size 0) count s p)
      run_batches-Went size count s ds p long short fits at =
          let n : length (replicate {A = ℕ} size 0) ≡ size = length-replicate {A = ℕ} size 0 in
          let run =
            send_batches_windows-Went count 0 (replicate size 0) count s ds p (omega (arith, n))
              (omega (arith, n)) (omega arith) fits at in
          subst
            (λ (k : ℕ).
              Ends (AllWent count k ds 0 count) (SomeWent count k ds 0 count)
                (send_batches_windows os asio waits draw to count 0 (replicate size 0) count s p))
            n run
