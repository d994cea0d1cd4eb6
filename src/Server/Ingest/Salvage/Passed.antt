-- ===== src/Server/Ingest/Salvage/Passed.antt =====
-- How far a datagram gets in a run of batches of which the first is damaged.
use udp_test.Base.{ℕ, ◌≡◌, ◌⊎◌, ap, ◌∙◌, inl, inr, Option, some, List, All}
use udp_test.Crc.{Bytes}
use udp_test.Server.State.{Receiver, ServerStats, count_fragment}
use udp_test.Server.Ingest.Stream.{deliveries, Awaits, IsDeliverable, Joins, Synced}
use udp_test.Server.Ingest.Salvage.Recover.{counted_bad}

-- The statistics once the damaged batch is counted, and what is inside goes in as a fragment.
abbrev pub after_bad : ℕ → ServerStats → ServerStats
after_bad total stats = (count_fragment (counted_bad total stats)).stats

module _ (total : ℕ) (outer rest : Bytes) (batches : List Bytes) where
  -- The damaged batch is still coming in, and nothing has been counted.
  abbrev pub Awaiting : ServerStats → Bytes → Receiver → Type 0
  Awaiting before left r =
      Awaits outer rest left r
      × Joins total r.stats
      × (after_bad total r.stats ≡ after_bad total before)

  -- It is done with, and the stream goes on.
  pub record Resumed (before : ServerStats) (left : Bytes) (r : Receiver) : Type 0 where
    pub later : List Bytes
    pub synced : Synced later left r
    pub deliverable : All (IsDeliverable total) later
    pub joins : Joins total r.stats
    pub same : deliveries r.stats later ≡ deliveries (after_bad total before) batches

  pub record Passed (before : ServerStats) (left : Bytes) (result : Option Receiver) : Type 0 where
    pub r : Receiver
    pub returns : result ≡ some r
    pub stage : Awaiting before left r ⊎ Resumed before left r

  -- The same for an earlier state of the statistics.
  pub since :
      (before before' : ServerStats) (left : Bytes) (result result' : Option Receiver)
      → result' ≡ result
      → after_bad total before ≡ after_bad total before'
      → Passed before left result
      → Passed before' left result'
  since before before' left result result' e same x = record {
    r = x.r;
    returns = e ∙ x.returns;
    stage = stage_of x.stage;
  }
    where
      stage_of :
          Awaiting before left x.r ⊎ Resumed before left x.r
          → Awaiting before' left x.r ⊎ Resumed before' left x.r
      stage_of (inl (awaits, joins, kept)) = inl (awaits, joins, kept ∙ same)
      stage_of (inr s) = inr (record {
        later = s.later;
        synced = s.synced;
        deliverable = s.deliverable;
        joins = s.joins;
        same = s.same ∙ ap (λ b. deliveries b batches) same;
      })
