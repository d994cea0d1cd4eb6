-- ===== src/Server/Session/Accounts.antt =====
-- What the summary at the end of a session says.
use udp_test.Base.{
  ℕ, ◌+◌, ◌^◌, ◌<◌, ◌≡◌, subst, Bool, true, false, Option, none, some, List, length, u64,
  if◌then◌else◌,
}
use udp_test.Crc.{Bytes}
use udp_test.Server.State.{ServerStats, Receiver, count_bad, fresh_receiver}
use udp_test.Server.Sequence.{finalize_lost}
use udp_test.Server.Sequence.Lost.{finalize_lost_total}
use udp_test.Server.Ingest.Stream.{ingest_all}
use udp_test.Server.Ingest.Accounts.{IsAccounted, Within}
use udp_test.Server.Ingest.Accounts.Loop.{Accounts, ingest_all-Accounts}
use udp_test.Server.Session.{drop_incomplete, end_session}

-- The summary: the statistics that are printed, with the batches and what was lost.
pub record Summary (total : ℕ) (result : Option ServerStats) : Type 0 where
  pub stats : ServerStats
  pub printed : result ≡ some stats
  pub batches : stats.batches ≡ u64 (length stats.seen_seq + stats.duplicates)
  pub lost : stats.lost + length stats.seen_seq ≡ total

-- What has been received is accounted for.
pub received-IsAccounted :
    (datagrams : List Bytes) (r : Receiver)
    → ingest_all datagrams fresh_receiver ≡ some r
    → IsAccounted r.stats
received-IsAccounted datagrams r received = of (ingest_all-Accounts datagrams)
  where
    of : Accounts (ingest_all datagrams fresh_receiver) → IsAccounted r.stats
    of a =
        let same : a.r ≡ r = cc (received, a.returns) in
        subst (λ (x : Receiver). IsAccounted x.stats) same a.accounted

-- Then the end of a session counts as lost what is missing from the total.
pub finalize_lost-IsAccounted :
    (stats : ServerStats) (total : ℕ)
    → IsAccounted stats
    → stats.wire_batch_total ≡ some total
    → 0 < total
    → total < 2 ^ 32
    → (lost : ℕ) × (finalize_lost stats none ≡ some (record stats { lost = lost }))
      × (lost + length stats.seen_seq ≡ total)
finalize_lost-IsAccounted stats total (counted, none_lost, distinct, within) wire pos fits =
    finalize_lost_total stats none total wire pos fits none_lost distinct
      (subst (λ (o : Option ℕ). Within o stats.seen_seq) wire within)

-- Whatever datagrams a session without `--count` receives, if its total is then `total`, from 1 to
-- 2 ^ 32 - 1, it ends with a summary: the batches counted are the distinct numbers seen and the
-- duplicates together, modulo 2 ^ 64, and what is lost and the distinct numbers seen make up
-- `total`.
pub end_session-Summary :
    (datagrams : List Bytes) (r : Receiver) (total : ℕ)
    → ingest_all datagrams fresh_receiver ≡ some r
    → r.stats.wire_batch_total ≡ some total
    → 0 < total
    → total < 2 ^ 32
    → Summary total (end_session none r)
unfolding end_session drop_incomplete
end_session-Summary datagrams r total received wire pos fits = by_active r.reassembly.active
  where
    accounted : IsAccounted r.stats
    accounted = received-IsAccounted datagrams r received

    summary_of :
        (stats : ServerStats)
        → IsAccounted stats
        → stats.wire_batch_total ≡ some total
        → Summary total (finalize_lost stats none)
    summary_of stats a joined =
        let (lost, returns, sum) = finalize_lost-IsAccounted stats total a joined pos fits in
        record {
          stats = record stats { lost = lost };
          printed = returns;
          batches = a.0;
          lost = sum;
        }

    by_active :
        (active : Bool)
        → Summary total (finalize_lost (if active then count_bad r.stats else r.stats) none)
    by_active true = summary_of (count_bad r.stats) accounted wire
    by_active false = summary_of r.stats accounted wire
