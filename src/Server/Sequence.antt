-- ===== src/Server/Sequence.antt =====
-- `track_sequence` and `finalize_lost`.
pub mod Tracked
pub mod History
pub mod Lost
use udp_test.Base.{
  ◌>>=◌, [], ℕ, zero, suc, ◌+◌, ◌-◌, ◌^◌, max, Bool, true, false, ◌&&◌, ◌||◌, Option, none, some,
  List, ◌∷◌, u32, incr, ltb, leb, ◌==◌, if◌then◌else◌,
}
use udp_test.Server.State.{ServerStats}

-- `seen_seq.count(seq) != 0`
unfoldable pub contains : List ℕ → ℕ → Bool
contains [] seq = false
contains (s ∷ seen) seq = seq == s || contains seen seq

unfoldable pub track_sequence : ServerStats → ℕ → ServerStats
track_sequence stats seq =
    if contains stats.seen_seq seq
    then record stats { duplicates = incr stats.duplicates }
    else record stats {
      out_of_order =
          if stats.have_seq && ltb seq stats.highest_seq
          then incr stats.out_of_order
          else stats.out_of_order;
      seen_seq = seq ∷ stats.seen_seq;
      have_seq = true;
      highest_seq = if stats.have_seq then max stats.highest_seq seq else seq;
    }

-- The number up to which sequence numbers are expected; `none` is the early return.
unfoldable pub lost_upper : Option ℕ → ServerStats → Option ℕ
lost_upper (some count) stats = if count == 0 then none else some (u32 (count - 1))
lost_upper none stats = elim stats.wire_batch_total [
  | some total ↦ some (u32 (total + 2 ^ 32 - 1))
  | none ↦ if stats.have_seq then some stats.highest_seq else none
]

-- `for (seq = 0; seq <= upper; ++seq)` from `seq` on; `none` if it runs for more than the given
-- number of rounds.
pub count_lost : ℕ → List ℕ → ℕ → ℕ → ℕ → Option ℕ
count_lost zero seen upper seq lost = none
count_lost (suc rounds) seen upper seq lost =
    let rest =
      count_lost rounds seen upper (u32 (seq + 1))
        (if contains seen seq then lost else incr lost) in
    if leb seq upper then rest else some lost

-- The loop of `finalize_lost`, for at most the given number of rounds.
unfoldable pub add_lost : ℕ → ServerStats → Option ℕ → Option ServerStats
add_lost rounds stats none = some stats
add_lost rounds stats (some upper) = do
  lost ← count_lost rounds stats.seen_seq upper 0 stats.lost
  some (record stats { lost = lost })

-- The statistics on return. There is room for every `uint32_t`, and for the test that ends the loop
-- behind the last of them.
unfoldable pub finalize_lost : ServerStats → Option ℕ → Option ServerStats
finalize_lost stats cli_batch_count = add_lost (2 ^ 32 + 1) stats (lost_upper cli_batch_count stats)
