-- ===== src/Server/Sequence/Tracked.antt =====
-- The two branches of `track_sequence`.
use udp_test.Base.{ℕ, max, ◌≡◌, true, false, List, [], ◌∷◌, incr, ltb, ◌&&◌, if◌then◌else◌}
use udp_test.Server.State.{ServerStats}
use udp_test.Server.Sequence.{contains, track_sequence}

-- No number stands twice.
abbrev pub Distinct : List ℕ → Type 0
Distinct [] = Unit
Distinct (x ∷ xs) = (contains xs x ≡ false) × Distinct xs

module _ (stats : ServerStats) (seq : ℕ) where
  -- A number seen before only counts as a duplicate.
  pub track_sequence-old :
      contains stats.seen_seq seq ≡ true
      → track_sequence stats seq ≡ record stats { duplicates = incr stats.duplicates }
  unfolding track_sequence
  track_sequence-old old = rw old

  pub track_sequence-new :
      contains stats.seen_seq seq ≡ false
      → track_sequence stats seq ≡ record stats {
        out_of_order =
            if stats.have_seq && ltb seq stats.highest_seq
            then incr stats.out_of_order
            else stats.out_of_order;
        seen_seq = seq ∷ stats.seen_seq;
        have_seq = true;
        highest_seq = if stats.have_seq then max stats.highest_seq seq else seq;
      }
  unfolding track_sequence
  track_sequence-new new = rw new
