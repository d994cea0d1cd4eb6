-- ===== src/Server/Sequence/Lost.antt =====
-- What `finalize_lost` counts, and where its loop does not end.
use udp_test.Base.{
  ℕ, zero, suc, ◌+◌, ◌-◌, ◌%◌, ◌^◌, ◌≤◌, ◌<◌, ◌≡◌, refl, ap, ◌∙◌, ◌⊎◌, inl, inr, true, false,
  Option, none, some, List, [], ◌∷◌, u32, u64, incr, arith, length, All, Bool-cases, eq_cases, leb,
  if◌then◌else◌,
}
use udp_test.Server.State.{ServerStats}
use udp_test.Server.Sequence.{contains, lost_upper, count_lost, add_lost, finalize_lost}
use udp_test.Server.Sequence.Tracked.{Distinct}

-- How many of the `n` numbers from `seq` on were not seen, and how many were.
missing : ℕ → List ℕ → ℕ → ℕ
missing zero seen seq = 0
missing (suc n) seen seq =
    if contains seen seq then missing n seen (seq + 1) else missing n seen (seq + 1) + 1

present : ℕ → List ℕ → ℕ → ℕ
present zero seen seq = 0
present (suc n) seen seq =
    if contains seen seq then present n seen (seq + 1) + 1 else present n seen (seq + 1)

missing-present : (n : ℕ) (seen : List ℕ) (seq : ℕ) → missing n seen seq + present n seen seq ≡ n
unfolding missing present
missing-present zero seen seq = refl
missing-present (suc n) seen seq = ground (arith, missing-present n seen (seq + 1))

present-nil : (n seq : ℕ) → present n [] seq ≡ 0
unfolding present contains
present-nil zero seq = refl
present-nil (suc n) seq = present-nil n (seq + 1)

-- A number outside the range does not matter; one inside it, if new, adds one.
present_outside :
    (n x : ℕ) (seen : List ℕ) (seq : ℕ)
    → (x < seq) ⊎ (seq + n ≤ x)
    → present n (x ∷ seen) seq ≡ present n seen seq
unfolding present contains
present_outside zero x seen seq h = refl
present_outside (suc n) x seen seq h =
    ground (arith, present_outside n x seen (seq + 1) (omega arith))

present_inside :
    (n x : ℕ) (seen : List ℕ) (seq : ℕ)
    → seq ≤ x
    → x < seq + n
    → contains seen x ≡ false
    → present n (x ∷ seen) seq ≡ present n seen seq + 1
unfolding present contains
present_inside zero x seen seq h k new = absurd (omega arith)
present_inside (suc n) x seen seq h k new = elim (eq_cases x seq) [
  | inl same ↦
      ground
        (arith, present_outside n x seen (seq + 1) (inl (omega arith)), ap (contains seen) same)
  | inr other ↦ ground (arith, present_inside n x seen (seq + 1) (omega arith) (omega arith) new)
]

-- If all that was seen lies in the range, the range holds exactly that.
present-All :
    (n : ℕ) (seen : List ℕ) → Distinct seen → All (λ s. s < n) seen → present n seen 0 ≡ length seen
present-All n [] d h = present-nil n 0
present-All n (x ∷ seen) d h =
    omega
      (arith, present_inside n x seen 0 (omega arith) (omega arith) d.0, present-All n seen d.1 h.1)

-- The loop, when its end does not wrap.
count_lost-eq :
    (rounds : ℕ) (seen : List ℕ) (upper seq lost n : ℕ)
    → upper + 1 < 2 ^ 32
    → seq + n ≡ upper + 1
    → n < rounds
    → lost < 2 ^ 64
    → count_lost rounds seen upper seq lost ≡ some (u64 (lost + missing n seen seq))
unfolding count_lost missing
count_lost-eq zero seen upper seq lost n fits e h l = absurd (omega arith)
count_lost-eq (suc rounds) seen upper seq lost zero fits e h l = ground arith
count_lost-eq (suc rounds) seen upper seq lost (suc n) fits e h l =
    let go : leb seq upper ≡ true = ground arith in
    let next : u32 (seq + 1) ≡ seq + 1 = omega arith in
    elim (Bool-cases (contains seen seq)) [
      | inl old ↦
          rw (go, next, old)
            (count_lost-eq rounds seen upper (seq + 1) lost n fits (omega arith) (omega arith) l)
      | inr new ↦
          rw (go, next, new)
            (count_lost-eq rounds seen upper (seq + 1) (incr lost) n fits (omega arith)
                (omega arith) (omega arith)
              ∙ ap some (omega arith))
    ]

-- With the highest `uint32_t` as its end, `seq <= upper` never fails: the loop does not end,
-- however many rounds it is given.
count_lost_diverges :
    (rounds : ℕ) (seen : List ℕ) (seq lost : ℕ)
    → seq < 2 ^ 32
    → count_lost rounds seen (2 ^ 32 - 1) seq lost ≡ none
unfolding count_lost
count_lost_diverges zero seen seq lost h = refl
count_lost_diverges (suc rounds) seen seq lost h =
    let go : leb seq (2 ^ 32 - 1) ≡ true = ground arith in
    rw go (
      count_lost_diverges rounds seen (u32 (seq + 1))
        (if contains seen seq then lost else incr lost) (omega arith))

-- Whatever sets the end of the range, as long as it is not the highest `uint32_t`, the call
-- returns, with the numbers of the range that were not seen added to `lost`.
finalize_lost-eq :
    (stats : ServerStats) (cli : Option ℕ) (upper : ℕ)
    → lost_upper cli stats ≡ some upper
    → upper + 1 < 2 ^ 32
    → stats.lost < 2 ^ 64
    → finalize_lost stats cli
      ≡ some (record stats { lost = u64 (stats.lost + missing (upper + 1) stats.seen_seq 0) })
unfolding finalize_lost add_lost
finalize_lost-eq stats cli upper e fits l =
    ap (add_lost (2 ^ 32 + 1) stats) e
    ∙ (rw (
        count_lost-eq (2 ^ 32 + 1) stats.seen_seq upper 0 stats.lost (upper + 1) fits (omega arith)
          (omega arith) l))

-- The numbers that are expected: those of `--count`, or else of the total on the wire.
abbrev Expects : Option ℕ → ServerStats → ℕ → Type 0
Expects (some count) stats n = count ≡ n
Expects none stats n = stats.wire_batch_total ≡ some n

lost_upper-Expects :
    (stats : ServerStats) (cli : Option ℕ) (n : ℕ)
    → Expects cli stats n
    → 0 < n
    → n < 2 ^ 32
    → lost_upper cli stats ≡ some (n - 1)
unfolding lost_upper
lost_upper-Expects stats (some count) n e pos fits = ground arith
lost_upper-Expects stats none n e pos fits = rw e (ap some (omega arith))

-- With `n` numbers expected, from `--count` or from the wire, `n` from 1 to 2 ^ 32 - 1, and nothing
-- counted as lost before: if the numbers seen are distinct and below `n`, `finalize_lost` returns,
-- and `lost` and the numbers seen make up `n`.
pub finalize_lost_total :
    (stats : ServerStats) (cli : Option ℕ) (n : ℕ)
    → Expects cli stats n
    → 0 < n
    → n < 2 ^ 32
    → stats.lost ≡ 0
    → Distinct stats.seen_seq
    → All (λ s. s < n) stats.seen_seq
    → (lost : ℕ) × (finalize_lost stats cli ≡ some (record stats { lost = lost }))
      × (lost + length stats.seen_seq ≡ n)
finalize_lost_total stats cli n expects pos fits zero_lost distinct below =
    let all = present-All n stats.seen_seq distinct below in
    let parts = missing-present n stats.seen_seq 0 in
    let upper = lost_upper-Expects stats cli n expects pos fits in
    let top : n - 1 + 1 ≡ n = omega arith in
    let lost : u64 (stats.lost + missing (n - 1 + 1) stats.seen_seq 0)
        ≡ missing n stats.seen_seq 0 =
      rw top (omega arith) in
    (
      missing n stats.seen_seq 0,
      finalize_lost-eq stats cli (n - 1) upper (omega arith) (omega arith)
          ∙ ap (λ k. some (record stats { lost = k })) lost,
      omega (arith, all, parts),
    )

-- A `--count` that is a multiple of 2 ^ 32 makes the loop of `finalize_lost` endless, whatever was
-- received: it is not done after any number of rounds, and so not after the 2 ^ 32 + 1 that are
-- given to it, which are enough for every `uint32_t` and the test that ends it.
pub finalize_lost_diverges :
    (stats : ServerStats) (count : ℕ)
    → count % 2 ^ 32 ≡ 0
    → 0 < count
    → ((rounds : ℕ) → add_lost rounds stats (lost_upper (some count) stats) ≡ none)
      × (finalize_lost stats (some count) ≡ none)
unfolding finalize_lost add_lost lost_upper
finalize_lost_diverges stats count wraps pos = (endless, endless (2 ^ 32 + 1))
  where
    endless : (rounds : ℕ) → add_lost rounds stats (lost_upper (some count) stats) ≡ none
    endless rounds =
        let top : lost_upper (some count) stats ≡ some (2 ^ 32 - 1) = ground arith in
        ap (add_lost rounds stats) top
        ∙ (rw (count_lost_diverges rounds stats.seen_seq 0 stats.lost (omega arith)))
