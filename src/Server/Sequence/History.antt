-- ===== src/Server/Sequence/History.antt =====
-- What the statistics say of a whole history of sequence numbers. A history has the latest first.
use udp_test.Base.{
  ℕ, ◌+◌, ◌≤◌, ◌≡◌, refl, sym, ap, ◌∙◌, max, Bool, true, false, List, [], ◌∷◌, arith, length, u64,
  incr, Bool-cases, eq_cases, inl, inr, ltb, ◌&&◌, not, if◌then◌else◌, ◌==◌, ◌||◌,
}
use udp_test.Server.State.{ServerStats}
use udp_test.Server.Sequence.{contains, track_sequence}
use udp_test.Server.Sequence.Tracked.{track_sequence-old, track_sequence-new}

-- How many different numbers there are.
abbrev pub different : List ℕ → ℕ
different [] = 0
different (x ∷ before) = let n = different before in if contains before x then n else n + 1

-- How many numbers came again.
abbrev pub repeats : List ℕ → ℕ
repeats [] = 0
repeats (x ∷ before) = let n = repeats before in if contains before x then n + 1 else n

abbrev pub top : List ℕ → ℕ
top [] = 0
top (x ∷ before) = max (top before) x

-- How many numbers came for the first time when a higher one had already come.
abbrev pub late : List ℕ → ℕ
late [] = 0
late (x ∷ before) =
    let n = late before in if not (contains before x) && ltb x (top before) then n + 1 else n

pub different-repeats : (h : List ℕ) → different h + repeats h ≡ length h
different-repeats [] = refl
different-repeats (x ∷ h) = ground (arith, different-repeats h)

top-contains : (h : List ℕ) (x : ℕ) → contains h x ≡ true → x ≤ top h
unfolding contains
top-contains (y ∷ h) x e = elim (eq_cases x y) [
  | inl same ↦ omega (arith, same)
  | inr other ↦ let below = top-contains h x (ground (arith, other)) in omega (arith, below)
]
top-contains [] x e = cc

pub record Tells (h : List ℕ) (stats : ServerStats) : Type 0 where
  pub seen : (n : ℕ) → contains stats.seen_seq n ≡ contains h n
  pub size : length stats.seen_seq ≡ different h
  pub repeated : stats.duplicates ≡ u64 (repeats h)
  pub behind : stats.out_of_order ≡ u64 (late h)
  pub highest : stats.highest_seq ≡ top h
  pub marked : stats.have_seq ≡ false → top h ≡ 0

contains_also :
    (xs ys : List ℕ) (x : ℕ)
    → ((n : ℕ) → contains xs n ≡ contains ys n)
    → (n : ℕ) → contains (x ∷ xs) n ≡ contains (x ∷ ys) n
unfolding contains
contains_also xs ys x h n = ap (λ b. (n == x) || b) (h n)

contains_again :
    (ys : List ℕ) (x : ℕ) → contains ys x ≡ true → (n : ℕ) → contains ys n ≡ contains (x ∷ ys) n
unfolding contains
contains_again ys x e n = elim (eq_cases n x) [
  | inl same ↦ ground (arith, ap (contains ys) same)
  | inr other ↦ ground (arith, other)
]

-- Every call of `track_sequence` adds its number to the history that the statistics tell.
pub track_sequence-Tells :
    (h : List ℕ) (stats : ServerStats) (seq : ℕ)
    → Tells h stats
    → Tells (seq ∷ h) (track_sequence stats seq)
track_sequence-Tells h stats seq t = elim (Bool-cases (contains stats.seen_seq seq)) [
  | inl old ↦
      let again : contains h seq ≡ true = sym (t.seen seq) ∙ old in
      let below = top-contains h seq again in
      rw (track_sequence-old stats seq old) (record {
        seen = λ n. t.seen n ∙ contains_again h seq again n;
        size = ground (arith, t.size, again);
        repeated = ground (arith, t.repeated, again);
        behind = ground (arith, t.behind, again);
        highest = omega (arith, t.highest, below);
        marked = λ e. omega (arith, t.marked e, below);
      })
  | inr new ↦
      let first : contains h seq ≡ false = sym (t.seen seq) ∙ new in
      rw (track_sequence-new stats seq new) (record {
        seen = contains_also stats.seen_seq h seq t.seen;
        size = ground (arith, t.size, first);
        repeated = ground (arith, t.repeated, first);
        behind = behind_of stats.have_seq t.marked first;
        highest = highest_of stats.have_seq t.marked;
        marked = λ e. absurd_of e;
      })
]
  where
    behind_of :
        (had : Bool)
        → (had ≡ false → top h ≡ 0)
        → contains h seq ≡ false
        → (if had && ltb seq stats.highest_seq then incr stats.out_of_order else stats.out_of_order)
          ≡ u64 (late (seq ∷ h))
    behind_of true marked first = ground (arith, t.behind, t.highest, first)
    behind_of false marked first = ground (arith, t.behind, marked refl, first)

    highest_of :
        (had : Bool)
        → (had ≡ false → top h ≡ 0)
        → (if had then max stats.highest_seq seq else seq) ≡ max (top h) seq
    highest_of true marked = omega (arith, t.highest)
    highest_of false marked = omega (arith, marked refl)

    absurd_of : true ≡ false → max (top h) seq ≡ 0
    absurd_of e = cc
