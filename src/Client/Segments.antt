-- ===== src/Client/Segments.antt =====
-- How `send_batch_fallback` cuts a batch, on a socket that sends what it is given.
use udp_test.Base.{
  ℕ, zero, suc, ◌+◌, ◌-◌, ◌/◌, min, ◌≤◌, ◌<◌, ◌≡◌, refl, sym, subst, ap, ◌∙◌, inl, inr, true, false,
  List, [], ◌∷◌, ◌++◌, append_assoc, append-nil, arith, length, take_all, drop_all, take, drop,
  join, All, length-take, length-drop, take-append-drop, ◌==◌, if◌then◌else◌, Result, returned,
  eq_cases, le_cases, ap₂,
}
use native.Mathlib.Nat.{div-eq_of_lt, add-div_right}
use udp_test.Crc.{Bytes}
use udp_test.Client.{◌>>=◌, ClientError, send_whole, send_segments, send_batch_fallback}

-- The datagrams of a batch: cut at every `mss` bytes.
unfoldable pub segments : ℕ → ℕ → Bytes → List Bytes
segments zero mss rest = []
segments (suc rounds) mss [] = []
segments (suc rounds) mss (b ∷ rest) =
    take mss (b ∷ rest) ∷ segments rounds mss (drop mss (b ∷ rest))

take-min : (n : ℕ) (xs : Bytes) → take (min n (length xs)) xs ≡ take n xs
take-min zero xs = let e : min 0 (length xs) ≡ 0 = omega arith in rw e
take-min (suc n) [] = let e : min (suc n) 0 ≡ 0 = omega arith in rw e
take-min (suc n) (x ∷ xs) =
    let e : min (suc n) (suc (length xs)) ≡ suc (min n (length xs)) = omega arith in
    rw e (ap (◌∷◌ x) (take-min n xs))

drop-min : (n : ℕ) (xs : Bytes) → drop (min n (length xs)) xs ≡ drop n xs
drop-min zero xs = let e : min 0 (length xs) ≡ 0 = omega arith in rw e
drop-min (suc n) [] = let e : min (suc n) 0 ≡ 0 = omega arith in rw e
drop-min (suc n) (x ∷ xs) =
    let e : min (suc n) (suc (length xs)) ≡ suc (min n (length xs)) = omega arith in
    rw e (drop-min n xs)

-- The segments are the batch, none is longer than `mss`, and none is empty.
join-segments :
    (rounds mss : ℕ) (rest : Bytes)
    → 0 < mss
    → length rest < rounds
    → join (segments rounds mss rest) ≡ rest
unfolding segments
join-segments zero mss rest pos h = absurd (omega arith)
join-segments (suc rounds) mss [] pos h = refl
join-segments (suc rounds) mss (b ∷ rest) pos h =
    ap (◌++◌ (take mss (b ∷ rest))) (
      join-segments rounds mss (drop mss (b ∷ rest)) pos
        (omega (arith, length-drop mss (b ∷ rest))))
    ∙ take-append-drop mss (b ∷ rest)

abbrev pub IsSegment : ℕ → Bytes → Type 0
IsSegment mss d = (0 < length d) × (length d ≤ mss)

segments-IsSegment :
    (rounds mss : ℕ) (rest : Bytes) → 0 < mss → All (IsSegment mss) (segments rounds mss rest)
unfolding segments
segments-IsSegment zero mss rest pos = tt
segments-IsSegment (suc rounds) mss [] pos = tt
segments-IsSegment (suc rounds) mss (b ∷ rest) pos = (
  omega (arith, length-take mss (b ∷ rest)),
  segments-IsSegment rounds mss (drop mss (b ∷ rest)) pos,
)

division : (n mss : ℕ) → 0 < mss → (suc n + mss - 1) / mss ≡ suc (n / mss)
division n mss pos =
    let e : suc n + mss - 1 ≡ n + mss = omega arith in
    ap (λ k. k / mss) e ∙ add-div_right n pos ∙ omega arith

rounds_up : (n mss m : ℕ) → 0 < mss → m ≡ suc n - mss → (m + mss - 1) / mss ≡ n / mss
rounds_up n mss m pos h = elim (le_cases mss (suc n)) [
  | inl full ↦ let e : m + mss - 1 ≡ n = omega arith in ap (λ k. k / mss) e
  | inr less ↦
      let e : m + mss - 1 ≡ mss - 1 = omega arith in
      ap (λ k. k / mss) e
      ∙ div-eq_of_lt {n = mss - 1} (omega arith)
      ∙ sym (div-eq_of_lt {n = n} (omega arith))
]

-- All but the last are full: there are as many as the division of the size by `mss`, rounded up.
pub length-segments :
    (rounds mss : ℕ) (rest : Bytes)
    → 0 < mss
    → length rest < rounds
    → length (segments rounds mss rest) ≡ (length rest + mss - 1) / mss
unfolding segments
length-segments zero mss rest pos h = absurd (omega arith)
length-segments (suc rounds) mss [] pos h = sym (div-eq_of_lt (omega arith))
length-segments (suc rounds) mss (b ∷ rest) pos h =
    let cut = drop mss (b ∷ rest) in
    ap suc (length-segments rounds mss cut pos (omega (arith, length-drop mss (b ∷ rest))))
    ∙ ap suc (rounds_up (length rest) mss (length cut) pos (length-drop mss (b ∷ rest)))
    ∙ sym (division (length rest) mss pos)

-- The datagrams of one batch.
abbrev pub datagrams : ℕ → Bytes → List Bytes
datagrams mss batch = if mss == 0 then batch ∷ [] else segments (length batch + 1) mss batch

-- A batch that is no longer than the segment size is one datagram.
pub datagrams_whole :
    (mss : ℕ) (batch : Bytes)
    → 0 < length batch
    → length batch ≤ mss
    → datagrams mss batch ≡ batch ∷ []
unfolding segments
datagrams_whole mss [] some_bytes short = absurd (omega arith)
datagrams_whole mss (b ∷ batch) some_bytes short =
    let n : (mss == 0) ≡ false = ground arith in
    let two : length (b ∷ batch) + 1 ≡ suc (suc (length batch)) = omega arith in
    rw n (
      ap (λ rounds. segments rounds mss (b ∷ batch)) two
      ∙ rw (take_all mss (b ∷ batch) short, drop_all mss (b ∷ batch) short) refl)

-- The datagrams of a batch are the batch.
pub join-datagrams : (mss : ℕ) (batch : Bytes) → join (datagrams mss batch) ≡ batch
join-datagrams mss batch = elim (eq_cases mss 0) [
  | inl e ↦ let b : (mss == 0) ≡ true = ground arith in rw b (append-nil batch)
  | inr ne ↦
      let b : (mss == 0) ≡ false = ground arith in
      rw b (join-segments (length batch + 1) mss batch (omega arith) (omega arith))
]

-- The world's record of what was sent, and a socket that sends each datagram whole.
pub record SendsAll {E W : Type 0} (send_to : Bytes → W → Result E (ℕ × W)) (sent : W → List Bytes)
    : Type 0 where
  pub sends :
      (d : Bytes) (w : W)
      → (w' : W) × (send_to d w ≡ returned (length d, w')) × (sent w' ≡ sent w ++ d ∷ [])

module _ {E W : Type 0} (send_to : Bytes → W → Result E (ℕ × W)) (sent : W → List Bytes)
    (works : SendsAll send_to sent) where
  -- A call that returns, and the datagrams that it added.
  pub record Sent (w : W) (ds : List Bytes) (result : Result (ClientError E) W) : Type 0 where
    pub after : W
    pub returns : result ≡ returned after
    pub added : sent after ≡ sent w ++ ds

  send_whole-Sent : (d : Bytes) (w : W) → Sent w (d ∷ []) (send_whole send_to d w)
  unfolding send_whole
  send_whole-Sent d w =
      let (w', e, s) = works.sends d w in
      record { after = w'; returns = rw e (ground arith); added = s }

  send_segments-Sent :
      (rounds mss : ℕ) (rest : Bytes) (w : W)
      → 0 < mss
      → length rest < rounds
      → Sent w (segments rounds mss rest) (send_segments send_to rounds mss rest w)
  unfolding send_segments segments
  send_segments-Sent zero mss rest w pos h = absurd (omega arith)
  send_segments-Sent (suc rounds) mss [] w pos h = record {
    after = w;
    returns = refl;
    added = sym (append-nil (sent w));
  }
  send_segments-Sent (suc rounds) mss (b ∷ rest) w pos h =
      let first = send_whole-Sent (take mss (b ∷ rest)) w in
      let others =
        send_segments-Sent rounds mss (drop mss (b ∷ rest)) first.after pos
          (omega (arith, length-drop mss (b ∷ rest))) in
      record {
        after = others.after;
        returns =
            ap₂ (λ x y. send_whole send_to x w >>= send_segments send_to rounds mss y)
              (take-min mss (b ∷ rest)) (drop-min mss (b ∷ rest))
            ∙ ap (λ x. x >>= send_segments send_to rounds mss (drop mss (b ∷ rest))) first.returns
            ∙ others.returns;
        added =
            others.added
            ∙ ap (λ l. l ++ segments rounds mss (drop mss (b ∷ rest))) first.added
            ∙ append_assoc (sent w) _ _;
      }

  -- With `--mss 0` the batch goes in one datagram; otherwise in segments.
  pub send_batch_fallback-Sent :
      (batch : Bytes) (mss : ℕ) (w : W)
      → Sent w (datagrams mss batch) (send_batch_fallback send_to batch mss w)
  unfolding send_batch_fallback
  send_batch_fallback-Sent batch mss w = elim (eq_cases mss 0) [
    | inl e ↦ let b : (mss == 0) ≡ true = ground arith in rw b (send_whole-Sent batch w)
    | inr ne ↦
        let b : (mss == 0) ≡ false = ground arith in
        rw b (send_segments-Sent (length batch + 1) mss batch w (omega arith) (omega arith))
  ]

  -- With an MSS a batch is cut into datagrams that are the batch when put together, of which none
  -- is empty or longer than the MSS, and that are as many as the division of its size by the MSS
  -- gives, rounded up: on a socket that sends each datagram whole, the call returns, and has sent
  -- those.
  pub send_batch_fallback-Cut :
      (batch : Bytes) (mss : ℕ) (w : W)
      → 0 < mss
      → (ds : List Bytes) × Sent w ds (send_batch_fallback send_to batch mss w)
        × (join ds ≡ batch)
        × All (IsSegment mss) ds
        × (length ds ≡ (length batch + mss - 1) / mss)
  send_batch_fallback-Cut batch mss w pos =
      let b : (mss == 0) ≡ false = ground arith in
      let cut : datagrams mss batch ≡ segments (length batch + 1) mss batch = rw b refl in
      (
        segments (length batch + 1) mss batch,
        subst (λ ds. Sent w ds (send_batch_fallback send_to batch mss w)) cut
            (send_batch_fallback-Sent batch mss w),
        join-segments (length batch + 1) mss batch pos (omega arith),
        segments-IsSegment (length batch + 1) mss batch pos,
        length-segments (length batch + 1) mss batch pos (omega arith),
      )
