-- ===== src/Server/Mss/Mode.antt =====
-- The size that `infer_detected_mss` finds.
use udp_test.Base.{
  ℕ, ◌+◌, ◌≤◌, ◌<◌, ◌≡◌, ◌⊎◌, inl, inr, refl, sym, some, List, [], ◌∷◌, arith, length, All, ltb,
  ◌==◌, ◌&&◌, ◌||◌, if◌then◌else◌, le_cases, eq_cases, Bool, true, false, Bool-cases, subst, lt→ltb,
}
use udp_test.Server.Mss.{count_of, best_size, infer_detected_mss}

-- `m` occurs more often than `v`, or as often and is no smaller.
abbrev pub Dominates : List ℕ → ℕ → ℕ → Type 0
Dominates sizes m v =
    (count_of v sizes < count_of m sizes) ⊎ ((count_of v sizes ≡ count_of m sizes) × (v ≤ m))

Dominates-self : (sizes : List ℕ) (m : ℕ) → Dominates sizes m m
Dominates-self sizes m = inr (refl, omega arith)

Dominates-trans :
    (sizes : List ℕ) (a b c : ℕ) → Dominates sizes a b → Dominates sizes b c → Dominates sizes a c
Dominates-trans sizes a b c h k = grind arith

-- The test of the outer loop.
abbrev better : List ℕ → ℕ → ℕ → Bool
better sizes value best =
    ltb (count_of best sizes) (count_of value sizes)
    || count_of value sizes == count_of best sizes && ltb best value

better-true :
    (sizes : List ℕ) (value best : ℕ) → better sizes value best ≡ true → Dominates sizes value best
better-true sizes value best h = ground arith

better-false :
    (sizes : List ℕ) (value best : ℕ) → better sizes value best ≡ false → Dominates sizes best value
better-false sizes value best h = ground arith

best_size-won :
    (sizes : List ℕ) (value : ℕ) (rest : List ℕ) (best : ℕ)
    → better sizes value best ≡ true
    → best_size sizes (value ∷ rest) best (count_of best sizes)
      ≡ best_size sizes rest value (count_of value sizes)
unfolding best_size
best_size-won sizes value rest best e = rw e refl

best_size-kept :
    (sizes : List ℕ) (value : ℕ) (rest : List ℕ) (best : ℕ)
    → better sizes value best ≡ false
    → best_size sizes (value ∷ rest) best (count_of best sizes)
      ≡ best_size sizes rest best (count_of best sizes)
unfolding best_size
best_size-kept sizes value rest best e = rw e refl

best_size-nil : (sizes : List ℕ) (best count : ℕ) → best_size sizes [] best count ≡ best
unfolding best_size
best_size-nil sizes best count = refl

module _ (sizes : List ℕ) where
  abbrev Wins : List ℕ → ℕ → ℕ → Type 0
  Wins rest best m = Dominates sizes m best × All (Dominates sizes m) rest

  best_size-Wins :
      (rest : List ℕ) (best : ℕ) → Wins rest best (best_size sizes rest best (count_of best sizes))
  best_size-Wins [] best =
      subst (Wins [] best) (sym (best_size-nil sizes best _)) (Dominates-self sizes best, tt)
  best_size-Wins (value ∷ rest) best = elim (Bool-cases (better sizes value best)) [
    | inl won ↦
        let (over, all) = best_size-Wins rest value in
        let m = best_size sizes rest value (count_of value sizes) in
        subst (Wins (value ∷ rest) best) (sym (best_size-won sizes value rest best won))
          (Dominates-trans sizes m value best over (better-true sizes value best won), (over, all))
    | inr kept ↦
        let (over, all) = best_size-Wins rest best in
        let m = best_size sizes rest best (count_of best sizes) in
        subst (Wins (value ∷ rest) best) (sym (best_size-kept sizes value rest best kept)) (
          over,
          (Dominates-trans sizes m best value over (better-false sizes value best kept), all),
        )
  ]

  -- A size that occurs has what all sizes have.
  count_of-All :
      (m : ℕ) (rest : List ℕ) (v : ℕ)
      → All (Dominates sizes m) rest
      → 0 < count_of v rest
      → Dominates sizes m v
  unfolding count_of
  count_of-All m [] v all h = absurd (omega arith)
  count_of-All m (x ∷ rest) v all h = elim (eq_cases x v) [
    | inl same ↦ subst (Dominates sizes m) same all.0
    | inr other ↦
        let b : (x == v) ≡ false = ground arith in
        count_of-All m rest v all.1
          (subst (λ (c : Bool). 0 < (if c then count_of v rest + 1 else count_of v rest)) b h)
  ]

count_of-front : (front : ℕ) (rest : List ℕ) → 0 < count_of front (front ∷ rest)
unfolding count_of
count_of-front front rest = ground arith

best_size-first :
    (front : ℕ) (rest : List ℕ)
    → let sizes = front ∷ rest in
      best_size sizes sizes front 0 ≡ best_size sizes rest front (count_of front sizes)
unfolding best_size
best_size-first front rest =
    let more : ltb 0 (count_of front (front ∷ rest)) ≡ true =
      lt→ltb 0 _ (count_of-front front rest) in
    rw more refl

-- Of two sizes or more `infer_detected_mss` gives one that occurs, and that occurs at least as
-- often as any other number; of those that occur as often it is the largest.
pub infer_detected_mss-mode :
    (sizes : List ℕ)
    → 2 ≤ length sizes
    → (m : ℕ) × (infer_detected_mss sizes ≡ some m)
      × (0 < count_of m sizes)
      × ((v : ℕ) → Dominates sizes m v)
unfolding infer_detected_mss
infer_detected_mss-mode [] many = absurd (omega arith)
infer_detected_mss-mode (front ∷ rest) many =
    let b : ltb (length (front ∷ rest)) 2 ≡ false = ground arith in
    (
      m,
      rw (b, best_size-first front rest) refl,
      occurs,
      λ v. dominates v (le_cases 1 (count_of v sizes)),
    )
  where
    sizes : List ℕ
    sizes = front ∷ rest

    m : ℕ
    m = best_size sizes rest front (count_of front sizes)

    over : Dominates sizes m front × All (Dominates sizes m) rest
    over = best_size-Wins sizes rest front

    occurs : 0 < count_of m sizes
    occurs = ground (arith, over.0, count_of-front front rest)

    dominates : (v : ℕ) → (1 ≤ count_of v sizes) ⊎ (count_of v sizes < 1) → Dominates sizes m v
    dominates v (inl some_times) = count_of-All sizes m sizes v over some_times
    dominates v (inr never) = inl (omega (arith, occurs))
