-- ===== src/Base/Updates.antt =====
-- A write into a list of bytes, and what `take`, `drop` and reads make of it.
use Prim.Native.Nat.{ℕ, zero, suc, ◌+◌, ◌<◌, ◌≤◌}
use mathlib.Core.Path.{◌≡◌, refl, ap}
use mathlib.Core.Logic.{◌≢◌}
use mathlib.Core.List.{List, [], ◌∷◌, ◌++◌}
use native.Mathlib.Omega.{arith}
use udp_test.Base.Lists.{length, get_or, set, take, drop}

module _ {ℓ} {A : Type ℓ} where
  pub take-set_ge : (xs : List A) (n i : ℕ) (v : A) → n ≤ i → take n (set xs i v) ≡ take n xs
  take-set_ge xs zero i v h = refl
  take-set_ge [] (suc n) i v h = refl
  take-set_ge (x ∷ xs) (suc n) zero v h = absurd (omega arith)
  take-set_ge (x ∷ xs) (suc n) (suc i) v h = ap (◌∷◌ x) (take-set_ge xs n i v (omega arith))

  pub drop-set_lt : (xs : List A) (n i : ℕ) (v : A) → i < n → drop n (set xs i v) ≡ drop n xs
  drop-set_lt xs zero i v h = absurd (omega arith)
  drop-set_lt [] (suc n) i v h = refl
  drop-set_lt (x ∷ xs) (suc n) zero v h = refl
  drop-set_lt (x ∷ xs) (suc n) (suc i) v h = drop-set_lt xs n i v (omega arith)

  pub get_or-set_ne :
      (xs : List A) (i j : ℕ) (v d : A) → i ≢ j → get_or (set xs i v) j d ≡ get_or xs j d
  get_or-set_ne [] i j v d ne = refl
  get_or-set_ne (x ∷ xs) zero zero v d ne = absurd (ne refl)
  get_or-set_ne (x ∷ xs) zero (suc j) v d ne = refl
  get_or-set_ne (x ∷ xs) (suc i) zero v d ne = refl
  get_or-set_ne (x ∷ xs) (suc i) (suc j) v d ne = get_or-set_ne xs i j v d (λ e. ne (ap suc e))

  pub get_or-set_self :
      (xs : List A) (i : ℕ) (v d : A) → i < length xs → get_or (set xs i v) i d ≡ v
  get_or-set_self [] i v d h = absurd (omega arith)
  get_or-set_self (x ∷ xs) zero v d h = refl
  get_or-set_self (x ∷ xs) (suc i) v d h = get_or-set_self xs i v d (omega arith)

  pub set-take_append :
      (xs ys : List A) (n i : ℕ) (v : A)
      → i < n
      → n ≤ length xs
      → take n (set xs i v) ++ ys ≡ set (take n xs ++ ys) i v
  set-take_append xs ys zero i v h k = absurd (omega arith)
  set-take_append [] ys (suc n) i v h k = absurd (omega arith)
  set-take_append (x ∷ xs) ys (suc n) zero v h k = refl
  set-take_append (x ∷ xs) ys (suc n) (suc i) v h k =
      ap (◌∷◌ x) (set-take_append xs ys n i v (omega arith) (omega arith))

  pub set-append_ge :
      (xs ys : List A) (n i : ℕ) (v : A)
      → length xs ≡ n
      → set (xs ++ ys) (n + i) v ≡ xs ++ set ys i v
  set-append_ge [] ys n i v h = ap (λ k. set ys k v) (omega arith)
  set-append_ge (x ∷ xs) ys zero i v h = absurd (omega arith)
  set-append_ge (x ∷ xs) ys (suc n) i v h =
      let e : suc n + i ≡ suc (n + i) = omega arith in
      rw e (ap (◌∷◌ x) (set-append_ge xs ys n i v (omega arith)))

  pub drop-set_ge :
      (xs : List A) (n i : ℕ) (v : A) → drop n (set xs (n + i) v) ≡ set (drop n xs) i v
  drop-set_ge xs zero i v = ap (λ k. set xs k v) (omega arith)
  drop-set_ge [] (suc n) i v = refl
  drop-set_ge (x ∷ xs) (suc n) i v =
      let e : suc n + i ≡ suc (n + i) = omega arith in rw e (drop-set_ge xs n i v)
