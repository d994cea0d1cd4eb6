-- ===== src/Windows/Ends.antt =====
-- How an action ends: what holds of its result and state, and what where it throws.
use udp_test.Base.{◌≡◌, Bool, true, false, refl, Result, returned, thrown, if◌then◌else◌}
use udp_test.Windows.{Action, then_run, ◌>>=◌}

module _ {E S : Type 0} where
  abbrev pub Ends : {A : Type 0} → (A → S → Type 0) → (E → S → Type 0) → Result E A × S → Type 0
  Ends Q X (returned a, s) = Q a s
  Ends Q X (thrown e, s) = X e s

  pub bind-Ends :
      {A B : Type 0} (Q : A → S → Type 0) (R : B → S → Type 0) (X : E → S → Type 0)
      (m : Action E S A) (f : A → Action E S B) (s : S)
      → Ends Q X (m s)
      → ((a : A) (t : S) → Q a t → Ends R X (f a t))
      → Ends R X ((m >>= f) s)
  bind-Ends {A} {B} Q R X m f s h k = go (m s) h
    where
      go : (o : Result E A × S) → Ends Q X o → Ends R X (then_run f o)
      go (returned a, t) q = k a t q
      go (thrown e, t) x = x

  pub if-Ends :
      {A : Type 0} (Q : A → S → Type 0) (X : E → S → Type 0) (b : Bool) (m n : Action E S A) (s : S)
      → (b ≡ true → Ends Q X (m s))
      → (b ≡ false → Ends Q X (n s))
      → Ends Q X ((if b then m else n) s)
  if-Ends Q X true m n s h k = h refl
  if-Ends Q X false m n s h k = k refl

  pub change-Ends :
      {A : Type 0} (Q R : A → S → Type 0) (X Y : E → S → Type 0) (o : Result E A × S)
      → Ends Q X o
      → ((a : A) (t : S) → Q a t → R a t)
      → ((e : E) (t : S) → X e t → Y e t)
      → Ends R Y o
  change-Ends Q R X Y (returned a, t) h k l = k a t h
  change-Ends Q R X Y (thrown e, t) h k l = l e t h

-- An invariant of the state that an action keeps, with what holds where it throws.
module _ {E S : Type 0} (I : S → Type 0) (X : E → S → Type 0) where
  abbrev pub Preserves : {A : Type 0} → Action E S A → Type 0
  Preserves {A} m = (s : S) → I s → Ends (λ (a : A) t. I t) X (m s)

  pub bind-Preserves :
      {A B : Type 0} (m : Action E S A) (f : A → Action E S B)
      → Preserves m
      → ((a : A) → Preserves (f a))
      → Preserves (m >>= f)
  bind-Preserves {A} {B} m f h k s i =
      bind-Ends (λ (a : A) t. I t) (λ (b : B) t. I t) X m f s (h s i) k

  pub if-Preserves :
      {A : Type 0} (b : Bool) (m n : Action E S A)
      → Preserves m
      → Preserves n
      → Preserves (if b then m else n)
  if-Preserves true m n h k = h
  if-Preserves false m n h k = k
