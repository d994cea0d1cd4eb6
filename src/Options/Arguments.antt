-- ===== src/Options/Arguments.antt =====
-- The loops of the two parsers of cli.hpp over `argv`, without the options themselves.
use Prim.Native.String.{String}
use udp_test.Base.{
  Bool, true, false, not, ◌||◌, Option, none, some, List, [], ◌∷◌, if◌then◌else◌, Result, returned,
  thrown, Bool-cases, inl, inr, ◌≡◌, subst,
}
use udp_test.Options.{OptionError, unexpected_argument, ◌>>=◌, is_help_flag, is_dashed}

-- The first loop.
unfoldable pub wants_help : List String → Bool
wants_help [] = false
wants_help (arg ∷ args) = is_help_flag arg || wants_help args

-- What is done with one argument: whether the next one is its value, and the options.
abbrev pub Step : Type 0 → Type 0
Step O = String → Option String → O → Result OptionError (Bool × O)

-- What comes before the options in a round of the second loop.
unfoldable pub checked_step : {O : Type 0} → Step O → Step O
checked_step step arg next o =
    if is_help_flag arg
    then returned (false, o)
    else if not (is_dashed arg)
    then thrown (unexpected_argument arg)
    else step arg next o

-- The second loop.
unfoldable pub argument_loop : {O : Type 0} → Step O → List String → O → Result OptionError O
argument_loop step [] o = returned o
argument_loop step (arg ∷ []) o = checked_step step arg none o >>= (λ (used, o'). returned o')
argument_loop step (arg ∷ next ∷ args) o = checked_step step arg (some next) o >>= (λ (used, o').
    elim used [ true ↦ argument_loop step args o' | false ↦ argument_loop step (next ∷ args) o' ])

-- A property of what a call returns, if it returns.
abbrev pub OnReturn : {A : Type 0} → (A → Type 0) → Result OptionError A → Type 0
OnReturn P (returned a) = P a
OnReturn P (thrown e) = Unit

abbrev pub OnSome : {A : Type 0} → (A → Type 0) → Option A → Type 0
OnSome P none = Unit
OnSome P (some a) = P a

pub bind-OnReturn :
    {A B : Type 0} (P : A → Type 0) (Q : B → Type 0) (m : Result OptionError A)
    (f : A → Result OptionError B)
    → OnReturn P m
    → ((a : A) → P a → OnReturn Q (f a))
    → OnReturn Q (m >>= f)
bind-OnReturn P Q (returned a) f p h = h a p
bind-OnReturn P Q (thrown e) f p h = tt

pub if-OnReturn :
    {A : Type 0} (P : A → Type 0) (b : Bool) (m n : Result OptionError A)
    → OnReturn P m
    → OnReturn P n
    → OnReturn P (if b then m else n)
if-OnReturn P true m n p q = p
if-OnReturn P false m n p q = q

-- Where nothing is asked of the first result.
pub then-OnReturn :
    {A B : Type 0} (Q : B → Type 0) (m : Result OptionError A) (f : A → Result OptionError B)
    → ((a : A) → OnReturn Q (f a))
    → OnReturn Q (m >>= f)
then-OnReturn Q (returned a) f h = h a
then-OnReturn Q (thrown e) f h = tt

-- What a returned result satisfies.
pub OnReturn-returned :
    {A : Type 0} (P : A → Type 0) (m : Result OptionError A) (a : A)
    → OnReturn P m
    → m ≡ returned a
    → P a
OnReturn-returned P m a h e = subst (OnReturn P) e h

-- What each step keeps, the loop keeps.
module _ {O : Type 0} (step : Step O) (P : O → Type 0)
    (keeps : (arg : String) (next : Option String) (o : O)
      → P o
      → OnReturn (λ (r : Bool × O). P r.1) (step arg next o)) where
  checked_step-keeps :
      (arg : String) (next : Option String) (o : O)
      → P o
      → OnReturn (λ (r : Bool × O). P r.1) (checked_step step arg next o)
  unfolding checked_step
  checked_step-keeps arg next o p = elim (Bool-cases (is_help_flag arg)) [
    | inl help ↦ rw help p
    | inr other ↦ elim (Bool-cases (is_dashed arg)) [
      | inl dashed ↦ rw (other, dashed) (keeps arg next o p)
      | inr plain ↦ rw (other, plain) tt
    ]
  ]

  pub argument_loop-keeps :
      (args : List String) (o : O) → P o → OnReturn P (argument_loop step args o)
  unfolding argument_loop
  argument_loop-keeps [] o p = p
  argument_loop-keeps (arg ∷ []) o p =
      bind-OnReturn (λ (r : Bool × O). P r.1) P (checked_step step arg none o) _
        (checked_step-keeps arg none o p) (λ r q. q)
  argument_loop-keeps (arg ∷ next ∷ args) o p =
      bind-OnReturn (λ (r : Bool × O). P r.1) P (checked_step step arg (some next) o) _
        (checked_step-keeps arg (some next) o p)
        (λ (used, o') q.
          elim used
            as (λ used. OnReturn P (elim used [
              | true ↦ argument_loop step args o'
              | false ↦ argument_loop step (next ∷ args) o'
            ])) [
              | true ↦ argument_loop-keeps args o' q
              | false ↦ argument_loop-keeps (next ∷ args) o' q
            ])
