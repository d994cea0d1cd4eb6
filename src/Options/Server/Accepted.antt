-- ===== src/Options/Server/Accepted.antt =====
-- What the options of a server satisfy once they are accepted.
use Prim.Native.String.{String}
use text.Mathlib.Text.{◌==◌ as str_eq}
use udp_test.Base.{
  ℕ, ◌^◌, ◌≤◌, ◌<◌, ◌≡◌, refl, Bool, true, false, not, ◌&&◌, Option, none, some, List, arith, ◌==◌,
  if◌then◌else◌, returned, thrown, Bool-cases, inl, inr,
}
use udp_test.Options.{
  loop_with_count, ◌>>=◌, parse_port, parse_count, option_key, attached, option_value, is_dashed,
  starts_with_digit,
}
use udp_test.Options.Arguments.{
  OnReturn, OnSome, if-OnReturn, then-OnReturn, OnReturn-returned, bind-OnReturn, wants_help,
  argument_loop-keeps,
}
use udp_test.Options.Numbers.{parse_port-bound, parse_count-bound}
use udp_test.Options.Server.{
  ServerOptions, default_server_options, loop_step, server_step, check_server_options,
  parse_server_options,
}

-- A count that is set is a `std::size_t` other than 0.
abbrev pub IsCount : Option ℕ → Type 0
IsCount none = Unit
IsCount (some n) = (0 < n) × (n < 2 ^ 64)

abbrev pub LoopsIf : Option ℕ → Bool → Type 0
LoopsIf none loop = Unit
LoopsIf (some n) loop = loop ≡ true

-- What holds after each argument.
record IsRead (o : ServerOptions) : Type 0 where
  port_range : o.port ≤ 65535
  count : IsCount o.batch_count
  repeats : IsCount o.loop_count
  loops : LoopsIf o.loop_count o.loop

abbrev Kept : Bool × ServerOptions → Type 0
Kept r = IsRead r.1

loops_true : (count : Option ℕ) → LoopsIf count true
loops_true none = tt
loops_true (some n) = refl

loop_step-keeps :
    (arg : String) (next : Option String) (o : ServerOptions)
    → IsRead o
    → OnReturn Kept (loop_step arg next o)
unfolding loop_step
loop_step-keeps arg next o p = by_attached (attached arg) next
  where
    counted :
        (used : Bool) (text : String)
        → OnReturn Kept (
            parse_count text
            >>= (λ n. returned (used, record o { loop = true; loop_count = some n })))
    counted used text =
        bind-OnReturn (λ n. (0 < n) × (n < 2 ^ 64)) Kept (parse_count text) _
          (parse_count-bound text)
          (λ n q. record { port_range = p.port_range; count = p.count; repeats = q; loops = refl })

    looping : IsRead (record o { loop = true })
    looping = record {
      port_range = p.port_range;
      count = p.count;
      repeats = p.repeats;
      loops = loops_true o.loop_count;
    }

    by_attached :
        (a : Option String) (next : Option String)
        → OnReturn Kept (elim a [
          | some value ↦
              parse_count value
              >>= (λ n. returned (false, record o { loop = true; loop_count = some n }))
          | none ↦ elim next [
            | none ↦ returned (false, record o { loop = true })
            | some text ↦
                if not (is_dashed text) && starts_with_digit text
                then parse_count text
                  >>= (λ n. returned (true, record o { loop = true; loop_count = some n }))
                else returned (false, record o { loop = true })
          ]
        ])
    by_attached (some value) next = counted false value
    by_attached none none = looping
    by_attached none (some text) =
        elim (Bool-cases (not (is_dashed text) && starts_with_digit text)) [
          | inl digit ↦ rw digit (counted true text)
          | inr other ↦ rw other looping
        ]

server_step-keeps :
    (windows : Bool) (arg : String) (next : Option String) (o : ServerOptions)
    → IsRead o
    → OnReturn Kept (server_step windows arg next o)
unfolding server_step
server_step-keeps windows arg next o p =
    if-OnReturn Kept (str_eq key "--bind") _ _
      (then-OnReturn Kept (option_value arg next) _ (λ v. record {
        port_range = p.port_range;
        count = p.count;
        repeats = p.repeats;
        loops = p.loops;
      }))
      (if-OnReturn Kept (str_eq key "--port") _ _
        (then-OnReturn Kept (option_value arg next) _ ported)
        (if-OnReturn Kept (str_eq key "--count") _ _
          (then-OnReturn Kept (option_value arg next) _ counted)
          (if-OnReturn Kept (str_eq key "-v") _ _
            (record {
              port_range = p.port_range;
              count = p.count;
              repeats = p.repeats;
              loops = p.loops;
            })
            (if-OnReturn Kept (str_eq key "--uro") _ _
              (record {
                port_range = p.port_range;
                count = p.count;
                repeats = p.repeats;
                loops = p.loops;
              })
              (if-OnReturn Kept (str_eq key "--loop") _ _ (looped o.batch_count) tt)))))
  where
    key : String
    key = option_key arg

    ported :
        (v : String × Bool)
        → OnReturn Kept (parse_port windows v.0 >>= (λ n. returned (v.1, record o { port = n })))
    ported v =
        bind-OnReturn (λ n. n ≤ 65535) Kept (parse_port windows v.0) _
          (parse_port-bound windows v.0)
          (λ n q. record { port_range = q; count = p.count; repeats = p.repeats; loops = p.loops })

    counted :
        (v : String × Bool)
        → OnReturn Kept
            (parse_count v.0 >>= (λ n. returned (v.1, record o { batch_count = some n })))
    counted v =
        bind-OnReturn (λ n. (0 < n) × (n < 2 ^ 64)) Kept (parse_count v.0) _ (parse_count-bound v.0)
          (λ n q. record {
            port_range = p.port_range;
            count = q;
            repeats = p.repeats;
            loops = p.loops;
          })

    looped :
        (c : Option ℕ)
        → OnReturn Kept (elim c [ some n ↦ thrown loop_with_count | none ↦ loop_step arg next o ])
    looped none = loop_step-keeps arg next o p
    looped (some n) = tt

-- Options that a server can run with.
pub record IsRunnable (windows : Bool) (o : ServerOptions) : Type 0 where
  pub port_set : 0 < o.port
  pub port_fits : o.port ≤ 65535
  pub count_fits : IsCount o.batch_count
  pub loop_count_fits : IsCount o.loop_count
  pub loop_set : LoopsIf o.loop_count o.loop
  pub uro_supported : (not windows && o.uro) ≡ false

check_server_options-runs :
    (windows : Bool) (o : ServerOptions)
    → IsRead o
    → OnReturn (IsRunnable windows) (check_server_options windows o)
unfolding check_server_options
check_server_options-runs windows o p = elim (Bool-cases (o.port == 0)) [
  | inl unset ↦ rw unset tt
  | inr set ↦ elim (Bool-cases (not windows && o.uro)) [
    | inl refused ↦ rw (set, refused) tt
    | inr fine ↦
        rw (set, fine)
          (record {
            port_set = ground arith;
            port_fits = p.port_range;
            count_fits = p.count;
            loop_count_fits = p.repeats;
            loop_set = p.loops;
            uro_supported = fine;
          })
  ]
]

-- Whatever the arguments, options that `parse_server_options` accepts have a port from 1 to 65535,
-- counts from 1 to 2 ^ 64 - 1 where they have counts, a loop where they have a loop count, and
-- `--uro` on Windows only.
pub parse_server_options-IsRunnable :
    (windows : Bool) (args : List String) (o : ServerOptions)
    → parse_server_options windows args default_server_options ≡ returned (some o)
    → IsRunnable windows o
unfolding parse_server_options
parse_server_options-IsRunnable windows args o e =
    OnReturn-returned (OnSome (IsRunnable windows)) _ (some o)
      (if-OnReturn (OnSome (IsRunnable windows)) (wants_help args) _ _ tt (
        bind-OnReturn (IsRunnable windows) (OnSome (IsRunnable windows)) _ _
          (bind-OnReturn IsRead (IsRunnable windows) _ _
            (argument_loop-keeps (server_step windows) IsRead (server_step-keeps windows) args
              default_server_options start)
            (check_server_options-runs windows))
          (λ o' p. p)))
      e
  where
    start : IsRead default_server_options
    start = record { port_range = omega arith; count = tt; repeats = tt; loops = tt }
