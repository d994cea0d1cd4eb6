-- ===== src/Options/Client/Accepted.antt =====
-- What the options of a client satisfy once they are accepted.
use Prim.Native.String.{String}
use text.Mathlib.Text.{◌==◌ as str_eq}
use udp_test.Base.{
  ℕ, ◌^◌, ◌≤◌, ◌<◌, ◌≡◌, ◌⊎◌, refl, Bool, false, Option, some, List, arith, returned, Bool-cases,
  inl, inr,
}
use udp_test.Packet.{packet_header_size}
use udp_test.Server.Scan.{max_batch_size}
use udp_test.Options.{
  parse_port, parse_batch_size, parse_mss, parse_count, option_key, option_value,
}
use udp_test.Options.Arguments.{
  OnReturn, OnSome, if-OnReturn, then-OnReturn, OnReturn-returned, bind-OnReturn, wants_help,
  argument_loop-keeps,
}
use udp_test.Options.Numbers.{parse_port-bound, parse_batch_size-bound, parse_count-bound}
use udp_test.Options.Client.{
  ClientOptions, default_client_options, uso_max_segment_size, client_step, check_client_options,
  parse_client_options,
}

-- A batch size that is set is one of a batch.
abbrev IsSize : ℕ → Type 0
IsSize n = (n ≡ 0) ⊎ ((packet_header_size ≤ n) × (n ≤ max_batch_size))

-- What holds after each argument.
abbrev IsRead : ClientOptions → Type 0
IsRead o =
    (o.dest_port ≤ 65535) × IsSize o.batch_size × ((0 < o.batch_count) × (o.batch_count < 2 ^ 64))

abbrev Kept : Bool × ClientOptions → Type 0
Kept r = IsRead r.1

client_step-keeps :
    (windows : Bool) (arg : String) (next : Option String) (o : ClientOptions)
    → IsRead o
    → OnReturn Kept (client_step windows arg next o)
unfolding client_step
client_step-keeps windows arg next o p =
    if-OnReturn Kept (str_eq key "--source") _ _
      (then-OnReturn Kept (option_value arg next) _ (λ v. same))
      (if-OnReturn Kept (str_eq key "--dest") _ _
        (then-OnReturn Kept (option_value arg next) _ (λ v. same))
        (if-OnReturn Kept (str_eq key "--port") _ _
          (then-OnReturn Kept (option_value arg next) _ (λ v.
            bind-OnReturn (λ n. n ≤ 65535) Kept (parse_port windows v.0) _
              (parse_port-bound windows v.0) (λ n q. (q, p.1, p.2))))
          (if-OnReturn Kept (str_eq key "--size") _ _
            (then-OnReturn Kept (option_value arg next) _ (λ v.
              bind-OnReturn (λ n. (packet_header_size ≤ n) × (n ≤ max_batch_size)) Kept
                (parse_batch_size v.0) _ (parse_batch_size-bound v.0) (λ n q. (p.0, inr q, p.2))))
            (if-OnReturn Kept (str_eq key "--count") _ _
              (then-OnReturn Kept (option_value arg next) _ (λ v.
                bind-OnReturn (λ n. (0 < n) × (n < 2 ^ 64)) Kept (parse_count v.0) _
                  (parse_count-bound v.0) (λ n q. (p.0, p.1, q))))
              (if-OnReturn Kept (str_eq key "--mss") _ _
                (then-OnReturn Kept (option_value arg next) _
                  (λ v. then-OnReturn Kept (parse_mss v.0) _ (λ n. same)))
                (if-OnReturn Kept (str_eq key "--no-pktinfo") _ _ same
                  (if-OnReturn Kept (str_eq key "--completion-routine") _ _ same tt)))))))
  where
    key : String
    key = option_key arg

    same : IsRead o
    same = p

-- Options that a client can run with.
pub record IsSendable (o : ClientOptions) : Type 0 where
  pub dest_set : str_eq o.dest_address "" ≡ false
  pub port_set : 0 < o.dest_port
  pub port_fits : o.dest_port ≤ 65535
  pub holds_header : packet_header_size ≤ o.batch_size
  pub within : o.batch_size ≤ max_batch_size
  pub mss_fits : o.mss ≤ uso_max_segment_size
  pub count_set : 0 < o.batch_count
  pub count_fits : o.batch_count < 2 ^ 64

check_client_options-sends :
    (o : ClientOptions) → IsRead o → OnReturn IsSendable (check_client_options o)
unfolding check_client_options
check_client_options-sends o p = elim (Bool-cases (str_eq o.dest_address "")) [
  | inl nowhere ↦ rw nowhere tt
  | inr somewhere ↦ rw somewhere (ground arith)
]

-- Whatever the arguments, options that `parse_client_options` accepts have a destination, a port
-- from 1 to 65535, a size from 20 to 65536, an MSS of at most 1472, and a count from 1 to 2 ^ 64 -
-- 1.
pub parse_client_options-IsSendable :
    (windows : Bool) (args : List String) (o : ClientOptions)
    → parse_client_options windows args default_client_options ≡ returned (some o)
    → IsSendable o
unfolding parse_client_options
parse_client_options-IsSendable windows args o e =
    OnReturn-returned (OnSome IsSendable) _ (some o)
      (if-OnReturn (OnSome IsSendable) (wants_help args) _ _ tt (
        bind-OnReturn IsSendable (OnSome IsSendable) _ _
          (bind-OnReturn IsRead IsSendable _ _
            (argument_loop-keeps (client_step windows) IsRead (client_step-keeps windows) args
              default_client_options start)
            check_client_options-sends)
          (λ o' p. p)))
      e
  where
    start : IsRead default_client_options
    start = (omega arith, inl refl, omega arith)
