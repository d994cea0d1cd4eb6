-- ===== src/Options/Server.antt =====
-- `parse_server_options` of cli.hpp.
pub mod Accepted
pub mod Order
use Prim.Native.String.{String}
use text.Mathlib.Text.{◌==◌ as str_eq}
use udp_test.Base.{
  ℕ, Bool, true, false, not, ◌&&◌, Option, none, some, List, ◌==◌, if◌then◌else◌, Result, returned,
  thrown,
}
use udp_test.Options.{
  OptionError, unknown_option, loop_with_count, port_required, uro_unsupported, ◌>>=◌, parse_port,
  parse_count, option_key, attached, option_value, is_dashed, starts_with_digit,
}
use udp_test.Options.Arguments.{wants_help, argument_loop}

pub record ServerOptions : Type 0 where
  pub bind_address : String
  pub port : ℕ
  pub batch_count : Option ℕ
  pub verbose : Bool
  pub uro : Bool
  pub loop : Bool
  pub loop_count : Option ℕ

abbrev pub default_server_options : ServerOptions
default_server_options = record {
  bind_address = "0.0.0.0";
  port = 0;
  batch_count = none;
  verbose = false;
  uro = false;
  loop = false;
  loop_count = none;
}

-- The count behind `--loop`: one that follows is taken if it starts with a digit.
unfoldable pub loop_step :
    String → Option String → ServerOptions → Result OptionError (Bool × ServerOptions)
loop_step arg next o = elim (attached arg) [
  | some value ↦
      parse_count value >>= (λ n. returned (false, record o { loop = true; loop_count = some n }))
  | none ↦ elim next [
    | none ↦ returned (false, record o { loop = true })
    | some text ↦
        if not (is_dashed text) && starts_with_digit text
        then parse_count text
          >>= (λ n. returned (true, record o { loop = true; loop_count = some n }))
        else returned (false, record o { loop = true })
  ]
]

unfoldable pub server_step :
    Bool → String → Option String → ServerOptions → Result OptionError (Bool × ServerOptions)
server_step windows arg next o =
    let key = option_key arg in
    if str_eq key "--bind"
    then option_value arg next
      >>= (λ (value, used). returned (used, record o { bind_address = value }))
    else if str_eq key "--port"
    then option_value arg next >>= (λ (value, used).
      parse_port windows value >>= (λ n. returned (used, record o { port = n })))
    else if str_eq key "--count"
    then option_value arg next >>= (λ (value, used).
      parse_count value >>= (λ n. returned (used, record o { batch_count = some n })))
    else if str_eq key "-v"
    then returned (false, record o { verbose = true })
    else if str_eq key "--uro"
    then returned (false, record o { uro = true })
    else if str_eq key "--loop"
    then elim o.batch_count [ some n ↦ thrown loop_with_count | none ↦ loop_step arg next o ]
    else thrown (unknown_option key)

-- The checks after the loop; those on other platforms than Windows come last.
unfoldable pub check_server_options : Bool → ServerOptions → Result OptionError ServerOptions
check_server_options windows o =
    if o.port == 0
    then thrown port_required
    else if not windows && o.uro
    then thrown uro_unsupported
    else returned o

-- `none` if help was asked for. `args` is `argv` from 1 on.
unfoldable pub parse_server_options :
    Bool → List String → ServerOptions → Result OptionError (Option ServerOptions)
parse_server_options windows args out =
    let parsed = argument_loop (server_step windows) args out >>= check_server_options windows in
    if wants_help args then returned none else parsed >>= (λ o. returned (some o))
