-- ===== src/Options/Client.antt =====
-- `parse_client_options` of cli.hpp.
pub mod Accepted
use Prim.Native.String.{String}
use text.Mathlib.Text.{◌==◌ as str_eq}
use udp_test.Base.{
  ℕ, ◌*◌, Bool, true, false, not, ◌&&◌, Option, none, some, List, ltb, ◌==◌, if◌then◌else◌, Result,
  returned, thrown,
}
use udp_test.Options.{
  OptionError, unknown_option, dest_required, port_required, size_required, mss_too_large,
  size_too_large, ◌>>=◌, parse_port, parse_batch_size, parse_mss, parse_count, option_key,
  option_value,
}
use udp_test.Options.Arguments.{wants_help, argument_loop}

-- `kDefaultMss` of common.hpp
abbrev pub default_mss : ℕ
default_mss = 1400

-- `kUsoMaxSegmentSize` and `kUsoMaxBytesPerBatch` of uso_send.hpp
abbrev pub uso_max_segment_size : ℕ
uso_max_segment_size = 1472

abbrev pub uso_max_bytes_per_batch : ℕ
uso_max_bytes_per_batch = 64 * 1024

pub record ClientOptions : Type 0 where
  pub source_address : String
  pub dest_address : String
  pub dest_port : ℕ
  pub batch_size : ℕ
  pub batch_count : ℕ
  pub mss : ℕ
  pub no_pktinfo : Bool
  pub completion_routine : Bool

abbrev pub default_client_options : ClientOptions
default_client_options = record {
  source_address = "0.0.0.0";
  dest_address = "";
  dest_port = 0;
  batch_size = 0;
  batch_count = 10;
  mss = default_mss;
  no_pktinfo = false;
  completion_routine = false;
}

unfoldable pub client_step :
    Bool → String → Option String → ClientOptions → Result OptionError (Bool × ClientOptions)
client_step windows arg next o =
    let key = option_key arg in
    if str_eq key "--source"
    then option_value arg next
      >>= (λ (value, used). returned (used, record o { source_address = value }))
    else if str_eq key "--dest"
    then option_value arg next
      >>= (λ (value, used). returned (used, record o { dest_address = value }))
    else if str_eq key "--port"
    then option_value arg next >>= (λ (value, used).
      parse_port windows value >>= (λ n. returned (used, record o { dest_port = n })))
    else if str_eq key "--size"
    then option_value arg next >>= (λ (value, used).
      parse_batch_size value >>= (λ n. returned (used, record o { batch_size = n })))
    else if str_eq key "--count"
    then option_value arg next >>= (λ (value, used).
      parse_count value >>= (λ n. returned (used, record o { batch_count = n })))
    else if str_eq key "--mss"
    then option_value arg next
      >>= (λ (value, used). parse_mss value >>= (λ n. returned (used, record o { mss = n })))
    else if str_eq key "--no-pktinfo"
    then returned (false, record o { no_pktinfo = true })
    else if str_eq key "--completion-routine"
    then returned (false, record o { completion_routine = true })
    else thrown (unknown_option key)

-- The checks after the loop.
unfoldable pub check_client_options : ClientOptions → Result OptionError ClientOptions
check_client_options o =
    if str_eq o.dest_address ""
    then thrown dest_required
    else if o.dest_port == 0
    then thrown port_required
    else if o.batch_size == 0
    then thrown size_required
    else if not (o.mss == 0) && ltb uso_max_segment_size o.mss
    then thrown mss_too_large
    else if ltb uso_max_bytes_per_batch o.batch_size
    then thrown size_too_large
    else returned o

-- `none` if help was asked for. `args` is `argv` from 1 on.
unfoldable pub parse_client_options :
    Bool → List String → ClientOptions → Result OptionError (Option ClientOptions)
parse_client_options windows args out =
    let parsed = argument_loop (client_step windows) args out >>= check_client_options in
    if wants_help args then returned none else parsed >>= (λ o. returned (some o))
