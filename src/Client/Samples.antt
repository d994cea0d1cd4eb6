-- ===== src/Client/Samples.antt =====
-- A command line of the client that is accepted.
use Prim.Native.String.{String}
use udp_test.Base.{◌≡◌, refl, Bool, true, false, some, List, [], ◌∷◌, returned}
use udp_test.Options.{
  parse_port, parse_batch_size, unsigned_number, magnitude, digits, is_help_flag, option_key,
  attached, option_value, is_dashed,
}
use udp_test.Options.Arguments.{wants_help, checked_step, argument_loop}
use udp_test.Options.Client.{
  ClientOptions, default_client_options, client_step, check_client_options, parse_client_options,
}

abbrev pub sending : ClientOptions
sending = record default_client_options {
  dest_address = "10.0.0.2";
  dest_port = 5000;
  batch_size = 4096;
}

abbrev pub command_line : List String
command_line = "--dest" ∷ "10.0.0.2" ∷ "--port=5000" ∷ "--size=4096" ∷ []

pub accepted :
    (windows : Bool)
    → parse_client_options windows command_line default_client_options ≡ returned (some sending)
unfolding parse_client_options argument_loop checked_step client_step check_client_options
    wants_help parse_port parse_batch_size unsigned_number magnitude digits is_help_flag option_key
    attached option_value is_dashed
accepted true = refl
accepted false = refl
