-- ===== src/Options/Tests.antt =====
-- Command lines of both programs.
use udp_test.Base.{◌≡◌, refl, true, false, some, [], ◌∷◌, returned, thrown}
use udp_test.Options.{
  no_number, port_required, uro_unsupported, loop_with_count, mss_too_large, port_out_of_range,
  parse_port, parse_batch_size, parse_mss, parse_count, stoull, unsigned_number, magnitude, digits,
  is_help_flag, option_key, attached, option_value, is_dashed, starts_with_digit,
}
use udp_test.Options.Arguments.{wants_help, checked_step, argument_loop}
use udp_test.Options.Server.{
  ServerOptions, default_server_options, loop_step, server_step, check_server_options,
  parse_server_options,
}
use udp_test.Options.Server.Accepted.{IsRunnable, parse_server_options-IsRunnable}
use udp_test.Options.Server.Order.{argument_loop-order}
use udp_test.Options.Client.{
  ClientOptions, default_client_options, client_step, check_client_options, parse_client_options,
}
use udp_test.Options.Client.Accepted.{IsSendable, parse_client_options-IsSendable}

-- The C++ library ignores what follows the digits, and takes a minus sign.
lenient :
    (stoull " 42abc" ≡ returned 42)
    × (stoull "-1" ≡ returned 18446744073709551615)
    × (stoull "x" ≡ thrown no_number)
unfolding unsigned_number magnitude digits
lenient = (refl, refl, refl)

-- A negative number is a port on Windows, where its width is 32 bits, and none elsewhere.
negative_port :
    (parse_port true "-4294967216" ≡ returned 80)
    × (parse_port false "-4294967216" ≡ thrown port_out_of_range)
unfolding parse_port unsigned_number magnitude digits
negative_port = (refl, refl)

abbrev looping : ServerOptions
looping = record default_server_options {
  port = 5000;
  loop = true;
  loop_count = some 3;
  verbose = true;
}

server_line :
    parse_server_options false
      ("--port" ∷ "5000" ∷ "--loop" ∷ "3" ∷ "-v" ∷ [])
      default_server_options
    ≡ returned (some looping)
unfolding parse_server_options argument_loop checked_step server_step loop_step check_server_options
    wants_help parse_port parse_count unsigned_number magnitude digits is_help_flag option_key
    attached option_value is_dashed starts_with_digit
server_line = refl

no_port : parse_server_options false ("-v" ∷ []) default_server_options ≡ thrown port_required
unfolding parse_server_options argument_loop checked_step server_step check_server_options
    wants_help is_help_flag option_key is_dashed
no_port = refl

uro_elsewhere :
    parse_server_options false ("--port=1" ∷ "--uro" ∷ []) default_server_options
    ≡ thrown uro_unsupported
unfolding parse_server_options argument_loop checked_step server_step check_server_options
    wants_help parse_port unsigned_number magnitude digits is_help_flag option_key attached
    option_value is_dashed
uro_elsewhere = refl

abbrev sending : ClientOptions
sending = record default_client_options {
  dest_address = "10.0.0.2";
  dest_port = 5000;
  batch_size = 4096;
}

client_line :
    parse_client_options false
      ("--dest" ∷ "10.0.0.2" ∷ "--port=5000" ∷ "--size=4096" ∷ [])
      default_client_options
    ≡ returned (some sending)
unfolding parse_client_options argument_loop checked_step client_step check_client_options
    wants_help parse_port parse_batch_size unsigned_number magnitude digits is_help_flag option_key
    attached option_value is_dashed
client_line = refl

large_mss :
    parse_client_options false
      ("--dest" ∷ "a" ∷ "--port=5000" ∷ "--size=4096" ∷ "--mss=1473" ∷ [])
      default_client_options
    ≡ thrown mss_too_large
unfolding parse_client_options argument_loop checked_step client_step check_client_options
    wants_help parse_port parse_batch_size parse_mss unsigned_number magnitude digits is_help_flag
    option_key attached option_value is_dashed
large_mss = refl

parse_server_options-IsRunnable_example : IsRunnable false looping
parse_server_options-IsRunnable_example =
    parse_server_options-IsRunnable false ("--port" ∷ "5000" ∷ "--loop" ∷ "3" ∷ "-v" ∷ []) looping
      server_line

parse_client_options-IsSendable_example : IsSendable sending
parse_client_options-IsSendable_example =
    parse_client_options-IsSendable false
      ("--dest" ∷ "10.0.0.2" ∷ "--port=5000" ∷ "--size=4096" ∷ []) sending client_line

five : parse_count "5" ≡ returned 5
unfolding parse_count unsigned_number magnitude digits
five = refl

argument_loop-order_example :
    (argument_loop (server_step false) ("--count" ∷ "5" ∷ "--loop" ∷ []) default_server_options
      ≡ thrown loop_with_count)
    × (argument_loop (server_step false) ("--loop" ∷ "--count" ∷ "5" ∷ []) default_server_options
        ≡ returned (record default_server_options { loop = true; batch_count = some 5 }))
argument_loop-order_example = argument_loop-order false default_server_options "5" 5 refl five
