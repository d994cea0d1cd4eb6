-- ===== src/Server/Program/Tests.antt =====
-- A server on Windows, with datagrams of one byte.
use Prim.Native.String.{String}
use udp_test.Base.{ℕ, ◌≡◌, refl, inr, true, false, none, some, List, [], ◌∷◌, returned}
use udp_test.Options.{
  parse_port, parse_count, unsigned_number, magnitude, digits, is_help_flag, option_key, attached,
  option_value, is_dashed, starts_with_digit,
}
use udp_test.Options.Arguments.{wants_help, checked_step, argument_loop}
use udp_test.Options.Server.{
  ServerOptions, default_server_options, loop_step, server_step, check_server_options,
  parse_server_options,
}
use udp_test.Windows.Address.{parse_address}
use udp_test.Uso.Samples.{asio}
use udp_test.Server.State.{ServerStats, fresh_stats, fresh_receiver}
use udp_test.Server.Scan.{find_batch_header_offset}
use udp_test.Server.Sequence.{lost_upper, add_lost, finalize_lost}
use udp_test.Server.Ingest.{ingest_loop, ingest_fragment, ingest_round, seek_header}
use udp_test.Server.Session.{
  System, run_receive_loop, receive_datagram, end_session, drop_incomplete, idle_loop, idle_round,
  received, clear_receive_timeout, wait_udp_readable,
}
use udp_test.Server.Uro.{
  Message, read_controls, of_outcome, WindowsReceive, resolve_wsarecvmsg, uro_recv_msg,
}
use udp_test.Server.Uro.Configure.{
  CoalescedSize, uro_configure_recv_socket, set_udp_recv_max_coalesced_size,
  get_udp_recv_max_coalesced_size,
}
use udp_test.Server.Uro.Choice.{session_system, receive_one, receive_one-receive_datagram}
use udp_test.Server.Program.{ServerSystem, main, with_uro}
use udp_test.Server.Program.Ending.{Serves, Prints, main-Prints}

abbrev os : System Unit ℕ
os = record {
  windows = true;
  receive_from = λ w. (returned [], w);
  setsockopt = λ timeout w. w;
  select = λ timeout w. (false, w);
  poll = λ ms w. (false, w);
  now = λ w. (7, w);
}

abbrev message : Message
message = record { bytes = 1 ∷ []; has_endpoint = true; controls = [] }

abbrev windows : WindowsReceive ℕ
windows = record {
  pointer = λ w. record { resolved = true; found = true };
  store = λ pointer w. w;
  ioctl = λ w. (some true, w);
  wsarecvmsg = λ n w. (returned message, w);
}

-- The world is the size for coalescing.
abbrev coalesced : CoalescedSize ℕ
coalesced = record {
  last_error = λ w. 0;
  get_set_fn = λ w. (true, w);
  set_fn = λ n w. (true, n);
  setsockopt = λ n w. (true, n);
  get_get_fn = λ w. (true, w);
  get_fn = λ w. (some w, w);
  getsockopt = λ w. (some w, w);
}

abbrev system : ServerSystem Unit ℕ ℕ ℕ ℕ
system = record {
  asio = asio;
  listen = λ endpoint w. returned w;
  os = os;
  coalesced = coalesced;
  windows = windows;
}

abbrev line : List String
line = "--port=5000" ∷ "--uro" ∷ "--loop=3" ∷ []

abbrev options : ServerOptions
options = record default_server_options {
  port = 5000;
  uro = true;
  loop = true;
  loop_count = some 3;
}

accepted : parse_server_options true line default_server_options ≡ returned (some options)
unfolding parse_server_options argument_loop checked_step server_step loop_step check_server_options
    wants_help parse_port parse_count unsigned_number magnitude digits is_help_flag option_key
    attached option_value is_dashed starts_with_digit
accepted = refl

sized : with_uro system true 0 ≡ returned 65536
unfolding uro_configure_recv_socket set_udp_recv_max_coalesced_size get_udp_recv_max_coalesced_size
sized = refl

bound : parse_address asio "0.0.0.0" ≡ some 0
unfolding parse_address
bound = refl

abbrev one_fragment : ServerStats
one_fragment = record fresh_stats { fragments = 1 }

session_returns :
    (w : ℕ)
    → (stats : ServerStats) × (v : ℕ) × (run_receive_loop (session_system os windows true) 2 none w
        ≡ returned (stats, v))
unfolding run_receive_loop idle_loop idle_round receive_datagram received ingest_fragment
    ingest_loop clear_receive_timeout wait_udp_readable end_session drop_incomplete finalize_lost
    add_lost lost_upper uro_recv_msg resolve_wsarecvmsg of_outcome read_controls ingest_round
    seek_header find_batch_header_offset
session_returns w = (one_fragment, w, refl)

serves : Serves system 2 options 0
serves = record {
  address = 0;
  parses = bound;
  w₁ = 0;
  listens = refl;
  w₂ = 65536;
  configures = sized;
  sessions = session_returns;
}

main-Prints_example : Prints 3 (main system 3 2 line 0)
main-Prints_example = main-Prints system 2 options line 0 accepted (inr (3, refl)) serves

receive_one-receive_datagram_example :
    receive_one os windows true fresh_receiver 0
    ≡ receive_datagram (session_system os windows true) fresh_receiver 0
receive_one-receive_datagram_example = receive_one-receive_datagram os windows true fresh_receiver 0
