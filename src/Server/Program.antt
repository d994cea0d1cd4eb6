-- ===== src/Server/Program.antt =====
-- `run_server` and `main` of server.cpp. The set-up of the socket, which is calls of Boost.Asio, is
-- a parameter. What is printed is left out, but for the summaries.
pub mod Ending
mod Tests
use Prim.Native.String.{String}
use udp_test.Base.{ℕ, Bool, Option, none, some, List, ◌⊎◌, if◌then◌else◌, Result, returned, thrown}
use udp_test.Options.{OptionError}
use udp_test.Options.Server.{ServerOptions, default_server_options, parse_server_options}
use udp_test.Windows.{Endpoint, Asio}
use udp_test.Windows.Address.{parse_address}
use udp_test.Server.State.{ServerStats}
use udp_test.Server.Session.{SessionError, System, run_sessions}
use udp_test.Server.Uro.{UroError, WindowsReceive, uro_max_coalesced_recv}
use udp_test.Server.Uro.Configure.{CoalescedSize, ConfigureError, uro_configure_recv_socket}
use udp_test.Server.Uro.Choice.{session_system}

-- What `run_server` can throw.
data ServerError (E : Type 0) : Type 0 where
  bad_address : ServerError E
  set_up : E → ServerError E
  configure : ConfigureError → ServerError E
  session : SessionError (E ⊎ UroError) → ServerError E

-- What a server needs of the system: its socket opened, set to be reused, bound to an endpoint and
-- with its buffer, and the calls of the sessions.
record ServerSystem (E W Address V4 V6 : Type 0) : Type 0 where
  pub asio : Asio Address V4 V6
  pub listen : Endpoint Address → W → Result E W
  pub os : System E W
  pub coalesced : CoalescedSize W
  pub windows : WindowsReceive W

-- The exit code of the process, and the summaries of a run that returns.
record Exit : Type 0 where
  pub code : ℕ
  pub summaries : Option (List ServerStats)

infixl 5 ◌>>=◌
abbrev ◌>>=◌ :
    {E A B : Type 0}
    → Result (ServerError E) A
    → (A → Result (ServerError E) B)
    → Result (ServerError E) B
returned a >>= f = f a
thrown e >>= f = thrown e

module _ {E W Address V4 V6 : Type 0} (system : ServerSystem E W Address V4 V6) where
  abbrev parsed : Option Address → Result (ServerError E) Address
  parsed none = thrown bad_address
  parsed (some address) = returned address

  abbrev listening : Result E W → Result (ServerError E) W
  listening (returned w) = returned w
  listening (thrown e) = thrown (set_up e)

  abbrev configured : Result ConfigureError (Unit {0}) × W → Result (ServerError E) W
  configured (returned done, w) = returned w
  configured (thrown e, w) = thrown (configure e)

  abbrev with_uro : Bool → W → Result (ServerError E) W
  with_uro uro w =
      if uro
      then configured (uro_configure_recv_socket system.coalesced uro_max_coalesced_recv w)
      else returned w

  abbrev served :
      Result (SessionError (E ⊎ UroError)) (List ServerStats × W)
      → Result (ServerError E) (List ServerStats × W)
  served (returned done) = returned done
  served (thrown e) = thrown (session e)

  module _ (sessions rounds : ℕ) where
    abbrev all_sessions : ServerOptions → W → Result (ServerError E) (List ServerStats × W)
    all_sessions options w = served (
        run_sessions (session_system system.os system.windows options.uro) sessions rounds
          options.batch_count options.loop options.loop_count 0 w)

    run_server : ServerOptions → W → Result (ServerError E) (List ServerStats × W)
    run_server options w =
        parsed (parse_address system.asio options.bind_address)
        >>= (λ address.
            listening (system.listen (record { address = address; port = options.port }) w))
        >>= with_uro options.uro
        >>= all_sessions options

    abbrev of_run : Result (ServerError E) (List ServerStats × W) → Exit
    of_run (returned (summaries, w)) = record { code = 0; summaries = some summaries }
    of_run (thrown e) = record { code = 1; summaries = none }

    abbrev of_options : Result OptionError (Option ServerOptions) → W → Exit
    of_options (returned none) w = record { code = 0; summaries = none }
    of_options (returned (some options)) w = of_run (run_server options w)
    of_options (thrown e) w = record { code = 1; summaries = none }

    unfoldable main : List String → W → Exit
    main args w = of_options (parse_server_options system.os.windows args default_server_options) w
