-- ===== src/Client/Main.antt =====
-- `main` of client.cpp, on platforms other than Windows. The set-up of the socket, which is calls
-- of Boost.Asio, and the socket are parameters. What is printed is left out.
use Prim.Native.String.{String}
use udp_test.Base.{
  ℕ, ◌^◌, ◌<◌, ◌≡◌, refl, false, Option, none, some, List, Result, returned, thrown,
}
use udp_test.Crc.{Bytes}
use udp_test.Options.{OptionError}
use udp_test.Options.Client.{ClientOptions, default_client_options, parse_client_options}
use udp_test.Windows.{Endpoint, Asio}
use udp_test.Windows.Address.{parse_address}
use udp_test.Client.{ClientError, run_client}
use udp_test.Client.Segments.{SendsAll}
use udp_test.Client.Run.{Ran}
use udp_test.Client.Program.{run_client-accepted}

-- What `run_client` can throw, its set-up included.
pub data MainError (E : Type 0) : Type 0 where
  bad_address : MainError E
  set_up_failed : E → MainError E
  run : ClientError E → MainError E

infixl 5 ◌>>=◌
abbrev ◌>>=◌ :
    {E A B : Type 0}
    → Result (MainError E) A
    → (A → Result (MainError E) B)
    → Result (MainError E) B
returned a >>= f = f a
thrown e >>= f = thrown e

-- The socket, opened, set to be reused and bound to an endpoint; and `send_to` a remote endpoint.
pub record ClientSystem (E W Address V4 V6 : Type 0) : Type 0 where
  pub asio : Asio Address V4 V6
  pub set_up : Endpoint Address → W → Result E W
  pub send_to : Endpoint Address → Bytes → W → Result E (ℕ × W)

-- The exit code of the process, and the world after a run that returns.
pub record Exit (W : Type 0) : Type 0 where
  pub code : ℕ
  pub after : Option W

module _ {E W Address V4 V6 : Type 0} (system : ClientSystem E W Address V4 V6) {S : Type 0}
    (draw : S → ℕ × S) where
  abbrev parsed : Option Address → Result (MainError E) Address
  parsed none = thrown bad_address
  parsed (some address) = returned address

  abbrev bound : Result E W → Result (MainError E) W
  bound (returned w) = returned w
  bound (thrown e) = thrown (set_up_failed e)

  abbrev ran : Result (ClientError E) W → Result (MainError E) W
  ran (returned w) = returned w
  ran (thrown e) = thrown (run e)

  -- The remote endpoint is parsed before the local one.
  pub run_client_to : ClientOptions → S → W → Result (MainError E) W
  run_client_to options s w = parsed (parse_address system.asio options.dest_address) >>= (λ dest.
      parsed (parse_address system.asio options.source_address) >>= (λ source.
        bound (system.set_up (record { address = source; port = 0 }) w) >>= (λ w'. ran (
          run_client (system.send_to (record { address = dest; port = options.dest_port })) draw
            options.batch_size options.batch_count options.mss s w'))))

  abbrev of_run : Result (MainError E) W → Exit W
  of_run (returned w) = record { code = 0; after = some w }
  of_run (thrown e) = record { code = 1; after = none }

  abbrev of_options : Result OptionError (Option ClientOptions) → S → W → Exit W
  of_options (returned none) s w = record { code = 0; after = some w }
  of_options (returned (some options)) s w = of_run (run_client_to options s w)
  of_options (thrown e) s w = record { code = 1; after = none }

  unfoldable pub main : List String → S → W → Exit W
  main args s w = of_options (parse_client_options false args default_client_options) s w

  module _ (sent : W → List Bytes)
      (works : (remote : Endpoint Address) → SendsAll (system.send_to remote) sent)
      (o : ClientOptions) where
    -- Both addresses are ones, and the socket can be set up, which sends nothing.
    pub record Connects (w : W) : Type 0 where
      pub dest : Address
      pub source : Address
      pub parses_dest : parse_address system.asio o.dest_address ≡ some dest
      pub parses_source : parse_address system.asio o.source_address ≡ some source
      pub bound_world : W
      pub sets_up : system.set_up (record { address = source; port = 0 }) w ≡ returned bound_world
      pub quiet : sent bound_world ≡ sent w

    -- The exit of a run that has sent what it should.
    pub record Succeeds (w : W) (remote : Endpoint Address) (s : S) (exit : Exit W) : Type 0 where
      pub start : W
      pub quiet : sent start ≡ sent w
      pub sends :
          Ran
            (system.send_to remote)
            sent
            (works remote)
            draw
            o.batch_count
            o.batch_size
            o.mss
            0
            o.batch_count
            start
            (run_client (system.send_to remote) draw o.batch_size o.batch_count o.mss s start)
      pub success : exit ≡ record { code = 0; after = some sends.after }

    -- With arguments that are accepted, whatever they are, and a count below 2 ^ 32: if both
    -- addresses are ones, and the socket can be set up and sends each datagram whole, the client
    -- ends with code 0, and has sent the datagrams of as many complete batches as the count says,
    -- of the size given, numbered from 0 in order.
    pub main-Succeeds :
        (args : List String) (s : S) (w : W)
        → parse_client_options false args default_client_options ≡ returned (some o)
        → o.batch_count < 2 ^ 32
        → (c : Connects w)
        → Succeeds w (record { address = c.dest; port = o.dest_port }) s (main args s w)
    unfolding main run_client_to
    main-Succeeds args s w accepted fits c =
        let remote : Endpoint Address = record { address = c.dest; port = o.dest_port } in
        let run =
          run_client-accepted (system.send_to remote) sent (works remote) draw false args o s
            c.bound_world accepted fits in
        record {
          start = c.bound_world;
          quiet = c.quiet;
          sends = run;
          success = rw (accepted, c.parses_dest, c.parses_source, c.sets_up, run.returns) refl;
        }
