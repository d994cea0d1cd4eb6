-- ===== src/Client/Windows/Exit.antt =====
-- `main` of client.cpp on Windows: what its exit code says of the datagrams that have been sent.
use Prim.Native.String.{String}
use udp_test.Base.{
  true, ℕ, ◌+◌, ◌^◌, ◌≤◌, ◌<◌, ◌≡◌, sym, ◌∙◌, arith, inl, Option, none, some, List, [], ◌++◌,
  append-nil, length, Result, returned, thrown,
}
use udp_test.Crc.{Bytes}
use udp_test.Packet.{packet_header_size, max_packet_length}
use udp_test.Options.Client.{ClientOptions, default_client_options, parse_client_options}
use udp_test.Options.Client.Accepted.{parse_client_options-IsSendable}
use udp_test.Client.Run.{IsSeries, all_datagrams}
use udp_test.Windows.{Endpoint, Asio, Winsock, Process}
use udp_test.Windows.Address.{parse_address}
use udp_test.Windows.Ends.{Ends, bind-Ends, change-Ends}
use udp_test.Uso.Wire.{IsUnmixed}
use udp_test.Uso.{UsoThrow}
use udp_test.Uso.Route.{UsoBindInfo, resolve_uso_bind_address}
use udp_test.Uso.Route.Silent.{
  Sockets, wire_of, MakesSockets, HasSent, resolve_uso_bind_address-Silent,
}
use udp_test.Uso.Socket.{create_uso_udp_socket}
use udp_test.Uso.Socket.Ready.{Ready, create_uso_udp_socket-Ready}
use udp_test.Client.Windows.{remote_or_throw, run_on_socket, run_client_windows, exit_code, main}
use udp_test.Client.Windows.Ran.{KeepsWire, WholeRun, PartOfRun, run_on_socket-Ran}

module _ {W : Type 0} (sockets : Sockets W) (options : ClientOptions) (ds : List Bytes) where
  -- The datagrams of complete batches of the run have gone, numbered from 0 in order, as many as
  -- the predicate says.
  abbrev pub SentRun : (ℕ → Type 0) → Process W → Type 0
  SentRun many p =
      (bs : List Bytes) × IsSeries options.batch_count options.batch_size 0 bs
      × many (length bs)
      × (sockets.sent p.world ≡ ds ++ all_datagrams options.mss bs)

  abbrev SentAll : Unit {0} → Process W → Type 0
  SentAll done = SentRun (λ n. n ≡ options.batch_count)

  abbrev SentSome : UsoThrow → Process W → Type 0
  SentSome e = SentRun (λ n. n ≤ options.batch_count)

  -- All of the batches with code 0, and some of the first ones with code 1.
  abbrev pub Exits : ℕ × Process W → Type 0
  Exits (code, p) =
      (code ≤ 1)
      × (code ≡ 0 → SentRun (λ n. n ≡ options.batch_count) p)
      × SentRun (λ n. n ≤ options.batch_count) p

  none-SentSome : (e : UsoThrow) (p : Process W) → sockets.sent p.world ≡ ds → SentSome e p
  none-SentSome e p sent = ([], tt, omega arith, sent ∙ sym (append-nil ds))

  module _ {Address V4 V6 : Type 0} (os : Winsock W) (asio : Asio Address V4 V6) (waits limit : ℕ)
      (enough : limit + 2 ≤ waits) (makes : MakesSockets os sockets limit) {S : Type 0}
      (draw : S → ℕ × S) (unmixed : options.completion_routine ≡ true → IsUnmixed os) where
    keeps-KeepsWire : (sock : ℕ) → KeepsWire os (wire_of sockets sock) sock
    keeps-KeepsWire sock = record {
      getsockname = makes.getsockname sock;
      closesocket = makes.closesocket sock;
    }

    -- A run on the new socket.
    module _ (long : packet_header_size ≤ options.batch_size)
        (short : options.batch_size ≤ max_packet_length) (fits : options.batch_count < 2 ^ 32)
        (s : S) where
      new_socket-SentAll :
          (remote : Endpoint Address) (info : UsoBindInfo) (sock : ℕ) (p : Process W)
          → Ready sockets ds sock p
          → Ends SentAll SentSome (run_on_socket os asio waits draw options remote info s sock p)
      new_socket-SentAll remote info sock p (sent, size) =
          let wire = wire_of sockets sock in
          change-Ends (WholeRun wire options ds) SentAll (PartOfRun wire options ds) SentSome
            (run_on_socket os asio waits draw options remote info s sock p)
            (run_on_socket-Ran os asio waits wire limit enough draw sock (makes.behaves sock)
              (keeps-KeepsWire sock) options ds unmixed remote info s p long short fits
              (sent, inl size))
            (λ done q (bs, series, number, at). (bs, series, number, at.0))
            (λ e q (bs, series, number, at). (bs, series, number, at.0))

      throws-SentSome :
          {A : Type 0} (o : Result UsoThrow A × Process W)
          → Ends (HasSent sockets ds {A = A}) (HasSent sockets ds) o
          → Ends (HasSent sockets ds {A = A}) SentSome o
      throws-SentSome {A} o h =
          change-Ends (HasSent sockets ds {A = A}) (HasSent sockets ds) (HasSent sockets ds)
            SentSome o h (λ a q k. k) none-SentSome

      remote-Silent :
          (o : Option Address) (p : Process W)
          → sockets.sent p.world ≡ ds
          → Ends (HasSent sockets ds {A = Address}) SentSome (remote_or_throw os asio waits o p)
      remote-Silent none p sent = none-SentSome udp_test.Uso.bad_address p sent
      remote-Silent (some address) p sent = sent

      run_client_windows-SentAll :
          (p : Process W)
          → sockets.sent p.world ≡ ds
          → Ends SentAll SentSome (run_client_windows os asio waits draw options s p)
      unfolding run_client_windows
      run_client_windows-SentAll p sent =
          bind-Ends (HasSent sockets ds {A = Address}) SentAll SentSome
            (remote_or_throw os asio waits (parse_address asio options.dest_address)) _ p
            (remote-Silent (parse_address asio options.dest_address) p sent)
            (λ address q kept.
              let remote : Endpoint Address = record {
                address = address;
                port = options.dest_port;
              } in
              let resolve = resolve_uso_bind_address asio os options.source_address remote in
              bind-Ends (HasSent sockets ds {A = UsoBindInfo}) SentAll SentSome resolve _ q
                (throws-SentSome (resolve q) (
                  resolve_uso_bind_address-Silent sockets ds os limit makes asio
                    options.source_address remote q kept))
                (λ info r still.
                  let create = create_uso_udp_socket os asio info.bind_address in
                  bind-Ends (Ready sockets ds) SentAll SentSome create _ r
                    (change-Ends (Ready sockets ds) (Ready sockets ds) (HasSent sockets ds) SentSome
                      (create r)
                      (create_uso_udp_socket-Ready sockets ds os limit makes asio info.bind_address
                        r still)
                      (λ sock t k. k) none-SentSome)
                    (new_socket-SentAll remote info)))

    exit_code-Exits :
        (o : Result UsoThrow (Unit {0}) × Process W)
        → Ends SentAll SentSome o
        → Exits (exit_code os asio waits draw o)
    exit_code-Exits (returned done, p) (bs, series, number, sent) = (
      omega arith,
      (λ zero_code. (bs, series, number, sent)),
      (bs, series, omega (arith, number), sent),
    )
    exit_code-Exits (thrown e, p) h = (omega arith, (λ zero_code. absurd (omega arith)), h)

    -- With arguments that are accepted, whatever they are, and a count below 2 ^ 32, the client on
    -- Windows ends with code 0 or 1. What it has sent then is the datagrams of complete batches of
    -- the size given, numbered from 0 in order, each with the run's count and each whole: with code
    -- 0 as many as the count, with code 1 at most as many. A new socket has no segment size, the
    -- calls up to the first batch send nothing, and the calls of Windows, of which any may fail, do
    -- what is documented of them. With the completion routine, the system either does no overlapped
    -- call at once or leaves none under way, so that no wait meets the routine of an earlier send.
    pub main-Exits :
        (args : List String) (s : S) (p : Process W)
        → parse_client_options true args default_client_options ≡ returned (some options)
        → options.batch_count < 2 ^ 32
        → sockets.sent p.world ≡ ds
        → Exits (main os asio waits draw args s p)
    unfolding main
    main-Exits args s p accepted fits sent =
        let sendable = parse_client_options-IsSendable true args options accepted in
        rw accepted (
          exit_code-Exits (run_client_windows os asio waits draw options s p)
            (run_client_windows-SentAll sendable.holds_header sendable.within fits s p sent))
