-- ===== src/Client/Windows/Success.antt =====
-- A run of client.cpp on Windows, on a system on which no call fails.
use Prim.Native.String.{String}
use udp_test.Base.{
  true, join, ◌++◌, ℕ, zero, suc, ◌+◌, ◌^◌, ◌≤◌, ◌<◌, ◌≡◌, refl, arith, Option, some, List, length,
  replicate, length-replicate, Result, returned, thrown, u32,
}
use udp_test.Crc.{Bytes}
use udp_test.Packet.{packet_header_size, max_packet_length}
use udp_test.Packet.Build.{build_batch-Built}
use udp_test.Options.Client.{
  ClientOptions, default_client_options, parse_client_options, uso_max_segment_size,
}
use udp_test.Options.Client.Accepted.{parse_client_options-IsSendable}
use udp_test.Windows.{Sockaddr, Endpoint, Asio, Winsock, Process}
use udp_test.Windows.Address.{parse_address, endpoint_to_sockaddr}
use udp_test.Windows.Ends.{Ends, bind-Ends}
use udp_test.Uso.{UsoThrow}
use udp_test.Uso.Wire.{Never, Pending, IsUnmixed}
use udp_test.Uso.Buffer.{Sending, send_buffer_uso}
use udp_test.Uso.Route.{UsoBindInfo, resolve_uso_bind_address}
use udp_test.Uso.Route.Resolved.{IsV4, PrintsV4, Binds, resolve_uso_bind_address-Binds}
use udp_test.Uso.Route.Silent.{Sockets, MakesSockets}
use udp_test.Uso.Socket.{create_uso_udp_socket, uso_socket_local_endpoint, close_uso_udp_socket}
use udp_test.Uso.Socket.Created.{create_uso_udp_socket-Runs, uso_socket_local_endpoint-Runs}
use udp_test.Uso.Faultless.{Faultless, Fine, Runs}
use udp_test.Uso.Faultless.Sends.{Succeeds, send_buffer_uso-Succeeds}
use udp_test.Client.Windows.{
  check_success, send_batch_windows, sending, send_batches_windows, run_on_socket,
  run_client_windows, exit_code, main,
}
use udp_test.Server.State.{fresh_receiver}
use udp_test.Server.Ingest.Stream.{ingest_all}
use udp_test.Client.Transfer.{Transferred}
use udp_test.Client.Windows.Transfer.{sent-IsReceived}
use udp_test.Client.Windows.Exit.{SentRun, main-Exits}

module _ {Address V4 V6 : Type 0} (asio : Asio Address V4 V6) where
  -- What is known of the options: both addresses are ones, the source's of version 4, and the
  -- destination can be sent to.
  pub record Reaches (options : ClientOptions) : Type 0 where
    pub address : Address
    pub parses : parse_address asio options.dest_address ≡ some address
    pub stored : Sockaddr × ℕ
    pub stores :
        endpoint_to_sockaddr asio (record { address = address; port = options.dest_port })
        ≡ some stored
    pub source : IsV4 asio options.source_address
    pub prints : PrintsV4 asio

module _ {W Address V4 V6 : Type 0} (os : Winsock W) (asio : Asio Address V4 V6) (waits limit : ℕ)
    (enough : limit + 2 ≤ waits) where
  module _ (pending : W → Option Pending) (faultless : Faultless os pending limit) where
    module _ (to : Sending Address) (stored : Sockaddr × ℕ)
        (stores : endpoint_to_sockaddr asio to.target ≡ some stored)
        (small : to.mss ≤ uso_max_segment_size)
        (unmixed : to.completion_routine ≡ true → IsUnmixed os) where
      send_batch_windows-Runs :
          (batch : Bytes)
          → 0 < length batch
          → length batch ≤ max_packet_length
          → Runs (send_batch_windows os asio waits to batch)
      unfolding send_batch_windows
      send_batch_windows-Runs batch some_bytes short p fine =
          bind-Ends
            (Succeeds os pending limit faultless waits enough asio to batch stored stores some_bytes
              (omega arith) unmixed)
            (λ (done : Unit {0}) q. Fine q) Never (send_buffer_uso os asio waits to batch)
            (check_success os asio waits) p
            (send_buffer_uso-Succeeds os pending limit faultless waits enough asio to batch stored
              stores some_bytes (omega arith) unmixed small p fine)
            (λ r q (good, h). rw good h)

      send_batches_windows-Runs :
          {S : Type 0} (draw : S → ℕ × S) (left i : ℕ) (batch : Bytes) (count : ℕ) (s : S)
          → packet_header_size ≤ length batch
          → length batch ≤ max_packet_length
          → i + left ≡ count
          → count < 2 ^ 32
          → Runs (send_batches_windows os asio waits draw to left i batch count s)
      unfolding send_batches_windows
      send_batches_windows-Runs draw zero i batch count s long short range fits p fine = fine
      send_batches_windows-Runs draw (suc left) i batch count s long short range fits p fine =
          let (b, s', builds, is_built) =
            build_batch-Built draw batch i count s long short (omega arith) fits in
          let seq : u32 i ≡ i = omega arith in
          let total : u32 count ≡ count = omega arith in
          let size = is_built.same_size in
          rw (seq, total, builds)
            (bind-Ends (λ (done : Unit {0}) q. Fine q) (λ (done : Unit {0}) q. Fine q) Never
              (send_batch_windows os asio waits to b) _ p
              (send_batch_windows-Runs b (omega (arith, size)) (omega (arith, size)) p fine)
              (λ done.
                send_batches_windows-Runs draw left (i + 1) b count s' (omega (arith, size))
                  (omega (arith, size)) (omega arith) fits))

    module _ {S : Type 0} (draw : S → ℕ × S) (options : ClientOptions)
        (long : packet_header_size ≤ options.batch_size)
        (short : options.batch_size ≤ max_packet_length) (fits : options.batch_count < 2 ^ 32)
        (small : options.mss ≤ uso_max_segment_size)
        (unmixed : options.completion_routine ≡ true → IsUnmixed os) (s : S) where
      run_on_socket-Runs :
          (remote : Endpoint Address) (stored : Sockaddr × ℕ)
          → endpoint_to_sockaddr asio remote ≡ some stored
          → (info : UsoBindInfo) (sock : ℕ)
          → Runs (run_on_socket os asio waits draw options remote info s sock)
      unfolding run_on_socket close_uso_udp_socket
      run_on_socket-Runs remote stored stores info sock p fine =
          let size : length (replicate {A = ℕ} options.batch_size 0) ≡ options.batch_size =
            length-replicate {A = ℕ} options.batch_size 0 in
          bind-Ends (λ (bound : Endpoint Address) q. Fine q) (λ (done : Unit {0}) q. Fine q) Never
            (uso_socket_local_endpoint os asio sock) _ p
            (uso_socket_local_endpoint-Runs os pending limit faultless asio sock p fine)
            (λ bound q h.
              bind-Ends (λ (done : Unit {0}) r. Fine r) (λ (done : Unit {0}) r. Fine r) Never
                (send_batches_windows os asio waits draw
                  (sending os asio waits options remote sock bound info) options.batch_count 0
                  (replicate options.batch_size 0) options.batch_count s)
                _ q
                (send_batches_windows-Runs (sending os asio waits options remote sock bound info)
                  stored stores small unmixed draw options.batch_count 0
                  (replicate options.batch_size 0) options.batch_count s (omega (arith, size))
                  (omega (arith, size)) (omega arith) fits q h)
                (λ done r k. k))

      module _ (address : Address) (parses : parse_address asio options.dest_address ≡ some address)
          (stored : Sockaddr × ℕ)
          (stores : endpoint_to_sockaddr asio
              (record { address = address; port = options.dest_port })
            ≡ some stored)
          (source : IsV4 asio options.source_address) (prints : PrintsV4 asio) where
        run_client_windows-Runs : Runs (run_client_windows os asio waits draw options s)
        unfolding run_client_windows
        run_client_windows-Runs p fine =
            let remote : Endpoint Address = record {
              address = address;
              port = options.dest_port;
            } in
            rw parses (
              bind-Ends (Binds os asio options.source_address source prints)
                (λ (done : Unit {0}) q. Fine q) Never
                (resolve_uso_bind_address asio os options.source_address remote) _ p
                (resolve_uso_bind_address-Binds os asio options.source_address source prints remote
                  p fine)
                (λ info q (is_v4, h).
                  bind-Ends (λ (sock : ℕ) r. Fine r) (λ (done : Unit {0}) r. Fine r) Never
                    (create_uso_udp_socket os asio info.bind_address) _ q
                    (create_uso_udp_socket-Runs os pending limit faultless asio info.bind_address
                      is_v4 q h)
                    (run_on_socket-Runs remote stored stores info)))

  module _ (sockets : Sockets W) (makes : MakesSockets os sockets limit)
      (faultless : Faultless os sockets.pending limit) {S : Type 0} (draw : S → ℕ × S)
      (options : ClientOptions) (ds : List Bytes)
      (unmixed : options.completion_routine ≡ true → IsUnmixed os) where
    exit_zero :
        (o : Result UsoThrow (Unit {0}) × Process W)
        → Ends (λ (done : Unit {0}) q. Fine q) Never o
        → (exit_code os asio waits draw o).0 ≡ 0
    exit_zero (returned done, p) h = refl
    exit_zero (thrown e, p) h = absurd h

    main-zero :
        (args : List String) (s : S) (p : Process W)
        → parse_client_options true args default_client_options ≡ returned (some options)
        → options.batch_count < 2 ^ 32
        → Reaches asio options
        → Fine p
        → (main os asio waits draw args s p).0 ≡ 0
    unfolding main
    main-zero args s p accepted fits r fine =
        let sendable = parse_client_options-IsSendable true args options accepted in
        rw accepted (
          exit_zero (run_client_windows os asio waits draw options s p) (
            run_client_windows-Runs sockets.pending faultless draw options sendable.holds_header
              sendable.within fits sendable.mss_fits unmixed s r.address r.parses r.stored r.stores
              r.source r.prints p fine))

    -- With arguments that are accepted, whatever they are, and a count below 2 ^ 32, on a Windows
    -- on which no call fails: if the destination is an address that can be sent to, and the source
    -- one of version 4, the client ends with code 0, and has sent the datagrams of as many complete
    -- batches as the count says, of the size given, numbered from 0 in order. This holds for plain
    -- sends and segmented ones, with the completion routine and without, and for an address that is
    -- selected. The calls do what is documented of them, no earlier call has left a `static`
    -- variable with a failure, and the waits given are at least two more than a message stays under
    -- way. With the completion routine, the system either does no overlapped call at once or leaves
    -- none under way, so that no wait meets the routine of an earlier send.
    pub main-Sends :
        (args : List String) (s : S) (p : Process W)
        → parse_client_options true args default_client_options ≡ returned (some options)
        → options.batch_count < 2 ^ 32
        → Reaches asio options
        → Fine p
        → sockets.sent p.world ≡ ds
        → ((main os asio waits draw args s p).0 ≡ 0)
          × SentRun sockets options ds
              (λ n. n ≡ options.batch_count)
              (main os asio waits draw args s p).1
    main-Sends args s p accepted fits reaches fine sent =
        let exits =
          main-Exits sockets options ds os asio waits limit enough makes draw unmixed args s p
            accepted fits sent in
        let code = main-zero args s p accepted fits reaches fine in (code, exits.1 code)

    -- From command line to summary, on a Windows on which no call fails: with arguments that are
    -- accepted, whatever they are, a size from 21 and a count below 2 ^ 32, to a destination that
    -- can be sent to and from a source of version 4, the client sends, and if the bytes that it has
    -- sent reach a new session in order, cut into datagrams anywhere, the session counts every
    -- batch once and none as bad, lost, duplicate or out of order, and no batch stays under way.
    -- The calls do what is documented of them, no earlier call has left a `static` variable with a
    -- failure, and the waits given are at least two more than a message stays under way. With the
    -- completion routine, the system either does no overlapped call at once or leaves none under
    -- way, so that no wait meets the routine of an earlier send.
    pub main-Transferred :
        (args : List String) (s : S) (p : Process W) (datagrams : List Bytes)
        → parse_client_options true args default_client_options ≡ returned (some options)
        → packet_header_size < options.batch_size
        → options.batch_count < 2 ^ 32
        → Reaches asio options
        → Fine p
        → sockets.sent p.world ≡ ds
        → join (sockets.sent (main os asio waits draw args s p).1.world) ≡ join ds ++ join datagrams
        → Transferred options.batch_count (ingest_all datagrams fresh_receiver)
    main-Transferred args s p datagrams accepted big fits reaches fine sent arrives =
        let run = main-Sends args s p accepted fits reaches fine sent in
        let (bs, series, number, at) = run.1 in
        sent-IsReceived options ds datagrams _ big
          (parse_client_options-IsSendable true args options accepted).count_set fits arrives bs
          series number at
