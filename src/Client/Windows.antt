-- ===== src/Client/Windows.antt =====
-- client.cpp on Windows: `send_batch_windows`, the branch of `run_client`, and `main`. What is printed is
-- left out.
pub mod Batches
pub mod Ran
pub mod Transfer
pub mod Exit
pub mod Success
mod Tests
use Prim.Native.String.{String}
use udp_test.Base.{
  true, ℕ, zero, suc, ◌+◌, not, Option, none, some, List, if◌then◌else◌, replicate, u32, Result,
  returned, thrown,
}
use udp_test.Crc.{Bytes}
use udp_test.Packet.{BuildError, build_batch}
use udp_test.Options.{OptionError}
use udp_test.Options.Client.{ClientOptions, default_client_options, parse_client_options}
use udp_test.Windows.{Process, Endpoint, Asio, Winsock, pure, throw, ◌>>=◌, ◌>>◌}
use udp_test.Windows.Address.{parse_address}
use udp_test.Uso.{UsoSendResult, UsoThrow, bad_address, send_failed, build, Step}
use udp_test.Uso.Route.{UsoBindInfo, resolve_uso_bind_address}
use udp_test.Uso.Buffer.{Sending, send_buffer_uso}
use udp_test.Uso.Socket.{create_uso_udp_socket, close_uso_udp_socket, uso_socket_local_endpoint}

module _ {W Address V4 V6 : Type 0} (os : Winsock W) (asio : Asio Address V4 V6) (waits : ℕ) where
  abbrev check_success : UsoSendResult → Step W Unit
  check_success result = if not result.success then throw (send_failed result.error) else pure tt

  send_batch_windows : Sending Address → Bytes → Step W Unit
  send_batch_windows to batch = send_buffer_uso os asio waits to batch >>= check_success

  abbrev built : {A : Type 0} → Result BuildError A → Step W A
  built (returned a) = pure a
  built (thrown e) = throw (build e)

  abbrev remote_or_throw : Option Address → Step W Address
  remote_or_throw none = throw bad_address
  remote_or_throw (some address) = pure address

  -- What the sends of a run have in common.
  abbrev sending :
      ClientOptions → Endpoint Address → ℕ → Endpoint Address → UsoBindInfo → Sending Address
  sending options remote sock bound info = record {
    sock = sock;
    mss = options.mss;
    target = remote;
    source_address = bound.address;
    interface_index = info.interface_index;
    no_pktinfo = options.no_pktinfo;
    completion_routine = options.completion_routine;
  }

  module _ {S : Type 0} (draw : S → ℕ × S) where
    -- The loop from batch `i` on, with the number of batches left. The buffer is written again for
    -- each.
    pub send_batches_windows : Sending Address → ℕ → ℕ → Bytes → ℕ → S → Step W Unit
    send_batches_windows to zero i batch count s = pure tt
    send_batches_windows to (suc left) i batch count s =
        built (build_batch draw batch (u32 i) (u32 count) s) >>= (λ (batch', s').
          send_batch_windows to batch' >> send_batches_windows to left (i + 1) batch' count s')

    -- The run on an open socket, which is closed at its end.
    pub run_on_socket : ClientOptions → Endpoint Address → UsoBindInfo → S → ℕ → Step W Unit
    run_on_socket options remote info s sock = uso_socket_local_endpoint os asio sock >>= (λ bound.
        send_batches_windows (sending options remote sock bound info) options.batch_count 0
          (replicate options.batch_size 0) options.batch_count s
        >> close_uso_udp_socket os sock)

    unfoldable run_client_windows : ClientOptions → S → Step W Unit
    run_client_windows options s =
        remote_or_throw (parse_address asio options.dest_address) >>= (λ address.
          let remote : Endpoint Address = record { address = address; port = options.dest_port } in
          resolve_uso_bind_address asio os options.source_address remote >>= (λ info.
            create_uso_udp_socket os asio info.bind_address
            >>= run_on_socket options remote info s))

    abbrev exit_code : Result UsoThrow (Unit {0}) × Process W → ℕ × Process W
    exit_code (returned done, p) = (0, p)
    exit_code (thrown e, p) = (1, p)

    abbrev of_options : Result OptionError (Option ClientOptions) → S → Process W → ℕ × Process W
    of_options (returned none) s p = (0, p)
    of_options (returned (some options)) s p = exit_code (run_client_windows options s p)
    of_options (thrown e) s p = (1, p)

    -- `main` on Windows: the exit code, and the process at its end.
    unfoldable main : List String → S → Process W → ℕ × Process W
    main args s p = of_options (parse_client_options true args default_client_options) s p
