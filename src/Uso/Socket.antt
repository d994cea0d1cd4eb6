-- ===== src/Uso/Socket.antt =====
-- The socket of a client on Windows: `create_uso_udp_socket`, `close_uso_udp_socket` and
-- `uso_socket_local_endpoint` of uso_send_win.cpp, and `log_windows_version`.
pub mod Opened
pub mod Ready
pub mod Created
use Prim.Native.String.{String}
use udp_test.Base.{ℕ, ◌*◌, not, Option, none, some, if◌then◌else◌}
use udp_test.Windows.{
  Sockaddr, inet, Endpoint, Asio, SocketOption, so_reuseaddr, so_sndbuf, Winsock, pure, throw,
  ◌>>=◌, ◌>>◌, call, read_world,
}
use udp_test.Windows.Address.{swap_bytes, parse_address}
use udp_test.Uso.{
  UsoThrow, bad_address, needs_ipv4, wsa_socket_failed, so_reuseaddr_failed, so_sndbuf_failed,
  bind_failed, getsockname_failed, Step, ensure_winsock_initialized,
}
use udp_test.Uso.Route.{v4_sockaddr}

module _ {W : Type 0} (os : Winsock W) where
  abbrev close : ℕ → Step W Unit
  close sock p = pure tt (record p { world = os.closesocket sock p.world })

  unfoldable pub close_uso_udp_socket : ℕ → Step W Unit
  close_uso_udp_socket native_socket = close native_socket

  -- The error code is read after the socket is closed.
  abbrev close_and_throw : ℕ → (ℕ → UsoThrow) → Step W Unit
  close_and_throw sock failure =
      close sock >> read_world os.last_error >>= (λ err. throw (failure err))

  abbrev of_socket : Option ℕ → Step W ℕ
  of_socket none = read_world os.last_error >>= (λ err. throw (wsa_socket_failed err))
  of_socket (some sock) = pure sock

  abbrev set_or_close : ℕ → SocketOption → ℕ → (ℕ → UsoThrow) → Step W Unit
  set_or_close sock option value failure =
      call (os.setsockopt sock option value)
      >>= (λ ok. if not ok then close_and_throw sock failure else pure tt)

  module _ {Address V4 V6 : Type 0} (asio : Asio Address V4 V6) where
    -- The exception of `make_address` passes the open socket by.
    abbrev parsed : Option Address → Step W Address
    parsed none = throw bad_address
    parsed (some address) = pure address

    -- The error code of `bind` is read before the socket is closed.
    abbrev bind_or_close : ℕ → Address → Step W ℕ
    bind_or_close sock address =
        call (os.bind sock (v4_sockaddr asio 0 (asio.to_v4 address))) >>= (λ ok.
          let failure =
            read_world os.last_error >>= (λ err. close sock >> throw (bind_failed err)) in
          if not ok then failure else pure sock)

    abbrev bind_v4 : ℕ → Address → Step W ℕ
    bind_v4 sock address =
        if not (asio.is_v4 address)
        then close sock >> throw needs_ipv4
        else bind_or_close sock address

    abbrev set_up : String → ℕ → Step W ℕ
    set_up bind_address sock =
        set_or_close sock so_reuseaddr 1 so_reuseaddr_failed
        >> set_or_close sock so_sndbuf (1024 * 1024) so_sndbuf_failed
        >> (parsed (parse_address asio bind_address) >>= bind_v4 sock)

    pub create_uso_udp_socket : String → Step W ℕ
    create_uso_udp_socket bind_address =
        ensure_winsock_initialized os >> (call os.wsa_socket >>= of_socket) >>= set_up bind_address

    abbrev v4_endpoint : Sockaddr → Endpoint Address
    v4_endpoint (inet port addr) = record {
      address = asio.from_v4 (asio.v4_from_bytes addr);
      port = swap_bytes port;
    }
    v4_endpoint other = record { address = asio.from_v4 asio.v4_any; port = 0 }

    abbrev pub of_name : Option Sockaddr → Step W (Endpoint Address)
    of_name none = read_world os.last_error >>= (λ err. throw (getsockname_failed err))
    of_name (some local) = pure (v4_endpoint local)

    unfoldable pub uso_socket_local_endpoint : ℕ → Step W (Endpoint Address)
    uso_socket_local_endpoint native_socket = call (os.getsockname native_socket) >>= of_name
