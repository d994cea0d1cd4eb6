-- ===== src/Uso/Socket/Created.antt =====
-- `create_uso_udp_socket` and `uso_socket_local_endpoint` on a system on which no call fails.
use Prim.Native.String.{String}
use udp_test.Base.{ℕ, ◌*◌, Option}
use udp_test.Windows.{Asio, so_reuseaddr, Winsock, ◌>>=◌, ◌>>◌, call}
use udp_test.Windows.Ends.{bind-Preserves}
use udp_test.Uso.{ensure_winsock_initialized}
use udp_test.Uso.Wire.{Never, Pending}
use udp_test.Uso.Route.Resolved.{IsV4}
use udp_test.Uso.Faultless.{Faultless, Fine, Runs, started-Runs}
use udp_test.Uso.Socket.{of_socket, set_up, create_uso_udp_socket, uso_socket_local_endpoint}

module _ {W : Type 0} (os : Winsock W) (pending : W → Option Pending) (limit : ℕ)
    (faultless : Faultless os pending limit) {Address V4 V6 : Type 0}
    (asio : Asio Address V4 V6) where
  set_up-Runs : (text : String) → IsV4 asio text → (s : ℕ) → Runs (set_up os asio text s)
  set_up-Runs text (a, parses, v4) s p fine =
      rw
        (
          faultless.reuseaddr s 1 p.world,
          faultless.sndbuf s (1024 * 1024) (os.setsockopt s so_reuseaddr 1 p.world).1,
          parses,
          v4,
          faultless.bind s _ _,
        )
        fine

  pub create_uso_udp_socket-Runs :
      (text : String) → IsV4 asio text → Runs (create_uso_udp_socket os asio text)
  unfolding create_uso_udp_socket
  create_uso_udp_socket-Runs text is_v4 =
      bind-Preserves Fine Never
        (ensure_winsock_initialized os >> (call os.wsa_socket >>= of_socket os))
        (set_up os asio text)
        (bind-Preserves Fine Never (ensure_winsock_initialized os) _
          (started-Runs os pending limit faultless)
          (λ done q fine. let (s, new) = faultless.wsa_socket q.world in rw new fine))
        (set_up-Runs text is_v4)

  pub uso_socket_local_endpoint-Runs : (s : ℕ) → Runs (uso_socket_local_endpoint os asio s)
  unfolding uso_socket_local_endpoint
  uso_socket_local_endpoint-Runs s p fine =
      let (name, told) = faultless.getsockname s p.world in rw told fine
