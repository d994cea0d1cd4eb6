-- ===== src/Client/Windows/Ran.antt =====
-- What a run on Windows puts on the wire, whatever fails.
use udp_test.Base.{
  true, ℕ, ◌+◌, ◌^◌, ◌≤◌, ◌<◌, ◌≡◌, sym, ◌∙◌, arith, Option, none, some, List, [], append-nil,
  replicate,
}
use udp_test.Crc.{Bytes}
use udp_test.Packet.{packet_header_size, max_packet_length}
use udp_test.Options.Client.{ClientOptions}
use udp_test.Windows.{Sockaddr, Endpoint, Asio, Winsock, Process}
use udp_test.Windows.Ends.{Ends, bind-Ends}
use udp_test.Uso.{UsoThrow}
use udp_test.Uso.Route.{UsoBindInfo}
use udp_test.Uso.Socket.{uso_socket_local_endpoint, of_name, close_uso_udp_socket}
use udp_test.Uso.Wire.{Wire, IsSame, At, IsSame-At, Behaves, IsUnmixed}
use udp_test.Client.Windows.{sending, send_batches_windows, run_on_socket}
use udp_test.Client.Windows.Batches.{SentBatches, run_batches-Went}

-- The calls of a run on an open socket that send nothing.
pub record KeepsWire {W : Type 0} (os : Winsock W) (wire : Wire W) (sock : ℕ) : Type 0 where
  pub getsockname : (w : W) → IsSame wire w (os.getsockname sock w).1
  pub closesocket : (w : W) → IsSame wire w (os.closesocket sock w)

module _ {W : Type 0} (wire : Wire W) (options : ClientOptions) (ds : List Bytes) where
  -- The batches of a run, as many as the predicate says.
  abbrev RunSent : (ℕ → Type 0) → Process W → Type 0
  RunSent = SentBatches wire options.batch_count options.batch_size options.mss ds 0

  abbrev pub WholeRun : Unit {0} → Process W → Type 0
  WholeRun done = RunSent (λ n. n ≡ options.batch_count)

  abbrev pub PartOfRun : UsoThrow → Process W → Type 0
  PartOfRun e = RunSent (λ n. n ≤ options.batch_count)

module _ {W Address V4 V6 : Type 0} (os : Winsock W) (asio : Asio Address V4 V6) (waits : ℕ)
    (wire : Wire W) (limit : ℕ) (enough : limit + 2 ≤ waits) where
  module _ {S : Type 0} (draw : S → ℕ × S) (sock : ℕ) (behaves : Behaves os wire sock limit)
      (keeps : KeepsWire os wire sock) (options : ClientOptions) (ds : List Bytes)
      (unmixed : options.completion_routine ≡ true → IsUnmixed os) where
    named :
        (name : Option Sockaddr) (p : Process W)
        → At wire options.mss ds p.world
        → Ends
            (λ (bound : Endpoint Address) q. At wire options.mss ds q.world)
            (PartOfRun wire options ds)
            (of_name os asio name p)
    named none p at = ([], tt, omega arith, (at.0 ∙ sym (append-nil ds), at.1))
    named (some local) p at = at

    -- A run on an open socket on Windows, of fewer than 2 ^ 32 batches of 20 to 65536 bytes,
    -- returns or throws. What it has sent then is the datagrams of complete batches of that size,
    -- numbered from 0 in order, each with the run's count and each whole: as many as the count
    -- where it returns, and at most as many where it throws. The socket has no segment size or the
    -- run's, and the calls of Windows, of which any may fail, do what is documented of them.
    pub run_on_socket-Ran :
        (remote : Endpoint Address) (info : UsoBindInfo) (s : S) (p : Process W)
        → packet_header_size ≤ options.batch_size
        → options.batch_size ≤ max_packet_length
        → options.batch_count < 2 ^ 32
        → At wire options.mss ds p.world
        → Ends
            (WholeRun wire options ds)
            (PartOfRun wire options ds)
            (run_on_socket os asio waits draw options remote info s sock p)
    unfolding run_on_socket uso_socket_local_endpoint close_uso_udp_socket
    run_on_socket-Ran remote info s p long short fits at =
        bind-Ends (λ (bound : Endpoint Address) q. At wire options.mss ds q.world)
          (WholeRun wire options ds) (PartOfRun wire options ds)
          (uso_socket_local_endpoint os asio sock) _ p
          (named (os.getsockname sock p.world).0
            (record p { world = (os.getsockname sock p.world).1 })
            (IsSame-At wire options.mss ds p.world (os.getsockname sock p.world).1
              (keeps.getsockname p.world) at))
          (λ bound q here.
            bind-Ends (WholeRun wire options ds) (WholeRun wire options ds)
              (PartOfRun wire options ds)
              (send_batches_windows os asio waits draw
                (sending os asio waits options remote sock bound info) options.batch_count 0
                (replicate options.batch_size 0) options.batch_count s)
              _ q
              (run_batches-Went os asio waits wire limit enough
                (sending os asio waits options remote sock bound info) behaves unmixed draw
                options.batch_size options.batch_count s ds q long short fits here)
              (λ done r (bs, series, number, sent). (
                bs,
                series,
                number,
                IsSame-At wire options.mss _ r.world _ (keeps.closesocket r.world) sent,
              )))
