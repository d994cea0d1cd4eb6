-- ===== src/Client/Windows/Transfer.antt =====
-- A run of client.cpp on Windows that is received by server.cpp.
use udp_test.Base.{
  true, ℕ, zero, suc, ◌^◌, ◌≤◌, ◌<◌, ◌≡◌, refl, sym, ap, ◌∙◌, arith, List, ◌++◌, join, Result,
  returned, thrown, length, ◌+◌,
}
use udp_test.Crc.{Bytes}
use udp_test.Packet.{packet_header_size, max_packet_length}
use udp_test.Server.State.{fresh_receiver}
use udp_test.Server.Ingest.Stream.{ingest_all}
use udp_test.Client.Run.{IsSeries, join-append, all_datagrams, join-all_datagrams}
use udp_test.Client.Transfer.{Transferred, series-Transferred, join-append_suffix}
use udp_test.Options.Client.{ClientOptions}
use udp_test.Windows.{Endpoint, Asio, Winsock, Process}
use udp_test.Windows.Ends.{Ends}
use udp_test.Uso.{UsoThrow}
use udp_test.Uso.Route.{UsoBindInfo}
use udp_test.Uso.Wire.{Wire, At, Behaves, IsUnmixed}
use udp_test.Client.Windows.{run_on_socket}
use udp_test.Client.Windows.Ran.{KeepsWire, WholeRun, PartOfRun, run_on_socket-Ran}

-- The session of the server that receives the datagrams.
abbrev pub IsReceived : {S : Type 0} → ClientOptions → List Bytes → Unit {0} → S → Type 0
IsReceived options datagrams done p =
    Transferred options.batch_count (ingest_all datagrams fresh_receiver)

-- A whole run that has been sent, and whose bytes are received.
module _ (options : ClientOptions) (ds datagrams : List Bytes) where
  pub sent-IsReceived :
      (sent : List Bytes)
      → packet_header_size < options.batch_size
      → 0 < options.batch_count
      → options.batch_count < 2 ^ 32
      → join sent ≡ join ds ++ join datagrams
      → (bs : List Bytes) → IsSeries options.batch_count options.batch_size 0 bs
      → length bs ≡ options.batch_count
      → sent ≡ ds ++ all_datagrams options.mss bs
      → Transferred options.batch_count (ingest_all datagrams fresh_receiver)
  sent-IsReceived sent big pos fits arrives bs series number at =
      let stream =
        sym arrives
        ∙ ap join at
        ∙ join-append ds (all_datagrams options.mss bs)
        ∙ ap (◌++◌ (join ds)) (join-all_datagrams options.mss bs) in
      received options.batch_count pos fits series number
        (join-append_suffix (join ds) (join datagrams) (join bs) stream)
    where
      received :
          (count : ℕ)
          → 0 < count
          → count < 2 ^ 32
          → IsSeries count options.batch_size 0 bs
          → length bs ≡ count
          → join datagrams ≡ join bs
          → Transferred count (ingest_all datagrams fresh_receiver)
      received zero pos' fits' series' number' same = absurd (omega arith)
      received (suc n) pos' fits' series' number' same =
          series-Transferred n options.batch_size bs datagrams big fits' series' number' same

module _ {W Address V4 V6 : Type 0} (os : Winsock W) (asio : Asio Address V4 V6) (waits : ℕ)
    (wire : Wire W) (limit : ℕ) (enough : limit + 2 ≤ waits) {S : Type 0} (draw : S → ℕ × S)
    (sock : ℕ) (behaves : Behaves os wire sock limit) (keeps : KeepsWire os wire sock)
    (options : ClientOptions) (ds : List Bytes) (datagrams : List Bytes)
    (unmixed : options.completion_routine ≡ true → IsUnmixed os) where
  -- End to end on Windows: a run on an open socket, of at least one and fewer than 2 ^ 32 batches
  -- of 21 to 65536 bytes, returns or throws. If it returns, and the bytes that it has sent reach a
  -- new session in order, cut into datagrams anywhere, the session counts every batch once and none
  -- as bad, lost, duplicate or out of order, and no batch stays under way. If it throws, what has
  -- been sent is the datagrams of some of the first batches, each whole. The socket has no segment
  -- size or the run's, and the calls of Windows, of which any may fail, do what is documented of
  -- them. With the completion routine, the system either does no overlapped call at once or leaves
  -- none under way, so that no wait meets the routine of an earlier send.
  pub run_on_socket-Transferred :
      (remote : Endpoint Address) (info : UsoBindInfo) (s : S) (p : Process W)
      → packet_header_size < options.batch_size
      → options.batch_size ≤ max_packet_length
      → 0 < options.batch_count
      → options.batch_count < 2 ^ 32
      → At wire options.mss ds p.world
      → ((q : Process W)
          → run_on_socket os asio waits draw options remote info s sock p ≡ (returned tt, q)
          → join (wire.sent q.world) ≡ join ds ++ join datagrams)
      → Ends
          (IsReceived options datagrams)
          (PartOfRun wire options ds)
          (run_on_socket os asio waits draw options remote info s sock p)
  run_on_socket-Transferred remote info s p big small pos fits at arrives =
      go (run_on_socket os asio waits draw options remote info s sock p) refl (
        run_on_socket-Ran os asio waits wire limit enough draw sock behaves keeps options ds unmixed
          remote info s p (omega arith) small fits at)
    where
      go :
          (o : Result UsoThrow (Unit {0}) × Process W)
          → run_on_socket os asio waits draw options remote info s sock p ≡ o
          → Ends (WholeRun wire options ds) (PartOfRun wire options ds) o
          → Ends (IsReceived options datagrams) (PartOfRun wire options ds) o
      go (returned done, q) e (bs, series, number, at) =
          sent-IsReceived options ds datagrams (wire.sent q.world) big pos fits (arrives q e) bs
            series number at.0
      go (thrown t, q) e h = h
