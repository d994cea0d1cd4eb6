-- ===== src/Client/Windows/Tests.antt =====
-- Witnesses for the theorems on a run of the client on Windows.
use udp_test.Base.{
  List, zero, ◌∷◌, ◌==◌, Bool-cases, inr, ℕ, suc, length, join, ap, sym, Result, returned, refl,
  inl, arith, ◌≡◌, true, [],
}
use udp_test.Options.Client.{ClientOptions, default_client_options}
use udp_test.Windows.{Endpoint, Process, no_statics, inet, SendMessage}
use udp_test.Client.Transfer.{Transferred}
use udp_test.Server.State.{fresh_receiver}
use udp_test.Server.Ingest.Stream.{ingest_all}
use udp_test.Windows.Ends.{Ends}
use udp_test.Uso.Route.{UsoBindInfo}
use udp_test.Uso.Wire.{under_way}
use udp_test.Uso.Samples.{
  asio, World, fresh_world, windows, wire, windows-Behaves, windows-IsUnmixed,
}
use udp_test.Crc.{Bytes, crc32_compute, crc32_loop, crc32_round, crc32_rounds, crc32_update}
use udp_test.Packet.{build_batch, put_crc32, header_bytes, u32_bytes, random_bytes, batch_crc32}
use udp_test.Client.Segments.{segments}
use udp_test.Windows.Address.{endpoint_to_sockaddr, parse_address}
use udp_test.Uso.{
  resolve_wsasendmsg, configure_udp_send_segment_size, resolve_set_udp_send_message_size,
}
use udp_test.Uso.Route.{source_address_is_unspecified}
use udp_test.Uso.Message.{try_wsasendmsg_uso, source_control, send_segmented, invoke_wsasendmsg}
use udp_test.Uso.Buffer.{send_buffer_uso, send_attempts}
use udp_test.Uso.Socket.{uso_socket_local_endpoint, close_uso_udp_socket}
use udp_test.Client.Windows.{run_on_socket, send_batches_windows, send_batch_windows}
use udp_test.Client.Windows.Ran.{KeepsWire, PartOfRun}
use udp_test.Client.Samples.{sending, command_line, accepted}
use udp_test.Uso.Route.Silent.{Sockets, MakesSockets}
use udp_test.Client.Windows.{main}
use udp_test.Client.Windows.Exit.{Exits, SentRun, main-Exits}
use udp_test.Client.Windows.Success.{Reaches, main-Sends, main-Transferred}
use udp_test.Uso.Faultless.{Faultless, IsServed}
use udp_test.Uso.Route.Resolved.{PrintsV4}
use udp_test.Client.Windows.Transfer.{IsReceived, run_on_socket-Transferred}
use udp_test.Uso.{UsoThrow}

abbrev process : Process World
process = record { statics = no_statics; world = fresh_world }

abbrev counting : ℕ → ℕ × ℕ
counting n = (n, suc n)

abbrev options : ClientOptions
options = record default_client_options { batch_size = 24; batch_count = 2; mss = 10 }

abbrev remote : Endpoint ℕ
remote = record { address = 9; port = 5000 }

abbrev info : UsoBindInfo
info = record { bind_address = "10.0.0.3"; interface_index = 2; auto_selected = true }

windows-KeepsWire : KeepsWire windows wire 5
windows-KeepsWire = record { getsockname = λ w. (refl, refl); closesocket = λ w. (refl, refl) }

abbrev sockets : Sockets World
sockets = record { sent = λ w. w.sent; size_set = λ sock w. w.size; pending = λ w. w.under_way }

windows-MakesSockets : MakesSockets windows sockets 1
windows-MakesSockets = record {
  behaves = windows-Behaves;
  wsa_startup = λ w. refl;
  adapters = λ n w. refl;
  wsa_socket = λ w. refl;
  fresh = λ s w new. refl;
  reuseaddr = λ s n w. (refl, refl);
  sndbuf = λ s n w. (refl, refl);
  bind = λ s a w. (refl, refl);
  closesocket = λ s w. (refl, refl);
  getsockname = λ s w. (refl, refl);
}

main-Exits_example : Exits sockets sending [] (main windows asio 3 counting command_line 7 process)
main-Exits_example =
    main-Exits sockets sending [] windows asio 3 1 (omega arith) windows-MakesSockets counting
      (λ by. windows-IsUnmixed) command_line 7 process (accepted true) (omega arith) refl

windows-Faultless : Faultless windows sockets.pending 1
windows-Faultless = record {
  wsa_startup = λ w. refl;
  wsa_socket = λ w. (5, refl);
  reuseaddr = λ s n w. refl;
  sndbuf = λ s n w. refl;
  segment_size = λ s n w. refl;
  set_size = λ s n w. refl;
  bind = λ s a w. refl;
  getsockname = λ s w. (inet 0 (3 ∷ []), refl);
  get_sendmsg = λ s w. refl;
  first_control = λ msg. refl;
  next_control = λ msg. refl;
  sendto = λ s d a w. refl;
  wsasendmsg = λ s msg w. refl;
  wsasendmsg_overlapped = λ s msg a w. (refl, 1, omega arith, refl);
  sleep_ex = λ no_stale. served;
}
  where
    served :
        (a : ℕ) (msg : SendMessage) (n : ℕ) (w : World)
        → w.under_way ≡ under_way a msg n
        → IsServed windows sockets.pending 1 a msg n (windows.sleep_ex w)
    served a msg zero w e = rw e (refl, refl, refl)
    served a msg (suc n) w e = rw e (n, refl, refl)

prints : PrintsV4 asio
unfolding parse_address
prints v4 = elim (Bool-cases (v4 == 3)) [
  | inl three ↦ rw three (3, refl, refl)
  | inr other ↦ rw other (2, refl, refl)
]

reaches : Reaches asio sending
unfolding parse_address endpoint_to_sockaddr
reaches = record {
  address = 2;
  parses = refl;
  stored = (inet 34835 (2 ∷ []), 16);
  stores = refl;
  source = (0, refl, refl);
  prints = prints;
}

main-Sends_example :
    ((main windows asio 3 counting command_line 7 process).0 ≡ 0)
    × SentRun sockets sending []
        (λ n. n ≡ 10)
        (main windows asio 3 counting command_line 7 process).1
main-Sends_example =
    main-Sends windows asio 3 1 (omega arith) sockets windows-MakesSockets windows-Faultless
      counting sending [] (λ by. windows-IsUnmixed) command_line 7 process (accepted true)
      (omega arith) reaches ((λ h. absurd (cc h)), (λ h. absurd (cc h))) refl

abbrev sent_by_main : List Bytes
sent_by_main = (main windows asio 3 counting command_line 7 process).1.world.sent

main-Transferred_example : Transferred 10 (ingest_all sent_by_main fresh_receiver)
main-Transferred_example =
    main-Transferred windows asio 3 1 (omega arith) sockets windows-MakesSockets windows-Faultless
      counting sending [] (λ by. windows-IsUnmixed) command_line 7 process sent_by_main
      (accepted true) (omega arith) (omega arith) reaches
      ((λ h. absurd (cc h)), (λ h. absurd (cc h))) refl refl

abbrev outcome : Result UsoThrow (Unit {0}) × Process World
outcome = run_on_socket windows asio 3 counting options remote info 7 5 process

abbrev after : Process World
after = outcome.1

-- Three datagrams for each of the two batches.
ran : (outcome.0 ≡ returned tt) × (length after.world.sent ≡ 6)
unfolding run_on_socket uso_socket_local_endpoint send_batches_windows build_batch
    send_batch_windows send_buffer_uso put_crc32 header_bytes u32_bytes random_bytes
    resolve_wsasendmsg send_attempts source_address_is_unspecified try_wsasendmsg_uso
    endpoint_to_sockaddr source_control send_segmented crc32_compute crc32_loop crc32_round
    crc32_rounds crc32_update batch_crc32 invoke_wsasendmsg close_uso_udp_socket
    configure_udp_send_segment_size resolve_set_udp_send_message_size segments
ran = (refl, refl)

run_on_socket-Transferred_example :
    Ends
      (IsReceived options after.world.sent)
      (PartOfRun wire options [])
      (run_on_socket windows asio 3 counting options remote info 7 5 process)
run_on_socket-Transferred_example =
    run_on_socket-Transferred windows asio 3 wire 1 (omega arith) counting 5 (windows-Behaves 5)
      windows-KeepsWire options [] after.world.sent (λ by. windows-IsUnmixed) remote info 7 process
      (omega arith) (omega arith) (omega arith) (omega arith) (refl, inl refl)
      (λ q e. ap (λ (o : Result UsoThrow (Unit {0}) × Process World). join o.1.world.sent) (sym e))
