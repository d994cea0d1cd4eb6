-- ===== src/Uso/Tests.antt =====
-- Witnesses for the theorems on the sending of batches on Windows.
use udp_test.Base.{
  ℕ, ◌≡◌, refl, arith, inl, inr, true, false, List, [], ◌∷◌, returned, ap, Bool-cases, ◌==◌, ◌*◌,
  ◌⊎◌,
}
use udp_test.Crc.{Bytes}
use udp_test.Windows.{
  Endpoint, Process, SendMessage, inet, no_statics, SocketOption, so_reuseaddr, so_sndbuf,
  udp_send_msg_size,
}
use udp_test.Windows.Address.{IsFaithful, Stored, endpoint_to_sockaddr-Stored}
use udp_test.Windows.Ends.{Ends}
use udp_test.Uso.{UsoSendResult, bind_only, plain, pktinfo_ifindex, succeeded}
use udp_test.Uso.Wire.{Never}
use udp_test.Uso.Buffer.{Sending, send_buffer_uso}
use udp_test.Uso.Route.{UsoBindInfo, resolve_uso_bind_address}
use udp_test.Uso.Route.Chosen.{resolve_uso_bind_address-Chosen, Chosen, Refused, TellsTable}
use udp_test.Uso.Socket.{create_uso_udp_socket}
use udp_test.Uso.Socket.Opened.{KeepsSockets, Opened, Undone, create_uso_udp_socket-Opened}
use udp_test.Uso.Settled.{Settled, send_buffer_uso-Settled}
use udp_test.Uso.Message.{invoke}
use udp_test.Uso.Samples.{
  asio, World, fresh_world, windows, wire, windows-Behaves, windows-IsUnmixed, mixed, adapters,
}

abbrev process : Process World
process = record { statics = no_statics; world = fresh_world }

abbrev target : Endpoint ℕ
target = record { address = 9; port = 5000 }

abbrev by_routine : Sending ℕ
by_routine = record {
  sock = 5;
  mss = 2;
  target = target;
  source_address = 3;
  interface_index = 2;
  no_pktinfo = false;
  completion_routine = true;
}

abbrev batch : Bytes
batch = 1 ∷ 2 ∷ 3 ∷ 4 ∷ 5 ∷ []

-- Three segments, with the source's control message, after two waits.
run :
    (send_buffer_uso windows asio 3 by_routine batch process).0
    ≡ returned (succeeded pktinfo_ifindex 3 5)
unfolding send_buffer_uso udp_test.Uso.resolve_wsasendmsg udp_test.Uso.Buffer.send_attempts
    udp_test.Uso.Route.source_address_is_unspecified udp_test.Uso.Message.try_wsasendmsg_uso
    udp_test.Windows.Address.endpoint_to_sockaddr udp_test.Uso.Message.source_control
    udp_test.Uso.Message.send_segmented udp_test.Uso.configure_udp_send_segment_size
    udp_test.Uso.resolve_set_udp_send_message_size udp_test.Uso.Message.invoke_wsasendmsg
    udp_test.Uso.Message.wait_completed
run = refl

send_buffer_uso-Settled_example :
    Ends
      (Settled wire by_routine [] batch)
      Never
      (send_buffer_uso windows asio 3 by_routine batch process)
send_buffer_uso-Settled_example =
    send_buffer_uso-Settled wire by_routine [] batch windows asio 3 1 (windows-Behaves 5)
      (omega arith) (λ by. windows-IsUnmixed) process (refl, inl refl)

abbrev sockets : World → List ℕ
sockets w = w.sockets

windows-KeepsSockets : KeepsSockets windows sockets
windows-KeepsSockets = record {
  wsa_startup = λ w. refl;
  refused = λ w h. absurd (cc h);
  opened = λ s w h. let same : 5 ≡ s = cc h in ap (λ k. k ∷ w.sockets) same;
  setsockopt = sets;
  bind = λ s a w. refl;
  closesocket = λ s l w h. rw h refl;
}
  where
    sets :
        (s : ℕ) (option : SocketOption) (n : ℕ) (w : World)
        → sockets (windows.setsockopt s option n w).1 ≡ sockets w
    sets s so_reuseaddr n w = refl
    sets s so_sndbuf n w = refl
    sets s udp_send_msg_size n w = refl

create_uso_udp_socket-Opened_example :
    Ends
      (Opened sockets [] asio "10.0.0.3")
      (Undone sockets [] asio "10.0.0.3")
      (create_uso_udp_socket windows asio "10.0.0.3" process)
create_uso_udp_socket-Opened_example =
    create_uso_udp_socket-Opened windows sockets windows-KeepsSockets [] asio "10.0.0.3" process
      refl

windows-TellsTable : TellsTable asio windows adapters
windows-TellsTable size w = elim (Bool-cases (size == 15 * 1024)) [
  | inl first ↦ rw first tt
  | inr again ↦ rw again refl
]

resolve_uso_bind_address-Chosen_example :
    Ends
      (Chosen asio adapters "0.0.0.0")
      (Refused asio "0.0.0.0")
      (resolve_uso_bind_address asio windows "0.0.0.0" target process)
resolve_uso_bind_address-Chosen_example =
    resolve_uso_bind_address-Chosen asio windows adapters windows-TellsTable "0.0.0.0" target
      process

asio-IsFaithful : IsFaithful asio
asio-IsFaithful = record { version = versions; v4_again = λ a v4. refl; v6_again = λ a v6. refl }
  where
    versions : (a : ℕ) → (asio.is_v4 a ≡ true) ⊎ (asio.is_v6 a ≡ true)
    versions a = ground arith

endpoint_to_sockaddr-Stored_example : Stored asio target
endpoint_to_sockaddr-Stored_example =
    endpoint_to_sockaddr-Stored asio asio-IsFaithful target (omega arith)

abbrev message : SendMessage
message = record { name = inet 7 (2 ∷ []); buffer = batch; control = [] }

-- A first message that is done at once leaves its routine queued.
abbrev one_sent : Process World
one_sent = (invoke mixed 2 5 true message process).1
