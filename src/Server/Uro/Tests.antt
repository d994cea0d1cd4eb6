-- ===== src/Server/Uro/Tests.antt =====
-- A coalesced read of two segments, and a read that times out.
use udp_test.Base.{ℕ, some, ◌≡◌, refl, arith, true, false, [], ◌∷◌, returned, thrown}
use udp_test.Packet.Samples.{first_batch}
use udp_test.Server.State.{fresh_receiver}
use udp_test.Server.Scan.{max_batch_size}
use udp_test.Server.Uro.{
  Message, read_controls, of_outcome, WindowsReceive, Pointer, resolve_wsarecvmsg, take_result,
  uro_recv_msg, receive_uro_datagram,
}
use udp_test.Windows.Ends.{Ends}
use udp_test.Server.Uro.Configure.{
  CoalescedSize, uro_configure_recv_socket, set_udp_recv_max_coalesced_size,
  get_udp_recv_max_coalesced_size, Configured, NotConfigured, Tells,
  uro_configure_recv_socket-Configured,
}
use udp_test.Server.Uro.Settled.{TakesFrom, receive_uro_datagram-TakesFrom}

abbrev coalesced_message : Message
coalesced_message = record {
  bytes = first_batch;
  has_endpoint = true;
  controls =
      record { is_udp = false; is_coalesced_info = false; holds_dword = true; value = 1 }
      ∷ record { is_udp = true; is_coalesced_info = true; holds_dword = true; value = 12 }
      ∷ [];
}

abbrev coalescing : WindowsReceive Pointer
coalescing = record {
  pointer = λ w. w;
  store = λ pointer w. pointer;
  ioctl = λ w. (some true, w);
  wsarecvmsg = λ n w. (returned coalesced_message, w);
}

abbrev late : WindowsReceive Pointer
late = record coalescing { wsarecvmsg = λ n w. (thrown 10060, w) }

abbrev unasked : Pointer
unasked = record { resolved = false; found = false }

segments_told : (uro_recv_msg coalescing max_batch_size unasked).0.segment_size ≡ 12
unfolding uro_recv_msg resolve_wsarecvmsg of_outcome read_controls
segments_told = refl

nothing_came :
    receive_uro_datagram late max_batch_size fresh_receiver unasked
    ≡ (returned (false, fresh_receiver), record { resolved = true; found = true })
unfolding receive_uro_datagram take_result uro_recv_msg resolve_wsarecvmsg of_outcome
nothing_came = refl

receive_uro_datagram-TakesFrom_example :
    TakesFrom fresh_receiver true
      (returned coalesced_message)
      (receive_uro_datagram coalescing max_batch_size fresh_receiver unasked).0
unfolding receive_uro_datagram resolve_wsarecvmsg
receive_uro_datagram-TakesFrom_example =
    receive_uro_datagram-TakesFrom coalescing fresh_receiver unasked (omega arith)

-- A Windows whose sockets take a size of any sort and tell it.
abbrev sized : CoalescedSize ℕ
sized = record {
  last_error = λ w. 0;
  get_set_fn = λ w. (true, w);
  set_fn = λ n w. (true, n);
  setsockopt = λ n w. (true, n);
  get_get_fn = λ w. (false, w);
  get_fn = λ w. (some w, w);
  getsockopt = λ w. (some w, w);
}

configured : uro_configure_recv_socket sized 65536 0 ≡ (returned tt, 65536)
unfolding uro_configure_recv_socket set_udp_recv_max_coalesced_size get_udp_recv_max_coalesced_size
configured = refl

sized-Tells : Tells sized (λ w. w)
sized-Tells = record { get_fn = λ n w h. cc h; getsockopt = λ n w h. cc h }

uro_configure_recv_socket-Configured_example :
    Ends
      (Configured (λ w. w) 65536)
      (NotConfigured (λ w. w) 65536)
      (uro_configure_recv_socket sized 65536 0)
uro_configure_recv_socket-Configured_example =
    uro_configure_recv_socket-Configured sized (λ w. w) sized-Tells 65536 0
