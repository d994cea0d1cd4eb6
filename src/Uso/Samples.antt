-- ===== src/Uso/Samples.antt =====
-- A small Windows, and a small Boost.Asio, to run the model on.
use Prim.Native.String.{String}
use text.Mathlib.Text.{◌==◌ as str_eq}
use udp_test.Base.{
  ℕ, zero, suc, ltb, arith, ◌*◌, ◌≡◌, refl, Bool, true, false, not, Option, none, some, List, [],
  ◌∷◌, ◌++◌, ◌==◌, if◌then◌else◌, length, inl,
}
use udp_test.Crc.{Bytes}
use udp_test.Client.Segments.{datagrams}
use udp_test.Windows.{
  Routine, inet, Asio, SendMessage, SocketOption, udp_send_msg_size, Adapter, no_error,
  buffer_overflow, Winsock,
}
use udp_test.Uso.Wire.{Wire, size_of, IsWait, Behaves, Pending, under_way, IsUnmixed}

-- Addresses are numbers: version 4 below 10, and 7 is the loopback. The last byte is the number.
abbrev pub asio : Asio ℕ ℕ ℕ
asio = record {
  is_v4 = λ a. ltb a 10;
  is_v6 = λ a. not (ltb a 10);
  to_v4 = λ a. a;
  to_v6 = λ a. a;
  from_v4 = λ a. a;
  from_v6 = λ a. a;
  v4_to_bytes = λ a. a ∷ [];
  v4_from_bytes = first_byte;
  v6_to_bytes = λ a. a ∷ [];
  v6_from_bytes = λ bytes scope. first_byte bytes;
  scope_id = λ a. 0;
  v4_any = 0;
  v6_any = 10;
  is_unspecified = λ a. a == 0;
  v4_is_unspecified = λ a. a == 0;
  v4_is_loopback = λ a. a == 7;
  v6_is_unspecified = λ a. a == 10;
  v4_to_string = name_of;
  make_address = address_of;
}
  where
    first_byte : Bytes → ℕ
    first_byte [] = 0
    first_byte (b ∷ bytes) = b

    name_of : ℕ → String
    name_of a = if a == 3 then "10.0.0.3" else "10.0.0.2"

    address_of : String → Option ℕ
    address_of text =
        if str_eq text "10.0.0.3" then some 3 else if str_eq text "10.0.0.2" then some 2 else none

pub record World : Type 0 where
  pub sent : List Bytes
  pub size : ℕ
  pub under_way : Option Pending
  pub queued : List Routine
  pub sockets : List ℕ
  pub error : ℕ

abbrev pub fresh_world : World
fresh_world = record { sent = []; size = 0; under_way = none; queued = []; sockets = []; error = 0 }

abbrev add : List Bytes → World → World
add ds w = record w { sent = w.sent ++ ds }

abbrev message_datagrams : SendMessage → World → List Bytes
message_datagrams msg w = datagrams (size_of msg.control w.size) msg.buffer

-- The second interface has an address for the route; the first is down.
abbrev pub adapters : List Adapter
adapters =
    record { is_up = false; if_index = 2; ipv6_if_index = 2; unicast = some (inet 0 (4 ∷ [])) ∷ [] }
    ∷ record {
      is_up = true;
      if_index = 2;
      ipv6_if_index = 6;
      unicast = none ∷ some (inet 0 (7 ∷ [])) ∷ some (inet 0 (3 ∷ [])) ∷ [];
    }
    ∷ []

-- Calls with an overlapped structure stay under way for a wait, and then are completed.
abbrev wait_on : World → ℕ → SendMessage → ℕ → List Routine × World
wait_on w a msg zero = (
  record { overlapped = a; error = 0; cb_transferred = length msg.buffer } ∷ [],
  record w { sent = w.sent ++ message_datagrams msg w },
)
wait_on w a msg (suc n) = ([], record w { under_way = under_way a msg n })

abbrev wait_if : World → Option Pending → List Routine × World
wait_if w none = ([], w)
wait_if w (some m) = wait_on w m.overlapped m.message m.waits

-- `WSASetUdpSendMessageSize` is missing, and the first buffer for the adapters is too small.
abbrev pub windows : Winsock World
windows = record {
  last_error = λ w. w.error;
  wsa_startup = λ w. (true, w);
  get_ws2 = λ w. (true, w);
  load_ws2 = λ w. (true, w);
  get_set_size = λ w. (false, w);
  set_size = λ sock n w. (true, record w { size = n });
  get_sendmsg = λ sock w. (some true, w);
  setsockopt = set_option;
  sendto = λ sock d a w. (some (length d), add (datagrams w.size d) w);
  wsasendmsg = λ sock msg w. (some (length msg.buffer), add (message_datagrams msg w) w);
  frame = λ w. 4096;
  wsasendmsg_overlapped =
      λ sock msg a w. (none, ([], record w { under_way = under_way a msg 1; error = 997 }));
  sleep_ex = λ w. wait_if w w.under_way;
  first_control = λ msg. true;
  next_control = λ msg. true;
  wsa_socket = λ w. (some 5, record w { size = 0; sockets = 5 ∷ w.sockets });
  bind = λ sock a w. (true, w);
  closesocket = λ sock w. record w { sockets = without w.sockets };
  getsockname = λ sock w. (some (inet 0 (3 ∷ [])), w);
  best_interface = λ a w. (some 2, w);
  adapters_addresses =
      λ size w. (if size == 15 * 1024 then buffer_overflow 20000 else no_error adapters, w);
}
  where
    set_option : ℕ → SocketOption → ℕ → World → Bool × World
    set_option sock udp_send_msg_size n w = (true, record w { size = n })
    set_option sock other n w = (true, w)

    without : List ℕ → List ℕ
    without [] = []
    without (s ∷ sockets) = sockets

abbrev pub wire : Wire World
wire = record { sent = λ w. w.sent; size_set = λ w. w.size; pending = λ w. w.under_way }

waits :
    (a : ℕ) (msg : SendMessage) (n : ℕ) (w : World)
    → w.under_way ≡ under_way a msg n
    → IsWait wire a msg n w (wait_if w w.under_way)
waits a msg zero w h = rw h (refl, inl (refl, refl, (refl, refl)))
waits a msg (suc n) w h = rw h (n, refl, refl, (refl, refl))

pub windows-IsUnmixed : IsUnmixed windows
windows-IsUnmixed = inl (λ sock msg a w. refl)

pub windows-Behaves : (sock : ℕ) → Behaves windows wire sock 1
windows-Behaves sock = record {
  get_ws2 = λ w. (refl, refl);
  load_ws2 = λ w. (refl, refl);
  get_set_size = λ w. (refl, refl);
  get_sendmsg = λ w. (refl, refl);
  best_interface = λ a w. (refl, refl);
  set_size = λ n w. (refl, refl);
  setsockopt = λ n w. (refl, refl);
  sendto = λ d a w. (refl, (refl, refl));
  wsasendmsg = λ msg w. (refl, (refl, refl));
  wsasendmsg_overlapped = λ msg a w. ((refl, refl), (λ pending. (1, omega arith, refl)));
  sleep_ex = λ no_stale. waits;
}

-- Where nothing has been sent yet, a call is done at once, and its routine stays queued.
abbrev mixed_send : SendMessage → ℕ → World → List Bytes → Option ℕ × (List Routine × World)
mixed_send msg a w [] =
    let r : Routine = record { overlapped = a; error = 0; cb_transferred = length msg.buffer } in
    (
      some (length msg.buffer),
      ([], record w { sent = w.sent ++ message_datagrams msg w; queued = w.queued ++ r ∷ [] }),
    )
mixed_send msg a w (d ∷ ds) = (none, ([], record w { under_way = under_way a msg 1; error = 997 }))

abbrev pub mixed : Winsock World
mixed = record windows {
  wsasendmsg_overlapped = λ sock msg a w. mixed_send msg a w w.sent;
  sleep_ex = λ w. (w.queued, record w { queued = [] });
}
