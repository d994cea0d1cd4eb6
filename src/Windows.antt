-- ===== src/Windows.antt =====
-- What uso_send_win.cpp and client.cpp use of Windows and of Boost.Asio, as parameters on a state
-- of the world; the function-local `static` variables, and the action of a call that may throw.
pub mod Address
pub mod Ends
use Prim.Native.String.{String}
use udp_test.Base.{ℕ, Bool, false, Option, List, Result, returned, thrown}
use udp_test.Crc.{Bytes}

-- A socket address in memory: the port's two bytes are swapped, as `htons` leaves them.
pub data Sockaddr : Type 0 where
  unspec : Sockaddr
  inet : (sin_port : ℕ) → (sin_addr : Bytes) → Sockaddr
  inet6 : (sin6_port sin6_scope_id : ℕ) → (sin6_addr : Bytes) → Sockaddr

pub record Endpoint (Address : Type 0) : Type 0 where
  pub address : Address
  pub port : ℕ

-- `boost::asio::ip`. `make_address` gives nothing where it throws.
pub record Asio (Address V4 V6 : Type 0) : Type 0 where
  pub is_v4 : Address → Bool
  pub is_v6 : Address → Bool
  pub to_v4 : Address → V4
  pub to_v6 : Address → V6
  pub from_v4 : V4 → Address
  pub from_v6 : V6 → Address
  pub v4_to_bytes : V4 → Bytes
  pub v4_from_bytes : Bytes → V4
  pub v6_to_bytes : V6 → Bytes
  pub v6_from_bytes : Bytes → ℕ → V6
  pub scope_id : V6 → ℕ
  pub v4_any : V4
  pub v6_any : V6
  pub is_unspecified : Address → Bool
  pub v4_is_unspecified : V4 → Bool
  pub v4_is_loopback : V4 → Bool
  pub v6_is_unspecified : V6 → Bool
  pub v4_to_string : V4 → String
  pub make_address : String → Option Address

-- The control messages of a `WSAMSG` to send.
pub data SendControl : Type 0 where
  pktinfo : (ipi_addr : Bytes) → (ipi_ifindex : ℕ) → SendControl
  pktinfo6 : (ipi6_addr : Bytes) → (ipi6_ifindex : ℕ) → SendControl
  send_msg_size : ℕ → SendControl

-- `WSAMSG`, with one buffer.
pub record SendMessage : Type 0 where
  pub name : Sockaddr
  pub buffer : Bytes
  pub control : List SendControl

pub data SocketOption : Type 0 where
  so_reuseaddr so_sndbuf udp_send_msg_size : SocketOption

-- An adapter of `GetAdaptersAddresses`; an address that is absent is a null pointer.
pub record Adapter : Type 0 where
  pub is_up : Bool
  pub if_index : ℕ
  pub ipv6_if_index : ℕ
  pub unicast : List (Option Sockaddr)

pub data AdaptersAnswer : Type 0 where
  no_error : List Adapter → AdaptersAnswer
  buffer_overflow : ℕ → AdaptersAnswer
  other_error : AdaptersAnswer

-- A completion routine that is called: the address of its overlapped structure, which is that of the
-- context that it reports to, and its other arguments.
pub record Routine : Type 0 where
  pub overlapped : ℕ
  pub error : ℕ
  pub cb_transferred : ℕ

-- The calls of Windows. A Boolean says that a call has succeeded or found what it looks for; an
-- `Option` is `none` on `SOCKET_ERROR`. `wsasendmsg_overlapped` and `sleep_ex` tell the
-- completion routines that have run meanwhile, of this send or of an earlier one. `frame` is the
-- address that a local context gets.
pub record Winsock (W : Type 0) : Type 0 where
  pub last_error : W → ℕ
  pub wsa_startup : W → Bool × W
  pub get_ws2 : W → Bool × W
  pub load_ws2 : W → Bool × W
  pub get_set_size : W → Bool × W
  pub set_size : ℕ → ℕ → W → Bool × W
  pub get_sendmsg : ℕ → W → Option Bool × W
  pub setsockopt : ℕ → SocketOption → ℕ → W → Bool × W
  pub sendto : ℕ → Bytes → Sockaddr → W → Option ℕ × W
  pub wsasendmsg : ℕ → SendMessage → W → Option ℕ × W
  pub frame : W → ℕ
  pub wsasendmsg_overlapped : ℕ → SendMessage → ℕ → W → Option ℕ × (List Routine × W)
  pub sleep_ex : W → List Routine × W
  pub first_control : SendMessage → Bool
  pub next_control : SendMessage → Bool
  pub wsa_socket : W → Option ℕ × W
  pub bind : ℕ → Sockaddr → W → Bool × W
  pub closesocket : ℕ → W → W
  pub getsockname : ℕ → W → Option Sockaddr × W
  pub best_interface : Sockaddr → W → Option ℕ × W
  pub adapters_addresses : ℕ → W → AdaptersAnswer × W

-- The `static` variables of `ensure_winsock_initialized`, `resolve_set_udp_send_message_size` and
-- `resolve_wsasendmsg`; of a function pointer, whether it is not null.
pub record Statics : Type 0 where
  pub initialized : Bool
  pub ok : Bool
  pub set_size_resolved : Bool
  pub set_size_found : Bool
  pub sendmsg_resolved : Bool
  pub sendmsg_found : Bool

abbrev pub no_statics : Statics
no_statics = record {
  initialized = false;
  ok = false;
  set_size_resolved = false;
  set_size_found = false;
  sendmsg_resolved = false;
  sendmsg_found = false;
}

pub record Process (W : Type 0) : Type 0 where
  pub statics : Statics
  pub world : W

-- A call that may throw. What it has changed stays changed then.
abbrev pub Action : Type 0 → Type 0 → Type 0 → Type 0
Action E S A = S → Result E A × S

module _ {E S : Type 0} where
  abbrev pub pure : {A : Type 0} → A → Action E S A
  pure a s = (returned a, s)

  abbrev pub throw : {A : Type 0} → E → Action E S A
  throw e s = (thrown e, s)

  abbrev then_run : {A B : Type 0} → (A → Action E S B) → Result E A × S → Result E B × S
  then_run f (returned a, s) = f a s
  then_run f (thrown e, s) = (thrown e, s)

  infixl 5 ◌>>=◌ ◌>>◌
  abbrev pub ◌>>=◌ : {A B : Type 0} → Action E S A → (A → Action E S B) → Action E S B
  ◌>>=◌ m f s = then_run f (m s)

  abbrev pub ◌>>◌ : {A B : Type 0} → Action E S A → Action E S B → Action E S B
  m >> k = m >>= (λ _. k)

module _ {E W : Type 0} where
  -- A call of Windows.
  abbrev pub call : {A : Type 0} → (W → A × W) → Action E (Process W) A
  call f p = let (a, w) = f p.world in (returned a, record p { world = w })

  abbrev pub get_statics : Action E (Process W) Statics
  get_statics p = (returned p.statics, p)

  abbrev pub set_statics : Statics → Action E (Process W) Unit
  set_statics statics p = (returned tt, record p { statics = statics })

  abbrev pub read_world : {A : Type 0} → (W → A) → Action E (Process W) A
  read_world f p = (returned (f p.world), p)
