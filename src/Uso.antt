-- ===== src/Uso.antt =====
-- `send_buffer_uso` of uso_send_win.cpp and uso_send.hpp, from the cached function pointers to the
-- attempts of one batch.
pub mod Route
pub mod Message
pub mod Buffer
pub mod Wire
pub mod Quiet
pub mod Attempt
pub mod Sent
pub mod Settled
pub mod Stale
pub mod Socket
pub mod Faultless
pub mod Samples
mod Tests
use udp_test.Base.{
  List, [], ◌∷◌, ℕ, ◌+◌, ◌-◌, ◌/◌, Bool, true, false, not, Option, none, some, ◌==◌, if◌then◌else◌,
  u64,
}
use udp_test.Packet.{BuildError}
use udp_test.Windows.{
  Routine, udp_send_msg_size, Winsock, Statics, Process, Action, pure, throw, ◌>>=◌, ◌>>◌, call,
  get_statics, set_statics, read_world,
}

pub data UsoSendPath : Type 0 where
  no_path plain bind_only pktinfo_ifindex : UsoSendPath

-- The errors that are told, but for the text.
pub data UsoError : Type 0 where
  empty_batch exceeds_max invalid_mss unsupported_family : UsoError
  short_plain_send not_available not_implemented : UsoError
  sendto_failed wsasendmsg_failed : ℕ → UsoError

pub record UsoSendResult : Type 0 where
  pub success : Bool
  pub segments_sent : ℕ
  pub total_bytes : ℕ
  pub path : UsoSendPath
  pub error : Option UsoError

-- What the calls of a client on Windows can throw. `unfinished` marks a wait that has not come to
-- its end within the waits given.
pub data UsoThrow : Type 0 where
  wsa_startup_failed bad_address needs_ipv4 unfinished : UsoThrow
  wsa_socket_failed so_reuseaddr_failed so_sndbuf_failed bind_failed getsockname_failed :
      ℕ → UsoThrow
  send_failed : Option UsoError → UsoThrow
  build : BuildError → UsoThrow

-- A result with an error, and one of a batch that went out.
abbrev failed : UsoError → UsoSendResult
failed e = record {
  success = false;
  segments_sent = 0;
  total_bytes = 0;
  path = no_path;
  error = some e;
}

abbrev succeeded : UsoSendPath → ℕ → ℕ → UsoSendResult
succeeded path segments total_size = record {
  success = true;
  segments_sent = segments;
  total_bytes = total_size;
  path = path;
  error = none;
}

-- The stub on other platforms.
unfoldable send_buffer_uso_stub : UsoSendResult
send_buffer_uso_stub = failed not_implemented

abbrev wsaeinval : ℕ
wsaeinval = 10022

abbrev wsa_io_pending : ℕ
wsa_io_pending = 997

-- `(total_size + mss - 1) / mss`
abbrev segment_count : ℕ → ℕ → ℕ
segment_count total_size mss = u64 (total_size + mss - 1) / mss

-- `WsaSendMsgIoContext`; of the overlapped structure, its address
record IoContext : Type 0 where
  pub overlapped : ℕ
  pub completed : Bool
  pub io_error : ℕ
  pub bytes_transferred : ℕ

abbrev no_context : ℕ → IoContext
no_context overlapped = record {
  overlapped = overlapped;
  completed = false;
  io_error = 0;
  bytes_transferred = 0;
}

-- `wsasendmsg_completion_routine` reports to the context at the address of its overlapped
-- structure, which may be that of a call which has returned.
abbrev after_routine : Routine → IoContext → IoContext
after_routine r ctx =
    if r.overlapped == ctx.overlapped
    then record {
      overlapped = ctx.overlapped;
      completed = true;
      io_error = r.error;
      bytes_transferred = r.cb_transferred;
    }
    else ctx

abbrev after_routines : List Routine → IoContext → IoContext
after_routines [] ctx = ctx
after_routines (r ∷ routines) ctx = after_routines routines (after_routine r ctx)

-- What `invoke_wsasendmsg` gives back and stores.
record Invoked : Type 0 where
  pub sent : Bool
  pub bytes_sent : ℕ
  pub wsa_error : ℕ

abbrev pub Step : Type 0 → Type 0 → Type 0
Step W A = Action UsoThrow (Process W) A

-- The end of a call by the error code.
abbrev of_last_error : ℕ → Invoked
of_last_error err = record { sent = false; bytes_sent = 0; wsa_error = err }

-- After the wait for the completion routine.
abbrev of_context : IoContext → Invoked
of_context ctx =
    if not (ctx.io_error == 0)
    then of_last_error ctx.io_error
    else record { sent = true; bytes_sent = ctx.bytes_transferred; wsa_error = wsa_io_pending }

module _ {W : Type 0} (os : Winsock W) where
  abbrev startup : Statics → Step W Bool
  startup statics =
      call os.wsa_startup
      >>= (λ ok. set_statics (record statics { ok = ok; initialized = true }) >> pure ok)

  -- Windows sockets are started once; a failure is told again at each call.
  pub ensure_winsock_initialized : Step W Unit
  ensure_winsock_initialized =
      get_statics
      >>= (λ statics. if not statics.initialized then startup statics else pure statics.ok)
      >>= (λ ok. if not ok then throw wsa_startup_failed else pure tt)

  -- `GetModuleHandleW`, and `LoadLibraryW` where it finds none.
  abbrev find_ws2 : Step W Bool
  find_ws2 = call os.get_ws2 >>= (λ ws2. if not ws2 then call os.load_ws2 else pure ws2)

  abbrev look_for_set_size : Statics → Bool → Step W Bool
  look_for_set_size statics false = pure false
  look_for_set_size statics true = call os.get_set_size >>= (λ fn.
      set_statics (record statics { set_size_resolved = true; set_size_found = fn }) >> pure fn)

  -- Whether the function pointer is there, which is looked for once.
  unfoldable pub resolve_set_udp_send_message_size : Step W Bool
  resolve_set_udp_send_message_size = get_statics >>= (λ statics.
      if statics.set_size_resolved
      then pure statics.set_size_found
      else set_statics (record statics { set_size_resolved = true })
        >> (find_ws2 >>= look_for_set_size statics))

  -- A call that has failed leaves its code in `wsa_error`; 0 stands for success.
  abbrev error_unless : Bool → Step W (Bool × ℕ)
  error_unless true = pure (true, 0)
  error_unless false = read_world os.last_error >>= (λ err. pure (false, err))

  unfoldable pub configure_udp_send_segment_size : ℕ → ℕ → Step W (Bool × ℕ)
  configure_udp_send_segment_size sock mss =
      resolve_set_udp_send_message_size
      >>= (λ set_size.
          if set_size
          then call (os.set_size sock mss)
          else call (os.setsockopt sock udp_send_msg_size mss))
      >>= error_unless

  abbrev look_for_sendmsg : Statics → Option Bool → Step W Bool
  look_for_sendmsg statics none =
      set_statics (record statics { sendmsg_resolved = true }) >> pure false
  look_for_sendmsg statics (some fn) =
      set_statics (record statics { sendmsg_resolved = true; sendmsg_found = fn }) >> pure fn

  -- The pointer is asked for once: after a failure it stays null.
  unfoldable pub resolve_wsasendmsg : ℕ → Step W Bool
  resolve_wsasendmsg probe_socket = get_statics >>= (λ statics.
      if statics.sendmsg_resolved
      then pure statics.sendmsg_found
      else call (os.get_sendmsg probe_socket) >>= look_for_sendmsg statics)
