-- ===== src/Server/Uro.antt =====
-- `uro_recv_msg` of uso_recv_win.cpp, and `receive_uro_datagram` of server.cpp, which are for
-- Windows. The call of Windows is a parameter, on a state of the world.
pub mod Settled
pub mod Configure
pub mod Choice
mod Tests
use udp_test.Base.{
  [], ℕ, ◌*◌, Bool, true, false, not, ◌&&◌, ◌||◌, Option, none, some, List, ◌∷◌, ltb, ◌==◌,
  if◌then◌else◌, Result, returned, thrown,
}
use udp_test.Crc.{Bytes}
use udp_test.Server.State.{Receiver}
use udp_test.Server.Ingest.{is_empty, ingest_fragment}

-- `kUroMaxCoalescedRecv`
abbrev pub uro_max_coalesced_recv : ℕ
uro_max_coalesced_recv = 64 * 1024

-- A control message: its level, its type, whether it is long enough for a `DWORD`, and that value.
pub record Control : Type 0 where
  pub is_udp : Bool
  pub is_coalesced_info : Bool
  pub holds_dword : Bool
  pub value : ℕ

-- What `WSARecvMsg` receives.
pub record Message : Type 0 where
  pub bytes : Bytes
  pub has_endpoint : Bool
  pub controls : List Control

-- The errors that are told, but for the text.
pub data UroError : Type 0 where
  invalid_buffer_size not_available : UroError
  failed : ℕ → UroError

-- `bytes_received` is the number of the bytes at the front of the buffer.
pub record UroRecvResult : Type 0 where
  pub success : Bool
  pub received : Bytes
  pub coalesced : Bool
  pub segment_size : ℕ
  pub have_remote : Bool
  pub error : Option UroError

abbrev no_result : UroRecvResult
no_result = record {
  success = false;
  received = [];
  coalesced = false;
  segment_size = 0;
  have_remote = false;
  error = none;
}

-- The loop over the control messages: the first that tells of coalescing ends it.
unfoldable pub read_controls : List Control → UroRecvResult → UroRecvResult
read_controls [] result = result
read_controls (cm ∷ controls) result =
    let rest = read_controls controls result in
    if cm.is_udp && (cm.is_coalesced_info && cm.holds_dword)
    then record result { coalesced = true; segment_size = cm.value }
    else rest

-- `err == WSAETIMEDOUT || err == WSAEWOULDBLOCK`
abbrev is_wsa_timeout : ℕ → Bool
is_wsa_timeout err = err == 10060 || err == 10035

-- What is made of the outcome of `WSARecvMsg`.
unfoldable pub of_outcome : Result ℕ Message → UroRecvResult
of_outcome (thrown err) =
    if is_wsa_timeout err then no_result else record no_result { error = some (failed err) }
of_outcome (returned msg) =
    read_controls msg.controls
      (record no_result { success = true; received = msg.bytes; have_remote = msg.has_endpoint })

-- The `static` variables of `resolve_wsarecvmsg`: whether the pointer has been asked for, and
-- whether it is not null.
pub record Pointer : Type 0 where
  pub resolved : Bool
  pub found : Bool

-- Windows, on a state of the process that holds the pointer: `WSAIoctl`, which gives nothing on
-- `SOCKET_ERROR` and else tells whether the pointer is not null, and `WSARecvMsg` with a buffer of a
-- given size.
pub record WindowsReceive (W : Type 0) : Type 0 where
  pub pointer : W → Pointer
  pub store : Pointer → W → W
  pub ioctl : W → Option Bool × W
  pub wsarecvmsg : ℕ → W → Result ℕ Message × W

-- What `receive_uro_datagram` can throw; `stuck` marks a call of `ingest_fragment` that is cut off.
pub data UroThrow : Type 0 where
  runtime_error : UroError → UroThrow
  stuck : UroThrow

abbrev taken_in : Option Receiver → Result UroThrow (Bool × Receiver)
taken_in (some r) = returned (true, r)
taken_in none = thrown stuck

abbrev is_silent : Option UroError → Bool
is_silent none = true
is_silent (some e) = false

-- The error is thrown, if there is one.
abbrev tell : Receiver → Option UroError → Result UroThrow (Bool × Receiver)
tell r none = returned (false, r)
tell r (some e) = thrown (runtime_error e)

-- `receive_uro_datagram` after the call of `uro_recv_msg`.
take_result : Receiver → UroRecvResult → Result UroThrow (Bool × Receiver)
take_result r result =
    if not result.success
    then (if is_empty result.received && is_silent result.error
        then returned (false, r)
        else tell r result.error)
    else if is_empty result.received
    then returned (false, r)
    else taken_in (ingest_fragment result.received r)

module _ {W : Type 0} (windows : WindowsReceive W) where
  -- The pointer after `WSAIoctl`, where it has been found.
  abbrev of_ioctl : Option Bool × W → Bool × W
  of_ioctl (none, w) = (false, w)
  of_ioctl (some fn, w) = (fn, windows.store (record { resolved = true; found = fn }) w)

  -- The pointer is asked for once: after a failure it stays null.
  unfoldable pub resolve_wsarecvmsg : W → Bool × W
  resolve_wsarecvmsg w =
      let pointer = windows.pointer w in
      let asked = windows.ioctl (windows.store (record pointer { resolved = true }) w) in
      if pointer.resolved then (pointer.found, w) else of_ioctl asked

  unfoldable pub uro_recv_msg : ℕ → W → UroRecvResult × W
  uro_recv_msg buffer_capacity w =
      let (available, w') = resolve_wsarecvmsg w in
      let (outcome, w'') = windows.wsarecvmsg buffer_capacity w' in
      if buffer_capacity == 0 || ltb uro_max_coalesced_recv buffer_capacity
      then (record no_result { error = some invalid_buffer_size }, w)
      else if not available
      then (record no_result { error = some not_available }, w')
      else (of_outcome outcome, w'')

  -- Whether something came, with the receiver and the world after it.
  pub receive_uro_datagram : ℕ → Receiver → W → Result UroThrow (Bool × Receiver) × W
  receive_uro_datagram buffer_size r w =
      let (result, w') = uro_recv_msg buffer_size w in (take_result r result, w')
