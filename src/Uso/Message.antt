-- ===== src/Uso/Message.antt =====
-- `invoke_wsasendmsg`, `send_plain_datagram` and `try_wsasendmsg_uso` of uso_send_win.cpp.
use udp_test.Base.{
  ℕ, zero, suc, ltb, Bool, true, false, not, ◌&&◌, Option, none, some, List, [], ◌∷◌, ◌++◌, ◌==◌,
  if◌then◌else◌, length, u32,
}
use udp_test.Crc.{Bytes}
use udp_test.Windows.{
  Sockaddr, Endpoint, Asio, SendControl, pktinfo, pktinfo6, send_msg_size, SendMessage, Winsock,
  pure, throw, ◌>>=◌, call, read_world,
}
use udp_test.Windows.Address.{endpoint_to_sockaddr}
use udp_test.Uso.{
  UsoError, unsupported_family, short_plain_send, sendto_failed, unfinished, wsaeinval,
  wsa_io_pending, segment_count, IoContext, no_context, after_routines, Invoked, of_last_error,
  of_context, Step, configure_udp_send_segment_size,
}
use udp_test.Uso.Route.{source_address_is_unspecified, ipv4_interface_index, index_or_zero}

module _ {W : Type 0} (os : Winsock W) where
  -- The alertable wait: `while (... != 1) SleepEx(16, TRUE)`, with a bound on the waits.
  unfoldable pub wait_completed : ℕ → IoContext → Step W IoContext
  wait_completed zero ctx = throw unfinished
  wait_completed (suc waits) ctx =
      let again =
        call os.sleep_ex >>= (λ routines. wait_completed waits (after_routines routines ctx)) in
      if ctx.completed then pure ctx else again

  abbrev pub of_call : Option ℕ → Step W Invoked
  of_call (some bytes) = pure (record { sent = true; bytes_sent = bytes; wsa_error = 0 })
  of_call none = read_world os.last_error >>= (λ err. pure (of_last_error err))

  -- The routine's number counts, if it has run.
  abbrev at_once : IoContext → ℕ → Invoked
  at_once ctx sync_bytes = record {
    sent = true;
    bytes_sent = if ctx.completed then ctx.bytes_transferred else sync_bytes;
    wsa_error = 0;
  }

  abbrev pub of_pending : ℕ → IoContext → ℕ → Step W Invoked
  of_pending waits ctx err =
      if not (err == wsa_io_pending)
      then pure (of_last_error err)
      else wait_completed waits ctx >>= (λ ctx'. pure (of_context ctx'))

  abbrev pub of_overlapped : ℕ → IoContext → Option ℕ → Step W Invoked
  of_overlapped waits ctx (some sync_bytes) = pure (at_once ctx sync_bytes)
  of_overlapped waits ctx none = read_world os.last_error >>= of_pending waits ctx

  abbrev overlapped_call : ℕ → SendMessage → Step W (Option ℕ × IoContext)
  overlapped_call sock msg p =
      let overlapped = os.frame p.world in
      let (rc, (routines, w)) = os.wsasendmsg_overlapped sock msg overlapped p.world in
      pure (rc, after_routines routines (no_context overlapped)) (record p { world = w })

  unfoldable pub invoke_wsasendmsg : ℕ → ℕ → SendMessage → Bool → Step W Invoked
  invoke_wsasendmsg waits sock msg use_completion_routine =
      if not use_completion_routine
      then call (os.wsasendmsg sock msg) >>= of_call
      else overlapped_call sock msg >>= (λ (rc, ctx). of_overlapped waits ctx rc)

  abbrev not_tried : ℕ → Step W (Bool × ℕ)
  not_tried wsa_error = pure (false, wsa_error)

  -- Whether all of the buffer went, and `wsa_error`.
  abbrev pub of_invoked : ℕ → Invoked → Bool × ℕ
  of_invoked total_size invoked =
      (invoked.sent && (invoked.bytes_sent == u32 total_size), invoked.wsa_error)

  abbrev pub invoke : ℕ → ℕ → Bool → SendMessage → Step W (Bool × ℕ)
  invoke waits sock routine msg =
      invoke_wsasendmsg waits sock msg routine
      >>= (λ invoked. pure (of_invoked (length msg.buffer) invoked))

  abbrev pub when_configured : ℕ → ℕ → Bool → SendMessage → Bool × ℕ → Step W (Bool × ℕ)
  when_configured waits sock routine msg (true, cfg_error) = invoke waits sock routine msg
  when_configured waits sock routine msg (false, cfg_error) = not_tried cfg_error

  abbrev pub with_control : SendMessage → SendControl → SendMessage
  with_control msg control = record msg { control = msg.control ++ control ∷ [] }

  -- With more segments than one, the message says their size, and so does the socket.
  unfoldable pub send_segmented : ℕ → ℕ → ℕ → Bool → SendMessage → Step W (Bool × ℕ)
  send_segmented waits sock mss routine msg =
      if ltb 1 (segment_count (length msg.buffer) mss)
      then configure_udp_send_segment_size os sock (u32 mss)
        >>= when_configured waits sock routine (with_control msg (send_msg_size (u32 mss)))
      else invoke waits sock routine msg

  abbrev pub unless_full : ℕ → ℕ → ℕ → Bool → SendMessage → List SendControl → Step W (Bool × ℕ)
  unless_full waits sock mss routine msg [] = send_segmented waits sock mss routine msg
  unless_full waits sock mss routine msg (c ∷ cs) =
      let msg' = record msg { control = c ∷ cs } in
      if not (os.next_control msg')
      then not_tried wsaeinval
      else send_segmented waits sock mss routine msg'

  module _ {Address V4 V6 : Type 0} (asio : Asio Address V4 V6) where
    abbrev pub of_sendto : ℕ → Option ℕ → Step W (Option UsoError)
    of_sendto total_size none =
        read_world os.last_error >>= (λ err. pure (some (sendto_failed err)))
    of_sendto total_size (some sent) =
        pure (if not (sent == total_size) then some short_plain_send else none)

    abbrev pub sendto_stored : ℕ → Bytes → Option (Sockaddr × ℕ) → Step W (Option UsoError)
    sendto_stored sock batch none = pure (some unsupported_family)
    sendto_stored sock batch (some (dest, len)) =
        call (os.sendto sock batch dest) >>= of_sendto (length batch)

    -- The error, or `none` where the whole buffer went in one datagram.
    unfoldable pub send_plain_datagram : ℕ → Bytes → Endpoint Address → Step W (Option UsoError)
    send_plain_datagram sock batch target =
        sendto_stored sock batch (endpoint_to_sockaddr asio target)

    -- The `IP_PKTINFO` of a source of version 4: its interface is looked up where none is given.
    abbrev pub v4_pktinfo : ℕ → Address → Step W SendControl
    v4_pktinfo interface_index source =
        let addr = asio.v4_to_bytes (asio.to_v4 source) in
        if not (interface_index == 0)
        then pure (pktinfo addr interface_index)
        else ipv4_interface_index asio os (asio.to_v4 source)
          >>= (λ index. pure (pktinfo addr (index_or_zero asio os index)))

    -- The control messages for the source address.
    unfoldable pub source_control : Bool → ℕ → Address → Step W (List SendControl)
    source_control include_pktinfo interface_index source =
        if include_pktinfo && not (source_address_is_unspecified asio source)
        then (if asio.is_v6 source
            then pure (pktinfo6 (asio.v6_to_bytes (asio.to_v6 source)) 0 ∷ [])
            else v4_pktinfo interface_index source >>= (λ control. pure (control ∷ [])))
        else pure []

    abbrev pub try_stored :
        ℕ → ℕ → Bytes → ℕ → Address → Bool → ℕ → Bool → Option (Sockaddr × ℕ) → Step W (Bool × ℕ)
    try_stored waits sock batch mss source include_pktinfo interface_index routine none =
        not_tried wsaeinval
    try_stored waits sock batch mss source include_pktinfo interface_index routine
          (some (dest, len)) =
        let msg : SendMessage = record { name = dest; buffer = batch; control = [] } in
        if not (os.first_control msg)
        then not_tried wsaeinval
        else source_control include_pktinfo interface_index source
          >>= unless_full waits sock mss routine msg

    unfoldable pub try_wsasendmsg_uso :
        ℕ → ℕ → Bytes → ℕ → Endpoint Address → Address → Bool → ℕ → Bool → Step W (Bool × ℕ)
    try_wsasendmsg_uso waits sock batch mss target source include_pktinfo interface_index routine =
        try_stored waits sock batch mss source include_pktinfo interface_index routine
          (endpoint_to_sockaddr asio target)
