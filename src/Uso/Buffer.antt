-- ===== src/Uso/Buffer.antt =====
-- `send_buffer_uso` of uso_send_win.cpp.
use udp_test.Base.{
  ℕ, Bool, true, false, not, ◌&&◌, ◌||◌, Option, none, some, ltb, ◌==◌, if◌then◌else◌, length,
}
use udp_test.Crc.{Bytes}
use udp_test.Options.Client.{uso_max_segment_size, uso_max_bytes_per_batch}
use udp_test.Windows.{Endpoint, Asio, Winsock, pure, ◌>>=◌}
use udp_test.Uso.{
  UsoSendPath, plain, bind_only, pktinfo_ifindex, UsoError, empty_batch, exceeds_max, invalid_mss,
  not_available, wsasendmsg_failed, UsoSendResult, failed, succeeded, segment_count, Step,
  resolve_wsasendmsg,
}
use udp_test.Uso.Route.{source_address_is_unspecified}
use udp_test.Uso.Message.{send_plain_datagram, try_wsasendmsg_uso}

-- What the arguments of a call have in common over a run.
pub record Sending (Address : Type 0) : Type 0 where
  pub sock : ℕ
  pub mss : ℕ
  pub target : Endpoint Address
  pub source_address : Address
  pub interface_index : ℕ
  pub no_pktinfo : Bool
  pub completion_routine : Bool

module _ {W Address V4 V6 : Type 0} (os : Winsock W) (asio : Asio Address V4 V6) (waits : ℕ) where
  abbrev pub of_plain : ℕ → Option UsoError → UsoSendResult
  of_plain total_size none = succeeded plain 1 total_size
  of_plain total_size (some e) = failed e

  abbrev pub send_plain : Sending Address → Bytes → Step W UsoSendResult
  send_plain to batch =
      send_plain_datagram os asio to.sock batch to.target
      >>= (λ error. pure (of_plain (length batch) error))

  -- An attempt with the source's control message, or without.
  abbrev pub attempt : Sending Address → Bytes → Bool → Step W (Bool × ℕ)
  attempt to batch include_pktinfo =
      try_wsasendmsg_uso os asio waits to.sock batch to.mss to.target to.source_address
        include_pktinfo to.interface_index to.completion_routine

  -- `condition && try_wsasendmsg_uso(...)`, with the error code as it stands.
  abbrev pub attempt_if : Bool → Sending Address → Bytes → ℕ → Step W (Bool × ℕ)
  attempt_if true to batch wsa_error = attempt to batch true
  attempt_if false to batch wsa_error = pure (false, wsa_error)

  abbrev pub sent_or :
      UsoSendPath
      → Sending Address
      → Bytes
      → (ℕ → Step W UsoSendResult)
      → Bool × ℕ
      → Step W UsoSendResult
  sent_or path to batch next (true, wsa_error) =
      pure (succeeded path (segment_count (length batch) to.mss) (length batch))
  sent_or path to batch next (false, wsa_error) = next wsa_error

  abbrev pub give_up : ℕ → Step W UsoSendResult
  give_up wsa_error = pure (failed (wsasendmsg_failed wsa_error))

  abbrev pub third_attempt : Bool → Sending Address → Bytes → ℕ → Step W UsoSendResult
  third_attempt specific_bind to batch wsa_error =
      attempt_if specific_bind to batch wsa_error >>= sent_or pktinfo_ifindex to batch give_up

  abbrev pub second_attempt : Bool → Sending Address → Bytes → ℕ → Step W UsoSendResult
  second_attempt specific_bind to batch wsa_error =
      attempt to batch false >>= sent_or bind_only to batch (third_attempt specific_bind to batch)

  -- The attempts, once `WSASendMsg` is there.
  unfoldable pub send_attempts : Sending Address → Bytes → Step W UsoSendResult
  send_attempts to batch =
      let specific_bind = not (source_address_is_unspecified asio to.source_address) in
      if to.no_pktinfo
      then attempt to batch false >>= sent_or bind_only to batch give_up
      else attempt_if (not (to.interface_index == 0) && specific_bind) to batch 0
        >>= sent_or pktinfo_ifindex to batch (second_attempt specific_bind to batch)

  abbrev pub when_available : Sending Address → Bytes → Bool → Step W UsoSendResult
  when_available to batch false = pure (failed not_available)
  when_available to batch true = send_attempts to batch

  unfoldable pub send_buffer_uso : Sending Address → Bytes → Step W UsoSendResult
  send_buffer_uso to batch =
      if length batch == 0
      then pure (failed empty_batch)
      else if ltb uso_max_bytes_per_batch (length batch)
      then pure (failed exceeds_max)
      else if to.mss == 0 || ltb (length batch) to.mss
      then send_plain to batch
      else if ltb uso_max_segment_size to.mss
      then pure (failed invalid_mss)
      else if segment_count (length batch) to.mss == 1
      then send_plain to batch
      else resolve_wsasendmsg os to.sock >>= when_available to batch
