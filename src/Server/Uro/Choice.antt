-- ===== src/Server/Uro/Choice.antt =====
-- `receive_one` of `run_receive_loop` in server.cpp: a session receives through `receive_from`, or
-- on Windows with `--uro` through `uro_recv_msg`.
use udp_test.Base.{
  ◌≡◌, refl, ◌⊎◌, inl, inr, Bool, true, false, not, Option, none, some, [], ◌∷◌, if◌then◌else◌,
  Result, returned, thrown, Option-cases,
}
use udp_test.Crc.{Bytes}
use udp_test.Server.State.{Receiver}
use udp_test.Server.Scan.{max_batch_size}
use udp_test.Server.Ingest.{is_empty, ingest_fragment}
use udp_test.Server.Session.{
  ErrorCode, timed_out, try_again, would_block, other, SessionError, system, unfinished, System,
  is_receive_timeout, received, receive_datagram,
}
use udp_test.Server.Uro.{
  UroError, UroRecvResult, WindowsReceive, UroThrow, runtime_error, stuck, take_result,
  uro_recv_msg, receive_uro_datagram,
}

abbrev as_code : {E : Type 0} → ErrorCode E → ErrorCode (E ⊎ UroError)
as_code timed_out = timed_out
as_code try_again = try_again
as_code would_block = would_block
as_code (other e) = other (inl e)

abbrev as_outcome : {E A : Type 0} → Result (ErrorCode E) A → Result (ErrorCode (E ⊎ UroError)) A
as_outcome (returned a) = returned a
as_outcome (thrown e) = thrown (as_code e)

-- The exceptions of the two ways to receive, in one type.
abbrev as_session :
    {E A : Type 0} → Result (SessionError E) A → Result (SessionError (E ⊎ UroError)) A
as_session (returned a) = returned a
as_session (thrown (system e)) = thrown (system (as_code e))
as_session (thrown unfinished) = thrown unfinished

abbrev of_uro :
    {E W : Type 0}
    → Result UroThrow (Bool × Receiver) × W
    → Result (SessionError (E ⊎ UroError)) (Bool × (Receiver × W))
of_uro (returned (got, r), w) = returned (got, (r, w))
of_uro (thrown (runtime_error e), w) = thrown (system (other (inr e)))
of_uro (thrown stuck, w) = thrown unfinished

-- What `uro_recv_msg` tells, as an outcome of `receive_from`: nothing received, without an error,
-- is a timeout.
abbrev of_error : {E : Type 0} → Option UroError → Result (ErrorCode (E ⊎ UroError)) Bytes
of_error none = thrown timed_out
of_error (some e) = thrown (other (inr e))

abbrev of_result : {E : Type 0} → UroRecvResult → Result (ErrorCode (E ⊎ UroError)) Bytes
of_result result =
    if not result.success
    then of_error result.error
    else if is_empty result.received
    then thrown timed_out
    else returned result.received

module _ {E W : Type 0} (os : System E W) (windows : WindowsReceive W) where
  pub receive_one :
      Bool → Receiver → W → Result (SessionError (E ⊎ UroError)) (Bool × (Receiver × W))
  receive_one use_uro r w =
      if use_uro
      then of_uro (receive_uro_datagram windows max_batch_size r w)
      else as_session (receive_datagram os r w)

  abbrev receive_from : Bool → W → Result (ErrorCode (E ⊎ UroError)) Bytes × W
  receive_from use_uro w =
      if use_uro
      then (
        of_result (uro_recv_msg windows max_batch_size w).0,
        (uro_recv_msg windows max_batch_size w).1,
      )
      else (as_outcome (os.receive_from w).0, (os.receive_from w).1)

  -- The system that a session receives from.
  abbrev pub session_system : Bool → System (E ⊎ UroError) W
  session_system use_uro = record {
    windows = os.windows;
    receive_from = receive_from use_uro;
    setsockopt = os.setsockopt;
    select = os.select;
    poll = os.poll;
    now = os.now;
  }

  received-same :
      (r : Receiver) (outcome : Result (ErrorCode E) Bytes) (w : W)
      → as_session (received os r outcome w)
        ≡ received (session_system false) r (as_outcome outcome) w
  unfolding received is_receive_timeout
  received-same r (returned d) w = elim (Option-cases (ingest_fragment d r)) [
    | inl lost ↦ rw lost refl
    | inr (r', taken) ↦ rw taken refl
  ]
  received-same r (thrown timed_out) w = refl
  received-same r (thrown try_again) w = refl
  received-same r (thrown would_block) w = refl
  received-same r (thrown (other e)) w = refl

  taken-same :
      (r : Receiver) (result : UroRecvResult) (success : Bool) (bytes : Bytes)
      (error : Option UroError) (w : W)
      → of_uro
          (take_result r (record result { success = success; received = bytes; error = error }), w)
        ≡ received
            (session_system true)
            r
            (of_result (record result { success = success; received = bytes; error = error }))
            w
  unfolding received take_result is_receive_timeout
  taken-same r result true [] error w = refl
  taken-same r result true (b ∷ bytes) error w =
      elim (Option-cases (ingest_fragment (b ∷ bytes) r)) [
        | inl lost ↦ rw lost refl
        | inr (r', taken) ↦ rw taken refl
      ]
  taken-same r result false [] none w = refl
  taken-same r result false (b ∷ bytes) none w = refl
  taken-same r result false [] (some e) w = refl
  taken-same r result false (b ∷ bytes) (some e) w = refl

  -- What a session receives by, with `--uro` or without, is `receive_datagram` on one system: what
  -- `uro_recv_msg` tells counts there as an outcome of `receive_from`, where nothing received
  -- without an error is a timeout. Both give the same answer, the same receiver and the same
  -- exception.
  pub receive_one-receive_datagram :
      (use_uro : Bool) (r : Receiver) (w : W)
      → receive_one use_uro r w ≡ receive_datagram (session_system use_uro) r w
  unfolding receive_one receive_datagram receive_uro_datagram
  receive_one-receive_datagram false r w =
      received-same r (os.receive_from w).0 (os.receive_from w).1
  receive_one-receive_datagram true r w =
      let result = (uro_recv_msg windows max_batch_size w).0 in
      taken-same r result result.success result.received result.error
        (uro_recv_msg windows max_batch_size w).1
