-- ===== src/Server/Uro/Settled.antt =====
-- What a call of `receive_uro_datagram` leaves.
use udp_test.Base.{
  ℕ, ◌+◌, ◌≡◌, refl, subst, inl, inr, Bool, true, false, some, List, [], ◌∷◌, arith, if◌then◌else◌,
  length, Result, returned, thrown, Bool-cases, Option-cases,
}
use udp_test.Crc.{Bytes}
use udp_test.Server.State.{Receiver}
use udp_test.Server.Scan.{max_batch_size}
use udp_test.Server.Ingest.{is_empty, ingest_fragment, pending}
use udp_test.Server.Ingest.Sound.{IsSound}
use udp_test.Server.Ingest.Total.{Ends, ingest_fragment-Ends}
use udp_test.Server.Uro.{
  Control, Message, failed, UroRecvResult, no_result, read_controls, is_wsa_timeout, of_outcome,
  WindowsReceive, UroThrow, runtime_error, not_available, resolve_wsarecvmsg, taken_in, take_result,
  uro_recv_msg, receive_uro_datagram,
}

-- Control messages change neither the bytes nor the success.
read_controls-same :
    (controls : List Control) (result : UroRecvResult)
    → ((read_controls controls result).received ≡ result.received)
      × ((read_controls controls result).success ≡ result.success)
      × ((read_controls controls result).error ≡ result.error)
unfolding read_controls
read_controls-same [] result = (refl, refl, refl)
read_controls-same (cm ∷ controls) result = ground (arith, read_controls-same controls result)

-- What is done with the bytes of a message: they are taken in whole, which leaves a sound receiver;
-- an empty message leaves the receiver as it was.
abbrev TakesBytes : Receiver → Bytes → Bool → Receiver → Type 0
TakesBytes r [] got r' = (got ≡ false) × (r' ≡ r)
TakesBytes r (b ∷ bytes) got r' =
    (got ≡ true) × (ingest_fragment (b ∷ bytes) r ≡ some r') × IsSound r'.reassembly

-- The same for every outcome: a timeout leaves the receiver as it was, and any other error is thrown.
abbrev TakesOutcome : Receiver → Result ℕ Message → Result UroThrow (Bool × Receiver) → Type 0
TakesOutcome r (returned msg) (returned (got, r')) = TakesBytes r msg.bytes got r'
TakesOutcome r (returned msg) (thrown e) = ⊥
TakesOutcome r (thrown err) (returned (got, r')) =
    (is_wsa_timeout err ≡ true) × (got ≡ false) × (r' ≡ r)
TakesOutcome r (thrown err) (thrown e) =
    (is_wsa_timeout err ≡ false) × (e ≡ runtime_error (failed err))

take_result-bytes :
    (r : Receiver) (result : UroRecvResult) (msg : Message)
    → IsSound r.reassembly
    → result.success ≡ true
    → result.received ≡ msg.bytes
    → TakesOutcome r (returned msg) (take_result r result)
unfolding take_result
take_result-bytes r result msg sound success same = rw (success, same) (by_bytes msg.bytes)
  where
    by_bytes :
        (bytes : Bytes)
        → TakesOutcome r
            (returned (record msg { bytes = bytes }))
            (if is_empty bytes then returned (false, r) else taken_in (ingest_fragment bytes r))
    by_bytes [] = (refl, refl)
    by_bytes (b ∷ bytes) =
        let held = length (b ∷ bytes) + pending r.reassembly in
        let ends = ingest_fragment-Ends (b ∷ bytes) r sound in
        elim (Option-cases (ingest_fragment (b ∷ bytes) r)) [
          | inl lost ↦ absurd (subst (Ends held) lost ends)
          | inr (r', taken) ↦ rw taken (refl, taken, (subst (Ends held) taken ends).0)
        ]

take_result-outcome :
    (r : Receiver) (outcome : Result ℕ Message)
    → IsSound r.reassembly
    → TakesOutcome r outcome (take_result r (of_outcome outcome))
unfolding take_result of_outcome
take_result-outcome r (thrown err) sound = elim (Bool-cases (is_wsa_timeout err)) [
  | inl late ↦ rw late (late, refl, refl)
  | inr other ↦ rw other (other, refl)
]
take_result-outcome r (returned msg) sound =
    let start : UroRecvResult = record no_result {
      success = true;
      received = msg.bytes;
      have_remote = msg.has_endpoint;
    } in
    let same = read_controls-same msg.controls start in
    take_result-bytes r (read_controls msg.controls start) msg sound same.1 same.0

-- Where the socket has no `WSARecvMsg`, that is thrown.
abbrev pub TakesFrom :
    Receiver → Bool → Result ℕ Message → Result UroThrow (Bool × Receiver) → Type 0
TakesFrom r false outcome result = result ≡ thrown (runtime_error not_available)
TakesFrom r true outcome result = TakesOutcome r outcome result

module _ {W : Type 0} (windows : WindowsReceive W) (r : Receiver) (w : W) where
  -- For a sound receiver, `receive_uro_datagram` with the buffer of a session takes in the bytes of
  -- a message whole, which leaves a sound receiver; an empty message and a timeout leave the
  -- receiver as it was, and report that nothing came; any other error of `WSARecvMsg` is thrown,
  -- and where the socket has no `WSARecvMsg`, that is thrown.
  pub receive_uro_datagram-TakesFrom :
      IsSound r.reassembly
      → TakesFrom r
          (resolve_wsarecvmsg windows w).0
          (windows.wsarecvmsg max_batch_size (resolve_wsarecvmsg windows w).1).0
          (receive_uro_datagram windows max_batch_size r w).0
  unfolding receive_uro_datagram uro_recv_msg take_result
  receive_uro_datagram-TakesFrom sound = elim (Bool-cases (resolve_wsarecvmsg windows w).0) [
    | inl there ↦ rw there (
        take_result-outcome r (windows.wsarecvmsg max_batch_size (resolve_wsarecvmsg windows w).1).0
          sound)
    | inr missing ↦ rw missing refl
  ]
