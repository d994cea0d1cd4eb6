-- ===== src/Uso/Faultless/Sends.antt =====
-- `send_buffer_uso` on a system on which no call fails.
use udp_test.Base.{
  ℕ, ◌+◌, ◌≤◌, ◌<◌, ◌≡◌, refl, arith, Bool, true, false, not, ◌&&◌, ◌||◌, Option, some, List, [],
  ◌∷◌, ltb, ◌==◌, length, u32,
}
use udp_test.Crc.{Bytes}
use udp_test.Options.Client.{uso_max_segment_size, uso_max_bytes_per_batch}
use udp_test.Windows.{
  Sockaddr, Asio, SendControl, send_msg_size, SendMessage, Winsock, Process, ◌>>=◌,
}
use udp_test.Windows.Address.{endpoint_to_sockaddr}
use udp_test.Windows.Ends.{Ends, bind-Ends, if-Ends}
use udp_test.Uso.{
  UsoSendPath, UsoSendResult, UsoError, wsa_io_pending, IoContext, no_context, after_routine,
  Invoked, of_context, segment_count, Step, configure_udp_send_segment_size, resolve_wsasendmsg,
}
use udp_test.Uso.Route.{source_address_is_unspecified}
use udp_test.Uso.Message.{
  invoke, when_configured, with_control, send_segmented, unless_full, source_control, try_stored,
  try_wsasendmsg_uso, send_plain_datagram,
}
use udp_test.Uso.Buffer.{
  Sending, send_plain, attempt, attempt_if, sent_or, second_attempt, send_attempts, when_available,
  send_buffer_uso,
}
use udp_test.Uso.Wire.{Never, Pending, IsUnmixed}
use udp_test.Uso.Faultless.{
  Faultless, Fine, Says, configure-Says, resolve_wsasendmsg-Says, source_control-Runs,
}
use udp_test.Uso.Faultless.Invoked.{invoke-Sends}

module _ {W : Type 0} (os : Winsock W) (pending : W → Option Pending) (limit : ℕ)
    (faultless : Faultless os pending limit) (waits : ℕ) (enough : limit + 2 ≤ waits) where
  -- The batch fits, and is cut into more segments than one.
  module _ (sock mss : ℕ) (batch : Bytes) (short : length batch ≤ uso_max_bytes_per_batch)
      (routine : Bool) (unmixed : routine ≡ true → IsUnmixed os) where
    abbrev Tried : Bool × ℕ → Process W → Type 0
    Tried r p = (r.0 ≡ true) × Fine p

    invoke-Tried :
        (msg : SendMessage) (p : Process W)
        → msg.buffer ≡ batch
        → Fine p
        → Ends Tried Never (invoke os waits sock routine msg p)
    invoke-Tried msg p same fine =
        invoke-Sends os pending limit faultless waits enough msg sock routine p unmixed
          (rw same (omega arith)) fine

    send_segmented-Tried :
        (msg : SendMessage) (p : Process W)
        → msg.buffer ≡ batch
        → Fine p
        → Ends Tried Never (send_segmented os waits sock mss routine msg p)
    unfolding send_segmented
    send_segmented-Tried msg p same fine =
        let msg' = with_control os msg (send_msg_size (u32 mss)) in
        if-Ends Tried Never (ltb 1 (segment_count (length msg.buffer) mss)) _ _ p
          (λ many.
            bind-Ends (λ (r : Bool × ℕ) q. Says os pending limit faultless true r.0 q) Tried Never
              (configure_udp_send_segment_size os sock (u32 mss))
              (when_configured os waits sock routine msg') p
              (configure-Says os pending limit faultless sock (u32 mss) p fine)
              (λ (ok, err) q (good, h). rw good (invoke-Tried msg' q same h)))
          (λ one. invoke-Tried msg p same fine)

    unless_full-Tried :
        (msg : SendMessage) (controls : List SendControl) (p : Process W)
        → msg.buffer ≡ batch
        → Fine p
        → Ends Tried Never (unless_full os waits sock mss routine msg controls p)
    unless_full-Tried msg [] p same fine = send_segmented-Tried msg p same fine
    unless_full-Tried msg (c ∷ cs) p same fine =
        rw (faultless.next_control (record msg { control = c ∷ cs }))
          (send_segmented-Tried (record msg { control = c ∷ cs }) p same fine)

    module _ {Address V4 V6 : Type 0} (asio : Asio Address V4 V6) where
      try_stored-Tried :
          (source : Address) (include : Bool) (index : ℕ) (stored : Sockaddr × ℕ) (p : Process W)
          → Fine p
          → Ends Tried Never
              (try_stored os asio waits sock batch mss source include index routine (some stored) p)
      try_stored-Tried source include index (dest, len) p fine =
          let msg : SendMessage = record { name = dest; buffer = batch; control = [] } in
          rw (faultless.first_control msg) (
            bind-Ends (λ (controls : List SendControl) q. Fine q) Tried Never
              (source_control os asio include index source)
              (unless_full os waits sock mss routine msg) p
              (source_control-Runs os pending limit faultless asio include index source p fine)
              (λ controls q. unless_full-Tried msg controls q refl))

  module _ {Address V4 V6 : Type 0} (asio : Asio Address V4 V6) (to : Sending Address)
      (batch : Bytes) (stored : Sockaddr × ℕ)
      (stores : endpoint_to_sockaddr asio to.target ≡ some stored) (some_bytes : 0 < length batch)
      (short : length batch ≤ uso_max_bytes_per_batch)
      (unmixed : to.completion_routine ≡ true → IsUnmixed os) where
    abbrev pub Succeeds : UsoSendResult → Process W → Type 0
    Succeeds r p = (r.success ≡ true) × Fine p

    abbrev WasTried : Bool × ℕ → Process W → Type 0
    WasTried = Tried to.sock to.mss batch short to.completion_routine unmixed

    send_plain-Succeeds :
        (p : Process W) → Fine p → Ends Succeeds Never (send_plain os asio waits to batch p)
    unfolding send_plain_datagram
    send_plain-Succeeds p fine =
        let same : (length batch == length batch) ≡ true = ground arith in
        rw (stores, faultless.sendto to.sock batch stored.0 p.world, same) (refl, fine)

    attempt-Tried :
        (include : Bool) (p : Process W)
        → Fine p
        → Ends WasTried Never (attempt os asio waits to batch include p)
    unfolding try_wsasendmsg_uso
    attempt-Tried include p fine = rw stores (
        try_stored-Tried to.sock to.mss batch short to.completion_routine unmixed asio
          to.source_address include to.interface_index stored p fine)

    -- The first attempt that is made succeeds.
    tried-Succeeds :
        (path : UsoSendPath) (include : Bool) (next : ℕ → Step W UsoSendResult) (p : Process W)
        → Fine p
        → Ends Succeeds Never (
            (attempt os asio waits to batch include >>= sent_or os asio waits path to batch next) p)
    tried-Succeeds path include next p fine =
        bind-Ends WasTried Succeeds Never (attempt os asio waits to batch include) _ p
          (attempt-Tried include p fine) (λ (ok, err) q (good, h). rw good (refl, h))

    send_attempts-Succeeds :
        (p : Process W) → Fine p → Ends Succeeds Never (send_attempts os asio waits to batch p)
    unfolding send_attempts
    send_attempts-Succeeds p fine =
        if-Ends Succeeds Never to.no_pktinfo _ _ p (λ alone. tried-Succeeds _ false _ p fine)
          (λ both. first (
            not (to.interface_index == 0)
            && not (source_address_is_unspecified asio to.source_address)))
      where
        first :
            (b : Bool)
            → Ends Succeeds Never (
                (attempt_if os asio waits b to batch 0
                    >>= sent_or os asio waits udp_test.Uso.pktinfo_ifindex to batch (
                        second_attempt os asio waits
                          (not (source_address_is_unspecified asio to.source_address))
                          to
                          batch))
                  p)
        first true = tried-Succeeds _ true _ p fine
        first false = tried-Succeeds _ false _ p fine

    -- A batch is sent, with whichever path is taken.
    pub send_buffer_uso-Succeeds :
        to.mss ≤ uso_max_segment_size
        → (p : Process W) → Fine p
        → Ends Succeeds Never (send_buffer_uso os asio waits to batch p)
    unfolding send_buffer_uso
    send_buffer_uso-Succeeds small p fine =
        let full : (length batch == 0) ≡ false = ground arith in
        let fits : ltb uso_max_bytes_per_batch (length batch) ≡ false = ground arith in
        let cut : ltb uso_max_segment_size to.mss ≡ false = ground arith in
        rw (full, fits, cut)
          (if-Ends Succeeds Never (to.mss == 0 || ltb (length batch) to.mss) _ _ p
            (λ whole. send_plain-Succeeds p fine)
            (λ segments.
              if-Ends Succeeds Never (segment_count (length batch) to.mss == 1) _ _ p
                (λ one. send_plain-Succeeds p fine)
                (λ many.
                  bind-Ends (Says os pending limit faultless true) Succeeds Never
                    (resolve_wsasendmsg os to.sock) (when_available os asio waits to batch) p
                    (resolve_wsasendmsg-Says os pending limit faultless to.sock p fine)
                    (λ fn q (there, h). rw there (send_attempts-Succeeds q h)))))
