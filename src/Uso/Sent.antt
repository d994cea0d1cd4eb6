-- ===== src/Uso/Sent.antt =====
-- What `send_buffer_uso` has sent when it returns, on every branch.
use udp_test.Base.{
  ℕ, ◌+◌, ◌-◌, ◌≤◌, ◌<◌, ◌≡◌, ◌⊎◌, inl, inr, refl, sym, ap, subst, ◌∙◌, arith, Bool, true, false,
  not, Option, none, some, List, [], ◌∷◌, ◌++◌, ltb, ◌==◌, length, u32, u64,
}
use udp_test.Crc.{Bytes}
use udp_test.Options.Client.{uso_max_segment_size, uso_max_bytes_per_batch}
use udp_test.Client.Segments.{datagrams, datagrams_whole, length-segments}
use udp_test.Windows.{
  Sockaddr, Endpoint, Asio, SendControl, send_msg_size, SendMessage, Winsock, Process,
}
use udp_test.Windows.Address.{endpoint_to_sockaddr}
use udp_test.Windows.Ends.{Ends, bind-Ends, if-Ends}
use udp_test.Uso.{UsoError, segment_count, configure_udp_send_segment_size}
use udp_test.Uso.Message.{
  send_segmented, source_control, try_wsasendmsg_uso, send_plain_datagram, when_configured,
  with_control, unless_full, try_stored, of_sendto, sendto_stored,
}
use udp_test.Uso.Wire.{Wire, Never, At, IsSame-At, IsAnswer, IsAdded, size_of, Behaves, IsUnmixed}
use udp_test.Uso.Quiet.{configure-Keeps, AreSources, source_control-AreSources}
use udp_test.Uso.Attempt.{Attempted, invoke-Attempted, added-At}

-- The number that is told is that of the datagrams.
pub segment_count-datagrams :
    (mss : ℕ) (batch : Bytes)
    → 0 < mss
    → mss ≤ uso_max_segment_size
    → length batch ≤ uso_max_bytes_per_batch
    → segment_count (length batch) mss ≡ length (datagrams mss batch)
segment_count-datagrams mss batch pos small short =
    let b : (mss == 0) ≡ false = ground arith in
    let fits : u64 (length batch + mss - 1) ≡ length batch + mss - 1 = omega arith in
    rw (b, fits) (sym (length-segments (length batch + 1) mss batch pos (omega arith)))

-- The batch is not segmented by the system.
abbrev pub IsWhole : ℕ → Bytes → Type 0
IsWhole mss batch = (mss ≡ 0) ⊎ ((0 < length batch) × (length batch ≤ mss))

module _ {W : Type 0} (wire : Wire W) (mss : ℕ) (ds : List Bytes) (batch : Bytes) where
  -- The outcome of an attempt to send the segments of a batch.
  abbrev pub Tried : Bool × ℕ → Process W → Type 0
  Tried = Attempted wire mss ds (datagrams mss batch)

  -- A plain datagram is sent, or nothing.
  abbrev pub SentPlain : Option UsoError → Process W → Type 0
  SentPlain none p = At wire mss (ds ++ datagrams mss batch) p.world
  SentPlain (some e) p = At wire mss ds p.world

module _ {W : Type 0} (os : Winsock W) (wire : Wire W) (sock limit : ℕ)
    (behaves : Behaves os wire sock limit) (ds : List Bytes) (mss : ℕ) (batch : Bytes) (waits : ℕ)
    (enough : limit + 2 ≤ waits) (routine : Bool) (unmixed : routine ≡ true → IsUnmixed os) where
  send_segmented-Tried :
      (msg : SendMessage) (p : Process W)
      → msg.buffer ≡ batch
      → ((cs : List SendControl) (n : ℕ) → size_of (msg.control ++ cs) n ≡ size_of cs n)
      → length batch ≤ uso_max_bytes_per_batch
      → mss ≤ uso_max_segment_size
      → 1 < segment_count (length batch) mss
      → At wire mss ds p.world
      → Ends (Tried wire mss ds batch) Never (send_segmented os waits sock mss routine msg p)
  unfolding send_segmented
  send_segmented-Tried msg p same no_size short small many at =
      let n : u32 mss ≡ mss = omega arith in
      let b : ltb 1 (segment_count (length msg.buffer) mss) ≡ true = rw same (ground arith) in
      rw b (
        bind-Ends (λ (r : Bool × ℕ) q. At wire mss ds q.world) (Tried wire mss ds batch) Never
          (configure_udp_send_segment_size os sock (u32 mss)) _ p
          (configure-Keeps wire mss ds os sock limit behaves (u32 mss) n p at)
          (λ (ok, err) q. configured ok err q))
    where
      configured :
          (ok : Bool) (err : ℕ) (q : Process W)
          → At wire mss ds q.world
          → Ends (Tried wire mss ds batch) Never (
              when_configured os waits sock routine
                (with_control os msg (send_msg_size (u32 mss)))
                (ok, err)
                q)
      configured true err q at' =
          invoke-Attempted wire mss ds (datagrams mss batch) os sock limit behaves
            (with_control os msg (send_msg_size (u32 mss)))
            (λ w.
              let n : u32 mss ≡ mss = omega arith in
              rw (no_size (send_msg_size (u32 mss) ∷ []) (wire.size_set w), n, same) refl)
            waits routine q unmixed enough (rw same (omega arith)) at'
      configured false err q at' = at'

  unless_full-Tried :
      (msg : SendMessage) (controls : List SendControl) (p : Process W)
      → msg.buffer ≡ batch
      → msg.control ≡ []
      → length batch ≤ uso_max_bytes_per_batch
      → mss ≤ uso_max_segment_size
      → 1 < segment_count (length batch) mss
      → AreSources wire mss ds controls p
      → Ends (Tried wire mss ds batch) Never (unless_full os waits sock mss routine msg controls p)
  unless_full-Tried msg [] p same empty short small many (no_size, at) =
      send_segmented-Tried msg p same (λ cs n. rw empty refl) short small many at
  unless_full-Tried msg (c ∷ cs) p same empty short small many (no_size, at) =
      if-Ends (Tried wire mss ds batch) Never
        (not (os.next_control (record msg { control = c ∷ cs }))) _ _ p (λ full. at)
        (λ room.
          send_segmented-Tried (record msg { control = c ∷ cs }) p same no_size short small many at)

  module _ {Address V4 V6 : Type 0} (asio : Asio Address V4 V6) where
    try_stored-Tried :
        (source : Address) (include : Bool) (index : ℕ) (o : Option (Sockaddr × ℕ)) (p : Process W)
        → length batch ≤ uso_max_bytes_per_batch
        → mss ≤ uso_max_segment_size
        → 1 < segment_count (length batch) mss
        → At wire mss ds p.world
        → Ends
            (Tried wire mss ds batch)
            Never
            (try_stored os asio waits sock batch mss source include index routine o p)
    try_stored-Tried source include index none p short small many at = at
    try_stored-Tried source include index (some (dest, len)) p short small many at =
        let msg : SendMessage = record { name = dest; buffer = batch; control = [] } in
        if-Ends (Tried wire mss ds batch) Never (not (os.first_control msg)) _ _ p (λ full. at)
          (λ room.
            bind-Ends (AreSources wire mss ds) (Tried wire mss ds batch) Never
              (source_control os asio include index source)
              (unless_full os waits sock mss routine msg) p
              (source_control-AreSources wire mss ds os sock limit behaves asio include index source
                p at)
              (λ controls q. unless_full-Tried msg controls q refl refl short small many))

    pub try_wsasendmsg_uso-Tried :
        (target : Endpoint Address) (source : Address) (include : Bool) (index : ℕ) (p : Process W)
        → length batch ≤ uso_max_bytes_per_batch
        → mss ≤ uso_max_segment_size
        → 1 < segment_count (length batch) mss
        → At wire mss ds p.world
        → Ends
            (Tried wire mss ds batch)
            Never
            (try_wsasendmsg_uso os asio waits sock batch mss target source include index routine p)
    unfolding try_wsasendmsg_uso
    try_wsasendmsg_uso-Tried target source include index =
        try_stored-Tried source include index (endpoint_to_sockaddr asio target)

    same_datagrams :
        (n : ℕ) → IsWhole mss batch → (n ≡ 0) ⊎ (n ≡ mss) → datagrams n batch ≡ datagrams mss batch
    same_datagrams n whole (inr e) = ap (λ k. datagrams k batch) e
    same_datagrams n (inl zero_mss) (inl e) = ap (λ k. datagrams k batch) (e ∙ sym zero_mss)
    same_datagrams n (inr (pos, short)) (inl e) =
        ap (λ k. datagrams k batch) e ∙ sym (datagrams_whole mss batch pos short)

    of_sendto-SentPlain :
        (p : Process W) (o : Option ℕ × W)
        → IsWhole mss batch
        → At wire mss ds p.world
        → IsAnswer wire (datagrams (wire.size_set p.world) batch) (length batch) p.world o
        → Ends
            (SentPlain wire mss ds batch)
            Never
            (of_sendto os asio (length batch) o.0 (record p { world = o.1 }))
    of_sendto-SentPlain p (none, w) whole at same = IsSame-At wire mss ds p.world w same at
    of_sendto-SentPlain p (some sent, w) whole at (all, added) =
        let b : (sent == length batch) ≡ true = ground arith in
        rw b (
          added-At wire mss ds (datagrams mss batch) p.world w
            (subst (λ l. IsAdded wire l p.world w)
              (same_datagrams (wire.size_set p.world) whole at.1) added)
            at)

    sendto_stored-SentPlain :
        (o : Option (Sockaddr × ℕ)) (p : Process W)
        → IsWhole mss batch
        → At wire mss ds p.world
        → Ends (SentPlain wire mss ds batch) Never (sendto_stored os asio sock batch o p)
    sendto_stored-SentPlain none p whole at = at
    sendto_stored-SentPlain (some (dest, len)) p whole at =
        of_sendto-SentPlain p (os.sendto sock batch dest p.world) whole at
          (behaves.sendto batch dest p.world)

    pub send_plain_datagram-SentPlain :
        (target : Endpoint Address) (p : Process W)
        → IsWhole mss batch
        → At wire mss ds p.world
        → Ends (SentPlain wire mss ds batch) Never (send_plain_datagram os asio sock batch target p)
    unfolding send_plain_datagram
    send_plain_datagram-SentPlain target =
        sendto_stored-SentPlain (endpoint_to_sockaddr asio target)
