-- ===== src/Uso/Settled.antt =====
-- What `send_buffer_uso` says and what it has sent, on every branch.
use udp_test.Base.{
  ℕ, ◌+◌, ◌-◌, ◌/◌, ◌≤◌, ◌<◌, ◌≡◌, ◌≢◌, inl, inr, refl, sym, ap, ◌∙◌, arith, Bool, true, false, not,
  ◌&&◌, ◌||◌, Option, none, some, List, ◌++◌, ltb, ◌==◌, length, u64, if◌then◌else◌, le_cases,
}
use native.Mathlib.Nat.{div-lt_iff_lt-mul}
use udp_test.Crc.{Bytes}
use udp_test.Options.Client.{uso_max_segment_size, uso_max_bytes_per_batch}
use udp_test.Client.Segments.{datagrams, datagrams_whole}
use udp_test.Windows.{Asio, Winsock, Process, ◌>>=◌}
use udp_test.Windows.Ends.{Ends, bind-Ends, if-Ends}
use udp_test.Uso.{
  UsoSendPath, UsoError, UsoSendResult, failed, segment_count, resolve_wsasendmsg, Step,
  wsasendmsg_failed,
}
use udp_test.Uso.Route.{source_address_is_unspecified}
use udp_test.Uso.Message.{send_plain_datagram}
use udp_test.Uso.Buffer.{
  Sending, send_plain, attempt, attempt_if, sent_or, give_up, third_attempt, second_attempt,
  send_attempts, send_buffer_uso, of_plain, when_available,
}
use udp_test.Uso.Wire.{Wire, Never, At, Behaves, IsUnmixed}
use udp_test.Uso.Quiet.{resolve_wsasendmsg-Keeps}
use udp_test.Uso.Sent.{
  segment_count-datagrams, Tried, SentPlain, IsWhole, try_wsasendmsg_uso-Tried,
  send_plain_datagram-SentPlain,
}

module _ {W : Type 0} (wire : Wire W) {Address : Type 0} (to : Sending Address) (ds : List Bytes)
    (batch : Bytes) where
  abbrev pub SettledAs : Bool → UsoSendResult → Process W → Type 0
  SettledAs true r p =
      (r.error ≡ none)
      × (r.total_bytes ≡ length batch)
      × (r.segments_sent ≡ length (datagrams to.mss batch))
      × At wire to.mss (ds ++ datagrams to.mss batch) p.world
  SettledAs false r p = (r.error ≢ none) × At wire to.mss ds p.world

  -- The datagrams of the batch have gone, and the result counts them; or nothing has gone, and the
  -- result has an error.
  abbrev pub Settled : UsoSendResult → Process W → Type 0
  Settled r p = SettledAs r.success r p

  some_error : (e : UsoError) → some e ≢ none
  some_error e h = absurd (cc h)

  failed-Settled : (e : UsoError) (p : Process W) → At wire to.mss ds p.world → Settled (failed e) p
  failed-Settled e p at = (some_error e, at)

  module _ {V4 V6 : Type 0} (os : Winsock W) (asio : Asio Address V4 V6) (waits limit : ℕ)
      (behaves : Behaves os wire to.sock limit) (enough : limit + 2 ≤ waits)
      (unmixed : to.completion_routine ≡ true → IsUnmixed os) where
    abbrev TriedSo : Bool × ℕ → Process W → Type 0
    TriedSo = Tried wire to.mss ds batch

    -- The batch is cut into more segments than one, and they are counted rightly.
    record IsSegmented : Type 0 where
      short : length batch ≤ uso_max_bytes_per_batch
      small : to.mss ≤ uso_max_segment_size
      many : 1 < segment_count (length batch) to.mss
      counted : segment_count (length batch) to.mss ≡ length (datagrams to.mss batch)

    module _ (segmented : IsSegmented) where
      attempt-Tried :
          (include : Bool) (p : Process W)
          → At wire to.mss ds p.world
          → Ends TriedSo Never (attempt os asio waits to batch include p)
      attempt-Tried include p =
          try_wsasendmsg_uso-Tried os wire to.sock limit behaves ds to.mss batch waits enough
            to.completion_routine unmixed asio to.target to.source_address include
            to.interface_index p segmented.short segmented.small segmented.many

      attempt_if-Tried :
          (tried : Bool) (e : ℕ) (p : Process W)
          → At wire to.mss ds p.world
          → Ends TriedSo Never (attempt_if os asio waits tried to batch e p)
      attempt_if-Tried true e p at = attempt-Tried true p at
      attempt_if-Tried false e p at = at

      sent_or-Settled :
          (path : UsoSendPath) (next : ℕ → Step W UsoSendResult)
          → ((e : ℕ) (p : Process W) → At wire to.mss ds p.world → Ends Settled Never (next e p))
          → (r : Bool × ℕ) (p : Process W) → TriedSo r p
          → Ends Settled Never (sent_or os asio waits path to batch next r p)
      sent_or-Settled path next h (true, e) p at = (refl, refl, segmented.counted, at)
      sent_or-Settled path next h (false, e) p at = h e p at

      give_up-Settled :
          (e : ℕ) (p : Process W)
          → At wire to.mss ds p.world
          → Ends Settled Never (give_up os asio waits e p)
      give_up-Settled e p at = failed-Settled (wsasendmsg_failed e) p at

      third_attempt-Settled :
          (specific : Bool) (e : ℕ) (p : Process W)
          → At wire to.mss ds p.world
          → Ends Settled Never (third_attempt os asio waits specific to batch e p)
      third_attempt-Settled specific e p at =
          bind-Ends TriedSo Settled Never (attempt_if os asio waits specific to batch e) _ p
            (attempt_if-Tried specific e p at) (sent_or-Settled _ _ give_up-Settled)

      second_attempt-Settled :
          (specific : Bool) (e : ℕ) (p : Process W)
          → At wire to.mss ds p.world
          → Ends Settled Never (second_attempt os asio waits specific to batch e p)
      second_attempt-Settled specific e p at =
          bind-Ends TriedSo Settled Never (attempt os asio waits to batch false) _ p
            (attempt-Tried false p at) (sent_or-Settled _ _ (third_attempt-Settled specific))

      send_attempts-Settled :
          (p : Process W)
          → At wire to.mss ds p.world
          → Ends Settled Never (send_attempts os asio waits to batch p)
      unfolding send_attempts
      send_attempts-Settled p at =
          let specific = not (source_address_is_unspecified asio to.source_address) in
          if-Ends Settled Never to.no_pktinfo _ _ p
            (λ bind_alone.
              bind-Ends TriedSo Settled Never (attempt os asio waits to batch false) _ p
                (attempt-Tried false p at) (sent_or-Settled _ _ give_up-Settled))
            (λ both.
              bind-Ends TriedSo Settled Never
                (attempt_if os asio waits (not (to.interface_index == 0) && specific) to batch 0) _
                p (attempt_if-Tried (not (to.interface_index == 0) && specific) 0 p at)
                (sent_or-Settled _ _ (second_attempt-Settled specific)))

      when_available-Settled :
          (fn : Bool) (p : Process W)
          → At wire to.mss ds p.world
          → Ends Settled Never (when_available os asio waits to batch fn p)
      when_available-Settled false p at = failed-Settled _ p at
      when_available-Settled true p at = send_attempts-Settled p at

    -- What goes in one datagram is counted as one.
    one_datagram : 0 < length batch → IsWhole to.mss batch → 1 ≡ length (datagrams to.mss batch)
    one_datagram pos (inl no_mss) = let b : (to.mss == 0) ≡ true = ground arith in rw b refl
    one_datagram pos (inr (some_bytes, short)) =
        ap length (sym (datagrams_whole to.mss batch some_bytes short))

    send_plain-Settled :
        0 < length batch
        → IsWhole to.mss batch
        → (p : Process W) → At wire to.mss ds p.world
        → Ends Settled Never (send_plain os asio waits to batch p)
    send_plain-Settled pos whole p at =
        bind-Ends (SentPlain wire to.mss ds batch) Settled Never
          (send_plain_datagram os asio to.sock batch to.target) _ p
          (send_plain_datagram-SentPlain os wire to.sock limit behaves ds to.mss batch waits enough
            to.completion_routine unmixed asio to.target p whole at)
          told
      where
        told :
            (o : Option UsoError) (q : Process W)
            → SentPlain wire to.mss ds batch o q
            → Settled (of_plain os asio waits (length batch) o) q
        told none q sent = (refl, refl, one_datagram pos whole, sent)
        told (some e) q nothing = failed-Settled e q nothing

    -- One segment, or more.
    segment_count-one :
        0 < to.mss
        → length batch ≤ uso_max_bytes_per_batch
        → to.mss ≤ uso_max_segment_size
        → segment_count (length batch) to.mss ≡ 1
        → length batch ≤ to.mss
    segment_count-one pos short small one =
        let fits : u64 (length batch + to.mss - 1) ≡ length batch + to.mss - 1 = omega arith in
        let below : (length batch + to.mss - 1) / to.mss < 2 =
          omega (arith, sym (ap (λ k. k / to.mss) fits) ∙ one) in
        omega (arith, (div-lt_iff_lt-mul pos).0 below)

    segment_count-pos :
        0 < to.mss
        → 0 < length batch
        → length batch ≤ uso_max_bytes_per_batch
        → to.mss ≤ uso_max_segment_size
        → 0 < segment_count (length batch) to.mss
    segment_count-pos pos some_bytes short small =
        let fits : u64 (length batch + to.mss - 1) ≡ length batch + to.mss - 1 = omega arith in
        elim (le_cases 1 (segment_count (length batch) to.mss)) [
          | inl h ↦ h
          | inr none_left ↦
              let below : (length batch + to.mss - 1) / to.mss < 1 =
                omega (arith, ap (λ k. k / to.mss) fits, none_left) in
              absurd (omega (arith, (div-lt_iff_lt-mul pos).0 below))
        ]

    segmented-Settled :
        0 < length batch
        → length batch ≤ uso_max_bytes_per_batch
        → 0 < to.mss
        → to.mss ≤ uso_max_segment_size
        → (p : Process W) → At wire to.mss ds p.world
        → Ends Settled Never (
            (if segment_count (length batch) to.mss == 1
                then send_plain os asio waits to batch
                else resolve_wsasendmsg os to.sock >>= when_available os asio waits to batch)
              p)
    segmented-Settled some_bytes short pos small p at =
        if-Ends Settled Never (segment_count (length batch) to.mss == 1) _ _ p
          (λ one.
            send_plain-Settled some_bytes
              (inr (some_bytes, segment_count-one pos short small (ground (arith, one)))) p at)
          (λ several.
            let different : segment_count (length batch) to.mss ≢ 1 = ground (arith, several) in
            bind-Ends (λ (fn : Bool) q. At wire to.mss ds q.world) Settled Never
              (resolve_wsasendmsg os to.sock) _ p
              (resolve_wsasendmsg-Keeps wire to.mss ds os to.sock limit behaves p at)
              (when_available-Settled (record {
                short = short;
                small = small;
                many = omega (arith, different, segment_count-pos pos some_bytes short small);
                counted = segment_count-datagrams to.mss batch pos small short;
              })))

    -- Whatever the batch and the arguments, and whichever calls of Windows fail, `send_buffer_uso`
    -- returns, without an exception. On success it has sent the datagrams of the batch, cut at the
    -- MSS, once, and its result has their number and the size of the batch, and no error; otherwise
    -- it has sent nothing, and its result has an error. The socket has no segment size or the MSS,
    -- the calls do what is documented of them, and the waits given are at least two more than a
    -- message stays under way. With the completion routine, the system either does no overlapped
    -- call at once or leaves none under way, so that no wait meets the routine of an earlier send.
    pub send_buffer_uso-Settled :
        (p : Process W)
        → At wire to.mss ds p.world
        → Ends Settled Never (send_buffer_uso os asio waits to batch p)
    unfolding send_buffer_uso
    send_buffer_uso-Settled p at =
        if-Ends Settled Never (length batch == 0) _ _ p (λ e. failed-Settled _ p at)
          (λ some_bytes.
            if-Ends Settled Never (ltb uso_max_bytes_per_batch (length batch)) _ _ p
              (λ long. failed-Settled _ p at)
              (λ short.
                if-Ends Settled Never (to.mss == 0 || ltb (length batch) to.mss) _ _ p
                  (λ whole. send_plain-Settled (ground arith) (is_whole (ground arith) whole) p at)
                  (λ cut.
                    if-Ends Settled Never (ltb uso_max_segment_size to.mss) _ _ p
                      (λ large. failed-Settled _ p at)
                      (λ small.
                        segmented-Settled (ground arith) (ground arith) (ground arith)
                          (ground arith) p at))))
      where
        is_whole :
            0 < length batch
            → (to.mss == 0 || ltb (length batch) to.mss) ≡ true
            → IsWhole to.mss batch
        is_whole pos h = ground arith
