-- ===== src/Server/Session.antt =====
-- `receive_datagram`, `run_receive_loop` and the loop of `run_server`. The platform, the socket, the
-- waits and the steady clock are parameters, on a state of the world; the clock counts nanoseconds.
-- The verbose log is left out.
pub mod HeaderOnly
pub mod Accounts
pub mod Report
pub mod Settled
pub mod Prompt
pub mod Count
mod Tests
use udp_test.Base.{
  ◌%◌, [], ℕ, zero, suc, ◌+◌, ◌-◌, ◌*◌, ◌/◌, Bool, true, false, not, Option, none, some, List, ◌∷◌,
  u32, u64, ltb, leb, ◌==◌, if◌then◌else◌, Result, returned, thrown,
}
use udp_test.Crc.{Bytes}
use udp_test.Server.State.{ServerStats, Receiver, fresh_receiver, count_bad}
use udp_test.Server.Sequence.{finalize_lost}
use udp_test.Server.Ingest.{ingest_fragment}

-- What `receive_from` can fail with: the three codes of a timeout, and others.
pub data ErrorCode (E : Type 0) : Type 0 where
  timed_out try_again would_block : ErrorCode E
  other : E → ErrorCode E

unfoldable pub is_receive_timeout : {E : Type 0} → ErrorCode E → Bool
is_receive_timeout timed_out = true
is_receive_timeout try_again = true
is_receive_timeout would_block = true
is_receive_timeout (other e) = false

-- What a session can throw. `unfinished` marks a loop that has not come to its end within the
-- rounds given.
pub data SessionError (E : Type 0) : Type 0 where
  system : ErrorCode E → SessionError E
  unfinished : SessionError E

infixl 5 ◌>>=◌
abbrev ◌>>=◌ :
    {E A B : Type 0}
    → Result (SessionError E) A
    → (A → Result (SessionError E) B)
    → Result (SessionError E) B
returned a >>= f = f a
thrown e >>= f = thrown e

abbrev finished : {E A : Type 0} → Option A → Result (SessionError E) A
finished (some a) = returned a
finished none = thrown unfinished

-- `kIdleTimeout`, in nanoseconds
abbrev idle_timeout : ℕ
idle_timeout = 3 * 1000000000

-- `kBlockingRecvTimeout`, in milliseconds
abbrev blocking_recv_timeout : ℕ
blocking_recv_timeout = 24 * 365 * 3600 * 1000

-- `duration_cast<milliseconds>(deadline - now)`, or 0 where that is negative
abbrev remaining : ℕ → ℕ → ℕ
remaining deadline now = (deadline - now) / 1000000

-- A batch still under way at the end of a session is counted as bad.
unfoldable pub drop_incomplete : Receiver → ServerStats
drop_incomplete r = if r.reassembly.active then count_bad r.stats else r.stats

-- The end of a session: the statistics that `print_summary` prints.
unfoldable pub end_session : Option ℕ → Receiver → Option ServerStats
end_session batch_count r = finalize_lost (drop_incomplete r) batch_count

-- What the two calls `receive_one` and `std::chrono::steady_clock::now` of a loop change.
pub record Session (W : Type 0) : Type 0 where
  pub receiver : Receiver
  pub idle_deadline : Option ℕ
  pub world : W

-- `timeval`: seconds and microseconds
pub record Timeval : Type 0 where
  pub tv_sec : ℕ
  pub tv_usec : ℕ

-- The value that `set_receive_timeout` makes of milliseconds.
abbrev pub timeval_of : ℕ → Timeval
timeval_of timeout = record { tv_sec = timeout / 1000; tv_usec = timeout % 1000 * 1000 }

-- What `setsockopt` is given: a DWORD of milliseconds on Windows, a `timeval` elsewhere.
pub data TimeoutValue : Type 0 where
  dword : ℕ → TimeoutValue
  timeval : Timeval → TimeoutValue

abbrev pub timeout_value : Bool → ℕ → TimeoutValue
timeout_value windows timeout =
    if windows then dword (u32 timeout) else timeval (timeval_of timeout)

-- The operating system, and whether it is Windows: reading a datagram, `setsockopt` with
-- SO_RCVTIMEO, the wait for a datagram, which is `select` on Windows and `poll` with a timeout in
-- milliseconds elsewhere, and the clock.
pub record System (E W : Type 0) : Type 0 where
  pub windows : Bool
  pub receive_from : W → Result (ErrorCode E) Bytes × W
  pub setsockopt : TimeoutValue → W → W
  pub select : Timeval → W → Bool × W
  pub poll : ℕ → W → Bool × W
  pub now : W → ℕ × W

module _ {E W : Type 0} (os : System E W) where
  abbrev set_receive_timeout : ℕ → W → W
  set_receive_timeout timeout w = os.setsockopt (timeout_value os.windows timeout) w

  -- On Windows, 0 is no timeout.
  unfoldable pub clear_receive_timeout : W → W
  clear_receive_timeout w = set_receive_timeout (if os.windows then 0 else blocking_recv_timeout) w

  apply_recv_timeout_for_session : Option ℕ → W → W
  apply_recv_timeout_for_session none w = clear_receive_timeout w
  apply_recv_timeout_for_session (some deadline) w =
      let (now, w') = os.now w in
      let ms = remaining deadline now in set_receive_timeout (if ms == 0 then 1 else ms) w'

  unfoldable pub wait_udp_readable : ℕ → W → Bool × W
  wait_udp_readable timeout w =
      if timeout == 0
      then (false, w)
      else if os.windows
      then os.select (timeval_of timeout) w
      else os.poll timeout w

  -- `receive_datagram` after the call of `receive_from`.
  unfoldable pub received :
      Receiver → Result (ErrorCode E) Bytes → W → Result (SessionError E) (Bool × (Receiver × W))
  received r (returned datagram) w =
      finished (ingest_fragment datagram r) >>= (λ r'. returned (true, (r', w)))
  received r (thrown ec) w =
      if is_receive_timeout ec then returned (false, (r, w)) else thrown (system ec)

  -- Whether there was a datagram, and the state after it.
  unfoldable pub receive_datagram : Receiver → W → Result (SessionError E) (Bool × (Receiver × W))
  receive_datagram r w = let (outcome, w') = os.receive_from w in received r outcome w'

  -- `idle_deadline = now() + kIdleTimeout`
  abbrev extend_deadline : Receiver → W → Session W
  extend_deadline r w =
      let (now, w') = os.now w in
      record { receiver = r; idle_deadline = some (now + idle_timeout); world = w' }

  -- `now() >= *idle_deadline`; the clock is not read if there is no deadline.
  abbrev is_expired : Option ℕ → W → Bool × W
  is_expired none w = (false, w)
  is_expired (some deadline) w = let (now, w') = os.now w in (leb deadline now, w')

  -- What follows `receive_one`: whether the loop goes on, and with what.
  abbrev after_receive :
      Option ℕ → Bool × (Receiver × W) → Result (SessionError E) (Bool × Session W)
  after_receive deadline (true, (r, w)) = returned (true, extend_deadline r w)
  after_receive none (false, (r, w)) =
      returned (true, record { receiver = r; idle_deadline = none; world = w })
  after_receive (some deadline) (false, (r, w)) =
      returned (false, record { receiver = r; idle_deadline = some deadline; world = w })

  -- A round of the loop with `--count`.
  count_round : Session W → Result (SessionError E) (Bool × Session W)
  count_round s =
      let (expired, w) =
        if s.receiver.reassembly.active
        then (false, s.world)
        else is_expired s.idle_deadline s.world in
      let again =
        receive_datagram s.receiver (apply_recv_timeout_for_session s.idle_deadline w)
        >>= after_receive s.idle_deadline in
      if expired then returned (false, record s { world = w }) else again

  -- `while (stats.batches < want_batches)`, with a bound on the rounds.
  pub count_loop : ℕ → ℕ → Session W → Result (SessionError E) (Session W)
  count_loop zero want_batches s = thrown unfinished
  count_loop (suc rounds) want_batches s =
      let more =
        count_round s
        >>= (λ (goes_on, s'). if goes_on then count_loop rounds want_batches s' else returned s') in
      if ltb s.receiver.stats.batches want_batches then more else returned s

  -- The clock is read once a round, and the poll is left out while there is no deadline.
  abbrev idle_ready : Option ℕ → ℕ → W → Bool × W
  idle_ready none now w = (true, w)
  idle_ready (some deadline) now w = wait_udp_readable (remaining deadline now) w

  abbrev is_past : Option ℕ → ℕ → Bool
  is_past none now = false
  is_past (some deadline) now = leb deadline now

  -- Less than a millisecond is left: the loop reads the clock again.
  abbrev is_almost_past : Option ℕ → ℕ → Bool
  is_almost_past none now = false
  is_almost_past (some deadline) now = remaining deadline now == 0

  -- A round of the loop without `--count`.
  unfoldable pub idle_round : Session W → Result (SessionError E) (Bool × Session W)
  idle_round s =
      let (now, w) = os.now s.world in
      let (ready, w') = idle_ready s.idle_deadline now w in
      let again =
        receive_datagram s.receiver (clear_receive_timeout w') >>= after_receive s.idle_deadline in
      if is_past s.idle_deadline now
      then returned (false, record s { world = w })
      else if is_almost_past s.idle_deadline now
      then returned (true, record s { world = w })
      else if not ready
      then returned (false, record s { world = w' })
      else again

  unfoldable pub idle_loop : ℕ → Session W → Result (SessionError E) (Session W)
  idle_loop zero s = thrown unfinished
  idle_loop (suc rounds) s =
      idle_round s >>= (λ (goes_on, s'). if goes_on then idle_loop rounds s' else returned s')

  abbrev receive_all : ℕ → Option ℕ → W → Result (SessionError E) (Session W)
  receive_all rounds none w =
      idle_loop rounds (record { receiver = fresh_receiver; idle_deadline = none; world = w })
  receive_all rounds (some want_batches) w =
      count_loop rounds want_batches (record {
        receiver = fresh_receiver;
        idle_deadline = none;
        world = clear_receive_timeout w;
      })

  -- The statistics that are printed, and the world after the session.
  unfoldable pub run_receive_loop : ℕ → Option ℕ → W → Result (SessionError E) (ServerStats × W)
  run_receive_loop rounds batch_count w = receive_all rounds batch_count w >>= (λ s.
      finished (end_session batch_count s.receiver)
      >>= (λ stats. returned (stats, clear_receive_timeout s.world)))

  -- `if (!options.loop)`, and then `options.loopCount && session >= *options.loopCount`, once the
  -- session is counted.
  abbrev is_last : Bool → Option ℕ → ℕ → Bool
  is_last loop none session = not loop
  is_last loop (some loop_count) session = if not loop then true else leb loop_count session

  -- The loop of `run_server`: the summaries, in the order in which they are printed.
  pub run_sessions :
      ℕ → ℕ → Option ℕ → Bool → Option ℕ → ℕ → W → Result (SessionError E) (List ServerStats × W)
  run_sessions zero rounds batch_count loop loop_count session w = thrown unfinished
  run_sessions (suc sessions) rounds batch_count loop loop_count session w =
      run_receive_loop rounds batch_count w >>= (λ (stats, w').
        let others =
          run_sessions sessions rounds batch_count loop loop_count (u64 (session + 1)) w' in
        if is_last loop loop_count (u64 (session + 1))
        then returned (stats ∷ [], w')
        else others >>= (λ (summaries, w''). returned (stats ∷ summaries, w'')))
