-- ===== src/Server/Session/Prompt.antt =====
-- Sessions on a system that has every datagram ready.
use udp_test.Base.{
  ℕ, suc, ◌+◌, ◌-◌, ◌/◌, ◌≡◌, refl, ap, ◌∙◌, Bool, true, false, Option, none, some, List, [], ◌∷◌,
  Bool-cases, inl, inr, arith, length, leb, Result, returned,
}
use udp_test.Crc.{Bytes}
use udp_test.Server.State.{ServerStats, Receiver, fresh_receiver}
use udp_test.Server.Ingest.{ingest_fragment}
use udp_test.Server.Ingest.Stream.{ingest_all, first_of}
use udp_test.Server.Session.{
  Timeval, timeval_of, TimeoutValue, ◌>>=◌, SessionError, System, Session, idle_timeout, remaining,
  end_session, received, receive_datagram, clear_receive_timeout, wait_udp_readable, idle_round,
  idle_loop, run_receive_loop, after_receive,
}

-- The datagrams that are to come, in order, and the time of the clock: reading a datagram takes
-- one, a wait tells whether there is one, and the clock stands still but for the reads.
pub record IsPrompt {E W : Type 0} (os : System E W) (queue : W → List Bytes) (time : W → ℕ)
    : Type 0 where
  pub clock : (w : W) → os.now w ≡ (time w, w)
  pub option : (timeout : TimeoutValue) (w : W) → queue (os.setsockopt timeout w) ≡ queue w
  pub option_time : (timeout : TimeoutValue) (w : W) → time (os.setsockopt timeout w) ≡ time w
  pub ready :
      (ms : ℕ) (w : W) (d : Bytes) (ds : List Bytes) → queue w ≡ d ∷ ds → os.poll ms w ≡ (true, w)
  pub times_out : (ms : ℕ) (w : W) → queue w ≡ [] → os.poll ms w ≡ (false, w)
  pub selects :
      (timeout : Timeval) (w : W) (d : Bytes) (ds : List Bytes)
      → queue w ≡ d ∷ ds
      → os.select timeout w ≡ (true, w)
  pub selects_none : (timeout : Timeval) (w : W) → queue w ≡ [] → os.select timeout w ≡ (false, w)
  pub reads :
      (w : W) (d : Bytes) (ds : List Bytes)
      → queue w ≡ d ∷ ds
      → (w' : W) × (os.receive_from w ≡ (returned d, w')) × (queue w' ≡ ds)

full_timeout : (deadline now : ℕ) → deadline ≡ now + idle_timeout → remaining deadline now ≡ 3000
full_timeout deadline now e =
    let left : deadline - now ≡ 3000000000 = omega arith in ap (λ k. k / 1000000) left

module _ {E W : Type 0} (os : System E W) (queue : W → List Bytes) (time : W → ℕ)
    (prompt : IsPrompt os queue time) where
  -- There is no deadline, or it is a full timeout away.
  abbrev pub Current : Option ℕ → W → Type 0
  Current none w = Unit
  Current (some deadline) w = deadline ≡ time w + idle_timeout

  wait_udp_readable-ready :
      (w : W) (d : Bytes) (ds : List Bytes)
      → queue w ≡ d ∷ ds
      → wait_udp_readable os 3000 w ≡ (true, w)
  unfolding wait_udp_readable
  wait_udp_readable-ready w d ds q = elim (Bool-cases os.windows) [
    | inl windows ↦ rw windows (prompt.selects (timeval_of 3000) w d ds q)
    | inr other ↦ rw other (prompt.ready 3000 w d ds q)
  ]

  wait_udp_readable-empty : (w : W) → queue w ≡ [] → wait_udp_readable os 3000 w ≡ (false, w)
  unfolding wait_udp_readable
  wait_udp_readable-empty w q = elim (Bool-cases os.windows) [
    | inl windows ↦ rw windows (prompt.selects_none (timeval_of 3000) w q)
    | inr other ↦ rw other (prompt.times_out 3000 w q)
  ]

  receive_datagram-ready :
      (r r' : Receiver) (w : W) (d : Bytes) (ds : List Bytes)
      → queue w ≡ d ∷ ds
      → ingest_fragment d r ≡ some r'
      → (w' : W) × (receive_datagram os r w ≡ returned (true, (r', w'))) × (queue w' ≡ ds)
  unfolding receive_datagram received
  receive_datagram-ready r r' w d ds q e =
      let (w', read, left) = prompt.reads w d ds q in (w', rw (read, e) refl, left)

  -- A round that takes a datagram.
  pub record Takes (r' : Receiver) (ds : List Bytes)
      (result : Result (SessionError E) (Bool × Session W)) : Type 0 where
    pub next : W
    pub goes_on :
        result
        ≡ returned (
          true,
          record { receiver = r'; idle_deadline = some (time next + idle_timeout); world = next },
        )
    pub left : queue next ≡ ds

  pub receive_datagram-Takes :
      (r r' : Receiver) (w : W) (d : Bytes) (ds : List Bytes) (deadline : Option ℕ)
      → queue w ≡ d ∷ ds
      → ingest_fragment d r ≡ some r'
      → Takes r' ds (receive_datagram os r w >>= after_receive os deadline)
  receive_datagram-Takes r r' w d ds deadline q e =
      let (w', got, left) = receive_datagram-ready r r' w d ds q e in
      record {
        next = w';
        goes_on = ap (λ x. x >>= after_receive os deadline) got ∙ extended w' deadline;
        left = left;
      }
    where
      extended :
          (w' : W) (deadline : Option ℕ)
          → after_receive os deadline (true, (r', w'))
            ≡ returned (
              true,
              record { receiver = r'; idle_deadline = some (time w' + idle_timeout); world = w' },
            )
      extended w' none = rw (prompt.clock w') refl
      extended w' (some t) = rw (prompt.clock w') refl

  idle_round-Takes :
      (r r' : Receiver) (w : W) (d : Bytes) (ds : List Bytes) (deadline : Option ℕ)
      → Current deadline w
      → queue w ≡ d ∷ ds
      → ingest_fragment d r ≡ some r'
      → Takes r' ds (idle_round os (record { receiver = r; idle_deadline = deadline; world = w }))
  unfolding idle_round clear_receive_timeout
  idle_round-Takes r r' w d ds none current q e =
      rw (prompt.clock w) (
        receive_datagram-Takes r r' (clear_receive_timeout os w) d ds none (prompt.option _ w ∙ q)
          e)
  idle_round-Takes r r' w d ds (some deadline) current q e =
      let past : leb deadline (time w) ≡ false = ground arith in
      let ms : remaining deadline (time w) ≡ 3000 = full_timeout deadline (time w) current in
      rw (prompt.clock w, past, ms, wait_udp_readable-ready w d ds q)
        (receive_datagram-Takes r r' (clear_receive_timeout os w) d ds (some deadline)
          (prompt.option _ w ∙ q) e)

  idle_round-ends :
      (r : Receiver) (w : W) (deadline : ℕ)
      → Current (some deadline) w
      → queue w ≡ []
      → (w' : W) × (idle_round os
            (record { receiver = r; idle_deadline = some deadline; world = w })
          ≡ returned (false, record { receiver = r; idle_deadline = some deadline; world = w' }))
  unfolding idle_round clear_receive_timeout
  idle_round-ends r w deadline current q =
      let past : leb deadline (time w) ≡ false = ground arith in
      let ms : remaining deadline (time w) ≡ 3000 = full_timeout deadline (time w) current in
      (w, rw (prompt.clock w, past, ms, wait_udp_readable-empty w q) refl)

  idle_loop-rest :
      (ds : List Bytes) (r last : Receiver) (w : W) (deadline : ℕ)
      → Current (some deadline) w
      → queue w ≡ ds
      → ingest_all ds r ≡ some last
      → (s : Session W) × (idle_loop os
            (length ds + 1)
            (record { receiver = r; idle_deadline = some deadline; world = w })
          ≡ returned s)
        × (s.receiver ≡ last)
  unfolding idle_loop
  idle_loop-rest [] r last w deadline current q e =
      let (w', ends) = idle_round-ends r w deadline current q in
      (record { receiver = r; idle_deadline = some deadline; world = w' }, rw ends refl, cc e)
  idle_loop-rest (d ∷ ds) r last w deadline current q e =
      let (r', one, others) = first_of d ds r last e in
      let t = idle_round-Takes r r' w d ds (some deadline) current q one in
      let (s, returns, same) =
        idle_loop-rest ds r' last t.next (time t.next + idle_timeout) refl t.left others in
      let fuel : suc (length ds) + 1 ≡ suc (length ds + 1) = omega arith in
      (s, rw (fuel, t.goes_on) returns, same)

  idle_loop-all :
      (d : Bytes) (ds : List Bytes) (r last : Receiver) (w : W)
      → queue w ≡ d ∷ ds
      → ingest_all (d ∷ ds) r ≡ some last
      → (s : Session W) × (idle_loop os
            (length ds + 2)
            (record { receiver = r; idle_deadline = none; world = w })
          ≡ returned s)
        × (s.receiver ≡ last)
  unfolding idle_loop
  idle_loop-all d ds r last w q e =
      let (r', one, others) = first_of d ds r last e in
      let t = idle_round-Takes r r' w d ds none tt q one in
      let (s, returns, same) =
        idle_loop-rest ds r' last t.next (time t.next + idle_timeout) refl t.left others in
      let fuel : length ds + 2 ≡ suc (length ds + 1) = omega arith in
      (s, rw (fuel, t.goes_on) returns, same)

  -- Without `--count`, a session for which a datagram or more is ready takes in all of them, in
  -- order, and then returns: if the receiver after the last one has a summary, that is the
  -- session's. The system has every datagram ready, and its clock stands still but for the reads.
  pub run_receive_loop-idle :
      (d : Bytes) (ds : List Bytes) (last : Receiver) (stats : ServerStats) (w : W)
      → queue w ≡ d ∷ ds
      → ingest_all (d ∷ ds) fresh_receiver ≡ some last
      → end_session none last ≡ some stats
      → (w' : W) × (run_receive_loop os (length ds + 2) none w ≡ returned (stats, w'))
  unfolding run_receive_loop
  run_receive_loop-idle d ds last stats w q e ends =
      let (s, returns, same) = idle_loop-all d ds fresh_receiver last w q e in
      (clear_receive_timeout os s.world, rw (returns, same, ends) refl)
