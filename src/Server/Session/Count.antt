-- ===== src/Server/Session/Count.antt =====
-- Sessions with `--count`, on a system that has every datagram ready.
use udp_test.Base.{
  ℕ, suc, ◌+◌, ◌≤◌, ◌≡◌, refl, sym, ap, subst, ◌∙◌, inl, inr, Bool, true, false, Option, none, some,
  List, [], ◌∷◌, ◌++◌, arith, length, leb, ltb, if◌then◌else◌, le_cases, Result, returned, lt→ltb,
}
use udp_test.Crc.{Bytes}
use udp_test.Server.State.{Receiver, fresh_receiver}
use udp_test.Server.Ingest.{ingest_fragment}
use udp_test.Server.Ingest.Stream.{ingest_all, first_of}
use udp_test.Server.Session.{
  SessionError, System, Session, idle_timeout, clear_receive_timeout,
  apply_recv_timeout_for_session, count_round, count_loop, is_expired, receive_all,
}
use udp_test.Server.Session.Prompt.{IsPrompt, Current, Takes, receive_datagram-Takes}

module _ {E W : Type 0} (os : System E W) (queue : W → List Bytes) (time : W → ℕ)
    (prompt : IsPrompt os queue time) where
  -- The clock is read where a deadline is set and no batch is under way: it has not passed.
  not_expired :
      (active : Bool) (deadline : Option ℕ) (w : W)
      → Current os queue time prompt deadline w
      → (if active then (false, w) else is_expired os deadline w) ≡ (false, w)
  not_expired true deadline w current = refl
  not_expired false none w current = refl
  not_expired false (some deadline) w current =
      let past : leb deadline (time w) ≡ false = ground arith in rw (prompt.clock w, past) refl

  same_queue :
      (deadline : Option ℕ) (w : W) → queue (apply_recv_timeout_for_session os deadline w) ≡ queue w
  unfolding apply_recv_timeout_for_session clear_receive_timeout
  same_queue none w = prompt.option _ w
  same_queue (some deadline) w =
      rw (apply_recv_timeout_for_session, prompt.clock w) (prompt.option _ w)

  count_round-Takes :
      (r r' : Receiver) (w : W) (d : Bytes) (ds : List Bytes) (deadline : Option ℕ)
      → Current os queue time prompt deadline w
      → queue w ≡ d ∷ ds
      → ingest_fragment d r ≡ some r'
      → Takes os queue time prompt r' ds
          (count_round os (record { receiver = r; idle_deadline = deadline; world = w }))
  unfolding count_round
  count_round-Takes r r' w d ds deadline current q e =
      rw (not_expired r.reassembly.active deadline w current) (
        receive_datagram-Takes os queue time prompt r r'
          (apply_recv_timeout_for_session os deadline w) d ds deadline (same_queue deadline w ∙ q)
          e)

  -- A loop that returns, after some of the datagrams.
  pub record Stops (want : ℕ) (ds : List Bytes) (r : Receiver)
      (result : Result (SessionError E) (Session W)) : Type 0 where
    pub s : Session W
    pub returns : result ≡ returned s
    pub taken : List Bytes
    pub untaken : List Bytes
    pub split : ds ≡ taken ++ untaken
    pub receives : ingest_all taken r ≡ some s.receiver
    pub enough : want ≤ s.receiver.stats.batches

  Stops-now :
      (want rounds : ℕ) (ds : List Bytes) (r : Receiver) (w : W) (deadline : Option ℕ)
      → want ≤ r.stats.batches
      → Stops want ds r (
          count_loop os
            (suc rounds)
            want
            (record { receiver = r; idle_deadline = deadline; world = w }))
  unfolding count_loop
  Stops-now want rounds ds r w deadline enough =
      let b : ltb r.stats.batches want ≡ false = ground arith in
      record {
        s = record { receiver = r; idle_deadline = deadline; world = w };
        returns = rw b refl;
        taken = [];
        untaken = ds;
        split = refl;
        receives = refl;
        enough = enough;
      }

  count_loop-Stops :
      (want : ℕ) (ds : List Bytes) (r last : Receiver) (w : W) (deadline : Option ℕ)
      → Current os queue time prompt deadline w
      → queue w ≡ ds
      → ingest_all ds r ≡ some last
      → want ≤ last.stats.batches
      → Stops want ds r (
          count_loop os
            (length ds + 1)
            want
            (record { receiver = r; idle_deadline = deadline; world = w }))
  unfolding count_loop
  count_loop-Stops want [] r last w deadline current q e reach =
      let same : r ≡ last = cc e in
      Stops-now want 0 [] r w deadline
        (subst (λ (x : Receiver). want ≤ x.stats.batches) (sym same) reach)
  count_loop-Stops want (d ∷ ds) r last w deadline current q e reach =
      elim (le_cases want r.stats.batches) [
        | inl enough ↦
            let fuel : suc (length ds) + 1 ≡ suc (length ds + 1) = omega arith in
            rw fuel (Stops-now want (length ds + 1) (d ∷ ds) r w deadline enough)
        | inr more ↦
            let (r', one, others) = first_of d ds r last e in
            let t = count_round-Takes r r' w d ds deadline current q one in
            let fuel : suc (length ds) + 1 ≡ suc (length ds + 1) = omega arith in
            let go : ltb r.stats.batches want ≡ true = lt→ltb r.stats.batches want more in
            let rest =
              count_loop-Stops want ds r' last t.next (some (time t.next + idle_timeout)) refl
                t.left others reach in
            record {
              s = rest.s;
              returns = rw (fuel, go, t.goes_on) rest.returns;
              taken = d ∷ rest.taken;
              untaken = rest.untaken;
              split = ap (◌∷◌ d) rest.split;
              receives = rw one rest.receives;
              enough = rest.enough;
            }
      ]

  -- With `--count`, if the datagrams that are ready hold the batches wanted, the loop returns: it
  -- has then taken in a first part of the datagrams, in order, and counted at least that many
  -- batches. The system has every datagram ready, and its clock stands still but for the reads.
  pub receive_all-Stops :
      (want : ℕ) (ds : List Bytes) (last : Receiver) (w : W)
      → queue w ≡ ds
      → ingest_all ds fresh_receiver ≡ some last
      → want ≤ last.stats.batches
      → Stops want ds fresh_receiver (receive_all os (length ds + 1) (some want) w)
  unfolding clear_receive_timeout
  receive_all-Stops want ds last w q e reach =
      count_loop-Stops want ds fresh_receiver last (clear_receive_timeout os w) none tt
        (prompt.option _ w ∙ q) e reach
