-- ===== src/Server/Session/Settled.antt =====
-- What every call of `receive_datagram` leaves, and how many sessions a server runs.
use udp_test.Base.{
  ℕ, zero, suc, ◌+◌, ◌^◌, ◌<◌, ◌≡◌, refl, ap, subst, inl, inr, Bool, true, false, Option, none,
  some, List, [], ◌∷◌, arith, length, u64, leb, Result, returned, thrown, Option-cases,
}
use udp_test.Crc.{Bytes}
use udp_test.Server.State.{ServerStats, Receiver}
use udp_test.Server.Ingest.{ingest_fragment, pending}
use udp_test.Server.Ingest.Sound.{IsSound}
use udp_test.Server.Ingest.Total.{Ends, ingest_fragment-Ends}
use udp_test.Server.Session.{
  ErrorCode, timed_out, try_again, would_block, other, is_receive_timeout, SessionError, system,
  System, received, receive_datagram, run_receive_loop, run_sessions,
}

module _ {E W : Type 0} where
  -- A timeout leaves the receiver as it was, and reports that nothing came; any other error of the
  -- socket is thrown; a datagram is taken in whole, and leaves a sound receiver.
  abbrev pub Settles :
      Receiver
      → Result (ErrorCode E) Bytes
      → Result (SessionError E) (Bool × (Receiver × W))
      → Type 0
  Settles r (returned d) (returned (got, (r', w))) =
      (got ≡ true) × (ingest_fragment d r ≡ some r') × IsSound r'.reassembly
  Settles r (returned d) (thrown e) = ⊥
  Settles r (thrown (other x)) (thrown e) = e ≡ system (other x)
  Settles r (thrown (other x)) (returned _) = ⊥
  Settles r (thrown _) (returned (got, (r', w))) = (got ≡ false) × (r' ≡ r)
  Settles r (thrown _) (thrown e) = ⊥

  received-Settles :
      (os : System E W) (r : Receiver) (outcome : Result (ErrorCode E) Bytes) (w : W)
      → IsSound r.reassembly
      → Settles r outcome (received os r outcome w)
  unfolding received is_receive_timeout
  received-Settles os r (returned d) w sound = elim (Option-cases (ingest_fragment d r)) [
    | inl lost ↦ absurd (subst (Ends held) lost (ingest_fragment-Ends d r sound))
    | inr (r', taken) ↦
        let ends = subst (Ends held) taken (ingest_fragment-Ends d r sound) in
        rw taken (refl, taken, ends.0)
  ]
    where
      held : ℕ
      held = length d + pending r.reassembly
  received-Settles os r (thrown timed_out) w sound = (refl, refl)
  received-Settles os r (thrown try_again) w sound = (refl, refl)
  received-Settles os r (thrown would_block) w sound = (refl, refl)
  received-Settles os r (thrown (other x)) w sound = refl

  -- For a sound receiver, `receive_datagram` takes in a datagram whole, which leaves a sound
  -- receiver; on a timeout it reports that nothing came, and leaves the receiver as it was; any
  -- other error of the socket is thrown on.
  pub receive_datagram-Settles :
      (os : System E W) (r : Receiver) (w : W)
      → IsSound r.reassembly
      → Settles r (os.receive_from w).0 (receive_datagram os r w)
  unfolding receive_datagram
  receive_datagram-Settles os r w sound =
      received-Settles os r (os.receive_from w).0 (os.receive_from w).1 sound

-- A server each of whose sessions returns.
module _ {E W : Type 0} (os : System E W) (rounds : ℕ) (batch_count : Option ℕ)
    (serves : (w : W)
      → (stats : ServerStats) × (w' : W) × (run_receive_loop os rounds batch_count w
          ≡ returned (stats, w'))) where
  abbrev pub Summaries : ℕ → Result (SessionError E) (List ServerStats × W) → Type 0
  Summaries n result =
      (summaries : List ServerStats) × (w' : W) × (result ≡ returned (summaries, w'))
      × (length summaries ≡ n)

  sessions_left :
      (left session loop_count : ℕ) (w : W)
      → session + suc left ≡ loop_count
      → loop_count < 2 ^ 64
      → Summaries
          (suc left)
          (run_sessions os (suc left) rounds batch_count true (some loop_count) session w)
  unfolding run_sessions
  sessions_left zero session loop_count w e fits =
      let (stats, w', returns) = serves w in
      let next : u64 (session + 1) ≡ session + 1 = omega arith in
      let last : leb loop_count (session + 1) ≡ true = ground arith in
      rw (returns, next, last) (stats ∷ [], w', refl, refl)
  sessions_left (suc left) session loop_count w e fits =
      let (stats, w', returns) = serves w in
      let next : u64 (session + 1) ≡ session + 1 = omega arith in
      let more : leb loop_count (session + 1) ≡ false = ground arith in
      let (summaries, w'', others, number) =
        sessions_left left (session + 1) loop_count w' (omega arith) fits in
      rw (returns, next, more, others) (stats ∷ summaries, w'', refl, ap suc number)

  -- If every session returns, a server without `--loop` runs one session and prints one summary,
  -- and a server with `--loop n` runs n, and prints n, for n from 1 to 2 ^ 64 - 1.
  pub run_sessions-Summaries :
      (loop_count : ℕ) (w : W)
      → 0 < loop_count
      → loop_count < 2 ^ 64
      → Summaries 1 (run_sessions os 1 rounds batch_count false none 0 w)
        × Summaries loop_count
            (run_sessions os loop_count rounds batch_count true (some loop_count) 0 w)
  unfolding run_sessions
  run_sessions-Summaries zero w pos fits = absurd (omega arith)
  run_sessions-Summaries (suc n) w pos fits =
      let (stats, w', returns) = serves w in
      (rw returns (stats ∷ [], w', refl, refl), sessions_left n 0 (suc n) w (omega arith) fits)
