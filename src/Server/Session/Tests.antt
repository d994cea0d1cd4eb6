-- ===== src/Server/Session/Tests.antt =====
-- Sessions on a system whose datagrams are a list.
use udp_test.Base.{
  ◌≡◌, refl, arith, Bool, true, false, none, some, List, [], ◌∷◌, ◌++◌, Result, returned, thrown,
  ap, ◌∙◌, take, drop, incr,
}
use udp_test.Crc.{Bytes}
use udp_test.Packet.Validity.{validate_batch-ok_iff}
use udp_test.Packet.Samples.{bare_batch, bare_valid, first_batch, second_batch}
use udp_test.Server.State.{Receiver, fresh_receiver}
use udp_test.Server.Samples.{
  IsDeliverable-first, IsDeliverable-second, two_datagrams, two_received, receive_two,
}
use udp_test.Server.Sequence.{contains}
use udp_test.Server.Sequence.Lost.{finalize_lost_total}
use udp_test.Server.Ingest.{ingest_fragment}
use udp_test.Server.Session.{
  System, ErrorCode, timed_out, run_receive_loop, receive_datagram, receive_all, end_session,
  drop_incomplete,
}
use udp_test.Server.Session.Prompt.{IsPrompt, run_receive_loop-idle}
use udp_test.Server.Session.Count.{Stops, receive_all-Stops}
use udp_test.Server.Session.Accounts.{Summary, end_session-Summary}
use udp_test.Server.Session.Report.{Reports, end_session-Reports}
use udp_test.Server.Ingest.Stream.{ingest_all}
use udp_test.Server.Session.Settled.{Settles, receive_datagram-Settles}
use udp_test.Server.Session.HeaderOnly.{ingest_fragment-header_only}

abbrev take_one : List Bytes → Result (ErrorCode Unit) Bytes × List Bytes
take_one [] = (thrown timed_out, [])
take_one (d ∷ ds) = (returned d, ds)

abbrev is_waiting : List Bytes → Bool
is_waiting [] = false
is_waiting (d ∷ ds) = true

abbrev listed : System Unit (List Bytes)
listed = record {
  windows = false;
  receive_from = take_one;
  setsockopt = λ timeout w. w;
  select = λ timeout w. (is_waiting w, w);
  poll = λ ms w. (is_waiting w, w);
  now = λ w. (7, w);
}

listed-IsPrompt : IsPrompt listed (λ w. w) (λ w. 7)
listed-IsPrompt = record {
  clock = λ w. refl;
  option = λ timeout w. refl;
  option_time = λ timeout w. refl;
  ready = λ ms w d ds e. ap (λ x. (is_waiting x, w)) e;
  times_out = λ ms w e. ap (λ x. (is_waiting x, w)) e;
  selects = λ timeout w d ds e. ap (λ x. (is_waiting x, w)) e;
  selects_none = λ timeout w e. ap (λ x. (is_waiting x, w)) e;
  reads = λ w d ds e. (ds, ap take_one e, refl);
}

two_ended : end_session none two_received ≡ some two_received.stats
unfolding end_session drop_incomplete contains
two_ended =
    let (lost, returns, total) =
      finalize_lost_total two_received.stats none 2 refl (omega arith) (omega arith) refl
        (refl, (refl, tt)) (omega arith) in
    let none_lost : lost ≡ 0 = omega (arith, total) in
    returns ∙ ap (λ k. some (record (two_received.stats) { lost = k })) none_lost

run_receive_loop-idle_example :
    (w' : List Bytes) × (run_receive_loop listed 4 none two_datagrams
      ≡ returned (two_received.stats, w'))
run_receive_loop-idle_example =
    run_receive_loop-idle listed (λ w. w) (λ w. 7) listed-IsPrompt (take 5 first_batch)
      (drop 1 two_datagrams) two_received two_received.stats two_datagrams refl receive_two
      two_ended

receive_all-Stops_example :
    Stops listed
      (λ w. w)
      (λ w. 7)
      listed-IsPrompt
      2
      two_datagrams
      fresh_receiver
      (receive_all listed 4 (some 2) two_datagrams)
receive_all-Stops_example =
    receive_all-Stops listed (λ w. w) (λ w. 7) listed-IsPrompt 2 two_datagrams two_received
      two_datagrams refl receive_two (omega arith)

receive_datagram-Settles_example :
    Settles fresh_receiver
      (returned (take 5 first_batch))
      (receive_datagram listed fresh_receiver two_datagrams)
receive_datagram-Settles_example =
    receive_datagram-Settles listed fresh_receiver two_datagrams (omega arith)

ingest_fragment-header_only_example :
    (after : Receiver) × (ingest_fragment bare_batch fresh_receiver ≡ some after)
    × (after.reassembly.active ≡ true)
    × (after.reassembly.filled ≡ after.reassembly.expected)
    × (after.stats.batches ≡ 0)
    × ((drop_incomplete after).bad_batches ≡ incr 0)
ingest_fragment-header_only_example =
    ingest_fragment-header_only bare_batch fresh_receiver
      ((validate_batch-ok_iff bare_batch).0 bare_valid) refl refl refl
      ((validate_batch-ok_iff bare_batch).0 bare_valid).meta

end_session-Summary_example : Summary 2 (end_session none two_received)
end_session-Summary_example =
    end_session-Summary two_datagrams two_received 2 receive_two refl (omega arith) (omega arith)

-- The second batch comes before the first, and again after it.
abbrev shuffled : List Bytes
shuffled = (second_batch ++ take 5 first_batch) ∷ (drop 5 first_batch ++ second_batch) ∷ []

end_session-Reports_example :
    Reports 2 (second_batch ∷ first_batch ∷ second_batch ∷ []) (ingest_all shuffled fresh_receiver)
end_session-Reports_example =
    end_session-Reports 2 shuffled second_batch (first_batch ∷ second_batch ∷ []) refl
      (IsDeliverable-second, (IsDeliverable-first, (IsDeliverable-second, tt))) (omega arith)
