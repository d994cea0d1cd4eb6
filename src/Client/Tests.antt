-- ===== src/Client/Tests.antt =====
-- A run of two batches, on a socket that keeps what it sends.
use udp_test.Base.{
  false, some, ℕ, ◌+◌, ◌-◌, ◌/◌, All, ◌≡◌, refl, sym, ap, ◌∙◌, arith, List, [], ◌∷◌, ◌++◌,
  append-nil, length, take, drop, join, Result, returned,
}
use udp_test.Crc.{Bytes, crc32_round, crc32_rounds, crc32_update, crc32_loop, crc32_compute}
use udp_test.Packet.{u32_bytes, header_bytes, put_crc32, batch_crc32, random_bytes, build_batch}
use udp_test.Packet.Samples.{counting, first_batch}
use udp_test.Windows.Address.{parse_address}
use udp_test.Uso.Samples.{asio}
use udp_test.Client.Main.{ClientSystem, main, Connects, Succeeds, main-Succeeds}
use udp_test.Server.State.{fresh_receiver}
use udp_test.Server.Ingest.Stream.{ingest_all}
use udp_test.Client.{send_whole, send_segments, send_batch_fallback, send_batches, run_client}
use udp_test.Client.Segments.{SendsAll, Sent, IsSegment, send_batch_fallback-Cut}
use udp_test.Client.Samples.{sending, command_line, accepted}
use udp_test.Client.Transfer.{Transferred, run_client-Transferred}

abbrev keep : Bytes → List Bytes → Result {0, 0} Unit (ℕ × List Bytes)
keep d sent = returned (length d, sent ++ d ∷ [])

keep-SendsAll : SendsAll keep (λ sent. sent)
keep-SendsAll = record { sends = λ d w. (w ++ d ∷ [], refl, refl) }

cut_in_three :
    send_batch_fallback keep first_batch 10 []
    ≡ returned (take 10 first_batch ∷ take 10 (drop 10 first_batch) ∷ drop 20 first_batch ∷ [])
unfolding send_batch_fallback send_segments send_whole
cut_in_three = refl

one_datagram : send_batch_fallback keep first_batch 0 [] ≡ returned (first_batch ∷ [])
unfolding send_batch_fallback send_whole
one_datagram = refl

send_batch_fallback-Cut_example :
    (ds : List Bytes) × Sent keep
      (λ sent. sent)
      keep-SendsAll
      []
      ds
      (send_batch_fallback keep first_batch 10 [])
    × (join ds ≡ first_batch)
    × All (IsSegment 10) ds
    × (length ds ≡ (24 + 10 - 1) / 10)
send_batch_fallback-Cut_example =
    send_batch_fallback-Cut keep (λ sent. sent) keep-SendsAll first_batch 10 [] (omega arith)

-- The two batches of a run, and the datagrams that a socket is given for them.
abbrev wire : List Bytes
wire =
    (80 ∷ 68 ∷ 85 ∷ 66 ∷ 0 ∷ 0 ∷ 0 ∷ 0 ∷ 2 ∷ 0 ∷ [])
    ∷ (0 ∷ 0 ∷ 24 ∷ 0 ∷ 0 ∷ 0 ∷ 246 ∷ 160 ∷ 146 ∷ 232 ∷ [])
    ∷ (7 ∷ 8 ∷ 9 ∷ 10 ∷ [])
    ∷ (80 ∷ 68 ∷ 85 ∷ 66 ∷ 1 ∷ 0 ∷ 0 ∷ 0 ∷ 2 ∷ 0 ∷ [])
    ∷ (0 ∷ 0 ∷ 24 ∷ 0 ∷ 0 ∷ 0 ∷ 201 ∷ 141 ∷ 43 ∷ 163 ∷ [])
    ∷ (11 ∷ 12 ∷ 13 ∷ 14 ∷ [])
    ∷ []

run_two : run_client keep counting 24 2 10 7 [] ≡ returned wire
unfolding run_client send_batches build_batch random_bytes header_bytes u32_bytes batch_crc32
    put_crc32 crc32_compute crc32_loop crc32_update crc32_rounds crc32_round send_batch_fallback
    send_segments send_whole
run_two = refl

-- All of it in one datagram.
wire_arrives :
    (w' : List Bytes)
    → run_client keep counting 24 2 10 7 [] ≡ returned w'
    → join w' ≡ [] ++ join (join wire ∷ [])
wire_arrives w' e =
    let same : w' ≡ wire = cc (e, run_two) in ap join same ∙ sym (append-nil (join wire))

run_client-Transferred_example :
    (w' : List Bytes) × (run_client keep counting 24 2 10 7 [] ≡ returned w')
    × Transferred 2 (ingest_all (join wire ∷ []) fresh_receiver)
run_client-Transferred_example =
    run_client-Transferred keep (λ sent. sent) keep-SendsAll counting 24 2 10 7 [] (join wire ∷ [])
      (omega arith) (omega arith) (omega arith) (omega arith) wire_arrives

abbrev portable : ClientSystem Unit (List Bytes) ℕ ℕ ℕ
portable = record { asio = asio; set_up = λ local w. returned w; send_to = λ remote. keep }

any_address : parse_address asio "0.0.0.0" ≡ some 0
unfolding parse_address
any_address = refl

far_address : parse_address asio "10.0.0.2" ≡ some 2
unfolding parse_address
far_address = refl

connects : Connects portable counting (λ sent. sent) (λ remote. keep-SendsAll) sending []
connects = record {
  dest = 2;
  source = 0;
  parses_dest = far_address;
  parses_source = any_address;
  bound_world = [];
  sets_up = refl;
  quiet = refl;
}

main-Succeeds_example :
    Succeeds portable counting
      (λ sent. sent)
      (λ remote. keep-SendsAll)
      sending
      []
      (record { address = connects.dest; port = 5000 })
      7
      (main portable counting command_line 7 [])
main-Succeeds_example =
    main-Succeeds portable counting (λ sent. sent) (λ remote. keep-SendsAll) sending command_line 7
      [] (accepted false) (omega arith) connects
