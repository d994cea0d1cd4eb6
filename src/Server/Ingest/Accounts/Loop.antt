-- ===== src/Server/Ingest/Accounts/Loop.antt =====
-- What the statistics of a session say: the loop of `ingest_fragment`.
use udp_test.Base.{
  ℕ, zero, suc, ◌+◌, ◌-◌, min, ◌||◌, ◌^◌, ◌≡◌, refl, Bool, true, false, not, Option, none, some,
  List, [], ◌∷◌, arith, length, u64, leb, ltb, drop, if◌then◌else◌, ◌==◌, ◌>>=◌,
}
use udp_test.Crc.{Bytes}
use udp_test.Packet.{
  packet_header_size, read_header, BatchValidation, validate_batch_session, peek_batch_length,
}
use udp_test.Server.State.{Receiver, count_fragment, fresh_receiver}
use udp_test.Server.Scan.{max_batch_size, find_batch_header_offset}
use udp_test.Server.Ingest.{
  Ingest, is_ok, is_empty, try_complete_batch, Round, leaves, continues, Filled, short, full,
  after_fill, fill_header, activate, examine_header, collect_header, seek_header, absorb,
  continue_batch, ingest_round, resume, ingest_loop, ingest_fragment, enough_fuel,
}
use udp_test.Server.Ingest.Accounts.{
  IsAccounted, Keeps, KeepsAll, KeepsPair, KeepsRound, KeepsSome, with_wire,
  try_complete_batch-Keeps, validate_batch_session-Extends,
}
use udp_test.Server.Ingest.Total.{Ends, ingest_fragment-Ends}
use udp_test.Server.Ingest.Sound.{IsSound}
use udp_test.Server.Ingest.Stream.{ingest_all}

if-KeepsRound :
    (b : Bool) (x y : Round) → KeepsRound x → KeepsRound y → KeepsRound (if b then x else y)
if-KeepsRound true x y p q = p
if-KeepsRound false x y p q = q

examine_header-Keeps :
    (buffer rest : Bytes) (r : Receiver)
    → IsAccounted r.stats
    → KeepsRound (examine_header buffer rest r)
unfolding examine_header activate
examine_header-Keeps buffer rest r acc = if-KeepsRound (peek_batch_length buffer == 0) _ _ acc (
    if-KeepsRound (not (is_ok check.0)) _ _ checked (
      if-KeepsRound
        (ltb (peek_batch_length buffer) packet_header_size
          || ltb max_batch_size (peek_batch_length buffer))
        _ _ checked checked))
  where
    check : BatchValidation × Option ℕ
    check = validate_batch_session (read_header buffer) r.stats.wire_batch_total

    checked : IsAccounted (record (r.stats) { wire_batch_total = check.1 })
    checked =
        with_wire r.stats check.1 acc
          (validate_batch_session-Extends (read_header buffer) r.stats.wire_batch_total)

after_fill-Keeps : (r : Receiver) (f : Filled) → IsAccounted r.stats → KeepsRound (after_fill r f)
after_fill-Keeps r (short buffer) acc = acc
after_fill-Keeps r (full buffer rest) acc = examine_header-Keeps buffer rest r acc

collect_header-Keeps :
    (rest : Bytes) (r : Receiver) → IsAccounted r.stats → KeepsRound (collect_header rest r)
unfolding collect_header
collect_header-Keeps rest r acc = after_fill-Keeps r (fill_header r.reassembly.buffer rest) acc

seek_header-Keeps :
    (rest : Bytes) (r : Receiver) → IsAccounted r.stats → KeepsRound (seek_header rest r)
unfolding seek_header
seek_header-Keeps rest r acc =
    if-KeepsRound (is_empty r.reassembly.buffer) _ _
      (if-KeepsRound (leb (length rest) (find_batch_header_offset rest)) _ _ acc
        (collect_header-Keeps (drop (find_batch_header_offset rest) rest) r acc))
      (collect_header-Keeps rest r acc)

round_of :
    (rest : Bytes) (o : Option (Bool × Receiver))
    → KeepsPair o
    → KeepsSome (o >>= (λ (done, r). some (continues rest r)))
round_of rest none k = tt
round_of rest (some (done, r)) k = k

if-KeepsSome :
    (b : Bool) (x y : Option Round) → KeepsSome x → KeepsSome y → KeepsSome (if b then x else y)
if-KeepsSome true x y p q = p
if-KeepsSome false x y p q = q

continue_batch-Keeps :
    (ingest : Ingest) (rest : Bytes) (r : Receiver)
    → KeepsAll ingest
    → IsAccounted r.stats
    → KeepsSome (continue_batch ingest rest r)
unfolding continue_batch
continue_batch-Keeps ingest rest r keeps acc =
    let n = min (length rest) (u64 (r.reassembly.expected + 2 ^ 64 - r.reassembly.filled)) in
    let r' : Receiver = record r { reassembly = absorb n rest r.reassembly } in
    if-KeepsSome (leb r'.reassembly.expected r'.reassembly.filled) _ _
      (round_of (drop n rest) (try_complete_batch ingest r')
        (try_complete_batch-Keeps ingest r' keeps acc))
      acc

ingest_round-Keeps :
    (ingest : Ingest) (rest : Bytes) (r : Receiver)
    → KeepsAll ingest
    → IsAccounted r.stats
    → KeepsSome (ingest_round ingest rest r)
unfolding ingest_round
ingest_round-Keeps ingest rest r keeps acc =
    if-KeepsSome r.reassembly.active _ _ (continue_batch-Keeps ingest rest r keeps acc)
      (seek_header-Keeps rest r acc)

resume-Keeps :
    (ingest : Ingest) (o : Option Round)
    → KeepsAll ingest
    → KeepsSome o
    → Keeps (o >>= resume ingest)
resume-Keeps ingest none keeps k = tt
resume-Keeps ingest (some (leaves r)) keeps k = k
resume-Keeps ingest (some (continues rest r)) keeps k = keeps rest r k

ingest_loop-Keeps : (fuel : ℕ) → KeepsAll (ingest_loop fuel)
unfolding ingest_loop
ingest_loop-Keeps zero bytes r acc = tt
ingest_loop-Keeps (suc fuel) [] r acc = acc
ingest_loop-Keeps (suc fuel) (b ∷ rest) r acc =
    let keeps = ingest_loop-Keeps fuel in
    resume-Keeps (ingest_loop fuel) _ keeps (
      ingest_round-Keeps (λ carry r'. ingest_loop fuel carry (count_fragment r')) (b ∷ rest) r
        (λ carry r' acc'. keeps carry (count_fragment r') acc') acc)

ingest_fragment-Keeps : KeepsAll ingest_fragment
unfolding ingest_fragment
ingest_fragment-Keeps bytes r acc =
    ingest_loop-Keeps (enough_fuel bytes r) bytes (count_fragment r) acc

-- Both invariants, over all the datagrams of a session.
abbrev Holds : Option Receiver → Type 0
Holds none = ⊥
Holds (some r) = IsAccounted r.stats × IsSound r.reassembly

both : (held : ℕ) (o : Option Receiver) → Ends held o → Keeps o → Holds o
both held none ends k = absurd ends
both held (some r) ends k = (k, ends.0)

ingest_fragment-Holds :
    (bytes : Bytes) (r : Receiver)
    → IsAccounted r.stats
    → IsSound r.reassembly
    → Holds (ingest_fragment bytes r)
ingest_fragment-Holds bytes r acc sound =
    both _ (ingest_fragment bytes r) (ingest_fragment-Ends bytes r sound)
      (ingest_fragment-Keeps bytes r acc)

ingest_all-Holds :
    (datagrams : List Bytes) (r : Receiver)
    → IsAccounted r.stats
    → IsSound r.reassembly
    → Holds (ingest_all datagrams r)
ingest_all-Holds [] r acc sound = (acc, sound)
ingest_all-Holds (d ∷ datagrams) r acc sound =
    on (ingest_fragment d r) (ingest_fragment-Holds d r acc sound) (ingest_all-Holds datagrams)
  where
    on :
        (o : Option Receiver)
        → Holds o
        → ((r' : Receiver)
            → IsAccounted r'.stats
            → IsSound r'.reassembly
            → Holds (ingest_all datagrams r'))
        → Holds (o >>= ingest_all datagrams)
    on none h rest = absurd h
    on (some r') h rest = rest r' h.0 h.1

-- What a session has made of its datagrams.
pub record Accounts (result : Option Receiver) : Type 0 where
  pub r : Receiver
  pub returns : result ≡ some r
  pub accounted : IsAccounted r.stats
  pub sound : IsSound r.reassembly

Accounts-Holds : (o : Option Receiver) → Holds o → Accounts o
Accounts-Holds none h = absurd h
Accounts-Holds (some r) h = record { r = r; returns = refl; accounted = h.0; sound = h.1 }

-- Whatever datagrams a new session receives, each call of `ingest_fragment` returns. Then the
-- reassembly is sound, nothing is counted as lost, the numbers seen are distinct and below the
-- session's total, with none seen while it has no total, and the batches counted are the numbers
-- seen and the duplicates together, modulo 2 ^ 64.
pub ingest_all-Accounts : (datagrams : List Bytes) → Accounts (ingest_all datagrams fresh_receiver)
ingest_all-Accounts datagrams =
    Accounts-Holds (ingest_all datagrams fresh_receiver)
      (ingest_all-Holds datagrams fresh_receiver (refl, refl, tt, refl) (omega arith))
