-- ===== src/Server/Ingest/Accounts.antt =====
-- What the statistics of a session say: `try_complete_batch`, on a batch whose bytes are all in.
pub mod Loop
use udp_test.Base.{
  [], ℕ, ◌+◌, ◌-◌, ◌<◌, ◌≡◌, ◌⊎◌, inl, inr, refl, sym, subst, Bool, true, false, Option, none, some,
  List, ◌∷◌, arith, length, All, u64, ltb, take, drop, Bool-cases, ◌>>=◌,
}
use udp_test.Crc.{Bytes}
use udp_test.Packet.{
  PacketHeader, packet_header_size, read_header, BatchValidation, validate_batch,
  validate_batch_session,
}
use udp_test.Packet.Validity.{plausible_iff}
use udp_test.Server.State.{ServerStats, BatchReassembly, Receiver, reset_reassembly, count_bad}
use udp_test.Server.Sequence.{contains}
use udp_test.Server.Sequence.Tracked.{Distinct, track_sequence-old, track_sequence-new}
use udp_test.Server.Scan.{matches, find_next_batch_header_offset}
use udp_test.Server.Scan.Next.{EndsScan, find_next_batch_header_offset-Ends}
use udp_test.Server.Ingest.{
  Ingest, is_ok, is_empty, wanted_seq, salvage, recover, accept, try_complete_batch, Round, leaves,
  continues,
}

-- The numbers seen are below the session's total, and there are none while it has no total.
abbrev pub Within : Option ℕ → List ℕ → Type 0
Within none seen = seen ≡ []
Within (some total) seen = All (λ s. s < total) seen

-- Each batch that was counted is a number seen or a duplicate, and nothing is counted as lost yet.
abbrev pub IsAccounted : ServerStats → Type 0
IsAccounted stats =
    (stats.batches ≡ u64 (length stats.seen_seq + stats.duplicates))
    × (stats.lost ≡ 0)
    × Distinct stats.seen_seq
    × Within stats.wire_batch_total stats.seen_seq

-- A total that was set stays.
abbrev Extends : Option ℕ → Option ℕ → Type 0
Extends wire wire' = (wire' ≡ wire) ⊎ (wire ≡ none)

Within-Extends :
    (wire wire' : Option ℕ) (seen : List ℕ)
    → Extends wire wire'
    → Within wire seen
    → Within wire' seen
Within-Extends wire wire' seen (inl same) w = subst (λ (o : Option ℕ). Within o seen) (sym same) w
Within-Extends wire none seen (inr unset) w = subst (λ (o : Option ℕ). Within o seen) unset w
Within-Extends wire (some total) seen (inr unset) w =
    let empty : seen ≡ [] = subst (λ (o : Option ℕ). Within o seen) unset w in
    subst (λ l. All (λ s. s < total) l) (sym empty) tt

validate_batch_session-Extends :
    (h : PacketHeader) (wire : Option ℕ) → Extends wire (validate_batch_session h wire).1
unfolding validate_batch_session
validate_batch_session-Extends h none = inr refl
validate_batch_session-Extends h (some total) = ground arith

validate_batch_session-accepted :
    (h : PacketHeader) (wire : Option ℕ)
    → is_ok (validate_batch_session h wire).0 ≡ true
    → ((validate_batch_session h wire).1 ≡ some h.batch_total) × (h.seq < h.batch_total)
unfolding validate_batch_session
validate_batch_session-accepted h none e = ground (arith, plausible_iff h)
validate_batch_session-accepted h (some total) e = ground (arith, plausible_iff h)

matches-Extends :
    (wire wire' : Option ℕ) (total : ℕ)
    → matches wire total ≡ true
    → wire' ≡ some total
    → Extends wire wire'
matches-Extends none wire' total e set = inr refl
matches-Extends (some t) wire' total e set = inl (ground arith)

find_next-Extends :
    (bytes : Bytes) (want wire : Option ℕ)
    → Extends wire (find_next_batch_header_offset bytes want wire).1
find_next-Extends bytes want wire =
    by_end (find_next_batch_header_offset bytes want wire)
      (find_next_batch_header_offset-Ends bytes want wire)
  where
    by_end : (r : ℕ × Option ℕ) → EndsScan bytes want wire 1 r → (r.1 ≡ wire) ⊎ (wire ≡ none)
    by_end (n, wire') (inl stopped) = inl stopped.1
    by_end (n, wire') (inr c) =
        matches-Extends wire wire' (read_header (drop n bytes)).batch_total c.candidate.in_session
          c.candidate.session_after

salvage-Extends :
    (header : PacketHeader) (n : ℕ) (buffer : Bytes) (wire : Option ℕ)
    → Extends wire (salvage header n buffer wire).1
unfolding salvage
salvage-Extends header n buffer wire =
    ground (arith, find_next-Extends (take n buffer) (wanted_seq header) wire)

accept-IsAccounted :
    (header : PacketHeader) (stats : ServerStats)
    → IsAccounted stats
    → stats.wire_batch_total ≡ some header.batch_total
    → header.seq < header.batch_total
    → IsAccounted (accept header stats).stats
unfolding accept
accept-IsAccounted header stats (counted, lost, distinct, within) total inside =
    elim (Bool-cases (contains stats.seen_seq header.seq)) [
      | inl old ↦
          rw (track_sequence-old stats header.seq old)
            (omega (arith, counted), lost, distinct, within)
      | inr new ↦
          rw (track_sequence-new stats header.seq new)
            (omega (arith, counted), lost, (new, distinct), grown)
    ]
  where
    grown : Within stats.wire_batch_total (header.seq ∷ stats.seen_seq)
    grown =
        subst (λ (o : Option ℕ). Within o (header.seq ∷ stats.seen_seq)) (sym total)
          (inside, subst (λ (o : Option ℕ). Within o stats.seen_seq) total within)

-- A later total keeps the accounts.
with_wire :
    (stats : ServerStats) (wire' : Option ℕ)
    → IsAccounted stats
    → Extends stats.wire_batch_total wire'
    → IsAccounted (record stats { wire_batch_total = wire' })
with_wire stats wire' (counted, lost, distinct, within) e =
    (counted, lost, distinct, Within-Extends stats.wire_batch_total wire' stats.seen_seq e within)

-- A call keeps the accounts, if it returns.
abbrev Keeps : Option Receiver → Type 0
Keeps none = Unit
Keeps (some r) = IsAccounted r.stats

abbrev KeepsAll : Ingest → Type 0
KeepsAll ingest = (bytes : Bytes) (r : Receiver) → IsAccounted r.stats → Keeps (ingest bytes r)

abbrev KeepsPair : Option (Bool × Receiver) → Type 0
KeepsPair none = Unit
KeepsPair (some (done, r)) = IsAccounted r.stats

abbrev KeepsRound : Round → Type 0
KeepsRound (leaves r) = IsAccounted r.stats
KeepsRound (continues rest r) = IsAccounted r.stats

abbrev KeepsSome : Option Round → Type 0
KeepsSome none = Unit
KeepsSome (some round) = KeepsRound round

recover-Keeps :
    (ingest : Ingest) (header : PacketHeader) (stats : ServerStats) (re : BatchReassembly)
    → KeepsAll ingest
    → IsAccounted stats
    → Keeps (recover ingest header stats re)
unfolding recover
recover-Keeps ingest header stats re keeps acc =
    let got = salvage header re.expected re.buffer stats.wire_batch_total in
    let after =
      with_wire (count_bad stats) got.1 acc
        (salvage-Extends header re.expected re.buffer stats.wire_batch_total) in
    elim (Bool-cases (is_empty got.0)) [
      | inl nothing ↦ rw nothing after
      | inr carried ↦ rw carried (
          keeps got.0
            (record {
              stats = record (count_bad stats) { wire_batch_total = got.1 };
              reassembly = reset_reassembly;
            })
            after)
    ]

pair_of : (o : Option Receiver) → Keeps o → KeepsPair (o >>= (λ r. some (false, r)))
pair_of none k = tt
pair_of (some r) k = k

try_complete_batch-Keeps :
    (ingest : Ingest) (r : Receiver)
    → KeepsAll ingest
    → IsAccounted r.stats
    → KeepsPair (try_complete_batch ingest r)
unfolding try_complete_batch
try_complete_batch-Keeps ingest r keeps acc =
    elim (Bool-cases (ltb r.reassembly.expected packet_header_size)) [
      | inl small ↦ rw small acc
      | inr large ↦ elim (Bool-cases (is_ok check.0)) [
        | inl good ↦
            elim (Bool-cases
              (is_ok (validate_batch (take r.reassembly.expected r.reassembly.buffer)))) [
                | inl whole ↦
                    let (total, inside) = validate_batch_session-accepted header wire good in
                    rw (large, good, whole) (accept-IsAccounted header stats checked total inside)
                | inr corrupt ↦
                    rw (large, good, corrupt)
                      (pair_of (recover ingest header stats r.reassembly)
                        (recover-Keeps ingest header stats r.reassembly keeps checked))
              ]
        | inr refused ↦ rw (large, refused) checked
      ]
    ]
  where
    header : PacketHeader
    header = read_header r.reassembly.buffer

    wire : Option ℕ
    wire = r.stats.wire_batch_total

    check : BatchValidation × Option ℕ
    check = validate_batch_session header wire

    stats : ServerStats
    stats = record (r.stats) { wire_batch_total = check.1 }

    checked : IsAccounted stats
    checked = with_wire r.stats check.1 acc (validate_batch_session-Extends header wire)
