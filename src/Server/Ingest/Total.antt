-- ===== src/Server/Ingest/Total.antt =====
-- The end of `ingest_fragment`, and the invariant of the reassembly.
use udp_test.Base.{
  ℕ, zero, suc, ◌+◌, ◌-◌, ◌*◌, ◌≤◌, ◌<◌, ◌≡◌, refl, inl, inr, Bool, true, false, Option, none, some,
  [], ◌∷◌, arith, length, length-drop, Bool-cases, le_cases, ◌>>=◌,
}
use udp_test.Crc.{Bytes}
use udp_test.Packet.{PacketHeader, packet_header_size, read_header, validate_batch_session}
use udp_test.Server.State.{
  BatchReassembly, Receiver, ServerStats, reset_reassembly, count_fragment, count_bad,
}
use udp_test.Server.Ingest.{
  Ingest, salvage, recover, accept, try_complete_batch, continue_batch, ingest_round, pending,
  Round, leaves, continues, resume, ingest_loop, ingest_fragment, enough_fuel,
}
use udp_test.Server.Ingest.Absorb.{
  absorbed, length-absorbed, continue_batch_partial, continue_batch_complete,
}
use udp_test.Server.Ingest.Sound.{
  IsSound, SoundWhen, weight, idle, Advances, seek_header-Advances, length-salvage,
}

-- A call that returns: the receiver is sound, and holds no more bytes than went in.
abbrev pub Ends : ℕ → Option Receiver → Type 0
Ends held none = ⊥
Ends held (some r) = IsSound r.reassembly × (pending r.reassembly ≤ held)

-- Every call that carries fewer than `bound` bytes into an empty reassembly returns.
abbrev Serves : Ingest → ℕ → Type 0
Serves ingest bound =
    (carry : Bytes) (stats : ServerStats)
    → length carry < bound
    → Ends (length carry) (ingest carry (record { stats = stats; reassembly = reset_reassembly }))

abbrev EndsBelow : ℕ → Option Receiver → Type 0
EndsBelow bound none = ⊥
EndsBelow bound (some r) = IsSound r.reassembly × (pending r.reassembly < bound)

recover-Ends :
    (ingest : Ingest) (header : PacketHeader) (stats : ServerStats) (re : BatchReassembly)
    → Serves ingest re.expected
    → length re.buffer ≡ re.expected
    → packet_header_size ≤ re.expected
    → EndsBelow re.expected (recover ingest header stats re)
unfolding recover
recover-Ends ingest header stats re serves whole long =
    let got = salvage header re.expected re.buffer stats.wire_batch_total in
    ground (
      arith,
      length-salvage header re.expected re.buffer stats.wire_batch_total whole long,
      serves got.0 (record (count_bad stats) { wire_batch_total = got.1 }),
    )

abbrev CompletesBelow : ℕ → Option (Bool × Receiver) → Type 0
CompletesBelow bound none = ⊥
CompletesBelow bound (some (done, r)) = IsSound r.reassembly × (pending r.reassembly < bound)

try_complete_batch-Completes :
    (ingest : Ingest) (r : Receiver)
    → Serves ingest r.reassembly.expected
    → length r.reassembly.buffer ≡ r.reassembly.expected
    → packet_header_size ≤ r.reassembly.expected
    → CompletesBelow r.reassembly.expected (try_complete_batch ingest r)
unfolding try_complete_batch accept
try_complete_batch-Completes ingest r serves whole long =
    let header = read_header r.reassembly.buffer in
    let total = (validate_batch_session header r.stats.wire_batch_total).1 in
    ground (
      arith,
      recover-Ends ingest header (record (r.stats) { wire_batch_total = total }) r.reassembly serves
          whole long,
    )

abbrev RoundAdvances : ℕ → ℕ → Option Round → Type 0
RoundAdvances held limit none = ⊥
RoundAdvances held limit (some round) = Advances held limit round

-- A batch that is not yet complete waits for more; a complete one is dealt with, and the bytes
-- that it leaves behind are fewer than its own.
continue_batch-Advances :
    (ingest : Ingest) (rest : Bytes) (r : Receiver)
    → r.reassembly.active ≡ true
    → SoundWhen true r.reassembly
    → Serves ingest (length rest + r.reassembly.filled)
    → RoundAdvances
        (length rest + r.reassembly.filled)
        (2 * (length rest + r.reassembly.filled))
        (continue_batch ingest rest r)
continue_batch-Advances ingest rest r busy sound serves =
    elim (le_cases (expected - filled) (length rest)) [
      | inl all ↦ rw (continue_batch_complete ingest rest r sound all) (
          ground (
            arith,
            length-drop (expected - filled) rest,
            try_complete_batch-Completes ingest (record r { reassembly = whole })
                (λ c s h. serves c s (omega arith))
                (omega
                  (arith, length-absorbed (expected - filled) rest r.reassembly all (omega arith)))
                (omega arith),
          ))
      | inr part ↦ rw (continue_batch_partial ingest rest r sound part) (
          ground
            (arith, length-absorbed (length rest) rest r.reassembly (omega arith) (omega arith)))
    ]
  where
    open r.reassembly use {filled, expected}

    whole : BatchReassembly
    whole = absorbed (expected - filled) rest r.reassembly

ingest_round-Advances :
    (ingest : Ingest) (rest : Bytes) (r : Receiver)
    → IsSound r.reassembly
    → Serves ingest (length rest + pending r.reassembly)
    → RoundAdvances
        (length rest + pending r.reassembly)
        (weight rest r.reassembly)
        (ingest_round ingest rest r)
unfolding ingest_round
ingest_round-Advances ingest rest r sound serves = elim (Bool-cases r.reassembly.active) [
  | inl busy ↦ ground (arith, continue_batch-Advances ingest rest r busy)
  | inr idle_now ↦ ground (arith, seek_header-Advances rest r idle_now)
]

Ends-mono : (held more : ℕ) (o : Option Receiver) → held ≤ more → Ends held o → Ends more o
Ends-mono held more none h e = e
Ends-mono held more (some r) h e = (e.0, omega arith)

ingest_loop-nil : (fuel : ℕ) (r : Receiver) → 0 < fuel → ingest_loop fuel [] r ≡ some r
unfolding ingest_loop
ingest_loop-nil zero r h = absurd (omega arith)
ingest_loop-nil (suc fuel) r h = refl

-- The loop after a round that advanced.
resume-Ends :
    (fuel held limit : ℕ) (round : Option Round)
    → 0 < fuel
    → limit ≤ fuel
    → ((bytes : Bytes) (r : Receiver)
        → IsSound r.reassembly
        → weight bytes r.reassembly < fuel
        → Ends (length bytes + pending r.reassembly) (ingest_loop fuel bytes r))
    → RoundAdvances held limit round
    → Ends held (round >>= resume (ingest_loop fuel))
resume-Ends fuel held limit none pos h loop e = e
resume-Ends fuel held limit (some (leaves r)) pos h loop e = e
resume-Ends fuel held limit (some (continues rest r)) pos h loop (sound, fits, inl nothing) =
    rw (nothing, ingest_loop-nil fuel r pos) (sound, omega arith)
resume-Ends fuel held limit (some (continues rest r)) pos h loop (sound, fits, inr less) =
    Ends-mono (length rest + pending r.reassembly) held (ingest_loop fuel rest r) fits
      (loop rest r sound (omega arith))

-- The inner call, for the bytes carried over, has fuel enough too.
inner-Serves :
    (fuel bound : ℕ)
    → 2 * bound ≤ fuel
    → ((bytes : Bytes) (r : Receiver)
        → IsSound r.reassembly
        → weight bytes r.reassembly < fuel
        → Ends (length bytes + pending r.reassembly) (ingest_loop fuel bytes r))
    → Serves (λ carry r. ingest_loop fuel carry (count_fragment r)) bound
inner-Serves fuel bound h loop carry stats short =
    Ends-mono (length carry + 0) (length carry) (ingest_loop fuel carry (count_fragment start))
      (omega arith) (loop carry (count_fragment start) (omega arith) (omega arith))
  where
    start : Receiver
    start = record { stats = stats; reassembly = reset_reassembly }

-- With more fuel than the weight of the state the loop returns.
pub ingest_loop-Ends :
    (fuel : ℕ) (bytes : Bytes) (r : Receiver)
    → IsSound r.reassembly
    → weight bytes r.reassembly < fuel
    → Ends (length bytes + pending r.reassembly) (ingest_loop fuel bytes r)
unfolding ingest_loop
ingest_loop-Ends zero bytes r sound h = absurd (omega arith)
ingest_loop-Ends (suc fuel) [] r sound h = (sound, omega arith)
ingest_loop-Ends (suc fuel) (b ∷ rest) r sound h =
    resume-Ends fuel (length (b ∷ rest) + pending r.reassembly) (weight (b ∷ rest) r.reassembly)
      (ingest_round inner (b ∷ rest) r) (omega arith) (omega arith) (ingest_loop-Ends fuel)
      (ingest_round-Advances inner (b ∷ rest) r sound (
        inner-Serves fuel (length (b ∷ rest) + pending r.reassembly) (omega arith)
          (ingest_loop-Ends fuel)))
  where
    inner : Ingest
    inner = λ carry r'. ingest_loop fuel carry (count_fragment r')

pub weight-enough_fuel : (d : Bytes) (r : Receiver) → weight d r.reassembly < enough_fuel d r
weight-enough_fuel d r = bound r.reassembly.active (length d + pending r.reassembly)
  where
    bound : (active : Bool) (n : ℕ) → 2 * n + idle active < 2 * n + 3
    bound true n = omega arith
    bound false n = omega arith

-- For every datagram and every sound state of the reassembly `ingest_fragment` returns, within
-- `enough_fuel` rounds; the state that it leaves is sound again, and holds no more bytes than it
-- held before and the datagram brought.
pub ingest_fragment-Ends :
    (bytes : Bytes) (r : Receiver)
    → IsSound r.reassembly
    → Ends (length bytes + pending r.reassembly) (ingest_fragment bytes r)
unfolding ingest_fragment
ingest_fragment-Ends bytes r sound =
    ingest_loop-Ends (enough_fuel bytes r) bytes (count_fragment r) sound
      (weight-enough_fuel bytes r)
