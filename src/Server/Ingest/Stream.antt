-- ===== src/Server/Ingest/Stream.antt =====
-- A stream of complete batches, and where a receiver stands in it.
mod Cut
pub mod Stages
pub mod Reach
use udp_test.Base.{
  [], ℕ, zero, suc, ◌+◌, ◌-◌, ◌*◌, ◌<◌, ◌≡◌, refl, sym, ap, ◌∙◌, ◌⊎◌, inl, inr, false, Option, none,
  some, List, ◌∷◌, ◌++◌, arith, length, join, All, ◌>>=◌, incr, Option-cases,
}
use udp_test.Crc.{Bytes}
use udp_test.Packet.{PacketHeader, packet_header_size, read_header}
use udp_test.Packet.Validity.{IsValidBatch, IsPlausible, Accepts}
use udp_test.Server.State.{Receiver, ServerStats}
use udp_test.Server.Sequence.{track_sequence}
use udp_test.Server.Ingest.{ingest_loop, ingest_fragment}
use udp_test.Server.Ingest.Sound.{weight}
use udp_test.Server.Ingest.Incoming.{Waits, Gathers}

-- What a complete batch does to the statistics.
abbrev pub deliver : ServerStats → Bytes → ServerStats
deliver stats batch =
    let header = read_header batch in
    let tracked =
      track_sequence (record stats { wire_batch_total = some header.batch_total }) header.seq in
    record tracked { batches = incr tracked.batches }

abbrev pub deliveries : ServerStats → List Bytes → ServerStats
deliveries stats [] = stats
deliveries stats (batch ∷ batches) = deliveries (deliver stats batch) batches

-- The datagrams of a run, in the order in which they are received.
abbrev pub ingest_all : List Bytes → Receiver → Option Receiver
ingest_all [] r = some r
ingest_all (d ∷ ds) r = ingest_fragment d r >>= ingest_all ds

-- A stream whose first datagram is taken in.
pub first_of :
    (d : Bytes) (ds : List Bytes) (r last : Receiver)
    → ingest_all (d ∷ ds) r ≡ some last
    → (r' : Receiver) × (ingest_fragment d r ≡ some r') × (ingest_all ds r' ≡ some last)
first_of d ds r last e = elim (Option-cases (ingest_fragment d r)) [
  | inl lost ↦ cc (e, lost)
  | inr (r', one) ↦ (r', one, sym (ap (λ x. x >>= ingest_all ds) one) ∙ e)
]

pub wire-track_sequence :
    (stats : ServerStats) (seq : ℕ)
    → (track_sequence stats seq).wire_batch_total ≡ stats.wire_batch_total
unfolding track_sequence
wire-track_sequence stats seq = ground arith

pub ingest_loop-nil : (fuel : ℕ) (r : Receiver) → 0 < fuel → ingest_loop fuel [] r ≡ some r
unfolding ingest_loop
ingest_loop-nil zero r h = absurd (omega arith)
ingest_loop-nil (suc fuel) r h = refl

-- Part `p` of a batch is in the receiver, and `q` is still to come.
pub record Awaits (batch rest left : Bytes) (r : Receiver) : Type 0 where
  pub p : Bytes
  pub q : Bytes
  pub whole : batch ≡ p ++ q
  pub more : 0 < length q
  pub coming : left ≡ q ++ rest
  pub shape : Waits batch p r ⊎ Gathers batch p q r

-- The receiver has dealt with all but the given batches, of which `left` is still to come.
abbrev pub Synced : List Bytes → Bytes → Receiver → Type 0
Synced [] left r = (left ≡ []) × (r.reassembly.active ≡ false) × (r.reassembly.buffer ≡ [])
Synced (batch ∷ batches) left r = Awaits batch (join batches) left r

weight-Waits :
    (batch p d : Bytes) (r : Receiver)
    → Waits batch p r
    → weight d r.reassembly ≡ 2 * (length d + length p) + 1
weight-Waits batch p d r w = ground (arith, ap length w.1)

pub weight-Gathers :
    (batch p q d : Bytes) (r : Receiver)
    → Gathers batch p q r
    → weight d r.reassembly ≡ 2 * (length d + length p)
weight-Gathers batch p q d r g = ground arith

module _ (total : ℕ) where
  -- A batch of the run that is more than a header.
  pub record IsDeliverable (batch : Bytes) : Type 0 where
    pub valid : IsValidBatch batch
    pub payload : packet_header_size < length batch
    pub totalled : (read_header batch).batch_total ≡ total

  -- The session has no total yet, or that of the run.
  abbrev pub Joins : ServerStats → Type 0
  Joins stats = (stats.wire_batch_total ≡ none) ⊎ (stats.wire_batch_total ≡ some total)

  pub Joins-Accepts :
      (wire : Option ℕ) (h : PacketHeader)
      → IsPlausible h
      → h.batch_total ≡ total
      → (wire ≡ none) ⊎ (wire ≡ some total)
      → Accepts wire h
  Joins-Accepts none h meta totalled j = meta
  Joins-Accepts (some t) h meta totalled (inl e) = cc
  Joins-Accepts (some t) h meta totalled (inr e) = (meta, ground (arith, totalled))

  -- An empty receiver waits for whatever comes next.
  pub ready :
      (batches : List Bytes) (r : Receiver)
      → All IsDeliverable batches
      → Joins r.stats
      → r.reassembly.active ≡ false
      → r.reassembly.buffer ≡ []
      → Synced batches (join batches) r
  ready [] r all j idle_now empty = (refl, idle_now, empty)
  ready (batch ∷ batches) r all j idle_now empty = record {
    p = [];
    q = batch;
    whole = refl;
    more = omega (arith, all.0.payload);
    coming = refl;
    shape = inl (
      idle_now,
      empty,
      omega arith,
      Joins-Accepts r.stats.wire_batch_total (read_header batch) all.0.valid.meta all.0.totalled j,
    );
  }

  -- Where the loop gets to with a datagram, from the given statistics and batches.
  pub record Reached (before : ServerStats) (batches : List Bytes) (left : Bytes)
      (result : Option Receiver) : Type 0 where
    pub r : Receiver
    pub later : List Bytes
    pub returns : result ≡ some r
    pub synced : Synced later left r
    pub deliverable : All IsDeliverable later
    pub joins : Joins r.stats
    pub same : deliveries r.stats later ≡ deliveries before batches
