-- ===== src/Server/State.antt =====
-- The receiver's state: `ServerStats` and `BatchReassembly` of server.cpp.
-- The counters are `std::size_t`; `seen_seq` is a set, kept as a list with no order of its own.
use udp_test.Base.{ℕ, Bool, false, Option, none, List, [], incr}
use udp_test.Crc.{Bytes}

pub record ServerStats : Type 0 where
  pub batches : ℕ
  pub fragments : ℕ
  pub bad_batches : ℕ
  pub lost : ℕ
  pub duplicates : ℕ
  pub out_of_order : ℕ
  pub seen_seq : List ℕ
  pub have_seq : Bool
  pub highest_seq : ℕ
  pub wire_batch_total : Option ℕ

pub record BatchReassembly : Type 0 where
  pub buffer : Bytes
  pub filled : ℕ
  pub expected : ℕ
  pub active : Bool
  pub fragment_sizes : List ℕ

-- The two objects that the calls of the receive loop pass on by reference.
pub record Receiver : Type 0 where
  pub stats : ServerStats
  pub reassembly : BatchReassembly

abbrev pub fresh_stats : ServerStats
fresh_stats = record {
  batches = 0;
  fragments = 0;
  bad_batches = 0;
  lost = 0;
  duplicates = 0;
  out_of_order = 0;
  seen_seq = [];
  have_seq = false;
  highest_seq = 0;
  wire_batch_total = none;
}

-- `reset_reassembly`, whatever the object held, and the state of a new one.
abbrev pub reset_reassembly : BatchReassembly
reset_reassembly = record {
  buffer = [];
  filled = 0;
  expected = 0;
  active = false;
  fragment_sizes = [];
}

abbrev pub fresh_receiver : Receiver
fresh_receiver = record { stats = fresh_stats; reassembly = reset_reassembly }

-- `++stats.fragments`, on entering `ingest_fragment`
abbrev pub count_fragment : Receiver → Receiver
count_fragment r = record r { stats = record (r.stats) { fragments = incr r.stats.fragments } }

-- `++stats.bad_batches`
abbrev pub count_bad : ServerStats → ServerStats
count_bad stats = record stats { bad_batches = incr stats.bad_batches }
