-- ===== src/Server/Ingest/Absorb.antt =====
-- A round of `ingest_fragment` with a batch under way, without the wrap-around of `std::size_t`.
use udp_test.Base.{
  ℕ, ◌+◌, ◌-◌, ◌^◌, ◌≤◌, ◌<◌, min, ◌≡◌, true, some, [], ◌∷◌, ◌++◌, u64, leb, arith, length, take,
  drop, length-append, length-take, length-drop, drop_all, ◌>>=◌,
}
use udp_test.Crc.{Bytes}
use udp_test.Server.State.{BatchReassembly, Receiver}
use udp_test.Server.Ingest.{Ingest, try_complete_batch, continue_batch, absorb, continues}
use udp_test.Server.Ingest.Sound.{SoundWhen}

abbrev pub absorbed : ℕ → Bytes → BatchReassembly → BatchReassembly
absorbed n rest re = record re {
  buffer = take re.filled re.buffer ++ (take n rest ++ drop (re.filled + n) re.buffer);
  filled = re.filled + n;
  fragment_sizes = re.fragment_sizes ++ n ∷ [];
}

pub length-absorbed :
    (n : ℕ) (rest : Bytes) (re : BatchReassembly)
    → n ≤ length rest
    → re.filled + n ≤ length re.buffer
    → length (absorbed n rest re).buffer ≡ length re.buffer
length-absorbed n rest re h k = omega (
  arith,
  length-append (take re.filled re.buffer) (take n rest ++ drop (re.filled + n) re.buffer),
  length-append (take n rest) (drop (re.filled + n) re.buffer),
  length-take re.filled re.buffer,
  length-take n rest,
  length-drop (re.filled + n) re.buffer,
)

absorb-eq :
    (n : ℕ) (rest : Bytes) (re : BatchReassembly)
    → re.filled + n < 2 ^ 64
    → absorb n rest re ≡ absorbed n rest re
unfolding absorb
absorb-eq n rest re h = ground arith

module _ (ingest : Ingest) (rest : Bytes) (r : Receiver) (sound : SoundWhen true r.reassembly) where
  open r.reassembly use {filled, expected}

  -- The datagram ends before the batch does.
  pub continue_batch_partial :
      length rest < expected - filled
      → continue_batch ingest rest r
        ≡ some (continues [] (record r { reassembly = absorbed (length rest) rest r.reassembly }))
  unfolding continue_batch
  continue_batch_partial h =
      let space : u64 (expected + 2 ^ 64 - filled) ≡ expected - filled = omega arith in
      let n : min (length rest) (expected - filled) ≡ length rest = omega arith in
      rw
        (
          space,
          n,
          absorb-eq (length rest) rest r.reassembly (omega arith),
          drop_all (length rest) rest (omega arith),
        )
        (ground arith)

  -- The batch is complete.
  pub continue_batch_complete :
      expected - filled ≤ length rest
      → continue_batch ingest rest r ≡ (
          try_complete_batch ingest
            (record r { reassembly = absorbed (expected - filled) rest r.reassembly })
          >>= (λ (done, r'). some (continues (drop (expected - filled) rest) r')))
  unfolding continue_batch
  continue_batch_complete h =
      let space : u64 (expected + 2 ^ 64 - filled) ≡ expected - filled = omega arith in
      let n : min (length rest) (expected - filled) ≡ expected - filled = omega arith in
      let all : leb expected (filled + (expected - filled)) ≡ true = ground arith in
      rw (space, n, absorb-eq (expected - filled) rest r.reassembly (omega arith), all)
