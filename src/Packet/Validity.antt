-- ===== src/Packet/Validity.antt =====
-- What `validate_batch`, `validate_batch_session` and `peek_batch_length` accept, stated without
-- their order of tests.
use udp_test.Base.{
  ℕ, ◌≤◌, ◌<◌, ◌≡◌, ◌↔◌, ◌≢◌, inl, inr, Bool, true, Option, none, some, arith, length, eq_cases,
}
use udp_test.Crc.{Bytes}
use udp_test.Packet.{
  PacketHeader, packet_magic, max_packet_length, packet_header_size, read_header, batch_crc32,
  header_meta_plausible, ok, validate_batch, validate_batch_session, peek_batch_length,
}

-- A header that a batch of this program can have.
pub record IsPlausible (h : PacketHeader) : Type 0 where
  pub seq_in : h.seq < h.batch_total
  pub holds_header : packet_header_size ≤ h.length
  pub within : h.length ≤ max_packet_length

abbrev pub plausible : PacketHeader → Bool
plausible h = header_meta_plausible h.seq h.batch_total h.length

pub plausible_iff : (h : PacketHeader) → (plausible h ≡ true) ↔ IsPlausible h
unfolding header_meta_plausible
plausible_iff h = ground arith

-- A complete batch: it is as long as its header says, and carries its own checksum.
pub record IsValidBatch (b : Bytes) : Type 0 where
  pub long : packet_header_size ≤ length b
  pub magic_right : (read_header b).magic ≡ packet_magic
  pub length_right : (read_header b).length ≡ length b
  pub meta : IsPlausible (read_header b)
  pub crc_right : (read_header b).crc32 ≡ batch_crc32 b

-- `validate_batch` answers `Ok` for exactly the complete batches: those that are at least a header
-- long, have the magic number, their own length, a plausible number and total, and their own
-- checksum.
pub validate_batch-ok_iff : (b : Bytes) → (validate_batch b ≡ ok) ↔ IsValidBatch b
unfolding validate_batch
validate_batch-ok_iff b = ground (arith, plausible_iff (read_header b))

-- The same but for the checksum.
pub record IsFramed (b : Bytes) : Type 0 where
  pub long : packet_header_size ≤ length b
  pub magic_right : (read_header b).magic ≡ packet_magic
  pub length_right : (read_header b).length ≡ length b
  pub meta : IsPlausible (read_header b)

pub IsValidBatch-IsFramed : (b : Bytes) → IsValidBatch b → IsFramed b
IsValidBatch-IsFramed b valid = record {
  long = valid.long;
  magic_right = valid.magic_right;
  length_right = valid.length_right;
  meta = valid.meta;
}

-- The header at the front names a batch.
pub record IsHeaderFront (b : Bytes) : Type 0 where
  pub long : packet_header_size ≤ length b
  pub magic_right : (read_header b).magic ≡ packet_magic
  pub meta : IsPlausible (read_header b)

pub peek_batch_length-found :
    (b : Bytes) → IsHeaderFront b → peek_batch_length b ≡ (read_header b).length
unfolding peek_batch_length
peek_batch_length-found b h = ground (arith, plausible_iff (read_header b))

pub IsHeaderFront-peek : (b : Bytes) → peek_batch_length b ≢ 0 → IsHeaderFront b
unfolding peek_batch_length
IsHeaderFront-peek b h = ground (arith, plausible_iff (read_header b))

pub peek_batch_length-missing : (b : Bytes) → ¬ IsHeaderFront b → peek_batch_length b ≡ 0
peek_batch_length-missing b h = elim (eq_cases (peek_batch_length b) 0) [
  | inl e ↦ e
  | inr found ↦ absurd (h (IsHeaderFront-peek b found))
]

-- A session accepts a plausible header with its own total, or any while it has none.
abbrev pub Accepts : Option ℕ → PacketHeader → Type 0
Accepts none h = IsPlausible h
Accepts (some total) h = IsPlausible h × (total ≡ h.batch_total)

pub validate_batch_session-ok :
    (h : PacketHeader) (session : Option ℕ)
    → Accepts session h
    → validate_batch_session h session ≡ (ok, some h.batch_total)
unfolding validate_batch_session
validate_batch_session-ok h none a = ground (arith, plausible_iff h)
validate_batch_session-ok h (some total) a = ground (arith, plausible_iff h)
