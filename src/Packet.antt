-- ===== src/Packet.antt =====
-- packet.hpp: the header in front of each batch, building a batch, and validating one.
-- A buffer with its size is one list of bytes; `data + i` is `drop i`. A field of the packed header
-- is four bytes, lowest first.
pub mod Layout
pub mod Validity
pub mod Build
pub mod Corruption
pub mod Samples
mod Tests
use Prim.Native.String.{String}
use udp_test.Base.{
  [], ℕ, zero, suc, ◌+◌, ◌-◌, ◌*◌, ◌/◌, ◌%◌, Bool, true, false, not, ◌||◌, Option, none, some, ◌∷◌,
  ◌++◌, u32, ltb, leb, ◌==◌, if◌then◌else◌, length, get_or, take, drop, Result, returned, thrown,
}
use udp_test.Crc.{Bytes, crc32_compute}

abbrev packet_magic : ℕ
packet_magic = 0x42554450

abbrev pub max_packet_length : ℕ
max_packet_length = 64 * 1024

pub record PacketHeader : Type 0 where
  pub magic : ℕ
  pub seq : ℕ
  pub batch_total : ℕ
  pub length : ℕ
  pub crc32 : ℕ

-- `sizeof(PacketHeader)`
abbrev pub packet_header_size : ℕ
packet_header_size = 20

-- The `uint32_t` at an offset.
unfoldable pub read_u32 : Bytes → ℕ → ℕ
read_u32 b i =
    get_or b i 0
    + 0x100 * get_or b (i + 1) 0
    + 0x10000 * get_or b (i + 2) 0
    + 0x1000000 * get_or b (i + 3) 0

unfoldable pub u32_bytes : ℕ → Bytes
u32_bytes v = v % 256 ∷ v / 256 % 256 ∷ v / 65536 % 256 ∷ v / 16777216 % 256 ∷ []

-- `std::memcpy(&header, data, kPacketHeaderSize)`
unfoldable pub read_header : Bytes → PacketHeader
read_header b = record {
  magic = read_u32 b 0;
  seq = read_u32 b 4;
  batch_total = read_u32 b 8;
  length = read_u32 b 12;
  crc32 = read_u32 b 16;
}

-- The packed struct in memory, little endian, which `memcpy` copies to the front of the batch.
unfoldable pub header_bytes : PacketHeader → Bytes
header_bytes h =
    u32_bytes h.magic
    ++ (u32_bytes h.seq ++ (u32_bytes h.batch_total ++ (u32_bytes h.length ++ u32_bytes h.crc32)))

-- `header->crc32 = v`
unfoldable pub put_crc32 : ℕ → Bytes → Bytes
put_crc32 v b = take 16 b ++ (u32_bytes v ++ drop 20 b)

unfoldable pub batch_crc32 : Bytes → ℕ
batch_crc32 batch = crc32_compute (put_crc32 0 batch)

unfoldable pub header_meta_plausible : ℕ → ℕ → ℕ → Bool
header_meta_plausible seq batch_total len =
    if batch_total == 0 || leb batch_total seq
    then false
    else if ltb len packet_header_size || ltb max_packet_length len
    then false
    else true

-- The two `std::invalid_argument`s of `build_batch`.
pub data BuildError : Type 0 where
  smaller_than_header invalid_seq : BuildError

-- `draw` is `byte_dist(rng)`, on the state of the generator.
module _ {S : Type 0} (draw : S → ℕ × S) where
  -- The loop that fills the payload; the cast to `char` keeps the low eight bits.
  unfoldable pub random_bytes : ℕ → S → Bytes × S
  random_bytes zero s = ([], s)
  random_bytes (suc n) s =
      let (v, s') = draw s in let (rest, s'') = random_bytes n s' in (v % 256 ∷ rest, s'')

  -- The batch on return, with the generator's new state.
  unfoldable pub build_batch : Bytes → ℕ → ℕ → S → Result BuildError (Bytes × S)
  build_batch batch seq batch_total s =
      if ltb (length batch) packet_header_size
      then thrown smaller_than_header
      else if batch_total == 0 || leb batch_total seq
      then thrown invalid_seq
      else let (payload, s') = random_bytes (length batch - packet_header_size) s in
        let header : PacketHeader = record {
          magic = packet_magic;
          seq = seq;
          batch_total = batch_total;
          length = u32 (length batch);
          crc32 = 0;
        } in
        let blank = header_bytes header ++ payload in
        returned (put_crc32 (batch_crc32 blank) blank, s')

pub data BatchValidation : Type 0 where
  ok too_short bad_magic bad_length bad_meta bad_session bad_crc : BatchValidation

unfoldable pub validate_batch : Bytes → BatchValidation
validate_batch batch =
    let header = read_header batch in
    if ltb (length batch) packet_header_size
    then too_short
    else if not (header.magic == packet_magic)
    then bad_magic
    else if not (header.length == length batch)
    then bad_length
    else if not (header_meta_plausible header.seq header.batch_total header.length)
    then bad_meta
    else if not (header.crc32 == batch_crc32 batch)
    then bad_crc
    else ok

-- The result and the session's total, which goes by reference.
unfoldable pub validate_batch_session : PacketHeader → Option ℕ → BatchValidation × Option ℕ
validate_batch_session header session =
    if not (header_meta_plausible header.seq header.batch_total header.length)
    then (bad_meta, session)
    else elim session [
      | none ↦ (ok, some header.batch_total)
      | some total ↦
          if not (total == header.batch_total) then (bad_session, some total) else (ok, some total)
    ]

unfoldable validation_reason : BatchValidation → String
validation_reason ok = "ok"
validation_reason too_short = "too short"
validation_reason bad_magic = "bad magic"
validation_reason bad_length = "bad length"
validation_reason bad_meta = "bad meta"
validation_reason bad_session = "bad session"
validation_reason bad_crc = "bad crc"

-- 0 if no plausible header stands at the front.
unfoldable pub peek_batch_length : Bytes → ℕ
peek_batch_length batch =
    let header = read_header batch in
    if ltb (length batch) packet_header_size
    then 0
    else if not (header.magic == packet_magic)
    then 0
    else if not (header_meta_plausible header.seq header.batch_total header.length)
    then 0
    else header.length
