-- ===== src/Packet/Build.antt =====
-- What `build_batch` returns.
use udp_test.Base.{
  ℕ, zero, suc, ◌+◌, ◌-◌, ◌^◌, ◌≤◌, ◌<◌, ◌≡◌, refl, ap, ◌∙◌, ◌++◌, u32, arith, length,
  length-append, IsByte, IsBytes, All-append, returned,
}
use udp_test.Crc.{Bytes}
use udp_test.Crc.Bounds.{crc32_compute-lt}
use udp_test.Packet.{
  PacketHeader, packet_magic, max_packet_length, packet_header_size, read_header, u32_bytes,
  header_bytes, put_crc32, batch_crc32, random_bytes, build_batch,
}
use udp_test.Packet.Layout.{
  FitsU32, read_header-header_bytes, length-put_crc32, read_header-put_crc32, put_crc32-IsBytes,
  batch_crc32-put_crc32,
}
use udp_test.Packet.Validity.{IsPlausible, IsValidBatch}

batch_crc32-lt : (b : Bytes) → packet_header_size ≤ length b → IsBytes b → batch_crc32 b < 2 ^ 32
unfolding batch_crc32
batch_crc32-lt b long h = crc32_compute-lt (put_crc32 0 b) (put_crc32-IsBytes 0 b long h)

length-header_bytes : (h : PacketHeader) → length (header_bytes h) ≡ 20
unfolding header_bytes u32_bytes
length-header_bytes h = refl

header_bytes-IsBytes : (h : PacketHeader) → IsBytes (header_bytes h)
unfolding header_bytes u32_bytes
header_bytes-IsBytes h = omega arith

-- The buffer before and after the checksum is stored.
abbrev blank : PacketHeader → Bytes → Bytes
blank h payload = header_bytes h ++ payload

abbrev sealed : PacketHeader → Bytes → Bytes
sealed h payload = put_crc32 (batch_crc32 (blank h payload)) (blank h payload)

-- What a header and a payload make once the checksum is stored.
module _ (h : PacketHeader) (payload : Bytes) (fits : FitsU32 h) (bytes : IsBytes payload) where
  length-blank : length (blank h payload) ≡ 20 + length payload
  length-blank = omega (arith, length-append (header_bytes h) payload, length-header_bytes h)

  blank-IsBytes : IsBytes (blank h payload)
  blank-IsBytes = All-append IsByte (header_bytes h) payload bytes (header_bytes-IsBytes h)

  length-sealed : length (sealed h payload) ≡ 20 + length payload
  length-sealed =
      length-put_crc32 (batch_crc32 (blank h payload)) (blank h payload)
        (omega (arith, length-blank))
      ∙ length-blank

  read_header-sealed :
      read_header (sealed h payload) ≡ record h { crc32 = batch_crc32 (blank h payload) }
  read_header-sealed =
      let long : 20 ≤ length (blank h payload) = omega (arith, length-blank) in
      read_header-put_crc32 (batch_crc32 (blank h payload)) (blank h payload) long
        (batch_crc32-lt (blank h payload) long blank-IsBytes)
      ∙ ap (λ (k : PacketHeader). record k { crc32 = batch_crc32 (blank h payload) })
          (read_header-header_bytes h payload fits)

  sealed-IsBytes : IsBytes (sealed h payload)
  sealed-IsBytes =
      put_crc32-IsBytes (batch_crc32 (blank h payload)) (blank h payload)
        (omega (arith, length-blank)) blank-IsBytes

  sealed-IsValidBatch :
      h.magic ≡ packet_magic
      → h.length ≡ 20 + length payload
      → IsPlausible h
      → IsValidBatch (sealed h payload)
  sealed-IsValidBatch magic len plausible =
      let long : 20 ≤ length (blank h payload) = omega (arith, length-blank) in
      ground (
        arith,
        length-sealed,
        read_header-sealed,
        batch_crc32-put_crc32 (batch_crc32 (blank h payload)) (blank h payload) long,
      )

module _ {S : Type 0} (draw : S → ℕ × S) where
  length-random_bytes : (n : ℕ) (s : S) → length (random_bytes draw n s).0 ≡ n
  unfolding random_bytes
  length-random_bytes zero s = refl
  length-random_bytes (suc n) s = ap suc (length-random_bytes n (draw s).1)

  random_bytes-IsBytes : (n : ℕ) (s : S) → IsBytes (random_bytes draw n s).0
  unfolding random_bytes
  random_bytes-IsBytes zero s = tt
  random_bytes-IsBytes (suc n) s = (omega arith, random_bytes-IsBytes n (draw s).1)

  -- What the caller of `build_batch` has when it returns.
  pub record Built (batch : Bytes) (seq batch_total : ℕ) (b : Bytes) : Type 0 where
    pub valid : IsValidBatch b
    pub bytes : IsBytes b
    pub same_size : length b ≡ length batch
    pub numbered : (read_header b).seq ≡ seq
    pub totalled : (read_header b).batch_total ≡ batch_total

  -- For a buffer of 20 to 65536 bytes, a sequence number below the total and a total below 2 ^ 32,
  -- `build_batch` returns a complete batch of bytes of the buffer's size, with that number and
  -- total.
  pub build_batch-Built :
      (batch : Bytes) (seq batch_total : ℕ) (s : S)
      → packet_header_size ≤ length batch
      → length batch ≤ max_packet_length
      → seq < batch_total
      → batch_total < 2 ^ 32
      → (b : Bytes) × (s' : S) × (build_batch draw batch seq batch_total s ≡ returned (b, s'))
        × Built batch seq batch_total b
  unfolding build_batch
  build_batch-Built batch seq batch_total s long short seq_in fits =
      (sealed header payload, (random_bytes draw (length batch - 20) s).1, ground arith, built)
    where
      header : PacketHeader
      header = record {
        magic = packet_magic;
        seq = seq;
        batch_total = batch_total;
        length = u32 (length batch);
        crc32 = 0;
      }

      payload : Bytes
      payload = (random_bytes draw (length batch - 20) s).0

      room : 20 + length payload ≡ length batch
      room = omega (arith, length-random_bytes (length batch - 20) s)

      header-FitsU32 : FitsU32 header
      header-FitsU32 = omega arith

      payload-IsBytes : IsBytes payload
      payload-IsBytes = random_bytes-IsBytes (length batch - 20) s

      stored :
          read_header (sealed header payload)
          ≡ record header { crc32 = batch_crc32 (blank header payload) }
      stored = read_header-sealed header payload header-FitsU32 payload-IsBytes

      built : Built batch seq batch_total (sealed header payload)
      built = record {
        valid =
            sealed-IsValidBatch header payload header-FitsU32 payload-IsBytes refl
              (omega (arith, room)) (omega arith);
        bytes = sealed-IsBytes header payload header-FitsU32 payload-IsBytes;
        same_size = length-sealed header payload header-FitsU32 payload-IsBytes ∙ room;
        numbered = ap (λ (h : PacketHeader). h.seq) stored;
        totalled = ap (λ (h : PacketHeader). h.batch_total) stored;
      }
