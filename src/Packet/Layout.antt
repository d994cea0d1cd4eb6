-- ===== src/Packet/Layout.antt =====
-- Where the fields of the header lie, and which bytes a read of it depends on.
use udp_test.Base.{
  ℕ, ◌+◌, ◌^◌, ◌≤◌, ◌<◌, ◌≡◌, refl, sym, ap, ◌++◌, append_assoc, arith, length, get_or, take, drop,
  length-append, length-take, length-drop, get_or-append_lt, get_or-append_ge, get_or-take,
  take-append_self, drop-append_self, IsByte, IsBytes, All-IsByte-get_or, All-append, All-take,
  All-drop,
}
use udp_test.Crc.{Bytes}
use udp_test.Packet.{
  PacketHeader, read_u32, u32_bytes, read_header, header_bytes, put_crc32, batch_crc32,
  peek_batch_length,
}

pub read_u32-lt : (b : Bytes) (i : ℕ) → IsBytes b → read_u32 b i < 2 ^ 32
unfolding read_u32
read_u32-lt b i h = omega (
  arith,
  All-IsByte-get_or b i h,
  All-IsByte-get_or b (i + 1) h,
  All-IsByte-get_or b (i + 2) h,
  All-IsByte-get_or b (i + 3) h,
)

pub length-u32_bytes : (v : ℕ) → length (u32_bytes v) ≡ 4
unfolding u32_bytes
length-u32_bytes v = refl

u32_bytes-IsBytes : (v : ℕ) → IsBytes (u32_bytes v)
unfolding u32_bytes
u32_bytes-IsBytes v = omega arith

-- Four bytes hold a `uint32_t`.
read_u32-u32_bytes : (v : ℕ) (rest : Bytes) → v < 2 ^ 32 → read_u32 (u32_bytes v ++ rest) 0 ≡ v
unfolding read_u32 u32_bytes
read_u32-u32_bytes v rest h = omega arith

-- A read inside a prefix, and one past it.
read_u32-append_lt :
    (xs ys : Bytes) (i : ℕ) → i + 4 ≤ length xs → read_u32 (xs ++ ys) i ≡ read_u32 xs i
unfolding read_u32
read_u32-append_lt xs ys i h = omega (
  arith,
  get_or-append_lt xs ys i 0 (omega arith),
  get_or-append_lt xs ys (i + 1) 0 (omega arith),
  get_or-append_lt xs ys (i + 2) 0 (omega arith),
  get_or-append_lt xs ys (i + 3) 0 (omega arith),
)

read_u32-append_ge : (xs ys : Bytes) (n : ℕ) → length xs ≡ n → read_u32 (xs ++ ys) n ≡ read_u32 ys 0
unfolding read_u32
read_u32-append_ge xs ys n h = omega (
  arith,
  ap (λ k. get_or (xs ++ ys) k 0) (n_zero n),
  get_or-append_ge xs ys n 0 0 h,
  get_or-append_ge xs ys n 1 0 h,
  get_or-append_ge xs ys n 2 0 h,
  get_or-append_ge xs ys n 3 0 h,
)
  where
    n_zero : (n : ℕ) → n ≡ n + 0
    n_zero n = omega arith

read_u32-take : (n : ℕ) (b : Bytes) (i : ℕ) → i + 4 ≤ n → read_u32 (take n b) i ≡ read_u32 b i
unfolding read_u32
read_u32-take n b i h = omega (
  arith,
  get_or-take n b i 0 (omega arith),
  get_or-take n b (i + 1) 0 (omega arith),
  get_or-take n b (i + 2) 0 (omega arith),
  get_or-take n b (i + 3) 0 (omega arith),
)

-- The header is in the first twenty bytes.
pub read_header-append : (xs ys : Bytes) → 20 ≤ length xs → read_header (xs ++ ys) ≡ read_header xs
unfolding read_header
read_header-append xs ys h = rw (
  read_u32-append_lt xs ys 0 (omega arith),
  read_u32-append_lt xs ys 4 (omega arith),
  read_u32-append_lt xs ys 8 (omega arith),
  read_u32-append_lt xs ys 12 (omega arith),
  read_u32-append_lt xs ys 16 (omega arith),
)

pub peek_batch_length-append :
    (xs ys : Bytes) → 20 ≤ length xs → peek_batch_length (xs ++ ys) ≡ peek_batch_length xs
unfolding peek_batch_length
peek_batch_length-append xs ys h = ground (arith, read_header-append xs ys h, length-append xs ys)

-- The fields of a header that fits `uint32_t`.
pub record FitsU32 (h : PacketHeader) : Type 0 where
  pub magic_fits : h.magic < 2 ^ 32
  pub seq_fits : h.seq < 2 ^ 32
  pub total_fits : h.batch_total < 2 ^ 32
  pub length_fits : h.length < 2 ^ 32
  pub crc_fits : h.crc32 < 2 ^ 32

-- A header whose fields fit 32 bits, stored in front of any bytes, is read back as it was.
pub read_header-header_bytes :
    (h : PacketHeader) (rest : Bytes) → FitsU32 h → read_header (header_bytes h ++ rest) ≡ h
unfolding read_header header_bytes read_u32 u32_bytes
read_header-header_bytes h rest f = ground arith

module _ (v : ℕ) (b : Bytes) (long : 20 ≤ length b) where
  pub length-put_crc32 : length (put_crc32 v b) ≡ length b
  unfolding put_crc32
  length-put_crc32 = omega (
    arith,
    length-append (take 16 b) (u32_bytes v ++ drop 20 b),
    length-append (u32_bytes v) (drop 20 b),
    length-u32_bytes v,
    length-take 16 b,
    length-drop 20 b,
  )

  length_front : length (take 16 b) ≡ 16
  length_front = omega (arith, length-take 16 b)

  -- Only the last field is written.
  pub read_header-put_crc32 :
      v < 2 ^ 32 → read_header (put_crc32 v b) ≡ record (read_header b) { crc32 = v }
  unfolding read_header put_crc32
  read_header-put_crc32 fits =
      let tail = u32_bytes v ++ drop 20 b in
      rw (
        read_u32-append_lt (take 16 b) tail 0 (omega (arith, length_front)),
        read_u32-append_lt (take 16 b) tail 4 (omega (arith, length_front)),
        read_u32-append_lt (take 16 b) tail 8 (omega (arith, length_front)),
        read_u32-append_lt (take 16 b) tail 12 (omega (arith, length_front)),
        read_u32-append_ge (take 16 b) tail 16 length_front,
        read_u32-u32_bytes v (drop 20 b) fits,
        read_u32-take 16 b 0 (omega arith),
        read_u32-take 16 b 4 (omega arith),
        read_u32-take 16 b 8 (omega arith),
        read_u32-take 16 b 12 (omega arith),
      )

  -- A second write of the field replaces the first.
  put_crc32_twice : (w : ℕ) → put_crc32 w (put_crc32 v b) ≡ put_crc32 w b
  unfolding put_crc32
  put_crc32_twice w = rw (
    take-append_self (take 16 b) (u32_bytes v ++ drop 20 b) 16 length_front,
    sym (append_assoc (take 16 b) (u32_bytes v) (drop 20 b)),
    drop-append_self (take 16 b ++ u32_bytes v) (drop 20 b) 20
        (omega (arith, length-append (take 16 b) (u32_bytes v), length_front, length-u32_bytes v)),
  )

  pub put_crc32-IsBytes : IsBytes b → IsBytes (put_crc32 v b)
  unfolding put_crc32
  put_crc32-IsBytes h =
      All-append IsByte (take 16 b) (u32_bytes v ++ drop 20 b)
        (All-append IsByte (u32_bytes v) (drop 20 b) (All-drop IsByte 20 b h) (u32_bytes-IsBytes v))
        (All-take IsByte 16 b h)

  pub batch_crc32-put_crc32 : batch_crc32 (put_crc32 v b) ≡ batch_crc32 b
  unfolding batch_crc32
  batch_crc32-put_crc32 = rw (put_crc32_twice 0)
