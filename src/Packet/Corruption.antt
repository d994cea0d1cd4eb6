-- ===== src/Packet/Corruption.antt =====
-- `validate_batch` on a batch with one byte changed.
use udp_test.Base.{
  take-set_ge, drop-set_lt, get_or-set_ne, get_or-set_self, set-take_append, set-append_ge,
  drop-set_ge, ℕ, ◌+◌, ◌-◌, ◌≤◌, ◌<◌, ◌≡◌, ◌≢◌, refl, sym, ap, ◌∙◌, ◌⊎◌, inl, inr, ◌++◌, arith,
  length, set, get_or, take, drop, length-take, IsByte, IsBytes, All-set, le_cases,
  All-IsByte-get_or, get_or-append_lt, get_or-append_ge, get_or-take, get_or-drop,
}
use udp_test.Crc.{Bytes, crc32_compute}
use udp_test.Crc.Detect.{crc32_compute-set}
use udp_test.Packet.{read_u32, u32_bytes, read_header, put_crc32, batch_crc32, validate_batch, ok}
use udp_test.Packet.Layout.{put_crc32-IsBytes, length-put_crc32, length-u32_bytes}
use udp_test.Packet.Validity.{validate_batch-ok_iff}

-- Outside the checksum's own field, changing a byte and storing the checksum commute.
put_crc32-set_front :
    (w : ℕ) (b : Bytes) (i v : ℕ)
    → 20 ≤ length b
    → i < 16
    → put_crc32 w (set b i v) ≡ set (put_crc32 w b) i v
unfolding put_crc32
put_crc32-set_front w b i v long h =
    rw (drop-set_lt b 20 i v (omega arith))
      (set-take_append b (u32_bytes w ++ drop 20 b) 16 i v h (omega arith))

put_crc32-set_back :
    (w : ℕ) (b : Bytes) (j v : ℕ)
    → 20 ≤ length b
    → put_crc32 w (set b (20 + j) v) ≡ set (put_crc32 w b) (20 + j) v
unfolding put_crc32
put_crc32-set_back w b j v long =
    let e : 20 + j ≡ 16 + (4 + j) = omega arith in
    rw (take-set_ge b 16 (20 + j) v (omega arith), drop-set_ge b 20 j v, e)
      (rw (
        set-append_ge (take 16 b) (u32_bytes w ++ drop 20 b) 16 (4 + j) v
            (omega (arith, length-take 16 b)),
        set-append_ge (u32_bytes w) (drop 20 b) 4 j v (length-u32_bytes w),
      ))

put_crc32-set :
    (w : ℕ) (b : Bytes) (i v : ℕ)
    → 20 ≤ length b
    → (i < 16) ⊎ (20 ≤ i)
    → put_crc32 w (set b i v) ≡ set (put_crc32 w b) i v
put_crc32-set w b i v long (inl h) = put_crc32-set_front w b i v long h
put_crc32-set w b i v long (inr h) =
    let e : i ≡ 20 + (i - 20) = omega arith in rw e (put_crc32-set_back w b (i - 20) v long)

-- Inside it, the change is overwritten.
put_crc32-set_field :
    (w : ℕ) (b : Bytes) (i v : ℕ) → 16 ≤ i → i < 20 → put_crc32 w (set b i v) ≡ put_crc32 w b
unfolding put_crc32
put_crc32-set_field w b i v h k = rw (take-set_ge b 16 i v h, drop-set_lt b 20 i v k)

-- A `uint32_t` determines its four bytes.
module _ (b c : Bytes) (i : ℕ) (b_bytes : IsBytes b) (c_bytes : IsBytes c) where
  read_u32_inj :
      read_u32 b i ≡ read_u32 c i
      → (get_or b i 0 ≡ get_or c i 0)
        × (get_or b (i + 1) 0 ≡ get_or c (i + 1) 0)
        × (get_or b (i + 2) 0 ≡ get_or c (i + 2) 0)
        × (get_or b (i + 3) 0 ≡ get_or c (i + 3) 0)
  unfolding read_u32
  read_u32_inj e = omega (
    arith,
    e,
    All-IsByte-get_or b i b_bytes,
    All-IsByte-get_or b (i + 1) b_bytes,
    All-IsByte-get_or b (i + 2) b_bytes,
    All-IsByte-get_or b (i + 3) b_bytes,
    All-IsByte-get_or c i c_bytes,
    All-IsByte-get_or c (i + 1) c_bytes,
    All-IsByte-get_or c (i + 2) c_bytes,
    All-IsByte-get_or c (i + 3) c_bytes,
  )

crc_field_cases : (i : ℕ) → 16 ≤ i → i < 20 → (i ≡ 16) ⊎ (i ≡ 17) ⊎ (i ≡ 18) ⊎ (i ≡ 19)
crc_field_cases i h k = omega arith

crc_field_inj :
    (b c : Bytes) (i : ℕ)
    → IsBytes b
    → IsBytes c
    → 16 ≤ i
    → i < 20
    → read_u32 b 16 ≡ read_u32 c 16
    → get_or b i 0 ≡ get_or c i 0
crc_field_inj b c i hb hc h k e = at (crc_field_cases i h k) (read_u32_inj b c 16 hb hc e)
  where
    at :
        (i ≡ 16) ⊎ (i ≡ 17) ⊎ (i ≡ 18) ⊎ (i ≡ 19)
        → (get_or b 16 0 ≡ get_or c 16 0)
          × (get_or b 17 0 ≡ get_or c 17 0)
          × (get_or b 18 0 ≡ get_or c 18 0)
          × (get_or b 19 0 ≡ get_or c 19 0)
        → get_or b i 0 ≡ get_or c i 0
    at (inl p) q = rw p q.0
    at (inr (inl p)) q = rw p q.1
    at (inr (inr (inl p))) q = rw p q.2
    at (inr (inr (inr p))) q = rw p q.3

-- Neither the field nor the checked bytes can change alone.
crc_field-set_inside :
    (b : Bytes) (i v : ℕ)
    → IsBytes b
    → IsByte v
    → 16 ≤ i
    → i < 20
    → i < length b
    → read_u32 (set b i v) 16 ≡ read_u32 b 16
    → v ≡ get_or b i 0
crc_field-set_inside b i v hb hv h k fits e =
    sym (get_or-set_self b i v 0 fits)
    ∙ crc_field_inj (set b i v) b i (All-set IsByte b i v hb hv) hb h k e

crc_field-set_outside :
    (b : Bytes) (i v : ℕ) → (i < 16) ⊎ (20 ≤ i) → read_u32 (set b i v) 16 ≡ read_u32 b 16
unfolding read_u32
crc_field-set_outside b i v h = rw (
  get_or-set_ne b i 16 v 0 (omega arith),
  get_or-set_ne b i 17 v 0 (omega arith),
  get_or-set_ne b i 18 v 0 (omega arith),
  get_or-set_ne b i 19 v 0 (omega arith),
)

get_or-put_crc32 :
    (w : ℕ) (b : Bytes) (i : ℕ)
    → 20 ≤ length b
    → (i < 16) ⊎ (20 ≤ i)
    → get_or (put_crc32 w b) i 0 ≡ get_or b i 0
unfolding put_crc32
get_or-put_crc32 w b i long (inl h) =
    get_or-append_lt (take 16 b) (u32_bytes w ++ drop 20 b) i 0 (omega (arith, length-take 16 b))
    ∙ get_or-take 16 b i 0 h
get_or-put_crc32 w b i long (inr h) =
    let e : i ≡ 16 + (4 + (i - 20)) = omega arith in
    ap (λ k. get_or (take 16 b ++ (u32_bytes w ++ drop 20 b)) k 0) e
    ∙ get_or-append_ge (take 16 b) (u32_bytes w ++ drop 20 b) 16 (4 + (i - 20)) 0
        (omega (arith, length-take 16 b))
    ∙ get_or-append_ge (u32_bytes w) (drop 20 b) 4 (i - 20) 0 (length-u32_bytes w)
    ∙ get_or-drop 20 b (i - 20) 0
    ∙ ap (λ k. get_or b k 0) (omega arith)

-- The checksum of the batch changes with any byte outside its own field, and with none inside.
batch_crc32-set_outside :
    (b : Bytes) (i v : ℕ)
    → 20 ≤ length b
    → IsBytes b
    → IsByte v
    → i < length b
    → (i < 16) ⊎ (20 ≤ i)
    → v ≢ get_or b i 0
    → batch_crc32 (set b i v) ≢ batch_crc32 b
unfolding batch_crc32
batch_crc32-set_outside b i v long hb hv fits out differs = rw (put_crc32-set 0 b i v long out) (
    crc32_compute-set (put_crc32 0 b) i v (put_crc32-IsBytes 0 b long hb) hv
      (omega (arith, length-put_crc32 0 b long)) (rw (get_or-put_crc32 0 b i long out) differs))

batch_crc32-set_inside :
    (b : Bytes) (i v : ℕ) → 16 ≤ i → i < 20 → batch_crc32 (set b i v) ≡ batch_crc32 b
unfolding batch_crc32
batch_crc32-set_inside b i v h k = ap crc32_compute (put_crc32-set_field 0 b i v h k)

stored_crc32 : (b : Bytes) → (read_header b).crc32 ≡ read_u32 b 16
unfolding read_header
stored_crc32 b = refl

place_cases : (i : ℕ) → ((i < 16) ⊎ (20 ≤ i)) ⊎ ((16 ≤ i) × (i < 20))
place_cases i = elim (le_cases 16 i) [
  | inl h ↦ elim (le_cases 20 i) [ inl k ↦ inl (inr k) | inr k ↦ inr (h, k) ]
  | inr h ↦ inl (inl h)
]

-- No batch of bytes that `validate_batch` answers `Ok` for keeps that answer when a single byte of
-- it, in the header or in the payload, is changed to another byte.
pub validate_batch-set :
    (b : Bytes) (i v : ℕ)
    → IsBytes b
    → IsByte v
    → i < length b
    → v ≢ get_or b i 0
    → validate_batch b ≡ ok
    → validate_batch (set b i v) ≢ ok
validate_batch-set b i v hb hv fits differs valid valid' =
    let was = (validate_batch-ok_iff b).0 valid in
    let is = (validate_batch-ok_iff (set b i v)).0 valid' in
    elim (place_cases i) [
      | inl out ↦ batch_crc32-set_outside b i v was.long hb hv fits out differs (
          sym is.crc_right
          ∙ stored_crc32 (set b i v)
          ∙ crc_field-set_outside b i v out
          ∙ sym (stored_crc32 b)
          ∙ was.crc_right)
      | inr (h, k) ↦ differs (
          crc_field-set_inside b i v hb hv h k fits (
            sym (stored_crc32 (set b i v))
            ∙ is.crc_right
            ∙ batch_crc32-set_inside b i v h k
            ∙ sym was.crc_right
            ∙ stored_crc32 b))
    ]
