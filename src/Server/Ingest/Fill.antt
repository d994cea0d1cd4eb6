-- ===== src/Server/Ingest/Fill.antt =====
-- The inner loop of `ingest_fragment`, in closed form.
use udp_test.Base.{
  ◌≤◌, ◌<◌, ◌≡◌, ap, ◌∙◌, inl, inr, false, [], ◌∷◌, ◌++◌, append-nil, append_assoc, arith, ltb,
  if◌then◌else◌, length, take, drop, length-append, take-append_self, drop-append_self, take_all,
  drop_all, le_cases, lt→ltb,
}
use udp_test.Crc.{Bytes}
use udp_test.Packet.{packet_header_size}
use udp_test.Server.State.{Receiver}
use udp_test.Server.Ingest.{
  Filled, short, full, fill_header, collect_header, after_fill, examine_header, leaves, with_buffer,
}

abbrev filled_spec : Bytes → Filled
filled_spec stream =
    if ltb (length stream) packet_header_size
    then short stream
    else full (take 20 stream) (drop 20 stream)

-- The buffer and the datagram are one stream: it is cut after the header, if it is long enough.
fill_header-eq :
    (buffer rest : Bytes)
    → length buffer ≤ packet_header_size
    → fill_header buffer rest ≡ filled_spec (buffer ++ rest)
unfolding fill_header
fill_header-eq buffer [] h =
    rw (append-nil buffer) (ground (arith, take_all 20 buffer, drop_all 20 buffer))
fill_header-eq buffer (b ∷ rest) h = elim (le_cases 20 (length buffer)) [
  | inl all ↦ ground (
    arith,
    length-append buffer (b ∷ rest),
    take-append_self buffer (b ∷ rest) 20,
    drop-append_self buffer (b ∷ rest) 20,
  )
  | inr more ↦ rw (
    lt→ltb (length buffer) 20 more,
    fill_header-eq (buffer ++ b ∷ []) rest (omega (arith, length-append buffer (b ∷ []))),
    append_assoc,
  )
]

module _ (rest : Bytes) (r : Receiver)
    (small : length r.reassembly.buffer ≤ packet_header_size) where
  pub collect_header-short :
      length (r.reassembly.buffer ++ rest) < packet_header_size
      → collect_header rest r ≡ leaves (with_buffer r (r.reassembly.buffer ++ rest))
  unfolding collect_header
  collect_header-short h =
      ap (after_fill r) (fill_header-eq r.reassembly.buffer rest small) ∙ (rw (lt→ltb _ 20 h))

  pub collect_header-full :
      packet_header_size ≤ length (r.reassembly.buffer ++ rest)
      → collect_header rest r
        ≡ examine_header
            (take 20 (r.reassembly.buffer ++ rest))
            (drop 20 (r.reassembly.buffer ++ rest))
            r
  unfolding collect_header
  collect_header-full h =
      let long : ltb (length (r.reassembly.buffer ++ rest)) 20 ≡ false = ground arith in
      ap (after_fill r) (fill_header-eq r.reassembly.buffer rest small) ∙ (rw long)
