-- ===== src/Server/Ingest/Stream/Stages.antt =====
-- The stages of one batch that comes in datagrams cut anywhere, with the rest of a stream behind it.
use udp_test.Base.{
  ◌≤◌, ◌<◌, ◌≡◌, refl, sym, ap, subst, ◌∙◌, inl, inr, true, false, some, [], ◌++◌, append_assoc,
  append_split, arith, length, drop, length-append, length-drop, take-append-drop,
}
use udp_test.Crc.{Bytes}
use udp_test.Packet.{packet_header_size}
use udp_test.Packet.Validity.{IsFramed}
use udp_test.Server.State.{Receiver}
use udp_test.Server.Ingest.{
  Ingest, continue_batch, ingest_round, leaves, continues, seek_header, with_buffer,
}
use udp_test.Server.Ingest.Sound.{weight}
use udp_test.Server.Ingest.Incoming.{Waits, Gathers, started, front}
use udp_test.Server.Ingest.Incoming.Header.{seek_header-part, seek_header-start}
use udp_test.Server.Ingest.Incoming.Body.{continue_batch-part}
use udp_test.Server.Ingest.Stream.Cut.{same_front, same_tail, started-Gathers}
use udp_test.Server.Ingest.Stream.{Awaits, weight-Waits}

pub ingest_round-idle :
    (inner : Ingest) (d : Bytes) (r : Receiver)
    → r.reassembly.active ≡ false
    → ingest_round inner d r ≡ some (seek_header d r)
unfolding ingest_round
ingest_round-idle inner d r e = rw e

pub ingest_round-busy :
    (inner : Ingest) (d : Bytes) (r : Receiver)
    → r.reassembly.active ≡ true
    → ingest_round inner d r ≡ continue_batch inner d r
unfolding ingest_round
ingest_round-busy inner d r e = rw e

module _ (batch rest p q d left : Bytes) (r : Receiver) (framed : IsFramed batch)
    (payload : packet_header_size < length batch) (whole : batch ≡ p ++ q)
    (coming : d ++ left ≡ q ++ rest) where
  -- The datagram ends inside the header.
  pub seek_header-Awaits :
      Waits batch p r
      → length (p ++ d) < packet_header_size
      → (seek_header d r ≡ leaves (with_buffer r (p ++ d)))
        × Awaits batch rest left (with_buffer r (p ++ d))
  seek_header-Awaits w h =
      let (m, cut, after) =
        append_split d left q rest coming
          (omega (arith, payload, ap length whole, length-append p q, length-append p d)) in
      (
        seek_header-part batch framed p d r w h,
        record {
          p = p ++ d;
          q = m;
          whole = whole ∙ ap (◌++◌ p) cut ∙ sym (append_assoc p d m);
          more = omega (
            arith,
            payload,
            ap length whole,
            length-append p q,
            ap length cut,
            length-append p d,
            length-append d m,
          );
          coming = after;
          shape = inl (w.0, refl, h, w.3);
        },
      )

  -- The datagram completes the header.
  pub started-Awaits :
      Waits batch p r
      → packet_header_size ≤ length (p ++ d)
      → (seek_header d r ≡ continues (drop 20 (p ++ d)) (started batch r))
        × Awaits batch rest (drop 20 (p ++ d) ++ left) (started batch r)
        × (weight (drop 20 (p ++ d)) (started batch r).reassembly < weight d r.reassembly)
  started-Awaits w h = (
    seek_header-start batch framed p d r w h
        (same_front batch rest p q d left framed.long whole coming h),
    record {
      p = front batch;
      q = drop 20 batch;
      whole = sym (take-append-drop 20 batch);
      more = omega (arith, payload, length-drop 20 batch);
      coming = same_tail batch rest p q d left framed.long whole coming h;
      shape = inr (started-Gathers batch framed.long r);
    },
    omega (arith, weight-Waits batch p d r w, length-drop 20 (p ++ d), length-append p d),
  )

  -- The datagram ends inside the batch.
  pub continue_batch-Awaits :
      (inner : Ingest)
      → Gathers batch p q r
      → length d < length q
      → (r' : Receiver) × (continue_batch inner d r ≡ some (continues [] r'))
        × Awaits batch rest left r'
        × (r'.stats ≡ r.stats)
  continue_batch-Awaits inner g short =
      let (m, cut, after) = append_split d left q rest coming (omega arith) in
      let still : 0 < length m = omega (arith, ap length cut, length-append d m) in
      let (r', round, g', kept) =
        continue_batch-part batch framed inner p m d r (whole ∙ ap (◌++◌ p) cut) still
          (subst (λ x. Gathers batch p x r) cut g) in
      (
        r',
        round,
        record {
          p = p ++ d;
          q = m;
          whole = whole ∙ ap (◌++◌ p) cut ∙ sym (append_assoc p d m);
          more = still;
          coming = after;
          shape = inr g';
        },
        kept,
      )
