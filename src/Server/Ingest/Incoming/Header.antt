-- ===== src/Server/Ingest/Incoming/Header.antt =====
-- The rounds of the loop on the header of a complete batch, cut anywhere.
use udp_test.Base.{
  ℕ, zero, suc, ◌-◌, ◌≤◌, ◌<◌, min, ◌≡◌, refl, sym, ap, ◌∙◌, [], ◌∷◌, ◌++◌, arith, length, take,
  drop, length-take, take-append-drop, take_all, if◌then◌else◌, leb,
}
use udp_test.Crc.{Bytes}
use udp_test.Packet.{packet_header_size, read_header, peek_batch_length}
use udp_test.Packet.Layout.{read_header-append, peek_batch_length-append}
use udp_test.Packet.Validity.{
  IsFramed, IsHeaderFront, Accepts, validate_batch_session-ok, peek_batch_length-found,
}
use udp_test.Server.State.{Receiver}
use udp_test.Server.Scan.{find_batch_header_offset}
use udp_test.Server.Scan.First.{IsFirst, find_batch_header_offset-IsFirst}
use udp_test.Server.Ingest.{
  leaves, continues, seek_header, collect_header, examine_header, activate, with_buffer,
}
use udp_test.Server.Ingest.Fill.{collect_header-short, collect_header-full}
use udp_test.Server.Ingest.Incoming.{header, front, started, Waits}

-- A header at the front is found there.
find_batch_header_offset-front : (b : Bytes) → IsHeaderFront b → find_batch_header_offset b ≡ 0
find_batch_header_offset-front b h =
    at (find_batch_header_offset b) (find_batch_header_offset-IsFirst b)
  where
    at : (n : ℕ) → IsFirst b 0 n → n ≡ 0
    at zero f = refl
    at (suc n) f = absurd (f.none_before 0 (omega arith) (omega arith) h)

-- In fewer bytes than a header takes there is none.
find_batch_header_offset-short :
    (b : Bytes) → length b < packet_header_size → find_batch_header_offset b ≡ length b
unfolding find_batch_header_offset
find_batch_header_offset-short b h = ground arith

seek_header-empty :
    (d : Bytes) (r : Receiver)
    → r.reassembly.buffer ≡ []
    → seek_header d r ≡ (
        if leb (length d) (find_batch_header_offset d)
        then leaves (with_buffer r (drop (length d - min (length d) 19) d))
        else collect_header (drop (find_batch_header_offset d) d) r)
unfolding seek_header
seek_header-empty d r e = ground arith

seek_header-cons :
    (x : ℕ) (xs d : Bytes) (r : Receiver)
    → r.reassembly.buffer ≡ x ∷ xs
    → seek_header d r ≡ collect_header d r
unfolding seek_header
seek_header-cons x xs d r e = ground arith

module _ (batch : Bytes) (framed : IsFramed batch) where
  length-front : length (front batch) ≡ 20
  length-front = omega (arith, length-take 20 batch, framed.long)

  read_header-front : read_header (front batch) ≡ (header batch)
  read_header-front =
      sym (read_header-append (front batch) (drop 20 batch) (omega (arith, length-front)))
      ∙ ap read_header (take-append-drop 20 batch)

  is_front : IsHeaderFront batch
  is_front = record { long = framed.long; magic_right = framed.magic_right; meta = framed.meta }

  peek-front : peek_batch_length (front batch) ≡ length batch
  peek-front =
      sym (peek_batch_length-append (front batch) (drop 20 batch) (omega (arith, length-front)))
      ∙ ap peek_batch_length (take-append-drop 20 batch)
      ∙ peek_batch_length-found batch is_front
      ∙ framed.length_right

  examine_header-front :
      (rest : Bytes) (r : Receiver)
      → Accepts r.stats.wire_batch_total (header batch)
      → examine_header (front batch) rest r ≡ continues rest ((started batch) r)
  unfolding examine_header activate
  examine_header-front rest r session =
      rw
        (
          peek-front,
          read_header-front,
          validate_batch_session-ok (header batch) r.stats.wire_batch_total session,
          take_all (length batch) (front batch) (omega (arith, length-front, framed.long)),
          length-front,
        )
        (ground (arith, framed.long, framed.length_right, framed.meta.within))

  front_of : (s : Bytes) → 20 ≤ length s → take 20 s ≡ (front batch) → IsHeaderFront s
  front_of s long same = ground (arith, is_front, same_header)
    where
      same_header : read_header s ≡ (header batch)
      same_header =
          ap read_header (sym (take-append-drop 20 s))
          ∙ read_header-append (take 20 s) (drop 20 s) (omega (arith, length-take 20 s))
          ∙ ap read_header same
          ∙ read_header-front

  small :
      (p : Bytes) (r : Receiver)
      → (Waits batch) p r
      → length r.reassembly.buffer ≤ packet_header_size
  small p r w = omega (arith, ap length w.1)

  collect_header-part :
      (p d : Bytes) (r : Receiver)
      → (Waits batch) p r
      → length (p ++ d) < packet_header_size
      → collect_header d r ≡ leaves (with_buffer r (p ++ d))
  collect_header-part p d r w h =
      let e : r.reassembly.buffer ++ d ≡ p ++ d = ap (λ b. b ++ d) w.1 in
      collect_header-short d r (small p r w) (omega (arith, ap length e))
      ∙ ap (λ b. leaves (with_buffer r b)) e

  collect_header-start :
      (p d : Bytes) (r : Receiver)
      → (Waits batch) p r
      → packet_header_size ≤ length (p ++ d)
      → take 20 (p ++ d) ≡ (front batch)
      → collect_header d r ≡ continues (drop 20 (p ++ d)) ((started batch) r)
  collect_header-start p d r w h same =
      let e : r.reassembly.buffer ++ d ≡ p ++ d = ap (λ b. b ++ d) w.1 in
      collect_header-full d r (small p r w) (omega (arith, ap length e))
      ∙ ap (λ b. examine_header (take 20 b) (drop 20 b) r) e
      ∙ ap (λ b. examine_header b (drop 20 (p ++ d)) r) same
      ∙ examine_header-front (drop 20 (p ++ d)) r w.3

  -- Bytes that do not complete the header are kept.
  pub seek_header-part :
      (p d : Bytes) (r : Receiver)
      → (Waits batch) p r
      → length (p ++ d) < packet_header_size
      → seek_header d r ≡ leaves (with_buffer r (p ++ d))
  seek_header-part [] d r w h =
      let all : length d - min (length d) 19 ≡ 0 = omega arith in
      seek_header-empty d r w.1 ∙ (rw (find_batch_header_offset-short d h, all) (ground arith))
  seek_header-part (x ∷ p) d r w h =
      seek_header-cons x p d r w.1 ∙ collect_header-part (x ∷ p) d r w h

  -- Bytes that complete it start the batch.
  pub seek_header-start :
      (p d : Bytes) (r : Receiver)
      → (Waits batch) p r
      → packet_header_size ≤ length (p ++ d)
      → take 20 (p ++ d) ≡ (front batch)
      → seek_header d r ≡ continues (drop 20 (p ++ d)) ((started batch) r)
  seek_header-start [] d r w h same =
      seek_header-empty d r w.1
      ∙ (rw (find_batch_header_offset-front d (front_of d h same))
          (ground (arith, collect_header-start [] d r w h same)))
  seek_header-start (x ∷ p) d r w h same =
      seek_header-cons x p d r w.1 ∙ collect_header-start (x ∷ p) d r w h same
