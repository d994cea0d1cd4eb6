-- ===== src/Server/Ingest/Stream/Cut.antt =====
-- A stream that is cut inside a header or behind one.
use udp_test.Base.{
  ◌≤◌, ◌≡◌, refl, sym, ap, ◌∙◌, ◌++◌, append_assoc, arith, length, take, drop, replicate,
  length-take, length-drop, take-append_le, drop-append_le,
}
use udp_test.Crc.{Bytes}
use udp_test.Packet.{packet_header_size}
use udp_test.Server.State.{Receiver}
use udp_test.Server.Ingest.Incoming.{Gathers, started, front}

module _ (batch rest p q d left : Bytes) (long : packet_header_size ≤ length batch)
    (whole : batch ≡ p ++ q) (coming : d ++ left ≡ q ++ rest) where
  stream : (p ++ d) ++ left ≡ batch ++ rest
  stream =
      append_assoc p d left
      ∙ ap (◌++◌ p) coming
      ∙ sym (append_assoc p q (rest))
      ∙ ap (λ b. b ++ rest) (sym whole)

  pub same_front : packet_header_size ≤ length (p ++ d) → take 20 (p ++ d) ≡ front batch
  same_front h =
      sym (take-append_le 20 (p ++ d) left h)
      ∙ ap (take 20) stream
      ∙ take-append_le 20 batch (rest) long

  pub same_tail :
      packet_header_size ≤ length (p ++ d) → drop 20 (p ++ d) ++ left ≡ drop 20 batch ++ rest
  same_tail h =
      sym (drop-append_le 20 (p ++ d) left h)
      ∙ ap (drop 20) stream
      ∙ drop-append_le 20 batch (rest) long

pub started-Gathers :
    (batch : Bytes)
    → packet_header_size ≤ length batch
    → (r : Receiver) → Gathers batch (front batch) (drop 20 batch) (started batch r)
started-Gathers batch long r = (
  refl,
  ap (λ n. front batch ++ replicate n 0) (sym (length-drop 20 batch)),
  omega (arith, long, length-take 20 batch),
  refl,
  omega (arith, long, length-take 20 batch),
  refl,
)
