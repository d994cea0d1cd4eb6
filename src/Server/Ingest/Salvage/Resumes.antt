-- ===== src/Server/Ingest/Salvage/Resumes.antt =====
-- A stream whose first batch is damaged, with a complete batch inside: the loop of `ingest_fragment`.
use udp_test.Base.{
  drop, ℕ, zero, suc, ◌+◌, ◌*◌, ◌≤◌, ◌<◌, ◌≡◌, ◌⊎◌, refl, sym, ap, subst, ◌∙◌, inl, inr, Bool, true,
  false, Option, some, List, [], ◌∷◌, ◌++◌, append_split, arith, length, join, All, length-append,
  le_cases, ◌>>=◌,
}
use udp_test.Crc.{Bytes}
use udp_test.Packet.{packet_header_size}
use udp_test.Server.State.{Receiver, ServerStats, count_fragment}
use udp_test.Server.Ingest.{
  Ingest, Round, continues, ingest_round, resume, ingest_loop, pending, with_buffer,
}
use udp_test.Server.Ingest.Sound.{weight, idle}
use udp_test.Server.Ingest.Total.{Ends, ingest_loop-Ends}
use udp_test.Server.Ingest.Incoming.{Waits, Gathers, started}
use udp_test.Server.Ingest.Incoming.Body.{continue_batch-full}
use udp_test.Server.Ingest.Stream.{
  ingest_loop-nil, Awaits, IsDeliverable, Joins, Synced, ready, Reached, weight-Gathers,
}
use udp_test.Server.Ingest.Stream.Stages.{
  ingest_round-idle, ingest_round-busy, seek_header-Awaits, started-Awaits, continue_batch-Awaits,
}
use udp_test.Server.Ingest.Stream.Reach.{reached}
use udp_test.Server.Ingest.Salvage.{IsDamaged}
use udp_test.Server.Ingest.Salvage.Recover.{counted_bad, try_complete_batch-damaged}
use udp_test.Server.Ingest.Salvage.Passed.{after_bad, Passed, since}

module _ (total : ℕ) (outer pre inner tail : Bytes) (damaged : IsDamaged total outer pre inner tail)
    (batches : List Bytes) (all : All (IsDeliverable total) batches) (rest : Bytes)
    (stream : (inner ++ tail) ++ rest ≡ join batches) where
  abbrev PassedHere : ServerStats → Bytes → Option Receiver → Type 0
  PassedHere = Passed total outer rest batches

  module _ (fuel : ℕ) where
    abbrev inner_call : Ingest
    inner_call = λ carry r. ingest_loop fuel carry (count_fragment r)

    abbrev then_loop : Option Round → Option Receiver
    then_loop round = round >>= resume (ingest_loop fuel)

    -- What the induction gives for the rest of the datagram.
    abbrev Loop : Type 0
    Loop =
        (d left : Bytes) (r : Receiver)
        → Awaits outer rest (d ++ left) r
        → Joins total r.stats
        → weight d r.reassembly < fuel
        → PassedHere r.stats left (ingest_loop fuel d r)

    -- The datagram completes the damaged batch.
    module _ (p q m left : Bytes) (r : Receiver) (whole : outer ≡ p ++ q) (after : rest ≡ m ++ left)
        (g : Gathers outer p q r) (light : weight (q ++ m) r.reassembly < suc fuel) where
      abbrev bad : Receiver
      bad = count_fragment (counted_bad total r.stats)

      room : 2 * (length (inner ++ tail) + 1 + length m) ≤ fuel
      room = omega (
        arith,
        light,
        weight-Gathers outer p q (q ++ m) r g,
        length-append q m,
        ap length whole,
        length-append p q,
        ap length damaged.whole,
        length-append pre (inner ++ tail),
        damaged.behind,
      )

      carried : Reached total bad.stats batches (m ++ left) (ingest_loop fuel (inner ++ tail) bad)
      carried =
          reached total fuel (inner ++ tail) (m ++ left) batches bad all (inr refl)
            (subst (λ x. Synced batches x bad)
              (sym (ap (λ x. (inner ++ tail) ++ x) (sym after) ∙ stream))
              (ready total batches bad all (inr refl) refl refl))
            (omega (arith, room))

      held : pending carried.r.reassembly ≤ length (inner ++ tail)
      held =
          let ends =
            subst (Ends (length (inner ++ tail) + 0)) carried.returns
              (ingest_loop-Ends fuel (inner ++ tail) bad (omega arith) (omega (arith, room))) in
          omega (arith, ends.1)

      goes_on : Reached total carried.r.stats carried.later left (ingest_loop fuel m carried.r)
      goes_on =
          reached total fuel m left carried.later carried.r carried.deliverable carried.joins
            carried.synced (lighter carried.r.reassembly.active)
        where
          lighter :
              (active : Bool) → 2 * (length m + pending carried.r.reassembly) + idle active < fuel
          lighter true = omega (arith, room, held)
          lighter false = omega (arith, room, held)

      completes : PassedHere r.stats left (then_loop (ingest_round inner_call (q ++ m) r))
      completes =
          let (full, round, buffer, size, kept) =
            continue_batch-full outer damaged.framed inner_call p q m r whole g in
          let wire : full.stats.wire_batch_total ≡ some total =
            ap (λ (s : ServerStats). s.wire_batch_total) kept ∙ g.5 ∙ ap some damaged.totalled in
          let bad_one : inner_call (inner ++ tail) (counted_bad total full.stats) ≡ some carried.r =
            ap (λ s. inner_call (inner ++ tail) (counted_bad total s)) kept ∙ carried.returns in
          record {
            r = goes_on.r;
            returns =
                ap then_loop (
                  ingest_round-busy inner_call (q ++ m) r g.0
                  ∙ round
                  ∙ ap (λ o. o >>= (λ (done, r'). some (continues m r')))
                      (try_complete_batch-damaged total outer pre inner tail damaged inner_call full
                        buffer size wire)
                  ∙ ap
                      (λ o.
                        (o >>= (λ r'. some (false, r'))) >>= (λ (done, r'). some (continues m r')))
                      bad_one)
                ∙ goes_on.returns;
            stage = inr (record {
              later = goes_on.later;
              synced = goes_on.synced;
              deliverable = goes_on.deliverable;
              joins = goes_on.joins;
              same = goes_on.same ∙ carried.same;
            });
          }

    -- A round while the damaged batch is still coming in.
    module _ (p q d left : Bytes) (r : Receiver) (whole : outer ≡ p ++ q)
        (coming : d ++ left ≡ q ++ rest) (joins : Joins total r.stats)
        (light : weight d r.reassembly < suc fuel) where
      abbrev Rounds : Type 0
      Rounds = PassedHere r.stats left (then_loop (ingest_round inner_call d r))

      pass_part : Waits outer p r → length (p ++ d) < packet_header_size → Rounds
      pass_part w short =
          let (round, awaits) =
            seek_header-Awaits outer rest p q d left r damaged.framed damaged.payload whole coming w
              short in
          record {
            r = with_buffer r (p ++ d);
            returns = ap then_loop (ingest_round-idle inner_call d r w.0 ∙ ap some round);
            stage = inl (awaits, joins, refl);
          }

      pass_start : Loop → Waits outer p r → packet_header_size ≤ length (p ++ d) → Rounds
      pass_start loop w long =
          let (round, awaits, lighter) =
            started-Awaits outer rest p q d left r damaged.framed damaged.payload whole coming w
              long in
          since total outer rest batches (started outer r).stats r.stats left
            (ingest_loop fuel (drop 20 (p ++ d)) (started outer r))
            (then_loop (ingest_round inner_call d r))
            (ap then_loop (ingest_round-idle inner_call d r w.0 ∙ ap some round)) refl
            (loop (drop 20 (p ++ d)) left (started outer r) awaits (inr (ap some damaged.totalled))
              (omega (arith, light, lighter)))

      pass_middle : Gathers outer p q r → length d < length q → 0 < fuel → Rounds
      pass_middle g short pos =
          let (r', round, awaits, kept) =
            continue_batch-Awaits outer rest p q d left r damaged.framed damaged.payload whole
              coming inner_call g short in
          record {
            r = r';
            returns =
                ap then_loop (ingest_round-busy inner_call d r g.0 ∙ round)
                ∙ ingest_loop-nil fuel r' pos;
            stage = inl (awaits, subst (Joins total) (sym kept) joins, ap (after_bad total) kept);
          }

      pass_whole : Gathers outer p q r → length q ≤ length d → Rounds
      pass_whole g enough =
          let (m, cut, after) = append_split q rest d left (sym coming) enough in
          subst (λ x. PassedHere r.stats left (then_loop (ingest_round inner_call x r))) (sym cut)
            (completes p q m left r whole after g
              (subst (λ x. weight x r.reassembly < suc fuel) cut light))

      pass : Loop → 0 < length d → Waits outer p r ⊎ Gathers outer p q r → Rounds
      pass loop some_bytes (inl w) = elim (le_cases 20 (length (p ++ d))) [
        | inl long ↦ pass_start loop w long
        | inr short ↦ pass_part w short
      ]
      pass loop some_bytes (inr g) = elim (le_cases (length q) (length d)) [
        | inl enough ↦ pass_whole g enough
        | inr short ↦ pass_middle g short (omega (arith, light, weight-Gathers outer p q d r g))
      ]

  -- A datagram of the stream, while the damaged batch is still coming in.
  pub passes :
      (fuel : ℕ) (d left : Bytes) (r : Receiver)
      → Awaits outer rest (d ++ left) r
      → Joins total r.stats
      → weight d r.reassembly < fuel
      → PassedHere r.stats left (ingest_loop fuel d r)
  unfolding ingest_loop
  passes zero d left r awaits joins light = absurd (omega arith)
  passes (suc fuel) [] left r awaits joins light = record {
    r = r;
    returns = refl;
    stage = inl (awaits, joins, refl);
  }
  passes (suc fuel) (b ∷ d) left r awaits joins light =
      pass fuel awaits.p awaits.q (b ∷ d) left r awaits.whole awaits.coming joins light
        (passes fuel) (omega arith) awaits.shape
