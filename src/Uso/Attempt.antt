-- ===== src/Uso/Attempt.antt =====
-- An attempt of `try_wsasendmsg_uso` sends the segments of the batch, or nothing.
use udp_test.Base.{
  ℕ, zero, suc, ◌+◌, ◌^◌, ◌≤◌, ◌<◌, ◌≡◌, ◌≢◌, ◌⊎◌, inl, inr, refl, sym, ap, subst, ◌∙◌, arith, Bool,
  true, false, not, ◌&&◌, Option, none, some, List, [], ◌∷◌, ◌++◌, ◌==◌, length, u32,
}
use udp_test.Crc.{Bytes}
use udp_test.Windows.{SendMessage, Routine, Winsock, Process, pure, ◌>>=◌, call}
use udp_test.Windows.Ends.{Ends, bind-Ends, if-Ends}
use udp_test.Uso.{
  wsa_io_pending, IoContext, no_context, after_routine, after_routines, Invoked, of_context,
}
use udp_test.Uso.Message.{
  wait_completed, invoke_wsasendmsg, of_call, of_overlapped, of_pending, of_invoked, invoke,
}
use udp_test.Uso.Wire.{
  Wire, Never, At, IsPending, IsAdded, IsSame-At, IsAnswer, IsWait, IsOverlapped, datagrams_of,
  Behaves, IsUnmixed, NoneAtOnce,
}

-- A routine that reports to the context.
pub after_routine-own :
    (r : Routine) (ctx : IoContext)
    → r.overlapped ≡ ctx.overlapped
    → after_routine r ctx ≡ record {
      overlapped = ctx.overlapped;
      completed = true;
      io_error = r.error;
      bytes_transferred = r.cb_transferred;
    }
after_routine-own r ctx e =
    let b : (r.overlapped == ctx.overlapped) ≡ true = ground (arith, e) in rw b refl

-- Where a call leaves its message under way, none is done at once.
pub no_stale :
    {W : Type 0} (os : Winsock W) (sock : ℕ) (msg : SendMessage) (a : ℕ) (w : W)
    → IsUnmixed os
    → (os.wsasendmsg_overlapped sock msg a w).0 ≡ none
    → os.last_error (os.wsasendmsg_overlapped sock msg a w).1.1 ≡ wsa_io_pending
    → NoneAtOnce os
no_stale os sock msg a w (inl none_at_once) refused pending = none_at_once
no_stale os sock msg a w (inr none_pending) refused pending =
    absurd (none_pending sock msg a w refused pending)

module _ {W : Type 0} (wire : Wire W) (mss : ℕ) (ds new : List Bytes) where
  -- Whether the call has sent the new datagrams; otherwise it has sent nothing.
  abbrev pub Attempted : Bool × ℕ → Process W → Type 0
  Attempted (true, e) p = At wire mss (ds ++ new) p.world
  Attempted (false, e) p = At wire mss ds p.world

  -- The same of `invoke_wsasendmsg`, with all bytes of the message counted.
  abbrev Delivers : ℕ → Bool → ℕ → W → Type 0
  Delivers n true bytes w = (bytes ≡ n) × At wire mss (ds ++ new) w
  Delivers n false bytes w = At wire mss ds w

  abbrev DeliversAll : ℕ → Invoked → Process W → Type 0
  DeliversAll n invoked p = Delivers n invoked.sent invoked.bytes_sent p.world

  pub added-At : (w w' : W) → IsAdded wire new w w' → At wire mss ds w → At wire mss (ds ++ new) w'
  added-At w w' (s, n) (sent, inl e) = (s ∙ ap (λ l. l ++ new) sent, inl (n ∙ e))
  added-At w w' (s, n) (sent, inr e) = (s ∙ ap (λ l. l ++ new) sent, inr (n ∙ e))

  module _ (os : Winsock W) (sock limit : ℕ) (behaves : Behaves os wire sock limit)
      (msg : SendMessage) (same_new : (w : W) → datagrams_of wire msg w ≡ new) where
    added_msg :
        (w w' : W)
        → IsAdded wire (datagrams_of wire msg w) w w'
        → At wire mss ds w
        → At wire mss (ds ++ new) w'
    added_msg w w' added at = added-At w w' (subst (λ l. IsAdded wire l w w') (same_new w) added) at

    -- The call's context is at an address.
    module _ (a : ℕ) where
      -- The message is under way: the context is still empty, or the routine has run.
      abbrev UnderWay : ℕ → Bool → IoContext → W → Type 0
      UnderWay n true ctx w =
          ((ctx.io_error ≡ 0)
            × (ctx.bytes_transferred ≡ length msg.buffer)
            × At wire mss (ds ++ new) w)
          ⊎ ((ctx.io_error ≢ 0) × At wire mss ds w)
      UnderWay n false ctx w = (ctx.overlapped ≡ a) × IsPending wire a msg n w × At wire mss ds w

      abbrev Completed : IoContext → Process W → Type 0
      Completed ctx p = UnderWay 0 true ctx p.world

      waited :
          (n : ℕ) (ctx : IoContext) (w : W) (o : List Routine × W)
          → ctx.overlapped ≡ a
          → ctx.completed ≡ false
          → IsWait wire a msg n w o
          → At wire mss ds w
          → ((after_routines o.0 ctx).completed ≡ true
              × UnderWay 0 true (after_routines o.0 ctx) o.1)
            ⊎ ((k : ℕ) × (n ≡ suc k)
                × ((after_routines o.0 ctx).completed ≡ false)
                × UnderWay k false (after_routines o.0 ctx) o.1)
      waited n ctx w ([], w') own not_yet (k, e, pending, same) at =
          inr (k, e, not_yet, (own, pending, IsSame-At wire mss ds w w' same at))
      waited n ctx w (r ∷ [], w') own not_yet (to_it, inl (ok, bytes, added)) at =
          rw (after_routine-own r ctx (to_it ∙ sym own))
            (inl (refl, inl (ok, bytes, added_msg w w' added at)))
      waited n ctx w (r ∷ [], w') own not_yet (to_it, inr (bad, same)) at =
          rw (after_routine-own r ctx (to_it ∙ sym own))
            (inl (refl, inr (bad, IsSame-At wire mss ds w w' same at)))
      waited n ctx w (r ∷ (r' ∷ rs), w') own not_yet never at = absurd never

      done_at_once :
          (waits : ℕ) (ctx : IoContext) (p : Process W)
          → ctx.completed ≡ true
          → 0 < waits
          → Completed ctx p
          → Ends Completed Never (wait_completed os waits ctx p)
      unfolding wait_completed
      done_at_once zero ctx p done pos h = absurd (omega arith)
      done_at_once (suc waits) ctx p done pos h = rw done h

      wait_completed-Completed :
          NoneAtOnce os
          → (waits n : ℕ) (ctx : IoContext) (p : Process W) → n + 2 ≤ waits
          → ctx.completed ≡ false
          → UnderWay n false ctx p.world
          → Ends Completed Never (wait_completed os waits ctx p)
      unfolding wait_completed
      wait_completed-Completed no_stale zero n ctx p enough not_yet h = absurd (omega arith)
      wait_completed-Completed no_stale (suc waits) n ctx p enough not_yet (own, pending, at) =
          if-Ends Completed Never ctx.completed (pure ctx)
            (call os.sleep_ex >>= (λ routine. wait_completed os waits (after_routines routine ctx)))
            p (λ done. absurd (cc (done, not_yet)))
            (λ _.
              elim (waited n ctx p.world (os.sleep_ex p.world) own not_yet
                (behaves.sleep_ex no_stale a msg n p.world pending) at) [
                  | inl (done, h) ↦
                      done_at_once waits _ (record p { world = (os.sleep_ex p.world).1 }) done
                        (omega arith) h
                  | inr (k, e, still, h) ↦
                      wait_completed-Completed no_stale waits k _
                        (record p { world = (os.sleep_ex p.world).1 }) (omega (arith, enough, e))
                        still h
                ])

      of_pending-DeliversAll :
          (waits : ℕ) (p : Process W)
          → (os.last_error p.world ≡ wsa_io_pending → NoneAtOnce os)
          → limit + 2 ≤ waits
          → At wire mss ds p.world
          → (os.last_error p.world ≡ wsa_io_pending
              → (n : ℕ) × (n ≤ limit) × IsPending wire a msg n p.world)
          → Ends
              (DeliversAll (length msg.buffer))
              Never
              (of_pending os waits (no_context a) (os.last_error p.world) p)
      of_pending-DeliversAll waits p no_stale enough at pending =
          if-Ends (DeliversAll (length msg.buffer)) Never
            (not (os.last_error p.world == wsa_io_pending)) _ _ p (λ other. at)
            (λ under_way.
              let (n, small, h) = pending (ground arith) in
              bind-Ends Completed (DeliversAll (length msg.buffer)) Never
                (wait_completed os waits (no_context a)) _ p
                (wait_completed-Completed (no_stale (ground arith)) waits n (no_context a) p
                  (omega arith) refl (refl, h, at))
                (λ ctx q. of_completed ctx q))
        where
          of_completed :
              (ctx : IoContext) (q : Process W)
              → Completed ctx q
              → DeliversAll (length msg.buffer) (of_context ctx) q
          of_completed ctx q (inl (ok, bytes, sent)) = rw ok (bytes, sent)
          of_completed ctx q (inr (bad, nothing)) =
              let b : (ctx.io_error == 0) ≡ false = ground arith in rw b nothing

      of_overlapped-DeliversAll :
          (waits : ℕ) (p : Process W) (o : Option ℕ × (List Routine × W))
          → (o.0 ≡ none → os.last_error o.1.1 ≡ wsa_io_pending → NoneAtOnce os)
          → limit + 2 ≤ waits
          → At wire mss ds p.world
          → IsOverlapped os wire sock limit a msg p.world o
          → Ends (DeliversAll (length msg.buffer)) Never (
              of_overlapped os waits
                (after_routines o.1.0 (no_context a))
                o.0
                (record p { world = o.1.1 }))
      of_overlapped-DeliversAll waits p (some k, ([], w)) no_stale enough at (bytes, added) =
          (bytes, added_msg p.world w added at)
      of_overlapped-DeliversAll waits p (some k, (r ∷ [], w)) no_stale enough at
            (own, bytes, added) =
          rw (after_routine-own r (no_context a) own) (bytes, added_msg p.world w added at)
      of_overlapped-DeliversAll waits p (some k, (r ∷ (r' ∷ rs), w)) no_stale enough at never =
          absurd never
      of_overlapped-DeliversAll waits p (none, ([], w)) no_stale enough at (same, pending) =
          of_pending-DeliversAll waits (record p { world = w }) (no_stale refl) enough
            (IsSame-At wire mss ds p.world w same at) pending
      of_overlapped-DeliversAll waits p (none, (r ∷ rs, w)) no_stale enough at never = absurd never

    of_call-DeliversAll :
        (p : Process W) (o : Option ℕ × W)
        → At wire mss ds p.world
        → IsAnswer wire (datagrams_of wire msg p.world) (length msg.buffer) p.world o
        → Ends (DeliversAll (length msg.buffer)) Never (of_call os o.0 (record p { world = o.1 }))
    of_call-DeliversAll p (some k, w) at (bytes, added) = (bytes, added_msg p.world w added at)
    of_call-DeliversAll p (none, w) at same = IsSame-At wire mss ds p.world w same at

    invoke_wsasendmsg-DeliversAll :
        (waits : ℕ) (routine : Bool) (p : Process W)
        → (routine ≡ true → IsUnmixed os)
        → limit + 2 ≤ waits
        → At wire mss ds p.world
        → Ends
            (DeliversAll (length msg.buffer))
            Never
            (invoke_wsasendmsg os waits sock msg routine p)
    unfolding invoke_wsasendmsg
    invoke_wsasendmsg-DeliversAll waits routine p unmixed enough at =
        if-Ends (DeliversAll (length msg.buffer)) Never (not routine) _ _ p
          (λ plain.
            of_call-DeliversAll p (os.wsasendmsg sock msg p.world) at
              (behaves.wsasendmsg msg p.world))
          (λ overlapped.
            of_overlapped-DeliversAll (os.frame p.world) waits p
              (os.wsasendmsg_overlapped sock msg (os.frame p.world) p.world)
              (no_stale os sock msg (os.frame p.world) p.world (unmixed (ground arith))) enough at
              (behaves.wsasendmsg_overlapped msg (os.frame p.world) p.world))

    of_invoked-Attempted :
        (n : ℕ) (invoked : Invoked) (p : Process W)
        → n < 2 ^ 32
        → DeliversAll n invoked p
        → Attempted (of_invoked os n invoked) p
    of_invoked-Attempted n invoked p fits h = go invoked.sent refl (h)
      where
        go :
            (sent : Bool)
            → invoked.sent ≡ sent
            → Delivers n sent invoked.bytes_sent p.world
            → Attempted (sent && (invoked.bytes_sent == u32 n), invoked.wsa_error) p
        go true e (bytes, at) =
            let b : (invoked.bytes_sent == u32 n) ≡ true = ground arith in rw b at
        go false e at = at

    pub invoke-Attempted :
        (waits : ℕ) (routine : Bool) (p : Process W)
        → (routine ≡ true → IsUnmixed os)
        → limit + 2 ≤ waits
        → length msg.buffer < 2 ^ 32
        → At wire mss ds p.world
        → Ends Attempted Never (invoke os waits sock routine msg p)
    invoke-Attempted waits routine p unmixed enough fits at =
        bind-Ends (DeliversAll (length msg.buffer)) Attempted Never
          (invoke_wsasendmsg os waits sock msg routine) _ p
          (invoke_wsasendmsg-DeliversAll waits routine p unmixed enough at)
          (λ invoked q. of_invoked-Attempted (length msg.buffer) invoked q fits)
