-- ===== src/Uso/Faultless/Invoked.antt =====
-- A message of Windows on a system on which no call fails.
use udp_test.Base.{
  ℕ, zero, suc, ◌+◌, ◌^◌, ◌≤◌, ◌<◌, ◌≡◌, refl, arith, Bool, true, false, not, Option, none, some,
  length, List, [], ◌∷◌, sym, ◌∙◌,
}
use udp_test.Windows.{SendMessage, Routine, Winsock, Process, ◌>>=◌, call, pure}
use udp_test.Windows.Ends.{Ends, bind-Ends, if-Ends}
use udp_test.Uso.{wsa_io_pending, IoContext, no_context, after_routines, Invoked}
use udp_test.Uso.Message.{
  wait_completed, of_pending, of_overlapped, invoke_wsasendmsg, invoke, of_invoked,
}
use udp_test.Uso.Wire.{Never, Pending, under_way, NoneAtOnce, IsUnmixed}
use udp_test.Uso.Attempt.{after_routine-own, no_stale}
use udp_test.Uso.Faultless.{Faultless, IsAccepted, IsServed, Fine}

module _ {W : Type 0} (os : Winsock W) (pending : W → Option Pending) (limit : ℕ)
    (faultless : Faultless os pending limit) (waits : ℕ) (enough : limit + 2 ≤ waits) where
  module _ (msg : SendMessage) where
    -- The routine has run with no error, on all of the message.
    abbrev Completed : IoContext → Process W → Type 0
    Completed ctx p = (ctx.io_error ≡ 0) × (ctx.bytes_transferred ≡ length msg.buffer) × Fine p

    abbrev Delivered : Invoked → Process W → Type 0
    Delivered invoked p = (invoked.sent ≡ true) × (invoked.bytes_sent ≡ length msg.buffer) × Fine p

    wait_completed-Completed :
        NoneAtOnce os
        → (a waits' n : ℕ) (ctx : IoContext) (p : Process W) → n + 2 ≤ waits'
        → ctx.overlapped ≡ a
        → ctx.completed ≡ false
        → pending p.world ≡ under_way a msg n
        → Fine p
        → Ends Completed Never (wait_completed os waits' ctx p)
    unfolding wait_completed
    wait_completed-Completed no_stale a zero n ctx p fuel own not_yet waiting fine =
        absurd (omega arith)
    wait_completed-Completed no_stale a (suc waits') n ctx p fuel own not_yet waiting fine =
        if-Ends Completed Never ctx.completed (pure ctx)
          (call os.sleep_ex
            >>= (λ routines. wait_completed os waits' (after_routines routines ctx)))
          p (λ over. absurd (cc (over, not_yet)))
          (λ going.
            served (os.sleep_ex p.world) (faultless.sleep_ex no_stale a msg n p.world waiting)
              (λ w k. wait_completed-Completed no_stale a waits' k ctx (record p { world = w })))
      where
        done :
            (m : ℕ) (ctx' : IoContext) (q : Process W)
            → 0 < m
            → ctx'.completed ≡ true
            → Completed ctx' q
            → Ends Completed Never (wait_completed os m ctx' q)
        done zero ctx' q pos e h = absurd (omega arith)
        done (suc m) ctx' q pos e h = rw e h

        served :
            (o : List Routine × W)
            → IsServed os pending limit a msg n o
            → ((w : W) (k : ℕ)
                → k + 2 ≤ waits'
                → ctx.overlapped ≡ a
                → ctx.completed ≡ false
                → pending w ≡ under_way a msg k
                → Fine p
                → Ends Completed Never (wait_completed os waits' ctx (record p { world = w })))
            → Ends Completed Never
                (wait_completed os waits' (after_routines o.0 ctx) (record p { world = o.1 }))
        served ([], w) (k, less, still) rest = rest w k (omega (arith, less)) own not_yet still fine
        served (r ∷ [], w) (to_it, ok, bytes) rest =
            rw (after_routine-own r ctx (to_it ∙ sym own))
              (done waits' _ (record p { world = w }) (omega arith) refl (ok, bytes, fine))
        served (r ∷ (r' ∷ rs), w) never rest = absurd never

    of_pending-Delivered :
        NoneAtOnce os
        → (a : ℕ) (p : Process W) → os.last_error p.world ≡ wsa_io_pending
        → (n : ℕ) → n ≤ limit
        → pending p.world ≡ under_way a msg n
        → Fine p
        → Ends Delivered Never (of_pending os waits (no_context a) (os.last_error p.world) p)
    of_pending-Delivered no_stale a p err n small waiting fine = rw err (
        bind-Ends Completed Delivered Never (wait_completed os waits (no_context a)) _ p
          (wait_completed-Completed no_stale a waits n (no_context a) p (omega arith) refl refl
            waiting fine)
          (λ ctx q (ok, bytes, h). rw ok (refl, bytes, h)))

    of_overlapped-Delivered :
        (a : ℕ) (p : Process W) (o : Option ℕ × (List Routine × W))
        → (o.0 ≡ none → os.last_error o.1.1 ≡ wsa_io_pending → NoneAtOnce os)
        → Fine p
        → IsAccepted os pending limit a msg o
        → Ends Delivered Never (
            of_overlapped os waits
              (after_routines o.1.0 (no_context a))
              o.0
              (record p { world = o.1.1 }))
    of_overlapped-Delivered a p (some k, ([], w)) no_stale fine bytes = (refl, bytes, fine)
    of_overlapped-Delivered a p (some k, (r ∷ [], w)) no_stale fine (own, bytes) =
        rw (after_routine-own r (no_context a) own) (refl, bytes, fine)
    of_overlapped-Delivered a p (some k, (r ∷ (r' ∷ rs), w)) no_stale fine never = absurd never
    of_overlapped-Delivered a p (none, (r ∷ rs, w)) no_stale fine never = absurd never
    of_overlapped-Delivered a p (none, ([], w)) no_stale fine (err, n, small, waiting) =
        of_pending-Delivered (no_stale refl err) a (record p { world = w }) err n small waiting fine

    invoke_wsasendmsg-Delivered :
        (sock : ℕ) (routine : Bool) (p : Process W)
        → (routine ≡ true → IsUnmixed os)
        → Fine p
        → Ends Delivered Never (invoke_wsasendmsg os waits sock msg routine p)
    unfolding invoke_wsasendmsg
    invoke_wsasendmsg-Delivered sock routine p unmixed fine =
        if-Ends Delivered Never (not routine) _ _ p
          (λ plain. rw (faultless.wsasendmsg sock msg p.world) (refl, refl, fine))
          (λ overlapped.
            of_overlapped-Delivered (os.frame p.world) p
              (os.wsasendmsg_overlapped sock msg (os.frame p.world) p.world)
              (no_stale os sock msg (os.frame p.world) p.world (unmixed (ground arith))) fine
              (faultless.wsasendmsg_overlapped sock msg (os.frame p.world) p.world))

    abbrev pub Sends : Bool × ℕ → Process W → Type 0
    Sends r p = (r.0 ≡ true) × Fine p

    pub invoke-Sends :
        (sock : ℕ) (routine : Bool) (p : Process W)
        → (routine ≡ true → IsUnmixed os)
        → length msg.buffer < 2 ^ 32
        → Fine p
        → Ends Sends Never (invoke os waits sock routine msg p)
    invoke-Sends sock routine p unmixed short fine =
        bind-Ends Delivered Sends Never (invoke_wsasendmsg os waits sock msg routine) _ p
          (invoke_wsasendmsg-Delivered sock routine p unmixed fine)
          (λ invoked q (sent, bytes, h). (whole invoked sent bytes, h))
      where
        whole :
            (invoked : Invoked)
            → invoked.sent ≡ true
            → invoked.bytes_sent ≡ length msg.buffer
            → (of_invoked os (length msg.buffer) invoked).0 ≡ true
        whole invoked sent bytes = rw sent (ground arith)
