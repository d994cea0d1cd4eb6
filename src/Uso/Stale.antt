-- ===== src/Uso/Stale.antt =====
-- The completion routine of an earlier send that runs while `invoke_wsasendmsg` waits for its own.
use udp_test.Base.{ℕ, ◌≡◌, Bool, true, List, [], ◌∷◌, length}
use udp_test.Windows.{SendMessage, Routine, Winsock, Process}
use udp_test.Windows.Ends.{Ends}
use udp_test.Uso.{IoContext}
use udp_test.Uso.Wire.{Wire, IsPending, IsSame}

module _ {W : Type 0} (os : Winsock W) (wire : Wire W) (sock waits : ℕ) (msg : SendMessage) where
  -- An alertable wait runs the routine of an earlier send, whose context was at the same address and
  -- whose message was of the same length. The message under way stays so.
  abbrev pub IsStaleWait : ℕ → ℕ → W → List Routine × W → Type 0
  IsStaleWait a n w (r ∷ [], w') =
      (r.overlapped ≡ a)
      × (r.error ≡ 0)
      × (r.cb_transferred ≡ length msg.buffer)
      × IsPending wire a msg n w'
      × IsSame wire w w'
  IsStaleWait a n w (rs, w') = ⊥

  -- The call tells that all was sent, with the message still under way and nothing of it sent.
  abbrev pub Misreports : ℕ → ℕ → W → Bool × ℕ → Process W → Type 0
  Misreports a n w (told, e) q =
      (told ≡ true) × IsPending wire a msg n q.world × IsSame wire w q.world

  abbrev EndedEarly : ℕ → ℕ → W → IoContext → Process W → Type 0
  EndedEarly a n w ctx q =
      (ctx.io_error ≡ 0)
      × (ctx.bytes_transferred ≡ length msg.buffer)
      × IsPending wire a msg n q.world
      × IsSame wire w q.world
