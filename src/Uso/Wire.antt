-- ===== src/Uso/Wire.antt =====
-- What Windows says of the calls that `send_buffer_uso` makes on a socket: what they put on the
-- wire, and the segment size that the socket is set to.
use udp_test.Base.{
  ℕ, suc, ◌≤◌, ◌≡◌, ◌≢◌, ◌⊎◌, inl, inr, ◌∙◌, Bool, true, false, Option, none, some, List, [], ◌∷◌,
  ◌++◌, length,
}
use udp_test.Crc.{Bytes}
use udp_test.Client.Segments.{datagrams}
use udp_test.Windows.{
  Sockaddr, SendControl, pktinfo, pktinfo6, send_msg_size, SendMessage, Routine, udp_send_msg_size,
  Winsock, Process, Action, call,
}
use udp_test.Windows.Ends.{Ends}
use udp_test.Uso.{UsoThrow, wsa_io_pending}

-- The message that is under way: the address of its overlapped structure, and a bound on the
-- alertable waits until its completion routine runs.
pub record Pending : Type 0 where
  pub overlapped : ℕ
  pub message : SendMessage
  pub waits : ℕ

abbrev pub under_way : ℕ → SendMessage → ℕ → Option Pending
under_way a msg n = some (record { overlapped = a; message = msg; waits = n })

-- No overlapped call is done at once. A call that is done at once leaves its completion routine
-- queued for a later alertable wait, when its context is gone.
abbrev pub NoneAtOnce : {W : Type 0} → Winsock W → Type 0
NoneAtOnce {W} os =
    (sock : ℕ) (msg : SendMessage) (a : ℕ) (w : W)
    → (os.wsasendmsg_overlapped sock msg a w).0 ≡ none

-- No overlapped call leaves its message under way, so there is no alertable wait.
abbrev pub NonePending : {W : Type 0} → Winsock W → Type 0
NonePending {W} os =
    (sock : ℕ) (msg : SendMessage) (a : ℕ) (w : W)
    → (os.wsasendmsg_overlapped sock msg a w).0 ≡ none
    → os.last_error (os.wsasendmsg_overlapped sock msg a w).1.1 ≢ wsa_io_pending

-- The two do not mix: no wait meets the completion routine of an earlier call.
abbrev pub IsUnmixed : {W : Type 0} → Winsock W → Type 0
IsUnmixed os = NoneAtOnce os ⊎ NonePending os

-- The datagrams sent so far, the socket's segment size (0 where none is set), and the message that
-- is under way.
pub record Wire (W : Type 0) : Type 0 where
  pub sent : W → List Bytes
  pub size_set : W → ℕ
  pub pending : W → Option Pending

-- The segment size of a message: what a control message says, or else the socket's.
abbrev pub size_of : List SendControl → ℕ → ℕ
size_of [] size = size
size_of (send_msg_size n ∷ cs) size = n
size_of (pktinfo addr index ∷ cs) size = size_of cs size
size_of (pktinfo6 addr index ∷ cs) size = size_of cs size

-- No exception.
abbrev pub Never : {S : Type 0} → UsoThrow → S → Type 0
Never e s = ⊥

module _ {W : Type 0} (wire : Wire W) where
  abbrev pub IsSame : W → W → Type 0
  IsSame w w' = (wire.sent w' ≡ wire.sent w) × (wire.size_set w' ≡ wire.size_set w)

  abbrev pub IsAdded : List Bytes → W → W → Type 0
  IsAdded ds w w' = (wire.sent w' ≡ wire.sent w ++ ds) × (wire.size_set w' ≡ wire.size_set w)

  -- A message goes whole or not at all.
  abbrev pub IsAnswer : List Bytes → ℕ → W → Option ℕ × W → Type 0
  IsAnswer ds n w (none, w') = IsSame w w'
  IsAnswer ds n w (some k, w') = (k ≡ n) × IsAdded ds w w'

  abbrev pub IsSizeSet : ℕ → W → Bool × W → Type 0
  IsSizeSet n w (false, w') = IsSame w w'
  IsSizeSet n w (true, w') = (wire.sent w' ≡ wire.sent w) × (wire.size_set w' ≡ n)

  -- What is sent by a message in a state of the socket.
  abbrev pub datagrams_of : SendMessage → W → List Bytes
  datagrams_of msg w = datagrams (size_of msg.control (wire.size_set w)) msg.buffer

  abbrev pub IsPending : ℕ → SendMessage → ℕ → W → Type 0
  IsPending a msg n w = wire.pending w ≡ under_way a msg n

  -- An alertable wait while a message is under way, and no other routine is queued.
  abbrev pub IsWait : ℕ → SendMessage → ℕ → W → List Routine × W → Type 0
  IsWait a msg n w ([], w') = (k : ℕ) × (n ≡ suc k) × IsPending a msg k w' × IsSame w w'
  IsWait a msg n w (r ∷ [], w') =
      (r.overlapped ≡ a)
      × (((r.error ≡ 0)
            × (r.cb_transferred ≡ length msg.buffer)
            × IsAdded (datagrams_of msg w) w w')
          ⊎ ((r.error ≢ 0) × IsSame w w'))
  IsWait a msg n w (r ∷ (r' ∷ rs), w') = ⊥

  -- What has been sent, on a socket with no segment size or with the run's.
  abbrev pub At : ℕ → List Bytes → W → Type 0
  At mss ds w = (wire.sent w ≡ ds) × ((wire.size_set w ≡ 0) ⊎ (wire.size_set w ≡ mss))

  abbrev pub Keeps : {A : Type 0} → ℕ → List Bytes → Action UsoThrow (Process W) A → Type 0
  Keeps {A} mss ds m =
      (p : Process W) → At mss ds p.world → Ends (λ (a : A) p'. At mss ds p'.world) Never (m p)

  pub IsSame-At : (mss : ℕ) (ds : List Bytes) (w w' : W) → IsSame w w' → At mss ds w → At mss ds w'
  IsSame-At mss ds w w' (s, n) (sent, inl e) = (s ∙ sent, inl (n ∙ e))
  IsSame-At mss ds w w' (s, n) (sent, inr e) = (s ∙ sent, inr (n ∙ e))

  -- A call that changes nothing of it.
  pub call-Keeps :
      {A : Type 0} (mss : ℕ) (ds : List Bytes) (f : W → A × W)
      → ((w : W) → IsSame w (f w).1)
      → Keeps mss ds (call f)
  call-Keeps mss ds f same p at = IsSame-At mss ds p.world (f p.world).1 (same p.world) at

module _ {W : Type 0} (os : Winsock W) (wire : Wire W) (sock limit : ℕ) where
  -- An overlapped call is done at once, or fails, or leaves the message under way. It is no
  -- alertable wait: no routine runs meanwhile, but for that of a message that is done at once.
  abbrev pub IsOverlapped : ℕ → SendMessage → W → Option ℕ × (List Routine × W) → Type 0
  IsOverlapped a msg w (some k, ([], w')) =
      (k ≡ length msg.buffer) × IsAdded wire (datagrams_of wire msg w) w w'
  IsOverlapped a msg w (some k, (r ∷ [], w')) =
      (r.overlapped ≡ a)
      × (r.cb_transferred ≡ length msg.buffer)
      × IsAdded wire (datagrams_of wire msg w) w w'
  IsOverlapped a msg w (some k, (r ∷ (r' ∷ rs), w')) = ⊥
  IsOverlapped a msg w (none, ([], w')) =
      IsSame wire w w'
      × (os.last_error w' ≡ wsa_io_pending → (n : ℕ) × (n ≤ limit) × IsPending wire a msg n w')
  IsOverlapped a msg w (none, (r ∷ rs, w')) = ⊥

  -- The documented behaviour of Windows on one socket, whether the calls succeed or fail.
  pub record Behaves : Type 0 where
    pub get_ws2 : (w : W) → IsSame wire w (os.get_ws2 w).1
    pub load_ws2 : (w : W) → IsSame wire w (os.load_ws2 w).1
    pub get_set_size : (w : W) → IsSame wire w (os.get_set_size w).1
    pub get_sendmsg : (w : W) → IsSame wire w (os.get_sendmsg sock w).1
    pub best_interface : (a : Sockaddr) (w : W) → IsSame wire w (os.best_interface a w).1
    pub set_size : (n : ℕ) (w : W) → IsSizeSet wire n w (os.set_size sock n w)
    pub setsockopt : (n : ℕ) (w : W) → IsSizeSet wire n w (os.setsockopt sock udp_send_msg_size n w)
    pub sendto :
        (d : Bytes) (a : Sockaddr) (w : W)
        → IsAnswer wire (datagrams (wire.size_set w) d) (length d) w (os.sendto sock d a w)
    pub wsasendmsg :
        (msg : SendMessage) (w : W)
        → IsAnswer wire (datagrams_of wire msg w) (length msg.buffer) w (os.wsasendmsg sock msg w)
    pub wsasendmsg_overlapped :
        (msg : SendMessage) (a : ℕ) (w : W)
        → IsOverlapped a msg w (os.wsasendmsg_overlapped sock msg a w)
    -- Only where no call is done at once are there no other routines to run.
    pub sleep_ex :
        NoneAtOnce os
        → (a : ℕ) (msg : SendMessage) (n : ℕ) (w : W) → IsPending wire a msg n w
        → IsWait wire a msg n w (os.sleep_ex w)
