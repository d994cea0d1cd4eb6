-- ===== src/Client.antt =====
-- client.cpp on platforms other than Windows: `send_batch_fallback` and the loop of `run_client`.
-- The socket is a parameter: `send_to` is `socket.send_to`, on a state of the world that it changes.
pub mod Segments
pub mod Run
pub mod Transfer
pub mod Program
pub mod Main
pub mod Windows
pub mod Samples
mod Tests
use udp_test.Base.{
  [], ℕ, zero, suc, ◌+◌, min, not, ◌∷◌, u32, ◌==◌, if◌then◌else◌, length, take, drop, replicate,
  Result, returned, thrown,
}
use udp_test.Crc.{Bytes}
use udp_test.Packet.{BuildError, build_batch}

-- What `run_client` can throw. `unfinished` marks a loop that is cut off.
pub data ClientError (E : Type 0) : Type 0 where
  socket : E → ClientError E
  build : BuildError → ClientError E
  short_send : ClientError E
  unfinished : ClientError E

infixl 5 ◌>>=◌
abbrev ◌>>=◌ :
    {E A B : Type 0}
    → Result (ClientError E) A
    → (A → Result (ClientError E) B)
    → Result (ClientError E) B
returned a >>= f = f a
thrown e >>= f = thrown e

-- The check of the number of bytes that `send_to` returns.
abbrev check_sent : {E W : Type 0} → ℕ → Result E (ℕ × W) → Result (ClientError E) W
check_sent size (returned (sent, w)) = if not (sent == size) then thrown short_send else returned w
check_sent size (thrown e) = thrown (socket e)

abbrev from_build : {E A : Type 0} → Result BuildError A → Result (ClientError E) A
from_build (returned a) = returned a
from_build (thrown e) = thrown (build e)

module _ {E W : Type 0} (send_to : Bytes → W → Result E (ℕ × W)) where
  send_whole : Bytes → W → Result (ClientError E) W
  send_whole chunk w = check_sent (length chunk) (send_to chunk w)

  -- `while (offset < batch_size)`, where the list is `[data + offset, data + batch_size)`.
  send_segments : ℕ → ℕ → Bytes → W → Result (ClientError E) W
  send_segments zero mss rest w = thrown unfinished
  send_segments (suc rounds) mss [] w = returned w
  send_segments (suc rounds) mss (b ∷ rest) w =
      let chunk = min mss (length (b ∷ rest)) in
      send_whole (take chunk (b ∷ rest)) w >>= send_segments rounds mss (drop chunk (b ∷ rest))

  -- Every round sends a byte at least, so there are at most as many as bytes.
  pub send_batch_fallback : Bytes → ℕ → W → Result (ClientError E) W
  send_batch_fallback batch mss w =
      if mss == 0 then send_whole batch w else send_segments (length batch + 1) mss batch w

  module _ {S : Type 0} (draw : S → ℕ × S) where
    -- The loop of `run_client` from batch `i` on, with the number of batches left. The buffer is
    -- written again for each.
    send_batches : ℕ → ℕ → Bytes → ℕ → ℕ → S → W → Result (ClientError E) W
    send_batches zero i batch count mss s w = returned w
    send_batches (suc left) i batch count mss s w = do
      (batch', s') ← from_build (build_batch draw batch (u32 i) (u32 count) s)
      w' ← send_batch_fallback batch' mss w
      send_batches left (i + 1) batch' count mss s' w'

    -- `run_client` between the socket's set-up and the summary.
    pub run_client : ℕ → ℕ → ℕ → S → W → Result (ClientError E) W
    run_client batch_size batch_count mss s w =
        send_batches batch_count 0 (replicate batch_size 0) batch_count mss s w
