-- ===== src/Uso/Faultless.antt =====
-- A system on which no call fails, and what the function-local `static` variables then hold.
pub mod Invoked
pub mod Sends
use udp_test.Base.{
  ℕ, suc, ◌≤◌, ◌≡◌, refl, Bool, true, false, not, ◌&&◌, Option, none, some, List, [], ◌∷◌, ◌==◌,
  length, not-false, if◌then◌else◌,
}
use udp_test.Crc.{Bytes}
use udp_test.Windows.{
  Sockaddr, Asio, SendMessage, Routine, so_reuseaddr, so_sndbuf, udp_send_msg_size, Winsock,
  Statics, Process, Action, call, pure, ◌>>=◌,
}
use udp_test.Windows.Ends.{Ends, bind-Ends, if-Ends, Preserves, bind-Preserves, if-Preserves}
use udp_test.Uso.{
  UsoThrow, wsa_io_pending, ensure_winsock_initialized, startup, resolve_set_udp_send_message_size,
  configure_udp_send_segment_size, find_ws2, look_for_set_size, error_unless, resolve_wsasendmsg,
}
use udp_test.Uso.Route.{source_address_is_unspecified, ipv4_interface_index}
use udp_test.Uso.Message.{source_control, v4_pktinfo}
use udp_test.Uso.Wire.{Never, Pending, under_way, NoneAtOnce}

-- A call has told what it should.
abbrev Tells : {A W : Type 0} → A → A × W → Type 0
Tells a o = o.0 ≡ a

-- A call has told something.
abbrev TellsSome : {A W : Type 0} → Option A × W → Type 0
TellsSome {A} o = (a : A) × (o.0 ≡ some a)

module _ {W : Type 0} (os : Winsock W) (pending : W → Option Pending) (limit : ℕ) where
  -- An overlapped call is done at once, or leaves the message under way.
  abbrev IsAccepted : ℕ → SendMessage → Option ℕ × (List Routine × W) → Type 0
  IsAccepted a msg (some k, ([], w)) = k ≡ length msg.buffer
  IsAccepted a msg (some k, (r ∷ [], w)) =
      (r.overlapped ≡ a) × (r.cb_transferred ≡ length msg.buffer)
  IsAccepted a msg (some k, (r ∷ (r' ∷ rs), w)) = ⊥
  IsAccepted a msg (none, ([], w)) =
      (os.last_error w ≡ wsa_io_pending) × (n : ℕ) × (n ≤ limit) × (pending w ≡ under_way a msg n)
  IsAccepted a msg (none, (r ∷ rs, w)) = ⊥

  -- An alertable wait brings the message closer to its end, or runs the routine with no error.
  abbrev pub IsServed : ℕ → SendMessage → ℕ → List Routine × W → Type 0
  IsServed a msg n ([], w) = (k : ℕ) × (n ≡ suc k) × (pending w ≡ under_way a msg k)
  IsServed a msg n (r ∷ [], w) =
      (r.overlapped ≡ a) × (r.error ≡ 0) × (r.cb_transferred ≡ length msg.buffer)
  IsServed a msg n (r ∷ (r' ∷ rs), w) = ⊥

  -- No call fails, `WSASendMsg` is there, and there is room for the control messages.
  pub record Faultless : Type 0 where
    pub wsa_startup : (w : W) → Tells true (os.wsa_startup w)
    pub wsa_socket : (w : W) → TellsSome (os.wsa_socket w)
    pub reuseaddr : (s n : ℕ) (w : W) → Tells true (os.setsockopt s so_reuseaddr n w)
    pub sndbuf : (s n : ℕ) (w : W) → Tells true (os.setsockopt s so_sndbuf n w)
    pub segment_size : (s n : ℕ) (w : W) → Tells true (os.setsockopt s udp_send_msg_size n w)
    pub set_size : (s n : ℕ) (w : W) → Tells true (os.set_size s n w)
    pub bind : (s : ℕ) (a : Sockaddr) (w : W) → Tells true (os.bind s a w)
    pub getsockname : (s : ℕ) (w : W) → TellsSome (os.getsockname s w)
    pub get_sendmsg : (s : ℕ) (w : W) → Tells (some true) (os.get_sendmsg s w)
    pub first_control : (msg : SendMessage) → os.first_control msg ≡ true
    pub next_control : (msg : SendMessage) → os.next_control msg ≡ true
    pub sendto :
        (s : ℕ) (d : Bytes) (a : Sockaddr) (w : W) → Tells (some (length d)) (os.sendto s d a w)
    pub wsasendmsg :
        (s : ℕ) (msg : SendMessage) (w : W)
        → Tells (some (length msg.buffer)) (os.wsasendmsg s msg w)
    pub wsasendmsg_overlapped :
        (s : ℕ) (msg : SendMessage) (a : ℕ) (w : W)
        → IsAccepted a msg (os.wsasendmsg_overlapped s msg a w)
    pub sleep_ex :
        NoneAtOnce os
        → (a : ℕ) (msg : SendMessage) (n : ℕ) (w : W) → pending w ≡ under_way a msg n
        → IsServed a msg n (os.sleep_ex w)

-- Windows sockets have been started, and `WSASendMsg` has been found, as far as they have been
-- asked for.
abbrev IsReady : Statics → Type 0
IsReady statics =
    (statics.initialized ≡ true → statics.ok ≡ true)
    × (statics.sendmsg_resolved ≡ true → statics.sendmsg_found ≡ true)

abbrev pub Fine : {W : Type 0} → Process W → Type 0
Fine p = IsReady p.statics

-- No exception, and the variables stay so.
abbrev pub Runs : {W A : Type 0} → Action UsoThrow (Process W) A → Type 0
Runs = Preserves Fine Never

module _ {W : Type 0} (os : Winsock W) (pending : W → Option Pending) (limit : ℕ)
    (faultless : Faultless os pending limit) where
  -- A call says true, and so it goes on.
  abbrev Says : {A : Type 0} → A → A → Process W → Type 0
  Says a b p = (b ≡ a) × Fine p

  pub started-Runs : Runs (ensure_winsock_initialized os)
  unfolding ensure_winsock_initialized
  started-Runs p (started, found) =
      bind-Ends (Says true) (λ (done : Unit {0}) q. Fine q) Never
        (λ q. (if not p.statics.initialized then startup os p.statics else pure p.statics.ok) q) _ p
        (if-Ends (Says true) Never (not p.statics.initialized) (startup os p.statics)
          (pure p.statics.ok) p
          (λ first. (faultless.wsa_startup p.world, ((λ h. faultless.wsa_startup p.world), found)))
          (λ again. (started (not-false p.statics.initialized again), (started, found))))
        (λ ok q (good, fine). rw good fine)

  find_ws2-Runs : Runs (find_ws2 os)
  find_ws2-Runs =
      bind-Preserves Fine Never (call os.get_ws2) _ (λ p fine. fine)
        (λ ws2.
          if-Preserves Fine Never (not ws2) (call os.load_ws2) (pure ws2) (λ p fine. fine)
            (λ p fine. fine))

  look_for_set_size-Runs :
      (statics : Statics) (ws2 : Bool) → IsReady statics → Runs (look_for_set_size os statics ws2)
  look_for_set_size-Runs statics false ready p fine = fine
  look_for_set_size-Runs statics true ready p fine = ready

  resolve_set_size-Runs : Runs (resolve_set_udp_send_message_size os)
  unfolding resolve_set_udp_send_message_size
  resolve_set_size-Runs p fine =
      if-Preserves Fine Never p.statics.set_size_resolved (pure p.statics.set_size_found) _
        (λ q h. h)
        (λ q h.
          bind-Preserves Fine Never (find_ws2 os) (look_for_set_size os p.statics) find_ws2-Runs
            (λ ws2. look_for_set_size-Runs p.statics ws2 fine) _ fine)
        p fine

  -- The segment size is set.
  configure-Says :
      (s n : ℕ) (p : Process W)
      → Fine p
      → Ends (λ (r : Bool × ℕ) q. Says true r.0 q) Never (configure_udp_send_segment_size os s n p)
  unfolding configure_udp_send_segment_size
  configure-Says s n p fine =
      bind-Ends (Says true) (λ (r : Bool × ℕ) q. Says true r.0 q) Never
        (resolve_set_udp_send_message_size os >>= _) (error_unless os) p
        (bind-Ends (λ (fn : Bool) q. Fine q) (Says true) Never
          (resolve_set_udp_send_message_size os) _ p (resolve_set_size-Runs p fine)
          (λ fn q h.
            if-Ends (Says true) Never fn (call (os.set_size s n))
              (call (os.setsockopt s udp_send_msg_size n)) q
              (λ there. (faultless.set_size s n q.world, h))
              (λ missing. (faultless.segment_size s n q.world, h))))
        (λ ok q (good, h). rw good (refl, h))

  -- The pointer is there.
  resolve_wsasendmsg-Says :
      (s : ℕ) (p : Process W) → Fine p → Ends (Says true) Never (resolve_wsasendmsg os s p)
  unfolding resolve_wsasendmsg
  resolve_wsasendmsg-Says s p (started, found) =
      if-Ends (Says true) Never p.statics.sendmsg_resolved (pure p.statics.sendmsg_found) _ p
        (λ again. (found again, (started, found)))
        (λ first. rw (faultless.get_sendmsg s p.world) (refl, (started, (λ h. refl))))

  module _ {Address V4 V6 : Type 0} (asio : Asio Address V4 V6) where
    interface_index-Runs : (v4 : V4) → Runs (ipv4_interface_index asio os v4)
    unfolding ipv4_interface_index
    interface_index-Runs v4 =
        if-Preserves Fine Never (asio.v4_is_unspecified v4) (pure none) _ (λ p fine. fine)
          (λ p fine. fine)

    v4_pktinfo-Runs : (index : ℕ) (source : Address) → Runs (v4_pktinfo os asio index source)
    v4_pktinfo-Runs index source =
        if-Preserves Fine Never (not (index == 0)) _ _ (λ p fine. fine)
          (bind-Preserves Fine Never (ipv4_interface_index asio os (asio.to_v4 source)) _
            (interface_index-Runs (asio.to_v4 source)) (λ found p fine. fine))

    source_control-Runs :
        (include : Bool) (index : ℕ) (source : Address)
        → Runs (source_control os asio include index source)
    unfolding source_control
    source_control-Runs include index source =
        if-Preserves Fine Never (include && not (source_address_is_unspecified asio source)) _ _
          (if-Preserves Fine Never (asio.is_v6 source) _ _ (λ p fine. fine)
            (bind-Preserves Fine Never (v4_pktinfo os asio index source) _
              (v4_pktinfo-Runs index source) (λ control p fine. fine)))
          (λ p fine. fine)
