-- ===== src/Uso/Route/Silent.antt =====
-- The datagrams that a process has sent, over all its sockets: `resolve_uso_bind_address` and
-- `ensure_winsock_initialized`.
use Prim.Native.String.{String}
use udp_test.Base.{
  ℕ, ◌*◌, ◌≡◌, ◌∙◌, Bool, true, false, not, ◌&&◌, Option, none, some, List, if◌then◌else◌, ◌==◌,
}
use udp_test.Crc.{Bytes}
use udp_test.Windows.{
  Sockaddr, Endpoint, Asio, AdaptersAnswer, no_error, buffer_overflow, other_error, so_reuseaddr,
  so_sndbuf, Winsock, Process, Action, pure, ◌>>=◌, call,
}
use udp_test.Windows.Address.{parse_address}
use udp_test.Windows.Ends.{Ends, bind-Ends}
use udp_test.Uso.{UsoThrow, ensure_winsock_initialized, startup}
use udp_test.Uso.Wire.{Wire, IsSame, Behaves, Pending}
use udp_test.Uso.Route.{
  bind_option_is_wildcard, ask_again, ipv4_on_interface_index, on_best, ipv4_egress_for_destination,
  ipv4_interface_index, parsed_or_throw, own_index, index_for, resolve_uso_bind_address,
}

-- What is known of the sockets of a process: the datagrams that it has sent, each socket's segment
-- size, and the message under way.
pub record Sockets (W : Type 0) : Type 0 where
  pub sent : W → List Bytes
  pub size_set : ℕ → W → ℕ
  pub pending : W → Option Pending

-- One of them.
abbrev pub wire_of : {W : Type 0} → Sockets W → ℕ → Wire W
wire_of sockets sock = record {
  sent = sockets.sent;
  size_set = sockets.size_set sock;
  pending = sockets.pending;
}

-- The calls that make a socket ready, and the calls before there is one, send nothing. A new socket
-- has no segment size.
pub record MakesSockets {W : Type 0} (os : Winsock W) (sockets : Sockets W) (limit : ℕ)
    : Type 0 where
  pub behaves : (s : ℕ) → Behaves os (wire_of sockets s) s limit
  pub wsa_startup : (w : W) → sockets.sent (os.wsa_startup w).1 ≡ sockets.sent w
  pub adapters : (n : ℕ) (w : W) → sockets.sent (os.adapters_addresses n w).1 ≡ sockets.sent w
  pub wsa_socket : (w : W) → sockets.sent (os.wsa_socket w).1 ≡ sockets.sent w
  pub fresh :
      (s : ℕ) (w : W) → (os.wsa_socket w).0 ≡ some s → sockets.size_set s (os.wsa_socket w).1 ≡ 0
  pub reuseaddr :
      (s n : ℕ) (w : W) → IsSame (wire_of sockets s) w (os.setsockopt s so_reuseaddr n w).1
  pub sndbuf : (s n : ℕ) (w : W) → IsSame (wire_of sockets s) w (os.setsockopt s so_sndbuf n w).1
  pub bind : (s : ℕ) (a : Sockaddr) (w : W) → IsSame (wire_of sockets s) w (os.bind s a w).1
  pub closesocket : (s : ℕ) (w : W) → IsSame (wire_of sockets s) w (os.closesocket s w)
  pub getsockname : (s : ℕ) (w : W) → IsSame (wire_of sockets s) w (os.getsockname s w).1

module _ {W : Type 0} (sockets : Sockets W) (ds : List Bytes) where
  abbrev pub HasSent : {A : Type 0} → A → Process W → Type 0
  HasSent a p = sockets.sent p.world ≡ ds

  -- Nothing is sent, whether it returns or throws.
  abbrev Silent : {A : Type 0} → Action UsoThrow (Process W) A → Type 0
  Silent {A} m = (p : Process W) → sockets.sent p.world ≡ ds → Ends (HasSent {A = A}) HasSent (m p)

  bind-Silent :
      {A B : Type 0} (m : Action UsoThrow (Process W) A) (f : A → Action UsoThrow (Process W) B)
      → Silent m
      → ((a : A) → Silent (f a))
      → Silent (m >>= f)
  bind-Silent {A} {B} m f h k p sent =
      bind-Ends (HasSent {A = A}) (HasSent {A = B}) HasSent m f p (h p sent) k

  if-Silent :
      {A : Type 0} (b : Bool) (m n : Action UsoThrow (Process W) A)
      → Silent m
      → Silent n
      → Silent (if b then m else n)
  if-Silent true m n h k = h
  if-Silent false m n h k = k

  call-Silent :
      {A : Type 0} (f : W → A × W)
      → ((w : W) → sockets.sent (f w).1 ≡ sockets.sent w)
      → Silent (call f)
  call-Silent f same p sent = same p.world ∙ sent

  module _ (os : Winsock W) (limit : ℕ) (makes : MakesSockets os sockets limit) where
    best-Silent : (a : Sockaddr) → Silent (call (os.best_interface a))
    best-Silent a =
        call-Silent (os.best_interface a) (λ w. ((makes.behaves 0).best_interface a w).0)

    pub started-Silent : Silent (ensure_winsock_initialized os)
    unfolding ensure_winsock_initialized
    started-Silent p sent =
        bind-Ends (HasSent {A = Bool}) (HasSent {A = Unit}) HasSent
          (λ q. (if not p.statics.initialized then startup os p.statics else pure p.statics.ok) q) _
          p
          (if-Silent (not p.statics.initialized) (startup os p.statics) (pure p.statics.ok)
            (λ q h. makes.wsa_startup q.world ∙ h) (λ q h. h) p sent)
          (λ ok q h. if-Silent (not ok) _ _ (λ r k. k) (λ r k. k) q h)

    module _ {Address V4 V6 : Type 0} (asio : Asio Address V4 V6) where
      ask_again-Silent : (answer : AdaptersAnswer) → Silent (ask_again asio os answer)
      ask_again-Silent (no_error adapters) p h = h
      ask_again-Silent (buffer_overflow size) p h = makes.adapters size p.world ∙ h
      ask_again-Silent other_error p h = h

      on_interface-Silent : (index : ℕ) → Silent (ipv4_on_interface_index asio os index)
      unfolding ipv4_on_interface_index
      on_interface-Silent index =
          bind-Silent (call (os.adapters_addresses (15 * 1024)) >>= ask_again asio os) _
            (bind-Silent (call (os.adapters_addresses (15 * 1024))) (ask_again asio os)
              (call-Silent (os.adapters_addresses (15 * 1024)) (makes.adapters (15 * 1024)))
              ask_again-Silent)
            (λ answer p h. h)

      on_best-Silent : (best : Option ℕ) → Silent (on_best asio os best)
      on_best-Silent none p h = h
      on_best-Silent (some index) p h =
          bind-Silent (ipv4_on_interface_index asio os index) _ (on_interface-Silent index)
            (λ found q k. k) p h

      egress-Silent : (to : Endpoint Address) → Silent (ipv4_egress_for_destination asio os to)
      unfolding ipv4_egress_for_destination
      egress-Silent to =
          if-Silent (not (asio.is_v4 to.address)) (pure none) _ (λ p h. h)
            (bind-Silent (call (os.best_interface _)) (on_best asio os) (best-Silent _)
              on_best-Silent)

      interface_index-Silent : (v4 : V4) → Silent (ipv4_interface_index asio os v4)
      unfolding ipv4_interface_index
      interface_index-Silent v4 =
          if-Silent (asio.v4_is_unspecified v4) (pure none) _ (λ p h. h) (best-Silent _)

      own_index-Silent : (address : Address) → Silent (own_index asio os address)
      own_index-Silent address =
          if-Silent (asio.is_v4 address) _ (pure 0)
            (bind-Silent (ipv4_interface_index asio os (asio.to_v4 address)) _
              (interface_index-Silent (asio.to_v4 address)) (λ found p h. h))
            (λ p h. h)

      index_for-Silent : (to : Endpoint Address) (index : ℕ) → Silent (index_for asio os to index)
      index_for-Silent to index =
          if-Silent (index == 0 && asio.is_v4 to.address) _ (pure index)
            (bind-Silent (ipv4_egress_for_destination asio os to) _ (egress-Silent to)
              (λ found p h. h))
            (λ p h. h)

      parsed_or_throw-Silent : (o : Option Address) → Silent (parsed_or_throw asio os o)
      parsed_or_throw-Silent none p h = h
      parsed_or_throw-Silent (some address) p h = h

      pub resolve_uso_bind_address-Silent :
          (source : String) (to : Endpoint Address)
          → Silent (resolve_uso_bind_address asio os source to)
      unfolding resolve_uso_bind_address
      resolve_uso_bind_address-Silent source to =
          if-Silent (not (bind_option_is_wildcard source)) _ _
            (bind-Silent
              (parsed_or_throw asio os (parse_address asio source)
                >>= own_index asio os
                >>= index_for asio os to)
              _
              (bind-Silent
                (parsed_or_throw asio os (parse_address asio source) >>= own_index asio os)
                (index_for asio os to)
                (bind-Silent (parsed_or_throw asio os (parse_address asio source))
                  (own_index asio os) (parsed_or_throw-Silent (parse_address asio source))
                  own_index-Silent)
                (index_for-Silent to))
              (λ index p h. h))
            (bind-Silent (ipv4_egress_for_destination asio os to) _ (egress-Silent to)
              (λ found p h. h))
