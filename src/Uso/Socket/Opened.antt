-- ===== src/Uso/Socket/Opened.antt =====
-- Which sockets are open after `create_uso_udp_socket`.
use Prim.Native.String.{String}
use udp_test.Base.{
  ℕ, ◌*◌, ◌≡◌, ap, ◌∙◌, Bool, true, not, none, some, List, ◌∷◌, if◌then◌else◌, not-false,
  Option-cases, inl, inr,
}
use udp_test.Windows.{
  Sockaddr, Asio, SocketOption, so_reuseaddr, so_sndbuf, Winsock, Process, pure, ◌>>=◌, ◌>>◌, call,
}
use udp_test.Windows.Address.{parse_address}
use udp_test.Windows.Ends.{Ends, bind-Ends, if-Ends}
use udp_test.Uso.{
  UsoThrow, bad_address, needs_ipv4, so_reuseaddr_failed, so_sndbuf_failed, Step,
  ensure_winsock_initialized, startup, wsa_startup_failed, unfinished, wsa_socket_failed,
  bind_failed, getsockname_failed, send_failed, build,
}
use udp_test.Uso.Socket.{
  of_socket, set_or_close, parsed, bind_or_close, bind_v4, set_up, create_uso_udp_socket,
}

-- What Windows says of the sockets that are open.
pub record KeepsSockets {W : Type 0} (os : Winsock W) (sockets : W → List ℕ) : Type 0 where
  pub wsa_startup : (w : W) → sockets (os.wsa_startup w).1 ≡ sockets w
  pub refused : (w : W) → (os.wsa_socket w).0 ≡ none → sockets (os.wsa_socket w).1 ≡ sockets w
  pub opened :
      (s : ℕ) (w : W) → (os.wsa_socket w).0 ≡ some s → sockets (os.wsa_socket w).1 ≡ s ∷ sockets w
  pub setsockopt :
      (s : ℕ) (option : SocketOption) (n : ℕ) (w : W)
      → sockets (os.setsockopt s option n w).1 ≡ sockets w
  pub bind : (s : ℕ) (a : Sockaddr) (w : W) → sockets (os.bind s a w).1 ≡ sockets w
  pub closesocket :
      (s : ℕ) (l : List ℕ) (w : W) → sockets w ≡ s ∷ l → sockets (os.closesocket s w) ≡ l

module _ {W : Type 0} (sockets : W → List ℕ) (l : List ℕ) {Address V4 V6 : Type 0}
    (asio : Asio Address V4 V6) (text : String) where
  abbrev IsOpen : ℕ → Process W → Type 0
  IsOpen s p = sockets p.world ≡ s ∷ l

  -- A socket that is bound to an address of version 4.
  abbrev pub Opened : ℕ → Process W → Type 0
  Opened s p =
      (a : Address) × (parse_address asio text ≡ some a) × (asio.is_v4 a ≡ true) × IsOpen s p

  -- After an exception the new socket is closed, but where the text is no address.
  abbrev pub Undone : UsoThrow → Process W → Type 0
  Undone bad_address p = (s : ℕ) × (parse_address asio text ≡ none) × IsOpen s p
  Undone e p = sockets p.world ≡ l

module _ {W : Type 0} (os : Winsock W) (sockets : W → List ℕ) (keeps : KeepsSockets os sockets)
    (l : List ℕ) {Address V4 V6 : Type 0} (asio : Asio Address V4 V6) (text : String) where
  -- Before there is a socket.
  abbrev Before : {A : Type 0} → A → Process W → Type 0
  Before a p = sockets p.world ≡ l

  module _ (s : ℕ) where
    abbrev StillOpen : {A : Type 0} → A → Process W → Type 0
    StillOpen a p = IsOpen sockets l asio text s p

    closed :
        (p : Process W) → IsOpen sockets l asio text s p → sockets (os.closesocket s p.world) ≡ l
    closed p h = keeps.closesocket s l p.world h

    set_or_close-Open :
        (option : SocketOption) (n : ℕ) (failure : ℕ → UsoThrow) (p : Process W)
        → ((e : ℕ) (q : Process W) → sockets q.world ≡ l → Undone sockets l asio text (failure e) q)
        → IsOpen sockets l asio text s p
        → Ends
            (StillOpen {A = Unit})
            (Undone sockets l asio text)
            (set_or_close os s option n failure p)
    set_or_close-Open option n failure p closes h =
        let same = keeps.setsockopt s option n p.world ∙ h in
        let q : Process W = record p { world = (os.setsockopt s option n p.world).1 } in
        if-Ends (StillOpen {A = Unit}) (Undone sockets l asio text)
          (not (os.setsockopt s option n p.world).0) _ _ q
          (λ fails.
            closes (os.last_error (os.closesocket s q.world))
              (record q { world = os.closesocket s q.world }) (closed q same))
          (λ works. same)

    bind_or_close-Opened :
        (a : Address) (p : Process W)
        → parse_address asio text ≡ some a
        → asio.is_v4 a ≡ true
        → IsOpen sockets l asio text s p
        → Ends
            (Opened sockets l asio text)
            (Undone sockets l asio text)
            (bind_or_close os asio s a p)
    bind_or_close-Opened a p parses v4 h =
        let address = udp_test.Uso.Route.v4_sockaddr asio 0 (asio.to_v4 a) in
        let same = keeps.bind s address p.world ∙ h in
        let q : Process W = record p { world = (os.bind s address p.world).1 } in
        if-Ends (Opened sockets l asio text) (Undone sockets l asio text)
          (not (os.bind s address p.world).0) _ _ q (λ fails. closed q same)
          (λ works. (a, parses, v4, same))

    bind_v4-Opened :
        (a : Address) (p : Process W)
        → parse_address asio text ≡ some a
        → IsOpen sockets l asio text s p
        → Ends (Opened sockets l asio text) (Undone sockets l asio text) (bind_v4 os asio s a p)
    bind_v4-Opened a p parses h =
        if-Ends (Opened sockets l asio text) (Undone sockets l asio text) (not (asio.is_v4 a)) _ _ p
          (λ other. closed p h)
          (λ v4. bind_or_close-Opened a p parses (not-false (asio.is_v4 a) v4) h)

    parsed-Opened :
        (p : Process W)
        → IsOpen sockets l asio text s p
        → Ends
            (Opened sockets l asio text)
            (Undone sockets l asio text)
            ((parsed os asio (parse_address asio text) >>= bind_v4 os asio s) p)
    parsed-Opened p h = elim (Option-cases (parse_address asio text)) [
      | inl fails ↦ rw fails (s, fails, h)
      | inr (a, parses) ↦ rw parses (bind_v4-Opened a p parses h)
    ]

    set_up-Opened :
        (p : Process W)
        → IsOpen sockets l asio text s p
        → Ends (Opened sockets l asio text) (Undone sockets l asio text) (set_up os asio text s p)
    set_up-Opened p h =
        bind-Ends (StillOpen {A = Unit}) (Opened sockets l asio text) (Undone sockets l asio text)
          (set_or_close os s so_reuseaddr 1 so_reuseaddr_failed
            >> set_or_close os s so_sndbuf (1024 * 1024) so_sndbuf_failed)
          _ p
          (bind-Ends (StillOpen {A = Unit}) (StillOpen {A = Unit}) (Undone sockets l asio text)
            (set_or_close os s so_reuseaddr 1 so_reuseaddr_failed) _ p
            (set_or_close-Open so_reuseaddr 1 so_reuseaddr_failed p (λ e q same. same) h)
            (λ done q.
              set_or_close-Open so_sndbuf (1024 * 1024) so_sndbuf_failed q (λ e r same. same)))
          (λ done q. parsed-Opened q)

  started-Before :
      (p : Process W)
      → sockets p.world ≡ l
      → Ends (Before {A = Unit}) (Undone sockets l asio text) (ensure_winsock_initialized os p)
  unfolding ensure_winsock_initialized
  started-Before p h =
      bind-Ends (Before {A = Bool}) (Before {A = Unit}) (Undone sockets l asio text)
        (λ q. (if not p.statics.initialized then startup os p.statics else pure p.statics.ok) q) _ p
        (if-Ends (Before {A = Bool}) (Undone sockets l asio text) (not p.statics.initialized)
          (startup os p.statics) (pure p.statics.ok) p (λ first. keeps.wsa_startup p.world ∙ h)
          (λ again. h))
        (λ ok q same.
          if-Ends (Before {A = Unit}) (Undone sockets l asio text) (not ok) _ _ q (λ bad. same)
            (λ good. same))

  new-Open :
      (p : Process W)
      → sockets p.world ≡ l
      → Ends
          (λ (s : ℕ) q. IsOpen sockets l asio text s q)
          (Undone sockets l asio text)
          ((call os.wsa_socket >>= of_socket os) p)
  new-Open p h = elim (Option-cases (os.wsa_socket p.world).0) [
    | inl fails ↦ rw fails (keeps.refused p.world fails ∙ h)
    | inr (s, new) ↦ rw new (keeps.opened s p.world new ∙ ap (◌∷◌ s) h)
  ]

  -- Whichever call of Windows fails, `create_uso_udp_socket` returns or throws. Where it returns,
  -- the text is an address of version 4, and the new socket is open beside those that were open
  -- before. Where it throws, the sockets that are open are those of before; but if the text is no
  -- address, the new socket stays open.
  pub create_uso_udp_socket-Opened :
      (p : Process W)
      → sockets p.world ≡ l
      → Ends
          (Opened sockets l asio text)
          (Undone sockets l asio text)
          (create_uso_udp_socket os asio text p)
  unfolding create_uso_udp_socket
  create_uso_udp_socket-Opened p h =
      bind-Ends (λ (s : ℕ) q. IsOpen sockets l asio text s q) (Opened sockets l asio text)
        (Undone sockets l asio text)
        (ensure_winsock_initialized os >> (call os.wsa_socket >>= of_socket os))
        (set_up os asio text) p
        (bind-Ends (Before {A = Unit}) (λ (s : ℕ) q. IsOpen sockets l asio text s q)
          (Undone sockets l asio text) (ensure_winsock_initialized os) _ p (started-Before p h)
          (λ done q. new-Open q))
        (λ s q. set_up-Opened s q)
