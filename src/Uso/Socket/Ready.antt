-- ===== src/Uso/Socket/Ready.antt =====
-- The new socket of `create_uso_udp_socket`: nothing has been sent, and no segment size is set.
use Prim.Native.String.{String}
use udp_test.Base.{
  ℕ, Bool, ◌*◌, ◌≡◌, ◌∙◌, inl, inr, not, Option, none, some, List, Option-cases, if◌then◌else◌,
}
use udp_test.Crc.{Bytes}
use udp_test.Windows.{pure, Asio, so_reuseaddr, so_sndbuf, Winsock, Process, ◌>>=◌, ◌>>◌, call}
use udp_test.Windows.Address.{parse_address}
use udp_test.Windows.Ends.{Ends, bind-Ends, if-Ends}
use udp_test.Uso.{UsoThrow, so_reuseaddr_failed, so_sndbuf_failed, Step, ensure_winsock_initialized}
use udp_test.Uso.Wire.{IsSame}
use udp_test.Uso.Route.Silent.{Sockets, wire_of, MakesSockets, HasSent, started-Silent}
use udp_test.Uso.Socket.{
  of_socket, set_or_close, close_and_throw, parsed, bind_or_close, bind_v4, set_up,
  create_uso_udp_socket,
}

module _ {W : Type 0} (sockets : Sockets W) (ds : List Bytes) where
  -- Nothing more has been sent, and the socket has no segment size.
  abbrev pub Ready : ℕ → Process W → Type 0
  Ready s p = (sockets.sent p.world ≡ ds) × (sockets.size_set s p.world ≡ 0)

  module _ (os : Winsock W) (limit : ℕ) (makes : MakesSockets os sockets limit) (s : ℕ) where
    abbrev Still : {A : Type 0} → A → Process W → Type 0
    Still a p = Ready s p

    same-Ready :
        (p : Process W) (w : W)
        → IsSame (wire_of sockets s) p.world w
        → Ready s p
        → Ready s (record p { world = w })
    same-Ready p w (same_sent, same_size) (sent, size) = (same_sent ∙ sent, same_size ∙ size)

    closed : (p : Process W) → Ready s p → sockets.sent (os.closesocket s p.world) ≡ ds
    closed p (sent, size) = (makes.closesocket s p.world).0 ∙ sent

    set_or_close-Still :
        (f : W → Bool × W)
        → ((w : W) → IsSame (wire_of sockets s) w (f w).1)
        → (failure : ℕ → UsoThrow) (p : Process W) → Ready s p
        → Ends
            (Still {A = Unit})
            (HasSent sockets ds)
            ((call f >>= (λ ok. if not ok then close_and_throw os s failure else pure tt)) p)
    set_or_close-Still f same failure p h =
        let q : Process W = record p { world = (f p.world).1 } in
        let ready = same-Ready p (f p.world).1 (same p.world) h in
        if-Ends (Still {A = Unit}) (HasSent sockets ds) (not (f p.world).0) _ _ q
          (λ fails. closed q ready) (λ works. ready)

    module _ {Address V4 V6 : Type 0} (asio : Asio Address V4 V6) where
      bound-Ready :
          (address : Address) (p : Process W)
          → Ready s p
          → Ends Ready (HasSent sockets ds) (bind_or_close os asio s address p)
      bound-Ready address p h =
          let a = udp_test.Uso.Route.v4_sockaddr asio 0 (asio.to_v4 address) in
          let q : Process W = record p { world = (os.bind s a p.world).1 } in
          let ready = same-Ready p (os.bind s a p.world).1 (makes.bind s a p.world) h in
          if-Ends Ready (HasSent sockets ds) (not (os.bind s a p.world).0) _ _ q
            (λ fails. closed q ready) (λ works. ready)

      bind_v4-Ready :
          (address : Address) (p : Process W)
          → Ready s p
          → Ends Ready (HasSent sockets ds) (bind_v4 os asio s address p)
      bind_v4-Ready address p h =
          if-Ends Ready (HasSent sockets ds) (not (asio.is_v4 address)) _ _ p (λ other. closed p h)
            (λ v4. bound-Ready address p h)

      parsed-Still :
          (o : Option Address) (p : Process W)
          → Ready s p
          → Ends (Still {A = Address}) (HasSent sockets ds) (parsed os asio o p)
      parsed-Still none p h = h.0
      parsed-Still (some address) p h = h

      set_up-Ready :
          (text : String) (p : Process W)
          → Ready s p
          → Ends Ready (HasSent sockets ds) (set_up os asio text s p)
      set_up-Ready text p h =
          bind-Ends (Still {A = Unit}) Ready (HasSent sockets ds)
            (set_or_close os s so_reuseaddr 1 so_reuseaddr_failed
              >> set_or_close os s so_sndbuf (1024 * 1024) so_sndbuf_failed)
            _ p
            (bind-Ends (Still {A = Unit}) (Still {A = Unit}) (HasSent sockets ds)
              (set_or_close os s so_reuseaddr 1 so_reuseaddr_failed) _ p
              (set_or_close-Still (os.setsockopt s so_reuseaddr 1) (makes.reuseaddr s 1)
                so_reuseaddr_failed p h)
              (λ done.
                set_or_close-Still (os.setsockopt s so_sndbuf (1024 * 1024))
                  (makes.sndbuf s (1024 * 1024)) so_sndbuf_failed))
            (λ done q k.
              bind-Ends (Still {A = Address}) Ready (HasSent sockets ds)
                (parsed os asio (parse_address asio text)) (bind_v4 os asio s) q
                (parsed-Still (parse_address asio text) q k) bind_v4-Ready)

  module _ (os : Winsock W) (limit : ℕ) (makes : MakesSockets os sockets limit)
      {Address V4 V6 : Type 0} (asio : Asio Address V4 V6) where
    new-Ready :
        (p : Process W)
        → sockets.sent p.world ≡ ds
        → Ends Ready (HasSent sockets ds) ((call os.wsa_socket >>= of_socket os) p)
    new-Ready p sent = elim (Option-cases (os.wsa_socket p.world).0) [
      | inl fails ↦ rw fails (makes.wsa_socket p.world ∙ sent)
      | inr (s, new) ↦ rw new (makes.wsa_socket p.world ∙ sent, makes.fresh s p.world new)
    ]

    -- The new socket is ready, and nothing has been sent where there is none.
    pub create_uso_udp_socket-Ready :
        (text : String) (p : Process W)
        → sockets.sent p.world ≡ ds
        → Ends Ready (HasSent sockets ds) (create_uso_udp_socket os asio text p)
    unfolding create_uso_udp_socket
    create_uso_udp_socket-Ready text p sent =
        bind-Ends Ready Ready (HasSent sockets ds)
          (ensure_winsock_initialized os >> (call os.wsa_socket >>= of_socket os))
          (set_up os asio text) p
          (bind-Ends (HasSent sockets ds {A = Unit}) Ready (HasSent sockets ds)
            (ensure_winsock_initialized os) _ p (started-Silent sockets ds os limit makes p sent)
            (λ done. new-Ready))
          (λ s. set_up-Ready os limit makes s asio text)
