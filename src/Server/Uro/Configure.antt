-- ===== src/Server/Uro/Configure.antt =====
-- `uro_configure_recv_socket` of uso_recv_win.cpp. The calls of Windows are parameters, on a state
-- of the world; an error that is told in `error` is thrown here.
use udp_test.Base.{
  ℕ, ◌≤◌, ◌<◌, ◌≡◌, ◌≢◌, ◌⊎◌, inl, inr, refl, ◌∙◌, arith, Bool, true, false, not, ◌||◌, Option,
  none, some, ltb, ◌==◌, if◌then◌else◌, u32, returned, Option-cases,
}
use udp_test.Windows.{Action, pure, throw, ◌>>=◌, ◌>>◌}
use udp_test.Windows.Ends.{Ends, bind-Ends, if-Ends}
use udp_test.Server.Uro.{uro_max_coalesced_recv}

-- Whether the functions of ws2_32.dll are there, and the calls. A Boolean says that a call has
-- succeeded, and `none` that a size could not be read.
pub record CoalescedSize (W : Type 0) : Type 0 where
  pub last_error : W → ℕ
  pub get_set_fn : W → Bool × W
  pub set_fn : ℕ → W → Bool × W
  pub setsockopt : ℕ → W → Bool × W
  pub get_get_fn : W → Bool × W
  pub get_fn : W → Option ℕ × W
  pub getsockopt : W → Option ℕ × W

-- The errors, but for the text.
pub data ConfigureError : Type 0 where
  out_of_range : ConfigureError
  set_failed setsockopt_failed get_failed getsockopt_failed : ℕ → ConfigureError
  got_other : (actual expected : ℕ) → ConfigureError

module _ (size : ℕ) where
  abbrev InRange : Type 0
  InRange = (0 < size) × (size ≤ uro_max_coalesced_recv)

module _ {W : Type 0} (coalesced : W → ℕ) (size : ℕ) where
  abbrev pub Configured : Unit {0} → W → Type 0
  Configured done w = InRange size × (coalesced w ≡ size)

  -- A size out of range is refused; any other error comes of a call, or of a size that reads
  -- back otherwise.
  abbrev pub NotConfigured : ConfigureError → W → Type 0
  NotConfigured out_of_range w = (size ≡ 0) ⊎ (uro_max_coalesced_recv < size)
  NotConfigured (got_other actual expected) w =
      InRange size × (expected ≡ size) × (actual ≢ size) × (coalesced w ≡ actual)
  NotConfigured other w = InRange size

module _ {W : Type 0} (os : CoalescedSize W) where
  abbrev Step : Type 0 → Type 0
  Step A = Action ConfigureError W A

  abbrev ask : {A : Type 0} → (W → A × W) → Step A
  ask f w = (returned (f w).0, (f w).1)

  abbrev fail : {A : Type 0} → (ℕ → ConfigureError) → Step A
  fail error w = throw (error (os.last_error w)) w

  abbrev read_or : (ℕ → ConfigureError) → Option ℕ → Step ℕ
  read_or error (some size) = pure size
  read_or error none = fail error

  unfoldable pub get_udp_recv_max_coalesced_size : Step ℕ
  get_udp_recv_max_coalesced_size = ask os.get_get_fn >>= (λ fn.
      if fn
      then ask os.get_fn >>= read_or get_failed
      else ask os.getsockopt >>= read_or getsockopt_failed)

  abbrev done_or : (ℕ → ConfigureError) → Bool → Step Unit
  done_or error ok = if not ok then fail error else pure tt

  abbrev check_actual : ℕ → ℕ → Step Unit
  check_actual max_size actual =
      if not (actual == max_size) then throw (got_other actual max_size) else pure tt

  -- The size is set and read back.
  unfoldable pub set_udp_recv_max_coalesced_size : ℕ → Step Unit
  set_udp_recv_max_coalesced_size max_size =
      ask os.get_set_fn
      >>= (λ fn.
          if fn
          then ask (os.set_fn max_size) >>= done_or set_failed
          else ask (os.setsockopt max_size) >>= done_or setsockopt_failed)
      >> (get_udp_recv_max_coalesced_size >>= check_actual max_size)

  unfoldable pub uro_configure_recv_socket : ℕ → Step Unit
  uro_configure_recv_socket max_coalesced_size =
      if max_coalesced_size == 0 || ltb uro_max_coalesced_recv max_coalesced_size
      then throw out_of_range
      else set_udp_recv_max_coalesced_size (u32 max_coalesced_size)

  -- The size of the socket, which the calls that read it tell and keep.
  pub record Tells (coalesced : W → ℕ) : Type 0 where
    pub get_fn : (n : ℕ) (w : W) → (os.get_fn w).0 ≡ some n → coalesced (os.get_fn w).1 ≡ n
    pub getsockopt :
        (n : ℕ) (w : W) → (os.getsockopt w).0 ≡ some n → coalesced (os.getsockopt w).1 ≡ n

  module _ (coalesced : W → ℕ) (tells : Tells coalesced) (size : ℕ) where
    read-Ends :
        (read : W → Option ℕ × W) (error : ℕ → ConfigureError) (w : W)
        → ((n : ℕ) (v : W) → (read v).0 ≡ some n → coalesced (read v).1 ≡ n)
        → ((n : ℕ) (v : W) → NotConfigured coalesced size (error n) v)
        → Ends
            (λ (n : ℕ) v. coalesced v ≡ n)
            (NotConfigured coalesced size)
            ((ask read >>= read_or error) w)
    read-Ends read error w told fails = elim (Option-cases (read w).0) [
      | inl nothing ↦ rw nothing (fails (os.last_error (read w).1) (read w).1)
      | inr (n, e) ↦ rw e (told n w e)
    ]

    call-Ends :
        (act : W → Bool × W) (error : ℕ → ConfigureError) (w : W)
        → ((n : ℕ) (v : W) → NotConfigured coalesced size (error n) v)
        → Ends
            (λ (done : Unit {0}) v. Unit {0})
            (NotConfigured coalesced size)
            ((ask act >>= done_or error) w)
    call-Ends act error w fails =
        if-Ends (λ (done : Unit {0}) v. Unit {0}) (NotConfigured coalesced size) (not (act w).0) _ _
          (act w).1 (λ bad. fails (os.last_error (act w).1) (act w).1) (λ good. tt)

    get-Ends :
        (w : W)
        → InRange size
        → Ends
            (λ (n : ℕ) v. coalesced v ≡ n)
            (NotConfigured coalesced size)
            (get_udp_recv_max_coalesced_size w)
    unfolding get_udp_recv_max_coalesced_size
    get-Ends w range =
        let v = (os.get_get_fn w).1 in
        if-Ends (λ (n : ℕ) u. coalesced u ≡ n) (NotConfigured coalesced size) (os.get_get_fn w).0 _
          _ v (λ there. read-Ends os.get_fn get_failed v tells.get_fn (λ n u. range))
          (λ missing. read-Ends os.getsockopt getsockopt_failed v tells.getsockopt (λ n u. range))

    set-Ends :
        (w : W)
        → InRange size
        → Ends
            (Configured coalesced size)
            (NotConfigured coalesced size)
            (set_udp_recv_max_coalesced_size size w)
    unfolding set_udp_recv_max_coalesced_size
    set-Ends w range =
        let v = (os.get_set_fn w).1 in
        bind-Ends (λ (done : Unit {0}) u. Unit {0}) (Configured coalesced size)
          (NotConfigured coalesced size)
          (ask os.get_set_fn >>= (λ fn.
            if fn
            then ask (os.set_fn size) >>= done_or set_failed
            else ask (os.setsockopt size) >>= done_or setsockopt_failed))
          _ w
          (if-Ends (λ (done : Unit {0}) u. Unit {0}) (NotConfigured coalesced size)
            (os.get_set_fn w).0 _ _ v
            (λ there. call-Ends (os.set_fn size) set_failed v (λ n u. range))
            (λ missing. call-Ends (os.setsockopt size) setsockopt_failed v (λ n u. range)))
          (λ done u h.
            bind-Ends (λ (n : ℕ) t. coalesced t ≡ n) (Configured coalesced size)
              (NotConfigured coalesced size) (get_udp_recv_max_coalesced_size) _ u
              (get-Ends u range)
              (λ n t told.
                if-Ends (Configured coalesced size) (NotConfigured coalesced size) (not (n == size))
                  _ _ t (λ other. (range, refl, differ n other, told))
                  (λ same. (range, told ∙ agree n same))))
      where
        differ : (n : ℕ) → not (n == size) ≡ true → n ≢ size
        differ n h = ground arith

        agree : (n : ℕ) → not (n == size) ≡ false → n ≡ size
        agree n h = ground arith

    -- `uro_configure_recv_socket` succeeds only with a size from 1 to 65536, which the socket then
    -- has. It tells a size out of range only of one that is; that another size was read back only
    -- if the socket has that other size; and any other error only for a size in range. The calls
    -- that read the size tell the one that the socket has.
    pub uro_configure_recv_socket-Configured :
        (w : W)
        → Ends
            (Configured coalesced size)
            (NotConfigured coalesced size)
            (uro_configure_recv_socket size w)
    unfolding uro_configure_recv_socket
    uro_configure_recv_socket-Configured w =
        if-Ends (Configured coalesced size) (NotConfigured coalesced size)
          (size == 0 || ltb uro_max_coalesced_recv size) _ _ w (λ out. outside out)
          (λ inside.
            let small : u32 size ≡ size = omega (arith, within inside) in
            rw small (set-Ends w (within inside)))
      where
        outside :
            (size == 0 || ltb uro_max_coalesced_recv size) ≡ true
            → (size ≡ 0) ⊎ (uro_max_coalesced_recv < size)
        outside h = ground arith

        within : (size == 0 || ltb uro_max_coalesced_recv size) ≡ false → InRange size
        within h = ground arith
