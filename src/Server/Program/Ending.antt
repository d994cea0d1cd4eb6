-- ===== src/Server/Program/Ending.antt =====
-- The exit code of the server, and how many summaries it prints.
use Prim.Native.String.{String}
use udp_test.Base.{
  ℕ, ◌≡◌, ◌⊎◌, inl, inr, refl, Bool, true, false, Option, none, some, List, length, returned, arith,
}
use udp_test.Options.Server.{ServerOptions, default_server_options, parse_server_options}
use udp_test.Options.Server.Accepted.{IsCount, LoopsIf, parse_server_options-IsRunnable}
use udp_test.Windows.Address.{parse_address}
use udp_test.Server.State.{ServerStats}
use udp_test.Server.Session.{run_receive_loop, run_sessions}
use udp_test.Server.Session.Settled.{Summaries, run_sessions-Summaries}
use udp_test.Server.Uro.Choice.{session_system}
use udp_test.Server.Program.{ServerSystem, Exit, main, run_server, with_uro, of_run}

-- The sessions of a server that ends: `--loop` with a count, or no `--loop`.
abbrev wanted : Option ℕ → ℕ
wanted none = 1
wanted (some n) = n

-- The code is 0, and there are as many summaries.
abbrev pub Prints : ℕ → Exit → Type 0
Prints n exit =
    (exit.code ≡ 0) × (l : List ServerStats) × (exit.summaries ≡ some l) × (length l ≡ n)

module _ {E W Address V4 V6 : Type 0} (system : ServerSystem E W Address V4 V6) (rounds : ℕ)
    (o : ServerOptions) where
  -- The address is one, the socket can be set up and takes the size for coalescing where that is
  -- asked for, and every session returns.
  pub record Serves (w : W) : Type 0 where
    pub address : Address
    pub parses : parse_address system.asio o.bind_address ≡ some address
    pub w₁ : W
    pub listens : system.listen (record { address = address; port = o.port }) w ≡ returned w₁
    pub w₂ : W
    pub configures : with_uro system o.uro w₁ ≡ returned w₂
    pub sessions :
        (v : W)
        → (stats : ServerStats) × (v' : W) × (run_receive_loop
              (session_system system.os system.windows o.uro)
              rounds
              o.batch_count
              v
            ≡ returned (stats, v'))

  module _ (w : W) (serves : Serves w) where
    abbrev Answers : Option ℕ → Bool → Type 0
    Answers count loop =
        Summaries (session_system system.os system.windows o.uro) rounds o.batch_count
          serves.sessions (wanted count)
          (run_sessions (session_system system.os system.windows o.uro) (wanted count) rounds
            o.batch_count loop count 0 serves.w₂)

    counted :
        (count : Option ℕ) (loop : Bool)
        → IsCount count
        → (loop ≡ false × (count ≡ none)) ⊎ ((n : ℕ) × (count ≡ some n) × (loop ≡ true))
        → Answers count loop
    counted count loop fits (inl (once, none_given)) =
        rw (once, none_given)
          (run_sessions-Summaries (session_system system.os system.windows o.uro) rounds
            o.batch_count serves.sessions 1 serves.w₂ (omega arith) (omega arith)).0
    counted none loop fits (inr (n, given, repeats)) = absurd (cc given)
    counted (some m) loop fits (inr (n, given, repeats)) =
        rw repeats
          (run_sessions-Summaries (session_system system.os system.windows o.uro) rounds
            o.batch_count serves.sessions m serves.w₂ fits.0 fits.1).1

    ended :
        IsCount o.loop_count
        → (o.loop ≡ false × (o.loop_count ≡ none))
          ⊎ ((n : ℕ) × (o.loop_count ≡ some n) × (o.loop ≡ true))
        → Prints (wanted o.loop_count) (
            of_run system
              (wanted o.loop_count)
              rounds
              (run_server system (wanted o.loop_count) rounds o w))
    unfolding run_server
    ended fits which =
        let (l, v, returns, number) = counted o.loop_count o.loop fits which in
        rw (serves.parses, serves.listens, serves.configures, returns) (refl, l, refl, number)

  -- With arguments that are accepted, whatever they are, but for `--loop` without a count: if the
  -- address to bind to is one, the socket can be set up, and takes the size for `--uro` where that
  -- is given, and every session returns, then the server ends with code 0, and has printed one
  -- summary without `--loop`, and as many as its count with it.
  pub main-Prints :
      (args : List String) (w : W)
      → parse_server_options system.os.windows args default_server_options ≡ returned (some o)
      → (o.loop ≡ false) ⊎ ((n : ℕ) × (o.loop_count ≡ some n))
      → (serves : Serves w)
      → Prints (wanted o.loop_count) (main system (wanted o.loop_count) rounds args w)
  unfolding main
  main-Prints args w accepted ends serves =
      let runnable = parse_server_options-IsRunnable system.os.windows args o accepted in
      rw accepted
        (ended w serves runnable.loop_count_fits (which o.loop_count o.loop runnable.loop_set ends))
    where
      which :
          (count : Option ℕ) (loop : Bool)
          → LoopsIf count loop
          → (loop ≡ false) ⊎ ((n : ℕ) × (count ≡ some n))
          → (loop ≡ false × (count ≡ none)) ⊎ ((n : ℕ) × (count ≡ some n) × (loop ≡ true))
      which none loop set (inl once) = inl (once, refl)
      which none loop set (inr (n, given)) = absurd (cc given)
      which (some m) loop set (inl once) = absurd (cc (set, once))
      which (some m) loop set (inr (n, given)) = inr (n, given, set)
