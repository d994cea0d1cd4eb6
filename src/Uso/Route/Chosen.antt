-- ===== src/Uso/Route/Chosen.antt =====
-- What `resolve_uso_bind_address` chooses.
use Prim.Native.String.{String}
use udp_test.Base.{
  ℕ, ◌≡◌, ◌⊎◌, inl, inr, ◌*◌, refl, subst, Bool, true, false, not, ◌&&◌, Option, none, some, List,
  ◌==◌, Option-cases, not-false, not-true,
}
use udp_test.Windows.{
  Endpoint, Asio, Adapter, AdaptersAnswer, no_error, buffer_overflow, other_error, Winsock, Process,
  pure, ◌>>=◌, call,
}
use udp_test.Windows.Address.{parse_address}
use udp_test.Windows.Ends.{Ends, bind-Ends, if-Ends, change-Ends}
use udp_test.Uso.{UsoThrow, bad_address}
use udp_test.Uso.Route.{
  bind_option_is_wildcard, UsoBindInfo, usable_address, ask_again, of_answer,
  ipv4_on_interface_index, on_best, with_index, ipv4_egress_for_destination, ipv4_interface_index,
  explicit_info, own_index, index_for, of_egress, resolve_uso_bind_address,
}
use udp_test.Uso.Route.Usable.{IsOn, usable_address-IsOn}

module _ {Address V4 V6 : Type 0} (asio : Asio Address V4 V6) where
  module _ (source : String) where
    abbrev pub Refused : {S : Type 0} → UsoThrow → S → Type 0
    Refused e p =
        (e ≡ bad_address)
        × (bind_option_is_wildcard source ≡ false)
        × (parse_address asio source ≡ none)

  module _ (table : List Adapter) (source : String) where
    -- A source that is given stays as it is. For a wildcard, an address of an adapter that is
    -- up is taken, on the interface of the route to the destination, if there is one.
    abbrev ChosenFor : Bool → UsoBindInfo → Type 0
    ChosenFor false info = (info.bind_address ≡ source) × (info.auto_selected ≡ false)
    ChosenFor true info =
        ((info.auto_selected ≡ true)
          × (v4 : V4) × (info.bind_address ≡ asio.v4_to_string v4)
          × IsOn asio info.interface_index table v4)
        ⊎ ((info.auto_selected ≡ false) × (info.bind_address ≡ source) × (info.interface_index ≡ 0))

    abbrev pub Chosen : {S : Type 0} → UsoBindInfo → S → Type 0
    Chosen info p = ChosenFor (bind_option_is_wildcard source) info

  module _ {W : Type 0} (os : Winsock W) (table : List Adapter) where
    -- The system's table of adapters, where it tells it.
    abbrev IsTable : AdaptersAnswer → Type 0
    IsTable (no_error adapters) = adapters ≡ table
    IsTable other = Unit

    abbrev pub TellsTable : Type 0
    TellsTable = (size : ℕ) (w : W) → IsTable (os.adapters_addresses size w).0

    module _ (tells : TellsTable) where
      -- The index is kept, and the address is on it.
      abbrev IsEgress : Option (V4 × ℕ) → Process W → Type 0
      IsEgress none p = Unit
      IsEgress (some (v4, if_index)) p = IsOn asio if_index table v4

      abbrev NoThrow : UsoThrow → Process W → Type 0
      NoThrow e p = ⊥

      asked_again :
          (answer : AdaptersAnswer) (p : Process W)
          → IsTable answer
          → Ends (λ (a : AdaptersAnswer) q. IsTable a) NoThrow (ask_again asio os answer p)
      asked_again (no_error adapters) p h = h
      asked_again (buffer_overflow size) p h = tells size p.world
      asked_again other_error p h = tt

      answered :
          (if_index : ℕ) (answer : AdaptersAnswer) (p : Process W)
          → IsTable answer
          → IsEgress (with_index asio os if_index (of_answer asio if_index answer)) p
      answered if_index (no_error adapters) p h =
          elim (Option-cases (usable_address asio if_index adapters)) [
            | inl nothing ↦ rw nothing tt
            | inr (v4, e) ↦ rw e (
                subst (λ l. IsOn asio if_index l v4) h
                  (usable_address-IsOn asio if_index adapters v4 e))
          ]
      answered if_index (buffer_overflow size) p h = tt
      answered if_index other_error p h = tt

      on_best-IsEgress :
          (best : Option ℕ) (p : Process W) → Ends IsEgress NoThrow (on_best asio os best p)
      unfolding ipv4_on_interface_index
      on_best-IsEgress none p = tt
      on_best-IsEgress (some if_index) p =
          bind-Ends (λ (found : Option V4) q. IsEgress (with_index asio os if_index found) q)
            IsEgress NoThrow (ipv4_on_interface_index asio os if_index) _ p
            (bind-Ends (λ (a : AdaptersAnswer) q. IsTable a)
              (λ (found : Option V4) q. IsEgress (with_index asio os if_index found) q) NoThrow
              (call (os.adapters_addresses (15 * 1024)) >>= ask_again asio os) _ p
              (bind-Ends (λ (a : AdaptersAnswer) q. IsTable a) (λ (a : AdaptersAnswer) q. IsTable a)
                NoThrow (call (os.adapters_addresses (15 * 1024))) _ p (tells (15 * 1024) p.world)
                asked_again)
              (answered if_index))
            (λ found q h. h)

      found-IsEgress :
          (destination : Endpoint Address) (p : Process W)
          → Ends IsEgress NoThrow (ipv4_egress_for_destination asio os destination p)
      unfolding ipv4_egress_for_destination
      found-IsEgress destination p =
          if-Ends IsEgress NoThrow (not (asio.is_v4 destination.address)) _ _ p (λ other. tt)
            (λ v4. on_best-IsEgress _ _)

      module _ (source : String) (destination : Endpoint Address) where
        explicit :
            (b : Bool)
            → b ≡ false
            → (index : ℕ) → ChosenFor table source b (explicit_info asio os source index)
        explicit true h index = absurd (cc h)
        explicit false h index = (refl, refl)

        unthrown-IsEgress :
            (p : Process W)
            → Ends IsEgress (Refused source) (ipv4_egress_for_destination asio os destination p)
        unthrown-IsEgress p =
            change-Ends IsEgress IsEgress NoThrow (Refused source)
              (ipv4_egress_for_destination asio os destination p) (found-IsEgress destination p)
              (λ e q h. h) (λ e q h. absurd h)

        any_index :
            (address : Address) (p : Process W)
            → Ends (λ (n : ℕ) q. Unit {0}) (Refused source) (own_index asio os address p)
        unfolding ipv4_interface_index
        any_index address p =
            if-Ends (λ (n : ℕ) q. Unit {0}) (Refused source) (asio.is_v4 address) _ _ p
              (λ v4.
                bind-Ends (λ (o : Option ℕ) q. Unit {0}) (λ (n : ℕ) q. Unit {0}) (Refused source)
                  (ipv4_interface_index asio os (asio.to_v4 address)) _ p
                  (if-Ends (λ (o : Option ℕ) q. Unit {0}) (Refused source)
                    (asio.v4_is_unspecified (asio.to_v4 address)) _ _ p (λ e. tt) (λ e. tt))
                  (λ o q h. tt))
              (λ v6. tt)

        any_route :
            (index : ℕ) (p : Process W)
            → Ends (λ (n : ℕ) q. Unit {0}) (Refused source) (index_for asio os destination index p)
        any_route index p =
            if-Ends (λ (n : ℕ) q. Unit {0}) (Refused source)
              (index == 0 && asio.is_v4 destination.address) _ _ p
              (λ missing.
                bind-Ends IsEgress (λ (n : ℕ) q. Unit {0}) (Refused source)
                  (ipv4_egress_for_destination asio os destination) _ p (unthrown-IsEgress p)
                  (λ o q h. tt))
              (λ given. tt)

        given_source :
            (address : Address)
            → not (bind_option_is_wildcard source) ≡ true
            → (p : Process W)
            → Ends (Chosen table source) (Refused source) (
                (own_index asio os address
                    >>= index_for asio os destination
                    >>= (λ index. pure (explicit_info asio os source index)))
                  p)
        given_source address given p =
            bind-Ends (λ (n : ℕ) q. Unit {0}) (Chosen table source) (Refused source)
              (own_index asio os address >>= index_for asio os destination) _ p
              (bind-Ends (λ (n : ℕ) q. Unit {0}) (λ (n : ℕ) q. Unit {0}) (Refused source)
                (own_index asio os address) _ p (any_index address p) (λ n q h. any_route n q))
              (λ index q h.
                explicit (bind_option_is_wildcard source)
                  (not-true (bind_option_is_wildcard source) given) index)

        wildcard :
            (b : Bool)
            → b ≡ true
            → (e : Option (V4 × ℕ)) (p : Process W) → IsEgress e p
            → ChosenFor table source b (of_egress asio os source e)
        wildcard false h e p on = absurd (cc h)
        wildcard true h none p on = inr (refl, refl, refl)
        wildcard true h (some (v4, if_index)) p on = inl (refl, v4, refl, on)

        -- A source that is no wildcard stays the address to bind to, or an exception tells that it
        -- is no address; nothing else is thrown. For a wildcard, the address is selected: it is one
        -- of an adapter that is up and has the interface index that is told, and neither
        -- unspecified nor a loopback address; or there is none, and the wildcard stays, with index
        -- 0. The system tells its table of adapters, if it tells one.
        pub resolve_uso_bind_address-Chosen :
            (p : Process W)
            → Ends
                (Chosen table source)
                (Refused source)
                (resolve_uso_bind_address asio os source destination p)
        unfolding resolve_uso_bind_address
        resolve_uso_bind_address-Chosen p =
            if-Ends (Chosen table source) (Refused source) (not (bind_option_is_wildcard source)) _
              _ p
              (λ given. elim (Option-cases (parse_address asio source)) [
                | inl fails ↦
                    rw fails (refl, not-true (bind_option_is_wildcard source) given, fails)
                | inr (address, parses) ↦ rw parses (given_source address given p)
              ])
              (λ wild.
                bind-Ends IsEgress (Chosen table source) (Refused source)
                  (ipv4_egress_for_destination asio os destination) _ p (unthrown-IsEgress p)
                  (wildcard (bind_option_is_wildcard source)
                    (not-false (bind_option_is_wildcard source) wild)))
