-- ===== src/Uso/Route/Resolved.antt =====
-- `resolve_uso_bind_address` where no exception comes of it, and what the caller can then parse.
use Prim.Native.String.{String}
use udp_test.Base.{ℕ, ◌*◌, ◌≡◌, true, not, ◌&&◌, Option, none, some, ◌==◌}
use udp_test.Windows.{
  Endpoint, Asio, AdaptersAnswer, no_error, buffer_overflow, other_error, Winsock, Process, pure,
  ◌>>=◌, call,
}
use udp_test.Windows.Address.{parse_address}
use udp_test.Windows.Ends.{Ends, bind-Ends, if-Ends, bind-Preserves, if-Preserves}
use udp_test.Uso.Wire.{Never}
use udp_test.Uso.Route.{
  UsoBindInfo, bind_option_is_wildcard, ask_again, ipv4_on_interface_index, on_best,
  ipv4_egress_for_destination, ipv4_interface_index, own_index, index_for, of_egress,
  resolve_uso_bind_address,
}
use udp_test.Uso.Faultless.{Fine, Runs}

module _ {Address V4 V6 : Type 0} (asio : Asio Address V4 V6) where
  -- The text is an address of version 4.
  abbrev pub IsV4 : String → Type 0
  IsV4 text = (a : Address) × (parse_address asio text ≡ some a) × (asio.is_v4 a ≡ true)

  -- The text of an address of version 4 is one.
  abbrev pub PrintsV4 : Type 0
  PrintsV4 = (v4 : V4) → IsV4 (asio.v4_to_string v4)

module _ {W : Type 0} (os : Winsock W) {Address V4 V6 : Type 0} (asio : Asio Address V4 V6) where
  ask_again-Runs : (answer : AdaptersAnswer) → Runs (ask_again asio os answer)
  ask_again-Runs (no_error adapters) p fine = fine
  ask_again-Runs (buffer_overflow size) p fine = fine
  ask_again-Runs other_error p fine = fine

  on_best-Runs : (best : Option ℕ) → Runs (on_best asio os best)
  unfolding ipv4_on_interface_index
  on_best-Runs none p fine = fine
  on_best-Runs (some index) p fine =
      bind-Preserves Fine Never (ipv4_on_interface_index asio os index) _
        (bind-Preserves Fine Never (call (os.adapters_addresses (15 * 1024)) >>= ask_again asio os)
          _
          (bind-Preserves Fine Never (call (os.adapters_addresses (15 * 1024))) (ask_again asio os)
            (λ q h. h) ask_again-Runs)
          (λ answer q h. h))
        (λ found q h. h) p fine

  egress-Runs : (to : Endpoint Address) → Runs (ipv4_egress_for_destination asio os to)
  unfolding ipv4_egress_for_destination
  egress-Runs to =
      if-Preserves Fine Never (not (asio.is_v4 to.address)) (pure none) _ (λ p fine. fine)
        (bind-Preserves Fine Never (call (os.best_interface _)) (on_best asio os) (λ p fine. fine)
          on_best-Runs)

  own_index-Runs : (address : Address) → Runs (own_index asio os address)
  unfolding ipv4_interface_index
  own_index-Runs address =
      if-Preserves Fine Never (asio.is_v4 address) _ (pure 0)
        (bind-Preserves Fine Never (ipv4_interface_index asio os (asio.to_v4 address)) _
          (if-Preserves Fine Never (asio.v4_is_unspecified (asio.to_v4 address)) (pure none) _
            (λ p fine. fine) (λ p fine. fine))
          (λ found p fine. fine))
        (λ p fine. fine)

  index_for-Runs : (to : Endpoint Address) (index : ℕ) → Runs (index_for asio os to index)
  index_for-Runs to index =
      if-Preserves Fine Never (index == 0 && asio.is_v4 to.address) _ (pure index)
        (bind-Preserves Fine Never (ipv4_egress_for_destination asio os to) _ (egress-Runs to)
          (λ found p fine. fine))
        (λ p fine. fine)

  module _ (source : String) (is_v4 : IsV4 asio source) (prints : PrintsV4 asio) where
    -- The address to bind to is one of version 4.
    abbrev pub Binds : UsoBindInfo → Process W → Type 0
    Binds info p = IsV4 asio info.bind_address × Fine p

    of_egress-IsV4 :
        (egress : Option (V4 × ℕ)) → IsV4 asio (of_egress asio os source egress).bind_address
    of_egress-IsV4 none = is_v4
    of_egress-IsV4 (some (v4, index)) = prints v4

    pub resolve_uso_bind_address-Binds :
        (to : Endpoint Address) (p : Process W)
        → Fine p
        → Ends Binds Never (resolve_uso_bind_address asio os source to p)
    unfolding resolve_uso_bind_address
    resolve_uso_bind_address-Binds to p fine =
        if-Ends Binds Never (not (bind_option_is_wildcard source)) _ _ p
          (λ given. rw (is_v4.1) (
            bind-Ends (λ (n : ℕ) q. Fine q) Binds Never
              (own_index asio os is_v4.0 >>= index_for asio os to) _ p
              (bind-Preserves Fine Never (own_index asio os is_v4.0) (index_for asio os to)
                (own_index-Runs is_v4.0) (index_for-Runs to) p fine)
              (λ n q h. (is_v4, h))))
          (λ wildcard.
            bind-Ends (λ (egress : Option (V4 × ℕ)) q. Fine q) Binds Never
              (ipv4_egress_for_destination asio os to) _ p (egress-Runs to p fine)
              (λ egress q h. (of_egress-IsV4 egress, h)))
