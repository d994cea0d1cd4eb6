-- ===== src/Uso/Route.antt =====
-- How uso_send_win.cpp chooses the address and the interface that it sends from.
pub mod Usable
pub mod Chosen
pub mod Silent
pub mod Resolved
use Prim.Native.String.{String}
use text.Mathlib.Text.{◌==◌ as str_eq}
use udp_test.Base.{
  [], ℕ, ◌*◌, Bool, true, false, not, ◌&&◌, ◌||◌, Option, none, some, List, ◌∷◌, ◌==◌,
  if◌then◌else◌,
}
use udp_test.Windows.{
  Sockaddr, inet, Endpoint, Asio, Adapter, AdaptersAnswer, no_error, buffer_overflow, other_error,
  Winsock, pure, throw, ◌>>=◌, call,
}
use udp_test.Windows.Address.{swap_bytes, parse_address}
use udp_test.Uso.{bad_address, Step}

unfoldable bind_option_is_wildcard : String → Bool
bind_option_is_wildcard text = str_eq text "0.0.0.0" || str_eq text "*" || str_eq text "0"

pub record UsoBindInfo : Type 0 where
  pub bind_address : String
  pub interface_index : ℕ
  pub auto_selected : Bool

module _ {Address V4 V6 : Type 0} (asio : Asio Address V4 V6) where
  unfoldable pub source_address_is_unspecified : Address → Bool
  source_address_is_unspecified address =
      asio.is_unspecified address
      || asio.is_v4 address && asio.v4_is_unspecified (asio.to_v4 address)
      || asio.is_v6 address && asio.v6_is_unspecified (asio.to_v6 address)

  -- `!candidate.is_unspecified() && !candidate.is_loopback()`
  abbrev is_candidate : V4 → Bool
  is_candidate v4 = not (asio.v4_is_unspecified v4) && not (asio.v4_is_loopback v4)

  -- The loop over the addresses of an adapter.
  usable_unicast : List (Option Sockaddr) → Option V4
  usable_unicast [] = none
  usable_unicast (some (inet port addr) ∷ unicast) =
      let rest = usable_unicast unicast in
      if is_candidate (asio.v4_from_bytes addr) then some (asio.v4_from_bytes addr) else rest
  usable_unicast (_ ∷ unicast) = usable_unicast unicast

  abbrev has_index : ℕ → Adapter → Bool
  has_index if_index adapter = adapter.if_index == if_index || adapter.ipv6_if_index == if_index

  abbrev or_else : Option V4 → Option V4 → Option V4
  or_else (some v4) other = some v4
  or_else none other = other

  -- The loop over the adapters.
  pub usable_address : ℕ → List Adapter → Option V4
  usable_address if_index [] = none
  usable_address if_index (adapter ∷ adapters) =
      let rest = usable_address if_index adapters in
      if not adapter.is_up
      then rest
      else if not (has_index if_index adapter)
      then rest
      else or_else (usable_unicast adapter.unicast) rest

  abbrev of_answer : ℕ → AdaptersAnswer → Option V4
  of_answer if_index (no_error adapters) = usable_address if_index adapters
  of_answer if_index (buffer_overflow size) = none
  of_answer if_index other_error = none

  -- The address for the endpoint, where the port is kept as it is: 0 at the callers' bind.
  abbrev pub v4_sockaddr : ℕ → V4 → Sockaddr
  v4_sockaddr port v4 = inet (swap_bytes port) (asio.v4_to_bytes v4)

  module _ {W : Type 0} (os : Winsock W) where
    -- A buffer that is too small is enlarged once.
    abbrev ask_again : AdaptersAnswer → Step W AdaptersAnswer
    ask_again (buffer_overflow size) = call (os.adapters_addresses size)
    ask_again answer = pure answer

    ipv4_on_interface_index : ℕ → Step W (Option V4)
    ipv4_on_interface_index if_index =
        call (os.adapters_addresses (15 * 1024))
        >>= ask_again
        >>= (λ answer. pure (of_answer if_index answer))

    abbrev with_index : ℕ → Option V4 → Option (V4 × ℕ)
    with_index if_index none = none
    with_index if_index (some v4) = some (v4, if_index)

    abbrev on_best : Option ℕ → Step W (Option (V4 × ℕ))
    on_best none = pure none
    on_best (some if_index) =
        ipv4_on_interface_index if_index >>= (λ found. pure (with_index if_index found))

    -- The address and the index of the interface that routes to the destination.
    ipv4_egress_for_destination : Endpoint Address → Step W (Option (V4 × ℕ))
    ipv4_egress_for_destination destination =
        let search =
          call (os.best_interface (v4_sockaddr destination.port (asio.to_v4 destination.address)))
          >>= on_best in
        if not (asio.is_v4 destination.address) then pure none else search

    unfoldable pub ipv4_interface_index : V4 → Step W (Option ℕ)
    ipv4_interface_index address =
        if asio.v4_is_unspecified address
        then pure none
        else call (os.best_interface (v4_sockaddr 0 address))

    abbrev pub index_or_zero : Option ℕ → ℕ
    index_or_zero none = 0
    index_or_zero (some if_index) = if_index

    abbrev egress_index : Option (V4 × ℕ) → ℕ
    egress_index none = 0
    egress_index (some (v4, if_index)) = if_index

    abbrev parsed_or_throw : Option Address → Step W Address
    parsed_or_throw none = throw bad_address
    parsed_or_throw (some address) = pure address

    abbrev own_index : Address → Step W ℕ
    own_index address =
        if asio.is_v4 address
        then ipv4_interface_index (asio.to_v4 address) >>= (λ index. pure (index_or_zero index))
        else pure 0

    -- Where the source has no interface, that of the route to the destination.
    abbrev index_for : Endpoint Address → ℕ → Step W ℕ
    index_for destination index =
        if index == 0 && asio.is_v4 destination.address
        then ipv4_egress_for_destination destination >>= (λ egress. pure (egress_index egress))
        else pure index

    abbrev explicit_info : String → ℕ → UsoBindInfo
    explicit_info source_option index = record {
      bind_address = source_option;
      interface_index = index;
      auto_selected = false;
    }

    abbrev of_egress : String → Option (V4 × ℕ) → UsoBindInfo
    of_egress source_option none = explicit_info source_option 0
    of_egress source_option (some (v4, if_index)) = record {
      bind_address = asio.v4_to_string v4;
      interface_index = if_index;
      auto_selected = true;
    }

    pub resolve_uso_bind_address : String → Endpoint Address → Step W UsoBindInfo
    resolve_uso_bind_address source_option destination =
        if not (bind_option_is_wildcard source_option)
        then parsed_or_throw (parse_address asio source_option)
          >>= own_index
          >>= index_for destination
          >>= (λ index. pure (explicit_info source_option index))
        else ipv4_egress_for_destination destination
          >>= (λ egress. pure (of_egress source_option egress))
