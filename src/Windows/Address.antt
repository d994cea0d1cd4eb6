-- ===== src/Windows/Address.antt =====
-- `parse_address` of common.hpp, `endpoint_to_sockaddr` of uso_send_win.cpp and
-- `sockaddr_to_endpoint` of uso_recv_win.cpp.
use Prim.Native.String.{String}
use text.Mathlib.Text.{◌==◌ as str_eq}
use udp_test.Base.{
  ℕ, ◌+◌, ◌*◌, ◌/◌, ◌%◌, ◌^◌, ◌<◌, ◌≡◌, refl, ap₂, arith, true, ◌||◌, leb, Option, none, some, ◌⊎◌,
  inl, inr, if◌then◌else◌, Bool-cases,
}
use udp_test.Windows.{Sockaddr, unspec, inet, inet6, Endpoint, Asio}

-- `htons` and `ntohs`, where the least byte comes first in memory.
abbrev pub swap_bytes : ℕ → ℕ
swap_bytes p = p % 256 * 256 + p / 256 % 256

swap_bytes_twice : (p : ℕ) → p < 2 ^ 16 → swap_bytes (swap_bytes p) ≡ p
swap_bytes_twice p h = omega arith

-- `sizeof(sockaddr_in)` and `sizeof(sockaddr_in6)`
abbrev sizeof_sockaddr_in : ℕ
sizeof_sockaddr_in = 16

abbrev sizeof_sockaddr_in6 : ℕ
sizeof_sockaddr_in6 = 28

module _ {Address V4 V6 : Type 0} (asio : Asio Address V4 V6) where
  -- `none` where `make_address` throws
  unfoldable pub parse_address : String → Option Address
  parse_address text =
      if str_eq text "*" || str_eq text "0.0.0.0" || str_eq text "0"
      then some (asio.from_v4 asio.v4_any)
      else if str_eq text "::" || str_eq text "0:0:0:0:0:0:0:0"
      then some (asio.from_v6 asio.v6_any)
      else asio.make_address text

  -- The address and its length, or `none` for a family that is not supported.
  unfoldable pub endpoint_to_sockaddr : Endpoint Address → Option (Sockaddr × ℕ)
  endpoint_to_sockaddr target =
      if asio.is_v4 target.address
      then some (
        inet (swap_bytes target.port) (asio.v4_to_bytes (asio.to_v4 target.address)),
        sizeof_sockaddr_in,
      )
      else if asio.is_v6 target.address
      then some (
        inet6 (swap_bytes target.port) (asio.scope_id (asio.to_v6 target.address))
            (asio.v6_to_bytes (asio.to_v6 target.address)),
        sizeof_sockaddr_in6,
      )
      else none

  pub sockaddr_to_endpoint : Sockaddr → ℕ → Option (Endpoint Address)
  sockaddr_to_endpoint unspec storage_len = none
  sockaddr_to_endpoint (inet port addr) storage_len =
      if leb sizeof_sockaddr_in storage_len
      then some
          (record { address = asio.from_v4 (asio.v4_from_bytes addr); port = swap_bytes port })
      else none
  sockaddr_to_endpoint (inet6 port scope addr) storage_len =
      if leb sizeof_sockaddr_in6 storage_len
      then some (record {
        address = asio.from_v6 (asio.v6_from_bytes addr scope);
        port = swap_bytes port;
      })
      else none

  -- What Boost.Asio says of its addresses: one is of the one version or of the other, and its
  -- bytes, for version 6 with the scope, make it again.
  pub record IsFaithful : Type 0 where
    pub version : (a : Address) → (asio.is_v4 a ≡ true) ⊎ (asio.is_v6 a ≡ true)
    pub v4_again :
        (a : Address)
        → asio.is_v4 a ≡ true
        → asio.from_v4 (asio.v4_from_bytes (asio.v4_to_bytes (asio.to_v4 a))) ≡ a
    pub v6_again :
        (a : Address)
        → asio.is_v6 a ≡ true
        → asio.from_v6
            (asio.v6_from_bytes (asio.v6_to_bytes (asio.to_v6 a)) (asio.scope_id (asio.to_v6 a)))
          ≡ a

  -- An endpoint that the one function stores.
  pub record Stored (e : Endpoint Address) : Type 0 where
    pub address : Sockaddr
    pub len : ℕ
    pub stored : endpoint_to_sockaddr e ≡ some (address, len)
    pub again : sockaddr_to_endpoint address len ≡ some e

  -- Every endpoint whose port fits 16 bits is stored as a socket address, from which
  -- `sockaddr_to_endpoint` reads it back: given that an address of Boost.Asio is of the one version
  -- or of the other, and that its bytes, for version 6 with the scope, make it again.
  pub endpoint_to_sockaddr-Stored :
      (faithful : IsFaithful) (e : Endpoint Address) → e.port < 2 ^ 16 → Stored e
  unfolding endpoint_to_sockaddr sockaddr_to_endpoint
  endpoint_to_sockaddr-Stored faithful e fits =
      let port = swap_bytes_twice e.port fits in
      elim (Bool-cases (asio.is_v4 e.address)) [
        | inl v4 ↦ record {
          address = inet (swap_bytes e.port) (asio.v4_to_bytes (asio.to_v4 e.address));
          len = sizeof_sockaddr_in;
          stored = rw v4 refl;
          again =
              ap₂ (λ a p. some (record { address = a; port = p })) (faithful.v4_again e.address v4)
                port;
        }
        | inr not_v4 ↦ elim (faithful.version e.address) [
          | inl v4 ↦ absurd (cc (v4, not_v4))
          | inr v6 ↦ record {
            address =
                inet6 (swap_bytes e.port) (asio.scope_id (asio.to_v6 e.address))
                  (asio.v6_to_bytes (asio.to_v6 e.address));
            len = sizeof_sockaddr_in6;
            stored = rw (not_v4, v6) refl;
            again =
                ap₂ (λ a p. some (record { address = a; port = p }))
                  (faithful.v6_again e.address v6) port;
          }
        ]
      ]
