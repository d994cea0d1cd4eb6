-- ===== src/Uso/Route/Usable.antt =====
-- The loops over the adapters and their addresses: what the address that they find is.
use udp_test.Base.{
  ℕ, ◌≡◌, ◌⊎◌, inl, inr, ap, ◌∙◌, true, Option, none, some, List, [], ◌∷◌, Bool-cases, Option-cases,
}
use udp_test.Windows.{Sockaddr, unspec, inet, inet6, Asio, Adapter}
use udp_test.Uso.Route.{is_candidate, usable_unicast, has_index, usable_address}

-- Something of a list is so.
abbrev Any : {A : Type 0} → (A → Type 0) → List A → Type 0
Any P [] = ⊥
Any P (x ∷ xs) = P x ⊎ Any P xs

module _ {Address V4 V6 : Type 0} (asio : Asio Address V4 V6) where
  abbrev IsAddress : V4 → Option Sockaddr → Type 0
  IsAddress v4 (some (inet port addr)) = v4 ≡ asio.v4_from_bytes addr
  IsAddress v4 other = ⊥

  -- An address of an adapter that is up and has the index, which is neither unspecified nor a
  -- loopback's.
  abbrev pub IsOn : ℕ → List Adapter → V4 → Type 0
  IsOn if_index adapters v4 =
      (is_candidate asio v4 ≡ true)
      × Any
          (λ (a : Adapter).
            (a.is_up ≡ true) × (has_index asio if_index a ≡ true) × Any (IsAddress v4) a.unicast)
          adapters

  usable_unicast-Any :
      (unicast : List (Option Sockaddr)) (v4 : V4)
      → usable_unicast asio unicast ≡ some v4
      → (is_candidate asio v4 ≡ true) × Any (IsAddress v4) unicast
  unfolding usable_unicast
  usable_unicast-Any [] v4 h = absurd (cc h)
  usable_unicast-Any (none ∷ unicast) v4 h =
      let (c, a) = usable_unicast-Any unicast v4 h in (c, inr a)
  usable_unicast-Any (some unspec ∷ unicast) v4 h =
      let (c, a) = usable_unicast-Any unicast v4 h in (c, inr a)
  usable_unicast-Any (some (inet6 port scope addr) ∷ unicast) v4 h =
      let (c, a) = usable_unicast-Any unicast v4 h in (c, inr a)
  usable_unicast-Any (some (inet port addr) ∷ unicast) v4 h =
      elim (Bool-cases (is_candidate asio (asio.v4_from_bytes addr))) [
        | inl good ↦
            let found : some (asio.v4_from_bytes addr) ≡ some v4 = rw good at h in
            let same : v4 ≡ asio.v4_from_bytes addr = cc found in
            (ap (is_candidate asio) same ∙ good, inl same)
        | inr bad ↦ let (c, a) = usable_unicast-Any unicast v4 (rw bad at h) in (c, inr a)
      ]

  later :
      (if_index : ℕ) (a : Adapter) (adapters : List Adapter) (v4 : V4)
      → IsOn if_index adapters v4
      → IsOn if_index (a ∷ adapters) v4
  later if_index a adapters v4 (c, on) = (c, inr on)

  pub usable_address-IsOn :
      (if_index : ℕ) (adapters : List Adapter) (v4 : V4)
      → usable_address asio if_index adapters ≡ some v4
      → IsOn if_index adapters v4
  unfolding usable_address
  usable_address-IsOn if_index [] v4 h = absurd (cc h)
  usable_address-IsOn if_index (a ∷ adapters) v4 h = elim (Bool-cases a.is_up) [
    | inr down ↦
        later if_index a adapters v4 (usable_address-IsOn if_index adapters v4 (rw down at h))
    | inl up ↦ elim (Bool-cases (has_index asio if_index a)) [
      | inr other ↦
          later if_index a adapters v4
            (usable_address-IsOn if_index adapters v4 (rw (up, other) at h))
      | inl same ↦ elim (Option-cases (usable_unicast asio a.unicast)) [
        | inl nothing ↦
            later if_index a adapters v4
              (usable_address-IsOn if_index adapters v4 (rw (up, same, nothing) at h))
        | inr (found, e) ↦
            let is_v4 : some found ≡ some v4 = rw (up, same, e) at h in
            let (c, on) = usable_unicast-Any a.unicast v4 (e ∙ is_v4) in (c, inl (up, same, on))
      ]
    ]
  ]
