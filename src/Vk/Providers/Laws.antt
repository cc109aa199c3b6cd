-- ===== src/Vk/Providers/Laws.antt =====
-- What adding and removing a provider do to the providers of each service, and to nothing else.
use orv.Base.{
  ℕ, ◌++◌, ◌≡◌, inl, inr, arith, Bool, true, false, not, ◌&&◌, ◌||◌, String, List, [], ◌∷◌, Option,
  none, some, is_some, nat_eq, text_eq, ◌==◌, if◌then◌else◌, Option-cases,
}
use orv.Base.Map.{
  Map, lookup, insert, remove, is_empty, lookup-insert, lookup-remove, is_empty-lookup,
  is_empty-insert, is_empty-one, beq_refl,
}
use orv.Protocol.MessageType
use orv.Vk.State.{
  AddrPort, unknown_child_id, bad_service_name, Platform, VaultKeeper, Packet, deregister, send,
}
use orv.Vk.Providers.{
  library_version, add_provider, message_parent, drop_provider, remove_provider, remove_providers,
}

abbrev pub find_in : ℕ → Option (Map ℕ AddrPort) → Option AddrPort
find_in id none = none
find_in id (some m) = lookup id m

lookup-one : (i j : ℕ) (a : AddrPort) → lookup j ((i, a) ∷ []) ≡ (if i == j then some a else none)
unfolding lookup
lookup-one i j a = ground arith

abbrev pub among : String → List String → Bool
among t [] = false
among t (s ∷ ss) = s == t || among t ss

-- A map of providers that, where there is one, is not empty.
abbrev pub occupied : Option (Map ℕ AddrPort) → Bool
occupied none = true
occupied (some m) = not (is_empty m)

module _ {P : Platform} where
  abbrev pub providers_of : String → VaultKeeper P → Option (Map ℕ AddrPort)
  providers_of service vk = lookup service vk.children.all_services

  -- The address that a child is listed with as a provider of a service.
  unfoldable pub provider : String → ℕ → VaultKeeper P → Option AddrPort
  provider service id vk = find_in id (providers_of service vk)

  pub provider-add_provider :
      (s t : String) (i j : ℕ) (a : AddrPort) (vk : VaultKeeper P)
      → provider t j (add_provider i s a vk)
        ≡ (if s == t && i == j then some a else provider t j vk)
  unfolding provider add_provider
  provider-add_provider s t i j a vk = elim (Option-cases (providers_of s vk)) [
    | inl e ↦ ground (
      arith,
      text_eq.beq_iff s t,
      lookup-insert s t ((i, a) ∷ []) vk.children.all_services,
      lookup-insert i j a [],
      lookup-one i j a,
    )
    | inr (m, e) ↦ ground (
      arith,
      text_eq.beq_iff s t,
      lookup-insert s t (insert i a m) vk.children.all_services,
      lookup-insert i j a m,
    )
  ]

  pub provider-remove_provider :
      (s t : String) (i j : ℕ) (vk : VaultKeeper P)
      → provider t j (remove_provider s i vk).1
        ≡ (if s == t && i == j then none else provider t j vk)
  unfolding provider remove_provider drop_provider message_parent send
  provider-remove_provider s t i j vk = elim (Option-cases (providers_of s vk)) [
    | inl e ↦ ground (arith, text_eq.beq_iff s t)
    | inr (m, e) ↦ ground (
      arith,
      text_eq.beq_iff s t,
      lookup-insert s t (remove i m) vk.children.all_services,
      lookup-remove s t vk.children.all_services,
      lookup-remove i j m,
      is_empty-lookup (remove i m) j,
    )
  ]

  -- What the functions of this part leave alone: everything but `allServices` and what is sent.
  pub record SameElse (v w : VaultKeeper P) : Type 0 where
    pub same_cvks : w.children.cvks ≡ v.children.cvks
    pub same_leaves : w.children.leaves ≡ v.children.leaves
    pub same_structure : w.structure ≡ v.structure
    pub same_clock : w.clock ≡ v.clock
    pub same_id : w.id ≡ v.id
    pub same_versions : w.version_set ≡ v.version_set

  pub add_provider-SameElse :
      (s : String) (i : ℕ) (a : AddrPort) (vk : VaultKeeper P) → SameElse vk (add_provider i s a vk)
  unfolding add_provider
  add_provider-SameElse s i a vk = ground arith

  pub remove_provider-SameElse :
      (s : String) (i : ℕ) (vk : VaultKeeper P) → SameElse vk (remove_provider s i vk).1
  unfolding remove_provider drop_provider message_parent send
  remove_provider-SameElse s i vk = ground arith

  SameElse-trans : (u v w : VaultKeeper P) → SameElse u v → SameElse v w → SameElse u w
  SameElse-trans u v w p q = ground arith

  pub remove_providers-SameElse :
      (ss : List String) (i : ℕ) (vk : VaultKeeper P) → SameElse vk (remove_providers ss i vk)
  unfolding remove_providers
  remove_providers-SameElse [] i vk = ground arith
  remove_providers-SameElse (s ∷ ss) i vk =
      SameElse-trans vk (remove_provider s i vk).1 (remove_providers (s ∷ ss) i vk)
        (remove_provider-SameElse s i vk)
        (remove_providers-SameElse ss i (remove_provider s i vk).1)

  -- The loop over the services of a child takes the child off each of them, and nothing else.
  pub provider-remove_providers :
      (ss : List String) (t : String) (i j : ℕ) (vk : VaultKeeper P)
      → provider t j (remove_providers ss i vk)
        ≡ (if among t ss && i == j then none else provider t j vk)
  unfolding remove_providers
  provider-remove_providers [] t i j vk = ground arith
  provider-remove_providers (s ∷ ss) t i j vk = ground (
    arith,
    provider-remove_provider s t i j vk,
    provider-remove_providers ss t i j (remove_provider s i vk).1,
  )

  -- The errors of `removeProvider`, by what the view holds.
  pub remove_provider_errno :
      (s : String) (i : ℕ) (vk : VaultKeeper P)
      → (remove_provider s i vk).0 ≡ (
          if is_some (provider s i vk)
          then none
          else if is_some (providers_of s vk)
          then some unknown_child_id
          else some bad_service_name)
  unfolding provider remove_provider
  remove_provider_errno s i vk = ground arith

  abbrev pub deregister_packet : String → VaultKeeper P → Packet
  deregister_packet service vk = record {
    to = vk.structure.parent_addr;
    header = record {
      version = library_version;
      shorthand = false;
      type = MessageType.deregister;
      id = vk.id;
    };
    payload = deregister service;
  }

  -- The address of the parent, at a root the zero one, is sent a DEREGISTER exactly when the service
  -- was known and the removal of this provider leaves it unknown.
  pub remove_provider_notifies :
      (s : String) (i : ℕ) (vk : VaultKeeper P)
      → (remove_provider s i vk).1.sent ≡ (
          if is_some (providers_of s vk)
            && not (is_some (providers_of s (remove_provider s i vk).1))
          then vk.sent ++ deregister_packet s vk ∷ []
          else vk.sent)
  unfolding remove_provider drop_provider message_parent send
  remove_provider_notifies s i vk = elim (Option-cases (providers_of s vk)) [
    | inl e ↦ ground arith
    | inr (m, e) ↦ ground (
      arith,
      beq_refl s,
      lookup-insert s s (remove i m) vk.children.all_services,
      lookup-remove s s vk.children.all_services,
    )
  ]

  -- A listed service has a provider.
  abbrev pub NoneEmpty : VaultKeeper P → Type 0
  NoneEmpty vk = (s : String) → occupied (providers_of s vk) ≡ true

  pub add_provider-NoneEmpty :
      (s : String) (i : ℕ) (a : AddrPort) (vk : VaultKeeper P)
      → NoneEmpty vk
      → NoneEmpty (add_provider i s a vk)
  unfolding add_provider
  add_provider-NoneEmpty s i a vk h t = elim (Option-cases (providers_of s vk)) [
    | inl e ↦
        ground
          (arith, h t, is_empty-one i a, lookup-insert s t ((i, a) ∷ []) vk.children.all_services)
    | inr (m, e) ↦ ground (
      arith,
      h t,
      is_empty-insert i a m,
      lookup-insert s t (insert i a m) vk.children.all_services,
    )
  ]

  pub remove_provider-NoneEmpty :
      (s : String) (i : ℕ) (vk : VaultKeeper P)
      → NoneEmpty vk
      → NoneEmpty (remove_provider s i vk).1
  unfolding remove_provider drop_provider message_parent send
  remove_provider-NoneEmpty s i vk h t = elim (Option-cases (providers_of s vk)) [
    | inl e ↦ ground (arith, h t)
    | inr (m, e) ↦ ground (
      arith,
      h t,
      lookup-insert s t (remove i m) vk.children.all_services,
      lookup-remove s t vk.children.all_services,
    )
  ]

  pub remove_providers-NoneEmpty :
      (ss : List String) (i : ℕ) (vk : VaultKeeper P)
      → NoneEmpty vk
      → NoneEmpty (remove_providers ss i vk)
  unfolding remove_providers
  remove_providers-NoneEmpty [] i vk h = h
  remove_providers-NoneEmpty (s ∷ ss) i vk h =
      remove_providers-NoneEmpty ss i (remove_provider s i vk).1
        (remove_provider-NoneEmpty s i vk h)
