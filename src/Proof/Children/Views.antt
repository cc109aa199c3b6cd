-- ===== src/Proof/Children/Views.antt =====
-- Which address a child is listed with for a service, and what a child itself offers.
use orv.Base.{
  ℕ, ◌≡◌, inl, inr, refl, arith, Bool, ◌&&◌, ◌||◌, String, List, [], ◌∷◌, Option, none, some,
  is_some, ◌==◌, nat_eq, nat_beq_iff, text_eq, if◌then◌else◌, Option-cases,
}
use orv.Base.Map.{Map, lookup, remove, keys, lookup-insert, lookup-remove, beq_refl}
use orv.Base.Int.{ℤ}
use orv.Vk.State.{AddrPort}
use orv.Proof.Children.{
  prune_cvk, prune_leaf_service, ServiceProvider, ProvenService, ChildVk, ChildTable, ChildError,
  unknown_cid, invalid_stale_time, put_provider, add_service_provider, add_service_to_leaf,
  add_service_to_vk, add_child_service,
}
use orv.Vk.Providers.Laws.{among}
use orv.Vk.Children.Removal.{among-keys}
use orv.Proof.Children.Pruning.{
  delete_provider, put_rest, withdraw_service, withdraw_services, prune_child_vk,
  prune_service_of_leaf, fire, get_random_provider,
}

abbrev pub address_of : ℕ → List ServiceProvider → Option AddrPort
address_of j [] = none
address_of j (p ∷ ps) = if p.c_id == j then some p.addr else address_of j ps

abbrev pub addresses : ℕ → Option (List ServiceProvider) → Option AddrPort
addresses j none = none
addresses j (some ps) = address_of j ps

-- The address with which a child is listed.
unfoldable pub listed_at : String → ℕ → ChildTable → Option AddrPort
listed_at t j c = addresses j (lookup t c.services)

address_of-put_provider :
    (i j : ℕ) (a : AddrPort) (ps : List ServiceProvider)
    → address_of j (put_provider i a ps) ≡ (if i == j then some a else address_of j ps)
unfolding put_provider
address_of-put_provider i j a [] = refl
address_of-put_provider i j a (p ∷ ps) = ground (
  arith,
  nat_beq_iff p.c_id i,
  nat_beq_iff i j,
  nat_beq_iff p.c_id j,
  address_of-put_provider i j a ps,
)

listed_at-add_service_provider :
    (i : ℕ) (s : String) (a : AddrPort) (c : ChildTable) (t : String) (j : ℕ)
    → listed_at t j (add_service_provider i s a c)
      ≡ (if s == t && i == j then some a else listed_at t j c)
unfolding listed_at add_service_provider
listed_at-add_service_provider i s a c t j = elim (Option-cases (lookup s c.services)) [
  | inl e ↦ ground (
    arith,
    text_eq.beq_iff s t,
    lookup-insert s t (record { c_id = i; addr = a } ∷ []) c.services,
  )
  | inr (ps, e) ↦ ground (
    arith,
    text_eq.beq_iff s t,
    lookup-insert s t (put_provider i a ps) c.services,
    address_of-put_provider i j a ps,
  )
]

-- Which REGISTER is accepted: one of a child VK, or of a leaf that has the service or gives a stale time
-- that can be read.
abbrev pub accepts : ℕ → String → Option ℤ → ChildTable → Bool
accepts i s stale c = elim (lookup i c.leaves) [
  | some leaf ↦ is_some (lookup s leaf) || is_some stale
  | none ↦ is_some (lookup i c.vks)
]

abbrev pub refusal : ℕ → ChildTable → ChildError
refusal i c = if is_some (lookup i c.leaves) then invalid_stale_time else unknown_cid

listed_at-services :
    (v w : ChildTable) (t : String) (j : ℕ)
    → w.services ≡ v.services
    → listed_at t j w ≡ listed_at t j v
unfolding listed_at
listed_at-services v w t j e = ground (arith, e)

pub add_service_to_leaf-services :
    (i : ℕ) (s : String) (a : AddrPort) (stale : Option ℤ) (leaf : Map String ProvenService)
    (c : ChildTable)
    → ((add_service_to_leaf i s a stale leaf c).1.services ≡ c.services)
      × ((add_service_to_leaf i s a stale leaf c).0
          ≡ (if is_some (lookup s leaf) || is_some stale then none else some invalid_stale_time))
unfolding add_service_to_leaf
add_service_to_leaf-services i s a stale leaf c = ground arith

add_service_to_vk-services :
    (i : ℕ) (s : String) (a : AddrPort) (cvk : ChildVk) (c : ChildTable)
    → (add_service_to_vk i s a cvk c).services ≡ c.services
unfolding add_service_to_vk
add_service_to_vk-services i s a cvk c = ground arith

-- addService accepts a REGISTER exactly of a child VK, or of a leaf that has the service already or
-- gives a stale time that can be read. The child is then listed for the service with the address that
-- it gave, and nothing else changes in the list of providers; where it fails, nothing does.
pub add_child_service_lem :
    (i : ℕ) (s : String) (a : AddrPort) (stale : Option ℤ) (c : ChildTable) (t : String) (j : ℕ)
    → ((add_child_service i s a stale c).0
        ≡ (if accepts i s stale c then none else some (refusal i c)))
      × (listed_at t j (add_child_service i s a stale c).1
          ≡ (if accepts i s stale c && (s == t && i == j) then some a else listed_at t j c))
unfolding add_child_service
add_child_service_lem i s a stale c t j = elim (Option-cases (lookup i c.leaves)) [
  | inr (leaf, e) ↦
      let c' = (add_service_to_leaf i s a stale leaf c).1 in
      let k = add_service_to_leaf-services i s a stale leaf c in
      ground
        (arith, e, k, listed_at-services c c' t j k.0, listed_at-add_service_provider i s a c' t j)
  | inl e ↦ elim (Option-cases (lookup i c.vks)) [
    | inl f ↦ ground (arith, e, f)
    | inr (cvk, f) ↦
        let c' = add_service_to_vk i s a cvk c in
        ground (
          arith,
          e,
          f,
          listed_at-services c c' t j (add_service_to_vk-services i s a cvk c),
          listed_at-add_service_provider i s a c' t j,
        )
  ]
]

address_of-delete_provider :
    (i j : ℕ) (ps : List ServiceProvider)
    → address_of j (delete_provider i ps) ≡ (if i == j then none else address_of j ps)
unfolding delete_provider
address_of-delete_provider i j [] = ground arith
address_of-delete_provider i j (p ∷ ps) = ground (
  arith,
  nat_beq_iff p.c_id i,
  nat_beq_iff i j,
  nat_beq_iff p.c_id j,
  address_of-delete_provider i j ps,
)

put_rest-addresses :
    (s t : String) (j : ℕ) (ps : List ServiceProvider) (m : Map String (List ServiceProvider))
    → addresses j (lookup t (put_rest s ps m))
      ≡ (if s == t then address_of j ps else addresses j (lookup t m))
put_rest-addresses s t j [] m = ground (arith, lookup-remove s t m)
put_rest-addresses s t j (p ∷ ps) m = ground (arith, lookup-insert s t (p ∷ ps) m)

withdraw_service-addresses :
    (i : ℕ) (s t : String) (j : ℕ) (m : Map String (List ServiceProvider))
    → addresses j (lookup t (withdraw_service i s m))
      ≡ (if s == t && i == j then none else addresses j (lookup t m))
unfolding withdraw_service
withdraw_service-addresses i s t j m = elim (Option-cases (lookup s m)) [
  | inl e ↦ ground (arith, e, text_eq.beq_iff s t)
  | inr (ps, e) ↦ ground (
    arith,
    e,
    text_eq.beq_iff s t,
    put_rest-addresses s t j (delete_provider i ps) m,
    address_of-delete_provider i j ps,
  )
]

pub withdraw_services-addresses :
    (i : ℕ) (ss : List String) (t : String) (j : ℕ) (m : Map String (List ServiceProvider))
    → addresses j (lookup t (withdraw_services i ss m))
      ≡ (if among t ss && i == j then none else addresses j (lookup t m))
unfolding withdraw_services
withdraw_services-addresses i [] t j m = ground arith
withdraw_services-addresses i (s ∷ ss) t j m = ground (
  arith,
  withdraw_services-addresses i ss t j (withdraw_service i s m),
  withdraw_service-addresses i s t j m,
)

-- When the timer of a child VK fires, the VK is no child any more, and it is no longer listed for any
-- service that it offered; all other entries of the list of providers stay as they are.
pub fire-prune_cvk :
    (n i : ℕ) (d : ℤ) (cvk : ChildVk) (c : ChildTable) (t : String) (j : ℕ)
    → lookup n c.clock.running ≡ some (prune_cvk i, d)
    → lookup i c.vks ≡ some cvk
    → (lookup i (fire n c).vks ≡ none)
      × (listed_at t j (fire n c)
          ≡ (if is_some (lookup t cvk.services) && i == j then none else listed_at t j c))
unfolding fire prune_child_vk listed_at
fire-prune_cvk n i d cvk c t j e f = ground (
  arith,
  e,
  f,
  beq_refl i,
  lookup-remove i i c.vks,
  among-keys t cvk.services,
  withdraw_services-addresses i (keys cvk.services) t j c.services,
)

-- When the timer of a leaf's service fires, the leaf no longer has the service, and yet
-- GetRandomProvider gives the same address as before for every service, that one included.
pub fire-prune_leaf_service :
    (n i : ℕ) (s : String) (d : ℤ) (leaf : Map String ProvenService) (c : ChildTable)
    → lookup n c.clock.running ≡ some (prune_leaf_service i s, d)
    → lookup i c.leaves ≡ some leaf
    → (lookup i (fire n c).leaves ≡ some (remove s leaf))
      × ((int_n : ℕ → ℕ) (t : String)
          → get_random_provider int_n t (fire n c) ≡ get_random_provider int_n t c)
unfolding fire prune_service_of_leaf get_random_provider
fire-prune_leaf_service n i s d leaf c e f = (
  ground (arith, e, f, beq_refl i, lookup-insert i i (remove s leaf) c.leaves),
  λ int_n t. ground (arith, e, f),
)
