-- ===== src/Proof/Children/Registered.antt =====
-- What a REGISTER changes in what the children offer.
use orv.Base.{
  ℕ, ◌≡◌, inl, inr, arith, not, ◌&&◌, ◌||◌, String, Option, some, is_some, ◌==◌, nat_eq,
  nat_beq_iff, text_eq, if◌then◌else◌, Option-cases,
}
use orv.Base.Map.{Map, lookup, insert, lookup-insert, lookup-remove}
use orv.Base.Int.{ℤ}
use orv.Vk.State.{AddrPort}
use orv.Proof.Children.{
  ProvenService, ChildVk, ChildTable, add_service_provider, add_service_to_leaf, add_service_to_vk,
  add_child_service,
}
use orv.Proof.Children.Views.{accepts, add_service_to_leaf-services}
use orv.Proof.Children.Offers.{leaf_address, vk_offers, address_in, has_service}

add_service_provider-footprint :
    (i : ℕ) (s : String) (a : AddrPort) (c : ChildTable)
    → ((add_service_provider i s a c).leaves ≡ c.leaves)
      × ((add_service_provider i s a c).vks ≡ c.vks)
unfolding add_service_provider
add_service_provider-footprint i s a c = ground arith

add_service_to_vk-leaves :
    (i : ℕ) (s : String) (a : AddrPort) (cvk : ChildVk) (c : ChildTable)
    → (add_service_to_vk i s a cvk c).leaves ≡ c.leaves
unfolding add_service_to_vk
add_service_to_vk-leaves i s a cvk c = ground arith

add_service_to_leaf-vks :
    (i : ℕ) (s : String) (a : AddrPort) (stale : Option ℤ) (leaf : Map String ProvenService)
    (c : ChildTable)
    → (add_service_to_leaf i s a stale leaf c).1.vks ≡ c.vks
unfolding add_service_to_leaf
add_service_to_leaf-vks i s a stale leaf c = ground arith

module _ (i j : ℕ) (s t : String) (a : AddrPort) where
  address_in-insert :
      (p : ProvenService) (leaf : Map String ProvenService)
      (leaves : Map ℕ (Map String ProvenService))
      → lookup i leaves ≡ some leaf
      → address_in t (lookup j (insert i (insert s p leaf) leaves))
        ≡ (if s == t && i == j then some p.addr else address_in t (lookup j leaves))
  address_in-insert p leaf leaves e = ground (
    arith,
    e,
    nat_beq_iff i j,
    lookup-insert i j (insert s p leaf) leaves,
    lookup-insert s t p leaf,
  )

  has_service-insert :
      (cvk : ChildVk) (vks : Map ℕ ChildVk)
      → lookup i vks ≡ some cvk
      → has_service t (lookup j (insert i (record cvk { services = insert s a cvk.services }) vks))
        ≡ (has_service t (lookup j vks) || (s == t && i == j))
  has_service-insert cvk vks e = ground (
    arith,
    e,
    nat_beq_iff i j,
    lookup-insert i j (record cvk { services = insert s a cvk.services }) vks,
    lookup-insert s t a cvk.services,
  )

  -- The leaf then offers the service at the address where the REGISTER is accepted.
  abbrev fresh : ℤ → ChildTable → ProvenService
  fresh d c = record { prune_timer = c.clock.next_number; stale_time = d; addr = a }

  pub add_service_to_leaf-leaf_address :
      (stale : Option ℤ) (leaf : Map String ProvenService) (c : ChildTable)
      → lookup i c.leaves ≡ some leaf
      → leaf_address j t (add_service_to_leaf i s a stale leaf c).1 ≡ (
          if (is_some (lookup s leaf) || is_some stale) && (s == t && i == j)
          then some a
          else leaf_address j t c)
  unfolding leaf_address add_service_to_leaf
  add_service_to_leaf-leaf_address stale leaf c e = elim (Option-cases (lookup s leaf)) [
    | inr (old, f) ↦ elim (Option-cases stale) [
      | inl g ↦ ground (arith, e, f, g, address_in-insert (fresh old.stale_time c) leaf c.leaves e)
      | inr (d, g) ↦ ground (arith, e, f, g, address_in-insert (fresh d c) leaf c.leaves e)
    ]
    | inl f ↦ elim (Option-cases stale) [
      | inl g ↦ ground (arith, e, f, g)
      | inr (d, g) ↦ ground (arith, e, f, g, address_in-insert (fresh d c) leaf c.leaves e)
    ]
  ]

  add_service_to_vk-vk_offers :
      (cvk : ChildVk) (c : ChildTable)
      → lookup i c.vks ≡ some cvk
      → vk_offers j t (add_service_to_vk i s a cvk c) ≡ (vk_offers j t c || (s == t && i == j))
  unfolding vk_offers add_service_to_vk
  add_service_to_vk-vk_offers cvk c e =
      ground (arith, e, nat_beq_iff i j, text_eq.beq_iff s t, has_service-insert cvk c.vks e)

  pub add_child_service-leaf_address :
      (stale : Option ℤ) (c : ChildTable)
      → leaf_address j t (add_child_service i s a stale c).1 ≡ (
          if is_some (lookup i c.leaves) && (accepts i s stale c && (s == t && i == j))
          then some a
          else leaf_address j t c)
  unfolding leaf_address add_child_service
  add_child_service-leaf_address stale c = elim (Option-cases (lookup i c.leaves)) [
    | inr (leaf, e) ↦
        let out = add_service_to_leaf i s a stale leaf c in
        let k = add_service_to_leaf-services i s a stale leaf c in
        ground (
          arith,
          e,
          k,
          add_service_to_leaf-leaf_address stale leaf c e,
          add_service_provider-footprint i s a out.1,
        )
    | inl e ↦ elim (Option-cases (lookup i c.vks)) [
      | inl f ↦ ground (arith, e, f)
      | inr (cvk, f) ↦ ground (
        arith,
        e,
        f,
        add_service_provider-footprint i s a (add_service_to_vk i s a cvk c),
        add_service_to_vk-leaves i s a cvk c,
      )
    ]
  ]

  pub add_child_service-vk_offers :
      (stale : Option ℤ) (c : ChildTable)
      → vk_offers j t (add_child_service i s a stale c).1 ≡ (
          vk_offers j t c
          || (not (is_some (lookup i c.leaves))
              && (is_some (lookup i c.vks) && (s == t && i == j))))
  unfolding vk_offers add_child_service
  add_child_service-vk_offers stale c = elim (Option-cases (lookup i c.leaves)) [
    | inr (leaf, e) ↦
        let out = add_service_to_leaf i s a stale leaf c in
        ground (
          arith,
          e,
          add_service_to_leaf-services i s a stale leaf c,
          add_service_to_leaf-vks i s a stale leaf c,
          add_service_provider-footprint i s a out.1,
        )
    | inl e ↦ elim (Option-cases (lookup i c.vks)) [
      | inl f ↦ ground (arith, e, f)
      | inr (cvk, f) ↦ ground (
        arith,
        e,
        f,
        add_service_provider-footprint i s a (add_service_to_vk i s a cvk c),
        add_service_to_vk-vk_offers cvk c f,
      )
    ]
  ]

-- Whether a node is a child, of either kind.
abbrev pub SameChildren : ℕ → ChildTable → ChildTable → Type 0
SameChildren j c d =
    (is_some (lookup j d.leaves) ≡ is_some (lookup j c.leaves))
    × (is_some (lookup j d.vks) ≡ is_some (lookup j c.vks))

add_service_to_leaf-SameChildren :
    (i j : ℕ) (s : String) (a : AddrPort) (stale : Option ℤ) (leaf : Map String ProvenService)
    (c : ChildTable)
    → lookup i c.leaves ≡ some leaf
    → SameChildren j c (add_service_to_leaf i s a stale leaf c).1
unfolding add_service_to_leaf lookup insert
add_service_to_leaf-SameChildren i j s a stale leaf c e =
    ground (arith, e, nat_beq_iff i j, lookup-remove i j c.leaves)

add_service_to_vk-SameChildren :
    (i j : ℕ) (s : String) (a : AddrPort) (cvk : ChildVk) (c : ChildTable)
    → lookup i c.vks ≡ some cvk
    → SameChildren j c (add_service_to_vk i s a cvk c)
unfolding add_service_to_vk lookup insert
add_service_to_vk-SameChildren i j s a cvk c e =
    ground (arith, e, nat_beq_iff i j, lookup-remove i j c.vks)

pub add_child_service-SameChildren :
    (i j : ℕ) (s : String) (a : AddrPort) (stale : Option ℤ) (c : ChildTable)
    → SameChildren j c (add_child_service i s a stale c).1
unfolding add_child_service
add_child_service-SameChildren i j s a stale c = elim (Option-cases (lookup i c.leaves)) [
  | inr (leaf, e) ↦ ground (
    arith,
    e,
    add_service_to_leaf-services i s a stale leaf c,
    add_service_to_leaf-SameChildren i j s a stale leaf c e,
    add_service_provider-footprint i s a (add_service_to_leaf i s a stale leaf c).1,
  )
  | inl e ↦ elim (Option-cases (lookup i c.vks)) [
    | inl f ↦ ground (arith, e, f)
    | inr (cvk, f) ↦ ground (
      arith,
      e,
      f,
      add_service_to_vk-SameChildren i j s a cvk c f,
      add_service_provider-footprint i s a (add_service_to_vk i s a cvk c),
    )
  ]
]
