-- ===== src/Vk/Children/Views.antt =====
-- The view of the children that is kept with each child, and how each operation changes it. The
-- other view, `allServices`, is that of Vk/Providers.
use orv.Base.{
  ℕ, ◌≡◌, inl, inr, refl, arith, Bool, false, not, ◌&&◌, ◌||◌, String, List, [], Option, none, some,
  is_some, nat_eq, text_eq, ◌==◌, if◌then◌else◌, Option-cases,
}
use orv.Base.Map.{lookup, insert, lookup-insert, lookup-empty}
use orv.Base.Int.{ℤ}
use orv.Vk.Table.{map_option}
use orv.Vk.State.{AddrPort, unknown_child_id, Cvk, Leaf, LeafService, Platform, VaultKeeper}
use orv.Vk.Providers.{add_provider, remove_provider, remove_providers}
use orv.Vk.Providers.Laws.{
  provider, add_provider-SameElse, remove_provider-SameElse, remove_providers-SameElse,
  provider-add_provider,
}
use orv.Vk.Children.{
  load_cvk, load_leaf, set_cvks, add_cvk, install_leaf, add_leaf, add_leaf_service, stop_old_pruner,
  write_service, add_cvk_service, add_service,
}

abbrev pub leaf_offer : String → Leaf → Option AddrPort
leaf_offer t l = map_option (λ s. s.addr) (lookup t l.services)

abbrev pub offer : String → Option Leaf → Option Cvk → Option AddrPort
offer t (some l) c = leaf_offer t l
offer t none (some c) = lookup t c.services
offer t none none = none

module _ {P : Platform} where
  -- The address at which a child offers a service, by the record of the child.
  unfoldable pub offers : String → ℕ → VaultKeeper P → Option AddrPort
  offers t j vk = offer t (load_leaf j vk) (load_cvk j vk)

  -- No ID is a leaf's and a child VK's.
  abbrev pub Disjoint : VaultKeeper P → Type 0
  Disjoint vk = (j : ℕ) → (is_some (load_leaf j vk) && is_some (load_cvk j vk)) ≡ false

  pub offers-add_provider :
      (s t : String) (i j : ℕ) (a : AddrPort) (vk : VaultKeeper P)
      → offers t j (add_provider i s a vk) ≡ offers t j vk
  unfolding offers
  offers-add_provider s t i j a vk = ground (arith, add_provider-SameElse s i a vk)

  pub offers-remove_providers :
      (ss : List String) (t : String) (i j : ℕ) (vk : VaultKeeper P)
      → offers t j (remove_providers ss i vk) ≡ offers t j vk
  unfolding offers
  offers-remove_providers ss t i j vk = ground (arith, remove_providers-SameElse ss i vk)

  pub offers-remove_provider :
      (s t : String) (i j : ℕ) (vk : VaultKeeper P)
      → offers t j (remove_provider s i vk).1 ≡ offers t j vk
  unfolding offers
  offers-remove_provider s t i j vk = ground (arith, remove_provider-SameElse s i vk)

  -- A new leaf, or one that is known, offers what it did: a new one nothing.
  pub offers-add_leaf :
      (i j : ℕ) (t : String) (vk : VaultKeeper P) → offers t j (add_leaf i vk).1 ≡ offers t j vk
  unfolding offers add_leaf install_leaf
  offers-add_leaf i j t vk = ground (
    arith,
    lookup-insert i j (record { serviceless_pruner = vk.clock.next_timer; services = [] })
        vk.children.leaves,
    lookup-empty {V = LeafService} t,
  )

  -- Storing a child VK anew forgets what it offered.
  pub offers-add_cvk :
      (i j : ℕ) (a : AddrPort) (t : String) (vk : VaultKeeper P)
      → offers t j (add_cvk i a vk).1
        ≡ (if i == j && not (is_some (load_leaf i vk)) then none else offers t j vk)
  unfolding offers add_cvk
  offers-add_cvk i j a t vk = ground (
    arith,
    P.cvk_table.load-store i j (record { services = []; addr = a }) vk.prune_time.child_vk
        vk.children.cvks,
    lookup-empty {V = AddrPort} t,
  )

  offers-add_leaf_service :
      (i j : ℕ) (s t : String) (a : AddrPort) (d : ℤ) (l : Leaf) (vk : VaultKeeper P)
      → load_leaf i vk ≡ some l
      → offers t j (add_leaf_service i s a d l vk)
        ≡ (if s == t && i == j then some a else offers t j vk)
  unfolding offers add_leaf_service
  offers-add_leaf_service i j s t a d l vk e =
      let x : LeafService = record {
        pruner = (stop_old_pruner s l vk.clock).next_timer;
        stale = d;
        addr = a;
      } in
      ground (
        arith,
        text_eq.beq_iff s t,
        lookup-insert i j (record l { services = insert s x l.services }) vk.children.leaves,
        lookup-insert s t x l.services,
      )

  offers-add_cvk_service :
      (i j : ℕ) (s t : String) (a : AddrPort) (c : Cvk) (vk : VaultKeeper P)
      → load_leaf i vk ≡ none
      → load_cvk i vk ≡ some c
      → ((add_cvk_service i s a vk).0 ≡ none)
        × (offers t j (add_cvk_service i s a vk).1
            ≡ (if s == t && i == j then some a else offers t j vk))
  unfolding offers add_cvk_service
  offers-add_cvk_service i j s t a c vk e f =
      let t' = (P.cvk_table.refresh i vk.prune_time.child_vk vk.children.cvks).1 in
      let w = set_cvks (P.cvk_table.modify i (write_service s a) t') vk in
      ground (
        arith,
        P.cvk_table.refresh-found i vk.prune_time.child_vk vk.children.cvks,
        P.cvk_table.load-refresh i j vk.prune_time.child_vk vk.children.cvks,
        P.cvk_table.load-modify i j (write_service s a)
            (P.cvk_table.refresh i vk.prune_time.child_vk vk.children.cvks).1,
        add_provider-SameElse s i a w,
        lookup-insert s t a c.services,
      )

  -- Is the ID a child's?
  abbrev pub is_child : ℕ → VaultKeeper P → Bool
  is_child i vk = is_some (load_leaf i vk) || is_some (load_cvk i vk)

  provider-add_leaf_service :
      (i j : ℕ) (s t : String) (a : AddrPort) (d : ℤ) (l : Leaf) (vk : VaultKeeper P)
      → provider t j (add_leaf_service i s a d l vk) ≡ provider t j vk
  unfolding provider add_leaf_service
  provider-add_leaf_service i j s t a d l vk = refl

  pub provider-set_cvks :
      (t : String) (j : ℕ) (x : P.cvk_table.Table) (vk : VaultKeeper P)
      → provider t j (set_cvks x vk) ≡ provider t j vk
  unfolding provider
  provider-set_cvks t j x vk = refl

  provider-add_cvk_service :
      (i j : ℕ) (s t : String) (a : AddrPort) (c : Cvk) (vk : VaultKeeper P)
      → load_cvk i vk ≡ some c
      → provider t j (add_cvk_service i s a vk).1
        ≡ (if s == t && i == j then some a else provider t j vk)
  unfolding add_cvk_service
  provider-add_cvk_service i j s t a c vk f =
      let t' = (P.cvk_table.refresh i vk.prune_time.child_vk vk.children.cvks).1 in
      let w = set_cvks (P.cvk_table.modify i (write_service s a) t') vk in
      ground (
        arith,
        P.cvk_table.refresh-found i vk.prune_time.child_vk vk.children.cvks,
        provider-add_provider s t i j a w,
        provider-set_cvks t j (P.cvk_table.modify i (write_service s a) t') vk,
      )

  -- `addService` for a leaf or a child VK succeeds. The child then offers the service at the
  -- address and is listed as its provider with that address, and nothing else is changed in the two
  -- views. For any other ID it fails, and changes nothing.
  pub add_service_views :
      (i : ℕ) (s : String) (a : AddrPort) (d : ℤ) (vk : VaultKeeper P) (t : String) (j : ℕ)
      → ((add_service i s a d vk).0 ≡ (if is_child i vk then none else some unknown_child_id))
        × (offers t j (add_service i s a d vk).1
            ≡ (if is_child i vk && (s == t && i == j) then some a else offers t j vk))
        × (provider t j (add_service i s a d vk).1
            ≡ (if is_child i vk && (s == t && i == j) then some a else provider t j vk))
  unfolding add_service
  add_service_views i s a d vk t j = elim (Option-cases (load_leaf i vk)) [
    | inr (l, e) ↦ ground (
      arith,
      offers-add_provider s t i j a (add_leaf_service i s a d l vk),
      offers-add_leaf_service i j s t a d l vk e,
      provider-add_provider s t i j a (add_leaf_service i s a d l vk),
      provider-add_leaf_service i j s t a d l vk,
    )
    | inl e ↦ elim (Option-cases (load_cvk i vk)) [
      | inl f ↦ ground arith
      | inr (c, f) ↦ ground (
        arith,
        offers-add_cvk_service i j s t a c vk e f,
        provider-add_cvk_service i j s t a c vk f,
      )
    ]
  ]
