-- ===== src/Vk/Children/Removal.antt =====
-- How removing a child, a service of a leaf, or a leaf without services changes the two views.
use orv.Base.{
  ℕ, ◌≡◌, ◌⊎◌, inl, inr, refl, arith, ◌&&◌, String, [], ◌∷◌, none, some, is_some, nat_eq, text_eq,
  ◌==◌, if◌then◌else◌, Option-cases,
}
use orv.Base.Map.{Map, lookup, remove, lookup-insert, lookup-remove, is_empty-lookup, keys, values}
use orv.Vk.State.{Leaf, Platform, VaultKeeper, Timers}
use orv.Vk.Timers.{stop}
use orv.Vk.Providers.{remove_provider}
use orv.Vk.Providers.Laws.{
  provider, remove_provider-SameElse, remove_providers-SameElse, among, provider-remove_provider,
  provider-remove_providers,
}
use orv.Vk.Children.{
  load_cvk, load_leaf, set_cvks, set_leaves, set_clock, stop_pruners, remove_cvk, remove_leaf,
  drop_leaf_service, prune_service_from_leaf, prune_serviceless_leaf, expire_cvk,
}
use orv.Vk.Children.Views.{offers, offers-remove_provider, provider-set_cvks}

-- The keys that a `range` visits are those that a lookup finds.
pub among-keys :
    {V : Type 0} (t : String) (m : Map String V) → among t (keys m) ≡ is_some (lookup t m)
unfolding lookup
among-keys t [] = refl
among-keys t ((s, v) ∷ m) = ground (arith, among-keys t m)

module _ {P : Platform} where
  -- `RemoveCVK` of an ID that is no leaf's: it says whether there was such a child VK, which then
  -- offers nothing, and is off the list of each service that it offered.
  pub remove_cvk_views :
      (i : ℕ) (vk : VaultKeeper P) (t : String) (j : ℕ)
      → load_leaf i vk ≡ none
      → ((remove_cvk i vk).0 ≡ is_some (load_cvk i vk))
        × (offers t j (remove_cvk i vk).1 ≡ (if i == j then none else offers t j vk))
        × (provider t j (remove_cvk i vk).1
            ≡ (if is_some (offers t i vk) && i == j then none else provider t j vk))
  unfolding remove_cvk
  remove_cvk_views i vk t j n = elim (Option-cases (load_cvk i vk)) [
    | inl e ↦ unfold offers in ground arith
    | inr (c, e) ↦
        let x = (P.cvk_table.delete i vk.children.cvks).1 in
        unfold offers in
        ground (
          arith,
          P.cvk_table.delete-found i vk.children.cvks,
          P.cvk_table.load-delete i j vk.children.cvks,
          remove_providers-SameElse (keys c.services) i (set_cvks x vk),
          provider-remove_providers (keys c.services) t i j (set_cvks x vk),
          provider-set_cvks t j x vk,
          among-keys t c.services,
        )
  ]

  provider-frame :
      (t : String) (j : ℕ) (x : Timers) (m : Map ℕ Leaf) (vk : VaultKeeper P)
      → provider t j (set_clock x (set_leaves m vk)) ≡ provider t j vk
  unfolding provider
  provider-frame t j x m vk = refl

  -- `RemoveLeaf` of an ID that is no child VK's: it says whether there was such a leaf, which then
  -- offers nothing, and is off the list of each service that it offered.
  pub remove_leaf_views :
      (i : ℕ) (vk : VaultKeeper P) (t : String) (j : ℕ)
      → load_cvk i vk ≡ none
      → ((remove_leaf i vk).0 ≡ is_some (load_leaf i vk))
        × (offers t j (remove_leaf i vk).1 ≡ (if i == j then none else offers t j vk))
        × (provider t j (remove_leaf i vk).1
            ≡ (if is_some (offers t i vk) && i == j then none else provider t j vk))
  unfolding remove_leaf
  remove_leaf_views i vk t j n = elim (Option-cases (load_leaf i vk)) [
    | inl e ↦ unfold offers in ground arith
    | inr (l, e) ↦
        let x = stop_pruners (values l.services) (stop l.serviceless_pruner vk.clock).1 in
        let w = set_clock x (set_leaves (remove i vk.children.leaves) vk) in
        unfold offers in
        ground (
          arith,
          lookup-remove i j vk.children.leaves,
          remove_providers-SameElse (keys l.services) i w,
          provider-remove_providers (keys l.services) t i j w,
          provider-frame t j x (remove i vk.children.leaves) vk,
          among-keys t l.services,
        )
  ]

  drop_leaf_service_views :
      (i : ℕ) (s : String) (l : Leaf) (vk : VaultKeeper P) (t : String) (j : ℕ)
      → load_leaf i vk ≡ some l
      → (offers t j (drop_leaf_service i s l vk)
          ≡ (if s == t && i == j then none else offers t j vk))
        × (provider t j (drop_leaf_service i s l vk) ≡ provider t j vk)
  unfolding drop_leaf_service offers provider
  drop_leaf_service_views i s l vk t j e = ground (
    arith,
    text_eq.beq_iff s t,
    lookup-insert i j (record l { services = remove s l.services }) vk.children.leaves,
    lookup-remove s t l.services,
  )

  -- What the timer of a service of a leaf runs, where its ID is no child VK's: both views lose the
  -- service of that leaf, and nothing else.
  pub prune_service_from_leaf_views :
      (i : ℕ) (s : String) (vk : VaultKeeper P) (t : String) (j : ℕ)
      → load_cvk i vk ≡ none
      → (offers t j (prune_service_from_leaf i s vk)
          ≡ (if s == t && i == j then none else offers t j vk))
        × (provider t j (prune_service_from_leaf i s vk)
            ≡ (if s == t && i == j then none else provider t j vk))
  unfolding prune_service_from_leaf
  prune_service_from_leaf_views i s vk t j n =
      let w = (remove_provider s i vk).1 in
      elim (Option-cases (load_leaf i w)) [
        | inl e ↦
            unfold offers in
            ground (arith, provider-remove_provider s t i j vk, remove_provider-SameElse s i vk)
        | inr (l, e) ↦ ground (
          arith,
          provider-remove_provider s t i j vk,
          offers-remove_provider s t i j vk,
          drop_leaf_service_views i s l w t j,
        )
      ]

  -- The timer of a leaf removes it only if it has no services, and so changes neither view.
  pub prune_serviceless_leaf_views :
      (i : ℕ) (vk : VaultKeeper P) (t : String) (j : ℕ)
      → load_cvk i vk ≡ none ⊎ load_leaf i vk ≡ none
      → (offers t j (prune_serviceless_leaf i vk) ≡ offers t j vk)
        × (provider t j (prune_serviceless_leaf i vk) ≡ provider t j vk)
  unfolding prune_serviceless_leaf offers provider
  prune_serviceless_leaf_views i vk t j n = elim (Option-cases (load_leaf i vk)) [
    | inl e ↦ ground arith
    | inr (l, e) ↦
        ground (arith, lookup-remove i j vk.children.leaves, is_empty-lookup l.services t)
  ]

  -- A child VK whose time has run out, and whose ID is no leaf's, offers nothing from then on, and is
  -- listed as before.
  pub expire_cvk_views :
      (i : ℕ) (vk : VaultKeeper P) (t : String) (j : ℕ)
      → load_leaf i vk ≡ none
      → (offers t j (expire_cvk i vk) ≡ (if i == j then none else offers t j vk))
        × (provider t j (expire_cvk i vk) ≡ provider t j vk)
  unfolding expire_cvk offers provider
  expire_cvk_views i vk t j n = ground (arith, P.cvk_table.load-expire i j vk.children.cvks)
