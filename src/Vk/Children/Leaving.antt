-- ===== src/Vk/Children/Leaving.antt =====
-- The invariant of the children under the operations that remove: of a child, of a service of a
-- leaf, and of a leaf that has no services.
use orv.Base.{
  ℕ, ◌≡◌, ◌⊎◌, inl, inr, arith, false, String, none, some, nat_eq, text_eq, Option-cases,
}
use orv.Base.Map.{remove, lookup-insert, lookup-remove, keys, values}
use orv.Vk.State.{Leaf, Platform, VaultKeeper}
use orv.Vk.Providers.{remove_provider}
use orv.Vk.Providers.Laws.{
  NoneEmpty, remove_provider-SameElse, remove_provider-NoneEmpty, remove_providers-SameElse,
  remove_providers-NoneEmpty,
}
use orv.Vk.Children.{
  load_cvk, load_leaf, set_cvks, set_leaves, set_clock, stop_pruners, remove_cvk, remove_leaf,
  drop_leaf_service, prune_service_from_leaf, prune_serviceless_leaf,
}
use orv.Vk.Children.Views.{Disjoint}
use orv.Vk.Children.Removal.{
  remove_cvk_views, remove_leaf_views, prune_service_from_leaf_views, prune_serviceless_leaf_views,
}
use orv.Vk.Timers.{stop}
use orv.Vk.Children.Coherent.{Coherent}

module _ {P : Platform} where
  -- `removeProvider` alone breaks the agreement at one place; the loop over the services of a child
  -- follows its removal.
  pub remove_cvk-Disjoint :
      (i : ℕ) (vk : VaultKeeper P) → Disjoint vk → Disjoint (remove_cvk i vk).1
  unfolding remove_cvk
  remove_cvk-Disjoint i vk d j = elim (Option-cases (load_cvk i vk)) [
    | inl e ↦ ground (arith, d j)
    | inr (c, e) ↦ ground (
      arith,
      d j,
      P.cvk_table.load-delete i j vk.children.cvks,
      remove_providers-SameElse (keys c.services) i
          (set_cvks (P.cvk_table.delete i vk.children.cvks).1 vk),
    )
  ]

  remove_cvk-NoneEmpty : (i : ℕ) (vk : VaultKeeper P) → NoneEmpty vk → NoneEmpty (remove_cvk i vk).1
  unfolding remove_cvk
  remove_cvk-NoneEmpty i vk h t = elim (Option-cases (load_cvk i vk)) [
    | inl e ↦ ground (arith, h t)
    | inr (c, e) ↦ ground (
      arith,
      remove_providers-NoneEmpty (keys c.services) i
          (set_cvks (P.cvk_table.delete i vk.children.cvks).1 vk) h t,
    )
  ]

  pub remove_cvk_miss :
      (i : ℕ) (vk : VaultKeeper P) → load_cvk i vk ≡ none → remove_cvk i vk ≡ (false, vk)
  unfolding remove_cvk
  remove_cvk_miss i vk e = ground arith

  pub no_cvk_of_leaf :
      (i : ℕ) (l : Leaf) (vk : VaultKeeper P)
      → Disjoint vk
      → load_leaf i vk ≡ some l
      → load_cvk i vk ≡ none
  no_cvk_of_leaf i l vk d e = ground (arith, d i)

  pub remove_cvk-Coherent :
      (i : ℕ) (vk : VaultKeeper P) → Coherent vk → Coherent (remove_cvk i vk).1
  remove_cvk-Coherent i vk c = elim (Option-cases (load_leaf i vk)) [
    | inl e ↦ record {
      disjoint = remove_cvk-Disjoint i vk c.disjoint;
      agree = λ t j. ground (arith, remove_cvk_views i vk t j e, c.agree t j, c.agree t i);
      none_empty = remove_cvk-NoneEmpty i vk c.none_empty;
    }
    | inr (l, e) ↦ rw (remove_cvk_miss i vk (no_cvk_of_leaf i l vk c.disjoint e)) c
  ]

  -- The state of `RemoveLeaf` before the loop over its services.
  abbrev pub without_leaf : ℕ → Leaf → VaultKeeper P → VaultKeeper P
  without_leaf i l vk =
      set_clock (stop_pruners (values l.services) (stop l.serviceless_pruner vk.clock).1)
        (set_leaves (remove i vk.children.leaves) vk)

  pub remove_leaf-Disjoint :
      (i : ℕ) (vk : VaultKeeper P) → Disjoint vk → Disjoint (remove_leaf i vk).1
  unfolding remove_leaf
  remove_leaf-Disjoint i vk d j = elim (Option-cases (load_leaf i vk)) [
    | inl e ↦ ground (arith, d j)
    | inr (l, e) ↦ ground (
      arith,
      d j,
      lookup-remove i j vk.children.leaves,
      remove_providers-SameElse (keys l.services) i (without_leaf i l vk),
    )
  ]

  remove_leaf-NoneEmpty :
      (i : ℕ) (vk : VaultKeeper P) → NoneEmpty vk → NoneEmpty (remove_leaf i vk).1
  unfolding remove_leaf
  remove_leaf-NoneEmpty i vk h t = elim (Option-cases (load_leaf i vk)) [
    | inl e ↦ ground (arith, h t)
    | inr (l, e) ↦
        ground (arith, remove_providers-NoneEmpty (keys l.services) i (without_leaf i l vk) h t)
  ]

  pub remove_leaf_miss :
      (i : ℕ) (vk : VaultKeeper P) → load_leaf i vk ≡ none → remove_leaf i vk ≡ (false, vk)
  unfolding remove_leaf
  remove_leaf_miss i vk e = ground arith

  pub remove_leaf-Coherent :
      (i : ℕ) (vk : VaultKeeper P) → Coherent vk → Coherent (remove_leaf i vk).1
  remove_leaf-Coherent i vk c = elim (Option-cases (load_leaf i vk)) [
    | inl e ↦ rw (remove_leaf_miss i vk e) c
    | inr (l, e) ↦
        let n = no_cvk_of_leaf i l vk c.disjoint e in
        record {
          disjoint = remove_leaf-Disjoint i vk c.disjoint;
          agree = λ t j. ground (arith, remove_leaf_views i vk t j n, c.agree t j, c.agree t i);
          none_empty = remove_leaf-NoneEmpty i vk c.none_empty;
        }
  ]

  pub prune_service-Disjoint :
      (i : ℕ) (s : String) (vk : VaultKeeper P)
      → Disjoint vk
      → Disjoint (prune_service_from_leaf i s vk)
  unfolding prune_service_from_leaf drop_leaf_service
  prune_service-Disjoint i s vk d j =
      let w = (remove_provider s i vk).1 in
      elim (Option-cases (load_leaf i w)) [
        | inl e ↦ ground (arith, d j, remove_provider-SameElse s i vk)
        | inr (l, e) ↦ ground (
          arith,
          d j,
          remove_provider-SameElse s i vk,
          lookup-insert i j (record l { services = remove s l.services }) w.children.leaves,
        )
      ]

  prune_service-NoneEmpty :
      (i : ℕ) (s : String) (vk : VaultKeeper P)
      → NoneEmpty vk
      → NoneEmpty (prune_service_from_leaf i s vk)
  unfolding prune_service_from_leaf drop_leaf_service
  prune_service-NoneEmpty i s vk h t = ground (arith, remove_provider-NoneEmpty s i vk h t)

  -- The timer of a service, where its ID is no child VK's.
  pub prune_service_from_leaf-Coherent :
      (i : ℕ) (s : String) (vk : VaultKeeper P)
      → load_cvk i vk ≡ none
      → Coherent vk
      → Coherent (prune_service_from_leaf i s vk)
  prune_service_from_leaf-Coherent i s vk n c = record {
    disjoint = prune_service-Disjoint i s vk c.disjoint;
    agree = λ t j. ground (arith, prune_service_from_leaf_views i s vk t j n, c.agree t j);
    none_empty = prune_service-NoneEmpty i s vk c.none_empty;
  }

  pub prune_leaf-Disjoint :
      (i : ℕ) (vk : VaultKeeper P) → Disjoint vk → Disjoint (prune_serviceless_leaf i vk)
  unfolding prune_serviceless_leaf
  prune_leaf-Disjoint i vk d j = ground (arith, d j, lookup-remove i j vk.children.leaves)

  prune_leaf-NoneEmpty :
      (i : ℕ) (vk : VaultKeeper P) → NoneEmpty vk → NoneEmpty (prune_serviceless_leaf i vk)
  unfolding prune_serviceless_leaf
  prune_leaf-NoneEmpty i vk h t = ground (arith, h t)

  pub one_kind :
      (i : ℕ) (vk : VaultKeeper P) → Disjoint vk → (load_cvk i vk ≡ none) ⊎ (load_leaf i vk ≡ none)
  one_kind i vk d = ground (arith, d i)

  pub prune_serviceless_leaf-Coherent :
      (i : ℕ) (vk : VaultKeeper P) → Coherent vk → Coherent (prune_serviceless_leaf i vk)
  prune_serviceless_leaf-Coherent i vk c = record {
    disjoint = prune_leaf-Disjoint i vk c.disjoint;
    agree = λ t j.
        ground
          (arith, prune_serviceless_leaf_views i vk t j (one_kind i vk c.disjoint), c.agree t j);
    none_empty = prune_leaf-NoneEmpty i vk c.none_empty;
  }
