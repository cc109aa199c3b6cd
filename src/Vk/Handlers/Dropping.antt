-- ===== src/Vk/Handlers/Dropping.antt =====
-- What the removal of a child by `drop_child` does.
use orv.Base.{ℕ, ◌≡◌, arith, true, false, nat_eq, String, none, is_some, Option-cases, inl, inr}
use orv.Base.Map.{keys, lookup-remove, beq_refl}
use orv.Vk.State.{Platform, VaultKeeper}
use orv.Vk.Providers.Laws.{provider}
use orv.Vk.Providers.Laws.{remove_providers-SameElse}
use orv.Vk.Children.Removal.{remove_cvk_views, remove_leaf_views}
use orv.Vk.Children.Leaving.{remove_cvk_miss, remove_leaf_miss, no_cvk_of_leaf, without_leaf}
use orv.Vk.Children.{load_cvk, load_leaf, set_cvks, remove_cvk, remove_leaf}
use orv.Vk.Children.Views.{offers, is_child}
use orv.Vk.Children.Coherent.{Coherent}
use orv.Vk.Handlers.Joining.{drop_child}

module _ {P : Platform} where
  -- The kinds of the child that is removed.
  remove_cvk-gone :
      (i : ℕ) (vk : VaultKeeper P) → load_leaf i vk ≡ none → is_child i (remove_cvk i vk).1 ≡ false
  unfolding remove_cvk
  remove_cvk-gone i vk e = elim (Option-cases (load_cvk i vk)) [
    | inl f ↦ ground arith
    | inr (c, f) ↦
        let t = (P.cvk_table.delete i vk.children.cvks).1 in
        ground (
          arith,
          beq_refl i,
          P.cvk_table.load-delete i i vk.children.cvks,
          remove_providers-SameElse (keys c.services) i (set_cvks t vk),
        )
  ]

  remove_leaf-gone :
      (i : ℕ) (vk : VaultKeeper P) → load_cvk i vk ≡ none → is_child i (remove_leaf i vk).1 ≡ false
  unfolding remove_leaf
  remove_leaf-gone i vk e = elim (Option-cases (load_leaf i vk)) [
    | inl f ↦ ground arith
    | inr (l, f) ↦ ground (
      arith,
      beq_refl i,
      lookup-remove i i vk.children.leaves,
      remove_providers-SameElse (keys l.services) i (without_leaf i l vk),
    )
  ]

  drop_cvk_lem :
      (i : ℕ) (vk : VaultKeeper P) (t : String)
      → Coherent vk
      → load_leaf i vk ≡ none
      → ((drop_child i vk).0 ≡ is_child i vk)
        × (is_child i (drop_child i vk).1 ≡ false)
        × (provider t i (drop_child i vk).1 ≡ none)
  unfolding drop_child
  drop_cvk_lem i vk t c e = elim (Option-cases (load_cvk i vk)) [
    | inr (x, f) ↦
        ground (arith, beq_refl i, remove_cvk_views i vk t i e, remove_cvk-gone i vk e, c.agree t i)
    | inl f ↦
        unfold offers in
        ground (arith, remove_cvk_miss i vk f, remove_leaf_miss i vk e, c.agree t i)
  ]

  drop_leaf_lem :
      (i : ℕ) (vk : VaultKeeper P) (t : String)
      → Coherent vk
      → load_cvk i vk ≡ none
      → is_some (load_leaf i vk) ≡ true
      → ((drop_child i vk).0 ≡ is_child i vk)
        × (is_child i (drop_child i vk).1 ≡ false)
        × (provider t i (drop_child i vk).1 ≡ none)
  unfolding drop_child
  drop_leaf_lem i vk t c f g = ground (
    arith,
    beq_refl i,
    remove_cvk_miss i vk f,
    remove_leaf_views i vk t i f,
    remove_leaf-gone i vk f,
    c.agree t i,
  )

  pub drop_child_lem :
      (i : ℕ) (vk : VaultKeeper P) (t : String)
      → Coherent vk
      → ((drop_child i vk).0 ≡ is_child i vk)
        × (is_child i (drop_child i vk).1 ≡ false)
        × (provider t i (drop_child i vk).1 ≡ none)
  drop_child_lem i vk t c = elim (Option-cases (load_leaf i vk)) [
    | inl e ↦ drop_cvk_lem i vk t c e
    | inr (l, e) ↦ drop_leaf_lem i vk t c (no_cvk_of_leaf i l vk c.disjoint e) (ground arith)
  ]

  pub drop_child-id :
      (i : ℕ) (vk : VaultKeeper P)
      → ((drop_child i vk).1.id ≡ vk.id) × ((drop_child i vk).1.version_set ≡ vk.version_set)
  unfolding drop_child remove_cvk remove_leaf
  drop_child-id i vk = elim (Option-cases (load_cvk i vk)) [
    | inl e ↦ elim (Option-cases (load_leaf i vk)) [
      | inl f ↦ ground arith
      | inr (l, f) ↦
          ground (arith, remove_providers-SameElse (keys l.services) i (without_leaf i l vk))
    ]
    | inr (c, e) ↦
        let t = (P.cvk_table.delete i vk.children.cvks).1 in
        ground (
          arith,
          P.cvk_table.delete-found i vk.children.cvks,
          remove_providers-SameElse (keys c.services) i (set_cvks t vk),
        )
  ]

  pub drop_child_miss :
      (i : ℕ) (vk : VaultKeeper P) → is_child i vk ≡ false → (drop_child i vk).1 ≡ vk
  unfolding drop_child
  drop_child_miss i vk e = ground (arith, e, remove_cvk_miss i vk, remove_leaf_miss i vk)
