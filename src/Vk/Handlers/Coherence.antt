-- ===== src/Vk/Handlers/Coherence.antt =====
-- What joining and leaving make of the children: those of one of a few states. And that coherence is
-- about the children alone.
use orv.Base.{ℕ, ◌≡◌, ◌⊎◌, inl, inr, refl, arith, none, some, nat_eq}
use orv.Vk.State.{AddrPort, JoinBody, Wire, Platform, VaultKeeper}
use orv.Vk.Providers.Laws.{provider}
use orv.Vk.Children.{load_cvk, set_cvks, add_cvk, add_leaf, remove_cvk, remove_leaf}
use orv.Vk.Children.Views.{offers}
use orv.Vk.Children.Coherent.{Coherent, add_leaf-Coherent}
use orv.Vk.Handlers.Joining.{take_hello, install_cvk, join_cvk, join_leaf, drop_child}

module _ {P : Platform} where
  -- Coherence is about the children alone, and about what the table of child VKs loads.
  abbrev pub SameChildren : VaultKeeper P → VaultKeeper P → Type 0
  SameChildren v w =
      (w.children.leaves ≡ v.children.leaves)
      × (w.children.all_services ≡ v.children.all_services)
      × ((j : ℕ) → load_cvk j w ≡ load_cvk j v)

  Coherent-transfer : (v w : VaultKeeper P) → SameChildren v w → Coherent v → Coherent w
  Coherent-transfer v w s c = record {
    disjoint = λ j. ground (arith, s.2 j, c.disjoint j);
    agree = λ t j. unfold provider offers in ground (arith, s.2 j, c.agree t j);
    none_empty = λ t. ground (arith, c.none_empty t);
  }

  pub Coherent-children : (v w : VaultKeeper P) → w.children ≡ v.children → Coherent v → Coherent w
  Coherent-children v w e = Coherent-transfer v w (ground arith, ground arith, λ j. ground arith)

  -- Starting the time of a child VK anew.
  pub refresh-Coherent :
      (i : ℕ) (vk : VaultKeeper P)
      → Coherent vk
      → Coherent (set_cvks (P.cvk_table.refresh i vk.prune_time.child_vk vk.children.cvks).1 vk)
  refresh-Coherent i vk =
      Coherent-transfer vk
        (set_cvks (P.cvk_table.refresh i vk.prune_time.child_vk vk.children.cvks).1 vk)
        (refl, refl, λ j. P.cvk_table.load-refresh i j vk.prune_time.child_vk vk.children.cvks)

  pub drop_child-children :
      (id : ℕ) (vk : VaultKeeper P)
      → ((drop_child id vk).1.children ≡ (remove_cvk id vk).1.children)
        ⊎ ((drop_child id vk).1.children ≡ (remove_leaf id (remove_cvk id vk).1).1.children)
  unfolding drop_child
  drop_child-children id vk = ground arith

  -- What a JOIN of a child VK leaves, at the state whose time was started anew.
  pub install_cvk-children :
      (i : ℕ) (a : AddrPort) (vk : VaultKeeper P)
      → ((install_cvk i a vk).0.children ≡ vk.children)
        ⊎ ((install_cvk i a vk).0.children ≡ (add_cvk i a vk).1.children)
  unfolding install_cvk take_hello add_cvk
  install_cvk-children i a vk = ground arith

  pub join_leaf-children :
      (i : ℕ) (vk : VaultKeeper P)
      → ((join_leaf i vk).0.children ≡ vk.children)
        ⊎ ((join_leaf i vk).0.children ≡ (add_leaf i vk).1.children)
  unfolding join_leaf take_hello
  join_leaf-children i vk = unfold add_leaf in ground arith

  pub join_leaf-Coherent : (i : ℕ) (vk : VaultKeeper P) → Coherent vk → Coherent (join_leaf i vk).0
  join_leaf-Coherent i vk c = elim (join_leaf-children i vk) [
    | inl e ↦ Coherent-children vk (join_leaf i vk).0 e c
    | inr e ↦ Coherent-children (add_leaf i vk).1 (join_leaf i vk).0 e (add_leaf-Coherent i vk c)
  ]

  -- The state of `join_cvk` once the time of the child was started anew.
  abbrev pub refreshed : ℕ → VaultKeeper P → VaultKeeper P
  refreshed i vk = set_cvks (P.cvk_table.refresh i vk.prune_time.child_vk vk.children.cvks).1 vk

  pub join_cvk-children :
      (w : Wire) (j : JoinBody) (i : ℕ) (vk : VaultKeeper P) (a : AddrPort)
      → w.parse_addr_port j.vk_addr ≡ some a
      → ((join_cvk w j i vk).0.children ≡ vk.children)
        ⊎ ((join_cvk w j i vk).0.children ≡ (refreshed i vk).children)
        ⊎ (((join_cvk w j i vk).0.children ≡ (install_cvk i a (refreshed i vk)).0.children)
            × (load_cvk i (refreshed i vk) ≡ none))
  unfolding join_cvk
  join_cvk-children w j i vk a e = ground (
    arith,
    P.cvk_table.refresh-found i vk.prune_time.child_vk vk.children.cvks,
    P.cvk_table.load-refresh i i vk.prune_time.child_vk vk.children.cvks,
  )

  pub join_cvk_bad_address :
      (w : Wire) (j : JoinBody) (i : ℕ) (vk : VaultKeeper P)
      → w.parse_addr_port j.vk_addr ≡ none
      → (join_cvk w j i vk).0.children ≡ vk.children
  unfolding join_cvk
  join_cvk_bad_address w j i vk e = ground arith
