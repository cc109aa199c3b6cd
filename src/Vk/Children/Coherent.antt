-- ===== src/Vk/Children/Coherent.antt =====
-- The invariant of the children, that the two views agree, and the operations that add to them.
-- Those that remove are in Leaving.
use orv.Base.{ℕ, ◌≡◌, inl, inr, arith, String, [], none, is_some, nat_eq, text_eq, Option-cases}
use orv.Base.Map.{insert, lookup-insert}
use orv.Base.Int.{ℤ}
use orv.Vk.State.{AddrPort, Platform, VaultKeeper}
use orv.Vk.Providers.Laws.{provider, NoneEmpty, add_provider-SameElse, add_provider-NoneEmpty}
use orv.Vk.Children.{
  load_cvk, load_leaf, set_cvks, add_cvk, install_leaf, add_leaf, add_leaf_service, stop_old_pruner,
  add_cvk_service, write_service, add_service,
}
use orv.Vk.Children.Views.{offers, Disjoint, offers-add_cvk, offers-add_leaf, add_service_views}

module _ {P : Platform} where
  -- No ID is a leaf's and a child VK's; each child is listed as a provider of exactly what it
  -- offers, at the same address; and each listed service has a provider.
  pub record Coherent (vk : VaultKeeper P) : Type 0 where
    pub disjoint : Disjoint vk
    pub agree : (t : String) (j : ℕ) → provider t j vk ≡ offers t j vk
    pub none_empty : NoneEmpty vk

  pub add_cvk-Disjoint :
      (i : ℕ) (a : AddrPort) (vk : VaultKeeper P) → Disjoint vk → Disjoint (add_cvk i a vk).1
  unfolding add_cvk
  add_cvk-Disjoint i a vk d j = ground (
    arith,
    d j,
    P.cvk_table.load-store i j (record { services = []; addr = a }) vk.prune_time.child_vk
        vk.children.cvks,
  )

  pub provider-add_cvk :
      (i : ℕ) (a : AddrPort) (vk : VaultKeeper P) (t : String) (j : ℕ)
      → provider t j (add_cvk i a vk).1 ≡ provider t j vk
  unfolding add_cvk provider
  provider-add_cvk i a vk t j = ground arith

  add_cvk-NoneEmpty :
      (i : ℕ) (a : AddrPort) (vk : VaultKeeper P) → NoneEmpty vk → NoneEmpty (add_cvk i a vk).1
  unfolding add_cvk
  add_cvk-NoneEmpty i a vk h t = ground (arith, h t)

  -- A child VK that is not known yet.
  pub add_cvk-Coherent :
      (i : ℕ) (a : AddrPort) (vk : VaultKeeper P)
      → load_cvk i vk ≡ none
      → Coherent vk
      → Coherent (add_cvk i a vk).1
  add_cvk-Coherent i a vk new c = record {
    disjoint = add_cvk-Disjoint i a vk c.disjoint;
    agree = λ t j.
        unfold offers in
        ground (arith, offers-add_cvk i j a t vk, provider-add_cvk i a vk t j, c.agree t j);
    none_empty = add_cvk-NoneEmpty i a vk c.none_empty;
  }

  pub add_leaf-Disjoint : (i : ℕ) (vk : VaultKeeper P) → Disjoint vk → Disjoint (add_leaf i vk).1
  unfolding add_leaf install_leaf
  add_leaf-Disjoint i vk d j = ground (
    arith,
    d j,
    lookup-insert i j (record { serviceless_pruner = vk.clock.next_timer; services = [] })
        vk.children.leaves,
  )

  pub provider-add_leaf :
      (i : ℕ) (vk : VaultKeeper P) (t : String) (j : ℕ)
      → provider t j (add_leaf i vk).1 ≡ provider t j vk
  unfolding add_leaf install_leaf provider
  provider-add_leaf i vk t j = ground arith

  add_leaf-NoneEmpty : (i : ℕ) (vk : VaultKeeper P) → NoneEmpty vk → NoneEmpty (add_leaf i vk).1
  unfolding add_leaf install_leaf
  add_leaf-NoneEmpty i vk h t = ground (arith, h t)

  pub add_leaf-Coherent : (i : ℕ) (vk : VaultKeeper P) → Coherent vk → Coherent (add_leaf i vk).1
  add_leaf-Coherent i vk c = record {
    disjoint = add_leaf-Disjoint i vk c.disjoint;
    agree =
        λ t j. ground (arith, offers-add_leaf i j t vk, provider-add_leaf i vk t j, c.agree t j);
    none_empty = add_leaf-NoneEmpty i vk c.none_empty;
  }

  -- `addService` keeps who is a leaf and who is a child VK.
  pub add_service_kinds :
      (i : ℕ) (s : String) (a : AddrPort) (d : ℤ) (vk : VaultKeeper P) (j : ℕ)
      → (is_some (load_leaf j (add_service i s a d vk).1) ≡ is_some (load_leaf j vk))
        × (is_some (load_cvk j (add_service i s a d vk).1) ≡ is_some (load_cvk j vk))
  unfolding add_service add_cvk_service
  add_service_kinds i s a d vk j =
      let t' = (P.cvk_table.refresh i vk.prune_time.child_vk vk.children.cvks).1 in
      let w = set_cvks (P.cvk_table.modify i (write_service s a) t') vk in
      elim (Option-cases (load_leaf i vk)) [
        | inr (l, e) ↦
            unfold add_leaf_service in
            ground (
              arith,
              add_provider-SameElse s i a (add_leaf_service i s a d l vk),
              lookup-insert i j
                  (record l {
                    services =
                        insert s
                          (record {
                            pruner = (stop_old_pruner s l vk.clock).next_timer;
                            stale = d;
                            addr = a;
                          })
                          l.services;
                  })
                  vk.children.leaves,
            )
        | inl e ↦ ground (
          arith,
          add_provider-SameElse s i a w,
          P.cvk_table.load-refresh i j vk.prune_time.child_vk vk.children.cvks,
          P.cvk_table.load-modify i j (write_service s a) t',
        )
      ]

  add_service-NoneEmpty :
      (i : ℕ) (s : String) (a : AddrPort) (d : ℤ) (vk : VaultKeeper P)
      → NoneEmpty vk
      → NoneEmpty (add_service i s a d vk).1
  unfolding add_service add_cvk_service
  add_service-NoneEmpty i s a d vk h t =
      let t' = (P.cvk_table.refresh i vk.prune_time.child_vk vk.children.cvks).1 in
      let w = set_cvks (P.cvk_table.modify i (write_service s a) t') vk in
      elim (Option-cases (load_leaf i vk)) [
        | inr (l, e) ↦
            unfold add_leaf_service in
            ground (arith, add_provider-NoneEmpty s i a (add_leaf_service i s a d l vk) h t)
        | inl e ↦ ground (arith, h t, add_provider-NoneEmpty s i a w h t)
      ]

  pub add_service-Coherent :
      (i : ℕ) (s : String) (a : AddrPort) (d : ℤ) (vk : VaultKeeper P)
      → Coherent vk
      → Coherent (add_service i s a d vk).1
  add_service-Coherent i s a d vk c = record {
    disjoint = λ j. ground (arith, c.disjoint j, add_service_kinds i s a d vk j);
    agree = λ t j. ground (arith, add_service_views i s a d vk t j, c.agree t j);
    none_empty = add_service-NoneEmpty i s a d vk c.none_empty;
  }
