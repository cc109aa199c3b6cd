-- ===== src/Vk/Handlers/Forgetting.antt =====
-- DEREGISTER: both views of the children lose the service.
use orv.Base.{
  ℕ, ◌≡◌, ◌⊎◌, inl, inr, arith, ◌&&◌, String, none, is_some, nat_eq, text_eq, ◌==◌, if◌then◌else◌,
  Option-cases,
}
use orv.Base.Map.{remove, lookup-insert, lookup-remove}
use orv.Vk.State.{Platform, VaultKeeper}
use orv.Vk.Providers.{remove_provider}
use orv.Vk.Providers.Laws.{
  provider, NoneEmpty, remove_provider-SameElse, provider-remove_provider,
  remove_provider-NoneEmpty,
}
use orv.Vk.Children.{load_cvk, load_leaf}
use orv.Vk.Children.Views.{offers, Disjoint, offers-remove_provider}
use orv.Vk.Children.Coherent.{Coherent}
use orv.Vk.Handlers.Services.{erase_service, forget_service}

module _ {P : Platform} where
  forget_service-kinds :
      (i : ℕ) (s : String) (vk : VaultKeeper P) (j : ℕ)
      → (is_some (load_cvk j (forget_service i s vk)) ≡ is_some (load_cvk j vk))
        × (is_some (load_leaf j (forget_service i s vk)) ≡ is_some (load_leaf j vk))
  unfolding forget_service
  forget_service-kinds i s vk j = elim (Option-cases (load_leaf i vk)) [
    | inl e ↦ ground (arith, P.cvk_table.load-modify i j (erase_service s) vk.children.cvks)
    | inr (l, e) ↦ ground (
      arith,
      P.cvk_table.load-modify i j (erase_service s) vk.children.cvks,
      lookup-insert i j (record l { services = remove s l.services }) vk.children.leaves,
    )
  ]

  forget_service-all_services :
      (i : ℕ) (s : String) (vk : VaultKeeper P)
      → (forget_service i s vk).children.all_services ≡ vk.children.all_services
  unfolding forget_service
  forget_service-all_services i s vk = ground arith

  provider-forget_service :
      (i : ℕ) (s : String) (vk : VaultKeeper P) (t : String) (j : ℕ)
      → provider t j (forget_service i s vk) ≡ provider t j vk
  unfolding provider
  provider-forget_service i s vk t j = ground (arith, forget_service-all_services i s vk)

  offers-forget_service :
      (i : ℕ) (s : String) (vk : VaultKeeper P) (t : String) (j : ℕ)
      → (load_cvk i vk ≡ none) ⊎ (load_leaf i vk ≡ none)
      → offers t j (forget_service i s vk) ≡ (if s == t && i == j then none else offers t j vk)
  unfolding offers forget_service
  offers-forget_service i s vk t j n = elim (Option-cases (load_cvk i vk)) [
    | inr (c, e) ↦ ground (
      arith,
      P.cvk_table.load-modify i j (erase_service s) vk.children.cvks,
      lookup-remove s t c.services,
      text_eq.beq_iff s t,
    )
    | inl e ↦ elim (Option-cases (load_leaf i vk)) [
      | inl f ↦ ground (arith, text_eq.beq_iff s t)
      | inr (l, f) ↦ ground (
        arith,
        lookup-insert i j (record l { services = remove s l.services }) vk.children.leaves,
        lookup-remove s t l.services,
        text_eq.beq_iff s t,
      )
    ]
  ]

  one_kind :
      (i : ℕ) (s : String) (vk : VaultKeeper P)
      → Disjoint vk
      → (load_cvk i (remove_provider s i vk).1 ≡ none)
        ⊎ (load_leaf i (remove_provider s i vk).1 ≡ none)
  one_kind i s vk d = ground (arith, d i, remove_provider-SameElse s i vk)

  -- A provider deregisters a service: it is off the list of the service, and the service leaves its
  -- own record.
  abbrev pub deregistered : ℕ → String → VaultKeeper P → VaultKeeper P
  deregistered i s vk = forget_service i s (remove_provider s i vk).1

  -- Where no ID is a leaf's and a child VK's, what DEREGISTER does for a child and a service takes the
  -- service of that child out of both views, and changes nothing else in them.
  pub deregistered-views :
      (i : ℕ) (s : String) (vk : VaultKeeper P) (t : String) (j : ℕ)
      → Disjoint vk
      → (offers t j (deregistered i s vk) ≡ (if s == t && i == j then none else offers t j vk))
        × (provider t j (deregistered i s vk)
            ≡ (if s == t && i == j then none else provider t j vk))
  deregistered-views i s vk t j d =
      let w = (remove_provider s i vk).1 in
      ground (
        arith,
        offers-forget_service i s w t j (one_kind i s vk d),
        provider-forget_service i s w t j,
        offers-remove_provider s t i j vk,
        provider-remove_provider s t i j vk,
      )

  pub deregistered-Disjoint :
      (i : ℕ) (s : String) (vk : VaultKeeper P) → Disjoint vk → Disjoint (deregistered i s vk)
  deregistered-Disjoint i s vk d j = ground (
    arith,
    d j,
    remove_provider-SameElse s i vk,
    forget_service-kinds i s (remove_provider s i vk).1 j,
  )

  deregistered-NoneEmpty :
      (i : ℕ) (s : String) (vk : VaultKeeper P) → NoneEmpty vk → NoneEmpty (deregistered i s vk)
  deregistered-NoneEmpty i s vk h t = ground (
    arith,
    remove_provider-NoneEmpty s i vk h t,
    forget_service-all_services i s (remove_provider s i vk).1,
  )

  pub deregistered-Coherent :
      (i : ℕ) (s : String) (vk : VaultKeeper P) → Coherent vk → Coherent (deregistered i s vk)
  deregistered-Coherent i s vk c = record {
    disjoint = deregistered-Disjoint i s vk c.disjoint;
    agree = λ t j. ground (arith, deregistered-views i s vk t j c.disjoint, c.agree t j);
    none_empty = deregistered-NoneEmpty i s vk c.none_empty;
  }
