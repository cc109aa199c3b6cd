-- ===== src/Vk/Interleaved/Listed.antt =====
-- The invariant of the children that holds between the end of a child VK's time and its clean-up.
use orv.Base.{
  ℕ, ◌≡◌, ◌⊎◌, inl, inr, arith, Bool, true, false, ◌&&◌, ◌||◌, String, List, [], ◌∷◌, none, is_some,
  nat_eq, text_eq, ◌==◌, Option-cases,
}
use orv.Base.Int.{ℤ}
use orv.Base.Map.{lookup}
use orv.Vk.State.{AddrPort, Callback, prune_service, prune_leaf, cleanup_cvk, Platform, VaultKeeper}
use orv.Vk.Providers.Laws.{provider}
use orv.Vk.Children.{load_cvk, load_leaf, add_cvk, add_leaf, add_service, remove_cvk, remove_leaf}
use orv.Vk.Children.Views.{offers, Disjoint, offers-add_cvk, offers-add_leaf, add_service_views}
use orv.Vk.Children.Removal.{remove_cvk_views, remove_leaf_views}
use orv.Vk.Children.Coherent.{
  add_cvk-Disjoint, provider-add_cvk, add_leaf-Disjoint, provider-add_leaf, add_service_kinds,
}
use orv.Vk.Children.Leaving.{
  remove_cvk_miss, remove_leaf_miss, no_cvk_of_leaf, remove_cvk-Disjoint, remove_leaf-Disjoint,
}
use orv.Vk.Children.Waiting.{
  waiting, add_cvk-waiting, add_leaf-waiting, add_service-waiting, remove_cvk-waiting,
  remove_leaf-waiting,
}
use orv.Vk.Handlers.Coherence.{refreshed}
use orv.Vk.Handlers.Forgetting.{deregistered, deregistered-views, deregistered-Disjoint}
use orv.Vk.Handlers.Invariants.{ChildrenInvariant}
use orv.Vk.Handlers.Waiting.{deregistered-waiting}

-- The clean-up of a child VK that offered the service.
abbrev pub cleans : String → ℕ → Callback → Bool
cleans t j (prune_service i s) = false
cleans t j (prune_leaf i) = false
cleans t j (cleanup_cvk i services) = i == j && is_some (lookup t services)

abbrev pub awaits : String → ℕ → List Callback → Bool
awaits t j [] = false
awaits t j (f ∷ fs) = cleans t j f || awaits t j fs

module _ {P : Platform} where
  -- No ID is a leaf's and a child VK's, and each child that is listed as a provider offers the service at
  -- that address, or the clean-up of it waits for the lock.
  pub record Listed (vk : VaultKeeper P) : Type 0 where
    pub disjoint : Disjoint vk
    pub listed :
        (t : String) (j : ℕ)
        → (provider t j vk ≡ none)
          ⊎ (provider t j vk ≡ offers t j vk)
          ⊎ (awaits t j (waiting vk) ≡ true)

  pub Listed-transfer :
      (v w : VaultKeeper P) → w.children ≡ v.children → waiting w ≡ waiting v → Listed v → Listed w
  Listed-transfer v w e f l = record {
    disjoint = λ j. ground (arith, l.disjoint j, e);
    listed = λ t j. unfold provider offers in ground (arith, l.listed t j, e, f);
  }

  refreshed-Listed : (i : ℕ) (vk : VaultKeeper P) → Listed vk → Listed (refreshed i vk)
  refreshed-Listed i vk l =
      let same = λ (j : ℕ). P.cvk_table.load-refresh i j vk.prune_time.child_vk vk.children.cvks in
      record {
        disjoint = λ j. ground (arith, l.disjoint j, same j);
        listed = λ t j. unfold provider offers in ground (arith, l.listed t j, same j);
      }

  add_cvk-Listed :
      (i : ℕ) (a : AddrPort) (vk : VaultKeeper P)
      → load_cvk i vk ≡ none
      → Listed vk
      → Listed (add_cvk i a vk).1
  add_cvk-Listed i a vk n l = record {
    disjoint = add_cvk-Disjoint i a vk l.disjoint;
    listed = λ t j.
        unfold offers in
        ground (
          arith,
          l.listed t j,
          offers-add_cvk i j a t vk,
          provider-add_cvk i a vk t j,
          add_cvk-waiting i a vk,
        );
  }

  add_leaf-Listed : (i : ℕ) (vk : VaultKeeper P) → Listed vk → Listed (add_leaf i vk).1
  add_leaf-Listed i vk l = record {
    disjoint = add_leaf-Disjoint i vk l.disjoint;
    listed = λ t j. ground (
      arith,
      l.listed t j,
      offers-add_leaf i j t vk,
      provider-add_leaf i vk t j,
      add_leaf-waiting i vk,
    );
  }

  add_service-Listed :
      (i : ℕ) (s : String) (a : AddrPort) (d : ℤ) (vk : VaultKeeper P)
      → Listed vk
      → Listed (add_service i s a d vk).1
  add_service-Listed i s a d vk l = record {
    disjoint = λ j. ground (arith, l.disjoint j, add_service_kinds i s a d vk j);
    listed = λ t j.
        ground
          (arith, l.listed t j, add_service_views i s a d vk t j, add_service-waiting i s a d vk);
  }

  remove_cvk-Listed : (i : ℕ) (vk : VaultKeeper P) → Listed vk → Listed (remove_cvk i vk).1
  remove_cvk-Listed i vk l = elim (Option-cases (load_leaf i vk)) [
    | inl e ↦ record {
      disjoint = remove_cvk-Disjoint i vk l.disjoint;
      listed = λ t j.
          ground (
            arith,
            l.listed t j,
            l.listed t i,
            remove_cvk_views i vk t j e,
            remove_cvk-waiting i vk,
          );
    }
    | inr (x, e) ↦ rw (remove_cvk_miss i vk (no_cvk_of_leaf i x vk l.disjoint e)) l
  ]

  remove_leaf-Listed : (i : ℕ) (vk : VaultKeeper P) → Listed vk → Listed (remove_leaf i vk).1
  remove_leaf-Listed i vk l = elim (Option-cases (load_leaf i vk)) [
    | inl e ↦ rw (remove_leaf_miss i vk e) l
    | inr (x, e) ↦
        let n = no_cvk_of_leaf i x vk l.disjoint e in
        record {
          disjoint = remove_leaf-Disjoint i vk l.disjoint;
          listed = λ t j. ground (
            arith,
            l.listed t j,
            l.listed t i,
            remove_leaf_views i vk t j n,
            remove_leaf-waiting i vk,
          );
        }
  ]

  deregistered-Listed :
      (i : ℕ) (s : String) (vk : VaultKeeper P) → Listed vk → Listed (deregistered i s vk)
  deregistered-Listed i s vk l = record {
    disjoint = deregistered-Disjoint i s vk l.disjoint;
    listed = λ t j. ground (
      arith,
      l.listed t j,
      deregistered-views i s vk t j l.disjoint,
      deregistered-waiting i s vk,
    );
  }

pub Listed-ChildrenInvariant : {P : Platform} → ChildrenInvariant (Listed {P = P})
Listed-ChildrenInvariant = record {
  transfer = Listed-transfer;
  on_refreshed = refreshed-Listed;
  on_add_cvk = add_cvk-Listed;
  on_add_leaf = add_leaf-Listed;
  on_remove_cvk = remove_cvk-Listed;
  on_remove_leaf = remove_leaf-Listed;
  on_add_service = add_service-Listed;
  on_deregistered = deregistered-Listed;
}
