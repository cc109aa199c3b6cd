-- ===== src/Vk/Children/Waiting.antt =====
-- No operation on the children adds to the callbacks that wait for the lock: only the end of a timer, or
-- of a child VK's time, does.
use orv.Base.{ℕ, ◌≡◌, refl, arith, String, List, [], ◌∷◌, Option-cases, inl, inr, nat_eq, text_eq}
use orv.Base.Int.{ℤ}
use orv.Base.Map.{lookup, remove, keys, values}
use orv.Vk.State.{AddrPort, LeafService, Leaf, Callback, Timers, Platform, VaultKeeper}
use orv.Vk.Timers.{after_func, set_armed, stop, reset}
use orv.Vk.Providers.Laws.{
  add_provider-SameElse, remove_provider-SameElse, remove_providers-SameElse,
}
use orv.Vk.Providers.{remove_provider}
use orv.Vk.Children.{
  load_cvk, load_leaf, set_cvks, set_leaves, set_clock, add_cvk, install_leaf, add_leaf,
  stop_pruners, stop_old_pruner, add_leaf_service, add_cvk_service, write_service, add_service,
  remove_cvk, remove_leaf, drop_leaf_service, prune_service_from_leaf, prune_serviceless_leaf,
}

pub stop-waiting : (n : ℕ) (t : Timers) → (stop n t).1.waiting ≡ t.waiting
unfolding stop set_armed
stop-waiting n t = ground arith

pub reset-waiting : (n : ℕ) (t : Timers) → (reset n t).1.waiting ≡ t.waiting
unfolding reset set_armed
reset-waiting n t = ground arith

stop_pruners-waiting :
    (ss : List LeafService) (t : Timers) → (stop_pruners ss t).waiting ≡ t.waiting
unfolding stop_pruners
stop_pruners-waiting [] t = refl
stop_pruners-waiting (s ∷ ss) t =
    ground (arith, stop-waiting s.pruner t, stop_pruners-waiting ss (stop s.pruner t).1)

stop_old_pruner-waiting :
    (s : String) (l : Leaf) (t : Timers) → (stop_old_pruner s l t).waiting ≡ t.waiting
unfolding stop_old_pruner
stop_old_pruner-waiting s l t = elim (Option-cases (lookup s l.services)) [
  | inl e ↦ ground arith
  | inr (old, e) ↦ ground (arith, stop-waiting old.pruner t)
]

module _ {P : Platform} where
  abbrev pub waiting : VaultKeeper P → List Callback
  waiting vk = vk.clock.waiting

  pub add_cvk-waiting :
      (i : ℕ) (a : AddrPort) (vk : VaultKeeper P) → waiting (add_cvk i a vk).1 ≡ waiting vk
  unfolding add_cvk
  add_cvk-waiting i a vk = ground arith

  pub add_leaf-waiting : (i : ℕ) (vk : VaultKeeper P) → waiting (add_leaf i vk).1 ≡ waiting vk
  unfolding add_leaf install_leaf after_func
  add_leaf-waiting i vk = ground arith

  add_leaf_service-waiting :
      (i : ℕ) (s : String) (a : AddrPort) (d : ℤ) (l : Leaf) (vk : VaultKeeper P)
      → waiting (add_leaf_service i s a d l vk) ≡ waiting vk
  unfolding add_leaf_service after_func
  add_leaf_service-waiting i s a d l vk = stop_old_pruner-waiting s l vk.clock

  add_cvk_service-waiting :
      (i : ℕ) (s : String) (a : AddrPort) (vk : VaultKeeper P)
      → waiting (add_cvk_service i s a vk).1 ≡ waiting vk
  unfolding add_cvk_service
  add_cvk_service-waiting i s a vk =
      let t = (P.cvk_table.refresh i vk.prune_time.child_vk vk.children.cvks).1 in
      ground (
        arith,
        add_provider-SameElse s i a (set_cvks (P.cvk_table.modify i (write_service s a) t) vk),
      )

  pub add_service-waiting :
      (i : ℕ) (s : String) (a : AddrPort) (d : ℤ) (vk : VaultKeeper P)
      → waiting (add_service i s a d vk).1 ≡ waiting vk
  unfolding add_service
  add_service-waiting i s a d vk = elim (Option-cases (load_leaf i vk)) [
    | inr (l, e) ↦ ground (
      arith,
      add_provider-SameElse s i a (add_leaf_service i s a d l vk),
      add_leaf_service-waiting i s a d l vk,
    )
    | inl e ↦ ground (arith, add_cvk_service-waiting i s a vk)
  ]

  pub remove_cvk-waiting : (i : ℕ) (vk : VaultKeeper P) → waiting (remove_cvk i vk).1 ≡ waiting vk
  unfolding remove_cvk
  remove_cvk-waiting i vk = elim (Option-cases (load_cvk i vk)) [
    | inl e ↦ ground arith
    | inr (c, e) ↦ ground (
      arith,
      remove_providers-SameElse (keys c.services) i
          (set_cvks (P.cvk_table.delete i vk.children.cvks).1 vk),
    )
  ]

  pub remove_leaf-waiting : (i : ℕ) (vk : VaultKeeper P) → waiting (remove_leaf i vk).1 ≡ waiting vk
  unfolding remove_leaf
  remove_leaf-waiting i vk = elim (Option-cases (load_leaf i vk)) [
    | inl e ↦ ground arith
    | inr (l, e) ↦
        let t = stop_pruners (values l.services) (stop l.serviceless_pruner vk.clock).1 in
        ground (
          arith,
          remove_providers-SameElse (keys l.services) i
              (set_clock t (set_leaves (remove i vk.children.leaves) vk)),
          stop-waiting l.serviceless_pruner vk.clock,
          stop_pruners-waiting (values l.services) (stop l.serviceless_pruner vk.clock).1,
        )
  ]

  pub prune_service_from_leaf-waiting :
      (i : ℕ) (s : String) (vk : VaultKeeper P)
      → waiting (prune_service_from_leaf i s vk) ≡ waiting vk
  unfolding prune_service_from_leaf drop_leaf_service
  prune_service_from_leaf-waiting i s vk =
      let w = (remove_provider s i vk).1 in
      elim (Option-cases (load_leaf i w)) [
        | inl e ↦ ground (arith, remove_provider-SameElse s i vk)
        | inr (l, e) ↦
            ground
              (arith, remove_provider-SameElse s i vk, reset-waiting l.serviceless_pruner w.clock)
      ]

  pub prune_serviceless_leaf-waiting :
      (i : ℕ) (vk : VaultKeeper P) → waiting (prune_serviceless_leaf i vk) ≡ waiting vk
  unfolding prune_serviceless_leaf
  prune_serviceless_leaf-waiting i vk = ground arith
