-- ===== src/Vk/Handlers/Pruners.antt =====
-- The timers of the services of leaves, when a service is deregistered and registered again.
use orv.Base.{ℕ, ◌<◌, ◌≡◌, arith, true, String, none, some, nat_eq, text_eq}
use orv.Base.Map.{lookup, remove, lookup-insert, lookup-remove, beq_refl}
use orv.Base.Int.{ℤ}
use orv.Vk.State.{AddrPort, Leaf, LeafService, Timers, prune_service, Platform, VaultKeeper}
use orv.Vk.Timers.{after_func, is_armed}
use orv.Vk.Providers.{remove_provider}
use orv.Vk.Providers.Laws.{remove_provider-SameElse, add_provider-SameElse}
use orv.Vk.Children.{load_cvk, load_leaf, add_service, add_leaf_service, stop_old_pruner}
use orv.Vk.Handlers.Services.{forget_service}
use orv.Vk.Handlers.Forgetting.{deregistered}

after_func-armed :
    (h i : ℕ) (s : String) (t : Timers)
    → h < t.next_timer
    → is_armed h (after_func (prune_service i s) t) ≡ is_armed h t
unfolding after_func is_armed
after_func-armed h i s t e = ground (
  arith,
  lookup-insert t.next_timer h (record { callback = prune_service i s; armed = true }) t.timers,
)

-- A service that the leaf does not have has no timer to stop.
stop_old_pruner-none :
    (s : String) (l : Leaf) (t : Timers) → lookup s l.services ≡ none → stop_old_pruner s l t ≡ t
unfolding stop_old_pruner
stop_old_pruner-none s l t e = ground arith

module _ {P : Platform} where
  deregistered-clock :
      (i : ℕ) (s : String) (vk : VaultKeeper P) → (deregistered i s vk).clock ≡ vk.clock
  unfolding forget_service
  deregistered-clock i s vk = ground (arith, remove_provider-SameElse s i vk)

  deregistered-leaf :
      (i : ℕ) (s : String) (vk : VaultKeeper P) (l : Leaf)
      → load_leaf i vk ≡ some l
      → load_cvk i vk ≡ none
      → load_leaf i (deregistered i s vk) ≡ some (record l { services = remove s l.services })
  unfolding forget_service
  deregistered-leaf i s vk l e f = ground (
    arith,
    remove_provider-SameElse s i vk,
    beq_refl i,
    lookup-insert i i (record l { services = remove s l.services })
        (remove_provider s i vk).1.children.leaves,
  )

  add_service-clock :
      (i : ℕ) (s : String) (a : AddrPort) (d : ℤ) (vk : VaultKeeper P) (l : Leaf)
      → load_leaf i vk ≡ some l
      → (add_service i s a d vk).1.clock
        ≡ after_func (prune_service i s) (stop_old_pruner s l vk.clock)
  unfolding add_service add_leaf_service
  add_service-clock i s a d vk l e =
      ground (arith, add_provider-SameElse s i a (add_leaf_service i s a d l vk))

  -- The timer of a service of a leaf outlives the service: if it was armed when the leaf deregistered
  -- the service, it is armed after the leaf has registered the service again.
  pub old_pruner_armed :
      (i : ℕ) (s : String) (a : AddrPort) (d : ℤ) (vk : VaultKeeper P) (l : Leaf) (x : LeafService)
      → load_leaf i vk ≡ some l
      → load_cvk i vk ≡ none
      → lookup s l.services ≡ some x
      → x.pruner < vk.clock.next_timer
      → is_armed x.pruner vk.clock ≡ true
      → is_armed x.pruner (add_service i s a d (deregistered i s vk)).1.clock ≡ true
  old_pruner_armed i s a d vk l x e f g h k =
      let l' : Leaf = record l { services = remove s l.services } in
      let w = deregistered i s vk in
      ground (
        arith,
        add_service-clock i s a d w l' (deregistered-leaf i s vk l e f),
        stop_old_pruner-none s l' w.clock
            (ground (arith, lookup-remove s s l.services, text_eq.beq_iff s s)),
        deregistered-clock i s vk,
        after_func-armed x.pruner i s vk.clock h,
      )
