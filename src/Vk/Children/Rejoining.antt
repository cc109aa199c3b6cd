-- ===== src/Vk/Children/Rejoining.antt =====
-- A child VK that expires, joins again and registers again before its clean-up has the lock.
use orv.Base.{ℕ, ◌≡◌, arith, true, String, [], none, some, is_some, nat_eq, text_eq}
use orv.Base.Int.{ℤ}
use orv.Base.Map.{lookup, keys, beq_refl}
use orv.Vk.State.{AddrPort, Cvk, cleanup_cvk, Platform, VaultKeeper}
use orv.Vk.Providers.Laws.{provider, provider-remove_providers}
use orv.Vk.Children.{load_cvk, load_leaf, add_cvk, add_service, expire_cvk, run_callback}
use orv.Vk.Children.Views.{offers, is_child, add_service_views, offers-remove_providers}
use orv.Vk.Children.Removal.{among-keys}

module _ {P : Platform} where
  -- The child VK has expired and has joined again.
  abbrev pub rejoined : ℕ → AddrPort → VaultKeeper P → VaultKeeper P
  rejoined i a vk = (add_cvk i a (expire_cvk i vk)).1

  rejoined-child :
      (i : ℕ) (a : AddrPort) (vk : VaultKeeper P)
      → load_leaf i vk ≡ none
      → is_child i (rejoined i a vk) ≡ true
  unfolding add_cvk expire_cvk
  rejoined-child i a vk n = ground (
    arith,
    beq_refl i,
    P.cvk_table.load-store i i (record { services = []; addr = a }) vk.prune_time.child_vk
        (P.cvk_table.expire i vk.children.cvks),
    P.cvk_table.load-store i i (record { services = []; addr = a }) vk.prune_time.child_vk
        vk.children.cvks,
  )

  -- If a child VK with a service expires, joins again, and registers that service again, and the
  -- clean-up of its first time runs only then, the child offers the service and is not listed as
  -- its provider.
  pub late_cleanup :
      (i : ℕ) (a p : AddrPort) (d : ℤ) (t : String) (vk : VaultKeeper P) (c : Cvk)
      → load_leaf i vk ≡ none
      → load_cvk i vk ≡ some c
      → is_some (lookup t c.services) ≡ true
      → let after =
          run_callback (cleanup_cvk i c.services) (add_service i t p d (rejoined i a vk)).1 in
        (offers t i after ≡ some p) × (provider t i after ≡ none)
  unfolding run_callback
  late_cleanup i a p d t vk c n e f =
      let w = (add_service i t p d (rejoined i a vk)).1 in
      ground (
        arith,
        beq_refl i,
        beq_refl t,
        rejoined-child i a vk n,
        add_service_views i t p d (rejoined i a vk) t i,
        offers-remove_providers (keys c.services) t i i w,
        provider-remove_providers (keys c.services) t i i w,
        among-keys t c.services,
      )
