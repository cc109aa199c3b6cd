-- ===== src/Vk/Children.antt =====
-- implementations/slims/slims/vk/children.go: how a Vaultkeeper manages its children. Each function
-- runs with the children lock held, so it is one step. A write through the service map of a child
-- VK is `modify` of the table, and through that of a leaf a new entry of the map of leaves.
pub mod Views
pub mod Removal
pub mod Coherent
pub mod Leaving
pub mod Rejoining
pub mod Waiting
use orv.Base.{
  ℕ, ◌+◌, Bool, true, false, String, List, [], ◌∷◌, ◌++◌, Option, none, some, map, is_some, nat_eq,
  text_eq, if◌then◌else◌,
}
use orv.Base.Map.{Map, lookup, insert, remove, is_empty, keys, values}
use orv.Base.Int.{ℤ}
use orv.Vk.State.{
  AddrPort, Errno, unspecified, unknown_child_id, Cvk, Leaf, LeafService, Callback, prune_service,
  prune_leaf, cleanup_cvk, Timers, Platform, Children, VaultKeeper,
}
use orv.Vk.Providers.{add_provider, remove_provider, remove_providers}
use orv.Vk.Timers.{after_func, stop, reset}

abbrev pub write_service : String → AddrPort → Cvk → Cvk
write_service service addr c = record c { services = insert service addr c.services }

-- `for _, inf := range l.services { inf.pruner.Stop() }`.
unfoldable pub stop_pruners : List LeafService → Timers → Timers
stop_pruners [] t = t
stop_pruners (s ∷ rest) t = stop_pruners rest (stop s.pruner t).1

-- If the leaf has the service already, its timer is stopped.
unfoldable pub stop_old_pruner : String → Leaf → Timers → Timers
stop_old_pruner service leaf t = elim (lookup service leaf.services) [
  | none ↦ t
  | some old ↦ (stop old.pruner t).1
]

module _ {P : Platform} where
  abbrev pub load_cvk : ℕ → VaultKeeper P → Option Cvk
  load_cvk id vk = P.cvk_table.load id vk.children.cvks

  abbrev pub load_leaf : ℕ → VaultKeeper P → Option Leaf
  load_leaf id vk = lookup id vk.children.leaves

  abbrev pub set_children : Children P → VaultKeeper P → VaultKeeper P
  set_children c vk = record vk { children = c }

  abbrev pub set_clock : Timers → VaultKeeper P → VaultKeeper P
  set_clock t vk = record vk { clock = t }

  abbrev pub set_leaves : Map ℕ Leaf → VaultKeeper P → VaultKeeper P
  set_leaves m vk = record vk { children = record (vk.children) { leaves = m } }

  abbrev pub set_cvks : P.cvk_table.Table → VaultKeeper P → VaultKeeper P
  set_cvks t vk = record vk { children = record (vk.children) { cvks = t } }

  -- `addCVK`; true if the ID is a leaf's.
  unfoldable pub add_cvk : ℕ → AddrPort → VaultKeeper P → Bool × VaultKeeper P
  add_cvk id addr vk = if is_some (load_leaf id vk) then (true, vk) else (
    false,
    set_cvks
        (P.cvk_table.store id (record { services = []; addr = addr }) vk.prune_time.child_vk
          vk.children.cvks)
        vk,
  )

  -- The installation of a new leaf, and the timer that prunes it while it has no services.
  unfoldable pub install_leaf : ℕ → VaultKeeper P → VaultKeeper P
  install_leaf id vk = set_clock (after_func (prune_leaf id) vk.clock) (
      set_leaves
        (insert id (record { serviceless_pruner = vk.clock.next_timer; services = [] })
          vk.children.leaves)
        vk)

  -- `addLeaf`; true if the ID is a child VK's.
  unfoldable pub add_leaf : ℕ → VaultKeeper P → Bool × VaultKeeper P
  unfolding install_leaf
  add_leaf id vk =
      if is_some (load_cvk id vk)
      then (true, vk)
      else if is_some (load_leaf id vk)
      then (false, vk)
      else (false, install_leaf id vk)

  -- The first branch of `addService`: a service of a leaf, whose old timer is stopped.
  unfoldable pub add_leaf_service : ℕ → String → AddrPort → ℤ → Leaf → VaultKeeper P → VaultKeeper P
  add_leaf_service id service addr stale leaf vk =
      let t = stop_old_pruner service leaf vk.clock in
      let s : LeafService = record { pruner = t.next_timer; stale = stale; addr = addr } in
      set_clock (after_func (prune_service id service) t) (
        set_leaves
          (insert id (record leaf { services = insert service s leaf.services }) vk.children.leaves)
          vk)

  -- The second branch of `addService`: a service of a child VK, whose time starts anew.
  unfoldable pub add_cvk_service :
      ℕ → String → AddrPort → VaultKeeper P → Option Errno × VaultKeeper P
  add_cvk_service id service addr vk =
      let (found, t) = P.cvk_table.refresh id vk.prune_time.child_vk vk.children.cvks in
      if found
      then (
        none,
        add_provider id service addr
            (set_cvks (P.cvk_table.modify id (write_service service addr) t) vk),
      )
      else (some unspecified, set_cvks t vk)

  -- `addService`: the error, if there is one.
  unfoldable pub add_service :
      ℕ → String → AddrPort → ℤ → VaultKeeper P → Option Errno × VaultKeeper P
  add_service id service addr stale vk = elim (load_leaf id vk) [
    | some leaf ↦
        (none, add_provider id service addr (add_leaf_service id service addr stale leaf vk))
    | none ↦ elim (load_cvk id vk) [
      | some _ ↦ add_cvk_service id service addr vk
      | none ↦ (some unknown_child_id, vk)
    ]
  ]

  -- `RemoveCVK`; true if it was found.
  unfoldable pub remove_cvk : ℕ → VaultKeeper P → Bool × VaultKeeper P
  remove_cvk id vk = elim (load_cvk id vk) [
    | none ↦ (false, vk)
    | some c ↦
        let (found, t) = P.cvk_table.delete id vk.children.cvks in
        (found, remove_providers (keys c.services) id (set_cvks t vk))
  ]

  -- `RemoveLeaf`; true if it was found.
  unfoldable pub remove_leaf : ℕ → VaultKeeper P → Bool × VaultKeeper P
  remove_leaf id vk = elim (load_leaf id vk) [
    | none ↦ (false, vk)
    | some l ↦ (
      true,
      remove_providers (keys l.services) id (
          set_clock (stop_pruners (values l.services) (stop l.serviceless_pruner vk.clock).1)
            (set_leaves (remove id vk.children.leaves) vk)),
    )
  ]

  -- The end of `pruneServiceFromLeaf`, for the leaf as it was found.
  unfoldable pub drop_leaf_service : ℕ → String → Leaf → VaultKeeper P → VaultKeeper P
  drop_leaf_service id service l vk =
      let rest = remove service l.services in
      let vk' : VaultKeeper P =
        set_leaves (insert id (record l { services = rest }) vk.children.leaves) vk in
      if is_empty rest then set_clock (reset l.serviceless_pruner vk'.clock).1 vk' else vk'

  -- `pruneServiceFromLeaf`.
  unfoldable pub prune_service_from_leaf : ℕ → String → VaultKeeper P → VaultKeeper P
  prune_service_from_leaf id service vk =
      let vk' = (remove_provider service id vk).1 in
      elim (load_leaf id vk') [ none ↦ vk' | some l ↦ drop_leaf_service id service l vk' ]

  -- The callback of a leaf's own timer.
  unfoldable pub prune_serviceless_leaf : ℕ → VaultKeeper P → VaultKeeper P
  prune_serviceless_leaf id vk = elim (load_leaf id vk) [
    | none ↦ vk
    | some l ↦ if is_empty l.services then set_leaves (remove id vk.children.leaves) vk else vk
  ]

  -- A callback that has the lock.
  unfoldable pub run_callback : Callback → VaultKeeper P → VaultKeeper P
  run_callback (prune_service id service) vk = prune_service_from_leaf id service vk
  run_callback (prune_leaf id) vk = prune_serviceless_leaf id vk
  run_callback (cleanup_cvk id services) vk = remove_providers (keys services) id vk

  -- The time of a child VK has run out: it leaves the table, and its clean-up waits for the lock.
  unfoldable pub expire_cvk : ℕ → VaultKeeper P → VaultKeeper P
  expire_cvk id vk = elim (load_cvk id vk) [
    | none ↦ vk
    | some c ↦ record vk {
      children = record (vk.children) { cvks = P.cvk_table.expire id vk.children.cvks };
      clock = record (vk.clock) { waiting = vk.clock.waiting ++ cleanup_cvk id c.services ∷ [] };
    }
  ]
