-- ===== src/Vk/Dispatch/Runs.antt =====
-- Runs of a Vaultkeeper: packets that arrive, ticks of its heartbeat, and timers of its leaves, in any
-- order. That the time of a child VK runs out is no step here: until its clean-up has run the two
-- views of the children differ.
use orv.Base.{ℕ, ◌≡◌, arith, Bool, String, List, none, some, nat_eq, text_eq}
use orv.Base.Map.{lookup-empty}
use orv.Version.{VersionSet}
use orv.Vk.State.{
  AddrPort, Leaf, PruneTimes, Heartbeat, prune_service, prune_leaf, Wire, Platform, VaultKeeper,
  send,
}
use orv.Vk.Providers.{message_parent}
use orv.Vk.Providers.Laws.{provider}
use orv.Vk.Children.{load_cvk, run_callback}
use orv.Vk.Children.Views.{offers}
use orv.Vk.Children.Coherent.{Coherent}
use orv.Vk.Children.Leaving.{prune_service_from_leaf-Coherent, prune_serviceless_leaf-Coherent}
use orv.Vk.Handlers.Clients.{Link}
use orv.Vk.Handlers.Coherence.{Coherent-children}
use orv.Vk.Dispatch.{dispatch_datagram}
use orv.Vk.Handlers.Invariants.{Coherent-ChildrenInvariant}
use orv.Vk.Dispatch.Coherence.{dispatch_datagram-Holds}
use orv.Vk.Requests.{
  new_vault_keeper, heartbeat_tick, check_limit, note_heartbeat, heartbeat_parent,
}

module _ {P : Platform} where
  pub data Step : VaultKeeper P → VaultKeeper P → Type 0 where
    packet :
        (w : Wire) (k : Link) (d : List ℕ) (a : AddrPort) (vk : VaultKeeper P)
        → Step vk (dispatch_datagram w k d a vk)
    tick : (acknowledged : Bool) (vk : VaultKeeper P) → Step vk (heartbeat_tick acknowledged vk)
    leaf_timer : (i : ℕ) (vk : VaultKeeper P) → Step vk (run_callback (prune_leaf i) vk)
    service_timer :
        (i : ℕ) (s : String) (vk : VaultKeeper P)
        → load_cvk i vk ≡ none
        → Step vk (run_callback (prune_service i s) vk)

  pub data Reaches : VaultKeeper P → VaultKeeper P → Type 0 where
    start_of : (vk : VaultKeeper P) → Reaches vk vk
    then_step : (u v w : VaultKeeper P) → Reaches u v → Step v w → Reaches u w

  pub heartbeat_tick-children :
      (b : Bool) (vk : VaultKeeper P) → (heartbeat_tick b vk).children ≡ vk.children
  unfolding heartbeat_tick check_limit heartbeat_parent note_heartbeat message_parent send
  heartbeat_tick-children b vk = ground arith

  pub Step-Coherent : (v w : VaultKeeper P) → Step v w → Coherent v → Coherent w
  unfolding run_callback
  Step-Coherent v w (packet x k d a vk) c =
      dispatch_datagram-Holds Coherent-ChildrenInvariant x k d a vk c
  Step-Coherent v w (tick b vk) c =
      Coherent-children vk (heartbeat_tick b vk) (heartbeat_tick-children b vk) c
  Step-Coherent v w (leaf_timer i vk) c = prune_serviceless_leaf-Coherent i vk c
  Step-Coherent v w (service_timer i s vk n) c = prune_service_from_leaf-Coherent i s vk n c

  pub new-Coherent :
      (id : ℕ) (addr : AddrPort) (vs : VersionSet) (pt : PruneTimes) (hb : Heartbeat)
      (vk : VaultKeeper P)
      → new_vault_keeper id addr vs pt hb ≡ some vk
      → Coherent vk
  new-Coherent id addr vs pt hb vk e = record {
    disjoint = λ j.
        unfold new_vault_keeper in
        ground (arith, lookup-empty {V = Leaf} j, P.cvk_table.load-empty j);
    agree = λ t j.
        unfold new_vault_keeper provider offers in
        ground (
          arith,
          lookup-empty {V = Leaf} j,
          P.cvk_table.load-empty j,
          lookup-empty {V = List (ℕ × AddrPort)} t,
        );
    none_empty =
        λ t. unfold new_vault_keeper in ground (arith, lookup-empty {V = List (ℕ × AddrPort)} t);
  }

  -- Whatever packets arrive at a new Vaultkeeper, from whomever, whether its heartbeats are
  -- acknowledged or not, and whenever the timers of leaves and of the services of IDs that no child
  -- VK bears elapse: no ID is a leaf's and a child VK's at once, each child is listed as a provider
  -- of exactly what it offers, at the same address, and each listed service has a provider.
  pub reachable-Coherent :
      (id : ℕ) (addr : AddrPort) (vs : VersionSet) (pt : PruneTimes) (hb : Heartbeat)
      (u vk : VaultKeeper P)
      → new_vault_keeper id addr vs pt hb ≡ some u
      → Reaches u vk
      → Coherent vk
  reachable-Coherent id addr vs pt hb u vk e (start_of x) = new-Coherent id addr vs pt hb u e
  reachable-Coherent id addr vs pt hb u vk e (then_step x v w r s) =
      Step-Coherent v w s (reachable-Coherent id addr vs pt hb u v e r)
