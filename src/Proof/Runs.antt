-- ===== src/Proof/Runs.antt =====
-- What happens to a Vaultkeeper of the proof of concept, in any order: requests, the rounds of its two
-- background tasks, the end of a propagated REGISTER, timers of its children, and what its owner calls. The
-- world is in whatever state it is, and an answer may be anything.
pub mod Changes
pub mod Sound
pub mod Found
pub mod Stuck
use orv.Base.{ℕ, ◌≡◌, Bool, true, false, String, if◌then◌else◌}
use orv.Proof.Children.Pruning.{fire}
use orv.Proof.Keeper.{VaultKeeper, Platform}
use orv.Proof.Keeper.Lifecycle.{pruner_round, heartbeat_round, terminate}
use orv.Proof.Keeper.Joining.{join_vk}
use orv.Proof.Messages.{JoinReq, RegisterReq, ServiceHeartbeatReq, Http}
use orv.Proof.Endpoints.{handle_hello, handle_join}
use orv.Proof.Endpoints.Services.{
  handle_register, Propagation, conclude_propagation, handle_vk_heartbeat, handle_service_heartbeat,
}

-- The timer of a child runs its function with the lock of the children.
unfoldable pub timer_fires : ℕ → VaultKeeper → VaultKeeper
timer_fires n vk = if vk.children_locked then vk else record vk { children = fire n vk.children }

module _ {S : Type 0} (P : Platform) (http : Http S) where
  pub data Step : VaultKeeper → VaultKeeper → Type 0 where
    greeted : (now id : ℕ) (vk : VaultKeeper) → Step vk (handle_hello now id vk).1
    asked_to_join : (req : JoinReq) (vk : VaultKeeper) → Step vk (handle_join P req vk).1
    asked_to_register :
        (req : RegisterReq) (vk : VaultKeeper) → Step vk (handle_register P req vk).1
    vk_beats : (id : ℕ) (vk : VaultKeeper) → Step vk (handle_vk_heartbeat id vk).1
    leaf_beats :
        (req : ServiceHeartbeatReq) (vk : VaultKeeper)
        → Step vk (handle_service_heartbeat P req vk).1
    propagated : (p : Propagation) (vk : VaultKeeper) → Step vk (conclude_propagation p vk)
    pruner_runs : (now : ℕ) (vk : VaultKeeper) → Step vk (pruner_round now vk)
    heartbeater_runs : (s : S) (vk : VaultKeeper) → Step vk (heartbeat_round P http vk s).0
    fires : (n : ℕ) (vk : VaultKeeper) → Step vk (timer_fires n vk)
    joins :
        (addr_str : String) (s : S) (vk : VaultKeeper) → Step vk (join_vk P http addr_str vk s).1.0
    terminates : (vk : VaultKeeper) → Step vk (terminate vk)

  pub data Reaches : VaultKeeper → VaultKeeper → Type 0 where
    start_of : (vk : VaultKeeper) → Reaches vk vk
    then_step : (u v w : VaultKeeper) → Reaches u v → Step v w → Reaches u w
