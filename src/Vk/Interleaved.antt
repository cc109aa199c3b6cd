-- ===== src/Vk/Interleaved.antt =====
-- What happens to a Vaultkeeper, in any order: packets, ticks of its heartbeat, the end of a timer, the end
-- of a child VK's time, and a callback that gets the lock of the children. A callback may wait for the
-- lock while anything else happens. What a Vaultkeeper asks of others of its own accord, `Join`, `Merge`
-- and `Leave`, is no step here.
pub mod Listed
pub mod Timed
pub mod Runs
use orv.Base.{ℕ, ◌≡◌, Bool, List, ◌∷◌, ◌++◌}
use orv.Vk.State.{AddrPort, Callback, Wire, Platform, VaultKeeper}
use orv.Vk.Timers.{elapse}
use orv.Vk.Children.{set_clock, run_callback, expire_cvk}
use orv.Vk.Children.Waiting.{waiting}
use orv.Vk.Handlers.Clients.{Link}
use orv.Vk.Dispatch.{dispatch_datagram}
use orv.Vk.Requests.{heartbeat_tick}

module _ {P : Platform} where
  abbrev pub set_waiting : List Callback → VaultKeeper P → VaultKeeper P
  set_waiting fs vk = set_clock (record (vk.clock) { waiting = fs }) vk

  pub data Step : VaultKeeper P → VaultKeeper P → Type 0 where
    packet :
        (w : Wire) (k : Link) (d : List ℕ) (a : AddrPort) (vk : VaultKeeper P)
        → Step vk (dispatch_datagram w k d a vk)
    tick : (acknowledged : Bool) (vk : VaultKeeper P) → Step vk (heartbeat_tick acknowledged vk)
    timer_ends : (n : ℕ) (vk : VaultKeeper P) → Step vk (set_clock (elapse n vk.clock) vk)
    cvk_expires : (i : ℕ) (vk : VaultKeeper P) → Step vk (expire_cvk i vk)
    callback_runs :
        (before : List Callback) (f : Callback) (after : List Callback) (vk : VaultKeeper P)
        → waiting vk ≡ before ++ f ∷ after
        → Step vk (run_callback f (set_waiting (before ++ after) vk))

  pub data Reaches : VaultKeeper P → VaultKeeper P → Type 0 where
    start_of : (vk : VaultKeeper P) → Reaches vk vk
    then_step : (u v w : VaultKeeper P) → Reaches u v → Step v w → Reaches u w
