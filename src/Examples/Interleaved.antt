-- ===== src/Examples/Interleaved.antt =====
-- A run of the example's node in which a leaf comes and a timer ends.
use orv.Base.{ℕ, ◌≡◌, ◌⊎◌, true, String, List, [], ◌∷◌, none}
use orv.Vk.State.{VaultKeeper}
use orv.Vk.Timers.{elapse}
use orv.Vk.Children.{set_clock, expire_cvk}
use orv.Vk.Handlers.Clients.{up}
use orv.Vk.Dispatch.{dispatch_datagram}
use orv.Vk.Interleaved.{Step, Reaches, start_of, then_step, packet, timer_ends, cvk_expires}
use orv.Vk.Interleaved.Listed.{Listed, awaits}
use orv.Vk.Children.Waiting.{waiting}
use orv.Vk.Providers.Laws.{provider}
use orv.Vk.Registry.{registry}
use orv.Vk.Registry.Runs.{Permits, Follow, reachable_refines}
use orv.Vk.Interleaved.Runs.{reachable-Listed}
use orv.Examples.Tables.{platform}
use orv.Examples.State.{addr, leaf_addr, times, heartbeat, versions, fresh, fresh_new, wire}

-- A HELLO and a JOIN of node 300.
abbrev hello_datagram : List ℕ
hello_datagram = 16 ∷ 2 ∷ 0 ∷ 0 ∷ 0 ∷ 0 ∷ 0 ∷ 0 ∷ 1 ∷ 44 ∷ []

abbrev join_datagram : List ℕ
join_datagram = 16 ∷ 4 ∷ 0 ∷ 0 ∷ 0 ∷ 0 ∷ 0 ∷ 0 ∷ 1 ∷ 44 ∷ 1 ∷ []

abbrev greeted : VaultKeeper platform
greeted = dispatch_datagram {P = platform} wire up hello_datagram leaf_addr fresh

abbrev joined : VaultKeeper platform
joined = dispatch_datagram {P = platform} wire up join_datagram leaf_addr greeted

abbrev late : VaultKeeper platform
late = set_clock {P = platform} (elapse 0 joined.clock) joined

abbrev run : Reaches {P = platform} fresh (expire_cvk {P = platform} 9 late)
run =
    then_step fresh late (expire_cvk {P = platform} 9 late)
      (then_step fresh joined late
        (then_step fresh greeted joined
          (then_step fresh fresh greeted (start_of fresh)
            (packet wire up hello_datagram leaf_addr fresh))
          (packet wire up join_datagram leaf_addr greeted))
        (timer_ends 0 joined))
      (cvk_expires 9 late)

reachable-Listed_example : Listed {P = platform} (expire_cvk {P = platform} 9 late)
reachable-Listed_example =
    reachable-Listed {P = platform} 1 addr versions times heartbeat fresh
      (expire_cvk {P = platform} 9 late) fresh_new run

abbrev join_step : Step {P = platform} greeted joined
join_step = packet wire up join_datagram leaf_addr greeted

reachable_refines_example :
    Follow {P = platform} (Permits {P = platform} greeted joined join_step) greeted joined
    × ((t : String) (j : ℕ)
        → (provider t j joined ≡ none)
          ⊎ (provider t j joined ≡ registry joined t j)
          ⊎ (awaits t j (waiting {P = platform} joined) ≡ true))
reachable_refines_example =
    reachable_refines {P = platform} 1 addr versions times heartbeat fresh greeted joined fresh_new
      (then_step fresh fresh greeted (start_of fresh)
        (packet wire up hello_datagram leaf_addr fresh))
      join_step
