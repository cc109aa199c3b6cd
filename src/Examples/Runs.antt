-- ===== src/Examples/Runs.antt =====
-- Packets, heartbeats and merges of the example's node, and the sizes of its answers.
use orv.Base.{
  ℕ, suc, ◌+◌, ◌%◌, ◌^◌, ◌≤◌, ◌≡◌, refl, arith, true, false, List, [], ◌∷◌, ◌++◌, some, is_some,
  nat_eq, text_eq, if◌then◌else◌,
}
use orv.Version.{VersionSet}
use orv.Vk.State.{AddrPort, no_addr, StatusBody, PruneTimes, Heartbeat, Wire, VaultKeeper}
use orv.Vk.Children.{load_cvk, load_leaf}
use orv.Vk.Children.Coherent.{Coherent}
use orv.Vk.Handlers.Clients.{up}
use orv.Vk.Handlers.Status.{trim_status, snapshot, status_body}
use orv.Vk.Handlers.Increments.{increment_packets}
use orv.Vk.Dispatch.{dispatch_datagram}
use orv.Vk.Dispatch.Sizes.{trim_status-fits}
use orv.Vk.Dispatch.Runs.{start_of, then_step, packet, reachable-Coherent}
use orv.Vk.Requests.{adopt}
use orv.Vk.Requests.Missed.{ticks, parent_lost}
use orv.Vk.Requests.Adoption.{adopted, adopt_lem}
use orv.Examples.Tables.{platform}
use orv.Examples.State.{
  below_5, addr, leaf_addr, times, heartbeat, versions, fresh, fresh_new, wire,
}

-- A HELLO of version 1.0 from node 300.
abbrev datagram : List ℕ
datagram = 16 ∷ 2 ∷ 0 ∷ 0 ∷ 0 ∷ 0 ∷ 0 ∷ 0 ∷ 1 ∷ 44 ∷ []

abbrev after_datagram : VaultKeeper platform
after_datagram = dispatch_datagram {P = platform} wire up datagram leaf_addr fresh

-- The status of the node, without children.
abbrev status : StatusBody
status = status_body (snapshot {P = platform} fresh)

reachable-Coherent_example :
    let id : ℕ = 1 in
    let addr : AddrPort = addr in
    let vs : VersionSet = versions in
    let pt : PruneTimes = times in
    let hb : Heartbeat = heartbeat in
    let u : VaultKeeper platform = fresh in
    let vk : VaultKeeper platform = after_datagram in Coherent vk
reachable-Coherent_example =
    reachable-Coherent {P = platform} 1 addr versions times heartbeat fresh after_datagram fresh_new
      (then_step fresh fresh after_datagram (start_of fresh)
        (packet wire up datagram leaf_addr fresh))

parent_lost_example :
    let n : ℕ = 2 in
    let vk : VaultKeeper platform = below_5 in
    ((ticks false n vk).structure.parent_addr ≡ vk.structure.parent_addr)
    × ((ticks false (suc n) vk).structure.parent_addr ≡ no_addr)
parent_lost_example = parent_lost {P = platform} 2 below_5 refl refl refl (omega arith)

adopt_lem_example :
    let peer : ℕ = 7 in
    let target : AddrPort = leaf_addr in
    let vk : VaultKeeper platform = fresh in
    let out = adopt peer target vk in
    let new = adopted peer target vk in
    let leaf = is_some (load_leaf peer vk) in
    (out.0 ≡ (if leaf then false else true))
    × (out.1.structure.height ≡ (vk.structure.height + 1) % 2 ^ 16)
    × (load_cvk peer out.1
        ≡ (if leaf then load_cvk peer vk else some (record { services = []; addr = target })))
    × (out.1.sent ≡ (
        if leaf
        then vk.sent
        else vk.sent
          ++ increment_packets (some peer) (platform.cvk_table.entries new.children.cvks) new))
adopt_lem_example = adopt_lem {P = platform} 7 leaf_addr fresh

trim_status-fits_example :
    let w : Wire = wire in let b : StatusBody = status in w.status_size (trim_status w b) ≤ 1014
trim_status-fits_example = trim_status-fits wire status (omega arith)
