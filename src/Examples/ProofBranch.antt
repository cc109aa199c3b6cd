-- ===== src/Examples/ProofBranch.antt =====
-- The two Vaultkeepers of the proof of concept together: one joins the other, and a REGISTER goes up.
use orv.Base.{◌≡◌, refl, true, [], ◌∷◌, some, nat_eq, text_eq, map}
use orv.Base.Map.{lookup}
use orv.Vk.State.{no_addr}
use orv.Proof.Keeper.{VaultKeeper, status_accepted}
use orv.Proof.Keeper.Joining.{join_vk, join_request}
use orv.Proof.Endpoints.Admission.{lets_in}
use orv.Proof.Echo.{receive_register, network_above, Accepting, AllListed}
use orv.Proof.Echo.Along.{echo_request, echo_along}
use orv.Proof.Served.{server, Announced}
use orv.Proof.Served.Joining.{Joined, join_vk-served}
use orv.Examples.Proof.{address}
use orv.Examples.ProofKeeper.{low_address, platform, low, top}

-- Not yet a child.
abbrev orphan : VaultKeeper
orphan = record low { parent_id = 0; parent_addr = no_addr }

abbrev parent : VaultKeeper
parent = record top { children = record (top.children) { vks = [] } }

admitted : lets_in platform (join_request platform (server platform) orphan) parent ≡ true
unfolding lookup
admitted = refl

announced : Announced platform orphan.children.services
announced = ((refl, refl, (refl, tt)), ((refl, refl, (refl, tt)), tt))

join_vk-served_example :
    Joined platform "2:6000" "ssh" address orphan parent
      (join_vk platform (server platform) "2:6000" orphan parent)
join_vk-served_example =
    join_vk-served platform "2:6000" "ssh" address orphan parent refl refl refl refl refl refl
      admitted announced

accepting : Accepting platform "ssh" 7 "9s" (low ∷ top ∷ [])
unfolding Accepting lookup
accepting = (refl, refl, refl, refl, (refl, refl), (refl, refl, refl, refl, refl, tt))

echo_along_example :
    let out =
      receive_register platform
        (network_above platform 1)
        (echo_request platform "ssh" "1:5000" low_address 7 "9s")
        low
        (top ∷ []) in
    (out.0 ≡ some status_accepted)
    × (map (λ v. v.id) out.1 ≡ 10 ∷ 20 ∷ [])
    × AllListed "ssh" 7 low_address out.1
echo_along_example =
    echo_along platform "ssh" "1:5000" low_address 7 "9s" low (top ∷ []) (refl, refl, refl, refl)
      accepting
