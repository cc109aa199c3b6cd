-- ===== src/Examples/ProofRuns.antt =====
-- A Vaultkeeper of the proof of concept from its start on, and one whose Join fails.
use orv.Base.{
  ℕ, ◌≡◌, refl, true, false, ◌&&◌, String, [], some, ◌==◌, nat_eq, text_eq, if◌then◌else◌, ok,
}
use orv.Base.Map.{lookup, insert, remove}
use orv.Vk.State.{AddrPort}
use orv.Proof.Children.{new_children, add_child_leaf, add_child_service}
use orv.Proof.Children.{add_service_to_leaf, add_service_provider}
use orv.Proof.Children.Offers.{leaf_address, vk_offers}
use orv.Proof.Children.Pruning.{get_random_provider}
use orv.Proof.Children.Views.{listed_at}
use orv.Proof.Keeper.{VaultKeeper, done, pt_get_response, url_at, ep_register}
use orv.Proof.Keeper.Lifecycle.{bad_status, new_vault_keeper, apply_options, default_vk}
use orv.Proof.Keeper.Joining.{join_vk, register_providers, register_services}
use orv.Proof.Messages.{JoinReq, RegisterReq, Http}
use orv.Proof.Endpoints.{handle_hello, handle_join, join_as_leaf}
use orv.Proof.Endpoints.Services.{handle_register, register_service}
use orv.Proof.Endpoints.Queries.{handle_get}
use orv.Proof.Endpoints.Admission.{Enters, lets_in, is_done, handle_join_lem}
use orv.Proof.Endpoints.Registration.{registers_well, read_address, handle_register_lem}
use orv.Proof.Endpoints.Timely.{hello_in_time}
use orv.Proof.Endpoints.{is_bad_id}
use orv.Proof.Endpoints.Admission.{admits}
use orv.Proof.Keeper.Lifecycle.{has_lasted, pruner_round}
use orv.Base.{not}
use orv.Proof.Hops.{network}
use orv.Proof.Runs.{Reaches, start_of, then_step, greeted, asked_to_join, asked_to_register}
use orv.Proof.Runs.Sound.{IsSound, reachable-IsSound}
use orv.Proof.Runs.Found.{offers, offered-served}
use orv.Proof.Runs.Stuck.{Unanswered, failed_join-Frozen}
use orv.Examples.Proof.{address}
use orv.Examples.ProofKeeper.{print, platform, low, top}

abbrev fresh : VaultKeeper
fresh = record (default_vk 20 address) {
  children =
      new_children (default_vk 20 address).prune_times.serviceless_child
        (default_vk 20 address).prune_times.cvk;
}

made : new_vault_keeper 20 address [] ≡ ok fresh
unfolding new_vault_keeper apply_options
made = refl

abbrev leaf_join : JoinReq
leaf_join = record { id = 7; height = 0; vk_addr = ""; is_vk = false }

abbrev ssh_register : RegisterReq
ssh_register = record { id = 7; service = "ssh"; address = "1:5000"; stale = "9s" }

-- A leaf greets, joins and registers a service.
abbrev greeted_7 : VaultKeeper
greeted_7 = (handle_hello 0 7 fresh).1

abbrev joined_7 : VaultKeeper
joined_7 = (handle_join platform leaf_join greeted_7).1

abbrev registered_7 : VaultKeeper
registered_7 = (handle_register platform ssh_register joined_7).1

abbrev nowhere : Http Unit
nowhere = network platform []

run_7 : Reaches platform nowhere fresh registered_7
run_7 =
    then_step fresh joined_7 registered_7
      (then_step fresh greeted_7 joined_7
        (then_step fresh fresh greeted_7 (start_of fresh) (greeted 0 7 fresh))
        (asked_to_join leaf_join greeted_7))
      (asked_to_register ssh_register joined_7)

reachable-IsSound_example : IsSound registered_7
reachable-IsSound_example =
    reachable-IsSound platform nowhere 20 address [] fresh registered_7 made run_7

unlocked_7 : registered_7.children_locked ≡ false
unfolding handle_hello handle_join join_as_leaf handle_register register_service insert remove
    lookup add_child_leaf add_child_service add_service_to_leaf new_children
unlocked_7 = refl

offers_7 : offers 7 "ssh" registered_7.children ≡ true
unfolding handle_hello handle_join join_as_leaf handle_register register_service insert remove
    lookup add_child_leaf add_child_service add_service_to_leaf new_children leaf_address vk_offers
    add_service_provider
offers_7 = refl

offered-served_example :
    (a : AddrPort) × (get_random_provider (λ n. 0) "ssh" registered_7.children ≡ some a)
    × (handle_get platform nowhere
          (λ n. 0)
          (record { service = "ssh"; hop_count = 1 })
          registered_7
          tt
        ≡ (done (record { pkt_type = pt_get_response; id = registered_7.id; addr = print a }), tt))
offered-served_example =
    offered-served platform nowhere 20 address [] fresh registered_7 (λ n. 0) 7
      (record { service = "ssh"; hop_count = 1 }) tt (λ n h. h) made run_7 unlocked_7 refl offers_7

handle_join_lem_example :
    Enters platform leaf_join top 8
      (lets_in platform leaf_join top)
      (handle_join platform leaf_join top)
handle_join_lem_example = handle_join_lem platform leaf_join top 8 refl refl

handle_register_lem_example :
    let answer = handle_register platform ssh_register low in
    (is_done answer.0 ≡ registers_well platform ssh_register low)
    × (listed_at "ssh" 7 answer.1.children ≡ (
        if registers_well platform ssh_register low
          && (◌==◌ {K = String} "ssh" "ssh" && ◌==◌ {K = ℕ} 7 7)
        then read_address platform ssh_register
        else listed_at "ssh" 7 low.children))
handle_register_lem_example = handle_register_lem platform low "ssh" 7 ssh_register refl

-- A VK that accepts the JOIN and refuses the REGISTERs.
abbrev refusing : Http Unit
refusing = record nowhere {
  post_join = λ url req s. (some (202, (20, 1)), s);
  post_register = λ url req s. (some 400, s);
}

refused :
    (register_services platform refusing
      (url_at platform address ep_register)
      10
      low.children.services
      tt).0
    ≡ some (bad_status 400)
unfolding register_services register_providers
refused = refl

failed_join-Frozen_example :
    let w = (join_vk platform refusing "2:6000" low tt).1.0 in
    (w.children ≡ low.children) × Unanswered platform w
failed_join-Frozen_example =
    failed_join-Frozen platform refusing "2:6000" address 202 (20, 1) low tt (bad_status 400)
      (join_vk platform refusing "2:6000" low tt).1.0 refl refl refl refl refl refl refused
      (start_of (join_vk platform refusing "2:6000" low tt).1.0)

-- A HELLO at the time 1 that is pruned at 4, before 5 have passed.
hello_in_time_example :
    let later = pruner_round 4 (handle_hello 1 7 top).1 in
    is_done (handle_join platform leaf_join later).0 ≡ (
      not (is_bad_id 7 top)
      && (not (has_lasted 4 1 top.prune_times.pending_hello) && admits platform leaf_join top))
hello_in_time_example = hello_in_time platform leaf_join 1 4 top refl refl
