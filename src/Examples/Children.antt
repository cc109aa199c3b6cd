-- ===== src/Examples/Children.antt =====
-- The children of the example's node.
use orv.Base.{
  ℕ, ◌≡◌, refl, arith, true, false, not, ◌&&◌, String, [], ◌∷◌, ◌++◌, none, some, is_some, nat_eq,
  text_eq, ◌==◌, if◌then◌else◌,
}
use orv.Base.Map.{lookup}
use orv.Base.Int.{ℤ, pos}
use orv.Vk.State.{
  AddrPort, unknown_child_id, Leaf, LeafService, Timers, prune_service, prune_leaf, Cvk,
  cleanup_cvk, VaultKeeper,
}
use orv.Vk.Timers.{is_armed}
use orv.Vk.Providers.{remove_provider}
use orv.Vk.Providers.Laws.{provider, providers_of, deregister_packet, remove_provider_notifies}
use orv.Vk.Children.{load_cvk, load_leaf, add_service, run_callback}
use orv.Vk.Children.Views.{offers, is_child, add_service_views}
use orv.Vk.Children.Rejoining.{rejoined, late_cleanup}
use orv.Vk.Handlers.Forgetting.{deregistered, deregistered-views}
use orv.Vk.Handlers.Pruners.{old_pruner_armed}
use orv.Examples.Tables.{platform}
use orv.Examples.State.{fresh, leaf_addr, with_leaf, with_leaf-Coherent}

-- The leaf 7 with the service "ssh", whose timer is 1.
abbrev ssh : LeafService
ssh = record { pruner = 1; stale = pos 9; addr = leaf_addr }

abbrev leaf_7 : Leaf
leaf_7 = record { serviceless_pruner = 0; services = ("ssh", ssh) ∷ [] }

abbrev clock : Timers
clock = record {
  timers =
      (1, record { callback = prune_service 7 "ssh"; armed = true })
      ∷ (0, record { callback = prune_leaf 7; armed = false })
      ∷ [];
  next_timer = 2;
  waiting = [];
}

-- Where the leaf stands in the table.
abbrev one_leaf : VaultKeeper platform
one_leaf = record fresh {
  children = record {
    cvks = [];
    leaves = (7, leaf_7) ∷ [];
    all_services = ("ssh", (7, leaf_addr) ∷ []) ∷ [];
  };
  clock = clock;
}

abbrev cvk_9 : Cvk
cvk_9 = record { services = ("web", leaf_addr) ∷ []; addr = leaf_addr }

-- The child VK 9 with the service "web".
abbrev one_cvk : VaultKeeper platform
one_cvk = record fresh {
  children = record {
    cvks = (9, cvk_9) ∷ [];
    leaves = [];
    all_services = ("web", (9, leaf_addr) ∷ []) ∷ [];
  };
}

no_leaf_9 : load_leaf 9 one_cvk ≡ none
unfolding lookup
no_leaf_9 = refl

no_cvk_7 : load_cvk 7 one_leaf ≡ none
unfolding lookup
no_cvk_7 = refl

leaf_found : load_leaf 7 one_leaf ≡ some leaf_7
unfolding lookup
leaf_found = refl

ssh_found : lookup "ssh" leaf_7.services ≡ some ssh
unfolding lookup
ssh_found = refl

ssh_armed : is_armed 1 clock ≡ true
unfolding is_armed lookup
ssh_armed = refl

add_service_views_example :
    let i : ℕ = 7 in
    let s : String = "ssh" in
    let a : AddrPort = leaf_addr in
    let d : ℤ = pos 9 in
    let vk : VaultKeeper platform = one_leaf in
    let t : String = "ssh" in
    let j : ℕ = 7 in
    ((add_service i s a d vk).0 ≡ (if is_child i vk then none else some unknown_child_id))
    × (offers t j (add_service i s a d vk).1
        ≡ (if is_child i vk && (s == t && i == j) then some a else offers t j vk))
    × (provider t j (add_service i s a d vk).1
        ≡ (if is_child i vk && (s == t && i == j) then some a else provider t j vk))
add_service_views_example =
    add_service_views {P = platform} 7 "ssh" leaf_addr (pos 9) one_leaf "ssh" 7

deregistered-views_example :
    let i : ℕ = 7 in
    let s : String = "ssh" in
    let vk : VaultKeeper platform = with_leaf in
    let t : String = "ssh" in
    let j : ℕ = 7 in
    (offers t j (deregistered i s vk) ≡ (if s == t && i == j then none else offers t j vk))
    × (provider t j (deregistered i s vk) ≡ (if s == t && i == j then none else provider t j vk))
deregistered-views_example =
    deregistered-views {P = platform} 7 "ssh" with_leaf "ssh" 7 with_leaf-Coherent.disjoint

old_pruner_armed_example :
    let i : ℕ = 7 in
    let s : String = "ssh" in
    let a : AddrPort = leaf_addr in
    let d : ℤ = pos 9 in
    let vk : VaultKeeper platform = one_leaf in
    let l : Leaf = leaf_7 in
    let x : LeafService = ssh in
    is_armed x.pruner (add_service i s a d (deregistered i s vk)).1.clock ≡ true
old_pruner_armed_example =
    old_pruner_armed {P = platform} 7 "ssh" leaf_addr (pos 9) one_leaf leaf_7 ssh leaf_found
      no_cvk_7 ssh_found (omega arith) ssh_armed

web_found : is_some (lookup "web" cvk_9.services) ≡ true
unfolding lookup
web_found = refl

cvk_found : load_cvk 9 one_cvk ≡ some cvk_9
unfolding lookup
cvk_found = refl

late_cleanup_example :
    let i : ℕ = 9 in
    let a : AddrPort = leaf_addr in
    let p : AddrPort = leaf_addr in
    let d : ℤ = pos 0 in
    let t : String = "web" in
    let vk : VaultKeeper platform = one_cvk in
    let c : Cvk = cvk_9 in
    let after = run_callback (cleanup_cvk i c.services) (add_service i t p d (rejoined i a vk)).1 in
    (offers t i after ≡ some p) × (provider t i after ≡ none)
late_cleanup_example =
    late_cleanup {P = platform} 9 leaf_addr leaf_addr (pos 0) "web" one_cvk cvk_9 no_leaf_9
      cvk_found web_found

remove_provider_notifies_example :
    let s : String = "ssh" in
    let i : ℕ = 7 in
    let vk : VaultKeeper platform = with_leaf in
    (remove_provider s i vk).1.sent ≡ (
      if is_some (providers_of s vk) && not (is_some (providers_of s (remove_provider s i vk).1))
      then vk.sent ++ deregister_packet s vk ∷ []
      else vk.sent)
remove_provider_notifies_example = remove_provider_notifies {P = platform} "ssh" 7 with_leaf
