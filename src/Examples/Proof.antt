-- ===== src/Examples/Proof.antt =====
-- The children of a Vaultkeeper of the proof of concept: a leaf with one service, and a child VK.
use orv.Base.{ℕ, ◌≡◌, refl, String, [], ◌∷◌, some, nat_eq, text_eq}
use orv.Base.Int.{pos}
use orv.Base.Map.{Map, lookup, remove}
use orv.Vk.State.{AddrPort, addr_port}
use orv.Proof.Children.{ProvenService, ChildVk, ChildTable, prune_cvk, prune_leaf_service}
use orv.Proof.Children.Pruning.{fire, get_random_provider}
use orv.Proof.Children.Views.{fire-prune_leaf_service}

abbrev pub address : AddrPort
address = addr_port 2 6000

abbrev ssh : ProvenService
ssh = record { prune_timer = 0; stale_time = pos 9; addr = address }

abbrev pub leaf_7 : Map String ProvenService
leaf_7 = ("ssh", ssh) ∷ []

abbrev pub cvk_9 : ChildVk
cvk_9 = record { prune_timer = 1; services = ("web", address) ∷ []; addr = address }

abbrev pub table : ChildTable
table = record {
  services =
      ("ssh", record { c_id = 7; addr = address } ∷ [])
      ∷ ("web", record { c_id = 9; addr = address } ∷ [])
      ∷ [];
  serviceless_leaf_prune_time = pos 5;
  cvk_prune_time = pos 5;
  leaves = (7, leaf_7) ∷ [];
  vks = (9, cvk_9) ∷ [];
  clock = record {
    running = (0, (prune_leaf_service 7 "ssh", pos 9)) ∷ (1, (prune_cvk 9, pos 5)) ∷ [];
    next_number = 2;
  };
}

timer_0 : lookup 0 table.clock.running ≡ some (prune_leaf_service 7 "ssh", pos 9)
unfolding lookup
timer_0 = refl

found_7 : lookup 7 table.leaves ≡ some leaf_7
unfolding lookup
found_7 = refl

fire-prune_leaf_service_example :
    (lookup 7 (fire 0 table).leaves ≡ some (remove "ssh" leaf_7))
    × ((int_n : ℕ → ℕ) (t : String)
        → get_random_provider int_n t (fire 0 table) ≡ get_random_provider int_n t table)
fire-prune_leaf_service_example =
    fire-prune_leaf_service 0 7 "ssh" (pos 9) leaf_7 table timer_0 found_7
