-- ===== src/Examples/State.antt =====
-- A Vaultkeeper with one leaf, and what its packets are read as.
use orv.Base.{
  ℕ, ◌≡◌, refl, true, false, [], ◌∷◌, none, some, nat_eq, text_eq, ◌==◌, if◌then◌else◌, length,
}
use orv.Base.Int.{pos}
use orv.Version.{Version, VersionSet}
use orv.Protocol.{Header}
use orv.Vk.State.{AddrPort, no_addr, addr_port, PruneTimes, Heartbeat, Wire, VaultKeeper}
use orv.Vk.Children.{add_leaf, add_service}
use orv.Vk.Children.Coherent.{Coherent, add_leaf-Coherent, add_service-Coherent}
use orv.Vk.Requests.{new_vault_keeper}
use orv.Vk.Dispatch.Runs.{new-Coherent}
use orv.Examples.Tables.{platform}

abbrev pub addr : AddrPort
addr = addr_port 1 5000

abbrev pub leaf_addr : AddrPort
leaf_addr = addr_port 2 6000

abbrev pub times : PruneTimes
times = record { hello = pos 3; serviceless_leaf = pos 5; child_vk = pos 5 }

abbrev pub heartbeat : Heartbeat
heartbeat = record { auto = true; freq = pos 1; bad_heartbeat_limit = 3; bad_heartbeat_count = 0 }

abbrev pub version_1_0 : Version
version_1_0 = record { major = 1; minor = 0 }

abbrev pub versions : VersionSet
versions = record { all = (1, 0 ∷ []) ∷ []; highest = version_1_0 }

-- A node that has just been made.
abbrev pub fresh : VaultKeeper platform
fresh = record {
  id = 1;
  addr = addr;
  accepting = false;
  version_set = versions;
  structure = record { height = 0; parent_id = 0; parent_addr = no_addr };
  prune_time = times;
  children = record { cvks = []; leaves = []; all_services = [] };
  pending_hellos = [];
  hb = heartbeat;
  closed_list_tokens = [];
  clock = record { timers = []; next_timer = 0; waiting = [] };
  sent = [];
}

pub fresh_new : new_vault_keeper {P = platform} 1 addr versions times heartbeat ≡ some fresh
unfolding new_vault_keeper
fresh_new = refl

pub fresh-Coherent : Coherent {P = platform} fresh
fresh-Coherent = new-Coherent {P = platform} 1 addr versions times heartbeat fresh fresh_new

-- The same node with the leaf 7, which offers "ssh".
abbrev pub with_leaf : VaultKeeper platform
with_leaf =
    (add_service {P = platform} 7 "ssh" leaf_addr (pos 9) (add_leaf {P = platform} 7 fresh).1).1

pub with_leaf-Coherent : Coherent {P = platform} with_leaf
with_leaf-Coherent =
    add_service-Coherent {P = platform} 7 "ssh" leaf_addr (pos 9)
      (add_leaf {P = platform} 7 fresh).1 (add_leaf-Coherent {P = platform} 7 fresh fresh-Coherent)

-- A packet's body is read by its length alone, and a text is an address if it is not empty.
abbrev pub wire : Wire
wire = record {
  unmarshal_join = λ b. some (record { is_vk = false; vk_addr = ""; height = 0 });
  unmarshal_register = λ b. some (record { service = "ssh"; address = "x"; stale = "9s" });
  unmarshal_deregister = λ b. some "ssh";
  unmarshal_merge = λ b. some (record { height = 0; vk_address = some "x" });
  unmarshal_increment = λ b. some (length b);
  unmarshal_service_heartbeat = λ b. some ("ssh" ∷ []);
  unmarshal_list = λ b. some (record { token = "t"; hop_count = 2; response_addr = "x" });
  unmarshal_get =
      λ b. some (record { token = "t"; hop_limit = 2; response_addr = "x"; service = "ssh" });
  parse_addr_port = λ s. if s == "" then none else some leaf_addr;
  resolve_udp_addr = λ s. some leaf_addr;
  parse_duration = λ s. some (pos 9);
  print_addr = λ a. "x";
  status_size = λ b. length b.child_leaves;
}

abbrev pub header : ℕ → Header
header id = record { version = version_1_0; shorthand = false; type = 1; id = id }

-- A child of node 5.
abbrev pub below_5 : VaultKeeper platform
below_5 = record fresh {
  accepting = true;
  structure = record { height = 0; parent_id = 5; parent_addr = leaf_addr };
}
