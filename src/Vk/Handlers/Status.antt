-- ===== src/Vk/Handlers/Status.antt =====
-- STATUS: `serveStatus` of implementations/slims/slims/vk/handlers.go, and `Snapshot` of
-- implementations/slims/slims/vk/vaultkeeper.go, which gathers the state under all locks.
use orv.Base.{
  ℕ, ◌+◌, Bool, not, String, List, [], ◌∷◌, Option, none, some, map, ltb, nat_eq, text_eq,
  if◌then◌else◌,
}
use orv.Base.Map.{Map, lookup, insert, keys}
use orv.Base.Int.{ℤ}
use orv.Version.{VersionSet, as_bytes}
use orv.Protocol.MessageType
use orv.Vk.State.{
  AddrPort, body_not_accepted, Cvk, Leaf, LeafService, PruneTimes, StatusBody, status_resp, Wire,
  Platform, VaultKeeper, respond_success,
}
use orv.Vk.Handlers.Outcome.{MessageHandler, fail, is_nil}

-- `VKSnapshot`. The services of a child VK are shared with it, those of a leaf are copied without
-- their timers.
pub record Snapshot : Type 0 where
  pub id : ℕ
  pub addr : AddrPort
  pub accepting_connections : Bool
  pub versions : VersionSet
  pub height : ℕ
  pub parent_id : ℕ
  pub parent_addr : AddrPort
  pub prune_times : PruneTimes
  pub cvks : Map ℕ Cvk
  pub leaves : Map ℕ (Map String (ℤ × AddrPort))
  pub hb_enabled : Bool
  pub hb_frequency : ℤ
  pub hb_limit : ℕ

abbrev pub leaf_services : Leaf → Map String (ℤ × AddrPort)
leaf_services l = map (λ (p : String × LeafService). (p.0, (p.1.stale, p.1.addr))) l.services

unfoldable pub snapshot : {P : Platform} → VaultKeeper P → Snapshot
snapshot {P} vk = record {
  id = vk.id;
  addr = vk.addr;
  accepting_connections = vk.accepting;
  versions = vk.version_set;
  height = vk.structure.height;
  parent_id = vk.structure.parent_id;
  parent_addr = vk.structure.parent_addr;
  prune_times = vk.prune_time;
  cvks = P.cvk_table.entries vk.children.cvks;
  leaves = map (λ (p : ℕ × Leaf). (p.0, leaf_services p.1)) vk.children.leaves;
  hb_enabled = vk.hb.auto;
  hb_frequency = vk.hb.freq;
  hb_limit = vk.hb.bad_heartbeat_limit;
}

abbrev pub count_of : Option ℕ → ℕ
count_of none = 0
count_of (some n) = n

-- `services[service] += 1`.
unfoldable pub count_service : String → Map String ℕ → Map String ℕ
count_service s m = insert s (count_of (lookup s m) + 1) m

unfoldable pub count_services : List String → Map String ℕ → Map String ℕ
count_services [] m = m
count_services (s ∷ ss) m = count_services ss (count_service s m)

-- The loops over the child VKs and over the leaves.
unfoldable pub count_children : List (List String) → Map String ℕ → Map String ℕ
count_children [] m = m
count_children (ss ∷ rest) m = count_children rest (count_services ss m)

-- The services of each child VK, then of each leaf.
abbrev pub offered_lists : Snapshot → List (List String) × List (List String)
offered_lists s = (
  map (λ (p : ℕ × Cvk). keys p.1.services) s.cvks,
  map (λ (p : ℕ × Map String (ℤ × AddrPort)). keys p.1) s.leaves,
)

unfoldable pub status_body : Snapshot → StatusBody
status_body s = record {
  id = s.id;
  addr = s.addr;
  versions_supported = as_bytes s.versions;
  height = s.height;
  parent = some (s.parent_id, s.parent_addr);
  prune_times = s.prune_times;
  child_vks = map (λ (p : ℕ × Cvk). (p.0, p.1.addr)) s.cvks;
  child_leaves = keys s.leaves;
  services = count_children (offered_lists s).1 (count_children (offered_lists s).0 []);
  auto_hb_enabled = s.hb_enabled;
  auto_hb_frequency = s.hb_frequency;
  auto_hb_bad_limit = s.hb_limit;
}

-- `uint(proto.Size(st)) > uint(slims.MaxPacketSize)-10`.
abbrev pub too_large : Wire → StatusBody → Bool
too_large w b = ltb 1014 (w.status_size b)

-- The services are dropped first, then the leaves, the child VKs, and the parent, each if what is
-- left is still too large.
unfoldable pub trim_services : Wire → StatusBody → StatusBody
trim_services w b = if too_large w b then record b { services = [] } else b

unfoldable pub trim_leaves : Wire → StatusBody → StatusBody
trim_leaves w b = if too_large w b then record b { child_leaves = [] } else b

unfoldable pub trim_cvks : Wire → StatusBody → StatusBody
trim_cvks w b = if too_large w b then record b { child_vks = [] } else b

unfoldable pub trim_parent : Wire → StatusBody → StatusBody
trim_parent w b = if too_large w b then record b { parent = none } else b

unfoldable pub trim_status : Wire → StatusBody → StatusBody
trim_status w b = trim_parent w (trim_cvks w (trim_leaves w (trim_services w b)))

unfoldable pub serve_status : {P : Platform} → Wire → MessageHandler P
serve_status w hdr body sender vk = if not (is_nil body) then fail body_not_accepted vk else (
  respond_success vk sender vk.version_set.highest MessageType.status_resp
      (status_resp (trim_status w (status_body (snapshot vk)))),
  none,
)
