-- ===== src/Vk/Requests.antt =====
-- What a Vaultkeeper does of its own accord: `New`, `Start`, `Stop` and `runAutoHeartbeat` of
-- implementations/slims/slims/vk/vaultkeeper.go, and `HeartbeatParent`, `Leave` and `Merge` of
-- implementations/slims/slims/vk/requests.go. What its peer answers is an argument. The packets of
-- HELLO and LEAVE, which the client library writes, are left out.
pub mod Missed
pub mod Adoption
use orv.Base.{
  ℕ, ◌+◌, ◌%◌, ◌^◌, Bool, true, false, not, ◌&&◌, [], ◌∷◌, Option, none, some, ◌==◌, nat_eq, leb,
  if◌then◌else◌,
}
use orv.Version.{VersionSet}
use orv.Protocol.MessageType
use orv.Vk.State.{
  AddrPort, no_addr, is_valid, addr_eq, no_body, PruneTimes, Heartbeat, merge, Platform,
  VaultKeeper, send,
}
use orv.Vk.Providers.{library_version, message_parent}
use orv.Vk.Children.{add_cvk}
use orv.Vk.Handlers.Tree.{raise_height, drop_parent, send_increments}

-- What a MERGE that was sent came to: nothing or garbage came back, the peer sent a FAULT, or any
-- other answer, which is taken for an acceptance. The HELLO before it gave the ID of the peer.
pub data MergeAnswer : Type 0 where
  no_answer merge_fault : MergeAnswer
  answered : MergeAnswer

module _ {P : Platform} where
  abbrev pub set_bad_count : ℕ → VaultKeeper P → VaultKeeper P
  set_bad_count n vk = record vk { hb = record (vk.hb) { bad_heartbeat_count = n } }

  -- `New`, where the options `WithVersions`, `WithPruneTimes` and `WithCustomHeartbeats` are
  -- arguments. Vk.Options has the options themselves, `WithDragonsHoard` among them.
  unfoldable pub new_vault_keeper :
      ℕ → AddrPort → VersionSet → PruneTimes → Heartbeat → Option (VaultKeeper P)
  new_vault_keeper id addr versions prune hb =
      if not (is_valid addr)
      then none
      else some (record {
        id = id;
        addr = addr;
        accepting = false;
        version_set = versions;
        structure = record { height = 0; parent_id = 0; parent_addr = no_addr };
        prune_time = prune;
        children = record { cvks = P.cvk_table.empty; leaves = []; all_services = [] };
        pending_hellos = P.hello_table.empty;
        hb = hb;
        closed_list_tokens = P.token_table.empty;
        clock = record { timers = []; next_timer = 0; waiting = [] };
        sent = [];
      })

  -- `Start`, where `listens` says whether the socket was opened: a start that fails leaves the
  -- Vaultkeeper accepting.
  unfoldable pub start : Bool → VaultKeeper P → Bool × VaultKeeper P
  start listens vk = if vk.accepting then (true, vk) else (listens, record vk { accepting = true })

  unfoldable pub stop_accepting : VaultKeeper P → VaultKeeper P
  stop_accepting vk = record vk { accepting = false }

  -- The end of a tick: too many bad heartbeats in a row drop the parent, if it is still the one
  -- that was cached when the tick began.
  unfoldable pub check_limit : ℕ → AddrPort → VaultKeeper P → VaultKeeper P
  check_limit p addr vk =
      if leb vk.hb.bad_heartbeat_limit vk.hb.bad_heartbeat_count
      then set_bad_count 0 (
          if vk.structure.parent_id == p && vk.structure.parent_addr == addr
          then drop_parent vk
          else vk)
      else vk

  -- `HeartbeatParent`: the packet that it sends.
  unfoldable pub heartbeat_parent : VaultKeeper P → VaultKeeper P
  heartbeat_parent vk = message_parent MessageType.vk_heartbeat no_body vk

  -- The count of bad heartbeats once the parent has answered or not.
  unfoldable pub note_heartbeat : Bool → VaultKeeper P → VaultKeeper P
  note_heartbeat acknowledged vk =
      if acknowledged
      then set_bad_count 0 vk
      else set_bad_count ((vk.hb.bad_heartbeat_count + 1) % 2 ^ 32) vk

  -- One tick of `runAutoHeartbeat`, where nothing else runs meanwhile.
  unfoldable pub heartbeat_tick : Bool → VaultKeeper P → VaultKeeper P
  heartbeat_tick acknowledged vk =
      if not vk.accepting
      then vk
      else if not (is_valid vk.structure.parent_addr)
      then set_bad_count 0 vk
      else check_limit vk.structure.parent_id vk.structure.parent_addr
          (note_heartbeat acknowledged (heartbeat_parent vk))

  -- `Leave`: the parent is forgotten, whether or not it can be told.
  unfoldable pub leave : VaultKeeper P → VaultKeeper P
  leave vk = drop_parent vk

  -- The MERGE packet to the peer.
  unfoldable pub send_merge : AddrPort → VaultKeeper P → VaultKeeper P
  send_merge target vk = send vk (record {
    to = target;
    header = record {
      version = library_version;
      shorthand = false;
      type = MessageType.merge;
      id = vk.id;
    };
    payload = merge vk.structure.height vk.addr;
  })

  -- What follows the answer to a MERGE: the height rises, the peer becomes a child, and the other
  -- child VKs are told. Where the peer is a leaf the height has risen all the same.
  unfoldable pub adopt : ℕ → AddrPort → VaultKeeper P → Bool × VaultKeeper P
  adopt peer target vk =
      let (is_leaf, vk') = add_cvk peer target (raise_height vk) in
      if is_leaf
      then (false, vk')
      else (true, send_increments (some peer) (P.cvk_table.entries vk'.children.cvks) vk')

  -- `Merge`, once the HELLO was acknowledged by `peer`; true if it ends without an error.
  unfoldable pub request_merge : MergeAnswer → ℕ → AddrPort → VaultKeeper P → Bool × VaultKeeper P
  request_merge no_answer peer target vk = (false, send_merge target vk)
  request_merge merge_fault peer target vk = (false, send_merge target vk)
  request_merge answered peer target vk = adopt peer target (send_merge target vk)
