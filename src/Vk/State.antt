-- ===== src/Vk/State.antt =====
-- The state of a Vaultkeeper: vaultkeeper.go, `leaf` of children.go, `PruneTimes` of options.go, and
-- the messages of implementations/slims/slims/pb/payloads.proto. Each goroutine that waits for a
-- lock, of a timer or of the table of child VKs, is an entry of `waiting`; each packet that is
-- sent is an entry of `sent`, the latest last.
use orv.Base.{
  ℕ, ◌≡◌, ◌↔◌, arith, Bool, true, false, ◌&&◌, String, List, [], ◌∷◌, ◌++◌, Option, Eq, ◌==◌,
  nat_eq, text_eq,
}
use orv.Base.Map.{Map}
use mathlib.Core.List.{Perm}
use orv.Base.Int.{ℤ}
use orv.Version.{Version, VersionSet}
use orv.Protocol.{Header}
use orv.Vk.Table.{Expiring, Tokens}

-- `netip.AddrPort`: the zero value, which is not valid, or an address with a port.
pub data AddrPort : Type 0 where
  no_addr : AddrPort
  addr_port : ℕ → ℕ → AddrPort

abbrev pub is_valid : AddrPort → Bool
is_valid no_addr = false
is_valid (addr_port ip port) = true

abbrev pub addr_beq : AddrPort → AddrPort → Bool
addr_beq no_addr no_addr = true
addr_beq (addr_port a p) (addr_port b q) = a == b && p == q
addr_beq _ _ = false

pub addr_beq_iff : (a b : AddrPort) → (addr_beq a b ≡ true) ↔ (a ≡ b)
addr_beq_iff no_addr no_addr = ground arith
addr_beq_iff no_addr (addr_port b q) = ground arith
addr_beq_iff (addr_port a p) no_addr = ground arith
addr_beq_iff (addr_port a p) (addr_port b q) = ground arith

instance abbrev pub addr_eq : Eq AddrPort
addr_eq = record { beq = addr_beq; beq_iff = addr_beq_iff }

-- `pb.Fault_Errnos`.
pub data Errno : Type 0 where
  unspecified unknown_type body_not_accepted body_required shorthand_not_accepted : Errno
  version_not_supported malformed_body malformed_address unknown_child_id bad_token : Errno
  bad_service_name hello_required bad_height id_in_use bad_stale_time not_root not_parent : Errno
  all_unknown : Errno

-- The bodies that a Vaultkeeper reads.
pub record JoinBody : Type 0 where
  pub is_vk : Bool
  pub vk_addr : String
  pub height : ℕ

pub record RegisterBody : Type 0 where
  pub service : String
  pub address : String
  pub stale : String

pub record MergeBody : Type 0 where
  pub height : ℕ
  pub vk_address : Option String

pub record ListBody : Type 0 where
  pub token : String
  pub hop_count : ℕ
  pub response_addr : String

pub record GetBody : Type 0 where
  pub token : String
  pub hop_limit : ℕ
  pub response_addr : String
  pub service : String

-- How quickly records are pruned.
pub record PruneTimes : Type 0 where
  pub hello : ℤ
  pub serviceless_leaf : ℤ
  pub child_vk : ℤ

-- `pb.StatusResp`. Durations and addresses stand as values, where the message has their texts; a map
-- or list that was dropped is empty, and a parent that was dropped is `none`.
pub record StatusBody : Type 0 where
  pub id : ℕ
  pub addr : AddrPort
  pub versions_supported : List ℕ
  pub height : ℕ
  pub parent : Option (ℕ × AddrPort)
  pub prune_times : PruneTimes
  pub child_vks : Map ℕ AddrPort
  pub child_leaves : List ℕ
  pub services : Map String ℕ
  pub auto_hb_enabled : Bool
  pub auto_hb_frequency : ℤ
  pub auto_hb_bad_limit : ℕ

-- The bodies that a Vaultkeeper sends. `no_body` is a packet with a header alone.
pub data Payload : Type 0 where
  no_body : Payload
  fault : ℕ → Errno → Payload
  hello_ack join_accept merge_accept increment increment_ack : ℕ → Payload
  join : AddrPort → ℕ → Payload
  register : String → AddrPort → Payload
  register_accept deregister deregister_ack list_ack get_ack : String → Payload
  merge : ℕ → AddrPort → Payload
  service_heartbeat_ack : List String → List String → Payload
  list : ListBody → Payload
  get : GetBody → Payload
  list_resp : String → List String → Payload
  get_resp : String → String → Option AddrPort → Payload
  status_resp : StatusBody → Payload

pub record Packet : Type 0 where
  pub to : AddrPort
  pub header : Header
  pub payload : Payload

-- What this code takes from protobuf and from Go's standard library on texts: reading a message from
-- a body, an address and a duration from a text, and writing an address.
pub record Wire : Type 0 where
  pub unmarshal_join : List ℕ → Option JoinBody
  pub unmarshal_register : List ℕ → Option RegisterBody
  pub unmarshal_deregister : List ℕ → Option String
  pub unmarshal_merge : List ℕ → Option MergeBody
  pub unmarshal_increment : List ℕ → Option ℕ
  pub unmarshal_service_heartbeat : List ℕ → Option (List String)
  pub unmarshal_list : List ℕ → Option ListBody
  pub unmarshal_get : List ℕ → Option GetBody
  pub parse_addr_port : String → Option AddrPort
  pub resolve_udp_addr : String → Option AddrPort
  pub parse_duration : String → Option ℤ
  pub print_addr : AddrPort → String
  -- `proto.Size` of a status.
  pub status_size : StatusBody → ℕ

-- A child VK: its services and the address that it accepts packets on.
pub record Cvk : Type 0 where
  pub services : Map String AddrPort
  pub addr : AddrPort

pub record LeafService : Type 0 where
  pub pruner : ℕ
  pub stale : ℤ
  pub addr : AddrPort

pub record Leaf : Type 0 where
  pub serviceless_pruner : ℕ
  pub services : Map String LeafService

-- What a timer runs, or the clean-up of an expired child VK with the services that it had.
pub data Callback : Type 0 where
  prune_service : ℕ → String → Callback
  prune_leaf : ℕ → Callback
  cleanup_cvk : ℕ → Map String AddrPort → Callback

pub record Timer : Type 0 where
  pub callback : Callback
  pub armed : Bool

-- The tables that a Vaultkeeper keeps in `expiring.Table`s, and the order in which the goroutines of a
-- wait group get to send their packets: any order of those packets.
pub record Platform : Type 1 where
  pub cvk_table : Expiring ℕ Cvk
  pub hello_table : Expiring ℕ Bool
  pub token_table : Tokens
  pub interleave : List Packet → List Packet
  pub interleave-perm : (ps : List Packet) → Perm (interleave ps) ps

pub record Children (P : Platform) : Type 0 where
  pub cvks : P.cvk_table.Table
  pub leaves : Map ℕ Leaf
  pub all_services : Map String (Map ℕ AddrPort)

-- `parent_id` is 0 and `parent_addr` is not valid at a root.
pub record Structure : Type 0 where
  pub height : ℕ
  pub parent_id : ℕ
  pub parent_addr : AddrPort

pub record Heartbeat : Type 0 where
  pub auto : Bool
  pub freq : ℤ
  pub bad_heartbeat_limit : ℕ
  pub bad_heartbeat_count : ℕ

pub record Timers : Type 0 where
  pub timers : Map ℕ Timer
  pub next_timer : ℕ
  pub waiting : List Callback

pub record VaultKeeper (P : Platform) : Type 0 where
  pub id : ℕ
  pub addr : AddrPort
  pub accepting : Bool
  pub version_set : VersionSet
  pub structure : Structure
  pub prune_time : PruneTimes
  pub children : Children P
  pub pending_hellos : P.hello_table.Table
  pub hb : Heartbeat
  pub closed_list_tokens : P.token_table.Table
  pub clock : Timers
  pub sent : List Packet

-- Puts a packet on the wire.
unfoldable pub send : {P : Platform} → VaultKeeper P → Packet → VaultKeeper P
send vk p = record vk { sent = vk.sent ++ p ∷ [] }

-- `respondSuccess`: the header of an answer names the version and this node.
unfoldable pub respond_success :
    {P : Platform} → VaultKeeper P → AddrPort → Version → ℕ → Payload → VaultKeeper P
unfolding send
respond_success vk to version type payload = send vk (record {
  to = to;
  header = record { version = version; shorthand = false; type = type; id = vk.id };
  payload = payload;
})
