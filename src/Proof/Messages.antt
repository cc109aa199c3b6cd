-- ===== src/Proof/Messages.antt =====
-- implementations/proof/proof/endpoints.go: the requests and the answers of each endpoint, with the fields
-- of their bodies. The packet type of a request is left out: no handler reads it, and no request of this
-- code sets it.
use orv.Base.{ℕ, Bool, String, List, Option}
use orv.Proof.Children.Pruning.{ChildrenSnapshot}
use orv.Proof.Keeper.{PacketType}

-- `HelloResp`.
pub record HelloResp : Type 0 where
  pub pkt_type : PacketType
  pub id : ℕ
  pub height : ℕ

-- The body of `StatusResp`, with the prune times as they are printed.
pub record StatusBody : Type 0 where
  pub id : ℕ
  pub height : ℕ
  pub children : ChildrenSnapshot
  pub parent_id : ℕ
  pub parent_address : String
  pub pending_hello : String
  pub serviceless_child : String
  pub cvk : String

pub record StatusResp : Type 0 where
  pub pkt_type : PacketType
  pub body : StatusBody

-- `JoinReq`.
pub record JoinReq : Type 0 where
  pub id : ℕ
  pub height : ℕ
  pub vk_addr : String
  pub is_vk : Bool

-- `JoinAcceptResp`.
pub record JoinAcceptResp : Type 0 where
  pub pkt_type : PacketType
  pub id : ℕ
  pub height : ℕ

-- `RegisterReq`.
pub record RegisterReq : Type 0 where
  pub id : ℕ
  pub service : String
  pub address : String
  pub stale : String

-- `RegisterAcceptResp`.
pub record RegisterAcceptResp : Type 0 where
  pub pkt_type : PacketType
  pub id : ℕ
  pub service : String

-- `VKHeartbeatAck`.
pub record VkHeartbeatAck : Type 0 where
  pub pkt_type : PacketType
  pub id : ℕ

-- `ServiceHeartbeatReq`.
pub record ServiceHeartbeatReq : Type 0 where
  pub id : ℕ
  pub services : List String

-- `ServiceHeartbeatAck`.
pub record ServiceHeartbeatAck : Type 0 where
  pub pkt_type : PacketType
  pub id : ℕ
  pub services : List String

-- `ListResponseResp`.
pub record ListResponseResp : Type 0 where
  pub pkt_type : PacketType
  pub id : ℕ
  pub services : List String

-- `GetReq`.
pub record GetReq : Type 0 where
  pub service : String
  pub hop_count : ℕ

-- `GetResponseResp`.
pub record GetResponseResp : Type 0 where
  pub pkt_type : PacketType
  pub id : ℕ
  pub addr : String

-- A request over HTTP to an address, by the third-party client: the status code, with the body as it is
-- read into the result where the code reads one, or an error. S is the state of the world outside. The
-- bodies of JOIN, LIST and GET answers are the ID with the height, the services and the address.
pub record Http (S : Type 0) : Type 0 where
  pub get_status : String → S → Option (ℕ × StatusBody) × S
  pub post_hello : String → ℕ → S → Option ℕ × S
  pub post_join : String → JoinReq → S → Option (ℕ × (ℕ × ℕ)) × S
  pub post_register : String → RegisterReq → S → Option ℕ × S
  pub post_vk_heartbeat : String → ℕ → S → Option ℕ × S
  pub post_list : String → ℕ → S → Option (ℕ × (ℕ × List String)) × S
  pub post_get : String → GetReq → S → Option (ℕ × (ℕ × String)) × S
