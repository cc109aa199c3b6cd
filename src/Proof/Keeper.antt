-- ===== src/Proof/Keeper.antt =====
-- implementations/proof/proof/vaultkeeper.go, packets.go and errors.go: the state of a Vaultkeeper of the
-- proof of concept, its packet types, its errors, and how a call of it ends. A lock is free between two
-- steps unless somebody keeps it for ever, so only that is a part of the state.
pub mod Lifecycle
pub mod Joining
use orv.Base.{
  ℕ, ◌+◌, ◌*◌, Bool, true, false, ◌||◌, String, List, [], ◌∷◌, Option, none, some, ◌==◌, nat_eq,
  text_eq, if◌then◌else◌,
}
use orv.Base.Map.{Map}
use orv.Base.Int.{ℤ, pos}
use orv.Vk.State.{AddrPort}
use orv.Proof.Children.{ServiceProvider, ChildTable, ChildError}
use orv.Proof.Children.Pruning.{HeartbeatRefusal}
use Prim.Native.String.{◌++◌ as append}

-- `time.Second` and `time.Millisecond`, in nanoseconds.
abbrev pub second : ℕ
second = 1000000000

abbrev pub millisecond : ℕ
millisecond = 1000000

abbrev pub default_prune_time_pending_hello : ℤ
default_prune_time_pending_hello = pos (second * 3)

abbrev pub default_prune_time_serviceless_child : ℤ
default_prune_time_serviceless_child = pos (second * 3)

abbrev pub default_prune_time_cvk : ℤ
default_prune_time_cvk = pos (second * 3)

abbrev pub default_parent_heartbeat_freq : ℤ
default_parent_heartbeat_freq = pos (500 * millisecond)

pub record PruneTimes : Type 0 where
  pub pending_hello : ℤ
  pub serviceless_child : ℤ
  pub cvk : ℤ

-- Who keeps a `sync.RWMutex` for ever: nobody, a reader, or a writer. A writer that waits for a reader
-- keeps out those who want to read from then on, so it counts as the one who keeps it.
pub data RwLock : Type 0 where
  free shared taken : RwLock

abbrev pub is_free : RwLock → Bool
is_free free = true
is_free shared = false
is_free taken = false

abbrev pub is_taken : RwLock → Bool
is_taken free = false
is_taken shared = false
is_taken taken = true

-- `VaultKeeper`; `children_locked` says that the mutex of the children is kept for ever, and a HELLO that
-- is pending bears the time at which it came.
pub record VaultKeeper : Type 0 where
  pub alive : Bool
  pub id : ℕ
  pub addr : AddrPort
  pub children : ChildTable
  pub children_locked : Bool
  pub structure : RwLock
  pub height : ℕ
  pub parent_id : ℕ
  pub parent_addr : AddrPort
  pub parent_heartbeat_frequency : ℤ
  pub prune_times : PruneTimes
  pub pending_hellos : Map ℕ ℕ

-- `isRoot`.
abbrev pub is_root : VaultKeeper → Bool
is_root vk = vk.parent_id == 0

abbrev pub PacketType : Type 0
PacketType = String

abbrev pub pt_hello_ack : PacketType
pt_hello_ack = "HELLO_ACK"

abbrev pub pt_service_heartbeat_ack : PacketType
pt_service_heartbeat_ack = "SERVICE_HEARTBEAT_ACK"

abbrev pub pt_vk_heartbeat_fault : PacketType
pt_vk_heartbeat_fault = "VK_HEARTBEAT_FAULT"

abbrev pub pt_join_accept : PacketType
pt_join_accept = "JOIN_ACCEPT"

abbrev pub pt_join_deny : PacketType
pt_join_deny = "JOIN_DENY"

abbrev pub pt_register_accept : PacketType
pt_register_accept = "REGISTER_ACCEPT"

abbrev pub pt_register_deny : PacketType
pt_register_deny = "REGISTER_DENY"

abbrev pub pt_status_response : PacketType
pt_status_response = "STATUS_RESPONSE"

abbrev pub pt_list_response : PacketType
pt_list_response = "LIST_RESPONSE"

abbrev pub pt_get_response : PacketType
pt_get_response = "GET_RESPONSE"

abbrev pub pt_get_fault : PacketType
pt_get_fault = "GET_FAULT"

-- What a refusal says: the text of each is a fixed one around these arguments.
pub data Reason : Type 0 where
  bad_id : ℕ → Reason
  bad_service_name : String → Reason
  bad_height : ℕ → ℕ → Reason
  must_hello : Reason
  bad_addr : String → Reason
  id_in_use : ℕ → Reason
  not_added : ChildError → Reason
  unknown_cvk : ℕ → Reason
  not_refreshed : HeartbeatRefusal → Reason

-- An error of huma: the status code, the headers, and what it says.
pub record HumaError : Type 0 where
  pub status : ℕ
  pub headers : Map String PacketType
  pub reason : Reason

abbrev pub hdr_pkt_t : String
hdr_pkt_t = "Pkt-Type"

-- `huma.ErrorWithHeaders(huma.Error400BadRequest(...), http.Header{hdrPkt_t: {pkt_t}})`
abbrev pub bad_request : Reason → PacketType → HumaError
bad_request r pkt_t = record { status = 400; headers = (hdr_pkt_t, pkt_t) ∷ []; reason = r }

abbrev pub h_err_bad_id : ℕ → PacketType → HumaError
h_err_bad_id id pkt_t = bad_request (bad_id id) pkt_t

abbrev pub h_err_bad_service_name : String → PacketType → HumaError
h_err_bad_service_name sn pkt_t = bad_request (bad_service_name sn) pkt_t

abbrev pub h_err_bad_height : ℕ → ℕ → PacketType → HumaError
h_err_bad_height cur_vk_height requester_height pkt_t =
    bad_request (bad_height cur_vk_height requester_height) pkt_t

abbrev pub h_err_must_hello : PacketType → HumaError
h_err_must_hello pkt_t = bad_request must_hello pkt_t

abbrev pub h_err_bad_addr : String → PacketType → HumaError
h_err_bad_addr addr_s pkt_t = bad_request (bad_addr addr_s) pkt_t

-- `huma.Error409Conflict`
abbrev pub h_err_id_in_use : ℕ → PacketType → HumaError
h_err_id_in_use id pkt_t = record {
  status = 409;
  headers = (hdr_pkt_t, pkt_t) ∷ [];
  reason = id_in_use id;
}

-- How a call ends: it waits for ever for a lock, returns an error, or gives a value.
pub data Outcome (E A : Type 0) : Type 0 where
  blocked : Outcome E A
  failed : E → Outcome E A
  done : A → Outcome E A

-- What the code takes from the standard library: `strings.TrimSpace`, `netip.ParseAddrPort`,
-- `AddrPort.String`, `time.ParseDuration` and `Duration.String`, and `fmt.Sprintf("%v(%s)")` of a provider.
pub record Platform : Type 0 where
  pub trim_space : String → String
  pub parse_addr_port : String → Option AddrPort
  pub print_addr : AddrPort → String
  pub parse_duration : String → Option ℤ
  pub print_duration : ℤ → String
  pub print_provider : ServiceProvider → String

-- The endpoints.
abbrev pub ep_hello : String
ep_hello = "/hello"

abbrev pub ep_status : String
ep_status = "/status"

abbrev pub ep_join : String
ep_join = "/join"

abbrev pub ep_register : String
ep_register = "/register"

abbrev pub ep_vk_heartbeat : String
ep_vk_heartbeat = "/vk-heartbeat"

abbrev pub ep_list : String
ep_list = "/list"

abbrev pub ep_get : String
ep_get = "/get"

-- `http.StatusOK` and `http.StatusAccepted`, the codes of a good response: EXPECTED_STATUS_JOIN and
-- EXPECTED_STATUS_REGISTER are the latter, all others the former.
abbrev pub status_ok : ℕ
status_ok = 200

abbrev pub status_accepted : ℕ
status_accepted = 202

-- The address of an endpoint.
abbrev pub url_at : Platform → AddrPort → String → String
url_at P a endpoint = append (append "http://" (P.print_addr a)) endpoint
