-- ===== src/Proof/Endpoints/Services.antt =====
-- implementations/proof/proof/endpoints.go: REGISTER, which is passed on to the parent by a goroutine of
-- its own, and the heartbeats of child VKs and of leaves.
use orv.Base.{
  ℕ, not, ◌&&◌, String, [], ◌∷◌, Option, none, some, ◌==◌, nat_eq, text_eq, if◌then◌else◌, ok, err,
}
use orv.Vk.State.{AddrPort, no_addr, addr_eq}
use orv.Proof.Children.{add_child_service}
use orv.Proof.Children.Pruning.{
  heartbeat_cvk, heartbeat_leaf_service, HeartbeatRefusal, no_leaf, no_service_refreshed,
}
use orv.Proof.Keeper.{
  VaultKeeper, taken, is_free, is_taken, is_root, HumaError, Outcome, blocked, failed, done,
  Platform, not_added, unknown_cvk, not_refreshed, bad_request, hdr_pkt_t, h_err_bad_id,
  h_err_bad_service_name, h_err_bad_addr, pt_register_accept, pt_register_deny,
  pt_vk_heartbeat_fault, pt_service_heartbeat_ack, url_at, ep_register,
}
use orv.Proof.Messages.{
  RegisterReq, RegisterAcceptResp, VkHeartbeatAck, ServiceHeartbeatReq, ServiceHeartbeatAck, Http,
}
use orv.Proof.Endpoints.{Answer, is_bad_id}

-- The call of `addService` and the answer.
unfoldable pub register_service :
    Platform → ℕ → String → AddrPort → String → VaultKeeper → Answer RegisterAcceptResp
register_service P c_id sn addr stale_str vk =
    if vk.children_locked
    then (blocked, vk)
    else let (error, c) = add_child_service c_id sn addr (P.parse_duration stale_str) vk.children in
      elim error [
        | some e ↦ (failed (bad_request (not_added e) pt_register_deny), record vk { children = c })
        | none ↦ (
          done (record { pkt_type = pt_register_accept; id = vk.id; service = sn }),
          record vk { children = c },
        )
      ]

-- `handleRegister`
unfoldable pub handle_register : Platform → RegisterReq → VaultKeeper → Answer RegisterAcceptResp
handle_register P req vk =
    let sn = P.trim_space req.service in
    let addr_str = P.trim_space req.address in
    if is_bad_id req.id vk
    then (failed (h_err_bad_id req.id pt_register_deny), vk)
    else if sn == ""
    then (failed (h_err_bad_service_name sn pt_register_deny), vk)
    else elim (P.parse_addr_port addr_str) [
      | none ↦ (failed (h_err_bad_addr addr_str pt_register_deny), vk)
      | some addr ↦ register_service P req.id sn addr (P.trim_space req.stale) vk
    ]

-- The parent that a goroutine found, and what came of its request to it.
pub record Propagation : Type 0 where
  pub parent_id : ℕ
  pub parent_addr : AddrPort
  pub status : Option ℕ

-- The first half of the goroutine of an accepted REGISTER, up to the answer of the parent: there is
-- nothing to do for a root.
unfoldable pub propagate_register :
    {S : Type 0}
    → Platform
    → Http S
    → String
    → String
    → VaultKeeper
    → S
    → Outcome HumaError (Option Propagation) × S
propagate_register P http sn addr_str vk s =
    if is_taken vk.structure
    then (blocked, s)
    else if is_root vk
    then (done none, s)
    else let (code, s') =
        http.post_register (url_at P vk.parent_addr ep_register)
          (record { id = vk.id; service = sn; address = addr_str; stale = "" }) s in
      (
        done (
            some
              (record { parent_id = vk.parent_id; parent_addr = vk.parent_addr; status = code })),
        s',
      )

-- The second half: where the parent could not be reached, and is still the parent, it is dropped.
unfoldable pub conclude_propagation : Propagation → VaultKeeper → VaultKeeper
conclude_propagation p vk = elim p.status [
  | some code ↦ vk
  | none ↦
      if not (is_free vk.structure)
      then record vk { structure = taken }
      else if vk.parent_id == p.parent_id && vk.parent_addr == p.parent_addr
      then record vk { parent_id = 0; parent_addr = no_addr }
      else vk
]

-- `handleVKHeartbeat`, whose answer has no packet type.
unfoldable pub handle_vk_heartbeat : ℕ → VaultKeeper → Answer VkHeartbeatAck
handle_vk_heartbeat id vk =
    if vk.children_locked
    then (blocked, vk)
    else let (known, c) = heartbeat_cvk id vk.children in
      if known
      then (done (record { pkt_type = ""; id = vk.id }), record vk { children = c })
      else (failed (bad_request (unknown_cvk id) pt_vk_heartbeat_fault), record vk { children = c })

-- The status code of a heartbeat that is refused.
abbrev pub heartbeat_status : HeartbeatRefusal → ℕ
heartbeat_status no_leaf = 404
heartbeat_status no_service_refreshed = 400

-- `handleServiceHeartbeat`
unfoldable pub handle_service_heartbeat :
    Platform → ServiceHeartbeatReq → VaultKeeper → Answer ServiceHeartbeatAck
handle_service_heartbeat P req vk =
    if vk.children_locked
    then (blocked, vk)
    else let (refreshed, c) = heartbeat_leaf_service P.trim_space req.id req.services vk.children in
      elim refreshed [
        | err e ↦ (
          failed (record {
            status = heartbeat_status e;
            headers = (hdr_pkt_t, pt_vk_heartbeat_fault) ∷ [];
            reason = not_refreshed e;
          }),
          record vk { children = c },
        )
        | ok names ↦ (
          done (record { pkt_type = pt_service_heartbeat_ack; id = vk.id; services = names }),
          record vk { children = c },
        )
      ]
