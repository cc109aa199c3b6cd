-- ===== src/Proof/Endpoints.antt =====
-- implementations/proof/proof/endpoints.go: what a Vaultkeeper of the proof of concept does with a
-- request, which huma has read and checked against its type: HELLO, STATUS and JOIN. Each endpoint is
-- one step, in which a call that meets a lock that is kept for ever stays blocked.
pub mod Services
pub mod Queries
pub mod Admission
pub mod Registration
pub mod Timely
pub mod Operations
use orv.Base.{
  ℕ, ◌+◌, ◌%◌, ◌^◌, Bool, true, false, not, ◌&&◌, ◌||◌, String, Option, none, some, is_some, ◌==◌,
  nat_eq, text_eq, if◌then◌else◌,
}
use orv.Base.Map.{lookup, insert}
use orv.Vk.State.{AddrPort, is_valid}
use orv.Proof.Children.{ChildTable, add_child_leaf, add_vk}
use orv.Proof.Children.Pruning.{children_snapshot}
use orv.Proof.Keeper.{
  VaultKeeper, RwLock, shared, is_taken, HumaError, Outcome, blocked, failed, done, Platform,
  pt_hello_ack, pt_status_response, pt_join_accept, pt_join_deny, h_err_bad_id, h_err_bad_height,
  h_err_must_hello, h_err_bad_addr, h_err_id_in_use,
}
use orv.Proof.Messages.{HelloResp, StatusResp, JoinReq, JoinAcceptResp}

abbrev pub Answer : Type 0 → Type 0
Answer A = Outcome HumaError A × VaultKeeper

-- An ID that no other node may have.
abbrev pub is_bad_id : ℕ → VaultKeeper → Bool
is_bad_id id vk = id == 0 || id == vk.id

-- `handleHello`, at the time `now`.
unfoldable pub handle_hello : ℕ → ℕ → VaultKeeper → Answer HelloResp
handle_hello now id vk =
    if is_bad_id id vk
    then (failed (h_err_bad_id id pt_hello_ack), vk)
    else let vk' = record vk { pending_hellos = insert id now vk.pending_hellos } in
      if is_taken vk.structure
      then (blocked, vk')
      else (done (record { pkt_type = pt_hello_ack; id = vk.id; height = vk.height }), vk')

-- `handleStatus`
unfoldable pub handle_status : Platform → VaultKeeper → Outcome HumaError StatusResp
handle_status P vk =
    if is_taken vk.structure || vk.children_locked
    then blocked
    else done (record {
      pkt_type = pt_status_response;
      body = record {
        id = vk.id;
        height = vk.height;
        children = children_snapshot P.print_addr P.print_provider vk.children;
        parent_id = vk.parent_id;
        parent_address = if is_valid vk.parent_addr then P.print_addr vk.parent_addr else "";
        pending_hello = P.print_duration vk.prune_times.pending_hello;
        serviceless_child = P.print_duration vk.prune_times.serviceless_child;
        cvk = P.print_duration vk.prune_times.cvk;
      };
    })

-- The end of `handleJoin`.
abbrev pub accept_node : VaultKeeper → Answer JoinAcceptResp
accept_node vk = (done (record { pkt_type = pt_join_accept; id = vk.id; height = vk.height }), vk)

-- The ID of the requester is in use by a child of the other kind.
abbrev pub conclude_join : ℕ → Bool → ChildTable → VaultKeeper → Answer JoinAcceptResp
conclude_join c_id other_kind c vk =
    if other_kind
    then (failed (h_err_id_in_use c_id pt_join_deny), record vk { children = c })
    else accept_node (record vk { children = c })

-- The call of the children waits for ever, and the lock for reading stays with this request.
abbrev pub stuck_reader : VaultKeeper → Answer JoinAcceptResp
stuck_reader vk = (blocked, record vk { structure = shared })

-- `vk.height-1`, in 16 bits.
abbrev pub required_height : VaultKeeper → ℕ
required_height vk = (vk.height + 65535) % 2 ^ 16

-- A VK that joins.
unfoldable pub join_as_vk : Platform → JoinReq → VaultKeeper → Answer JoinAcceptResp
join_as_vk P req vk =
    if not (req.height == required_height vk)
    then (failed (h_err_bad_height vk.height req.height pt_join_deny), vk)
    else elim (P.parse_addr_port req.vk_addr) [
      | none ↦ (failed (h_err_bad_addr req.vk_addr pt_join_deny), vk)
      | some addr ↦
          if vk.children_locked
          then stuck_reader vk
          else let (was, c) = add_vk req.id addr vk.children in conclude_join req.id was.1 c vk
    ]

-- A leaf that joins.
unfoldable pub join_as_leaf : JoinReq → VaultKeeper → Answer JoinAcceptResp
join_as_leaf req vk =
    if vk.children_locked
    then stuck_reader vk
    else let (was, c) = add_child_leaf req.id vk.children in
      conclude_join req.id (not was.1 && was.0) c vk

-- `handleJoin`
unfoldable pub handle_join : Platform → JoinReq → VaultKeeper → Answer JoinAcceptResp
handle_join P req vk =
    if is_bad_id req.id vk
    then (failed (h_err_bad_id req.id pt_join_deny), vk)
    else if not (is_some (lookup req.id vk.pending_hellos))
    then (failed (h_err_must_hello pt_join_deny), vk)
    else if is_taken vk.structure
    then (blocked, vk)
    else if req.is_vk
    then join_as_vk P req vk
    else join_as_leaf req vk
