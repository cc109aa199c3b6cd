-- ===== src/Proof/Runs/Stuck.antt =====
-- What is left of a Vaultkeeper whose lock of the children is kept, as its own `Join` keeps it.
use orv.Base.{
  ℕ, ◌≡◌, inl, inr, arith, true, false, not, String, Option, none, some, ◌==◌, nat_eq, text_eq,
  if◌then◌else◌, Option-cases, ◌∙◌,
}
use orv.Vk.State.{AddrPort}
use orv.Proof.Children.{ChildTable}
use orv.Proof.Keeper.{
  VaultKeeper, is_free, failed, done, Platform, url_at, ep_join, ep_register, status_accepted,
}
use orv.Proof.Keeper.Lifecycle.{
  CallError, bad_status, pruner_round, heartbeat_round, terminate, forget_parent,
}
use orv.Proof.Keeper.Joining.{join_vk, join_request, announce_services, register_services}
use orv.Proof.Messages.{JoinReq, RegisterReq, ServiceHeartbeatReq, Http}
use orv.Proof.Endpoints.{handle_hello, handle_status, handle_join, join_as_vk, join_as_leaf}
use orv.Proof.Endpoints.Admission.{is_done}
use orv.Proof.Endpoints.Services.{
  register_service, handle_register, conclude_propagation, handle_vk_heartbeat,
  handle_service_heartbeat,
}
use orv.Proof.Runs.{
  timer_fires, Step, greeted, asked_to_join, asked_to_register, vk_beats, leaf_beats, propagated,
  pruner_runs, heartbeater_runs, fires, joins, terminates, Reaches, start_of, then_step,
}
use orv.Proof.Runs.Changes.{join_vk-kept}

-- The lock is kept, and the children are the given ones.
abbrev pub Frozen : ChildTable → VaultKeeper → Type 0
Frozen c vk = (vk.children_locked ≡ true) × (vk.children ≡ c)

-- No request that needs the children is ever answered with success.
abbrev pub Unanswered : Platform → VaultKeeper → Type 0
Unanswered P vk =
    (is_done (handle_status P vk) ≡ false)
    × ((req : JoinReq) → is_done (handle_join P req vk).0 ≡ false)
    × ((req : RegisterReq) → is_done (handle_register P req vk).0 ≡ false)
    × ((id : ℕ) → is_done (handle_vk_heartbeat id vk).0 ≡ false)
    × ((req : ServiceHeartbeatReq) → is_done (handle_service_heartbeat P req vk).0 ≡ false)

Frozen-Unanswered :
    (P : Platform) (c : ChildTable) (vk : VaultKeeper) → Frozen c vk → Unanswered P vk
unfolding handle_status handle_join join_as_vk join_as_leaf handle_register register_service
    handle_vk_heartbeat handle_service_heartbeat
Frozen-Unanswered P c vk h = (
  ground (arith, h),
  λ req. ground (arith, h),
  λ req. ground (arith, h),
  λ id. ground (arith, h),
  λ req. ground (arith, h),
)

module _ {S : Type 0} (P : Platform) (http : Http S) where
  join_vk-locked :
      (addr_str : String) (vk : VaultKeeper) (s : S)
      → vk.children_locked ≡ true
      → (join_vk P http addr_str vk s).1.0.children_locked ≡ true
  unfolding join_vk announce_services
  join_vk-locked addr_str vk s l = elim (Option-cases (P.parse_addr_port addr_str)) [
    | inl e ↦ ground (arith, e, l)
    | inr (a, e) ↦
        elim (Option-cases (http.post_join (url_at P a ep_join) (join_request P http vk) s).0) [
          | inl f ↦ ground (arith, e, f, l)
          | inr ((code, b), f) ↦ ground (arith, e, f, l)
        ]
  ]

  Step-Frozen : {v w : VaultKeeper} (c : ChildTable) → Step P http v w → Frozen c v → Frozen c w
  unfolding handle_hello handle_join join_as_vk join_as_leaf handle_register register_service
      handle_vk_heartbeat handle_service_heartbeat conclude_propagation pruner_round heartbeat_round
      terminate timer_fires
  Step-Frozen c (greeted now id vk) h = ground (arith, h)
  Step-Frozen c (asked_to_join req vk) h = ground (arith, h)
  Step-Frozen c (asked_to_register req vk) h = ground (arith, h)
  Step-Frozen c (vk_beats id vk) h = ground (arith, h)
  Step-Frozen c (leaf_beats req vk) h = ground (arith, h)
  Step-Frozen c (propagated p vk) h = ground (arith, h)
  Step-Frozen c (pruner_runs now vk) h = ground (arith, h)
  Step-Frozen c (heartbeater_runs s vk) h = ground (arith, h)
  Step-Frozen c (fires n vk) h = ground (arith, h)
  Step-Frozen c (joins a s vk) h = (join_vk-locked a vk s h.0, (join_vk-kept P http a vk s).1 ∙ h.1)
  Step-Frozen c (terminates vk) h = ground (arith, h)

  Reaches-Frozen :
      {v w : VaultKeeper} (c : ChildTable) → Reaches P http v w → Frozen c v → Frozen c w
  Reaches-Frozen c (start_of v) h = h
  Reaches-Frozen c (then_step u v w r st) h = Step-Frozen c st (Reaches-Frozen c r h)

  module _ (addr_str : String) (a : AddrPort) (code : ℕ) (b : ℕ × ℕ) (vk : VaultKeeper)
      (s : S) where
    abbrev joined_world : S
    joined_world = (http.post_join (url_at P a ep_join) (join_request P http vk) s).1

    abbrev registered : Option CallError × S
    registered =
        register_services P http (url_at P a ep_register) vk.id vk.children.services joined_world

    -- A Join of a live Vaultkeeper to an address that can be read, where no lock is kept and the answer to the
    -- JOIN arrives: another status than 202 fails and changes nothing; with 202 and every REGISTER accepted the
    -- new parent is set; with 202 and a REGISTER that fails the Vaultkeeper is left without a parent, and
    -- the lock of the children is kept.
    pub join_vk_lem :
        vk.alive ≡ true
        → is_free vk.structure ≡ true
        → vk.children_locked ≡ false
        → P.parse_addr_port addr_str ≡ some a
        → (http.post_join (url_at P a ep_join) (join_request P http vk) s).0 ≡ some (code, b)
        → join_vk P http addr_str vk s ≡ (
            if not (code == status_accepted)
            then (failed (bad_status code), (vk, joined_world))
            else elim registered.0 [
              | none ↦ (done tt, (record vk { parent_id = b.0; parent_addr = a }, registered.1))
              | some e ↦
                  (failed e, (record (forget_parent vk) { children_locked = true }, registered.1))
            ])
    unfolding join_vk announce_services
    join_vk_lem alive free unlocked parsed answered =
        ground (arith, alive, free, unlocked, parsed, answered)

    -- After a Join whose JOIN was accepted and of which a REGISTER then failed, the children stay as they
    -- are for ever, whatever happens: no timer removes one, and no STATUS, JOIN, REGISTER or heartbeat is
    -- answered with success.
    pub failed_join-Frozen :
        (e : CallError) (w : VaultKeeper)
        → vk.alive ≡ true
        → is_free vk.structure ≡ true
        → vk.children_locked ≡ false
        → P.parse_addr_port addr_str ≡ some a
        → (http.post_join (url_at P a ep_join) (join_request P http vk) s).0 ≡ some (code, b)
        → code ≡ status_accepted
        → registered.0 ≡ some e
        → Reaches P http (join_vk P http addr_str vk s).1.0 w
        → (w.children ≡ vk.children) × Unanswered P w
    failed_join-Frozen e w alive free unlocked parsed answered accepted refused r =
        let after = (join_vk P http addr_str vk s).1.0 in
        let k : Frozen vk.children after =
          ground (arith, accepted, refused, join_vk_lem alive free unlocked parsed answered) in
        let h = Reaches-Frozen vk.children r k in (h.1, Frozen-Unanswered P vk.children w h)
