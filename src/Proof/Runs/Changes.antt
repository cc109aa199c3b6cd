-- ===== src/Proof/Runs/Changes.antt =====
-- A step of a Vaultkeeper is at most one operation of its children.
use orv.Base.{
  ℕ, ◌≡◌, inl, inr, refl, arith, false, String, Option, is_some, ◌==◌, nat_eq, text_eq,
  Option-cases, Bool-cases,
}
use orv.Base.Map.{lookup}
use orv.Base.Int.{ℤ}
use orv.Vk.State.{AddrPort}
use orv.Proof.Children.{ChildTable, add_child_leaf, add_vk, add_child_service}
use orv.Proof.Children.Pruning.{fire}
use orv.Proof.Children.Listed.{SameViews}
use orv.Proof.Children.Expiry.{heartbeat_leaf_service-SameViews, heartbeat_cvk-SameViews}
use orv.Proof.Keeper.{VaultKeeper, is_taken, Platform, url_at, ep_join}
use orv.Proof.Keeper.Lifecycle.{pruner_round, heartbeat_round, terminate}
use orv.Proof.Keeper.Joining.{join_vk, join_request, announce_services}
use orv.Proof.Messages.{JoinReq, RegisterReq, ServiceHeartbeatReq, Http}
use orv.Proof.Endpoints.{
  is_bad_id, required_height, handle_hello, handle_join, join_as_vk, join_as_leaf,
}
use orv.Proof.Endpoints.Services.{
  register_service, handle_register, conclude_propagation, handle_vk_heartbeat,
  handle_service_heartbeat,
}
use orv.Proof.Runs.{
  timer_fires, Step, greeted, asked_to_join, asked_to_register, vk_beats, leaf_beats, propagated,
  pruner_runs, heartbeater_runs, fires, joins, terminates,
}

-- What a step does to the children, where `v` is the Vaultkeeper before it.
pub data Change (v : VaultKeeper) (d : ChildTable) : Type 0 where
  looks_same : SameViews v.children d → Change v d
  vk_enters :
      (i : ℕ) (a : AddrPort) → is_bad_id i v ≡ false → d ≡ (add_vk i a v.children).1 → Change v d
  leaf_enters : (i : ℕ) → is_bad_id i v ≡ false → d ≡ (add_child_leaf i v.children).1 → Change v d
  registers :
      (i : ℕ) (s : String) (a : AddrPort) (stale : Option ℤ)
      → d ≡ (add_child_service i s a stale v.children).1
      → Change v d
  timer_ends : (n : ℕ) → d ≡ fire n v.children → Change v d

-- The ID stays.
abbrev pub Changes : VaultKeeper → VaultKeeper → Type 0
Changes v w = (w.id ≡ v.id) × Change v w.children

unchanged : (v w : VaultKeeper) → w.id ≡ v.id → w.children ≡ v.children → Changes v w
unchanged v w e f = (e, looks_same (ground (arith, f)))

join_as_leaf-Changes :
    (req : JoinReq) (vk : VaultKeeper)
    → is_bad_id req.id vk ≡ false
    → Changes vk (join_as_leaf req vk).1
unfolding join_as_leaf
join_as_leaf-Changes req vk e = elim (Bool-cases vk.children_locked) [
  | inl l ↦ unchanged vk (join_as_leaf req vk).1 (ground (arith, l)) (ground (arith, l))
  | inr l ↦ (ground (arith, l), leaf_enters req.id e (ground (arith, l)))
]

join_as_vk-Changes :
    (P : Platform) (req : JoinReq) (vk : VaultKeeper)
    → is_bad_id req.id vk ≡ false
    → Changes vk (join_as_vk P req vk).1
unfolding join_as_vk
join_as_vk-Changes P req vk e = elim (Bool-cases vk.children_locked) [
  | inl l ↦ unchanged vk (join_as_vk P req vk).1 (ground (arith, l)) (ground (arith, l))
  | inr l ↦ elim (Option-cases (P.parse_addr_port req.vk_addr)) [
    | inl f ↦ unchanged vk (join_as_vk P req vk).1 (ground (arith, f)) (ground (arith, f))
    | inr (a, f) ↦ elim (Bool-cases (req.height == required_height vk)) [
      | inr g ↦ unchanged vk (join_as_vk P req vk).1 (ground (arith, g)) (ground (arith, g))
      | inl g ↦ (ground (arith, l, f, g), vk_enters req.id a e (ground (arith, l, f, g)))
    ]
  ]
]

handle_join-Changes :
    (P : Platform) (req : JoinReq) (vk : VaultKeeper) → Changes vk (handle_join P req vk).1
unfolding handle_join join_as_vk join_as_leaf
handle_join-Changes P req vk = elim (Bool-cases (is_bad_id req.id vk)) [
  | inl b ↦ unchanged vk (handle_join P req vk).1 (ground (arith, b)) (ground (arith, b))
  | inr b ↦ elim (Bool-cases (is_some (lookup req.id vk.pending_hellos))) [
    | inr h ↦ unchanged vk (handle_join P req vk).1 (ground (arith, h)) (ground (arith, h))
    | inl h ↦ elim (Bool-cases (is_taken vk.structure)) [
      | inl k ↦ unchanged vk (handle_join P req vk).1 (ground (arith, h, k)) (ground (arith, h, k))
      | inr k ↦ elim (Bool-cases req.is_vk) [
        | inl v ↦ rw (b, h, k, v) (join_as_vk-Changes P req vk b)
        | inr v ↦ rw (b, h, k, v) (join_as_leaf-Changes req vk b)
      ]
    ]
  ]
]

handle_hello-Changes : (now id : ℕ) (vk : VaultKeeper) → Changes vk (handle_hello now id vk).1
unfolding handle_hello
handle_hello-Changes now id vk =
    unchanged vk (handle_hello now id vk).1 (ground arith) (ground arith)

register_service-Changes :
    (P : Platform) (i : ℕ) (s : String) (a : AddrPort) (stale : String) (vk : VaultKeeper)
    → Changes vk (register_service P i s a stale vk).1
unfolding register_service
register_service-Changes P i s a stale vk = elim (Bool-cases vk.children_locked) [
  | inl l ↦
      unchanged vk (register_service P i s a stale vk).1 (ground (arith, l)) (ground (arith, l))
  | inr l ↦ (ground (arith, l), registers i s a (P.parse_duration stale) (ground (arith, l)))
]

handle_register-Changes :
    (P : Platform) (req : RegisterReq) (vk : VaultKeeper) → Changes vk (handle_register P req vk).1
unfolding handle_register
handle_register-Changes P req vk =
    elim (Option-cases (P.parse_addr_port (P.trim_space req.address))) [
      | inl f ↦ unchanged vk (handle_register P req vk).1 (ground (arith, f)) (ground (arith, f))
      | inr (a, f) ↦ elim (Bool-cases (is_bad_id req.id vk)) [
        | inl b ↦ unchanged vk (handle_register P req vk).1 (ground (arith, b)) (ground (arith, b))
        | inr b ↦ elim (Bool-cases (P.trim_space req.service == "")) [
          | inl g ↦
              unchanged vk (handle_register P req vk).1 (ground (arith, g)) (ground (arith, g))
          | inr g ↦
              rw (b, f, g)
                (register_service-Changes P req.id (P.trim_space req.service) a
                  (P.trim_space req.stale) vk)
        ]
      ]
    ]

handle_vk_heartbeat-Changes : (i : ℕ) (vk : VaultKeeper) → Changes vk (handle_vk_heartbeat i vk).1
unfolding handle_vk_heartbeat
handle_vk_heartbeat-Changes i vk =
    (ground arith, looks_same (ground (arith, heartbeat_cvk-SameViews i vk.children)))

handle_service_heartbeat-Changes :
    (P : Platform) (req : ServiceHeartbeatReq) (vk : VaultKeeper)
    → Changes vk (handle_service_heartbeat P req vk).1
unfolding handle_service_heartbeat
handle_service_heartbeat-Changes P req vk = (
  ground arith,
  looks_same (
      ground
        (arith, heartbeat_leaf_service-SameViews P.trim_space req.id req.services vk.children)),
)

timer_fires-Changes : (n : ℕ) (vk : VaultKeeper) → Changes vk (timer_fires n vk)
unfolding timer_fires
timer_fires-Changes n vk = elim (Bool-cases vk.children_locked) [
  | inl l ↦ unchanged vk (timer_fires n vk) (ground (arith, l)) (ground (arith, l))
  | inr l ↦ (ground (arith, l), timer_ends n (ground (arith, l)))
]

module _ {S : Type 0} (P : Platform) (http : Http S) where
  pub announce_services-kept :
      (a : AddrPort) (vk : VaultKeeper) (s : S)
      → let w = (announce_services P http a vk s).1.0 in (w.id ≡ vk.id) × (w.children ≡ vk.children)
  unfolding announce_services
  announce_services-kept a vk s = ground arith

  pub join_vk-kept :
      (addr_str : String) (vk : VaultKeeper) (s : S)
      → let w = (join_vk P http addr_str vk s).1.0 in (w.id ≡ vk.id) × (w.children ≡ vk.children)
  unfolding join_vk
  join_vk-kept addr_str vk s = elim (Option-cases (P.parse_addr_port addr_str)) [
    | inl e ↦ ground (arith, e)
    | inr (a, e) ↦
        elim (Option-cases (http.post_join (url_at P a ep_join) (join_request P http vk) s).0) [
          | inl f ↦ ground (arith, e, f)
          | inr ((code, b), f) ↦
              let s' = (http.post_join (url_at P a ep_join) (join_request P http vk) s).1 in
              let joined = record vk { parent_id = b.0; parent_addr = a } in
              ground (arith, e, f, announce_services-kept a joined s')
        ]
  ]

  pub Step-Changes : {v w : VaultKeeper} → Step P http v w → Changes v w
  unfolding conclude_propagation pruner_round heartbeat_round terminate
  Step-Changes (greeted now id vk) = handle_hello-Changes now id vk
  Step-Changes (asked_to_join req vk) = handle_join-Changes P req vk
  Step-Changes (asked_to_register req vk) = handle_register-Changes P req vk
  Step-Changes (vk_beats id vk) = handle_vk_heartbeat-Changes id vk
  Step-Changes (leaf_beats req vk) = handle_service_heartbeat-Changes P req vk
  Step-Changes (propagated p vk) =
      unchanged vk (conclude_propagation p vk) (ground arith) (ground arith)
  Step-Changes (pruner_runs now vk) = unchanged vk (pruner_round now vk) refl refl
  Step-Changes (heartbeater_runs s vk) =
      unchanged vk (heartbeat_round P http vk s).0 (ground arith) (ground arith)
  Step-Changes (fires n vk) = timer_fires-Changes n vk
  Step-Changes (joins a s vk) =
      unchanged vk (join_vk P http a vk s).1.0 (join_vk-kept a vk s).0 (join_vk-kept a vk s).1
  Step-Changes (terminates vk) = unchanged vk (terminate vk) (ground arith) (ground arith)
