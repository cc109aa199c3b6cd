-- ===== src/Proof/Children/Pruning.antt =====
-- implementations/proof/proof/children.go: what its timers do, the heartbeats, and what is read of the
-- children.
use orv.Base.{
  ℕ, ◌-◌, Bool, true, false, String, List, [], ◌∷◌, Option, none, some, map, ◌==◌, nat_eq, text_eq,
  if◌then◌else◌, Result, ok, err, length,
}
use orv.Base.Map.{Map, lookup, insert, remove, is_empty, keys}
use orv.Vk.State.{AddrPort}
use orv.Proof.Children.{
  Pruner, prune_leaf, prune_cvk, prune_leaf_service, ServiceProvider, ProvenService, ChildTable,
  stop_timer, reset_timer,
}

-- `slices.DeleteFunc(providers, func(s) { return s.cID == cID })`.
unfoldable pub delete_provider : ℕ → List ServiceProvider → List ServiceProvider
delete_provider c_id [] = []
delete_provider c_id (p ∷ ps) =
    let rest = delete_provider c_id ps in if p.c_id == c_id then rest else p ∷ rest

-- A service without providers is removed.
abbrev pub put_rest :
    String
    → List ServiceProvider
    → Map String (List ServiceProvider)
    → Map String (List ServiceProvider)
put_rest sn [] m = remove sn m
put_rest sn (p ∷ ps) m = insert sn (p ∷ ps) m

unfoldable pub withdraw_service :
    ℕ → String → Map String (List ServiceProvider) → Map String (List ServiceProvider)
withdraw_service c_id sn m = elim (lookup sn m) [
  | none ↦ m
  | some providers ↦ put_rest sn (delete_provider c_id providers) m
]

unfoldable pub withdraw_services :
    ℕ → List String → Map String (List ServiceProvider) → Map String (List ServiceProvider)
withdraw_services c_id [] m = m
withdraw_services c_id (sn ∷ rest) m = withdraw_services c_id rest (withdraw_service c_id sn m)

-- The function of the timer of a leaf.
unfoldable pub prune_child_leaf : ℕ → ChildTable → ChildTable
prune_child_leaf c_id c = elim (lookup c_id c.leaves) [
  | none ↦ c
  | some svcs ↦ if is_empty svcs then record c { leaves = remove c_id c.leaves } else c
]

-- The function of the timer of a child VK.
unfoldable pub prune_child_vk : ℕ → ChildTable → ChildTable
prune_child_vk c_id c = elim (lookup c_id c.vks) [
  | none ↦ c
  | some cvk ↦ record c {
    services = withdraw_services c_id (keys cvk.services) c.services;
    vks = remove c_id c.vks;
  }
]

-- The function of the timer of a leaf's service, which leaves the list of providers as it is.
unfoldable pub prune_service_of_leaf : ℕ → String → ChildTable → ChildTable
prune_service_of_leaf c_id svc c = elim (lookup c_id c.leaves) [
  | none ↦ c
  | some svcs ↦ record c { leaves = insert c_id (remove svc svcs) c.leaves }
]

abbrev pub run_pruner : Pruner → ChildTable → ChildTable
run_pruner (prune_leaf c_id) c = prune_child_leaf c_id c
run_pruner (prune_cvk c_id) c = prune_child_vk c_id c
run_pruner (prune_leaf_service c_id svc) c = prune_service_of_leaf c_id svc c

-- A timer that runs fires.
unfoldable pub fire : ℕ → ChildTable → ChildTable
fire n c = elim (lookup n c.clock.running) [
  | none ↦ c
  | some (f, d) ↦ run_pruner f (record c { clock = stop_timer n c.clock })
]

-- `HeartbeatCVK`: says whether the child VK is known.
unfoldable pub heartbeat_cvk : ℕ → ChildTable → Bool × ChildTable
heartbeat_cvk c_id c = elim (lookup c_id c.vks) [
  | none ↦ (false, c)
  | some cvk ↦ (
    true,
    record c { clock = reset_timer cvk.prune_timer (prune_cvk c_id) c.cvk_prune_time c.clock },
  )
]

-- The loop of `HeartbeatLeafService`, where `trim` is `strings.TrimSpace`: the services that were
-- refreshed.
unfoldable pub heartbeat_services :
    (String → String)
    → ℕ
    → Map String ProvenService
    → List String
    → ChildTable
    → List String × ChildTable
heartbeat_services trim c_id services [] c = ([], c)
heartbeat_services trim c_id services (name ∷ rest) c =
    let sn = trim name in
    let skip = heartbeat_services trim c_id services rest c in
    if sn == "" then skip else elim (lookup sn services) [
      | none ↦ skip
      | some lfs ↦
          let (more, c') = heartbeat_services trim c_id services rest (record c {
            clock = reset_timer lfs.prune_timer (prune_leaf_service c_id sn) lfs.stale_time c.clock;
          }) in
          (sn ∷ more, c')
    ]

pub data HeartbeatRefusal : Type 0 where
  no_leaf no_service_refreshed : HeartbeatRefusal

-- `HeartbeatLeafService`.
unfoldable pub heartbeat_leaf_service :
    (String → String)
    → ℕ
    → List String
    → ChildTable
    → Result HeartbeatRefusal (List String) × ChildTable
heartbeat_leaf_service trim c_id names c = elim (lookup c_id c.leaves) [
  | none ↦ (err no_leaf, c)
  | some services ↦
      let (refreshed, c') = heartbeat_services trim c_id services names c in
      elim refreshed [ [] ↦ (err no_service_refreshed, c') | s ∷ ss ↦ (ok (s ∷ ss), c') ]
]

-- `xs[i]`
unfoldable pub get_elem? : {A : Type 0} → List A → ℕ → Option A
get_elem? [] i = none
get_elem? (x ∷ xs) i = let later = get_elem? xs (i - 1) in if i == 0 then some x else later

-- `GetRandomProvider`, where `int_n` is `rand.IntN`, which gives a number below its argument.
unfoldable pub get_random_provider : (ℕ → ℕ) → String → ChildTable → Option AddrPort
get_random_provider int_n sn c = elim (lookup sn c.services) [
  | none ↦ none
  | some [] ↦ none
  | some (p ∷ ps) ↦ elim (get_elem? (p ∷ ps) (int_n (length (p ∷ ps)))) [
    | none ↦ none
    | some q ↦ some q.addr
  ]
]

-- `Services`.
unfoldable pub service_names : ChildTable → List String
service_names c = keys c.services

-- `ChildrenSnapshot`; a provider is the text of its ID and address.
pub record ChildrenSnapshot : Type 0 where
  pub leaves : List (ℕ × List (String × String))
  pub cvks : List (ℕ × List String)
  pub services : List (String × List String)

-- `Snapshot`, where the addresses and the providers are printed by `print` and `print_provider`.
unfoldable pub children_snapshot :
    (AddrPort → String) → (ServiceProvider → String) → ChildTable → ChildrenSnapshot
children_snapshot print print_provider c = record {
  leaves = map (λ x. (x.0, map (λ s. (s.0, print s.1.addr)) x.1)) c.leaves;
  cvks = map (λ x. (x.0, keys x.1.services)) c.vks;
  services = map (λ x. (x.0, map print_provider x.1)) c.services;
}
