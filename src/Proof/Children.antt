-- ===== src/Proof/Children.antt =====
-- implementations/proof/proof/children.go: how a Vaultkeeper of the proof of concept manages its children.
-- Each function, and each callback of a timer, runs with the lock of the children held, so it is one step.
-- How long a timer runs is left out but for the duration that it was last started with, and a callback
-- runs as its timer fires: that it may wait for the lock is left out.
pub mod Pruning
pub mod Views
pub mod Offers
pub mod Registered
pub mod Listed
pub mod Expiry
use orv.Base.{
  ℕ, suc, Bool, true, false, not, ◌||◌, String, List, [], ◌∷◌, ◌++◌, Option, none, some, map,
  is_some, ◌==◌, nat_eq, text_eq, if◌then◌else◌,
}
use orv.Base.Map.{Map, lookup, insert, remove, is_empty, keys}
use orv.Base.Int.{ℤ}
use orv.Vk.State.{AddrPort}

-- What a timer does when it fires.
pub data Pruner : Type 0 where
  prune_leaf : ℕ → Pruner
  prune_cvk : ℕ → Pruner
  prune_leaf_service : ℕ → String → Pruner

-- The timers that run, by number, each with its duration.
pub record PruneTimers : Type 0 where
  pub running : Map ℕ (Pruner × ℤ)
  pub next_number : ℕ

-- `struct { cID childID; addr netip.AddrPort }`.
pub record ServiceProvider : Type 0 where
  pub c_id : ℕ
  pub addr : AddrPort

-- `leafService`.
pub record ProvenService : Type 0 where
  pub prune_timer : ℕ
  pub stale_time : ℤ
  pub addr : AddrPort

-- `childVK`.
pub record ChildVk : Type 0 where
  pub prune_timer : ℕ
  pub services : Map String AddrPort
  pub addr : AddrPort

-- `children`.
pub record ChildTable : Type 0 where
  pub services : Map String (List ServiceProvider)
  pub serviceless_leaf_prune_time : ℤ
  pub cvk_prune_time : ℤ
  pub leaves : Map ℕ (Map String ProvenService)
  pub vks : Map ℕ ChildVk
  pub clock : PruneTimers

pub data ChildError : Type 0 where
  unknown_cid invalid_stale_time : ChildError

-- `time.AfterFunc`, whose timer has the number `next_number`.
abbrev pub start_timer : Pruner → ℤ → PruneTimers → PruneTimers
start_timer f d t = record {
  running = insert t.next_number (f, d) t.running;
  next_number = suc t.next_number;
}

abbrev pub stop_timer : ℕ → PruneTimers → PruneTimers
stop_timer n t = record t { running = remove n t.running }

-- `Reset`, which starts the timer anew with its own function.
abbrev pub reset_timer : ℕ → Pruner → ℤ → PruneTimers → PruneTimers
reset_timer n f d t = record t { running = insert n (f, d) t.running }

-- `newChildren`.
unfoldable pub new_children : ℤ → ℤ → ChildTable
new_children leaf_prune_time cvk_prune_time = record {
  services = [];
  serviceless_leaf_prune_time = leaf_prune_time;
  cvk_prune_time = cvk_prune_time;
  leaves = [];
  vks = [];
  clock = record { running = []; next_number = 0 };
}

-- What the ID already existed as: a VK, and a leaf.
abbrev pub exists_as : ℕ → ChildTable → Bool × Bool
exists_as c_id c = (is_some (lookup c_id c.vks), is_some (lookup c_id c.leaves))

-- `addLeaf`.
unfoldable pub add_child_leaf : ℕ → ChildTable → (Bool × Bool) × ChildTable
add_child_leaf c_id c =
    if is_some (lookup c_id c.vks) || is_some (lookup c_id c.leaves)
    then (exists_as c_id c, c)
    else (
      exists_as c_id c,
      record c {
        leaves = insert c_id [] c.leaves;
        clock = start_timer (prune_leaf c_id) c.serviceless_leaf_prune_time c.clock;
      },
    )

-- `addVK`.
unfoldable pub add_vk : ℕ → AddrPort → ChildTable → (Bool × Bool) × ChildTable
add_vk c_id addr c =
    if is_some (lookup c_id c.vks) || is_some (lookup c_id c.leaves)
    then (exists_as c_id c, c)
    else (
      exists_as c_id c,
      record c {
        vks =
            insert c_id (record { prune_timer = c.clock.next_number; services = []; addr = addr })
              c.vks;
        clock = start_timer (prune_cvk c_id) c.cvk_prune_time c.clock;
      },
    )

-- `addServiceToLeaf`, for the leaf as it was found. `stale` is what `time.ParseDuration` made of the text:
-- a service that is known keeps its stale time where the new one cannot be read.
unfoldable pub add_service_to_leaf :
    ℕ
    → String
    → AddrPort
    → Option ℤ
    → Map String ProvenService
    → ChildTable
    → Option ChildError × ChildTable
add_service_to_leaf c_id svc ap stale leaf c =
    let install = λ (d : ℤ) (t : PruneTimers). record c {
      leaves =
          insert c_id
            (insert svc (record { prune_timer = t.next_number; stale_time = d; addr = ap }) leaf)
            c.leaves;
      clock = start_timer (prune_leaf_service c_id svc) d t;
    } in
    elim (lookup svc leaf) [
      | some old ↦ elim stale [
        | none ↦ (none, install old.stale_time (stop_timer old.prune_timer c.clock))
        | some d ↦ (none, install d (stop_timer old.prune_timer c.clock))
      ]
      | none ↦ elim stale [
        | none ↦ (some invalid_stale_time, c)
        | some d ↦ (none, install d c.clock)
      ]
    ]

-- `addServiceToVK`, for the child VK as it was found: a service that is known is left as it is.
unfoldable pub add_service_to_vk : ℕ → String → AddrPort → ChildVk → ChildTable → ChildTable
add_service_to_vk c_id svc ap cvk c =
    let clock = reset_timer cvk.prune_timer (prune_cvk c_id) c.cvk_prune_time c.clock in
    if is_some (lookup svc cvk.services) then record c { clock = clock } else record c {
      vks = insert c_id (record cvk { services = insert svc ap cvk.services }) c.vks;
      clock = clock;
    }

-- The loop over the providers: the first entry of the child takes the address, or a new one is appended.
unfoldable pub put_provider : ℕ → AddrPort → List ServiceProvider → List ServiceProvider
put_provider c_id addr [] = record { c_id = c_id; addr = addr } ∷ []
put_provider c_id addr (p ∷ ps) =
    let rest = put_provider c_id addr ps in
    if p.c_id == c_id then record p { addr = addr } ∷ ps else p ∷ rest

-- The end of `addService`.
unfoldable pub add_service_provider : ℕ → String → AddrPort → ChildTable → ChildTable
add_service_provider c_id svc addr c = elim (lookup svc c.services) [
  | some providers ↦ record c {
    services = insert svc (put_provider c_id addr providers) c.services;
  }
  | none ↦ record c { services = insert svc (record { c_id = c_id; addr = addr } ∷ []) c.services }
]

-- `addService`.
unfoldable pub add_child_service :
    ℕ → String → AddrPort → Option ℤ → ChildTable → Option ChildError × ChildTable
add_child_service c_id svc addr stale c = elim (lookup c_id c.leaves) [
  | some leaf ↦
      let (error, c') = add_service_to_leaf c_id svc addr stale leaf c in
      elim error [ some e ↦ (some e, c') | none ↦ (none, add_service_provider c_id svc addr c') ]
  | none ↦ elim (lookup c_id c.vks) [
    | some cvk ↦ (none, add_service_provider c_id svc addr (add_service_to_vk c_id svc addr cvk c))
    | none ↦ (some unknown_cid, c)
  ]
]
