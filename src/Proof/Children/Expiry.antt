-- ===== src/Proof/Children/Expiry.antt =====
-- What the timers and the heartbeats do to the children and to the list of providers.
use orv.Base.{
  ℕ, ◌≡◌, inl, inr, refl, arith, false, String, List, [], ◌∷◌, is_some, nat_eq, nat_beq_iff,
  text_eq, Option-cases,
}
use orv.Base.Map.{Map, lookup, insert, remove, keys, lookup-insert, lookup-remove}
use orv.Proof.Children.{
  Pruner, prune_leaf, prune_cvk, prune_leaf_service, ProvenService, ChildTable, PruneTimers,
  stop_timer, reset_timer,
}
use orv.Proof.Children.Pruning.{
  prune_child_leaf, prune_child_vk, prune_service_of_leaf, run_pruner, fire, heartbeat_cvk,
  heartbeat_leaf_service, heartbeat_services,
}
use orv.Proof.Children.Views.{listed_at, withdraw_services-addresses}
use orv.Proof.Children.Offers.{leaf_address, vk_offers}
use orv.Proof.Children.Listed.{IsListed, SameViews, SameViews-IsListed}

prune_child_leaf-IsListed : (i : ℕ) (c : ChildTable) → IsListed c → IsListed (prune_child_leaf i c)
unfolding prune_child_leaf listed_at leaf_address vk_offers
prune_child_leaf-IsListed i c h = elim (Option-cases (lookup i c.leaves)) [
  | inl e ↦ SameViews-IsListed c (prune_child_leaf i c) (ground (arith, e)) h
  | inr (svcs, e) ↦ record {
    one_kind = λ j. ground (arith, e, h.one_kind j, lookup-remove i j c.leaves);
    leaf_listed = λ j t a f.
        ground (arith, e, f, h.leaf_listed j t a, lookup-remove i j c.leaves, nat_beq_iff i j);
    vk_listed = λ j t f. ground (arith, e, f, h.vk_listed j t);
  }
]

prune_child_vk-IsListed : (i : ℕ) (c : ChildTable) → IsListed c → IsListed (prune_child_vk i c)
unfolding prune_child_vk listed_at leaf_address vk_offers
prune_child_vk-IsListed i c h = elim (Option-cases (lookup i c.vks)) [
  | inl e ↦ SameViews-IsListed c (prune_child_vk i c) (ground (arith, e)) h
  | inr (cvk, e) ↦ record {
    one_kind = λ j. ground (arith, e, h.one_kind j, lookup-remove i j c.vks);
    leaf_listed = λ j t a f. ground (
      arith,
      e,
      f,
      h.one_kind i,
      h.leaf_listed j t a,
      nat_beq_iff i j,
      withdraw_services-addresses i (keys cvk.services) t j c.services,
    );
    vk_listed = λ j t f. ground (
      arith,
      e,
      f,
      h.vk_listed j t,
      lookup-remove i j c.vks,
      withdraw_services-addresses i (keys cvk.services) t j c.services,
    );
  }
]

prune_service_of_leaf-IsListed :
    (i : ℕ) (s : String) (c : ChildTable) → IsListed c → IsListed (prune_service_of_leaf i s c)
unfolding prune_service_of_leaf listed_at leaf_address vk_offers
prune_service_of_leaf-IsListed i s c h = elim (Option-cases (lookup i c.leaves)) [
  | inl e ↦ SameViews-IsListed c (prune_service_of_leaf i s c) (ground (arith, e)) h
  | inr (svcs, e) ↦ record {
    one_kind = λ j.
        ground
          (arith, e, h.one_kind j, lookup-insert i j (remove s svcs) c.leaves, nat_beq_iff i j);
    leaf_listed = λ j t a f. ground (
      arith,
      e,
      f,
      h.leaf_listed j t a,
      lookup-insert i j (remove s svcs) c.leaves,
      lookup-remove s t svcs,
      nat_beq_iff i j,
    );
    vk_listed = λ j t f. ground (arith, e, f, h.vk_listed j t);
  }
]

run_pruner-IsListed : (f : Pruner) (c : ChildTable) → IsListed c → IsListed (run_pruner f c)
run_pruner-IsListed (prune_leaf i) c h = prune_child_leaf-IsListed i c h
run_pruner-IsListed (prune_cvk i) c h = prune_child_vk-IsListed i c h
run_pruner-IsListed (prune_leaf_service i s) c h = prune_service_of_leaf-IsListed i s c h

set_clock-IsListed :
    (t : PruneTimers) (c : ChildTable) → IsListed c → IsListed (record c { clock = t })
set_clock-IsListed t c h = SameViews-IsListed c (record c { clock = t }) (refl, refl, refl) h

pub fire-IsListed : (n : ℕ) (c : ChildTable) → IsListed c → IsListed (fire n c)
unfolding fire
fire-IsListed n c h = elim (Option-cases (lookup n c.clock.running)) [
  | inl e ↦ SameViews-IsListed c (fire n c) (ground (arith, e)) h
  | inr ((f, d), e) ↦
      rw (e, fire) (run_pruner-IsListed f _ (set_clock-IsListed (stop_timer n c.clock) c h))
]

heartbeat_services-SameViews :
    (trim : String → String) (i : ℕ) (m : Map String ProvenService) (ns : List String)
    (c : ChildTable)
    → SameViews c (heartbeat_services trim i m ns c).1
unfolding heartbeat_services
heartbeat_services-SameViews trim i m [] c = ground arith
heartbeat_services-SameViews trim i m (n ∷ ns) c = elim (Option-cases (lookup (trim n) m)) [
  | inl e ↦ ground (arith, e, heartbeat_services-SameViews trim i m ns c)
  | inr (p, e) ↦
      let clock = reset_timer p.prune_timer (prune_leaf_service i (trim n)) p.stale_time c.clock in
      ground (
        arith,
        e,
        heartbeat_services-SameViews trim i m ns c,
        heartbeat_services-SameViews trim i m ns (record c { clock = clock }),
      )
]

pub heartbeat_leaf_service-SameViews :
    (trim : String → String) (i : ℕ) (ns : List String) (c : ChildTable)
    → SameViews c (heartbeat_leaf_service trim i ns c).1
unfolding heartbeat_leaf_service
heartbeat_leaf_service-SameViews trim i ns c = elim (Option-cases (lookup i c.leaves)) [
  | inl e ↦ ground (arith, e)
  | inr (m, e) ↦ ground (arith, e, heartbeat_services-SameViews trim i m ns c)
]

pub heartbeat_cvk-SameViews : (i : ℕ) (c : ChildTable) → SameViews c (heartbeat_cvk i c).1
unfolding heartbeat_cvk
heartbeat_cvk-SameViews i c = ground arith

-- A timer that fires adds no child.
run_pruner-children :
    (f : Pruner) (j : ℕ) (c : ChildTable)
    → (is_some (lookup j c.leaves) ≡ false → is_some (lookup j (run_pruner f c).leaves) ≡ false)
      × (is_some (lookup j c.vks) ≡ false → is_some (lookup j (run_pruner f c).vks) ≡ false)
unfolding prune_child_leaf prune_child_vk prune_service_of_leaf lookup insert
run_pruner-children (prune_leaf i) j c = ground (arith, lookup-remove i j c.leaves)
run_pruner-children (prune_cvk i) j c = ground (arith, lookup-remove i j c.vks)
run_pruner-children (prune_leaf_service i s) j c =
    ground (arith, lookup-remove i j c.leaves, nat_beq_iff i j)

pub fire-children :
    (n j : ℕ) (c : ChildTable)
    → (is_some (lookup j c.leaves) ≡ false → is_some (lookup j (fire n c).leaves) ≡ false)
      × (is_some (lookup j c.vks) ≡ false → is_some (lookup j (fire n c).vks) ≡ false)
unfolding fire
fire-children n j c = elim (Option-cases (lookup n c.clock.running)) [
  | inl e ↦ ground (arith, e)
  | inr ((f, d), e) ↦
      ground (arith, e, run_pruner-children f j (record c { clock = stop_timer n c.clock }))
]
