-- ===== src/Proof/Endpoints/Timely.antt =====
-- A HELLO, a round of the pruner, and a JOIN.
use orv.Base.{
  ℕ, ◌≡◌, inl, inr, refl, arith, false, not, ◌&&◌, [], ◌∷◌, none, is_some, nat_eq, nat_beq_iff,
  text_eq, Bool-cases,
}
use orv.Base.Int.{ℤ}
use orv.Base.Map.{Map, lookup, insert, remove, beq_refl}
use orv.Proof.Keeper.{VaultKeeper, is_taken, Platform}
use orv.Proof.Keeper.Lifecycle.{has_lasted, prune_hellos, pruner_round}
use orv.Proof.Messages.{JoinReq}
use orv.Proof.Endpoints.{is_bad_id, handle_hello, handle_join}
use orv.Proof.Endpoints.Admission.{is_done, admits, handle_join_lem}

lookup-prune_hellos_removed :
    (now id : ℕ) (d : ℤ) (m : Map ℕ ℕ) → lookup id (prune_hellos now d (remove id m)) ≡ none
unfolding prune_hellos lookup remove
lookup-prune_hellos_removed now id d [] = refl
lookup-prune_hellos_removed now id d ((j, ts) ∷ m) =
    ground (arith, nat_beq_iff j id, lookup-prune_hellos_removed now id d m)

lookup-prune_hellos :
    (now id ts : ℕ) (d : ℤ) (m : Map ℕ ℕ)
    → is_some (lookup id (prune_hellos now d (insert id ts m))) ≡ not (has_lasted now ts d)
unfolding prune_hellos lookup insert
lookup-prune_hellos now id ts d m =
    ground (arith, beq_refl id, lookup-prune_hellos_removed now id d m)

-- While no lock is kept: a node that says HELLO, and asks to join after a round of the pruner, is accepted
-- exactly if its ID is neither 0 nor the Vaultkeeper's own, the time for HELLOs had not passed in that round
-- since its HELLO, and its JOIN is well-formed.
pub hello_in_time :
    (P : Platform) (req : JoinReq) (ts now : ℕ) (vk : VaultKeeper)
    → vk.children_locked ≡ false
    → is_taken vk.structure ≡ false
    → let later = pruner_round now (handle_hello ts req.id vk).1 in
      is_done (handle_join P req later).0 ≡ (
        not (is_bad_id req.id vk)
        && (not (has_lasted now ts vk.prune_times.pending_hello) && admits P req vk))
unfolding handle_hello pruner_round
hello_in_time P req ts now vk unlocked free =
    let later = pruner_round now (handle_hello ts req.id vk).1 in
    elim (Bool-cases (is_bad_id req.id vk)) [
      | inl b ↦ ground (arith, b, unlocked, free, handle_join_lem P req later 0)
      | inr b ↦ ground (
        arith,
        b,
        unlocked,
        free,
        handle_join_lem P req later 0,
        lookup-prune_hellos now req.id ts vk.prune_times.pending_hello vk.pending_hellos,
      )
    ]
