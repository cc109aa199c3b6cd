-- ===== src/Proof/Endpoints/Admission.antt =====
-- Which nodes may join a Vaultkeeper of the proof of concept.
use orv.Base.{
  ℕ, ◌≡◌, refl, inl, inr, arith, Bool, true, false, not, ◌&&◌, ◌||◌, is_some, ◌==◌, nat_eq,
  nat_beq_iff, text_eq, if◌then◌else◌, Option-cases, Bool-cases, [],
}
use orv.Base.Map.{lookup, lookup-insert}
use orv.Proof.Children.{ChildVk, add_child_leaf, add_vk}
use orv.Proof.Keeper.{VaultKeeper, is_taken, Outcome, blocked, failed, done, Platform}
use orv.Proof.Messages.{JoinReq, JoinAcceptResp}
use orv.Proof.Endpoints.{Answer, is_bad_id, required_height, join_as_vk, join_as_leaf, handle_join}

abbrev pub is_done : {E A : Type 0} → Outcome E A → Bool
is_done blocked = false
is_done (failed e) = false
is_done (done a) = true

pub done-cases : {E A : Type 0} (o : Outcome E A) → is_done o ≡ true → (r : A) × (o ≡ done r)
done-cases blocked h = cc
done-cases (failed e) h = cc
done-cases (done r) h = (r, refl)

-- Which JOIN is well-formed: a VK has the height below and an address, and no node has the ID of a child
-- of the other kind.
abbrev pub admits : Platform → JoinReq → VaultKeeper → Bool
admits P req vk =
    if req.is_vk
    then req.height == required_height vk
      && is_some (P.parse_addr_port req.vk_addr)
      && not (is_some (lookup req.id vk.children.leaves))
    else is_some (lookup req.id vk.children.leaves) || not (is_some (lookup req.id vk.children.vks))

-- A decision on whether a node is let in.
abbrev pub lets_in : Platform → JoinReq → VaultKeeper → Bool
lets_in P req vk =
    not (is_bad_id req.id vk) && (is_some (lookup req.id vk.pending_hellos) && admits P req vk)

module _ (P : Platform) (req : JoinReq) (vk : VaultKeeper) (j : ℕ) where
  -- Whether the node is a leaf or a child VK after the call, and what stays.
  abbrev pub Enters : Bool → Answer JoinAcceptResp → Type 0
  Enters entered answer =
      (is_done answer.0 ≡ entered)
      × (is_some (lookup j answer.1.children.leaves)
          ≡ (is_some (lookup j vk.children.leaves) || entered && (not req.is_vk && req.id == j)))
      × (is_some (lookup j answer.1.children.vks)
          ≡ (is_some (lookup j vk.children.vks) || entered && (req.is_vk && req.id == j)))
      × (answer.1.children.services ≡ vk.children.services)
      × (answer.1.pending_hellos ≡ vk.pending_hellos)

  join_as_vk_lem :
      vk.children_locked ≡ false → req.is_vk ≡ true → Enters (admits P req vk) (join_as_vk P req vk)
  unfolding join_as_vk add_vk
  join_as_vk_lem unlocked v = elim (Option-cases (P.parse_addr_port req.vk_addr)) [
    | inl e ↦ ground (arith, unlocked, v, e)
    | inr (a, e) ↦
        let new : ChildVk = record {
          prune_timer = vk.children.clock.next_number;
          services = [];
          addr = a;
        } in
        ground
          (arith, unlocked, v, e, lookup-insert req.id j new vk.children.vks, nat_beq_iff req.id j)
  ]

  join_as_leaf_lem :
      vk.children_locked ≡ false
      → req.is_vk ≡ false
      → Enters (admits P req vk) (join_as_leaf req vk)
  unfolding join_as_leaf add_child_leaf
  join_as_leaf_lem unlocked v =
      ground
        (arith, unlocked, v, lookup-insert req.id j [] vk.children.leaves, nat_beq_iff req.id j)

  -- While no lock is kept, a JOIN is accepted exactly if its ID is neither 0 nor the Vaultkeeper's own, a
  -- HELLO of it is pending, and, for a VK, the height is the Vaultkeeper's less one in 16 bits, the
  -- address can be read and the ID is no leaf's; for a leaf, the ID is that of a leaf already or of no child VK.
  -- The node is then a child of its kind. No other node becomes a child or stops being one, no provider
  -- changes, and the HELLO is not used up.
  pub handle_join_lem :
      vk.children_locked ≡ false
      → is_taken vk.structure ≡ false
      → Enters (lets_in P req vk) (handle_join P req vk)
  unfolding handle_join
  handle_join_lem unlocked readable = elim (Bool-cases req.is_vk) [
    | inl v ↦ ground (arith, unlocked, readable, v, join_as_vk_lem unlocked v)
    | inr v ↦ ground (arith, unlocked, readable, v, join_as_leaf_lem unlocked v)
  ]
