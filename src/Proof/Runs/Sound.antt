-- ===== src/Proof/Runs/Sound.antt =====
-- Who is a child of a Vaultkeeper, and where what it offers is listed, after any steps.
use orv.Base.{
  ℕ, ◌≡◌, refl, arith, Bool, true, false, ◌||◌, List, is_some, nat_eq, nat_beq_iff, text_eq, ok,
}
use orv.Base.Map.{lookup}
use orv.Base.Int.{ℤ}
use orv.Vk.State.{AddrPort}
use orv.Proof.Children.{ChildTable, new_children}
use orv.Proof.Children.Views.{listed_at}
use orv.Proof.Children.Offers.{leaf_address, vk_offers}
use orv.Proof.Children.Registered.{add_child_service-SameChildren}
use orv.Proof.Children.Listed.{
  IsListed, SameViews-IsListed, add_child_leaf-IsListed, add_child_leaf-footprint, add_vk-IsListed,
  add_vk-footprint, add_child_service-IsListed,
}
use orv.Proof.Children.Expiry.{fire-IsListed, fire-children}
use orv.Proof.Keeper.{VaultKeeper, Platform}
use orv.Proof.Keeper.Lifecycle.{VkOption, apply_options, default_vk, new_vault_keeper}
use orv.Proof.Messages.{Http}
use orv.Proof.Endpoints.{is_bad_id}
use orv.Proof.Runs.{Reaches, start_of, then_step}
use orv.Proof.Runs.Changes.{
  Change, looks_same, vk_enters, leaf_enters, registers, timer_ends, Changes, Step-Changes,
}

abbrev pub is_child : ℕ → ChildTable → Bool
is_child i c = is_some (lookup i c.leaves) || is_some (lookup i c.vks)

-- Neither the ID 0 nor the Vaultkeeper's own is that of a child, no ID is that of a leaf and of a VK, and
-- whatever a child offers is in the list of providers.
pub record IsSound (vk : VaultKeeper) : Type 0 where
  pub listed : IsListed vk.children
  pub others : (i : ℕ) → is_bad_id i vk ≡ true → is_child i vk.children ≡ false

Change-IsListed : {v : VaultKeeper} {d : ChildTable} → Change v d → IsListed v.children → IsListed d
Change-IsListed {v} {d} (looks_same e) h = SameViews-IsListed v.children d e h
Change-IsListed {v} (vk_enters i a b e) h = rw e (add_vk-IsListed i a v.children h)
Change-IsListed {v} (leaf_enters i b e) h = rw e (add_child_leaf-IsListed i v.children h)
Change-IsListed {v} (registers i s a stale e) h =
    rw e (add_child_service-IsListed i s a stale v.children h)
Change-IsListed {v} (timer_ends n e) h = rw e (fire-IsListed n v.children h)

Change-others :
    {v : VaultKeeper} {d : ChildTable} (j : ℕ)
    → Change v d
    → is_bad_id j v ≡ true
    → is_child j v.children ≡ false
    → is_child j d ≡ false
Change-others {v} {d} j (looks_same e) k h = ground (arith, e, h)
Change-others {v} {d} j (vk_enters i a b e) k h =
    ground (arith, e, h, b, k, add_vk-footprint i j a v.children, nat_beq_iff i j)
Change-others {v} {d} j (leaf_enters i b e) k h =
    ground (arith, e, h, b, k, add_child_leaf-footprint i j v.children, nat_beq_iff i j)
Change-others {v} {d} j (registers i s a stale e) k h =
    ground (arith, e, h, add_child_service-SameChildren i j s a stale v.children)
Change-others {v} {d} j (timer_ends n e) k h = ground (arith, e, h, fire-children n j v.children)

Changes-IsSound : (v w : VaultKeeper) → Changes v w → IsSound v → IsSound w
Changes-IsSound v w c h = record {
  listed = Change-IsListed c.1 h.listed;
  others = λ i b.
      let k : is_bad_id i v ≡ true = ground (arith, b, c.0) in Change-others i c.1 k (h.others i k);
}

new_children-IsListed : (d e : ℤ) → IsListed (new_children d e)
unfolding new_children listed_at leaf_address vk_offers lookup
new_children-IsListed d e = record {
  one_kind = λ i. ground arith;
  leaf_listed = λ i t a f. ground (arith, f);
  vk_listed = λ i t f. ground (arith, f);
}

new_children-others : (d e : ℤ) (i : ℕ) → is_child i (new_children d e) ≡ false
unfolding new_children lookup
new_children-others d e i = refl

new_vault_keeper-IsSound :
    (id : ℕ) (addr : AddrPort) (opts : List VkOption) (vk : VaultKeeper)
    → new_vault_keeper id addr opts ≡ ok vk
    → IsSound vk
unfolding new_vault_keeper
new_vault_keeper-IsSound id addr opts vk e =
    let pt = (apply_options opts (default_vk id addr)).prune_times in
    let k : vk.children ≡ new_children pt.serviceless_child pt.cvk = ground (arith, e) in
    record {
      listed = rw k (new_children-IsListed pt.serviceless_child pt.cvk);
      others = λ i b. rw k (new_children-others pt.serviceless_child pt.cvk i);
    }

module _ {S : Type 0} (P : Platform) (http : Http S) where
  Reaches-IsSound : {u v : VaultKeeper} → Reaches P http u v → IsSound u → IsSound v
  Reaches-IsSound (start_of u) h = h
  Reaches-IsSound (then_step u v w r st) h =
      Changes-IsSound v w (Step-Changes P http st) (Reaches-IsSound r h)

  -- Whatever happens to a new Vaultkeeper: neither 0 nor its own ID is that of a child, no ID is that of
  -- both a leaf and a child VK, a leaf is listed with the address at which it offers a service, and a child
  -- VK is listed for each service that it offers.
  pub reachable-IsSound :
      (id : ℕ) (addr : AddrPort) (opts : List VkOption) (u v : VaultKeeper)
      → new_vault_keeper id addr opts ≡ ok u
      → Reaches P http u v
      → IsSound v
  reachable-IsSound id addr opts u v e r =
      Reaches-IsSound r (new_vault_keeper-IsSound id addr opts u e)
