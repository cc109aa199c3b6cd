-- ===== src/Proof/Children/Listed.antt =====
-- Whatever a child offers is in the list of providers, whatever happens to the children.
use orv.Base.{
  ℕ, ◌≡◌, arith, true, false, not, ◌&&◌, ◌||◌, String, [], Option, some, is_some, ◌==◌, nat_eq,
  nat_beq_iff, text_eq,
}
use orv.Base.Map.{lookup, lookup-insert}
use orv.Base.Int.{ℤ}
use orv.Vk.State.{AddrPort}
use orv.Proof.Children.{ChildVk, ChildTable, add_child_leaf, add_vk, add_child_service}
use orv.Proof.Children.Views.{listed_at, add_child_service_lem}
use orv.Proof.Children.Offers.{
  leaf_address, vk_offers, add_child_leaf-leaf_address, add_vk-vk_offers,
}
use orv.Proof.Children.Registered.{
  add_child_service-leaf_address, add_child_service-vk_offers, add_child_service-SameChildren,
}

-- No ID is that of a leaf and of a VK, a leaf is listed with the address at which it offers a service, and
-- a child VK is listed for each service that it offers.
pub record IsListed (c : ChildTable) : Type 0 where
  pub one_kind : (i : ℕ) → is_some (lookup i c.leaves) && is_some (lookup i c.vks) ≡ false
  pub leaf_listed :
      (i : ℕ) (t : String) (a : AddrPort) → leaf_address i t c ≡ some a → listed_at t i c ≡ some a
  pub vk_listed : (i : ℕ) (t : String) → vk_offers i t c ≡ true → is_some (listed_at t i c) ≡ true

-- What the invariant looks at.
abbrev pub SameViews : ChildTable → ChildTable → Type 0
SameViews c d = (d.services ≡ c.services) × (d.leaves ≡ c.leaves) × (d.vks ≡ c.vks)

pub SameViews-IsListed : (c d : ChildTable) → SameViews c d → IsListed c → IsListed d
unfolding leaf_address vk_offers listed_at
SameViews-IsListed c d e h = record {
  one_kind = λ i. ground (arith, e, h.one_kind i);
  leaf_listed = λ i t a f. ground (arith, e, f, h.leaf_listed i t a);
  vk_listed = λ i t f. ground (arith, e, f, h.vk_listed i t);
}

pub add_child_leaf-footprint :
    (i j : ℕ) (c : ChildTable)
    → ((add_child_leaf i c).1.services ≡ c.services)
      × (is_some (lookup j (add_child_leaf i c).1.leaves)
          ≡ (is_some (lookup j c.leaves) || (not (is_some (lookup i c.vks)) && i == j)))
      × ((add_child_leaf i c).1.vks ≡ c.vks)
unfolding add_child_leaf
add_child_leaf-footprint i j c = ground (arith, nat_beq_iff i j, lookup-insert i j [] c.leaves)

pub add_vk-footprint :
    (i j : ℕ) (a : AddrPort) (c : ChildTable)
    → ((add_vk i a c).1.services ≡ c.services)
      × ((add_vk i a c).1.leaves ≡ c.leaves)
      × (is_some (lookup j (add_vk i a c).1.vks)
          ≡ (is_some (lookup j c.vks) || (not (is_some (lookup i c.leaves)) && i == j)))
unfolding add_vk
add_vk-footprint i j a c =
    let new : ChildVk = record { prune_timer = c.clock.next_number; services = []; addr = a } in
    ground (arith, nat_beq_iff i j, lookup-insert i j new c.vks)

pub add_child_leaf-IsListed :
    (i : ℕ) (c : ChildTable) → IsListed c → IsListed (add_child_leaf i c).1
unfolding listed_at
add_child_leaf-IsListed i c h = record {
  one_kind = λ j. ground (arith, add_child_leaf-footprint i j c, h.one_kind j, nat_beq_iff i j);
  leaf_listed = λ j t a e. ground (
    arith,
    e,
    add_child_leaf-footprint i j c,
    add_child_leaf-leaf_address i j t c,
    h.leaf_listed j t a,
  );
  vk_listed = λ j t e. ground (
    arith,
    e,
    add_child_leaf-footprint i j c,
    add_child_leaf-leaf_address i j t c,
    h.vk_listed j t,
  );
}

pub add_vk-IsListed :
    (i : ℕ) (a : AddrPort) (c : ChildTable) → IsListed c → IsListed (add_vk i a c).1
unfolding listed_at
add_vk-IsListed i a c h = record {
  one_kind = λ j. ground (arith, add_vk-footprint i j a c, h.one_kind j, nat_beq_iff i j);
  leaf_listed = λ j t b e.
      ground (arith, e, add_vk-footprint i j a c, add_vk-vk_offers i j a t c, h.leaf_listed j t b);
  vk_listed = λ j t e.
      ground (arith, e, add_vk-footprint i j a c, add_vk-vk_offers i j a t c, h.vk_listed j t);
}

pub add_child_service-IsListed :
    (i : ℕ) (s : String) (a : AddrPort) (stale : Option ℤ) (c : ChildTable)
    → IsListed c
    → IsListed (add_child_service i s a stale c).1
unfolding leaf_address vk_offers
add_child_service-IsListed i s a stale c h = record {
  one_kind = λ j. ground (arith, add_child_service-SameChildren i j s a stale c, h.one_kind j);
  leaf_listed = λ j t b e. ground (
    arith,
    e,
    add_child_service_lem i s a stale c t j,
    add_child_service-leaf_address i j s t a stale c,
    h.leaf_listed j t b,
    h.one_kind i,
    nat_beq_iff i j,
  );
  vk_listed = λ j t e. ground (
    arith,
    e,
    add_child_service_lem i s a stale c t j,
    add_child_service-vk_offers i j s t a stale c,
    h.vk_listed j t,
    h.one_kind i,
    nat_beq_iff i j,
  );
}
