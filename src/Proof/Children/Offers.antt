-- ===== src/Proof/Children/Offers.antt =====
-- What each child itself offers, how each operation changes that, and that whatever a child offers is in
-- the list of providers.
use orv.Base.{
  ℕ, ◌≡◌, arith, Bool, false, String, [], Option, none, some, is_some, nat_eq, nat_beq_iff, text_eq,
}
use orv.Base.Map.{Map, lookup, lookup-insert, lookup-empty}
use orv.Vk.State.{AddrPort}
use orv.Proof.Children.{ProvenService, ChildVk, ChildTable, add_child_leaf, add_vk}

abbrev pub address_in : String → Option (Map String ProvenService) → Option AddrPort
address_in t none = none
address_in t (some leaf) = elim (lookup t leaf) [ none ↦ none | some p ↦ some p.addr ]

-- The address at which a leaf offers a service.
unfoldable pub leaf_address : ℕ → String → ChildTable → Option AddrPort
leaf_address j t c = address_in t (lookup j c.leaves)

abbrev pub has_service : String → Option ChildVk → Bool
has_service t none = false
has_service t (some cvk) = is_some (lookup t cvk.services)

-- Whether a child VK offers a service.
unfoldable pub vk_offers : ℕ → String → ChildTable → Bool
vk_offers j t c = has_service t (lookup j c.vks)

pub add_child_leaf-leaf_address :
    (i j : ℕ) (t : String) (c : ChildTable)
    → (leaf_address j t (add_child_leaf i c).1 ≡ leaf_address j t c)
      × (vk_offers j t (add_child_leaf i c).1 ≡ vk_offers j t c)
unfolding leaf_address vk_offers add_child_leaf
add_child_leaf-leaf_address i j t c = ground (
  arith,
  nat_beq_iff i j,
  lookup-insert i j [] c.leaves,
  lookup-empty {K = String} {V = ProvenService} t,
)

pub add_vk-vk_offers :
    (i j : ℕ) (a : AddrPort) (t : String) (c : ChildTable)
    → (leaf_address j t (add_vk i a c).1 ≡ leaf_address j t c)
      × (vk_offers j t (add_vk i a c).1 ≡ vk_offers j t c)
unfolding leaf_address vk_offers add_vk
add_vk-vk_offers i j a t c =
    let new : ChildVk = record { prune_timer = c.clock.next_number; services = []; addr = a } in
    ground (
      arith,
      nat_beq_iff i j,
      lookup-insert i j new c.vks,
      lookup-empty {K = String} {V = AddrPort} t,
    )
