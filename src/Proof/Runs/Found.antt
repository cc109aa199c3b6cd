-- ===== src/Proof/Runs/Found.antt =====
-- A GET of what some child offers.
use orv.Base.{
  ℕ, zero, suc, ◌-◌, ◌<◌, ◌≡◌, inl, inr, refl, arith, Bool, true, false, ◌||◌, String, List, [],
  ◌∷◌, some, is_some, ◌==◌, nat_eq, text_eq, Option-cases, length, ok,
}
use orv.Base.Map.{lookup}
use orv.Vk.State.{AddrPort}
use orv.Proof.Children.{ServiceProvider, ChildTable}
use orv.Proof.Children.Pruning.{get_random_provider, get_elem?}
use orv.Proof.Children.Views.{listed_at}
use orv.Proof.Children.Offers.{leaf_address, vk_offers}
use orv.Proof.Children.Listed.{IsListed}
use orv.Proof.Keeper.{VaultKeeper, Platform, done, pt_get_response}
use orv.Proof.Messages.{Http, GetReq}
use orv.Proof.Endpoints.Queries.{handle_get}
use orv.Proof.Runs.Sound.{reachable-IsSound}
use orv.Proof.Keeper.Lifecycle.{VkOption, new_vault_keeper}
use orv.Proof.Runs.{Reaches}

-- Whether a child offers a service.
abbrev pub offers : ℕ → String → ChildTable → Bool
offers j sn c = is_some (leaf_address j sn c) || vk_offers j sn c

get_elem?-found :
    (ps : List ServiceProvider) (i : ℕ) → i < length ps → is_some (get_elem? ps i) ≡ true
unfolding get_elem?
get_elem?-found [] i h = absurd (omega arith)
get_elem?-found (p ∷ ps) zero h = ground arith
get_elem?-found (p ∷ ps) (suc i) h =
    let z : suc i - 1 ≡ i = omega arith in ground (arith, z, get_elem?-found ps i (omega arith))

-- A service that some child is listed for has a provider.
listed_at-get_random_provider :
    (int_n : ℕ → ℕ) (sn : String) (j : ℕ) (c : ChildTable)
    → ((n : ℕ) → 0 < n → int_n n < n)
    → is_some (listed_at sn j c) ≡ true
    → is_some (get_random_provider int_n sn c) ≡ true
unfolding listed_at get_random_provider
listed_at-get_random_provider int_n sn j c law h = elim (Option-cases (lookup sn c.services)) [
  | inl e ↦ ground (arith, e, h)
  | inr ([], e) ↦ ground (arith, e, h)
  | inr (p ∷ rest, e) ↦
      let n = length (p ∷ rest) in
      ground (arith, e, h, get_elem?-found (p ∷ rest) (int_n n) (law n (omega arith)))
]

-- What a child offers has a provider.
offers-get_random_provider :
    (int_n : ℕ → ℕ) (sn : String) (j : ℕ) (c : ChildTable)
    → ((n : ℕ) → 0 < n → int_n n < n)
    → IsListed c
    → offers j sn c ≡ true
    → is_some (get_random_provider int_n sn c) ≡ true
offers-get_random_provider int_n sn j c law h o =
    listed_at-get_random_provider int_n sn j c law (elim (Option-cases (leaf_address j sn c)) [
      | inl e ↦ h.vk_listed j sn (ground (arith, e, o))
      | inr (a, e) ↦ rw (h.leaf_listed j sn a e) refl
    ])

module _ {S : Type 0} (P : Platform) (http : Http S) where
  -- Whatever has happened to a new Vaultkeeper, a GET of a service that some child offers is, unless the lock of
  -- the children is kept, answered by the Vaultkeeper itself with the address of a provider, whatever the hop
  -- count.
  pub offered-served :
      (id : ℕ) (addr : AddrPort) (opts : List VkOption) (u v : VaultKeeper) (int_n : ℕ → ℕ) (j : ℕ)
      (req : GetReq) (s : S)
      → ((n : ℕ) → 0 < n → int_n n < n)
      → new_vault_keeper id addr opts ≡ ok u
      → Reaches P http u v
      → v.children_locked ≡ false
      → (P.trim_space req.service == "") ≡ false
      → offers j (P.trim_space req.service) v.children ≡ true
      → (a : AddrPort) × (get_random_provider int_n (P.trim_space req.service) v.children ≡ some a)
        × (handle_get P http int_n req v s
            ≡ (done (record { pkt_type = pt_get_response; id = v.id; addr = P.print_addr a }), s))
  unfolding handle_get
  offered-served id addr opts u v int_n j req s law new r free full o =
      let sn = P.trim_space req.service in
      let h = reachable-IsSound P http id addr opts u v new r in
      let k = offers-get_random_provider int_n sn j v.children law h.listed o in
      elim (Option-cases (get_random_provider int_n sn v.children)) [
        | inl e ↦ absurd (ground (arith, e, k))
        | inr (a, e) ↦ (a, e, ground (arith, e, free, full))
      ]
