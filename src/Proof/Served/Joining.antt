-- ===== src/Proof/Served/Joining.antt =====
-- A Join, at both ends.
use orv.Base.{ℕ, ◌≡◌, arith, true, false, ◌||◌, String, some, is_some, nat_eq, text_eq, ◌∙◌}
use orv.Base.Map.{lookup, beq_refl}
use orv.Vk.State.{AddrPort}
use orv.Proof.Children.{ChildTable}
use orv.Proof.Children.Views.{listed_at}
use orv.Proof.Keeper.{VaultKeeper, is_free, is_taken, Outcome, done, Platform}
use orv.Proof.Keeper.Lifecycle.{CallError}
use orv.Proof.Keeper.Joining.{announce_services, join_vk, join_request}
use orv.Proof.Messages.{JoinReq, JoinAcceptResp}
use orv.Proof.Endpoints.{handle_join}
use orv.Proof.Endpoints.Admission.{done-cases, lets_in, handle_join_lem}
use orv.Proof.Served.{server, Ready, Announced, is_provided}
use orv.Proof.Keeper.{url_at, ep_register}
use orv.Proof.Endpoints.{join_as_vk, join_as_leaf}
use orv.Proof.Served.Announcing.{services_served}

handle_join-footprint :
    (P : Platform) (req : JoinReq) (vk : VaultKeeper)
    → vk.children_locked ≡ false
    → let answer = handle_join P req vk in
      (answer.1.id ≡ vk.id)
      × (answer.1.children_locked ≡ false)
      × ((r : JoinAcceptResp) → answer.0 ≡ done r → r.id ≡ vk.id)
unfolding handle_join join_as_vk join_as_leaf
handle_join-footprint P req vk free =
    (ground (arith, free), ground (arith, free), λ r e. ground (arith, free, e))

listed_at-services :
    (c d : ChildTable) (t : String) (j : ℕ)
    → d.services ≡ c.services
    → listed_at t j d ≡ listed_at t j c
unfolding listed_at
listed_at-services c d t j e = ground (arith, e)

module _ (P : Platform) (addr_str t : String) (a : AddrPort) (c p : VaultKeeper) where
  abbrev pub Joined : Outcome CallError Unit × (VaultKeeper × VaultKeeper) → Type 0
  Joined out =
      (out.0 ≡ done tt)
      × (out.1.0 ≡ record c { parent_id = p.id; parent_addr = a })
      × (is_some (lookup c.id out.1.1.children.vks) ≡ true)
      × (is_some (listed_at t c.id out.1.1.children)
          ≡ (is_some (listed_at t c.id p.children) || is_provided t c.children.services))

  -- Where neither Vaultkeeper has a kept lock and the parent lets the child VK in, whose service names are trimmed and
  -- not empty and whose addresses can be read, Join succeeds: the child has the other as its parent and changes
  -- nothing else, is a child VK there, and is listed there for each service that has a provider at the child, and
  -- otherwise as before.
  pub join_vk-served :
      c.alive ≡ true
      → is_free c.structure ≡ true
      → c.children_locked ≡ false
      → P.parse_addr_port addr_str ≡ some a
      → p.children_locked ≡ false
      → is_taken p.structure ≡ false
      → lets_in P (join_request P (server P) c) p ≡ true
      → Announced P c.children.services
      → Joined (join_vk P (server P) addr_str c p)
  unfolding join_vk announce_services
  join_vk-served alive free unlocked parsed p_unlocked p_free admitted all =
      let req = join_request P (server P) c in
      let answer = handle_join P req p in
      let k = handle_join_lem P req p c.id p_unlocked p_free in
      let f = handle_join-footprint P req p p_unlocked in
      let (r, e) = done-cases answer.0 (k.0 ∙ admitted) in
      let ready : Ready c.id answer.1 = ground (arith, k, f.0, f.1, admitted, beq_refl c.id) in
      ground (
        arith,
        alive,
        free,
        unlocked,
        parsed,
        e,
        f.2 r e,
        listed_at-services p.children answer.1.children t c.id k.3,
        services_served P (url_at P a ep_register) c.id t c.children.services answer.1 ready all,
      )
