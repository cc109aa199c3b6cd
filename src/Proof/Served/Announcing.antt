-- ===== src/Proof/Served/Announcing.antt =====
-- The REGISTERs that follow a JOIN, at the new parent.
use orv.Base.{
  ℕ, ◌≡◌, arith, inl, inr, true, false, ◌&&◌, ◌||◌, String, List, [], ◌∷◌, none, some, is_some,
  ◌==◌, nat_eq, text_eq, All, Option-cases,
}
use orv.Base.Map.{Map, beq_refl}
use orv.Proof.Children.{ServiceProvider}
use orv.Proof.Children.Views.{listed_at}
use orv.Proof.Children.Registered.{add_child_service-SameChildren}
use orv.Proof.Keeper.{VaultKeeper, Platform}
use orv.Proof.Keeper.Joining.{register_providers, register_services, provider_request}
use orv.Proof.Messages.{RegisterReq}
use orv.Proof.Endpoints.Admission.{is_done, done-cases}
use orv.Proof.Endpoints.Registration.{read_address, handle_register_lem}
use orv.Proof.Endpoints.Services.{handle_register, register_service}
use orv.Proof.Served.{server, Ready, Announced, has_provider, is_provided}

handle_register-Ready :
    (P : Platform) (req : RegisterReq) (i : ℕ) (vk : VaultKeeper)
    → Ready i vk
    → Ready i (handle_register P req vk).1
unfolding handle_register register_service
handle_register-Ready P req i vk h = elim (Option-cases (read_address P req)) [
  | inl e ↦ ground (arith, h, e)
  | inr (a, e) ↦ ground (
    arith,
    h,
    e,
    add_child_service-SameChildren req.id i (P.trim_space req.service) a
        (P.parse_duration (P.trim_space req.stale)) vk.children,
  )
]

module _ (P : Platform) (url : String) (i : ℕ) where
  provider_served :
      (sn t : String) (p : ServiceProvider) (vk : VaultKeeper)
      → Ready i vk
      → P.trim_space sn ≡ sn
      → (sn == "") ≡ false
      → P.parse_addr_port (P.trim_space (P.print_addr p.addr)) ≡ some p.addr
      → let answer = handle_register P (provider_request P (server P) i sn p) vk in
        (is_done answer.0 ≡ true)
        × (is_some (listed_at t i answer.1.children)
            ≡ (is_some (listed_at t i vk.children) || sn == t))
  provider_served sn t p vk h trimmed full readable = ground (
    arith,
    h,
    trimmed,
    full,
    readable,
    beq_refl i,
    handle_register_lem P vk t i (provider_request P (server P) i sn p) h.0,
  )

  providers_served :
      (sn t : String) (ps : List ServiceProvider) (vk : VaultKeeper)
      → Ready i vk
      → P.trim_space sn ≡ sn
      → (sn == "") ≡ false
      → All (λ p. P.parse_addr_port (P.trim_space (P.print_addr p.addr)) ≡ some p.addr) ps
      → let out = register_providers P (server P) url i sn ps vk in
        (out.0 ≡ none)
        × Ready i out.1
        × (is_some (listed_at t i out.1.children)
            ≡ (is_some (listed_at t i vk.children) || sn == t && has_provider ps))
  unfolding register_providers
  providers_served sn t [] vk h trimmed full readable = ground (arith, h)
  providers_served sn t (p ∷ ps) vk h trimmed full readable =
      let req = provider_request P (server P) i sn p in
      let answer = handle_register P req vk in
      let k = provider_served sn t p vk h trimmed full readable.0 in
      let (r, e) = done-cases answer.0 k.0 in
      let h' = handle_register-Ready P req i vk h in
      ground (arith, e, k, providers_served sn t ps answer.1 h' trimmed full readable.1)

  pub services_served :
      (t : String) (m : Map String (List ServiceProvider)) (vk : VaultKeeper)
      → Ready i vk
      → Announced P m
      → let out = register_services P (server P) url i m vk in
        (out.0 ≡ none)
        × Ready i out.1
        × (is_some (listed_at t i out.1.children)
            ≡ (is_some (listed_at t i vk.children) || is_provided t m))
  unfolding register_services
  services_served t [] vk h all = ground (arith, h)
  services_served t ((sn, ps) ∷ rest) vk h all =
      let out = register_providers P (server P) url i sn ps vk in
      let k = providers_served sn t ps vk h all.0.0 all.0.1 all.0.2 in
      ground (arith, k, services_served t rest out.1 k.1 all.1)
