-- ===== src/Proof/Served.antt =====
-- A Vaultkeeper of the proof of concept whose `Join` reaches another one: the network is the other's
-- endpoints.
pub mod Announcing
pub mod Joining
use orv.Base.{
  ℕ, ◌≡◌, refl, arith, inl, inr, Bool, true, false, not, ◌&&◌, ◌||◌, String, List, [], ◌∷◌, Option,
  none, some, is_some, ◌==◌, nat_eq, nat_beq_iff, text_eq, if◌then◌else◌, All, Option-cases,
  Bool-cases,
}
use orv.Base.Map.{Map, lookup, beq_refl}
use orv.Vk.State.{AddrPort}
use orv.Proof.Children.{ServiceProvider, ChildTable}
use orv.Proof.Children.Views.{accepts, listed_at}
use orv.Proof.Children.Registered.{add_child_service-SameChildren}
use orv.Proof.Keeper.{
  VaultKeeper, is_free, is_taken, HumaError, Outcome, blocked, failed, done, Platform, status_ok,
  status_accepted,
}
use orv.Proof.Keeper.Joining.{
  register_providers, register_services, provider_request, announce_services, join_vk, join_request,
}
use orv.Proof.Messages.{JoinReq, JoinAcceptResp, RegisterReq, RegisterAcceptResp, Http}
use orv.Proof.Endpoints.{is_bad_id, handle_join, handle_hello}
use orv.Proof.Endpoints.Admission.{is_done, done-cases, lets_in, handle_join_lem}
use orv.Proof.Endpoints.Registration.{registers_well, read_address, handle_register_lem}
use orv.Proof.Endpoints.Services.{handle_register, register_service}

abbrev pub join_reply : Outcome HumaError JoinAcceptResp → Option (ℕ × (ℕ × ℕ))
join_reply blocked = none
join_reply (failed e) = some (e.status, (0, 0))
join_reply (done r) = some (status_accepted, (r.id, r.height))

abbrev pub register_reply : Outcome HumaError RegisterAcceptResp → Option ℕ
register_reply blocked = none
register_reply (failed e) = some e.status
register_reply (done r) = some status_accepted

-- The network whose only node is a Vaultkeeper, which answers JOIN and REGISTER at any address.
abbrev pub server : Platform → Http VaultKeeper
server P = record {
  get_status = λ url vk. (none, vk);
  post_hello = λ url id vk. (none, vk);
  post_join = λ url req vk. let (answer, vk') = handle_join P req vk in (join_reply answer, vk');
  post_register =
      λ url req vk. let (answer, vk') = handle_register P req vk in (register_reply answer, vk');
  post_vk_heartbeat = λ url id vk. (none, vk);
  post_list = λ url h vk. (none, vk);
  post_get = λ url req vk. (none, vk);
}

-- A child VK with the ID `i`, whose requests no kept lock bars.
abbrev pub Ready : ℕ → VaultKeeper → Type 0
Ready i vk =
    (vk.children_locked ≡ false)
    × (is_bad_id i vk ≡ false)
    × (is_some (lookup i vk.children.leaves) ≡ false)
    × (is_some (lookup i vk.children.vks) ≡ true)

-- The names are trimmed and not empty, and the printed addresses can be read.
abbrev pub Announced : Platform → Map String (List ServiceProvider) → Type 0
Announced P = All (λ e.
    (P.trim_space e.0 ≡ e.0)
    × ((e.0 == "") ≡ false)
    × All (λ p. P.parse_addr_port (P.trim_space (P.print_addr p.addr)) ≡ some p.addr) e.1)

abbrev pub has_provider : List ServiceProvider → Bool
has_provider [] = false
has_provider (p ∷ ps) = true

-- Whether a service has a provider.
abbrev pub is_provided : String → Map String (List ServiceProvider) → Bool
is_provided t [] = false
is_provided t ((sn, ps) ∷ rest) = sn == t && has_provider ps || is_provided t rest
