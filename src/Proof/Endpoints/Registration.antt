-- ===== src/Proof/Endpoints/Registration.antt =====
-- Which REGISTER a Vaultkeeper of the proof of concept accepts, and who is listed then.
use orv.Base.{
  ℕ, ◌≡◌, inl, inr, arith, Bool, false, not, ◌&&◌, String, Option, some, is_some, ◌==◌, nat_eq,
  text_eq, if◌then◌else◌, Option-cases,
}
use orv.Vk.State.{AddrPort}
use orv.Proof.Children.Views.{accepts, listed_at, add_child_service_lem}
use orv.Proof.Keeper.{VaultKeeper, Platform}
use orv.Proof.Messages.{RegisterReq}
use orv.Proof.Endpoints.{is_bad_id}
use orv.Proof.Endpoints.Admission.{is_done}
use orv.Proof.Endpoints.Services.{register_service, handle_register}

-- What is read of the address.
abbrev pub read_address : Platform → RegisterReq → Option AddrPort
read_address P req = P.parse_addr_port (P.trim_space req.address)

-- Which REGISTER is accepted.
abbrev pub registers_well : Platform → RegisterReq → VaultKeeper → Bool
registers_well P req vk =
    not (is_bad_id req.id vk)
    && (not (P.trim_space req.service == "")
        && (is_some (read_address P req)
            && accepts req.id (P.trim_space req.service) (P.parse_duration (P.trim_space req.stale))
                vk.children))

module _ (P : Platform) (vk : VaultKeeper) (t : String) (j : ℕ) where
  register_service_lem :
      (i : ℕ) (s : String) (a : AddrPort) (stale : String)
      → vk.children_locked ≡ false
      → let answer = register_service P i s a stale vk in
        let well = accepts i s (P.parse_duration stale) vk.children in
        (is_done answer.0 ≡ well)
        × (listed_at t j answer.1.children
            ≡ (if well && (s == t && i == j) then some a else listed_at t j vk.children))
  unfolding register_service
  register_service_lem i s a stale free =
      ground (arith, free, add_child_service_lem i s a (P.parse_duration stale) vk.children t j)

  -- While the lock of the children is not kept, a REGISTER is accepted exactly if its ID is neither 0 nor
  -- the Vaultkeeper's own, its trimmed service is not empty, its address can be read, and its sender is a
  -- child VK or a leaf that has the service or gives a stale time that can be read. The sender is then listed
  -- for the service with the address, and no other entry of the list of providers changes; a REGISTER that
  -- is refused changes none.
  pub handle_register_lem :
      (req : RegisterReq)
      → vk.children_locked ≡ false
      → let answer = handle_register P req vk in
        (is_done answer.0 ≡ registers_well P req vk)
        × (listed_at t j answer.1.children ≡ (
            if registers_well P req vk && (P.trim_space req.service == t && req.id == j)
            then read_address P req
            else listed_at t j vk.children))
  unfolding handle_register
  handle_register_lem req free = elim (Option-cases (read_address P req)) [
    | inl e ↦ ground (arith, free, e)
    | inr (a, e) ↦ ground (
      arith,
      free,
      e,
      register_service_lem req.id (P.trim_space req.service) a (P.trim_space req.stale) free,
    )
  ]
