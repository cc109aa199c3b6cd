-- ===== src/Proof/Echo/Along.antt =====
-- Where a REGISTER ends that goes up a branch.
use orv.Base.{
  ℕ, suc, ◌≡◌, arith, true, false, String, List, [], ◌∷◌, none, some, ◌==◌, nat_eq, text_eq, length,
  map,
}
use orv.Base.Map.{beq_refl}
use orv.Vk.State.{AddrPort}
use orv.Proof.Children.Views.{listed_at}
use orv.Proof.Keeper.{VaultKeeper, is_taken, done, Platform, status_accepted, url_at, ep_register}
use orv.Proof.Messages.{RegisterReq}
use orv.Proof.Endpoints.Admission.{is_done, done-cases}
use orv.Proof.Endpoints.Registration.{handle_register_lem}
use orv.Proof.Endpoints.Services.{
  handle_register, register_service, propagate_register, conclude_propagation,
}
use orv.Proof.Echo.{receive_register, network_above, Accepting, AllListed}

-- What a REGISTER leaves of a Vaultkeeper but its children.
handle_register-footprint :
    (P : Platform) (req : RegisterReq) (vk : VaultKeeper)
    → let w = (handle_register P req vk).1 in
      (w.id ≡ vk.id)
      × (w.addr ≡ vk.addr)
      × (w.structure ≡ vk.structure)
      × (w.parent_id ≡ vk.parent_id)
      × (w.parent_addr ≡ vk.parent_addr)
unfolding handle_register register_service
handle_register-footprint P req vk = ground arith

module _ (P : Platform) (sn addr_str : String) (a : AddrPort) where
  -- Each REGISTER that is passed on.
  abbrev pub echo_request : ℕ → String → RegisterReq
  echo_request i stale = record { id = i; service = sn; address = addr_str; stale = stale }

  abbrev pub Trimmed : Type 0
  Trimmed =
      (P.trim_space sn ≡ sn)
      × (P.trim_space addr_str ≡ addr_str)
      × ((sn == "") ≡ false)
      × (P.parse_addr_port addr_str ≡ some a)

  accepted :
      (i : ℕ) (stale : String) (vk : VaultKeeper) (up : List VaultKeeper)
      → Trimmed
      → Accepting P sn i stale (vk ∷ up)
      → let answer = handle_register P (echo_request i stale) vk in
        (is_done answer.0 ≡ true) × (listed_at sn i answer.1.children ≡ some a)
  unfolding Accepting
  accepted i stale vk up t h =
      ground
        (arith, t, h, beq_refl i, beq_refl sn, handle_register_lem P vk sn i (echo_request i stale))

  propagate_up :
      (n : ℕ) (vk next : VaultKeeper) (up : List VaultKeeper)
      → is_taken vk.structure ≡ false
      → (vk.parent_id == 0) ≡ false
      → vk.parent_addr ≡ next.addr
      → let answer = receive_register P (network_above P n) (echo_request vk.id "") next up in
        propagate_register P (network_above P (suc n)) sn addr_str vk (next ∷ up) ≡ (
          done (
              some (record {
                parent_id = vk.parent_id;
                parent_addr = vk.parent_addr;
                status = answer.0;
              })),
          answer.1,
        )
  unfolding propagate_register network_above
  propagate_up n vk next up free child link =
      ground (arith, free, child, link, beq_refl (url_at P next.addr ep_register))

  propagate_root :
      (n : ℕ) (vk : VaultKeeper) (up : List VaultKeeper)
      → is_taken vk.structure ≡ false
      → vk.parent_id ≡ 0
      → propagate_register P (network_above P n) sn addr_str vk up ≡ (done none, up)
  unfolding propagate_register
  propagate_root n vk up free root = ground (arith, free, root)

  -- A REGISTER that is accepted where its sender is a child, on a branch in which each Vaultkeeper is a child
  -- of the next, is passed on to the root: all of them list the one before them for the service, with the
  -- address that the first REGISTER gave.
  pub echo_along :
      (i : ℕ) (stale : String) (vk : VaultKeeper) (up : List VaultKeeper)
      → Trimmed
      → Accepting P sn i stale (vk ∷ up)
      → let out = receive_register P (network_above P (length up)) (echo_request i stale) vk up in
        (out.0 ≡ some status_accepted)
        × (map (λ v. v.id) out.1 ≡ map (λ v. v.id) (vk ∷ up))
        × AllListed sn i a out.1
  unfolding receive_register Accepting AllListed conclude_propagation
  echo_along i stale vk [] t h =
      let req = echo_request i stale in
      let w = (handle_register P req vk).1 in
      let k = handle_register-footprint P req vk in
      let ok = accepted i stale vk [] t h in
      let (r, e) = done-cases (handle_register P req vk).0 ok.0 in
      ground (arith, t, h, k, ok, e, propagate_root 0 w [])
  echo_along i stale vk (next ∷ up) t h =
      let req = echo_request i stale in
      let w = (handle_register P req vk).1 in
      let k = handle_register-footprint P req vk in
      let ok = accepted i stale vk (next ∷ up) t h in
      let (r, e) = done-cases (handle_register P req vk).0 ok.0 in
      let above = echo_along vk.id "" next up t h.5 in
      ground (arith, t, h, k, ok, e, above, propagate_up (length up) w next up)
