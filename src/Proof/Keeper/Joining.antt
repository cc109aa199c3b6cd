-- ===== src/Proof/Keeper/Joining.antt =====
-- implementations/proof/proof/vaultkeeper.go: `Join`, which asks a VK to be the parent and then registers
-- every known provider with it. The mutex of the children is given back only at the end of the loops:
-- where a REGISTER fails, it is kept.
use orv.Base.{ℕ, true, not, String, List, [], ◌∷◌, Option, none, some, ◌==◌, nat_eq, if◌then◌else◌}
use orv.Base.Map.{Map}
use orv.Vk.State.{AddrPort}
use orv.Proof.Children.{ServiceProvider}
use orv.Proof.Keeper.{
  VaultKeeper, taken, is_free, Outcome, blocked, failed, done, Platform, status_accepted, url_at,
  ep_join, ep_register,
}
use orv.Proof.Keeper.Lifecycle.{CallError, dead, unparsed, no_answer, bad_status, forget_parent}
use orv.Proof.Messages.{JoinReq, RegisterReq, Http}

module _ {S : Type 0} (P : Platform) (http : Http S) where
  abbrev pub provider_request : ℕ → String → ServiceProvider → RegisterReq
  provider_request id sn p = record {
    id = id;
    service = sn;
    address = P.print_addr p.addr;
    stale = "";
  }

  -- The inner loop, over the providers of a service: the error with which it stops, if any.
  unfoldable pub register_providers :
      String → ℕ → String → List ServiceProvider → S → Option CallError × S
  register_providers url id sn [] s = (none, s)
  register_providers url id sn (p ∷ ps) s =
      let (res, s') = http.post_register url (provider_request id sn p) s in
      elim res [
        | none ↦ (some no_answer, s')
        | some code ↦
            let rest = register_providers url id sn ps s' in
            if code == status_accepted then rest else (some (bad_status code), s')
      ]

  -- The outer loop, over the services.
  unfoldable pub register_services :
      String → ℕ → Map String (List ServiceProvider) → S → Option CallError × S
  register_services url id [] s = (none, s)
  register_services url id ((sn, ps) ∷ rest) s =
      let (error, s') = register_providers url id sn ps s in
      elim error [ some e ↦ (some e, s') | none ↦ register_services url id rest s' ]

  -- What follows an accepted JOIN, with the new parent set.
  unfoldable pub announce_services :
      AddrPort → VaultKeeper → S → Outcome CallError Unit × (VaultKeeper × S)
  announce_services addr vk s =
      if vk.children_locked
      then (blocked, (record vk { structure = taken }, s))
      else let (error, s') =
          register_services (url_at P addr ep_register) vk.id vk.children.services s in
        elim error [
          | some e ↦ (failed e, (record (forget_parent vk) { children_locked = true }, s'))
          | none ↦ (done tt, (vk, s'))
        ]

  -- The request of `Join`.
  abbrev pub join_request : VaultKeeper → JoinReq
  join_request vk = record {
    id = vk.id;
    height = vk.height;
    vk_addr = P.print_addr vk.addr;
    is_vk = true;
  }

  -- `Join`
  unfoldable pub join_vk : String → VaultKeeper → S → Outcome CallError Unit × (VaultKeeper × S)
  join_vk addr_str vk s =
      if not vk.alive then (failed dead, (vk, s)) else elim (P.parse_addr_port addr_str) [
        | none ↦ (failed unparsed, (vk, s))
        | some addr ↦
            if not (is_free vk.structure)
            then (blocked, (record vk { structure = taken }, s))
            else let (res, s') = http.post_join (url_at P addr ep_join) (join_request vk) s in
              elim res [
                | none ↦ (failed no_answer, (vk, s'))
                | some (code, b) ↦
                    if not (code == status_accepted)
                    then (failed (bad_status code), (vk, s'))
                    else announce_services addr (record vk { parent_id = b.0; parent_addr = addr })
                        s'
              ]
      ]
