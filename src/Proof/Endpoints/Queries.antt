-- ===== src/Proof/Endpoints/Queries.antt =====
-- implementations/proof/proof/endpoints.go: LIST and GET, which may go on to the parent.
use orv.Base.{
  ℕ, ◌-◌, not, ◌&&◌, String, Option, none, some, ◌==◌, nat_eq, text_eq, ltb, if◌then◌else◌,
}
use Prim.Native.String.{◌++◌ as append}
use orv.Vk.State.{AddrPort}
use orv.Proof.Children.Pruning.{get_random_provider, service_names}
use orv.Proof.Keeper.{
  VaultKeeper, is_taken, HumaError, Outcome, blocked, failed, done, Platform, status_ok,
  h_err_bad_service_name, pt_list_response, pt_get_response, pt_get_fault,
}
use orv.Proof.Messages.{ListResponseResp, GetReq, GetResponseResp, Http}
use orv.Proof.Requests.{list, get}

module _ {S : Type 0} (P : Platform) (http : Http S) where
  -- The end of `handleList`.
  abbrev pub list_own : VaultKeeper → Outcome HumaError ListResponseResp
  list_own vk =
      if vk.children_locked
      then blocked
      else done
          (record { pkt_type = pt_list_response; id = vk.id; services = service_names vk.children })

  -- The part of `handleList` that asks the parent.
  unfoldable pub list_from_parent : ℕ → VaultKeeper → S → Outcome HumaError ListResponseResp × S
  list_from_parent hop_count vk s =
      let (res, s') =
        list http (append "http://" (P.print_addr vk.parent_addr)) (hop_count - 1) s in
      elim res [
        | none ↦ (list_own vk, s')
        | some (code, lrr) ↦
            if code == status_ok
            then (done (record lrr { pkt_type = pt_get_response }), s')
            else (list_own vk, s')
      ]

  -- `handleList`
  unfoldable pub handle_list : ℕ → VaultKeeper → S → Outcome HumaError ListResponseResp × S
  handle_list hop_count vk s =
      if is_taken vk.structure
      then (blocked, s)
      else if ltb 2 hop_count && not (vk.parent_id == 0)
      then list_from_parent hop_count vk s
      else (list_own vk, s)

  -- The end of `handleGet`; the address is empty where no provider was found.
  abbrev pub get_own : VaultKeeper → Option AddrPort → Outcome HumaError GetResponseResp
  get_own vk found = done (record {
    pkt_type = pt_get_response;
    id = vk.id;
    addr = elim found [ none ↦ "" | some a ↦ P.print_addr a ];
  })

  -- The part of `handleGet` that asks the parent.
  unfoldable pub get_from_parent :
      String → ℕ → VaultKeeper → S → Outcome HumaError GetResponseResp × S
  get_from_parent sn hop_count vk s =
      if is_taken vk.structure
      then (blocked, s)
      else if vk.parent_id == 0
      then (get_own vk none, s)
      else let (res, s') =
          get http (append "http://" (P.print_addr vk.parent_addr)) (hop_count - 1) sn s in
        elim res [
          | none ↦ (get_own vk none, s')
          | some (code, grr) ↦
              if code == status_ok
              then (done (record grr { pkt_type = pt_get_response }), s')
              else (get_own vk none, s')
        ]

  -- `handleGet`, where `int_n` is `rand.IntN`.
  unfoldable pub handle_get :
      (ℕ → ℕ) → GetReq → VaultKeeper → S → Outcome HumaError GetResponseResp × S
  handle_get int_n req vk s =
      let sn = P.trim_space req.service in
      if sn == ""
      then (failed (h_err_bad_service_name sn pt_get_fault), s)
      else if vk.children_locked
      then (blocked, s)
      else elim (get_random_provider int_n sn vk.children) [
        | some a ↦ (get_own vk (some a), s)
        | none ↦
            if ltb 2 req.hop_count
            then get_from_parent sn req.hop_count vk s
            else (get_own vk none, s)
      ]
