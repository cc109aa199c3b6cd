-- ===== src/Client/Leaf.antt =====
-- implementations/slims/slims/client/client.go: `RegisterNewLeaf` and `AutoServiceHeartbeat`, whose channel
-- of errors is taken to be given and read until the goroutine ends.
use orv.Base.{
  ℕ, false, not, String, List, [], ◌∷◌, ◌++◌, Option, none, some, ◌==◌, nat_eq, text_eq,
  if◌then◌else◌, Result, ok, err, map,
}
use orv.Base.Int.{ℤ, is_positive}
use orv.Base.Map.{Map}
use orv.Protocol.Transport.{Context, live_context}
use orv.Vk.State.{AddrPort, no_addr, is_valid}
use orv.Client.{ClientWire, Network, ClientError, Answer}
use orv.Client.Requests.{HelloAnswer, JoinInfo, hello, join, register, service_heartbeat}

-- A service that a leaf registers.
pub record LeafOffer : Type 0 where
  pub stale : ℤ
  pub addr : AddrPort

-- The services that were registered, and the error that ended it, if one did.
abbrev pub Registered : Type 0
Registered = List String × Option ClientError

abbrev pub leaf_info : JoinInfo
leaf_info = record { is_vk = false; vk_addr = no_addr; height = 0 }

-- What a goroutine of `AutoServiceHeartbeat` reports.
pub data HeartbeatError : Type 0 where
  heartbeat_failed : ClientError → HeartbeatError
  parent_mismatch : ℕ → ℕ → HeartbeatError
  unknown_service : String → HeartbeatError

-- `ParentInfo`.
pub record ParentInfo : Type 0 where
  pub id : ℕ
  pub addr : AddrPort

-- `slices.DeleteFunc(services, func(svc) { return svc == unk })`.
unfoldable pub delete_service : String → List String → List String
delete_service unk [] = []
delete_service unk (s ∷ ss) =
    let rest = delete_service unk ss in if s == unk then rest else s ∷ rest

unfoldable pub delete_services : List String → List String → List String
delete_services [] services = services
delete_services (unk ∷ unknown) services = delete_services unknown (delete_service unk services)

-- What one heartbeat reports, and the services that are left; the goroutine ends where there are
-- none of them to give. The ID of the answer is compared whatever the error was.
unfoldable pub after_heartbeat :
    ParentInfo
    → List String
    → Answer (List String × List String)
    → List HeartbeatError × Option (List String)
after_heartbeat p services (id, err e) =
    if id == p.id
    then (heartbeat_failed e ∷ [], some services)
    else (heartbeat_failed e ∷ parent_mismatch p.id id ∷ [], none)
after_heartbeat p services (id, ok (refreshed, unknown)) =
    if id == p.id
    then (map unknown_service unknown, some (delete_services unknown services))
    else (parent_mismatch p.id id ∷ [], none)

-- What wakes the goroutine: its cancellation, or the ticker.
pub data Wake : Type 0 where
  cancel elapsed : Wake

pub data AutoError : Type 0 where
  bad_frequency bad_parent : AutoError

module _ (wire : ClientWire) {S : Type 0} (net : Network S) where
  -- The loop over the services; the one that fails is among those that are given back.
  unfoldable pub register_all :
      Context → ℕ → AddrPort → Map String LeafOffer → List String → S → Registered × S
  register_all ctx my_id target [] done s = ((done, none), s)
  register_all ctx my_id target ((service, offer) ∷ rest) done s =
      let ((id, r), s') = register wire net ctx my_id target service offer.addr offer.stale s in
      let more = register_all ctx my_id target rest (done ++ service ∷ []) s' in
      elim r [ err e ↦ ((done ++ service ∷ [], some e), s') | ok accept ↦ more ]

  -- `RegisterNewLeaf`, from the answer of HELLO on.
  unfoldable pub join_and_register :
      Context → ℕ → AddrPort → Map String LeafOffer → HelloAnswer × S → Registered × S
  join_and_register ctx my_id target services ((id, version, err e), s) = (([], some e), s)
  join_and_register ctx my_id target services ((id, version, ok ack), s) =
      let ((vk_id, r), s') = join wire net ctx my_id target leaf_info s in
      elim r [
        | err e ↦ (([], some e), s')
        | ok accept ↦ register_all ctx my_id target services [] s'
      ]

  unfoldable pub register_new_leaf :
      Context → ℕ → AddrPort → Map String LeafOffer → S → Registered × S
  register_new_leaf ctx my_id target services s =
      join_and_register ctx my_id target services (hello wire net ctx my_id target s)

  -- The goroutine. Each heartbeat asks for all the services that were given, `asked`, while
  -- `services` are those that are left.
  unfoldable pub heartbeat_loop :
      ℕ → ParentInfo → List String → List Wake → List String → S → List HeartbeatError × S
  heartbeat_loop my_id p asked wakes [] s = ([], s)
  heartbeat_loop my_id p asked [] (service ∷ services) s = ([], s)
  heartbeat_loop my_id p asked (cancel ∷ wakes) (service ∷ services) s = ([], s)
  heartbeat_loop my_id p asked (elapsed ∷ wakes) (service ∷ services) s =
      let (answer, s') = service_heartbeat wire net live_context my_id p.addr asked s in
      let (errors, left) = after_heartbeat p (service ∷ services) answer in
      elim left [
        | none ↦ (errors, s')
        | some rest ↦
            let (more, s'') = heartbeat_loop my_id p asked wakes rest s' in (errors ++ more, s'')
      ]

  -- `AutoServiceHeartbeat`, with what wakes its goroutine.
  unfoldable pub auto_service_heartbeat :
      ℤ → ℕ → ParentInfo → List String → List Wake → S → Result AutoError (List HeartbeatError × S)
  auto_service_heartbeat frequency my_id p services wakes s =
      if not (is_positive frequency)
      then err bad_frequency
      else if not (is_valid p.addr)
      then err bad_parent
      else ok (heartbeat_loop my_id p services wakes services s)
