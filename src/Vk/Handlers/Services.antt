-- ===== src/Vk/Handlers/Services.antt =====
-- REGISTER, DEREGISTER and SERVICE_HEARTBEAT: `serveRegister`, `serveDeregister` and
-- `serveServiceHeartbeat` of implementations/slims/slims/vk/handlers.go.
use orv.Base.{
  ℕ, not, String, List, [], ◌∷◌, ◌++◌, Option, none, some, ◌==◌, nat_eq, text_eq, if◌then◌else◌,
}
use orv.Base.Map.{lookup, insert, remove}
use orv.Version.{supports}
use orv.Protocol.MessageType
use orv.Vk.State.{
  AddrPort, is_valid, Errno, shorthand_not_accepted, body_required, version_not_supported,
  malformed_body, malformed_address, bad_service_name, bad_stale_time, unknown_child_id,
  all_unknown, RegisterBody, register, register_accept, deregister_ack, service_heartbeat_ack, Wire,
  Cvk, Leaf, Timers, Platform, VaultKeeper, respond_success,
}
use orv.Vk.Timers.{stop, reset}
use orv.Vk.Providers.{message_parent, remove_provider}
use orv.Vk.Children.{load_cvk, load_leaf, set_cvks, set_leaves, set_clock, add_service}
use orv.Vk.Handlers.Outcome.{Outcome, MessageHandler, fail, is_nil}

-- `delete(inf.services, service)`, through the record of a child VK.
abbrev pub erase_service : String → Cvk → Cvk
erase_service service c = record c { services = remove service c.services }

-- The services that a heartbeat refreshed, and those that it did not know, in the order asked.
pub record Refreshed : Type 0 where
  pub clock : Timers
  pub refresheds : List String
  pub unknowns : List String

-- One service of a heartbeat. A timer that has elapsed cannot be stopped: its service is unknown.
unfoldable pub refresh_service : Leaf → String → Refreshed → Refreshed
refresh_service leaf service r = elim (lookup service leaf.services) [
  | none ↦ record r { unknowns = r.unknowns ++ service ∷ [] }
  | some s ↦
      let (stopped, t) = stop s.pruner r.clock in
      if stopped
      then record r { clock = (reset s.pruner t).1; refresheds = r.refresheds ++ service ∷ [] }
      else record r { clock = t; unknowns = r.unknowns ++ service ∷ [] }
]

unfoldable pub refresh_services : Leaf → List String → Refreshed → Refreshed
refresh_services leaf [] r = r
refresh_services leaf (service ∷ rest) r =
    refresh_services leaf rest (refresh_service leaf service r)

module _ {P : Platform} where
  -- What follows `addService`: the answer, and the same registration sent to the parent under our
  -- ID.
  unfoldable pub accept_register :
      String → AddrPort → AddrPort → Option Errno × VaultKeeper P → Outcome P
  accept_register service addr sender (some e, vk) = fail e vk
  accept_register service addr sender (none, vk) = (
    let answered =
          respond_success vk sender vk.version_set.highest MessageType.register_accept
            (register_accept service) in
        if is_valid vk.structure.parent_addr
        then message_parent MessageType.register (register service addr) answered
        else answered,
    none,
  )

  unfoldable pub apply_register : Wire → RegisterBody → ℕ → AddrPort → VaultKeeper P → Outcome P
  apply_register w r id sender vk =
      if r.service == "" then fail bad_service_name vk else elim (w.parse_duration r.stale) [
        | none ↦ fail bad_stale_time vk
        | some stale ↦ elim (w.parse_addr_port r.address) [
          | none ↦ fail malformed_address vk
          | some addr ↦
              accept_register r.service addr sender (add_service id r.service addr stale vk)
        ]
      ]

  unfoldable pub serve_register : Wire → MessageHandler P
  serve_register w hdr body sender vk =
      if hdr.shorthand
      then fail shorthand_not_accepted vk
      else if is_nil body
      then fail body_required vk
      else if not (supports vk.version_set hdr.version)
      then fail version_not_supported vk
      else elim (w.unmarshal_register body) [
        | none ↦ fail malformed_body vk
        | some r ↦ apply_register w r hdr.id sender vk
      ]

  -- The service leaves the record of the child; the timer of a leaf's service is left as it is.
  unfoldable pub forget_service : ℕ → String → VaultKeeper P → VaultKeeper P
  forget_service id service vk = elim (load_cvk id vk) [
    | some _ ↦ set_cvks (P.cvk_table.modify id (erase_service service) vk.children.cvks) vk
    | none ↦ elim (load_leaf id vk) [
      | none ↦ vk
      | some l ↦
          set_leaves
            (insert id (record l { services = remove service l.services }) vk.children.leaves) vk
    ]
  ]

  unfoldable pub apply_deregister : ℕ → String → AddrPort → VaultKeeper P → Outcome P
  apply_deregister id service sender vk =
      let (error, vk') = remove_provider service id vk in
      let vk'' = forget_service id service vk' in
      elim error [
        | some e ↦ fail e vk''
        | none ↦ (
          respond_success vk'' sender vk.version_set.highest MessageType.deregister_ack
              (deregister_ack service),
          none,
        )
      ]

  unfoldable pub serve_deregister : Wire → MessageHandler P
  serve_deregister w hdr body sender vk =
      if hdr.shorthand
      then fail shorthand_not_accepted vk
      else if is_nil body
      then fail body_required vk
      else if not (supports vk.version_set hdr.version)
      then fail version_not_supported vk
      else elim (w.unmarshal_deregister body) [
        | none ↦ fail malformed_body vk
        | some service ↦ apply_deregister hdr.id service sender vk
      ]

  -- The answer of a heartbeat, which fails where no service was refreshed.
  unfoldable pub answer_heartbeat : Refreshed → AddrPort → VaultKeeper P → Outcome P
  answer_heartbeat r sender vk = elim r.refresheds [
    | [] ↦ fail all_unknown (set_clock r.clock vk)
    | s ∷ ss ↦ (
      respond_success (set_clock r.clock vk) sender vk.version_set.highest
          MessageType.service_heartbeat_ack (service_heartbeat_ack r.refresheds r.unknowns),
      none,
    )
  ]

  unfoldable pub serve_service_heartbeat : Wire → MessageHandler P
  serve_service_heartbeat w hdr body sender vk =
      if hdr.shorthand
      then fail shorthand_not_accepted vk
      else if is_nil body
      then fail body_required vk
      else if not (supports vk.version_set hdr.version)
      then fail version_not_supported vk
      else elim (w.unmarshal_service_heartbeat body) [
        | none ↦ fail malformed_body vk
        | some services ↦ elim (load_leaf hdr.id vk) [
          | none ↦ fail unknown_child_id vk
          | some leaf ↦
              answer_heartbeat
                (refresh_services leaf services
                  (record { clock = vk.clock; refresheds = []; unknowns = [] }))
                sender vk
        ]
      ]
