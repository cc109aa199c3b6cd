-- ===== src/Vk/Dispatch/Entries.antt =====
-- What is shown of each entry of the table of handlers holds of what the table gives.
use orv.Base.{
  ℕ, ◌≡◌, inl, inr, Option, none, some, if◌then◌else◌, nat_eq, nat_beq_iff, ◌==◌, Bool-cases,
}
use orv.Protocol.MessageType
use orv.Vk.State.{Wire, Platform}
use orv.Vk.Handlers.Outcome.{MessageHandler}
use orv.Vk.Handlers.Joining.{serve_hello, serve_join, serve_leave}
use orv.Vk.Handlers.Tree.{serve_merge, serve_increment, serve_vk_heartbeat}
use orv.Vk.Handlers.Services.{serve_register, serve_deregister, serve_service_heartbeat}
use orv.Vk.Handlers.Clients.{Link, serve_list, serve_get}
use orv.Vk.Handlers.Status.{serve_status}
use orv.Vk.Dispatch.{handler}

-- A property of each entry, with its type.
pub record Entries {P : Platform} (w : Wire) (k : Link) (Q : ℕ → MessageHandler P → Type 0)
    : Type 0 where
  pub on_hello : Q MessageType.hello serve_hello
  pub on_join : Q MessageType.join (serve_join w)
  pub on_merge : Q MessageType.merge (serve_merge w)
  pub on_increment : Q MessageType.increment (serve_increment w)
  pub on_leave : Q MessageType.leave serve_leave
  pub on_register : Q MessageType.register (serve_register w)
  pub on_deregister : Q MessageType.deregister (serve_deregister w)
  pub on_service_heartbeat : Q MessageType.service_heartbeat (serve_service_heartbeat w)
  pub on_vk_heartbeat : Q MessageType.vk_heartbeat serve_vk_heartbeat
  pub on_status : Q MessageType.status (serve_status w)
  pub on_list : Q MessageType.list (serve_list w k)
  pub on_get : Q MessageType.get (serve_get w)

module _ {P : Platform} (Q : ℕ → MessageHandler P → Type 0) where
  unfoldable pub OnEntry : ℕ → Option (MessageHandler P) → Type 0
  OnEntry t none = Unit
  OnEntry t (some serve) = Q t serve

  -- The property of what a table gives for a type, if it gives a handler.
  pub record Given (t : ℕ) (o : Option (MessageHandler P)) : Type 0 where
    pub given : OnEntry t o

  none-Given : (t : ℕ) → Given t none
  unfolding OnEntry
  none-Given t = record { given = tt }

  some-Given : (t k : ℕ) (f : MessageHandler P) → Q k f → t ≡ k → Given t (some f)
  unfolding OnEntry
  some-Given t k f q e = record { given = rw e q }

  if-Given :
      (t k : ℕ) (f : MessageHandler P) (y : Option (MessageHandler P))
      → Q k f
      → Given t y
      → Given t (if t == k then some f else y)
  if-Given t k f y q rest = elim (Bool-cases (t == k)) [
    | inl e ↦ rw e (some-Given t k f q ((nat_beq_iff t k).0 e))
    | inr e ↦ rw e rest
  ]

pub handler-Given :
    {P : Platform} (w : Wire) (k : Link) (Q : ℕ → MessageHandler P → Type 0)
    → Entries w k Q
    → (t : ℕ) → Given Q t (handler w k t)
unfolding handler
handler-Given w k Q e t = if-Given Q t MessageType.hello serve_hello _ e.on_hello (
    if-Given Q t MessageType.join (serve_join w) _ e.on_join (
      if-Given Q t MessageType.merge (serve_merge w) _ e.on_merge (
        if-Given Q t MessageType.increment (serve_increment w) _ e.on_increment (
          if-Given Q t MessageType.leave serve_leave _ e.on_leave (
            if-Given Q t MessageType.register (serve_register w) _ e.on_register (
              if-Given Q t MessageType.deregister (serve_deregister w) _ e.on_deregister (
                if-Given Q t MessageType.service_heartbeat (serve_service_heartbeat w) _
                  e.on_service_heartbeat
                  (if-Given Q t MessageType.vk_heartbeat serve_vk_heartbeat _ e.on_vk_heartbeat (
                    if-Given Q t MessageType.status (serve_status w) _ e.on_status (
                      if-Given Q t MessageType.list (serve_list w k) _ e.on_list (
                        if-Given Q t MessageType.get (serve_get w) _ e.on_get
                          (none-Given Q t))))))))))))
