-- ===== src/Vk/Handlers/Joining.antt =====
-- HELLO, JOIN and LEAVE: `serveHello`, `serveJoin` and `serveLeave` of
-- implementations/slims/slims/vk/handlers.go.
use orv.Base.{ℕ, ◌+◌, ◌-◌, ◌%◌, ◌^◌, Bool, true, not, none, some, ◌==◌, nat_eq, if◌then◌else◌}
use orv.Version.{supports}
use orv.Protocol.MessageType
use orv.Vk.State.{
  AddrPort, shorthand_not_accepted, body_not_accepted, body_required, version_not_supported,
  malformed_body, malformed_address, bad_height, hello_required, id_in_use, unknown_child_id,
  JoinBody, hello_ack, join_accept, no_body, Wire, Platform, VaultKeeper, respond_success,
}
use orv.Vk.Children.{set_cvks, add_cvk, add_leaf, remove_cvk, remove_leaf}
use orv.Vk.Handlers.Outcome.{Outcome, MessageHandler, fail, is_nil}

-- `uint32(height) - 1`, which wraps at height 0.
abbrev pub child_height : ℕ → ℕ
child_height height = (height + 2 ^ 32 - 1) % 2 ^ 32

module _ {P : Platform} where
  unfoldable pub serve_hello : MessageHandler P
  serve_hello hdr body sender vk =
      if hdr.shorthand
      then fail shorthand_not_accepted vk
      else if not (is_nil body)
      then fail body_not_accepted vk
      else (
        respond_success
            (record vk {
              pending_hellos =
                  P.hello_table.store hdr.id true vk.prune_time.hello vk.pending_hellos;
            })
            sender vk.version_set.highest MessageType.hello_ack (hello_ack vk.structure.height),
        none,
      )

  -- `vk.pendingHellos.Delete(id)`.
  unfoldable pub take_hello : ℕ → VaultKeeper P → Bool × VaultKeeper P
  take_hello id vk =
      let (found, t) = P.hello_table.delete id vk.pending_hellos in
      (found, record vk { pending_hellos = t })

  -- A child VK that is not known is installed, if it said HELLO.
  unfoldable pub install_cvk : ℕ → AddrPort → VaultKeeper P → Outcome P
  install_cvk id addr vk =
      let (greeted, vk') = take_hello id vk in
      let (is_leaf, vk'') = add_cvk id addr vk' in
      if greeted
      then (if is_leaf then fail id_in_use vk'' else (vk'', none))
      else fail hello_required vk'

  unfoldable pub join_cvk : Wire → JoinBody → ℕ → VaultKeeper P → Outcome P
  join_cvk w j id vk =
      if not (j.height == child_height vk.structure.height)
      then fail bad_height vk
      else elim (w.parse_addr_port j.vk_addr) [
        | none ↦ fail malformed_address vk
        | some addr ↦
            let (known, t) = P.cvk_table.refresh id vk.prune_time.child_vk vk.children.cvks in
            if known then (set_cvks t vk, none) else install_cvk id addr (set_cvks t vk)
      ]

  unfoldable pub join_leaf : ℕ → VaultKeeper P → Outcome P
  join_leaf id vk =
      let (greeted, vk') = take_hello id vk in
      let (is_cvk, vk'') = add_leaf id vk' in
      if greeted
      then (if is_cvk then fail id_in_use vk'' else (vk'', none))
      else fail hello_required vk'

  -- The answer of a JOIN that was accepted.
  unfoldable pub accept_join : AddrPort → Outcome P → Outcome P
  accept_join sender (vk, some e) = (vk, some e)
  accept_join sender (vk, none) = (
    respond_success vk sender vk.version_set.highest MessageType.join_accept
        (join_accept vk.structure.height),
    none,
  )

  unfoldable pub serve_join : Wire → MessageHandler P
  serve_join w hdr body sender vk =
      if hdr.shorthand
      then fail shorthand_not_accepted vk
      else if is_nil body
      then fail body_required vk
      else if not (supports vk.version_set hdr.version)
      then fail version_not_supported vk
      else elim (w.unmarshal_join body) [
        | none ↦ fail malformed_body vk
        | some j ↦
            accept_join sender (if j.is_vk then join_cvk w j hdr.id vk else join_leaf hdr.id vk)
      ]

  -- The child that leaves is looked for among the child VKs first, then among the leaves.
  unfoldable pub drop_child : ℕ → VaultKeeper P → Bool × VaultKeeper P
  drop_child id vk =
      let (was_cvk, vk') = remove_cvk id vk in if was_cvk then (true, vk') else remove_leaf id vk'

  unfoldable pub serve_leave : MessageHandler P
  serve_leave hdr body sender vk =
      if hdr.shorthand
      then fail shorthand_not_accepted vk
      else if not (is_nil body)
      then fail body_not_accepted vk
      else if not (supports vk.version_set hdr.version)
      then fail version_not_supported vk
      else let (found, vk') = drop_child hdr.id vk in
        if found
        then (respond_success vk' sender vk.version_set.highest MessageType.leave_ack no_body, none)
        else fail unknown_child_id vk'
