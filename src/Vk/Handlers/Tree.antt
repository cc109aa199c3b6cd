-- ===== src/Vk/Handlers/Tree.antt =====
-- MERGE, INCREMENT and VK_HEARTBEAT: `serveMerge`, `serveIncrement` and `serveVKHeartbeat` of
-- implementations/slims/slims/vk/handlers.go, and `increment` of
-- implementations/slims/slims/vk/requests.go.
use orv.Base.{
  map, ℕ, ◌+◌, ◌%◌, ◌^◌, false, not, ◌||◌, String, List, [], ◌∷◌, ◌++◌, Option, none, some, ◌==◌,
  nat_eq, ltb, is_some, if◌then◌else◌,
}
use orv.Base.Map.{Map}
use orv.Version.{supports}
use orv.Protocol.MessageType
use orv.Vk.State.{
  AddrPort, no_addr, is_valid, shorthand_not_accepted, body_not_accepted, version_not_supported,
  malformed_body, malformed_address, bad_height, hello_required, id_in_use, unknown_child_id,
  not_root, not_parent, merge_accept, increment, increment_ack, no_body, Wire, Cvk, Structure,
  Platform, Packet, VaultKeeper, send, respond_success,
}
use orv.Vk.Children.{load_cvk, load_leaf, set_cvks}
use orv.Vk.Handlers.Outcome.{Outcome, MessageHandler, fail, is_nil}
use orv.Vk.Handlers.Joining.{child_height, take_hello}

-- The height of a MERGE: 0 where there is no body.
abbrev pub merge_height : Wire → List ℕ → Option ℕ
merge_height w body =
    if is_nil body
    then some 0
    else elim (w.unmarshal_merge body) [ none ↦ none | some m ↦ some m.height ]

-- The height and the text of the address of the requestor. `parentAddrStr` stays empty where there
-- is no body, and is the sender's address where the body does not hold one.
unfoldable pub merge_request : Wire → List ℕ → AddrPort → Option (ℕ × String)
merge_request w body sender = if is_nil body then some (0, "") else elim (w.unmarshal_merge body) [
  | none ↦ none
  | some m ↦ elim m.vk_address [
    | none ↦ some (m.height, w.print_addr sender)
    | some a ↦ some (m.height, a)
  ]
]

module _ {P : Platform} where
  abbrev pub set_structure : Structure → VaultKeeper P → VaultKeeper P
  set_structure s vk = record vk { structure = s }

  -- A root has no parent.
  abbrev pub drop_parent : VaultKeeper P → VaultKeeper P
  drop_parent vk =
      set_structure (record { height = vk.structure.height; parent_id = 0; parent_addr = no_addr })
        vk

  abbrev pub accept_merge : AddrPort → VaultKeeper P → Outcome P
  accept_merge sender vk = (
    respond_success vk sender vk.version_set.highest MessageType.merge_accept
        (merge_accept vk.structure.height),
    none,
  )

  -- A MERGE from the ID of the parent: a repetition, if the height is ours.
  unfoldable pub merge_again : Wire → List ℕ → AddrPort → VaultKeeper P → Outcome P
  merge_again w body sender vk = elim (merge_height w body) [
    | none ↦ fail malformed_body vk
    | some height ↦
        if height == vk.structure.height
        then accept_merge sender vk
        else fail bad_height (drop_parent vk)
  ]

  -- The new parent, once the requestor has said HELLO and is no child.
  unfoldable pub merge_under : Wire → ℕ → ℕ × String → AddrPort → VaultKeeper P → Outcome P
  merge_under w id (height, text) sender vk =
      if not (height == vk.structure.height)
      then fail bad_height vk
      else if ltb 65534 height
      then fail bad_height vk
      else elim (w.parse_addr_port text) [
        | none ↦ fail malformed_address vk
        | some parent ↦ accept_merge sender (
            set_structure
              (record { height = vk.structure.height; parent_id = id; parent_addr = parent }) vk)
      ]

  unfoldable pub merge_root : Wire → ℕ → List ℕ → AddrPort → VaultKeeper P → Outcome P
  merge_root w id body sender vk =
      let (greeted, vk') = take_hello id vk in
      if not greeted
      then fail hello_required vk'
      else if is_some (load_leaf id vk') || is_some (load_cvk id vk')
      then fail id_in_use vk'
      else elim (merge_request w body sender) [
        | none ↦ fail malformed_body vk'
        | some request ↦ merge_under w id request sender vk'
      ]

  unfoldable pub serve_merge : Wire → MessageHandler P
  serve_merge w hdr body sender vk =
      if hdr.shorthand
      then fail shorthand_not_accepted vk
      else if not (supports vk.version_set hdr.version)
      then fail version_not_supported vk
      else if vk.structure.parent_id == hdr.id
      then merge_again w body sender vk
      else if is_valid vk.structure.parent_addr
      then fail not_root vk
      else merge_root w hdr.id body sender vk

  -- The INCREMENT that a child VK gets.
  abbrev pub increment_packet : VaultKeeper P → Cvk → Packet
  increment_packet vk c = record {
    to = c.addr;
    header = record {
      version = vk.version_set.highest;
      shorthand = false;
      type = MessageType.increment;
      id = vk.id;
    };
    payload = increment (child_height vk.structure.height);
  }

  -- `increment`: tells one child VK the height below ours. Its answer is only logged.
  unfoldable pub send_increment : Cvk → VaultKeeper P → VaultKeeper P
  send_increment c vk = send vk (increment_packet vk c)

  -- The loop of `RangeLocked` over the child VKs, but the one that is left out, if any.
  unfoldable pub send_increments : Option ℕ → Map ℕ Cvk → VaultKeeper P → VaultKeeper P
  send_increments skip [] vk = vk
  send_increments skip ((id, c) ∷ rest) vk = send_increments skip rest (elim skip [
    | none ↦ send_increment c vk
    | some x ↦ if id == x then vk else send_increment c vk
  ])

  -- `vk.structure.height += 1`, on a `uint16`.
  abbrev pub raise_height : VaultKeeper P → VaultKeeper P
  raise_height vk =
      set_structure (record (vk.structure) { height = (vk.structure.height + 1) % 2 ^ 16 }) vk

  -- The answer to an INCREMENT.
  abbrev pub increment_ack_packet : AddrPort → ℕ → VaultKeeper P → Packet
  increment_ack_packet sender height vk = record {
    to = sender;
    header = record {
      version = vk.version_set.highest;
      shorthand = false;
      type = MessageType.increment_ack;
      id = vk.id;
    };
    payload = increment_ack height;
  }

  -- The wait group of an INCREMENT that has raised the height: the acknowledgement and the INCREMENTs to
  -- the child VKs are its goroutines.
  abbrev pub pass_increment : AddrPort → VaultKeeper P → VaultKeeper P
  pass_increment sender vk =
      let children = map (λ e. increment_packet vk e.1) (P.cvk_table.entries vk.children.cvks) in
      let ack = increment_ack_packet sender vk.structure.height vk in
      record vk { sent = vk.sent ++ P.interleave (ack ∷ children) }

  -- The switch on the height of an INCREMENT.
  unfoldable pub apply_increment : ℕ → AddrPort → VaultKeeper P → Outcome P
  apply_increment new_height sender vk =
      if new_height == vk.structure.height
      then (send vk (increment_ack_packet sender vk.structure.height vk), none)
      else if new_height == vk.structure.height + 1
      then (pass_increment sender (raise_height vk), none)
      else fail bad_height vk

  unfoldable pub serve_increment : Wire → MessageHandler P
  serve_increment w hdr body sender vk =
      if hdr.shorthand
      then fail shorthand_not_accepted vk
      else if not (supports vk.version_set hdr.version)
      then fail version_not_supported vk
      else if not (vk.structure.parent_id == hdr.id)
      then fail not_parent vk
      else if is_nil body
      then apply_increment 0 sender vk
      else elim (w.unmarshal_increment body) [
        | none ↦ fail malformed_body vk
        | some new_height ↦ apply_increment new_height sender vk
      ]

  unfoldable pub serve_vk_heartbeat : MessageHandler P
  serve_vk_heartbeat hdr body sender vk =
      if hdr.shorthand
      then fail shorthand_not_accepted vk
      else if not (is_nil body)
      then fail body_not_accepted vk
      else if not (supports vk.version_set hdr.version)
      then fail version_not_supported vk
      else let (found, t) = P.cvk_table.refresh hdr.id vk.prune_time.child_vk vk.children.cvks in
        if found
        then (
          respond_success (set_cvks t vk) sender vk.version_set.highest MessageType.vk_heartbeat_ack
              no_body,
          none,
        )
        else fail unknown_child_id (set_cvks t vk)
