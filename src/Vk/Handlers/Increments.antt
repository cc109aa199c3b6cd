-- ===== src/Vk/Handlers/Increments.antt =====
-- The INCREMENTs that go out to the child VKs.
use orv.Base.{
  ℕ, ◌+◌, ◌^◌, ◌<◌, ◌≡◌, refl, arith, false, nat_eq, List, [], ◌∷◌, ◌++◌, Option, none, some, ◌==◌,
  map, if◌then◌else◌,
}
use orv.Base.Map.{Map}
use mathlib.Core.List.{append-nil, append_assoc}
use orv.Protocol.MessageType
use orv.Vk.State.{AddrPort, Cvk, increment, increment_ack, Platform, Packet, VaultKeeper, send}
use orv.Vk.Handlers.Joining.{child_height}
use orv.Vk.Handlers.Tree.{raise_height, increment_packet, send_increment, send_increments}

module _ {P : Platform} where
  -- The INCREMENT to a height that a child VK is sent.
  abbrev pub told_packet : ℕ → VaultKeeper P → Cvk → Packet
  told_packet height vk c = record {
    to = c.addr;
    header = record {
      version = vk.version_set.highest;
      shorthand = false;
      type = MessageType.increment;
      id = vk.id;
    };
    payload = increment height;
  }

  -- The INCREMENT_ACK of a height.
  abbrev pub told_ack : AddrPort → ℕ → VaultKeeper P → Packet
  told_ack sender height vk = record {
    to = sender;
    header = record {
      version = vk.version_set.highest;
      shorthand = false;
      type = MessageType.increment_ack;
      id = vk.id;
    };
    payload = increment_ack height;
  }

  -- Once the height has risen, the height below it is the one from before.
  pub told-raised :
      (m : Map ℕ Cvk) (vk : VaultKeeper P)
      → vk.structure.height + 1 < 2 ^ 16
      → map (λ e. increment_packet (raise_height vk) e.1) m
        ≡ map (λ e. told_packet vk.structure.height vk e.1) m
  told-raised [] vk small = refl
  told-raised ((i, c) ∷ rest) vk small = ground (arith, told-raised rest vk small)

  -- The INCREMENTs to the child VKs, in the order of the table, but the one that is left out, if any.
  unfoldable pub increment_packets : Option ℕ → Map ℕ Cvk → VaultKeeper P → List Packet
  increment_packets skip [] vk = []
  increment_packets skip ((id, c) ∷ rest) vk =
      let packet = told_packet (child_height vk.structure.height) vk c in
      elim skip [
        | none ↦ packet ∷ increment_packets skip rest vk
        | some x ↦
            let others = increment_packets skip rest vk in
            if id == x then others else packet ∷ others
      ]

  -- What is sent to the children does not depend on what was sent before.
  increment_packets-sent :
      (skip : Option ℕ) (m : Map ℕ Cvk) (vk : VaultKeeper P) (ps : List Packet)
      → increment_packets skip m (record vk { sent = ps }) ≡ increment_packets skip m vk
  unfolding increment_packets
  increment_packets-sent skip [] vk ps = refl
  increment_packets-sent none ((i, c) ∷ rest) vk ps =
      ground (arith, increment_packets-sent none rest vk ps)
  increment_packets-sent (some x) ((i, c) ∷ rest) vk ps =
      ground (arith, increment_packets-sent (some x) rest vk ps)

  pub send_increments-sent :
      (skip : Option ℕ) (m : Map ℕ Cvk) (vk : VaultKeeper P)
      → (send_increments skip m vk).sent ≡ vk.sent ++ increment_packets skip m vk
  unfolding send_increments send_increment increment_packets send
  send_increments-sent skip [] vk = ground (arith, append-nil vk.sent)
  send_increments-sent none ((i, c) ∷ rest) vk =
      let p = told_packet (child_height vk.structure.height) vk c in
      ground (
        arith,
        send_increments-sent none rest (record vk { sent = vk.sent ++ p ∷ [] }),
        append_assoc vk.sent (p ∷ []) (increment_packets none rest vk),
        increment_packets-sent none rest vk (vk.sent ++ p ∷ []),
      )
  send_increments-sent (some x) ((i, c) ∷ rest) vk =
      let p = told_packet (child_height vk.structure.height) vk c in
      ground (
        arith,
        send_increments-sent (some x) rest vk,
        send_increments-sent (some x) rest (record vk { sent = vk.sent ++ p ∷ [] }),
        append_assoc vk.sent (p ∷ []) (increment_packets (some x) rest vk),
        increment_packets-sent (some x) rest vk (vk.sent ++ p ∷ []),
      )

  pub send_increments-structure :
      (skip : Option ℕ) (m : Map ℕ Cvk) (vk : VaultKeeper P)
      → (send_increments skip m vk).structure ≡ vk.structure
  unfolding send_increments send_increment send
  send_increments-structure skip [] vk = refl
  send_increments-structure none ((i, c) ∷ rest) vk =
      ground (arith, send_increments-structure none rest (send_increment c vk))
  send_increments-structure (some x) ((i, c) ∷ rest) vk = ground (
    arith,
    send_increments-structure (some x) rest vk,
    send_increments-structure (some x) rest (send_increment c vk),
  )
