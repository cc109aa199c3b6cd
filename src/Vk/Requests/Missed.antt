-- ===== src/Vk/Requests/Missed.antt =====
-- The heartbeats of a Vaultkeeper to its parent: how many may be missed.
use orv.Base.{
  ℕ, zero, suc, ◌+◌, ◌^◌, ◌<◌, ◌≡◌, arith, Bool, true, false, nat_eq, leb, if◌then◌else◌,
}
use orv.Vk.State.{no_addr, is_valid, addr_eq, addr_beq_iff, Platform, VaultKeeper, send}
use orv.Vk.Providers.{message_parent}
use orv.Vk.Requests.{check_limit, heartbeat_parent, note_heartbeat, heartbeat_tick}

module _ {P : Platform} where
  -- Ticks in a row.
  unfoldable pub ticks : Bool → ℕ → VaultKeeper P → VaultKeeper P
  ticks acknowledged zero vk = vk
  ticks acknowledged (suc n) vk = ticks acknowledged n (heartbeat_tick acknowledged vk)

  -- At a node that accepts packets and has a parent, where the limit is positive and the count fits 32
  -- bits: a tick whose heartbeat is acknowledged keeps the parent and starts the count anew; one whose
  -- heartbeat is not raises the count below the limit, and drops the parent and starts anew at it. The height, the children,
  -- the limit, and that packets are accepted stay.
  pub heartbeat_tick_lem :
      (acknowledged : Bool) (vk : VaultKeeper P)
      → vk.accepting ≡ true
      → is_valid vk.structure.parent_addr ≡ true
      → 0 < vk.hb.bad_heartbeat_limit
      → vk.hb.bad_heartbeat_count + 1 < 2 ^ 32
      → let next = heartbeat_tick acknowledged vk in
        let lost = vk.hb.bad_heartbeat_count + 1 in
        (next.hb.bad_heartbeat_count
          ≡ (if acknowledged then 0 else if leb vk.hb.bad_heartbeat_limit lost then 0 else lost))
        × (next.structure.parent_addr ≡ (
            if acknowledged
            then vk.structure.parent_addr
            else if leb vk.hb.bad_heartbeat_limit lost
            then no_addr
            else vk.structure.parent_addr))
        × (next.structure.height ≡ vk.structure.height)
        × (next.children ≡ vk.children)
        × (next.accepting ≡ true)
        × (next.hb.bad_heartbeat_limit ≡ vk.hb.bad_heartbeat_limit)
  unfolding heartbeat_tick check_limit heartbeat_parent note_heartbeat message_parent send
  heartbeat_tick_lem acknowledged vk acc val lim small =
      ground (arith, addr_beq_iff vk.structure.parent_addr vk.structure.parent_addr)

  -- A parent that acknowledges none of its heartbeats stays the parent until as many in a row as the
  -- limit allows from the count on were missed, and is dropped by the last of them, at a node that
  -- accepts packets.
  pub parent_lost :
      (n : ℕ) (vk : VaultKeeper P)
      → vk.accepting ≡ true
      → is_valid vk.structure.parent_addr ≡ true
      → vk.hb.bad_heartbeat_count + suc n ≡ vk.hb.bad_heartbeat_limit
      → vk.hb.bad_heartbeat_limit < 2 ^ 32
      → ((ticks false n vk).structure.parent_addr ≡ vk.structure.parent_addr)
        × ((ticks false (suc n) vk).structure.parent_addr ≡ no_addr)
  unfolding ticks
  parent_lost zero vk acc val lim small =
      ground (arith, heartbeat_tick_lem false vk acc val (ground arith) (ground arith))
  parent_lost (suc n) vk acc val lim small =
      let next = heartbeat_tick false vk in
      let k = heartbeat_tick_lem false vk acc val (ground arith) (ground arith) in
      let r =
        parent_lost n next (ground (arith, k)) (ground (arith, k)) (ground (arith, k))
          (ground (arith, k)) in
      ground (arith, k, r)
