-- ===== src/Vk/Interleaved/Runs.antt =====
-- The invariant of Vk/Interleaved/Listed from the start of a Vaultkeeper on.
use orv.Base.{ℕ, ◌≡◌, inl, inr, ◌++◌, some, nat_eq, text_eq}
use orv.Version.{VersionSet}
use orv.Vk.State.{AddrPort, PruneTimes, Heartbeat, Platform, VaultKeeper}
use orv.Vk.Dispatch.Coherence.{dispatch_datagram-Holds}
use orv.Vk.Dispatch.Runs.{new-Coherent, heartbeat_tick-children}
use orv.Vk.Requests.{new_vault_keeper, heartbeat_tick}
use orv.Vk.Interleaved.{
  Step, packet, tick, timer_ends, cvk_expires, callback_runs, Reaches, start_of, then_step,
}
use orv.Vk.Interleaved.Listed.{Listed, Listed-transfer, Listed-ChildrenInvariant}
use orv.Vk.Interleaved.Timed.{
  awaits-split, heartbeat_tick-waiting, elapse-Listed, expire_cvk-Listed, callback-Listed,
}

module _ {P : Platform} where
  pub Step-Listed : (v w : VaultKeeper P) → Step v w → Listed v → Listed w
  Step-Listed v w (packet x k d a vk) l =
      dispatch_datagram-Holds Listed-ChildrenInvariant x k d a vk l
  Step-Listed v w (tick b vk) l =
      Listed-transfer vk (heartbeat_tick b vk) (heartbeat_tick-children b vk)
        (heartbeat_tick-waiting b vk) l
  Step-Listed v w (timer_ends n vk) l = elapse-Listed n vk l
  Step-Listed v w (cvk_expires i vk) l = expire_cvk-Listed i vk l
  Step-Listed v w (callback_runs before f after vk e) l =
      callback-Listed f (before ++ after) vk (λ t j. rw e (awaits-split t j before f after)) l

  -- From a new Vaultkeeper on, whatever packets arrive, whenever timers and the times of child VKs end,
  -- and in whatever order the callbacks that wait get the lock: no ID is a leaf's and a child VK's, and
  -- each provider that is listed for a service either offers it, at the address that is listed, or was
  -- a child VK that offered it, whose time has ended and whose clean-up waits for the lock.
  pub reachable-Listed :
      (id : ℕ) (addr : AddrPort) (vs : VersionSet) (pt : PruneTimes) (hb : Heartbeat)
      (u vk : VaultKeeper P)
      → new_vault_keeper id addr vs pt hb ≡ some u
      → Reaches u vk
      → Listed vk
  reachable-Listed id addr vs pt hb u vk e (start_of x) =
      let c = new-Coherent id addr vs pt hb u e in
      record { disjoint = c.disjoint; listed = λ t j. inr (inl (c.agree t j)) }
  reachable-Listed id addr vs pt hb u vk e (then_step x v w r s) =
      Step-Listed v w s (reachable-Listed id addr vs pt hb u v e r)
