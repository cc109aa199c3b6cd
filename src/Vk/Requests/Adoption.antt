-- ===== src/Vk/Requests/Adoption.antt =====
-- A MERGE that this Vaultkeeper asked for, once it was answered.
use orv.Base.{
  ℕ, ◌+◌, ◌%◌, ◌^◌, ◌≡◌, arith, true, false, [], ◌++◌, some, is_some, nat_eq, if◌then◌else◌,
}
use orv.Base.Map.{beq_refl}
use orv.Vk.State.{AddrPort, Platform, VaultKeeper}
use orv.Vk.Children.{load_cvk, load_leaf, set_cvks, add_cvk}
use orv.Vk.Handlers.Tree.{raise_height}
use orv.Vk.Handlers.Footprints.{send_increments-children}
use orv.Vk.Handlers.Increments.{increment_packets, send_increments-sent, send_increments-structure}
use orv.Vk.Requests.{adopt}

module _ {P : Platform} where
  -- The state in which the peer has become a child.
  abbrev pub adopted : ℕ → AddrPort → VaultKeeper P → VaultKeeper P
  adopted peer target vk =
      set_cvks
        (P.cvk_table.store peer (record { services = []; addr = target }) vk.prune_time.child_vk
          vk.children.cvks)
        (raise_height vk)

  -- Adopting a peer that is no leaf succeeds: the height is one more, in 16 bits, the peer is a child
  -- VK at its address, and each child VK but the peer is sent an INCREMENT, in the order of the
  -- table. Adopting a leaf fails, and no child is told, but the height has risen.
  pub adopt_lem :
      (peer : ℕ) (target : AddrPort) (vk : VaultKeeper P)
      → let out = adopt peer target vk in
        let new = adopted peer target vk in
        let leaf = is_some (load_leaf peer vk) in
        (out.0 ≡ (if leaf then false else true))
        × (out.1.structure.height ≡ (vk.structure.height + 1) % 2 ^ 16)
        × (load_cvk peer out.1
            ≡ (if leaf then load_cvk peer vk else some (record { services = []; addr = target })))
        × (out.1.sent ≡ (
            if leaf
            then vk.sent
            else vk.sent
              ++ increment_packets (some peer) (P.cvk_table.entries new.children.cvks) new))
  unfolding adopt add_cvk
  adopt_lem peer target vk =
      let new = adopted peer target vk in
      let m = P.cvk_table.entries new.children.cvks in
      ground (
        arith,
        beq_refl peer,
        P.cvk_table.load-store peer peer (record { services = []; addr = target })
            vk.prune_time.child_vk vk.children.cvks,
        send_increments-children (some peer) m new,
        send_increments-structure (some peer) m new,
        send_increments-sent (some peer) m new,
      )
