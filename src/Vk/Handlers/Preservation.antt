-- ===== src/Vk/Handlers/Preservation.antt =====
-- Invariants of the children under each handler.
use orv.Base.{ℕ, ◌≡◌, ◌⊎◌, inl, inr, refl, arith, List, sym, ◌∙◌, Option-cases}
use orv.Protocol.{Header}
use orv.Vk.State.{AddrPort, JoinBody, RegisterBody, Wire, Platform, VaultKeeper}
use orv.Vk.Children.{add_service}
use orv.Vk.Children.Waiting.{waiting, add_service-waiting}
use orv.Vk.Handlers.Outcome.{MessageHandler}
use orv.Vk.Handlers.Joining.{serve_join, drop_child, serve_leave}
use orv.Vk.Handlers.Tree.{serve_vk_heartbeat}
use orv.Vk.Handlers.Services.{apply_register, serve_register, serve_deregister}
use orv.Vk.Handlers.Coherence.{refreshed}
use orv.Vk.Handlers.Forgetting.{deregistered}
use orv.Vk.Handlers.Invariants.{ChildrenInvariant, drop_child-Holds, joined-Holds}
use orv.Vk.Handlers.Waiting.{
  KeepsWaiting, drop_child-waiting, join_cvk-waiting, join_leaf-waiting, serve_leave-waiting,
  serve_join-waiting, serve_vk_heartbeat-waiting, apply_register-waiting, serve_register-waiting,
  deregistered-waiting, serve_deregister-waiting,
}
use orv.Vk.Handlers.Footprints.{
  joined, serve_leave-children, serve_join-children, serve_join_unread, serve_vk_heartbeat-children,
}
use orv.Vk.Handlers.ServiceFootprints.{
  apply_register-children, apply_register_refused, serve_register-children, serve_register_unread,
  serve_deregister-children, serve_deregister_unread,
}

module _ {P : Platform} {Holds : VaultKeeper P → Type 0} (inv : ChildrenInvariant Holds) where
  -- A handler that keeps the invariant, whatever the packet and the sender.
  abbrev pub Keeps : MessageHandler P → Type 0
  Keeps serve =
      (h : Header) (b : List ℕ) (a : AddrPort) (vk : VaultKeeper P)
      → Holds vk
      → Holds (serve h b a vk).0

  -- A handler that leaves the children as they are.
  pub children-Keeps :
      (serve : MessageHandler P)
      → ((h : Header) (b : List ℕ) (a : AddrPort) (vk : VaultKeeper P)
          → (serve h b a vk).0.children ≡ vk.children)
      → KeepsWaiting serve
      → Keeps serve
  children-Keeps serve same waits h b a vk =
      inv.transfer vk (serve h b a vk).0 (same h b a vk) (waits h b a vk)

  -- A state whose children are those of one of two states in which the invariant holds.
  either :
      (u v w : VaultKeeper P)
      → (w.children ≡ u.children) ⊎ (w.children ≡ v.children)
      → waiting w ≡ waiting u
      → waiting v ≡ waiting u
      → Holds u
      → Holds v
      → Holds w
  either u v w (inl e) f g c d = inv.transfer u w e f c
  either u v w (inr e) f g c d = inv.transfer v w e (f ∙ sym g) d

  pub serve_leave-Keeps : Keeps serve_leave
  serve_leave-Keeps h b a vk c =
      either vk (drop_child h.id vk).1 (serve_leave h b a vk).0 (serve_leave-children h b a vk)
        (serve_leave-waiting h b a vk) (drop_child-waiting h.id vk) c
        (drop_child-Holds inv h.id vk c)

  joined-waiting :
      (w : Wire) (j : JoinBody) (i : ℕ) (vk : VaultKeeper P)
      → waiting (joined w j i vk).0 ≡ waiting vk
  joined-waiting w j i vk = ground (arith, join_cvk-waiting w j i vk, join_leaf-waiting i vk)

  pub serve_join-Keeps : (w : Wire) → Keeps (serve_join w)
  serve_join-Keeps w h b a vk c =
      let out = (serve_join w h b a vk).0 in
      let same = serve_join-waiting w h b a vk in
      elim (Option-cases (w.unmarshal_join b)) [
        | inl e ↦ inv.transfer vk out (serve_join_unread w h b a vk e) same c
        | inr (j, e) ↦
            either vk (joined w j h.id vk).0 out (serve_join-children w h b a vk j e) same
              (joined-waiting w j h.id vk) c (joined-Holds inv w j h.id vk c)
      ]

  pub serve_vk_heartbeat-Keeps : Keeps serve_vk_heartbeat
  serve_vk_heartbeat-Keeps h b a vk c =
      either vk (refreshed h.id vk) (serve_vk_heartbeat h b a vk).0
        (serve_vk_heartbeat-children h b a vk) (serve_vk_heartbeat-waiting h b a vk) refl c
        (inv.on_refreshed h.id vk c)

  apply_register-Holds :
      (w : Wire) (r : RegisterBody) (i : ℕ) (a : AddrPort) (vk : VaultKeeper P)
      → Holds vk
      → Holds (apply_register w r i a vk).0
  apply_register-Holds w r i a vk c =
      let out = (apply_register w r i a vk).0 in
      let same = apply_register-waiting w r i a vk in
      elim (Option-cases (w.parse_duration r.stale)) [
        | inl e ↦ inv.transfer vk out (apply_register_refused w r i a vk (inl e)) same c
        | inr (d, e) ↦ elim (Option-cases (w.parse_addr_port r.address)) [
          | inl f ↦ inv.transfer vk out (apply_register_refused w r i a vk (inr f)) same c
          | inr (p, f) ↦
              either vk (add_service i r.service p d vk).1 out
                (apply_register-children w r i a vk d p e f) same
                (add_service-waiting i r.service p d vk) c (inv.on_add_service i r.service p d vk c)
        ]
      ]

  pub serve_register-Keeps : (w : Wire) → Keeps (serve_register w)
  serve_register-Keeps w h b a vk c =
      let out = (serve_register w h b a vk).0 in
      let same = serve_register-waiting w h b a vk in
      elim (Option-cases (w.unmarshal_register b)) [
        | inl e ↦ inv.transfer vk out (serve_register_unread w h b a vk e) same c
        | inr (r, e) ↦
            either vk (apply_register w r h.id a vk).0 out (serve_register-children w h b a vk r e)
              same (apply_register-waiting w r h.id a vk) c (apply_register-Holds w r h.id a vk c)
      ]

  pub serve_deregister-Keeps : (w : Wire) → Keeps (serve_deregister w)
  serve_deregister-Keeps w h b a vk c =
      let out = (serve_deregister w h b a vk).0 in
      let same = serve_deregister-waiting w h b a vk in
      elim (Option-cases (w.unmarshal_deregister b)) [
        | inl e ↦ inv.transfer vk out (serve_deregister_unread w h b a vk e) same c
        | inr (s, e) ↦
            either vk (deregistered h.id s vk) out (serve_deregister-children w h b a vk s e) same
              (deregistered-waiting h.id s vk) c (inv.on_deregistered h.id s vk c)
      ]
