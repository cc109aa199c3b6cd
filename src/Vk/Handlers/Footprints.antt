-- ===== src/Vk/Handlers/Footprints.antt =====
-- What each handler does to the children: it leaves them as they were, or as one operation of
-- Vk/Children leaves them. All but the children is left open here.
use orv.Base.{
  ℕ, ◌≡◌, ◌⊎◌, inl, inr, refl, arith, String, List, [], ◌∷◌, Option, none, some, nat_eq,
  if◌then◌else◌, Option-cases,
}
use orv.Base.Map.{Map}
use orv.Version.{Version}
use orv.Protocol.{Header}
use orv.Vk.State.{
  AddrPort, Cvk, Payload, JoinBody, Wire, Platform, VaultKeeper, send, respond_success,
}
use orv.Vk.Providers.{message_parent}
use orv.Vk.Handlers.Outcome.{Outcome}
use orv.Vk.Handlers.Joining.{
  take_hello, join_cvk, join_leaf, accept_join, serve_hello, serve_join, drop_child, serve_leave,
}
use orv.Vk.Handlers.Tree.{
  merge_again, merge_under, merge_request, merge_root, serve_merge, send_increment, send_increments,
  apply_increment, serve_increment, serve_vk_heartbeat,
}
use orv.Vk.Handlers.Coherence.{refreshed}

module _ {P : Platform} where
  pub respond_success-children :
      (vk : VaultKeeper P) (a : AddrPort) (v : Version) (t : ℕ) (p : Payload)
      → (respond_success vk a v t p).children ≡ vk.children
  unfolding respond_success send
  respond_success-children vk a v t p = refl

  pub message_parent-children :
      (t : ℕ) (p : Payload) (vk : VaultKeeper P) → (message_parent t p vk).children ≡ vk.children
  unfolding message_parent send
  message_parent-children t p vk = ground arith

  pub serve_hello-children :
      (h : Header) (b : List ℕ) (a : AddrPort) (vk : VaultKeeper P)
      → (serve_hello h b a vk).0.children ≡ vk.children
  unfolding serve_hello respond_success send
  serve_hello-children h b a vk = ground arith

  accept_join-children :
      (a : AddrPort) (o : Outcome P) → (accept_join a o).0.children ≡ o.0.children
  unfolding accept_join respond_success send
  accept_join-children a (vk, none) = refl
  accept_join-children a (vk, some e) = refl

  pub serve_leave-children :
      (h : Header) (b : List ℕ) (a : AddrPort) (vk : VaultKeeper P)
      → ((serve_leave h b a vk).0.children ≡ vk.children)
        ⊎ ((serve_leave h b a vk).0.children ≡ (drop_child h.id vk).1.children)
  unfolding serve_leave respond_success send
  serve_leave-children h b a vk = ground arith

  -- The outcome of a JOIN whose body was read.
  abbrev pub joined : Wire → JoinBody → ℕ → VaultKeeper P → Outcome P
  joined w j id vk = if j.is_vk then join_cvk w j id vk else join_leaf id vk

  pub serve_join-children :
      (w : Wire) (h : Header) (b : List ℕ) (a : AddrPort) (vk : VaultKeeper P) (j : JoinBody)
      → w.unmarshal_join b ≡ some j
      → ((serve_join w h b a vk).0.children ≡ vk.children)
        ⊎ ((serve_join w h b a vk).0.children ≡ (joined w j h.id vk).0.children)
  unfolding serve_join
  serve_join-children w h b a vk j e = ground (arith, accept_join-children a (joined w j h.id vk))

  pub serve_join_unread :
      (w : Wire) (h : Header) (b : List ℕ) (a : AddrPort) (vk : VaultKeeper P)
      → w.unmarshal_join b ≡ none
      → (serve_join w h b a vk).0.children ≡ vk.children
  unfolding serve_join
  serve_join_unread w h b a vk e = ground arith

  merge_again-children :
      (w : Wire) (b : List ℕ) (a : AddrPort) (vk : VaultKeeper P)
      → (merge_again w b a vk).0.children ≡ vk.children
  unfolding merge_again respond_success send
  merge_again-children w b a vk = ground arith

  merge_under-children :
      (w : Wire) (i : ℕ) (r : ℕ × String) (a : AddrPort) (vk : VaultKeeper P)
      → (merge_under w i r a vk).0.children ≡ vk.children
  unfolding merge_under respond_success send
  merge_under-children w i (height, text) a vk = ground arith

  merge_root-children :
      (w : Wire) (i : ℕ) (b : List ℕ) (a : AddrPort) (vk : VaultKeeper P)
      → (merge_root w i b a vk).0.children ≡ vk.children
  unfolding merge_root take_hello
  merge_root-children w i b a vk = elim (Option-cases (merge_request w b a)) [
    | inl e ↦ ground arith
    | inr (r, e) ↦ ground (arith, merge_under-children w i r a (take_hello i vk).1)
  ]

  pub serve_merge-children :
      (w : Wire) (h : Header) (b : List ℕ) (a : AddrPort) (vk : VaultKeeper P)
      → (serve_merge w h b a vk).0.children ≡ vk.children
  unfolding serve_merge
  serve_merge-children w h b a vk =
      ground (arith, merge_again-children w b a vk, merge_root-children w h.id b a vk)

  pub send_increments-children :
      (skip : Option ℕ) (m : Map ℕ Cvk) (vk : VaultKeeper P)
      → (send_increments skip m vk).children ≡ vk.children
  unfolding send_increments send_increment send
  send_increments-children skip [] vk = refl
  send_increments-children none ((i, c) ∷ rest) vk =
      ground (arith, send_increments-children none rest (send_increment c vk))
  send_increments-children (some x) ((i, c) ∷ rest) vk = ground (
    arith,
    send_increments-children (some x) rest (send_increment c vk),
    send_increments-children (some x) rest vk,
  )

  apply_increment-children :
      (n : ℕ) (a : AddrPort) (vk : VaultKeeper P)
      → (apply_increment n a vk).0.children ≡ vk.children
  unfolding apply_increment send
  apply_increment-children n a vk = ground arith

  pub serve_increment-children :
      (w : Wire) (h : Header) (b : List ℕ) (a : AddrPort) (vk : VaultKeeper P)
      → (serve_increment w h b a vk).0.children ≡ vk.children
  unfolding serve_increment
  serve_increment-children w h b a vk = elim (Option-cases (w.unmarshal_increment b)) [
    | inl e ↦ ground (arith, apply_increment-children 0 a vk)
    | inr (n, e) ↦ ground (arith, apply_increment-children 0 a vk, apply_increment-children n a vk)
  ]

  pub serve_vk_heartbeat-children :
      (h : Header) (b : List ℕ) (a : AddrPort) (vk : VaultKeeper P)
      → ((serve_vk_heartbeat h b a vk).0.children ≡ vk.children)
        ⊎ ((serve_vk_heartbeat h b a vk).0.children ≡ (refreshed h.id vk).children)
  unfolding serve_vk_heartbeat respond_success send
  serve_vk_heartbeat-children h b a vk = ground arith
