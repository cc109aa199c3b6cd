-- ===== src/Vk/Handlers/Waiting.antt =====
-- No handler adds to the callbacks that wait for the lock of the children.
use orv.Base.{
  ℕ, ◌≡◌, refl, arith, String, List, [], ◌∷◌, Option, none, some, Option-cases, inl, inr, nat_eq,
  text_eq,
}
use orv.Base.Map.{lookup}
use orv.Version.{Version}
use orv.Protocol.{Header}
use orv.Protocol.MessageType
use orv.Vk.State.{
  AddrPort, Errno, Payload, JoinBody, RegisterBody, list_ack, get_ack, ListBody, GetBody, Wire,
  Leaf, Platform, VaultKeeper, send, respond_success,
}
use orv.Vk.Timers.{stop}
use orv.Vk.Providers.{message_parent}
use orv.Vk.Providers.Laws.{remove_provider-SameElse}
use orv.Vk.Children.{load_leaf, set_cvks, add_service, remove_cvk}
use orv.Vk.Children.Waiting.{
  waiting, stop-waiting, reset-waiting, add_cvk-waiting, add_leaf-waiting, add_service-waiting,
  remove_cvk-waiting, remove_leaf-waiting,
}
use orv.Vk.Handlers.Outcome.{Outcome, MessageHandler}
use orv.Vk.Handlers.Joining.{
  take_hello, install_cvk, join_cvk, join_leaf, accept_join, serve_hello, serve_join, drop_child,
  serve_leave,
}
use orv.Vk.Handlers.Tree.{
  merge_again, merge_under, merge_request, merge_root, serve_merge, apply_increment,
  serve_increment, serve_vk_heartbeat,
}
use orv.Vk.Handlers.Services.{
  accept_register, apply_register, serve_register, forget_service, apply_deregister,
  serve_deregister, answer_heartbeat, refresh_service, refresh_services, serve_service_heartbeat,
  Refreshed,
}
use orv.Vk.Handlers.Clients.{
  Link, dial_fails, write_fails, up, send_list_response, forward_list, handle_list, acknowledge,
  serve_list, forward_get, handle_get, serve_get,
}
use orv.Vk.Handlers.Forgetting.{deregistered}
use orv.Vk.Handlers.Footprints.{joined}
use orv.Vk.Handlers.Status.{serve_status}

refresh_service-waiting :
    (l : Leaf) (s : String) (r : Refreshed)
    → (refresh_service l s r).clock.waiting ≡ r.clock.waiting
unfolding refresh_service
refresh_service-waiting l s r = elim (Option-cases (lookup s l.services)) [
  | inl e ↦ ground arith
  | inr (x, e) ↦
      ground
        (arith, stop-waiting x.pruner r.clock, reset-waiting x.pruner (stop x.pruner r.clock).1)
]

refresh_services-waiting :
    (l : Leaf) (ss : List String) (r : Refreshed)
    → (refresh_services l ss r).clock.waiting ≡ r.clock.waiting
unfolding refresh_services
refresh_services-waiting l [] r = refl
refresh_services-waiting l (s ∷ ss) r =
    ground
      (arith, refresh_service-waiting l s r, refresh_services-waiting l ss (refresh_service l s r))

module _ {P : Platform} where
  pub respond_success-waiting :
      (vk : VaultKeeper P) (a : AddrPort) (v : Version) (t : ℕ) (p : Payload)
      → waiting (respond_success vk a v t p) ≡ waiting vk
  unfolding respond_success send
  respond_success-waiting vk a v t p = refl

  message_parent-waiting :
      (t : ℕ) (p : Payload) (vk : VaultKeeper P) → waiting (message_parent t p vk) ≡ waiting vk
  unfolding message_parent send
  message_parent-waiting t p vk = ground arith

  -- A handler that keeps the callbacks that wait.
  abbrev pub KeepsWaiting : MessageHandler P → Type 0
  KeepsWaiting serve =
      (h : Header) (b : List ℕ) (a : AddrPort) (vk : VaultKeeper P)
      → waiting (serve h b a vk).0 ≡ waiting vk

  pub serve_hello-waiting : KeepsWaiting serve_hello
  unfolding serve_hello respond_success send
  serve_hello-waiting h b a vk = ground arith

  accept_join-waiting : (a : AddrPort) (o : Outcome P) → waiting (accept_join a o).0 ≡ waiting o.0
  unfolding accept_join respond_success send
  accept_join-waiting a (vk, none) = refl
  accept_join-waiting a (vk, some e) = refl

  pub join_cvk-waiting :
      (w : Wire) (j : JoinBody) (i : ℕ) (vk : VaultKeeper P)
      → waiting (join_cvk w j i vk).0 ≡ waiting vk
  unfolding join_cvk install_cvk take_hello
  join_cvk-waiting w j i vk = elim (Option-cases (w.parse_addr_port j.vk_addr)) [
    | inl e ↦ ground arith
    | inr (a, e) ↦
        let u : VaultKeeper P =
          set_cvks (P.cvk_table.refresh i vk.prune_time.child_vk vk.children.cvks).1 vk in
        ground (arith, add_cvk-waiting i a (take_hello i u).1)
  ]

  pub join_leaf-waiting : (i : ℕ) (vk : VaultKeeper P) → waiting (join_leaf i vk).0 ≡ waiting vk
  unfolding join_leaf take_hello
  join_leaf-waiting i vk = ground (arith, add_leaf-waiting i (take_hello i vk).1)

  pub serve_join-waiting : (w : Wire) → KeepsWaiting (serve_join w)
  unfolding serve_join
  serve_join-waiting w h b a vk = elim (Option-cases (w.unmarshal_join b)) [
    | inl e ↦ ground arith
    | inr (j, e) ↦ ground (
      arith,
      accept_join-waiting a (joined w j h.id vk),
      join_cvk-waiting w j h.id vk,
      join_leaf-waiting h.id vk,
    )
  ]

  pub drop_child-waiting : (i : ℕ) (vk : VaultKeeper P) → waiting (drop_child i vk).1 ≡ waiting vk
  unfolding drop_child
  drop_child-waiting i vk =
      ground (arith, remove_cvk-waiting i vk, remove_leaf-waiting i (remove_cvk i vk).1)

  pub serve_leave-waiting : KeepsWaiting serve_leave
  unfolding serve_leave respond_success send
  serve_leave-waiting h b a vk = ground (arith, drop_child-waiting h.id vk)

  merge_under-waiting :
      (w : Wire) (i : ℕ) (r : ℕ × String) (a : AddrPort) (vk : VaultKeeper P)
      → waiting (merge_under w i r a vk).0 ≡ waiting vk
  unfolding merge_under respond_success send
  merge_under-waiting w i (height, text) a vk = ground arith

  merge_root-waiting :
      (w : Wire) (i : ℕ) (b : List ℕ) (a : AddrPort) (vk : VaultKeeper P)
      → waiting (merge_root w i b a vk).0 ≡ waiting vk
  unfolding merge_root take_hello
  merge_root-waiting w i b a vk = elim (Option-cases (merge_request w b a)) [
    | inl e ↦ ground arith
    | inr (r, e) ↦ ground (arith, merge_under-waiting w i r a (take_hello i vk).1)
  ]

  pub serve_merge-waiting : (w : Wire) → KeepsWaiting (serve_merge w)
  unfolding serve_merge merge_again respond_success send
  serve_merge-waiting w h b a vk = ground (arith, merge_root-waiting w h.id b a vk)

  apply_increment-waiting :
      (n : ℕ) (a : AddrPort) (vk : VaultKeeper P) → waiting (apply_increment n a vk).0 ≡ waiting vk
  unfolding apply_increment send
  apply_increment-waiting n a vk = ground arith

  pub serve_increment-waiting : (w : Wire) → KeepsWaiting (serve_increment w)
  unfolding serve_increment
  serve_increment-waiting w h b a vk = elim (Option-cases (w.unmarshal_increment b)) [
    | inl e ↦ ground (arith, apply_increment-waiting 0 a vk)
    | inr (n, e) ↦ ground (arith, apply_increment-waiting 0 a vk, apply_increment-waiting n a vk)
  ]

  pub serve_vk_heartbeat-waiting : KeepsWaiting serve_vk_heartbeat
  unfolding serve_vk_heartbeat respond_success send
  serve_vk_heartbeat-waiting h b a vk = ground arith

  accept_register-waiting :
      (s : String) (p a : AddrPort) (o : Option Errno × VaultKeeper P)
      → waiting (accept_register s p a o).0 ≡ waiting o.1
  unfolding accept_register respond_success message_parent send
  accept_register-waiting s p a (some e, vk) = refl
  accept_register-waiting s p a (none, vk) = ground arith

  pub apply_register-waiting :
      (w : Wire) (r : RegisterBody) (i : ℕ) (a : AddrPort) (vk : VaultKeeper P)
      → waiting (apply_register w r i a vk).0 ≡ waiting vk
  unfolding apply_register
  apply_register-waiting w r i a vk = elim (Option-cases (w.parse_duration r.stale)) [
    | inl e ↦ ground arith
    | inr (d, e) ↦ elim (Option-cases (w.parse_addr_port r.address)) [
      | inl f ↦ ground arith
      | inr (p, f) ↦ ground (
        arith,
        accept_register-waiting r.service p a (add_service i r.service p d vk),
        add_service-waiting i r.service p d vk,
      )
    ]
  ]

  pub serve_register-waiting : (w : Wire) → KeepsWaiting (serve_register w)
  unfolding serve_register
  serve_register-waiting w h b a vk = elim (Option-cases (w.unmarshal_register b)) [
    | inl e ↦ ground arith
    | inr (r, e) ↦ ground (arith, apply_register-waiting w r h.id a vk)
  ]

  pub deregistered-waiting :
      (i : ℕ) (s : String) (vk : VaultKeeper P) → waiting (deregistered i s vk) ≡ waiting vk
  unfolding forget_service
  deregistered-waiting i s vk = ground (arith, remove_provider-SameElse s i vk)

  pub serve_deregister-waiting : (w : Wire) → KeepsWaiting (serve_deregister w)
  unfolding serve_deregister apply_deregister respond_success send
  serve_deregister-waiting w h b a vk = elim (Option-cases (w.unmarshal_deregister b)) [
    | inl e ↦ ground arith
    | inr (s, e) ↦ ground (arith, deregistered-waiting h.id s vk)
  ]

  pub serve_service_heartbeat-waiting : (w : Wire) → KeepsWaiting (serve_service_heartbeat w)
  unfolding serve_service_heartbeat answer_heartbeat respond_success send
  serve_service_heartbeat-waiting w h b a vk =
      elim (Option-cases (w.unmarshal_service_heartbeat b)) [
        | inl e ↦ ground arith
        | inr (ss, e) ↦ elim (Option-cases (load_leaf h.id vk)) [
          | inl f ↦ ground arith
          | inr (l, f) ↦ ground (
            arith,
            refresh_services-waiting l ss
                (record { clock = vk.clock; refresheds = []; unknowns = [] }),
          )
        ]
      ]

  handle_list-waiting :
      (k : Link) (r : ListBody) (to : AddrPort) (v : Version) (vk : VaultKeeper P)
      → waiting (handle_list k r to v vk) ≡ waiting vk
  unfolding handle_list forward_list send_list_response respond_success send
  handle_list-waiting dial_fails r to v vk = ground arith
  handle_list-waiting write_fails r to v vk = ground arith
  handle_list-waiting up r to v vk = ground arith

  pub serve_list-waiting : (w : Wire) (k : Link) → KeepsWaiting (serve_list w k)
  unfolding serve_list acknowledge respond_success send
  serve_list-waiting w k h b a vk = elim (Option-cases (w.unmarshal_list b)) [
    | inl e ↦ ground arith
    | inr (r, e) ↦ elim (Option-cases (w.resolve_udp_addr r.response_addr)) [
      | inl f ↦ ground arith
      | inr (to, f) ↦
          let u : VaultKeeper P = acknowledge a MessageType.list_ack (list_ack r.token) vk in
          ground (arith, handle_list-waiting k r to h.version u)
    ]
  ]

  handle_get-waiting :
      (r : GetBody) (to : AddrPort) (v : Version) (vk : VaultKeeper P)
      → waiting (handle_get r to v vk) ≡ waiting vk
  unfolding handle_get forward_get message_parent respond_success send
  handle_get-waiting r to v vk = ground arith

  pub serve_get-waiting : (w : Wire) → KeepsWaiting (serve_get w)
  unfolding serve_get acknowledge respond_success send
  serve_get-waiting w h b a vk = elim (Option-cases (w.unmarshal_get b)) [
    | inl e ↦ ground arith
    | inr (r, e) ↦ elim (Option-cases (w.resolve_udp_addr r.response_addr)) [
      | inl f ↦ ground arith
      | inr (to, f) ↦
          let u : VaultKeeper P = acknowledge a MessageType.get_ack (get_ack r.token) vk in
          ground (arith, handle_get-waiting r to h.version u)
    ]
  ]

  pub serve_status-waiting : (w : Wire) → KeepsWaiting (serve_status w)
  unfolding serve_status respond_success send
  serve_status-waiting w h b a vk = ground arith
