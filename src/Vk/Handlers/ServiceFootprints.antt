-- ===== src/Vk/Handlers/ServiceFootprints.antt =====
-- What the handlers of services, and of clients, do to the children.
use orv.Base.{
  ℕ, ◌≡◌, ◌⊎◌, inl, inr, refl, arith, String, List, [], Option, none, some, Option-cases,
}
use orv.Base.Int.{ℤ}
use orv.Version.{Version}
use orv.Protocol.{Header}
use orv.Protocol.MessageType
use orv.Vk.State.{
  AddrPort, Errno, RegisterBody, list_ack, get_ack, ListBody, GetBody, Wire, Platform, VaultKeeper,
  send, respond_success,
}
use orv.Vk.Providers.{message_parent}
use orv.Vk.Children.{load_leaf, add_service}
use orv.Vk.Handlers.Services.{
  accept_register, apply_register, serve_register, apply_deregister, serve_deregister,
  answer_heartbeat, refresh_services, serve_service_heartbeat, Refreshed,
}
use orv.Vk.Handlers.Clients.{
  Link, dial_fails, write_fails, up, send_list_response, forward_list, handle_list, acknowledge,
  serve_list, forward_get, handle_get, serve_get,
}
use orv.Vk.Handlers.Forgetting.{deregistered}
use orv.Vk.Handlers.Footprints.{respond_success-children}
use orv.Vk.Handlers.Status.{serve_status}

module _ {P : Platform} where
  pub accept_register-children :
      (s : String) (p a : AddrPort) (o : Option Errno × VaultKeeper P)
      → (accept_register s p a o).0.children ≡ o.1.children
  unfolding accept_register message_parent respond_success send
  accept_register-children s p a (some e, vk) = refl
  accept_register-children s p a (none, vk) = ground arith

  pub apply_register-children :
      (w : Wire) (r : RegisterBody) (i : ℕ) (a : AddrPort) (vk : VaultKeeper P) (d : ℤ)
      (p : AddrPort)
      → w.parse_duration r.stale ≡ some d
      → w.parse_addr_port r.address ≡ some p
      → ((apply_register w r i a vk).0.children ≡ vk.children)
        ⊎ ((apply_register w r i a vk).0.children ≡ (add_service i r.service p d vk).1.children)
  unfolding apply_register
  apply_register-children w r i a vk d p e f =
      ground (arith, accept_register-children r.service p a (add_service i r.service p d vk))

  pub apply_register_refused :
      (w : Wire) (r : RegisterBody) (i : ℕ) (a : AddrPort) (vk : VaultKeeper P)
      → (w.parse_duration r.stale ≡ none) ⊎ (w.parse_addr_port r.address ≡ none)
      → (apply_register w r i a vk).0.children ≡ vk.children
  unfolding apply_register
  apply_register_refused w r i a vk e = ground arith

  pub serve_register-children :
      (w : Wire) (h : Header) (b : List ℕ) (a : AddrPort) (vk : VaultKeeper P) (r : RegisterBody)
      → w.unmarshal_register b ≡ some r
      → ((serve_register w h b a vk).0.children ≡ vk.children)
        ⊎ ((serve_register w h b a vk).0.children ≡ (apply_register w r h.id a vk).0.children)
  unfolding serve_register
  serve_register-children w h b a vk r e = ground arith

  pub serve_register_unread :
      (w : Wire) (h : Header) (b : List ℕ) (a : AddrPort) (vk : VaultKeeper P)
      → w.unmarshal_register b ≡ none
      → (serve_register w h b a vk).0.children ≡ vk.children
  unfolding serve_register
  serve_register_unread w h b a vk e = ground arith

  pub apply_deregister-children :
      (i : ℕ) (s : String) (a : AddrPort) (vk : VaultKeeper P)
      → (apply_deregister i s a vk).0.children ≡ (deregistered i s vk).children
  unfolding apply_deregister respond_success send
  apply_deregister-children i s a vk = ground arith

  pub serve_deregister-children :
      (w : Wire) (h : Header) (b : List ℕ) (a : AddrPort) (vk : VaultKeeper P) (s : String)
      → w.unmarshal_deregister b ≡ some s
      → ((serve_deregister w h b a vk).0.children ≡ vk.children)
        ⊎ ((serve_deregister w h b a vk).0.children ≡ (deregistered h.id s vk).children)
  unfolding serve_deregister
  serve_deregister-children w h b a vk s e = ground (arith, apply_deregister-children h.id s a vk)

  pub serve_deregister_unread :
      (w : Wire) (h : Header) (b : List ℕ) (a : AddrPort) (vk : VaultKeeper P)
      → w.unmarshal_deregister b ≡ none
      → (serve_deregister w h b a vk).0.children ≡ vk.children
  unfolding serve_deregister
  serve_deregister_unread w h b a vk e = ground arith

  answer_heartbeat-children :
      (r : Refreshed) (a : AddrPort) (vk : VaultKeeper P)
      → (answer_heartbeat r a vk).0.children ≡ vk.children
  unfolding answer_heartbeat respond_success send
  answer_heartbeat-children r a vk = ground arith

  pub serve_service_heartbeat-children :
      (w : Wire) (h : Header) (b : List ℕ) (a : AddrPort) (vk : VaultKeeper P)
      → (serve_service_heartbeat w h b a vk).0.children ≡ vk.children
  unfolding serve_service_heartbeat
  serve_service_heartbeat-children w h b a vk =
      elim (Option-cases (w.unmarshal_service_heartbeat b)) [
        | inl e ↦ ground arith
        | inr (ss, e) ↦ elim (Option-cases (load_leaf h.id vk)) [
          | inl f ↦ ground arith
          | inr (l, f) ↦ ground (
            arith,
            answer_heartbeat-children
                (refresh_services l ss
                  (record { clock = vk.clock; refresheds = []; unknowns = [] }))
                a vk,
          )
        ]
      ]

  handle_list-children :
      (k : Link) (r : ListBody) (to : AddrPort) (v : Version) (vk : VaultKeeper P)
      → (handle_list k r to v vk).children ≡ vk.children
  unfolding handle_list forward_list send_list_response respond_success send
  handle_list-children dial_fails r to v vk = ground arith
  handle_list-children write_fails r to v vk = ground arith
  handle_list-children up r to v vk = ground arith

  pub serve_list-children :
      (w : Wire) (k : Link) (h : Header) (b : List ℕ) (a : AddrPort) (vk : VaultKeeper P)
      → (serve_list w k h b a vk).0.children ≡ vk.children
  unfolding serve_list
  serve_list-children w k h b a vk = elim (Option-cases (w.unmarshal_list b)) [
    | inl e ↦ ground arith
    | inr (r, e) ↦ elim (Option-cases (w.resolve_udp_addr r.response_addr)) [
      | inl f ↦ ground arith
      | inr (to, f) ↦
          let x = acknowledge a MessageType.list_ack (list_ack r.token) vk in
          unfold acknowledge in
          ground (
            arith,
            handle_list-children k r to h.version x,
            respond_success-children vk a vk.version_set.highest MessageType.list_ack
                (list_ack r.token),
          )
    ]
  ]

  handle_get-children :
      (r : GetBody) (to : AddrPort) (v : Version) (vk : VaultKeeper P)
      → (handle_get r to v vk).children ≡ vk.children
  unfolding handle_get forward_get message_parent respond_success send
  handle_get-children r to v vk = ground arith

  pub serve_get-children :
      (w : Wire) (h : Header) (b : List ℕ) (a : AddrPort) (vk : VaultKeeper P)
      → (serve_get w h b a vk).0.children ≡ vk.children
  unfolding serve_get
  serve_get-children w h b a vk = elim (Option-cases (w.unmarshal_get b)) [
    | inl e ↦ ground arith
    | inr (r, e) ↦ elim (Option-cases (w.resolve_udp_addr r.response_addr)) [
      | inl f ↦ ground arith
      | inr (to, f) ↦
          let x = acknowledge a MessageType.get_ack (get_ack r.token) vk in
          unfold acknowledge in
          ground (
            arith,
            handle_get-children r to h.version x,
            respond_success-children vk a vk.version_set.highest MessageType.get_ack
                (get_ack r.token),
          )
    ]
  ]

  pub serve_status-children :
      (w : Wire) (h : Header) (b : List ℕ) (a : AddrPort) (vk : VaultKeeper P)
      → (serve_status w h b a vk).0.children ≡ vk.children
  unfolding serve_status respond_success send
  serve_status-children w h b a vk = ground arith
