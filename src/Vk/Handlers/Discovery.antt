-- ===== src/Vk/Handlers/Discovery.antt =====
-- REGISTER and then GET: a service that was registered is found.
use orv.Base.{
  ℕ, ◌≡◌, refl, arith, true, false, String, List, Option, none, some, nat_eq, text_eq, ◌==◌,
}
use orv.Base.Int.{ℤ}
use orv.Base.Map.{beq_refl}
use orv.Version.{Version, supports}
use orv.Protocol.{Header}
use orv.Vk.State.{AddrPort, Errno, RegisterBody, GetBody, Wire, Platform, VaultKeeper}
use orv.Vk.Children.{add_service}
use orv.Vk.Children.Views.{offers, is_child, add_service_views}
use orv.Vk.Children.Coherent.{Coherent}
use orv.Vk.Handlers.Outcome.{is_nil}
use orv.Vk.Handlers.Services.{accept_register, apply_register, serve_register}
use orv.Vk.Handlers.Clients.{send_get_response, handle_get}
use orv.Vk.Handlers.ServiceFootprints.{accept_register-children}
use orv.Vk.Handlers.Answers.{handle_get-offered}
use orv.Vk.Handlers.Invariants.{Coherent-ChildrenInvariant}
use orv.Vk.Handlers.Preservation.{serve_register-Keeps}

module _ {P : Platform} where
  pub accept_register-error :
      (s : String) (p a : AddrPort) (o : Option Errno × VaultKeeper P)
      → (accept_register s p a o).1 ≡ o.0
  unfolding accept_register
  accept_register-error s p a (some e, vk) = refl
  accept_register-error s p a (none, vk) = refl

  pub offers-children :
      (v w : VaultKeeper P) (t : String) (j : ℕ)
      → w.children ≡ v.children
      → offers t j w ≡ offers t j v
  unfolding offers
  offers-children v w t j e = ground arith

  pub serve_register-add_service :
      (w : Wire) (h : Header) (b : List ℕ) (a : AddrPort) (vk : VaultKeeper P) (r : RegisterBody)
      (d : ℤ) (p : AddrPort)
      → h.shorthand ≡ false
      → is_nil b ≡ false
      → supports vk.version_set h.version ≡ true
      → w.unmarshal_register b ≡ some r
      → r.service == "" ≡ false
      → w.parse_duration r.stale ≡ some d
      → w.parse_addr_port r.address ≡ some p
      → serve_register w h b a vk
        ≡ accept_register r.service p a (add_service h.id r.service p d vk)
  unfolding serve_register apply_register
  serve_register-add_service w h b a vk r d p sh full sup read named dur par = ground arith

  -- Where the two views of the children agree and no service is listed without a provider, a
  -- well-formed REGISTER of a child, of a supported version
  -- and with a name, a duration and an address that can be read, is accepted. The child then offers
  -- the service at that address, and a GET of it is answered with an address at which a child offers
  -- it.
  pub register_then_get :
      (w : Wire) (h : Header) (b : List ℕ) (a : AddrPort) (vk : VaultKeeper P) (r : RegisterBody)
      (d : ℤ) (p : AddrPort) (g : GetBody) (to : AddrPort) (v : Version)
      → h.shorthand ≡ false
      → is_nil b ≡ false
      → supports vk.version_set h.version ≡ true
      → w.unmarshal_register b ≡ some r
      → r.service == "" ≡ false
      → w.parse_duration r.stale ≡ some d
      → w.parse_addr_port r.address ≡ some p
      → g.service ≡ r.service
      → is_child h.id vk ≡ true
      → Coherent vk
      → let out = serve_register w h b a vk in
        (out.1 ≡ none)
        × (offers r.service h.id out.0 ≡ some p)
        × ((i : ℕ) × (q : AddrPort) × (offers g.service i out.0 ≡ some q)
            × (handle_get g to v out.0 ≡ send_get_response g to v (some q) out.0))
  register_then_get w h b a vk r d p g to v sh full sup read named dur par same child c =
      let o = add_service h.id r.service p d vk in
      let out = serve_register w h b a vk in
      let e = serve_register-add_service w h b a vk r d p sh full sup read named dur par in
      let views = add_service_views h.id r.service p d vk r.service h.id in
      let kept : out.0.children ≡ o.1.children =
        ground (arith, e, accept_register-children r.service p a o) in
      let offered : offers r.service h.id out.0 ≡ some p = ground (
        arith,
        views,
        beq_refl h.id,
        beq_refl r.service,
        offers-children o.1 out.0 r.service h.id kept,
      ) in
      (
        ground (arith, e, accept_register-error r.service p a o, views),
        offered,
        handle_get-offered g to v out.0 h.id
            (serve_register-Keeps Coherent-ChildrenInvariant w h b a vk c)
            (ground (arith, offered, same)),
      )
